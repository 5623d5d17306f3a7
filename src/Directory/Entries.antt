-- ===== src/Directory/Entries.antt =====
-- The loops over the entries of a directory: where add_to_direntry finds a free entry, and where the
-- loop of indexed_remove_from_direntry ends.
use simpel_dateisystem.Base.{
  ℕ, zero, suc, ◌+◌, ◌-◌, ◌*◌, ◌<◌, ◌≤◌, ◌≡◌, ◌≢◌, inl, inr, ap, true, none, some, arith, ltb,
  Bool-cases, Option-cases, is_some, update,
}
use native.Mathlib.Decide.{ℕ_discrete}
use simpel_dateisystem.Knoten.{Pointer, max_files_in_dir}
use simpel_dateisystem.Directory.{free_entry, scan_entries, last_entry_in_direntry, clear_entries}

abbrev pub Entries : Type 0
Entries = ℕ → Pointer

-- Entry `i` is the first free one, `left` rounds being left from `from` on, or the loop's end.
pub record IsFirstFree (dir : Entries) (from left i : ℕ) : Type 0 where
  pub lower : from ≤ i
  pub upper : i ≤ from + left
  pub taken : (j : ℕ) → from ≤ j → j < i → is_some (dir j) ≡ true
  pub free : i < from + left → dir i ≡ none

pub free_entry-IsFirstFree :
    (dir : Entries) (left from : ℕ) → IsFirstFree dir from left (free_entry dir left from)
unfolding free_entry
free_entry-IsFirstFree dir zero from = record {
  lower = omega arith;
  upper = omega arith;
  taken = λ j h k. absurd (omega arith);
  free = λ h. absurd (omega arith);
}
free_entry-IsFirstFree dir (suc left) from = elim (Option-cases (dir from)) [
  | inl e ↦ rw e (record {
    lower = omega arith;
    upper = omega arith;
    taken = λ j h k. absurd (omega arith);
    free = λ h. e;
  })
  | inr (p, e) ↦
      let r = free_entry-IsFirstFree dir left (suc from) in
      rw e (record {
        lower = omega (arith, r.lower);
        upper = omega (arith, r.upper);
        taken = λ j h k. later j (ap is_some e) r.taken h k;
        free = λ h. r.free (omega arith);
      })
]
  where
    later :
        (j : ℕ) {i : ℕ}
        → is_some (dir from) ≡ true
        → ((j : ℕ) → suc from ≤ j → j < i → is_some (dir j) ≡ true)
        → from ≤ j
        → j < i
        → is_some (dir j) ≡ true
    later j e h lo hi = ground (arith, h j)

-- A directory in which the last entry is taken only when all are.
abbrev pub FillsUp : Entries → Type 0
FillsUp dir = is_some (dir 29) ≡ true → (j : ℕ) → j < max_files_in_dir → is_some (dir j) ≡ true

scan-last_free :
    (dir : Entries) (fuel i : ℕ)
    → dir 29 ≡ none
    → i ≤ 30
    → 30 ≤ i + fuel
    → scan_entries dir fuel i ≡ 30
unfolding scan_entries
scan-last_free dir zero i e h k = omega arith
scan-last_free dir (suc fuel) i e h k = elim (Bool-cases (ltb i 30)) [
  | inl more ↦ elim (Option-cases (dir i)) [
    | inl free ↦ rw (more, free) (scan-last_free dir fuel (i + 1) e (ground arith) (omega arith))
    | inr (p, taken) ↦
        rw (more, taken) (scan-last_free dir fuel (i + 2) e (not_last taken more) (omega arith))
  ]
  | inr done ↦ rw done (ground arith)
]
  where
    not_last : {p : ℕ} → dir i ≡ some p → ltb i 30 ≡ true → i + 2 ≤ 30
    not_last t m = let ne : i ≢ 29 = λ q. cc (ap dir q) in ground arith

scan-full :
    (dir : Entries) (fuel m : ℕ)
    → ((j : ℕ) → j < max_files_in_dir → is_some (dir j) ≡ true)
    → m ≤ 15
    → 30 ≤ 2 * m + fuel
    → scan_entries dir fuel (2 * m) ≡ 30
unfolding scan_entries
scan-full dir zero m all h k = omega arith
scan-full dir (suc fuel) m all h k = elim (Bool-cases (ltb (2 * m) 30)) [
  | inl more ↦
      let next : 2 * m + 2 ≡ 2 * (m + 1) = omega arith in
      rw (more, all (2 * m) (ground arith), next)
        (scan-full dir fuel (m + 1) all (ground arith) (omega arith))
  | inr done ↦ rw done (ground arith)
]

-- In a directory whose last entry is taken only when all are, the loop of
-- indexed_remove_from_direntry takes entry 29, the array's last, for the last one in use.
pub last_entry_in_direntry-FillsUp : (dir : Entries) → FillsUp dir → last_entry_in_direntry dir ≡ 29
unfolding last_entry_in_direntry
last_entry_in_direntry-FillsUp dir fills = elim (Option-cases (dir 29)) [
  | inl free ↦ ap (λ n. n - 1) (scan-last_free dir 30 0 free (omega arith) (omega arith))
  | inr (p, taken) ↦
      ap (λ n. n - 1) (scan-full dir 30 0 (fills (ap is_some taken)) (omega arith) (omega arith))
]

clear_entries-free :
    (dir : Entries) (left i j : ℕ) → dir j ≡ none → clear_entries dir left i j ≡ none
unfolding clear_entries
clear_entries-free dir zero i j e = e
clear_entries-free dir (suc left) i j e =
    clear_entries-free (update dir i none) left (suc i) j (ground arith)

pub clear_entries-none :
    (dir : Entries) (left i j : ℕ) → i ≤ j → j < i + left → clear_entries dir left i j ≡ none
unfolding clear_entries
clear_entries-none dir zero i j h k = absurd (omega arith)
clear_entries-none dir (suc left) i j h k = elim (ℕ_discrete i j) [
  | yes e ↦ clear_entries-free (update dir i none) left (suc i) j (ground arith)
  | no ne ↦ clear_entries-none (update dir i none) left (suc i) j (omega arith) (omega arith)
]
