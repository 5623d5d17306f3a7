-- ===== src/Links/Entries.antt =====
-- The entries of one directory as a set of inode numbers: what an entry added and an entry taken out
-- make of it.
use native.Mathlib.Decide.{ℕ_discrete}
use simpel_dateisystem.Base.{
  ℕ, ◌<◌, ◌≡◌, refl, sym, ◌≢◌, ◌↔◌, ◌⊎◌, inl, inr, ap, ◌∙◌, none, some, arith, ltb, ◌==◌,
  Bool-cases, ltb→lt, ltb_false→le, ==_iff, ==_false, if◌then◌else◌, update,
}
use simpel_dateisystem.Knoten.{FileControlBlock, max_files_in_dir}
use simpel_dateisystem.Directory.{free_entry}
use simpel_dateisystem.Directory.Entries.{Entries, free_entry-IsFirstFree}
use simpel_dateisystem.Directory.Effects.{with_entry, without_entry}

-- The number stands in the directory.
abbrev pub Member : Entries → ℕ → Type 0
Member dir e = (j : ℕ) × (j < max_files_in_dir) × (dir j ≡ some e)

-- No number stands in the directory twice.
abbrev pub IsOnce : Entries → Type 0
IsOnce dir =
    (j k e : ℕ)
    → j < max_files_in_dir
    → k < max_files_in_dir
    → dir j ≡ some e
    → dir k ≡ some e
    → j ≡ k

-- A directory with a free entry.
abbrev pub HasRoom : Entries → Type 0
HasRoom dir = (j : ℕ) × (j < max_files_in_dir) × (dir j ≡ none)

-- `new` is `dir` with the child at one free place, if there is one.
pub record Adds (dir new : Entries) (child : ℕ) : Type 0 where
  pub place : ℕ
  pub back :
      (j e : ℕ)
      → new j ≡ some e
      → (dir j ≡ some e) ⊎ ((j ≡ place) × (e ≡ child) × (dir place ≡ none))
  pub keeps : (j e : ℕ) → dir j ≡ some e → new j ≡ some e
  pub room : HasRoom dir → (place < max_files_in_dir) × (new place ≡ some child)

update-Adds :
    (dir : Entries) (i child : ℕ)
    → i < max_files_in_dir
    → dir i ≡ none
    → Adds dir (update dir i (some child)) child
update-Adds dir i child hi free = record {
  place = i;
  back = λ j e at. elim (ℕ_discrete j i) [
    | yes q ↦ inr (q, ground (arith, at), free)
    | no ne ↦ inl (ground (arith, at))
  ];
  keeps = λ j e at. elim (ℕ_discrete j i) [
    | yes q ↦ absurd (cc (at, free, ap dir q))
    | no ne ↦ rw (==_false j i ne) at
  ];
  room = λ _. (hi, rw ((==_iff i i).1 refl) refl);
}

full-Adds : (dir : Entries) (child : ℕ) → ¬ HasRoom dir → Adds dir dir child
full-Adds dir child full = record {
  place = max_files_in_dir;
  back = λ j e at. inl at;
  keeps = λ j e at. at;
  room = λ room. absurd (full room);
}

-- The entries of an inode after add_to_direntry
pub with_entry-Adds :
    (f : FileControlBlock) (child : ℕ) → Adds f.dir_contents (with_entry f child).dir_contents child
unfolding with_entry
with_entry-Adds f child =
    let dir = f.dir_contents in
    let i = free_entry dir max_files_in_dir 0 in
    let first = free_entry-IsFirstFree dir max_files_in_dir 0 in
    elim (Bool-cases (ltb i max_files_in_dir)) [
      | inl room ↦
          let hi = ltb→lt i max_files_in_dir room in
          rw room (update-Adds dir i child hi (first.free (omega (arith, hi))))
      | inr full ↦
          let top = ltb_false→le i max_files_in_dir full in
          rw full (
            full-Adds dir child λ (j, hj, free).
              let taken = first.taken j (omega arith) (omega (arith, hj, top)) in
              ground (arith, taken, free))
    ]

module _ {dir new : Entries} {child : ℕ} (a : Adds dir new child) where
  pub Adds-Member : (e : ℕ) → Member new e ↔ (Member dir e ⊎ ((e ≡ child) × HasRoom dir))
  Adds-Member e = (
    λ (j, hj, at). elim (a.back j e at) [
      | inl old ↦ inl (j, hj, old)
      | inr (q, is_child, free) ↦ inr (is_child, (j, hj, ap dir q ∙ free))
    ],
    λ m. elim m [
      | inl (j, hj, old) ↦ (j, hj, a.keeps j e old)
      | inr (is_child, room) ↦
          let (hp, at) = a.room room in (a.place, hp, at ∙ ap some (sym is_child))
    ],
  )

  pub Adds-IsOnce : IsOnce dir → ¬ Member dir child → IsOnce new
  Adds-IsOnce once fresh j k e hj hk at_j at_k = elim (a.back j e at_j) [
    | inl old_j ↦ elim (a.back k e at_k) [
      | inl old_k ↦ once j k e hj hk old_j old_k
      | inr (_, is_child, _) ↦ absurd (fresh (j, hj, old_j ∙ ap some is_child))
    ]
    | inr (p, is_child, _) ↦ elim (a.back k e at_k) [
      | inl old_k ↦ absurd (fresh (k, hk, old_k ∙ ap some is_child))
      | inr (q, _, _) ↦ p ∙ sym q
    ]
  ]

-- Where an entry of the directory without the entry at `i` stood before.
abbrev place_before : ℕ → ℕ → ℕ
place_before i j = if j == i then 29 else j

module _ (f : FileControlBlock) (i : ℕ) where
  stood :
      (j e : ℕ)
      → (without_entry f i).dir_contents j ≡ some e
      → (f.dir_contents (place_before i j) ≡ some e) × (place_before i j ≢ i) × (j ≢ 29)
  unfolding without_entry
  stood j e at = elim (ℕ_discrete j 29) [
    | yes last ↦ absurd (ground (arith, at, last))
    | no ne ↦ elim (ℕ_discrete j i) [
      | yes q ↦ (ground (arith, at, ne), ground (arith, ne), ne)
      | no other ↦ (ground (arith, at, ne, other), ground (arith, other), ne)
    ]
  ]

  moves :
      (j e : ℕ)
      → f.dir_contents j ≡ some e
      → j ≢ i
      → j < max_files_in_dir
      → i < max_files_in_dir
      → Member (without_entry f i).dir_contents e
  unfolding without_entry
  moves j e at other hj hi = elim (ℕ_discrete j 29) [
    | yes last ↦ (
      i,
      hi,
      rw (==_false i 29 (λ q. other (last ∙ sym q)), (==_iff i i).1 refl)
          (ap f.dir_contents (sym last) ∙ at),
    )
    | no ne ↦ (j, hj, rw (==_false j 29 ne, ==_false j i other) at)
  ]

  module _ (hi : i < max_files_in_dir) (once : IsOnce f.dir_contents) (gone : ℕ)
      (at_i : f.dir_contents i ≡ some gone) where
    pub without_entry-Member :
        (e : ℕ) → Member (without_entry f i).dir_contents e ↔ (Member f.dir_contents e × (e ≢ gone))
    without_entry-Member e = (
      λ (j, hj, at).
          let (before, other, ne) = stood j e at in
          let in_dir : place_before i j < max_files_in_dir = ground (arith, hj) in
          (
            (place_before i j, in_dir, before),
            λ q. other (once (place_before i j) i e in_dir hi before (at_i ∙ ap some (sym q))),
          ),
      λ ((j, hj, at), ne). moves j e at (λ q. ne (cc (at, at_i, ap f.dir_contents q))) hj hi,
    )

    pub without_entry-IsOnce : IsOnce (without_entry f i).dir_contents
    without_entry-IsOnce j k e hj hk at_j at_k =
        let (before_j, _, ne_j) = stood j e at_j in
        let (before_k, _, ne_k) = stood k e at_k in
        let same =
          once (place_before i j) (place_before i k) e (ground (arith, hj)) (ground (arith, hk))
            before_j before_k in
        ground (arith, same, ne_j, ne_k)
