-- ===== src/Table/Room.antt =====
-- How many files can be made: create_inode of src/DateiSteuerBlock.c and sfs_create of src/sfs.c take a
-- free inode while there is one.
use mathlib.Core.Path.{subst, ap₂}
use simpel_dateisystem.Base.{
  ℕ, zero, suc, ℤ, pos, ◌+◌, ◌-◌, ◌<◌, ◌≤◌, ◌≡◌, refl, sym, ap, ◌∙◌, inl, inr, true, false, not,
  none, some, List, [], ◌∷◌, arith, ◌==◌, ==_iff, ==_false, Bool-cases, if◌then◌else◌, update,
  length, neg_ℕ,
}
use simpel_dateisystem.Base.Outcome.{
  Outcome, ok, Ensures, Ensures-mono, Ensures-bind, Ensures-ok, ◌>>=◌,
}
use simpel_dateisystem.Base.CString.{Text}
use simpel_dateisystem.Store.{Store, Env, HasMemory}
use simpel_dateisystem.Path.{root_name}
use simpel_dateisystem.Path.Parent.{parent_name}
use simpel_dateisystem.Inodes.Safe.{IsSafe}
use simpel_dateisystem.Inodes.Create.{Fits}
use simpel_dateisystem.Sfs.Requests.{create, Reply, handle}
use simpel_dateisystem.Sfs.Safety.{handle-IsSafe}
use simpel_dateisystem.Table.{Table, view, first, fill_row, add, add_at, add_named, add_result}
use simpel_dateisystem.Table.Refine.{handle-run}

-- How many of the `left` marks from `i` on are not 1.
abbrev pub unmarked : (ℕ → ℕ) → ℕ → ℕ → ℕ
unmarked mark zero i = 0
unmarked mark (suc left) i = unmarked mark left (suc i) + (if mark i == 1 then 0 else 1)

-- How many inodes but the root are free.
abbrev pub room : Table → ℕ
room tab = unmarked tab.mark (tab.count - 1) 1

unmarked-update_above :
    (mark : ℕ → ℕ) (left from i : ℕ)
    → i < from
    → unmarked (update mark i 1) left from ≡ unmarked mark left from
unmarked-update_above mark zero from i h = refl
unmarked-update_above mark (suc left) from i h =
    rw (unmarked-update_above mark left (suc from) i (omega arith), ==_false from i (omega arith))
      refl

-- The first mark that is not 1, and what is left when it is set.
record Takes (mark : ℕ → ℕ) (left from : ℕ) : Type 0 where
  at : ℕ
  from_on : from ≤ at
  found : first (λ k. not (mark k == 1)) left from ≡ some at
  fewer : unmarked (update mark at 1) left from + 1 ≡ unmarked mark left from

Takes-here : (mark : ℕ → ℕ) (left from : ℕ) → (mark from == 1) ≡ false → Takes mark (suc left) from
Takes-here mark left from free = record {
  at = from;
  from_on = omega arith;
  found = rw free refl;
  fewer =
      rw
        (
          unmarked-update_above mark left (suc from) from (omega arith),
          (==_iff from from).1 refl,
          free,
        )
        (omega arith);
}

Takes-later :
    (mark : ℕ → ℕ) (left from : ℕ)
    → (mark from == 1) ≡ true
    → Takes mark left (suc from)
    → Takes mark (suc left) from
Takes-later mark left from used later = record {
  at = later.at;
  from_on = omega (arith, later.from_on);
  found = rw used later.found;
  fewer =
      rw (==_false from later.at (omega (arith, later.from_on)), used) (omega (arith, later.fewer));
}

unmarked-Takes : (mark : ℕ → ℕ) (left from : ℕ) → 0 < unmarked mark left from → Takes mark left from
unmarked-Takes mark zero from h = absurd (omega arith)
unmarked-Takes mark (suc left) from h = elim (Bool-cases (mark from == 1)) [
  | inr free ↦ Takes-here mark left from free
  | inl used ↦
      let more : 0 < unmarked mark left (suc from) = ground (arith, used, h) in
      Takes-later mark left from used (unmarked-Takes mark left (suc from) more)
]

-- A path "/name"
abbrev pub IsTop : Text → Type 0
IsTop path = parent_name path ≡ some root_name

-- A creation in the root directory succeeds while there is room, and takes one inode.
record IsMade (tab : Table) (path : Text) : Type 0 where
  at : ℕ
  made : add tab path ≡ (some at, fill_row tab path root_name at)
  fewer : room (fill_row tab path root_name at) + 1 ≡ room tab

add-IsMade : (tab : Table) (path : Text) → IsTop path → 0 < room tab → IsMade tab path
add-IsMade tab path top h =
    let taken = unmarked-Takes tab.mark (tab.count - 1) 1 h in
    record {
      at = taken.at;
      made = ap (add_at tab path) taken.found ∙ ap (add_named tab path taken.at) top ∙ refl;
      fewer = taken.fewer;
    }

unmarked-none :
    (mark : ℕ → ℕ) (left from : ℕ)
    → unmarked mark left from ≡ 0
    → first (λ k. not (mark k == 1)) left from ≡ none
unmarked-none mark zero from e = refl
unmarked-none mark (suc left) from e = elim (Bool-cases (mark from == 1)) [
  | inr free ↦ absurd (ground (arith, free, e))
  | inl used ↦
      let later : unmarked mark left (suc from) ≡ 0 = ground (arith, used, e) in
      rw used (unmarked-none mark left (suc from) later)
]

-- Without room nothing is made.
add_full : (tab : Table) (path : Text) → room tab ≡ 0 → add tab path ≡ (none, tab)
add_full tab path e = ap (add_at tab path) (unmarked-none tab.mark (tab.count - 1) 1 e)

-- Creations one after another, with their results in order.
abbrev pub creates : Env → Store → ℕ → List Text → Outcome (List ℤ × Store)
creates env s mode [] = ok ([], s)
creates env s mode (path ∷ paths) = do
  (reply, t) ← handle env s (create path mode)
  (results, u) ← creates env t mode paths
  ok (reply.result ∷ results, u)

abbrev pub zeros : ℕ → List ℤ
zeros zero = []
zeros (suc n) = pos 0 ∷ zeros n

abbrev pub AreTop : List Text → Type 0
AreTop [] = Unit
AreTop (path ∷ paths) = IsTop path × Fits path × AreTop paths

create-room :
    (env : Env) (s : Store) (path : Text) (mode : ℕ)
    → HasMemory env
    → IsSafe s
    → IsTop path
    → Fits path
    → 0 < room (view s)
    → Ensures
        (λ (a : Reply × Store).
          (a.0.result ≡ pos 0) × (room (view a.1) + 1 ≡ room (view s)) × IsSafe a.1)
        (handle env s (create path mode))
create-room env s path mode m v top fits h =
    let (a, done, safe) =
      Ensures-ok (λ (r : Reply × Store). IsSafe r.1) (handle env s (create path mode))
        (handle-IsSafe env s v (create path mode) fits) in
    let seen = subst (Ensures _) done (handle-run env s m v (create path mode) fits) in
    let made = add-IsMade (view s) path top h in
    let answer = seen ∙ ap (add_result (neg_ℕ (env.errno s.errno))) made.made in
    subst (Ensures _) (sym done) (
      ap (λ (q : ℤ × Table). q.0) answer,
      ap (λ (q : ℤ × Table). room q.1 + 1) answer ∙ made.fewer,
      safe,
    )

-- With room for all of them, creations in the root directory all succeed.
creates-room :
    (env : Env) (s : Store) (mode : ℕ) (paths : List Text)
    → HasMemory env
    → IsSafe s
    → AreTop paths
    → length paths ≤ room (view s)
    → Ensures
        (λ (r : List ℤ × Store).
          (r.0 ≡ zeros (length paths))
          × (room (view r.1) + length paths ≡ room (view s))
          × IsSafe r.1)
        (creates env s mode paths)
creates-room env s mode [] m v new h = (refl, omega arith, v)
creates-room env s mode (path ∷ paths) m v (top, fits, new) h =
    Ensures-bind _ _ (handle env s (create path mode)) _
      (create-room env s path mode m v top fits (omega arith))
      λ (reply, t) (zero_result, one_less, safe).
        Ensures-bind _ _ (creates env t mode paths) _
          (creates-room env t mode paths m safe new (omega (arith, one_less)))
          λ (results, u) (zero_results, fewer, safe').
            (ap₂ (λ z l. z ∷ l) zero_result zero_results, omega (arith, fewer, one_less), safe')

-- Without room a creation fails, and the table stays.
create-full :
    (env : Env) (s : Store) (path : Text) (mode : ℕ)
    → HasMemory env
    → IsSafe s
    → Fits path
    → room (view s) ≡ 0
    → Ensures
        (λ (a : Reply × Store). (a.0.result ≡ neg_ℕ (env.errno s.errno)) × (view a.1 ≡ view s))
        (handle env s (create path mode))
create-full env s path mode m v fits full =
    Ensures-mono _ _ (handle env s (create path mode))
      (handle-run env s m v (create path mode) fits)
      λ (reply, t) seen.
        let answer =
          seen ∙ ap (add_result (neg_ℕ (env.errno s.errno))) (add_full (view s) path full) in
        (ap (λ (q : ℤ × Table). q.0) answer, ap (λ (q : ℤ × Table). q.1) answer)

-- On a safe store, with memory: as many files as there are free inodes can be made one after another,
-- at any paths '/name' that fit, each creation answering 0, whether or not the root directory has a
-- free entry for the file; then no inode is free. The next creation, of any path that fits, answers the
-- negated errno, which may be 0, and leaves names and marks as they were.
pub creates-capacity :
    (env env' : Env) (s : Store) (mode mode' : ℕ) (paths : List Text) (path : Text)
    → HasMemory env
    → HasMemory env'
    → IsSafe s
    → AreTop paths
    → length paths ≡ room (view s)
    → Fits path
    → Ensures
        (λ (r : List ℤ × Store).
          (r.0 ≡ zeros (length paths))
          × (room (view r.1) ≡ 0)
          × Ensures
              (λ (a : Reply × Store).
                (a.0.result ≡ neg_ℕ (env'.errno r.1.errno)) × (view a.1 ≡ view r.1))
              (handle env' r.1 (create path mode')))
        (creates env s mode paths)
creates-capacity env env' s mode mode' paths path m m' v new exact fits =
    Ensures-mono _ _ (creates env s mode paths)
      (creates-room env s mode paths m v new (omega arith))
      λ (results, t) (zero_results, left, safe).
        let full : room (view t) ≡ 0 = omega (arith, left, exact) in
        (zero_results, full, create-full env' t path mode' m' safe fits full)
