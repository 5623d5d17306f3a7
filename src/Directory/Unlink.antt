-- ===== src/Directory/Unlink.antt =====
-- remove_from_direntry: which entry goes, and that the loop stays within the arrays.
use native.Mathlib.Decide.{ℕ_discrete}
use simpel_dateisystem.Base.{
  ℕ, zero, suc, ◌+◌, ◌<◌, ◌≤◌, ◌≡◌, refl, inl, inr, Bool, true, false, some, arith, ◌==ℤ◌,
  Bool-cases, Option-cases, lt→ltb, ==ℤ_iff,
}
use simpel_dateisystem.Base.Outcome.{Outcome, Ensures, Ensures-mono}
use simpel_dateisystem.Knoten.{max_files_in_dir, max_inodes}
use simpel_dateisystem.Store.{Store}
use simpel_dateisystem.Directory.{remove_loop, remove_round, remove_from_direntry}
use simpel_dateisystem.Directory.Entries.{FillsUp}
use simpel_dateisystem.Directory.Effects.{put, without_entry, indexed_remove_lem}

-- Entry `j` of the parent is an inode with the child's number.
abbrev pub Refers : Store → ℕ → ℕ → ℕ → Type 0
Refers s parent child j =
    (e : ℕ) × ((s.inodes parent).dir_contents j ≡ some e)
    × ((s.inodes e).inumber ≡ (s.inodes child).inumber)

-- What the search from entry `from` on has done: nothing, if no entry refers to the child, and
-- otherwise the removal of the first that does.
pub data Unlinked (s : Store) (parent child from : ℕ) (t : Store) : Type 0 where
  absent :
      ((j : ℕ) → from ≤ j → j < max_files_in_dir → ¬ Refers s parent child j)
      → t ≡ s
      → Unlinked s parent child from t
  removed :
      (i : ℕ)
      → from ≤ i
      → i < max_files_in_dir
      → Refers s parent child i
      → ((j : ℕ) → from ≤ j → j < i → ¬ Refers s parent child j)
      → t ≡ put s parent (without_entry (s.inodes parent) i)
      → Unlinked s parent child from t

module _ (s : Store) (parent child : ℕ) where
  split : (from j : ℕ) (P : ℕ → Type 0) → P from → (suc from ≤ j → P j) → from ≤ j → P j
  split from j P here later h = elim (ℕ_discrete from j) [
    | yes e ↦ rw (← e) here
    | no ne ↦ later (omega arith)
  ]

  skip :
      (from : ℕ) (t : Store)
      → ¬ Refers s parent child from
      → Unlinked s parent child (suc from) t
      → Unlinked s parent child from t
  skip from t miss (absent all e) =
      absent (λ j lo hi. split from j (λ k. ¬ Refers s parent child k) miss (λ h. all j h hi) lo) e
  skip from t miss (removed i lo hi hit before e) =
      removed i (omega arith) hi hit
        (λ j lo' hi'. split from j (λ k. ¬ Refers s parent child k) miss (λ h. before j h hi') lo')
        e

  abbrev IsDone : ℕ → Bool × Store → Type 0
  IsDone from r = (r.0 ≡ true) × Unlinked s parent child from r.1

  pass :
      (i : ℕ) (rest : Outcome (Bool × Store))
      → ¬ Refers s parent child i
      → Ensures (IsDone (suc i)) rest
      → Ensures (IsDone i) rest
  pass i rest miss h =
      Ensures-mono (IsDone (suc i)) (IsDone i) rest h λ r (done, u). (done, skip i r.1 miss u)

  other :
      (i e : ℕ)
      → (s.inodes parent).dir_contents i ≡ some e
      → ((s.inodes e).inumber ==ℤ (s.inodes child).inumber) ≡ false
      → ¬ Refers s parent child i
  other i e at miss (e', at', same) =
      let same_entry : e ≡ e' = cc (at, at') in
      let hit : ((s.inodes e).inumber ==ℤ (s.inodes child).inumber) ≡ true =
        (==ℤ_iff (s.inodes e).inumber (s.inodes child).inumber).1 (rw same_entry same) in
      cc

  module _ (hp : parent < max_inodes) (hc : child < max_inodes)
      (inside : (i e : ℕ)
        → i < max_files_in_dir
        → (s.inodes parent).dir_contents i ≡ some e
        → e < max_inodes)
      (fills : FillsUp (s.inodes parent).dir_contents) where
    remove_loop-Unlinked :
        (left i : ℕ)
        → i + left ≡ max_files_in_dir
        → Ensures (IsDone i) (remove_loop s parent (s.inodes parent) child left i)
    unfolding remove_loop remove_round
    remove_loop-Unlinked zero i h =
        let top : i ≡ 30 = omega arith in
        rw top (refl, absent (λ j lo hi. absurd (omega arith)) refl)
    remove_loop-Unlinked (suc left) i h =
        let rest = remove_loop s parent (s.inodes parent) child left (suc i) in
        let later : Ensures (IsDone (suc i)) rest =
          remove_loop-Unlinked left (suc i) (omega arith) in
        elim (Option-cases ((s.inodes parent).dir_contents i)) [
          | inl free ↦ rw (free, remove_round) (pass i rest (λ (e, at, _). cc) later)
          | inr (e, at) ↦
              rw
                (at, remove_round, lt→ltb e max_inodes (inside i e (omega arith) at), lt→ltb _ _ hc)
                (elim (Bool-cases ((s.inodes e).inumber ==ℤ (s.inodes child).inumber)) [
                  | inl hit ↦
                      rw (hit, indexed_remove_lem s parent i hp (omega arith) fills)
                        (
                          refl,
                          removed i (omega arith) (omega arith) (e, at, (==ℤ_iff _ _).0 hit)
                              (λ j lo hi. absurd (omega arith)) refl,
                        )
                  | inr miss ↦ rw miss (pass i rest (other i e at miss) later)
                ])
        ]

    -- remove_from_direntry, where parent, child and entries lie in the inode array and the last entry of
    -- the parent is taken only when all are, says TRUE in every case, and takes out the first entry
    -- that has the child's number, if there is one.
    pub remove_from_direntry-Unlinked :
        Ensures
          (λ r. (r.0 ≡ true) × Unlinked s parent child 0 r.1)
          (remove_from_direntry s (some parent) (some child))
    unfolding remove_from_direntry
    remove_from_direntry-Unlinked =
        rw (lt→ltb _ _ hp) (remove_loop-Unlinked max_files_in_dir 0 refl)
