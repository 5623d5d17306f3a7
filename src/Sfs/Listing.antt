-- ===== src/Sfs/Listing.antt =====
-- What sfs_readdir lists: the entries of a directory up to its first free one.
use mathlib.Core.Path.{subst}
use simpel_dateisystem.Base.{
  ℕ, zero, suc, pos, ◌+◌, ◌<◌, ◌≤◌, ◌≡◌, refl, sym, inl, inr, ap, ◌∙◌, Bool, true, none, some, List,
  [], ◌∷◌, arith, Option-cases, lt→ltb, is_some, ==_false,
}
use simpel_dateisystem.Base.Outcome.{ok, fault, ◌>>=◌}
use simpel_dateisystem.Base.CString.{Text, codes}
use simpel_dateisystem.Knoten.{FileControlBlock, Pointer, max_files_in_dir, max_inodes}
use simpel_dateisystem.Store.{Store, Env}
use simpel_dateisystem.Directory.{indexed_remove_from_direntry}
use simpel_dateisystem.Directory.Entries.{Entries}
use simpel_dateisystem.Directory.Effects.{put, put_at, without_entry, indexed_remove_lem}
use simpel_dateisystem.Inodes.{find_file_or_dir}
use simpel_dateisystem.Inodes.Safe.{EntriesIn, IsSafe}
use simpel_dateisystem.Inodes.Remove.{removed-IsSafe}
use simpel_dateisystem.Sfs.Readdir.{name_entry, entry_names, readdir_found, sfs_readdir}

unfoldable pub name_of : Store → Pointer → Text
name_of s none = []
name_of s (some entry) = (s.inodes entry).file_name

-- The names of `n` entries from `i` on.
unfoldable pub prefix_names : Store → Entries → ℕ → ℕ → List Text
prefix_names s dir zero i = []
prefix_names s dir (suc n) i = name_of s (dir i) ∷ prefix_names s dir n (suc i)

entry_names-free :
    (s : Store) (dir : Entries) (left n i m : ℕ)
    → EntriesIn dir
    → i + left ≡ max_files_in_dir
    → n < left
    → i + n ≡ m
    → dir m ≡ none
    → ((j : ℕ) → i ≤ j → j < m → is_some (dir j) ≡ true)
    → entry_names s dir left i ≡ ok (prefix_names s dir n i)
unfolding entry_names name_entry prefix_names name_of
entry_names-free s dir zero n i m inside e h end free taken = absurd (omega arith)
entry_names-free s dir (suc left) zero i m inside e h end free taken =
    let at : i ≡ m = omega arith in let here : dir i ≡ none = ap dir at ∙ free in rw here refl
entry_names-free s dir (suc left) (suc n) i m inside e h end free taken =
    elim (Option-cases (dir i)) [
      | inl none_here ↦
          let some_here : is_some (dir i) ≡ true = taken i (omega arith) (omega arith) in
          absurd (cc (some_here, ap is_some none_here))
      | inr (entry, at) ↦
          rw (at, lt→ltb entry max_inodes (inside i entry (omega arith) at))
            (ap (λ r. r >>= (λ names. ok ((s.inodes entry).file_name ∷ names)))
              (entry_names-free s dir left n (suc i) m inside (omega arith) (omega arith)
                (omega arith) free (λ j lo hi. taken j (omega arith) hi)))
    ]

entry_names-full :
    (s : Store) (dir : Entries) (left i : ℕ)
    → EntriesIn dir
    → i + left ≡ max_files_in_dir
    → ((j : ℕ) → i ≤ j → j < max_files_in_dir → is_some (dir j) ≡ true)
    → entry_names s dir left i ≡ fault
unfolding entry_names name_entry
entry_names-full s dir zero i inside e taken = refl
entry_names-full s dir (suc left) i inside e taken = elim (Option-cases (dir i)) [
  | inl none_here ↦
      let some_here : is_some (dir i) ≡ true = taken i (omega arith) (omega arith) in
      absurd (cc (some_here, ap is_some none_here))
  | inr (entry, at) ↦
      rw (at, lt→ltb entry max_inodes (inside i entry (omega arith) at))
        (ap (λ r. r >>= (λ names. ok ((s.inodes entry).file_name ∷ names)))
          (entry_names-full s dir left (suc i) inside (omega arith)
            (λ j lo hi. taken j (omega arith) hi)))
]

-- Where the search of a path ends at inode `d` of a safe store, sfs_readdir of the path lists ".",
-- ".." and the names of the entries before the first free one, here `n`; if all 30 entries are taken
-- it reads behind the array.
pub sfs_readdir_lem :
    (env : Env) (s : Store) (path : Text) (d : ℕ)
    → IsSafe s
    → d < max_inodes
    → find_file_or_dir env s path ≡ ok (some d)
    → ((n : ℕ)
        → n < max_files_in_dir
        → (s.inodes d).dir_contents n ≡ none
        → ((j : ℕ) → j < n → is_some ((s.inodes d).dir_contents j) ≡ true)
        → sfs_readdir env s path
          ≡ ok (pos 0, codes "." ∷ codes ".." ∷ prefix_names s (s.inodes d).dir_contents n 0))
      × (((j : ℕ) → j < max_files_in_dir → is_some ((s.inodes d).dir_contents j) ≡ true)
          → sfs_readdir env s path ≡ fault)
unfolding sfs_readdir readdir_found
sfs_readdir_lem env s path d v hd found =
    let dir = (s.inodes d).dir_contents in
    let inside = (v.inode d hd).entries in
    (
      λ n hn free taken.
          rw (found, lt→ltb d max_inodes hd)
            (ap (λ r. r >>= (λ names. ok (pos 0, codes "." ∷ codes ".." ∷ names)))
              (entry_names-free s dir max_files_in_dir n 0 n inside refl hn (omega arith) free
                (λ j _ hj. taken j hj))),
      λ taken.
          rw (found, lt→ltb d max_inodes hd)
            (ap (λ r. r >>= (λ names. ok (pos 0, codes "." ∷ codes ".." ∷ names)))
              (entry_names-full s dir max_files_in_dir 0 inside refl (λ j _ hj. taken j hj))),
    )

name_of-same :
    (s t : Store) (o : Pointer)
    → ((k : ℕ) → (t.inodes k).file_name ≡ (s.inodes k).file_name)
    → name_of t o ≡ name_of s o
unfolding name_of
name_of-same s t none e = refl
name_of-same s t (some k) e = e k

prefix_names-same :
    (s t : Store) (dir dir' : Entries) (n i : ℕ)
    → ((k : ℕ) → (t.inodes k).file_name ≡ (s.inodes k).file_name)
    → ((j : ℕ) → i ≤ j → j < i + n → dir' j ≡ dir j)
    → prefix_names t dir' n i ≡ prefix_names s dir n i
unfolding prefix_names
prefix_names-same s t dir dir' zero i names same = refl
prefix_names-same s t dir dir' (suc n) i names same =
    rw
      (
        same i (omega arith) (omega arith),
        name_of-same s t (dir i) names,
        prefix_names-same s t dir dir' n (suc i) names
            (λ j lo hi. same j (omega arith) (omega arith)),
      )
      refl

store_of : (p q : Bool × Store) → ok p ≡ ok q → p.1 ≡ q.1
store_of p q e = ground arith

hidden :
    (env : Env) (s : Store) (path : Text) (d i : ℕ)
    → IsSafe s
    → d < max_inodes
    → i < max_files_in_dir
    → (s.inodes d).dir_contents 29 ≡ none
    → ((j : ℕ) → j < i → is_some ((s.inodes d).dir_contents j) ≡ true)
    → find_file_or_dir env (put s d (without_entry (s.inodes d) i)) path ≡ ok (some d)
    → sfs_readdir env (put s d (without_entry (s.inodes d) i)) path
      ≡ ok (pos 0, codes "." ∷ codes ".." ∷ prefix_names s (s.inodes d).dir_contents i 0)
unfolding without_entry
hidden env s path d i v hd hi last taken found =
    let f = s.inodes d in
    let g = without_entry f i in
    let t = put s d g in
    let is_g : t.inodes d ≡ g = put_at s d g in
    let free : (t.inodes d).dir_contents i ≡ none =
      ap (λ (h : FileControlBlock). h.dir_contents i) is_g ∙ ground (arith, last) in
    let before : (j : ℕ) → j < i → (t.inodes d).dir_contents j ≡ f.dir_contents j = λ j hj.
      ap (λ (h : FileControlBlock). h.dir_contents j) is_g
      ∙ rw (==_false j 29 (omega arith), ==_false j i (omega arith)) refl in
    let names : (k : ℕ) → (t.inodes k).file_name ≡ (s.inodes k).file_name = λ k. ground arith in
    (sfs_readdir_lem env t path d (removed-IsSafe s d i v hd) hd found).0 i hi free
      (λ j hj. ap is_some (before j hj) ∙ taken j hj)
    ∙ ap (λ l. ok (pos 0, codes "." ∷ codes ".." ∷ l))
        (prefix_names-same s t f.dir_contents (t.inodes d).dir_contents i 0 names
          (λ j _ hj. before j (omega arith)))

-- After indexed_remove_from_direntry has taken entry `i` out of a directory on a safe store whose first `i` entries
-- are taken and that is not full, sfs_readdir of a path of the directory lists the first `i` names
-- only: the entries behind `i` are hidden.
pub remove-sfs_readdir :
    (env : Env) (s t : Store) (path : Text) (d i : ℕ)
    → IsSafe s
    → d < max_inodes
    → i < max_files_in_dir
    → (s.inodes d).dir_contents 29 ≡ none
    → ((j : ℕ) → j < i → is_some ((s.inodes d).dir_contents j) ≡ true)
    → indexed_remove_from_direntry s (some d) i ≡ ok (true, t)
    → find_file_or_dir env t path ≡ ok (some d)
    → sfs_readdir env t path
      ≡ ok (pos 0, codes "." ∷ codes ".." ∷ prefix_names s (s.inodes d).dir_contents i 0)
remove-sfs_readdir env s t path d i v hd hi last taken e found =
    let same : put s d (without_entry (s.inodes d) i) ≡ t =
      store_of (true, _) (true, t)
        (sym (indexed_remove_lem s d i hd hi (v.inode d hd).fills) ∙ e) in
    subst
      (λ u.
        sfs_readdir env u path
        ≡ ok (pos 0, codes "." ∷ codes ".." ∷ prefix_names s (s.inodes d).dir_contents i 0))
      same
      (hidden env s path d i v hd hi last taken
        (subst (λ u. find_file_or_dir env u path ≡ ok (some d)) (sym same) found))
