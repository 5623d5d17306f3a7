-- ===== src/Sfs/Listed.antt =====
-- A file that create_inode of src/DateiSteuerBlock.c has made is in the list that sfs_readdir of
-- src/sfs.c gives of its directory.
use mathlib.Core.Path.{subst, ap₂}
use native.Mathlib.Decide.{ℕ_discrete, dec_lt}
use simpel_dateisystem.Base.{
  ℕ, zero, suc, pos, ◌+◌, ◌<◌, ◌≤◌, ◌≡◌, refl, sym, ◌≢◌, ap, ◌∙◌, true, none, some, [], ◌∷◌, ◌++◌,
  arith, is_some, update, ==_iff, ==_false, lt→ltb,
}
use simpel_dateisystem.Base.Outcome.{ok, Ensures}
use simpel_dateisystem.Base.CString.{Text, codes}
use simpel_dateisystem.Knoten.{Pointer, max_files_in_dir, max_inodes}
use simpel_dateisystem.Store.{Store, Env}
use simpel_dateisystem.Path.{relative_name}
use simpel_dateisystem.Path.Parent.{parent_name}
use simpel_dateisystem.Directory.{free_entry}
use simpel_dateisystem.Directory.Entries.{Entries, free_entry-IsFirstFree}
use simpel_dateisystem.Directory.Effects.{with_entry}
use simpel_dateisystem.Inodes.{find_file_or_dir, create_inode, find_parent}
use simpel_dateisystem.Inodes.Safe.{IsSafe}
use simpel_dateisystem.Inodes.Create.{
  Fits, created_store, IsCreated, IsCreatedAt, create_inode-IsCreated,
}
use simpel_dateisystem.Inodes.Created.{
  created_inodes, created_others, created_names, create_inode-IsSafe,
}
use simpel_dateisystem.Sfs.Readdir.{sfs_readdir}
use simpel_dateisystem.Sfs.Listing.{name_of, prefix_names, sfs_readdir_lem}
use simpel_dateisystem.Sfs.Reuse.{created_parent}

prefix_names-snoc :
    (s : Store) (dir : Entries) (n i m : ℕ)
    → i + n ≡ m
    → prefix_names s dir (suc n) i ≡ prefix_names s dir n i ++ (name_of s (dir m) ∷ [])
unfolding prefix_names
prefix_names-snoc s dir zero i m e =
    let at : i ≡ m = omega arith in ap (λ k. name_of s (dir k) ∷ []) at
prefix_names-snoc s dir (suc n) i m e =
    ap (λ l. name_of s (dir i) ∷ l) (prefix_names-snoc s dir n (suc i) m (omega arith))

prefix_names-eq :
    (s t : Store) (dir dir' : Entries) (n i : ℕ)
    → ((j : ℕ) → i ≤ j → j < i + n → name_of t (dir' j) ≡ name_of s (dir j))
    → prefix_names t dir' n i ≡ prefix_names s dir n i
unfolding prefix_names
prefix_names-eq s t dir dir' zero i same = refl
prefix_names-eq s t dir dir' (suc n) i same =
    ap₂ (λ x l. x ∷ l) (same i (omega arith) (omega arith))
      (prefix_names-eq s t dir dir' n (suc i) (λ j lo hi. same j (omega arith) (omega arith)))

-- The first `n` entries are taken, and the next one is free.
pub record EndsAt (dir : Entries) (n : ℕ) : Type 0 where
  pub taken : (j : ℕ) → j < n → is_some (dir j) ≡ true
  pub free : dir n ≡ none

free_entry-EndsAt :
    (dir : Entries) (n : ℕ)
    → n < max_files_in_dir
    → EndsAt dir n
    → free_entry dir max_files_in_dir 0 ≡ n
free_entry-EndsAt dir n h ends =
    let i = free_entry dir max_files_in_dir 0 in
    let first = free_entry-IsFirstFree dir max_files_in_dir 0 in
    elim (dec_lt i n) [
      | yes below ↦ absurd (some-none (dir i) (ends.taken i below) (first.free (omega arith)))
      | no le ↦ elim (dec_lt n i) [
        | yes above ↦ absurd (some-none (dir n) (first.taken n (omega arith) above) ends.free)
        | no ge ↦ omega arith
      ]
    ]
  where
    some-none : (o : Pointer) → is_some o ≡ true → o ≡ none → ⊥
    some-none o a b = cc (sym a ∙ ap is_some b)

update-taken :
    (dir : Entries) (n i j : ℕ)
    → j < suc n
    → ((k : ℕ) → k < n → is_some (dir k) ≡ true)
    → is_some (update dir n (some i) j) ≡ true
update-taken dir n i j h taken = elim (ℕ_discrete j n) [
  | yes e ↦ rw (e, (==_iff n n).1 refl) refl
  | no ne ↦ rw (==_false j n ne) (taken j (omega arith))
]

module _ {env : Env} {s t : Store} {path : Text} {mode i : ℕ}
    (c : IsCreatedAt env s path mode i t) where
  -- The parent's entries: as before, and the new inode behind them.
  listed_entries :
      (p n : ℕ)
      → c.parent ≡ p
      → p ≢ i
      → n < max_files_in_dir
      → EndsAt (s.inodes p).dir_contents n
      → (t.inodes p).dir_contents ≡ update (s.inodes p).dir_contents n (some i)
  unfolding created_store with_entry
  listed_entries p n parent ne h ends =
      let free = free_entry-EndsAt (s.inodes p).dir_contents n h ends in
      rw (created_inodes c, ==_false p i ne, parent, (==_iff p p).1 refl, free, lt→ltb n 30 h) refl

  listed_name : (o : Pointer) → o ≢ some i → name_of t o ≡ name_of s o
  unfolding name_of
  listed_name none ne = refl
  listed_name (some k) ne = (created_others c k (λ e. ne (ap some e))).0

  -- The names of the parent's entries.
  listed_names :
      (p n : ℕ)
      → (t.inodes p).dir_contents ≡ update (s.inodes p).dir_contents n (some i)
      → ((j : ℕ) → j < n → (s.inodes p).dir_contents j ≢ some i)
      → prefix_names t (t.inodes p).dir_contents (suc n) 0
        ≡ prefix_names s (s.inodes p).dir_contents n 0 ++ (relative_name path ∷ [])
  unfolding name_of
  listed_names p n entries others =
      let dir = (s.inodes p).dir_contents in
      let dir' = (t.inodes p).dir_contents in
      let before : (j : ℕ) → j < n → dir' j ≡ dir j =
        λ j h. ap (λ (d : Entries). d j) entries ∙ rw (==_false j n (omega arith)) refl in
      let last : dir' n ≡ some i =
        ap (λ (d : Entries). d n) entries ∙ rw ((==_iff n n).1 refl) refl in
      prefix_names-snoc t dir' n 0 n (omega arith)
      ∙ ap₂ (λ l x. l ++ (x ∷ []))
          (prefix_names-eq s t dir dir' n 0 (λ j lo hi.
            let h : j < n = omega arith in
            ap (name_of t) (before j h) ∙ listed_name (dir j) (others j h)))
          (ap (name_of t) last ∙ (created_names c).0)

-- On a safe store: after create_inode has made inode `i` for a path in a directory `p` other than `i`,
-- whose entries are taken up to `n` and free there and at the next place, and none of which is `i`, a
-- path that is found at `p` after the call lists in sfs_readdir the names of the directory as they
-- were and behind them the last name of the new path.
pub create-listed :
    (env env' : Env) (s t : Store) (path dir directory : Text) (mode i p n : ℕ)
    → IsSafe s
    → Fits path
    → parent_name path ≡ some dir
    → find_parent env s path dir ≡ ok (some p)
    → p ≢ i
    → p < max_inodes
    → suc n < max_files_in_dir
    → EndsAt (s.inodes p).dir_contents n
    → (s.inodes p).dir_contents (suc n) ≡ none
    → ((j : ℕ) → j < n → (s.inodes p).dir_contents j ≢ some i)
    → create_inode env s path mode ≡ ok (some i, t)
    → find_file_or_dir env' t directory ≡ ok (some p)
    → sfs_readdir env' t directory
      ≡ ok (
        pos 0,
        codes "."
            ∷ codes ".."
            ∷ (prefix_names s (s.inodes p).dir_contents n 0 ++ (relative_name path ∷ [])),
      )
create-listed env env' s t path dir directory mode i p n v fits named at_p ne hp hn ends next others
      e found =
    let old = (s.inodes p).dir_contents in
    let c : IsCreatedAt env s path mode i t =
      subst (Ensures (IsCreated env s path mode)) e
        (create_inode-IsCreated env s path mode v.count fits) in
    let safe : IsSafe t =
      subst (Ensures (λ r. IsSafe r.1)) e (create_inode-IsSafe env s path mode v fits) in
    let parent = created_parent c dir p named at_p in
    let entries = listed_entries c p n parent ne (omega arith) ends in
    let dir' = (t.inodes p).dir_contents in
    let free : dir' (suc n) ≡ none =
      ap (λ (d : Entries). d (suc n)) entries ∙ rw (==_false (suc n) n (omega arith)) next in
    let taken : (j : ℕ) → j < suc n → is_some (dir' j) ≡ true =
      λ j h. ap (λ (d : Entries). is_some (d j)) entries ∙ update-taken old n i j h ends.taken in
    (sfs_readdir_lem env' t directory p safe hp found).0 (suc n) hn free taken
    ∙ ap (λ l. ok (pos 0, codes "." ∷ codes ".." ∷ l)) (listed_names c p n entries others)
