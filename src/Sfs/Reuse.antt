-- ===== src/Sfs/Reuse.antt =====
-- What sfs_readdir of src/sfs.c lists of a directory that create_inode of src/DateiSteuerBlock.c has
-- just made: create_inode sets the names and numbers of the inode and leaves its entries alone.
use mathlib.Core.Path.{subst}
use simpel_dateisystem.Base.{
  ℕ, pos, ◌<◌, ◌≡◌, refl, sym, ◌≢◌, ap, ◌∙◌, true, none, some, ◌∷◌, arith, is_some, ==_iff,
  ==_false,
}
use simpel_dateisystem.Base.Outcome.{ok, Ensures}
use simpel_dateisystem.Base.CString.{Text, codes}
use simpel_dateisystem.Knoten.{max_files_in_dir}
use simpel_dateisystem.Store.{Store, Env, HasMemory}
use simpel_dateisystem.Path.{root_name}
use simpel_dateisystem.Path.Parent.{parent_name}
use simpel_dateisystem.Inodes.{create_inode, find_parent}
use simpel_dateisystem.Inodes.Find.{Bears}
use simpel_dateisystem.Inodes.Fill.{new_inode}
use simpel_dateisystem.Inodes.Safe.{IsSafe}
use simpel_dateisystem.Inodes.Create.{
  Fits, created_store, IsCreated, IsCreatedAt, create_inode-IsCreated,
}
use simpel_dateisystem.Inodes.Created.{created_inodes, create-find, create_inode-IsSafe}
use simpel_dateisystem.Sfs.Readdir.{sfs_readdir}
use simpel_dateisystem.Sfs.Listing.{prefix_names, sfs_readdir_lem}

module _ {env : Env} {s t : Store} {path : Text} {mode i : ℕ}
    (c : IsCreatedAt env s path mode i t) where
  pub created_parent :
      (dir : Text) (p : ℕ)
      → parent_name path ≡ some dir
      → find_parent env s path dir ≡ ok (some p)
      → c.parent ≡ p
  created_parent dir p named found =
      let same : c.parent_dir ≡ dir = let e = sym c.named ∙ named in ground arith in
      let e = sym c.found ∙ ap (find_parent env s path) same ∙ found in ground arith

  created_entries : c.parent ≢ i → (t.inodes i).dir_contents ≡ (s.inodes i).dir_contents
  unfolding created_store new_inode
  created_entries ne =
      rw (created_inodes c, (==_iff i i).1 refl) (rw (==_false i c.parent (λ q. ne (sym q))) refl)

-- On a safe store, for another path than "/" whose names fit their buffers: after create_inode has
-- made inode `i` for the path in a directory `p` other than `i`, with memory for the search, and
-- where no inode before `i` bore its names, sfs_readdir of the path lists the entries that inode `i`
-- had before the call, up to its first free one.
pub create-sfs_readdir :
    (env env' : Env) (s t : Store) (path dir : Text) (mode i p n : ℕ)
    → IsSafe s
    → Fits path
    → HasMemory env'
    → path ≢ root_name
    → parent_name path ≡ some dir
    → find_parent env s path dir ≡ ok (some p)
    → p ≢ i
    → ((j : ℕ) → j < i → ¬ Bears (s.inodes j) path)
    → n < max_files_in_dir
    → (s.inodes i).dir_contents n ≡ none
    → ((j : ℕ) → j < n → is_some ((s.inodes i).dir_contents j) ≡ true)
    → create_inode env s path mode ≡ ok (some i, t)
    → sfs_readdir env' t path
      ≡ ok (pos 0, codes "." ∷ codes ".." ∷ prefix_names t (s.inodes i).dir_contents n 0)
create-sfs_readdir env env' s t path dir mode i p n v fits m ne named at_p other fresh hn free taken
      e =
    let c : IsCreatedAt env s path mode i t =
      subst (Ensures (IsCreated env s path mode)) e
        (create_inode-IsCreated env s path mode v.count fits) in
    let same = created_entries c (λ q. other (sym (created_parent c dir p named at_p) ∙ q)) in
    let safe : IsSafe t =
      subst (Ensures (λ r. IsSafe r.1)) e (create_inode-IsSafe env s path mode v fits) in
    let (_, (x, found, le, at, _)) = create-find env env' s t path mode i v.count fits m ne e in
    (sfs_readdir_lem env' t path i safe (omega (arith, c.counted, v.count))
        (found ∙ ap (λ k. ok (some k)) (at fresh))).0
      n hn (ap (λ (d : ℕ → _). d n) same ∙ free)
      (λ j hj. ap (λ (d : ℕ → _). is_some (d j)) same ∙ taken j hj)
    ∙ ap (λ d. ok (pos 0, codes "." ∷ codes ".." ∷ prefix_names t d n 0)) same
