-- ===== src/Links/Unlink.antt =====
-- What sfs_readdir of src/sfs.c lists after a file was removed.
use mathlib.Core.Path.{subst}
use mathlib.Core.List.{Memᴰ}
use simpel_dateisystem.Base.{ℕ, pos, ◌<◌, ◌≡◌, refl, ◌≢◌, none, some, List}
use simpel_dateisystem.Base.Outcome.{ok, Ensures}
use simpel_dateisystem.Base.CString.{Text}
use simpel_dateisystem.Knoten.{max_inodes}
use simpel_dateisystem.Store.{Store, Env}
use simpel_dateisystem.Path.{root_name}
use simpel_dateisystem.Inodes.{find_file_or_dir}
use simpel_dateisystem.Inodes.Safe.{IsSafe}
use simpel_dateisystem.Inodes.Create.{InArray, find_file_or_dir-InArray}
use simpel_dateisystem.Inodes.Remove.{remove_inode-IsSafe}
use simpel_dateisystem.Sfs.{sfs_unlink}
use simpel_dateisystem.Sfs.Lookup.{sfs_unlink-remove_inode}
use simpel_dateisystem.Links.{Entered, IsLinked}
use simpel_dateisystem.Links.Remove.{remove-IsCut}
use simpel_dateisystem.Links.Listed.{IsListing, listed}

-- On a safe and linked store, after sfs_unlink has returned 0 for another path than "/", which was
-- found at inode `f`: for every path that is then found at an inode `d` whose last entry is free,
-- sfs_readdir returns 0 and lists ".", ".." and the names of inodes that are entered in `d`, none of
-- them twice; `f` is not among them, and all were entered in `d` before.
pub unlink-sfs_readdir :
    (env env' : Env) (s t : Store) (path directory : Text) (f d : ℕ)
    → IsSafe s
    → IsLinked s
    → path ≢ root_name
    → find_file_or_dir env s path ≡ ok (some f)
    → sfs_unlink env s path ≡ ok (pos 0, t)
    → find_file_or_dir env' t directory ≡ ok (some d)
    → (t.inodes d).dir_contents 29 ≡ none
    → (es : List ℕ) × IsListing env' t directory d es
      × (¬ Memᴰ f es)
      × ((e : ℕ) → Memᴰ e es → Entered s d e)
unlink-sfs_readdir env env' s t path directory f d v linked ne found e at_d last =
    let removal = sfs_unlink-remove_inode env s t path v ne e in
    let cut = remove-IsCut env s t path v linked f ne found removal in
    let safe : IsSafe t =
      subst (Ensures (λ r. IsSafe r.1)) removal (remove_inode-IsSafe env s path v ne) in
    let hd : d < max_inodes =
      subst (Ensures InArray) at_d (find_file_or_dir-InArray env' t directory safe.count) in
    let (es, listing) = listed env' t directory d safe cut.linked at_d last in
    (
      es,
      listing,
      λ m. ((cut.members d f hd).0 (listing.entered f m)).1 refl,
      λ k m. ((cut.members d k hd).0 (listing.entered k m)).0,
    )
