-- ===== src/Inodes/Remove.antt =====
-- remove_inode: the store that it leaves, and what it does not do.
use simpel_dateisystem.Base.{
  ℕ, zero, suc, pos, negsuc, ◌<◌, ◌≤◌, ◌≡◌, refl, sym, ◌≢◌, ap, ◌∙◌, Bool, true, false, none, some,
  arith, if◌then◌else◌, lt→ltb,
}
use simpel_dateisystem.Base.Outcome.{ok, fault, Ensures, Ensures-mono, Ensures-bind, Ensures-ok}
use simpel_dateisystem.Base.CString.{Text, str_eq, str_eq→≡}
use simpel_dateisystem.Knoten.{Pointer, max_inodes, max_blocks}
use simpel_dateisystem.Store.{Store, Env}
use simpel_dateisystem.Path.{root_name, relative_name}
use simpel_dateisystem.Directory.{get_parent_fcb, remove_from_direntry}
use simpel_dateisystem.Directory.Effects.{put, without_entry}
use simpel_dateisystem.Directory.Unlink.{Unlinked, absent, removed, remove_from_direntry-Unlinked}
use simpel_dateisystem.Inodes.{
  find_file_or_dir, flush_all_inodes_to_disk, release_inode, remove_at, remove_found, remove_inode,
}
use simpel_dateisystem.Inodes.Find.{
  inode_count, IsHit, find_file_or_dir-IsHit, find_file_or_dir-root, relative_name-ne-root,
}
use simpel_dateisystem.Inodes.Safe.{IsSafe, IsSafe-put, IsSafe-same, without_entry-IsSound}
use simpel_dateisystem.Inodes.Flush.{OnlyWrites, flush_all-OnlyWrites}
use simpel_dateisystem.Inodes.Create.{mark}
use simpel_dateisystem.Inodes.Created.{OnlyWrites-IsSafe}

-- What a call of remove_inode that returned TRUE has done: the inode `f` that the path was found at
-- has lost its first entry in its parent, if it had one, and its mark in the inode map. All its own
-- fields stay.
pub record IsRemovedAt (env : Env) (s : Store) (path : Text) (t : Store) : Type 0 where
  pub file : ℕ
  pub parent : ℕ
  pub number : ℕ
  pub between : Store
  pub found : find_file_or_dir env s path ≡ ok (some file)
  pub ne_root : 0 < file
  pub counted : file < inode_count s
  pub parent_is : (s.inodes file).parent_inumber ≡ pos parent
  pub parent_in : parent < max_inodes
  pub number_is : (between.inodes file).inumber ≡ pos number
  pub unlinked : Unlinked s parent file 0 between
  pub store : OnlyWrites (mark between number 0) t

abbrev pub IsRemoved : Env → Store → Text → Bool × Store → Type 0
IsRemoved env s path (false, t) = (t ≡ s) × (find_file_or_dir env s path ≡ ok none)
IsRemoved env s path (true, t) = IsRemovedAt env s path t

pub removed-IsSafe :
    (s : Store) (parent i : ℕ)
    → IsSafe s
    → parent < max_inodes
    → IsSafe (put s parent (without_entry (s.inodes parent) i))
unfolding without_entry
removed-IsSafe s parent i v hp =
    IsSafe-put s parent (without_entry (s.inodes parent) i) v
      (without_entry-IsSound (s.inodes parent) i (v.inode parent hp))
      (λ e. ap (λ k. (s.inodes k).file_name) e ∙ v.root) (λ h. v.parent parent h hp)

-- Taking out an entry keeps the invariant.
pub Unlinked-IsSafe :
    (s t : Store) (parent child : ℕ)
    → IsSafe s
    → parent < max_inodes
    → Unlinked s parent child 0 t
    → IsSafe t
Unlinked-IsSafe s t parent child v hp (absent all e) = rw e v
Unlinked-IsSafe s t parent child v hp (removed i lo hi hit before e) =
    rw e (removed-IsSafe s parent i v hp)

-- The root is the only inode that bears the name "/".
pub hit-ne-zero :
    (s : Store) (path : Text) (x : ℕ)
    → IsSafe s
    → str_eq (s.inodes x).file_name (relative_name path) ≡ true
    → 0 < x
hit-ne-zero s path zero v e = absurd (relative_name-ne-root path (sym (str_eq→≡ _ _ e) ∙ v.root))
hit-ne-zero s path (suc x) v e = omega arith

release_inode-OnlyWrites :
    (env : Env) (s : Store) (file number : ℕ)
    → inode_count s ≤ max_inodes
    → file < max_inodes
    → (s.inodes file).inumber ≡ pos number
    → number < max_inodes
    → Ensures (λ r. (r.0 ≡ true) × OnlyWrites (mark s number 0) r.1) (release_inode env s file)
unfolding release_inode
release_inode-OnlyWrites env s file number h hf e hn =
    rw (lt→ltb _ _ hf, e, lt→ltb number max_blocks (omega arith))
      (Ensures-bind (λ r. (r.0 ≡ true) × OnlyWrites (mark s number 0) r.1) _
        (flush_all_inodes_to_disk env (mark s number 0) false) _
        (flush_all-OnlyWrites env (mark s number 0) h) λ r done. (refl, done.1))

module _ (env : Env) (s : Store) (path : Text) (v : IsSafe s) where
  release-IsRemoved :
      (file parent : ℕ)
      → find_file_or_dir env s path ≡ ok (some file)
      → 0 < file
      → file < inode_count s
      → (s.inodes file).parent_inumber ≡ pos parent
      → parent < max_inodes
      → (r : Bool × Store) → r.0 ≡ true
      → Unlinked s parent file 0 r.1
      → Ensures (IsRemoved env s path) (if r.0 then release_inode env r.1 file else ok (false, r.1))
  release-IsRemoved file parent found h0 hf up hp (false, t) e u = cc
  release-IsRemoved file parent found h0 hf up hp (true, t) e u =
      let w = Unlinked-IsSafe s t parent file v hp u in
      let in_array : file < max_inodes = omega (arith, v.count) in
      let (n, is_n, hn) = (w.inode file in_array).inumber in
      Ensures-mono (λ r. (r.0 ≡ true) × OnlyWrites (mark t n 0) r.1) (IsRemoved env s path)
        (release_inode env t file) (release_inode-OnlyWrites env t file n w.count in_array is_n hn)
        λ (b, t') (done, only). rw done (record {
          file = file;
          parent = parent;
          number = n;
          between = t;
          found = found;
          ne_root = h0;
          counted = hf;
          parent_is = up;
          parent_in = hp;
          number_is = is_n;
          unlinked = u;
          store = only;
        })

  remove_at-IsRemoved :
      (file parent : ℕ)
      → find_file_or_dir env s path ≡ ok (some file)
      → 0 < file
      → file < inode_count s
      → (s.inodes file).parent_inumber ≡ pos parent
      → parent < max_inodes
      → Ensures (IsRemoved env s path) (remove_at env s file (some parent))
  unfolding remove_at
  remove_at-IsRemoved file parent found h0 hf up hp =
      let in_array : file < max_inodes = omega (arith, v.count) in
      let sound = v.inode parent hp in
      Ensures-bind (λ r. (r.0 ≡ true) × Unlinked s parent file 0 r.1) (IsRemoved env s path)
        (remove_from_direntry s (some parent) (some file)) _
        (remove_from_direntry-Unlinked s parent file hp in_array sound.entries sound.fills)
        λ r (done, u). release-IsRemoved file parent found h0 hf up hp r done u

  -- remove_inode on another path than "/", on a safe store: it ends, without leaving an array. Either it
  -- says FALSE, the path is not found and nothing has changed, or it says TRUE and has taken the file
  -- out of its parent's entries and of the inode map, as `IsRemovedAt` describes.
  pub remove_inode-IsRemoved :
      path ≢ root_name → Ensures (IsRemoved env s path) (remove_inode env s path)
  unfolding remove_inode remove_found get_parent_fcb
  remove_inode-IsRemoved ne =
      let (r, found, hit) =
        Ensures-ok (IsHit s path (inode_count s)) (find_file_or_dir env s path)
          (find_file_or_dir-IsHit env s path v.count ne) in
      rw found (at_pointer r found hit)
    where
      at_pointer :
          (r : Pointer)
          → find_file_or_dir env s path ≡ ok r
          → IsHit s path (inode_count s) r
          → Ensures (IsRemoved env s path) (remove_found env s r)
      at_pointer none found hit = (refl, found)
      at_pointer (some file) found (hf, name) =
          let h0 = hit-ne-zero s path file v name in
          let (parent, up, hp) = v.parent file h0 (omega (arith, v.count)) in
          rw (lt→ltb file max_inodes (omega (arith, v.count)), up, lt→ltb parent max_inodes hp)
            (remove_at-IsRemoved file parent found h0 hf up hp)

IsRemoved-IsSafe :
    (env : Env) (s : Store) (path : Text) (r : Bool × Store)
    → IsSafe s
    → IsRemoved env s path r
    → IsSafe r.1
IsRemoved-IsSafe env s path (false, t) v (e, _) = rw e v
IsRemoved-IsSafe env s path (true, t) v r =
    OnlyWrites-IsSafe (mark r.between r.number 0) t r.store
      (IsSafe-same refl refl (Unlinked-IsSafe s r.between r.parent r.file v r.parent_in r.unlinked))

-- remove_inode on another path than "/" ends without leaving an array and keeps the invariant
-- `IsSafe`, whether it removes a file or not.
pub remove_inode-IsSafe :
    (env : Env) (s : Store) (path : Text)
    → IsSafe s
    → path ≢ root_name
    → Ensures (λ r. IsSafe r.1) (remove_inode env s path)
remove_inode-IsSafe env s path v ne =
    Ensures-mono (IsRemoved env s path) _ (remove_inode env s path)
      (remove_inode-IsRemoved env s path v ne) (λ r e. IsRemoved-IsSafe env s path r v e)

-- remove_inode of "/", where the root's parent number is negative as formatDisk sets it, leaves the
-- inode array.
remove_inode-root :
    (env : Env) (s : Store) (n : ℕ)
    → (s.inodes 0).parent_inumber ≡ negsuc n
    → remove_inode env s root_name ≡ fault
unfolding remove_inode remove_found get_parent_fcb
remove_inode-root env s n e = rw (find_file_or_dir-root env s, e)
