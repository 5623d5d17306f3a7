-- ===== src/Sfs/Keeps.antt =====
-- What every handler of src/sfs.c keeps: a property that create_inode and remove_inode keep, and that
-- speaks of the inodes and the superblock only, is kept by all handlers on a safe store.
use simpel_dateisystem.Base.{
  ℕ, zero, suc, ℤ, ◌+◌, ◌<◌, ◌≤◌, ◌≡◌, refl, ◌≢◌, inl, inr, ap, Bool, true, false, Option, none,
  some, arith, ltb, ◌==◌, Bool-cases, Option-cases, lt→ltb, length, to_u32, negsuc, pos,
}
use simpel_dateisystem.Base.Outcome.{Outcome, ok, fault, Ensures, Ensures-bind, ◌>>=◌}
use simpel_dateisystem.Base.CString.{Text}
use simpel_dateisystem.Knoten.{Pointer, max_files_in_dir, max_inodes}
use simpel_dateisystem.Store.{Store, Env}
use simpel_dateisystem.Path.{root_name}
use simpel_dateisystem.Directory.Entries.{Entries}
use simpel_dateisystem.Inodes.{find_file_or_dir, create_inode, remove_inode}
use simpel_dateisystem.Inodes.Safe.{IsSafe, EntriesIn}
use simpel_dateisystem.Inodes.Create.{Fits, InArray, find_file_or_dir-InArray}
use simpel_dateisystem.Sfs.{
  path_max, s_ifdir, s_ifreg, create_result, remove_result, lookup_result, write_result, sfs_create,
  sfs_unlink, sfs_open, sfs_release, sfs_read, sfs_write, sfs_mkdir, sfs_rmdir, sfs_opendir,
  sfs_releasedir,
}
use simpel_dateisystem.Sfs.Getattr.{Stat, is_special, getattr_found, sfs_getattr}
use simpel_dateisystem.Sfs.Readdir.{name_entry, entry_names, readdir_found, sfs_readdir}
use simpel_dateisystem.Sfs.Requests.{
  Request, getattr, create, unlink, open_file, release, read, write, rmdir, mkdir, opendir, readdir,
  releasedir, plain, handle,
}

-- What the caller must see to: the names of a new file fit their buffers, "/" is not removed, and no
-- directory is full when one is listed.
abbrev pub IsAllowed : Store → Request → Type 0
IsAllowed s (create path mode) = Fits path
IsAllowed s (mkdir path mode) = Fits path
IsAllowed s (unlink path) = path ≢ root_name
IsAllowed s (rmdir path) = path ≢ root_name
IsAllowed s (readdir path) = (k : ℕ) → k < max_inodes → (s.inodes k).dir_contents 29 ≡ none
IsAllowed s other = Unit

-- The path of a new file is as `Q` asks.
abbrev pub Asks : (Text → Type 0) → Request → Type 0
Asks Q (create path mode) = Q path
Asks Q (mkdir path mode) = Q path
Asks Q other = Unit

module _ (env : Env) (s : Store) (v : IsSafe s) where
  entry_names-ok :
      (dir : Entries) (left i : ℕ)
      → EntriesIn dir
      → dir 29 ≡ none
      → i ≤ 29
      → i + left ≡ max_files_in_dir
      → Ensures (λ _. Unit {0}) (entry_names s dir left i)
  unfolding entry_names name_entry
  entry_names-ok dir zero i inside room h e = absurd (omega arith)
  entry_names-ok dir (suc left) i inside room h e = elim (Option-cases (dir i)) [
    | inl free ↦ rw free tt
    | inr (entry, at) ↦
        let low : i ≢ 29 = λ q. cc (at, room, ap dir q) in
        rw (at, lt→ltb entry max_inodes (inside i entry (omega arith) at))
          (Ensures-bind (λ _. Unit {0}) (λ _. Unit {0}) (entry_names s dir left (suc i)) _
            (entry_names-ok dir left (suc i) inside room (omega arith) (omega arith)) λ names _. tt)
  ]

  pub readdir-ok :
      (path : Text)
      → ((k : ℕ) → k < max_inodes → (s.inodes k).dir_contents 29 ≡ none)
      → Ensures (λ _. Unit {0}) (sfs_readdir env s path)
  unfolding sfs_readdir readdir_found
  readdir-ok path room =
      Ensures-bind InArray (λ _. Unit {0}) (find_file_or_dir env s path) _
        (find_file_or_dir-InArray env s path v.count) listed
    where
      listed : (r : Pointer) → InArray r → Ensures (λ _. Unit {0}) (readdir_found s r)
      listed none h = tt
      listed (some d) h = rw (lt→ltb d max_inodes h) (
          Ensures-bind (λ _. Unit {0}) (λ _. Unit {0})
            (entry_names s (s.inodes d).dir_contents max_files_in_dir 0) _
            (entry_names-ok (s.inodes d).dir_contents max_files_in_dir 0 (v.inode d h).entries
              (room d h) (omega arith) refl)
            λ names _. tt)

-- The property speaks of the inodes and the superblock only.
abbrev pub IsOfTree : (Store → Type 0) → Type 0
IsOfTree P = (s t : Store) → t.inodes ≡ s.inodes → t.s_block ≡ s.s_block → P s → P t

module _ (P : Store → Type 0) (of_tree : IsOfTree P) where
  -- What is proved of each handler: it ends within its arrays, on a store with the property.
  abbrev Keeps : {A : Type 0} → (A → Store) → Outcome A → Type 0
  Keeps store r = Ensures (λ a. P (store a)) r

  lookup_result-Keeps : (s : Store) (r : Pointer) → P s → P (lookup_result s r).1
  lookup_result-Keeps s none p = of_tree s _ refl refl p
  lookup_result-Keeps s (some i) p = p

  write_result-Keeps : (s : Store) (size : ℕ) (r : Pointer) → P s → P (write_result s size r).1
  write_result-Keeps s size none p = of_tree s _ refl refl p
  write_result-Keeps s size (some i) p = of_tree s _ (ground arith) (ground arith) p

  create_result-Keeps : (env : Env) (r : Pointer × Store) → P r.1 → P (create_result env r).1
  create_result-Keeps env (none, t) p = of_tree t _ refl refl p
  create_result-Keeps env (some i, t) p = p

  remove_result-Keeps : (r : Bool × Store) → P r.1 → P (remove_result r).1
  remove_result-Keeps (false, t) p = of_tree t _ refl refl p
  remove_result-Keeps (true, t) p = p

  plain-Keeps : (r : Outcome (ℤ × Store)) → Keeps (λ a. a.1) r → Keeps (λ a. a.1) (r >>= plain)
  plain-Keeps (ok (z, t)) p = p
  plain-Keeps fault p = elim p [ ]

  module _ (Q : Text → Type 0) (env : Env) (s : Store) (v : IsSafe s) (p : P s)
      (made : (path : Text) (mode : ℕ)
        → Fits path
        → Q path
        → Ensures (λ r. P r.1) (create_inode env s path mode))
      (gone : (path : Text)
        → path ≢ root_name
        → Ensures (λ r. P r.1) (remove_inode env s path)) where
    lookup-Keeps :
        (path : Text) (answer : Pointer → ℤ × Store)
        → ((r : Pointer) → P (answer r).1)
        → Keeps (λ a. a.1) (find_file_or_dir env s path >>= (λ r. ok (answer r)))
    lookup-Keeps path answer h =
        Ensures-bind InArray _ (find_file_or_dir env s path) _
          (find_file_or_dir-InArray env s path v.count) λ r _. h r

    create-Keeps :
        (path : Text) (mode : ℕ) (answer : Pointer × Store → ℤ × Store)
        → Fits path
        → Q path
        → ((r : Pointer × Store) → P r.1 → P (answer r).1)
        → Keeps (λ a. a.1) (create_inode env s path mode >>= (λ r. ok (answer r)))
    create-Keeps path mode answer fits q h =
        Ensures-bind (λ r. P r.1) _ (create_inode env s path mode) _ (made path mode fits q)
          λ r w. h r w

    remove-Keeps :
        (path : Text)
        → path ≢ root_name
        → Keeps (λ a. a.1) (remove_inode env s path >>= (λ r. ok (remove_result r)))
    remove-Keeps path ne =
        Ensures-bind (λ r. P r.1) _ (remove_inode env s path) _ (gone path ne)
          λ r w. remove_result-Keeps r w

    mkdir-Keeps :
        (path : Text) (mode : ℕ) → Fits path → Q path → Keeps (λ a. a.1) (sfs_mkdir env s path mode)
    unfolding sfs_mkdir
    mkdir-Keeps path mode fits q = elim (Bool-cases (mode == 493)) [
      | inl dir ↦ rw dir (create-Keeps path s_ifdir (λ r. (pos 0, r.1)) fits q (λ r w. w))
      | inr not_dir ↦ elim (Bool-cases (mode == to_u32 (negsuc 32347))) [
        | inl file ↦
            rw (not_dir, file) (create-Keeps path s_ifreg (λ r. (pos 0, r.1)) fits q (λ r w. w))
        | inr other ↦ rw (not_dir, other) p
      ]
    ]

    getattr-Keeps :
        (path : Text) (statbuf : Option Stat) → Keeps (λ a. a.2) (sfs_getattr env s path statbuf)
    unfolding sfs_getattr getattr_found
    getattr-Keeps path none = of_tree s _ refl refl p
    getattr-Keeps path (some statbuf) = elim (Bool-cases (ltb path_max (length path))) [
      | inl long ↦ rw long (of_tree s _ refl refl p)
      | inr short ↦ elim (Bool-cases (is_special path)) [
        | inl special ↦ rw (short, special) p
        | inr searched ↦
            rw (short, searched)
              (Ensures-bind InArray _ (find_file_or_dir env s path) _
                (find_file_or_dir-InArray env s path v.count) at_pointer)
      ]
    ]
      where
        at_pointer : (r : Pointer) → InArray r → Keeps (λ a. a.2) (getattr_found env s statbuf r)
        at_pointer none h = p
        at_pointer (some i) h = rw (lt→ltb i max_inodes h) p

    -- Every request that is allowed gets a reply, and the property stays.
    pub handle-Keeps :
        (request : Request)
        → IsAllowed s request
        → Asks Q request
        → Ensures (λ r. P r.1) (handle env s request)
    unfolding handle sfs_create sfs_unlink sfs_rmdir sfs_open sfs_release sfs_read sfs_opendir
        sfs_write sfs_releasedir
    handle-Keeps (getattr path statbuf) a q =
        Ensures-bind (λ r. P r.2) _ (sfs_getattr env s path statbuf) _ (getattr-Keeps path statbuf)
          λ r w. w
    handle-Keeps (create path mode) fits q =
        plain-Keeps _ (create-Keeps path mode (create_result env) fits q (create_result-Keeps env))
    handle-Keeps (unlink path) ne q = plain-Keeps _ (remove-Keeps path ne)
    handle-Keeps (rmdir path) ne q = plain-Keeps _ (remove-Keeps path ne)
    handle-Keeps (open_file path) a q =
        plain-Keeps _ (lookup-Keeps path (lookup_result s) (λ r. lookup_result-Keeps s r p))
    handle-Keeps (release path) a q =
        plain-Keeps _ (lookup-Keeps path (lookup_result s) (λ r. lookup_result-Keeps s r p))
    handle-Keeps (read path) a q =
        plain-Keeps _ (lookup-Keeps path (lookup_result s) (λ r. lookup_result-Keeps s r p))
    handle-Keeps (opendir path) a q =
        plain-Keeps _ (lookup-Keeps path (lookup_result s) (λ r. lookup_result-Keeps s r p))
    handle-Keeps (write path size) a q =
        plain-Keeps _ (lookup-Keeps path (write_result s size) (λ r. write_result-Keeps s size r p))
    handle-Keeps (mkdir path mode) fits q = plain-Keeps _ (mkdir-Keeps path mode fits q)
    handle-Keeps (readdir path) room q =
        Ensures-bind (λ _. Unit {0}) _ (sfs_readdir env s path) _ (readdir-ok env s v path room)
          λ r _. p
    handle-Keeps releasedir a q = p
