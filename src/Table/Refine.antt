-- ===== src/Table/Refine.antt =====
-- The handlers implement the table: each answers what the table answers, and leaves a store that
-- stands for the table's next state.
use mathlib.Core.Path.{subst}
use simpel_dateisystem.Base.{
  ℕ, ℤ, pos, negsuc, ◌≡◌, refl, ◌≢◌, inl, inr, ap, ◌∙◌, Bool, true, false, Option, none, some, List,
  arith, Bool-cases, ltb, lt→ltb, length, ◌==◌, to_u32, neg_ℕ,
}
use simpel_dateisystem.Base.Outcome.{Outcome, ok, fault, Ensures, Ensures-bind, ◌>>=◌}
use simpel_dateisystem.Base.CString.{Text}
use simpel_dateisystem.Knoten.{Pointer, max_inodes, max_files_in_dir}
use simpel_dateisystem.Store.{Store, Env, HasMemory, fcb_at}
use simpel_dateisystem.Path.{root_name}
use simpel_dateisystem.Inodes.{find_file_or_dir, create_inode, remove_inode}
use simpel_dateisystem.Inodes.Safe.{IsSafe}
use simpel_dateisystem.Inodes.Create.{Fits, InArray, find_file_or_dir-InArray}
use simpel_dateisystem.Sfs.{
  path_max, s_ifdir, s_ifreg, create_result, remove_result, lookup_result, write_result, sfs_create,
  sfs_unlink, sfs_rmdir, sfs_open, sfs_release, sfs_read, sfs_opendir, sfs_write, sfs_mkdir,
  sfs_releasedir,
}
use simpel_dateisystem.Sfs.Getattr.{Stat, is_special, getattr_found, sfs_getattr}
use simpel_dateisystem.Sfs.Readdir.{readdir_found, sfs_readdir, entry_names}
use simpel_dateisystem.Sfs.Requests.{
  Request, getattr, create, unlink, open_file, release, read, write, rmdir, mkdir, opendir, readdir,
  releasedir, Reply, plain, handle,
}
use simpel_dateisystem.Sfs.Keeps.{IsAllowed, readdir-ok}
use simpel_dateisystem.Table.{
  Table, view, lookup, add, drop, search_result, add_result, drop_result, list_result, mkdir_result,
  run,
}
use simpel_dateisystem.Table.Search.{find_file_or_dir-lookup}
use simpel_dateisystem.Table.Change.{seen, IsAdded, create_inode-IsAdded, remove_inode-drop}

-- What a handler gives, as the table sees it.
abbrev Gives : Outcome (ℤ × Store) → ℤ × Table → Type 0
Gives r q = Ensures (λ (a : ℤ × Store). seen a ≡ q) r

abbrev pub seen_reply : Reply × Store → ℤ × Table
seen_reply (reply, s) = (reply.result, view s)

plain-Gives :
    (r : Outcome (ℤ × Store)) (q : ℤ × Table)
    → Gives r q
    → Ensures (λ (a : Reply × Store). seen_reply a ≡ q) (r >>= plain)
plain-Gives (ok (z, t)) q e = e
plain-Gives fault q e = elim e [ ]

lookup_result-search_result :
    (s : Store) (r : Pointer) → seen (lookup_result s r) ≡ (search_result r, view s)
lookup_result-search_result s none = refl
lookup_result-search_result s (some i) = refl

write_result-seen :
    (s : Store) (size : ℕ) (r : Pointer) → seen (write_result s size r) ≡ (negsuc 0, view s)
write_result-seen s size none = refl
write_result-seen s size (some i) = ground arith

create_result-add_result :
    (env : Env) (s : Store) (path : Text) (r : Pointer × Store)
    → IsAdded s path r
    → seen (create_result env r) ≡ add_result (neg_ℕ (env.errno s.errno)) (add (view s) path)
create_result-add_result env s path (none, t) (e, same) =
    ap (λ (u : Store). (neg_ℕ (env.errno u.errno), view t)) (same refl)
    ∙ ap (add_result (neg_ℕ (env.errno s.errno))) e
create_result-add_result env s path (some i, t) (e, same) =
    ap (add_result (neg_ℕ (env.errno s.errno))) e

remove_result-drop_result :
    (r : Bool × Store) (q : Bool × Table) → seen r ≡ q → seen (remove_result r) ≡ drop_result q
remove_result-drop_result (true, t) q e = ap drop_result e
remove_result-drop_result (false, t) q e = ap drop_result e

-- A chain that ends ensures what each of its ends ensures.
ends-Ensures :
    {A B : Type 0} (P : B → Type 0) (c : Outcome A) (f : A → Outcome B)
    → Ensures (λ _. Unit {0}) (c >>= f)
    → ((x : A) → Ensures (λ _. Unit {0}) (f x) → Ensures P (f x))
    → Ensures P (c >>= f)
ends-Ensures P (ok x) f ends h = h x ends
ends-Ensures P fault f ends h = ends

module _ (env : Env) (s : Store) (m : HasMemory env) (v : IsSafe s) where
  abbrev failed : ℤ
  failed = neg_ℕ (env.errno s.errno)

  -- Every search ends with what the table finds.
  search-Gives :
      (path : Text) (answer : Pointer → ℤ × Store) (q : Option ℕ → ℤ × Table)
      → ((r : Pointer) → seen (answer r) ≡ q r)
      → Gives (find_file_or_dir env s path >>= (λ r. ok (answer r))) (q (lookup (view s) path))
  search-Gives path answer q h =
      rw (find_file_or_dir-lookup env s path m v.count) (h (lookup (view s) path))

  found :
      (path : Text)
      → Gives
          (find_file_or_dir env s path >>= (λ r. ok (lookup_result s r)))
          (search_result (lookup (view s) path), view s)
  found path =
      search-Gives path (lookup_result s) (λ r. (search_result r, view s))
        (lookup_result-search_result s)

  create-Gives :
      (path : Text) (mode : ℕ) (answer : Pointer × Store → ℤ × Store) (q : ℤ × Table)
      → Fits path
      → ((r : Pointer × Store) → IsAdded s path r → seen (answer r) ≡ q)
      → Gives (create_inode env s path mode >>= (λ r. ok (answer r))) q
  create-Gives path mode answer q fits h =
      Ensures-bind (IsAdded s path) (λ (a : ℤ × Store). seen a ≡ q) (create_inode env s path mode) _
        (create_inode-IsAdded env s path mode m v.count fits) h

  remove-Gives :
      (path : Text)
      → path ≢ root_name
      → Gives
          (remove_inode env s path >>= (λ r. ok (remove_result r)))
          (drop_result (drop (view s) path))
  remove-Gives path ne =
      Ensures-bind (λ r. seen r ≡ drop (view s) path)
        (λ (a : ℤ × Store). seen a ≡ drop_result (drop (view s) path)) (remove_inode env s path) _
        (remove_inode-drop env s path m v ne)
        λ r e. remove_result-drop_result r (drop (view s) path) e

  mkdir-Gives :
      (path : Text) (mode : ℕ)
      → Fits path
      → Gives (sfs_mkdir env s path mode) (mkdir_result (view s) path mode)
  unfolding sfs_mkdir
  mkdir-Gives path mode fits = elim (Bool-cases (mode == 493)) [
    | inl dir ↦ rw dir (
        create-Gives path s_ifdir (λ r. (pos 0, r.1)) (pos 0, (add (view s) path).1) fits
          (λ r e. ap (λ (q : Pointer × Table). (pos 0, q.1)) e.0))
    | inr not_dir ↦ elim (Bool-cases (mode == to_u32 (negsuc 32347))) [
      | inl file ↦
          rw (not_dir, file)
            (create-Gives path s_ifreg (λ r. (pos 0, r.1)) (pos 0, (add (view s) path).1) fits
              (λ r e. ap (λ (q : Pointer × Table). (pos 0, q.1)) e.0))
      | inr other ↦ rw (not_dir, other) refl
    ]
  ]

  lookup-InArray : (path : Text) → InArray (lookup (view s) path)
  lookup-InArray path =
      subst (Ensures InArray) (find_file_or_dir-lookup env s path m v.count)
        (find_file_or_dir-InArray env s path v.count)

  found-Gives :
      (statbuf : Stat) (r : Pointer)
      → InArray r
      → Ensures
          (λ (a : ℤ × Option Stat × Store).
            ◌≡◌ {A = ℤ × Table} (a.0, view a.2) (search_result r, view s))
          (getattr_found env s statbuf r)
  unfolding getattr_found
  found-Gives statbuf none h = refl
  found-Gives statbuf (some i) h = rw (lt→ltb i max_inodes h) refl

  getattr-Gives :
      (path : Text) (statbuf : Option Stat)
      → Ensures
          (λ (a : ℤ × Option Stat × Store).
            ◌≡◌ {A = ℤ × Table} (a.0, view a.2) (run failed (view s) (getattr path statbuf)))
          (sfs_getattr env s path statbuf)
  unfolding sfs_getattr
  getattr-Gives path none = refl
  getattr-Gives path (some statbuf) = elim (Bool-cases (ltb path_max (length path))) [
    | inl long ↦ rw long refl
    | inr short ↦ elim (Bool-cases (is_special path)) [
      | inl special ↦ rw (short, special) refl
      | inr searched ↦
          rw (short, searched, find_file_or_dir-lookup env s path m v.count)
            (found-Gives statbuf (lookup (view s) path) (lookup-InArray path))
    ]
  ]

  listed-Gives :
      (r : Pointer)
      → Ensures (λ _. Unit {0}) (readdir_found s r)
      → Ensures (λ (a : ℤ × List Text). a.0 ≡ list_result r) (readdir_found s r)
  unfolding readdir_found
  listed-Gives none ends = refl
  listed-Gives (some d) ends = ends-Ensures _ (fcb_at s d) _ ends (λ f ends_names.
      ends-Ensures _ (entry_names s f.dir_contents max_files_in_dir 0) _ ends_names
        (λ names ends_here. refl))

  readdir-Gives :
      (path : Text)
      → IsAllowed s (readdir path)
      → Ensures
          (λ (a : ℤ × List Text). a.0 ≡ list_result (lookup (view s) path))
          (sfs_readdir env s path)
  unfolding sfs_readdir
  readdir-Gives path room =
      let same = find_file_or_dir-lookup env s path m v.count in
      let ends =
        subst (λ c. Ensures (λ _. Unit {0}) (c >>= readdir_found s)) same
          (readdir-ok env s v path room) in
      rw same (listed-Gives (lookup (view s) path) ends)

  -- On a safe store, with memory for each allocation: every request that is allowed gets a reply with
  -- the result that the table gives for it, where a creation that fails answers the negated errno, and
  -- leaves a store that stands for the table's next state.
  pub handle-run :
      (request : Request)
      → IsAllowed s request
      → Ensures
          (λ (a : Reply × Store). seen_reply a ≡ run failed (view s) request)
          (handle env s request)
  unfolding handle sfs_create sfs_unlink sfs_rmdir sfs_open sfs_release sfs_read sfs_opendir
      sfs_write sfs_releasedir
  handle-run (getattr path statbuf) a =
      Ensures-bind _ _ (sfs_getattr env s path statbuf) _ (getattr-Gives path statbuf) (λ r e. e)
  handle-run (create path mode) fits = plain-Gives _ _ (
      create-Gives path mode (create_result env) (run failed (view s) (create path mode)) fits
        (λ r e. create_result-add_result env s path r e))
  handle-run (unlink path) ne = plain-Gives _ _ (remove-Gives path ne)
  handle-run (rmdir path) ne = plain-Gives _ _ (remove-Gives path ne)
  handle-run (open_file path) a = plain-Gives _ _ (found path)
  handle-run (release path) a = plain-Gives _ _ (found path)
  handle-run (read path) a = plain-Gives _ _ (found path)
  handle-run (opendir path) a = plain-Gives _ _ (found path)
  handle-run (write path size) a =
      plain-Gives _ _ (
        search-Gives path (write_result s size) (λ r. (negsuc 0, view s))
          (write_result-seen s size))
  handle-run (mkdir path mode) fits = plain-Gives _ _ (mkdir-Gives path mode fits)
  handle-run (readdir path) room =
      Ensures-bind _ _ (sfs_readdir env s path) _ (readdir-Gives path room)
        (λ r e. ap (λ z. (z, view s)) e)
  handle-run releasedir a = refl
