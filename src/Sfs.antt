-- ===== src/Sfs.antt =====
-- The handlers of src/sfs.c that look up, make and remove files. A handler returns its result with
-- the new store. Error numbers are those of Linux.
pub mod Getattr
pub mod Readdir
pub mod Requests
pub mod Lookup
pub mod Create
pub mod Attributes
pub mod Listing
pub mod Reuse
pub mod Listed
pub mod Keeps
pub mod Safety
pub mod Restart
use simpel_dateisystem.Base.{
  ℕ, zero, suc, ℤ, pos, negsuc, ◌*◌, Bool, true, false, Option, none, some, List, [], ◌∷◌, ◌&&◌,
  ◌||◌, ltb, leb, ◌==◌, ◌==ℤ◌, if◌then◌else◌, length, take, neg_ℕ, to_u32, ◌≡◌,
}
use simpel_dateisystem.Base.Outcome.{Outcome, ok, fault, ◌>>=◌}
use simpel_dateisystem.Base.CString.{Text, codes, str_eq}
use simpel_dateisystem.Knoten.{FileControlBlock, Pointer, block_size, max_files_in_dir}
use simpel_dateisystem.Store.{Store, Env, fcb_at}
use simpel_dateisystem.Path.{root_name}
use simpel_dateisystem.Inodes.{find_file_or_dir, create_inode, remove_inode}

abbrev pub enoent : ℕ
enoent = 2

abbrev pub eio : ℕ
eio = 5

abbrev pub efbig : ℕ
efbig = 27

abbrev pub enametoolong : ℕ
enametoolong = 36

abbrev pub path_max : ℕ
path_max = 4096

abbrev pub s_ifdir : ℕ
s_ifdir = 16384

abbrev pub s_ifreg : ℕ
s_ifreg = 32768

abbrev pub set_errno : ℕ → Store → Store
set_errno e s = record s { errno = e }

-- `errno = e; return -errno;`
abbrev pub fail : ℕ → Store → ℤ × Store
fail e s = (neg_ℕ e, set_errno e s)

abbrev pub create_result : Env → Pointer × Store → ℤ × Store
create_result env (some i, s) = (pos 0, s)
create_result env (none, s) = let e = env.errno s.errno in (neg_ℕ e, set_errno e s)

-- On failure the code returns whatever stands in errno.
unfoldable pub sfs_create : Env → Store → Text → ℕ → Outcome (ℤ × Store)
sfs_create env s path mode = do
  created ← create_inode env s path mode
  ok (create_result env created)

abbrev pub remove_result : Bool × Store → ℤ × Store
remove_result (true, s) = (pos 0, s)
remove_result (false, s) = fail enoent s

unfoldable pub sfs_unlink : Env → Store → Text → Outcome (ℤ × Store)
sfs_unlink env s path = do removed ← remove_inode env s path; ok (remove_result removed)

unfoldable pub sfs_rmdir : Env → Store → Text → Outcome (ℤ × Store)
sfs_rmdir env s path = do removed ← remove_inode env s path; ok (remove_result removed)

-- What the handlers that only look a file up answer.
abbrev pub lookup_result : Store → Pointer → ℤ × Store
lookup_result s (some i) = (pos 0, s)
lookup_result s none = fail enoent s

unfoldable pub sfs_open : Env → Store → Text → Outcome (ℤ × Store)
sfs_open env s path = do fcb ← find_file_or_dir env s path; ok (lookup_result s fcb)

unfoldable pub sfs_release : Env → Store → Text → Outcome (ℤ × Store)
sfs_release env s path = do fcb ← find_file_or_dir env s path; ok (lookup_result s fcb)

unfoldable pub sfs_opendir : Env → Store → Text → Outcome (ℤ × Store)
sfs_opendir env s path = do fcb ← find_file_or_dir env s path; ok (lookup_result s fcb)

-- Reading is not implemented: no byte is read, and 0 is returned for a file that is found.
unfoldable pub sfs_read : Env → Store → Text → Outcome (ℤ × Store)
sfs_read env s path = do fc ← find_file_or_dir env s path; ok (lookup_result s fc)

-- `sizeof(fc->block)/sizeof(fc->block[0])` is 60, as `block` is an array of `char`.
abbrev pub capacity : ℕ
capacity = 60 * block_size

abbrev pub write_result : Store → ℕ → Pointer → ℤ × Store
write_result s size (some i) = (negsuc 0, if leb size capacity then s else set_errno efbig s)
write_result s size none = (negsuc 0, set_errno enoent s)

-- Writing is not implemented: the loop over `numBlocks` is empty, and -1 is returned.
unfoldable pub sfs_write : Env → Store → Text → ℕ → Outcome (ℤ × Store)
sfs_write env s path size = do fc ← find_file_or_dir env s path; ok (write_result s size fc)

-- `mode` is unsigned, so it is compared with -32348 modulo 2^32.
unfoldable pub sfs_mkdir : Env → Store → Text → ℕ → Outcome (ℤ × Store)
sfs_mkdir env s path mode =
    if mode == 493
    then create_inode env s path s_ifdir >>= (λ (_, s1). ok (pos 0, s1))
    else if mode == to_u32 (negsuc 32347)
    then create_inode env s path s_ifreg >>= (λ (_, s1). ok (pos 0, s1))
    else ok (pos 0, s)

unfoldable pub sfs_releasedir : Store → ℤ × Store
sfs_releasedir s = (pos 0, s)
