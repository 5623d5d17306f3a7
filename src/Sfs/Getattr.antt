-- ===== src/Sfs/Getattr.antt =====
-- sfs_getattr of src/sfs.c.
use simpel_dateisystem.Base.{
  ℕ, ℤ, pos, negsuc, Bool, Option, none, some, ◌&&◌, ◌||◌, ltb, ◌==◌, ◌==ℤ◌, if◌then◌else◌, length,
  take, neg_ℕ, to_u32,
}
use simpel_dateisystem.Base.Outcome.{Outcome, ok, ◌>>=◌}
use simpel_dateisystem.Base.CString.{Text, codes, str_eq}
use simpel_dateisystem.Knoten.{FileControlBlock, Pointer, block_size}
use simpel_dateisystem.Store.{Store, Env, fcb_at}
use simpel_dateisystem.Path.{root_name}
use simpel_dateisystem.Inodes.{find_file_or_dir}
use simpel_dateisystem.Sfs.{enoent, eio, enametoolong, path_max, s_ifdir, s_ifreg, set_errno}

-- `struct stat`
pub record Stat : Type 0 where
  pub st_dev : ℕ
  pub st_ino : ℕ
  pub st_mode : ℕ
  pub st_nlink : ℕ
  pub st_uid : ℕ
  pub st_gid : ℕ
  pub st_rdev : ℕ
  pub st_size : ℤ
  pub st_atime : ℤ
  pub st_mtime : ℤ
  pub st_ctime : ℤ
  pub st_blksize : ℕ
  pub st_blocks : ℕ

-- The paths that sfs_getattr answers without a search.
unfoldable pub is_special : Text → Bool
is_special path =
    str_eq path (codes "/.Trash")
    || str_eq (take 8 path) (codes "/.Trash-") && length path == 13
    || str_eq path root_name

unfoldable pub special_stat : Env → Store → Text → Stat
special_stat env s path = record {
  st_dev = 0;
  st_ino = 0;
  st_mode = if str_eq path root_name then 16877 else 33206;
  st_nlink = 0;
  st_uid = to_u32 (s.inodes 0).uid;
  st_gid = env.gid;
  st_rdev = 0;
  st_size = (s.inodes 0).file_size;
  st_atime = (s.inodes 0).time;
  st_mtime = pos 0;
  st_ctime = pos 0;
  st_blksize = block_size;
  st_blocks = 0;
}

-- The mode of a file, or what stood in the buffer where the inode's mode is none of the three.
abbrev pub stat_mode : FileControlBlock → ℕ → ℕ
stat_mode f old =
    if f.mode ==ℤ pos 493 || f.mode ==ℤ pos 16384
    then s_ifdir
    else if f.mode ==ℤ negsuc 32347
    then s_ifreg
    else old

unfoldable pub file_stat : Env → FileControlBlock → Stat → Stat
file_stat env f statbuf = record {
  st_dev = 0;
  st_ino = 0;
  st_mode = stat_mode f statbuf.st_mode;
  st_nlink = 0;
  st_uid = to_u32 f.uid;
  st_gid = env.gid;
  st_rdev = 0;
  st_size = f.file_size;
  st_atime = f.time;
  st_mtime = f.time;
  st_ctime = f.time;
  st_blksize = block_size;
  st_blocks = 0;
}

-- The branch of sfs_getattr that searches.
unfoldable pub getattr_found : Env → Store → Stat → Pointer → Outcome (ℤ × Option Stat × Store)
getattr_found env s statbuf none = ok (neg_ℕ enoent, some statbuf, s)
getattr_found env s statbuf (some i) = do
  f ← fcb_at s i
  ok (pos 0, some (file_stat env f statbuf), s)

-- `none` is a NULL `statbuf`.
unfoldable pub sfs_getattr : Env → Store → Text → Option Stat → Outcome (ℤ × Option Stat × Store)
sfs_getattr env s path none =
    ok (negsuc 0, none, set_errno (if ltb path_max (length path) then enametoolong else eio) s)
sfs_getattr env s path (some statbuf) =
    if ltb path_max (length path)
    then ok (negsuc 0, some statbuf, set_errno enametoolong s)
    else if is_special path
    then ok (pos 0, some (special_stat env s path), s)
    else find_file_or_dir env s path >>= getattr_found env s statbuf
