-- ===== src/Log.antt =====
-- src/log.c and src/log.h: what is handed to vfprintf, and showInodeNames of src/DateiSteuerBlock.c.
pub mod Names
use Prim.Native.String.{String}
use simpel_dateisystem.Base.{ℕ, zero, suc, ℤ, pos, List, [], ◌∷◌, ◌++◌}
use simpel_dateisystem.Base.Outcome.{Outcome, ok, fault, ◌>>=◌}
use simpel_dateisystem.Base.CString.{Text, codes}
use simpel_dateisystem.Store.{Store, fcb_at}
use simpel_dateisystem.Sfs.Getattr.{Stat}

-- An argument behind the format, as it is passed on x86-64: 32 bits, 64 bits, a string, or another
-- pointer. An integer has its width alone: whether its type is signed, and which of `long` and
-- `long long` it is, are not kept.
pub data Arg : Type 0 where
  word : ℤ → Arg
  long : ℤ → Arg
  text : Text → Arg
  address : ℕ → Arg

-- A call of vfprintf. A log is its calls, the last one first.
pub record Message : Type 0 where
  pub format : Text
  pub args : List Arg

abbrev pub Log : Type 0
Log = List Message

unfoldable pub log_msg : String → List Arg → Log → Log
log_msg format args log = record { format = codes format; args = args } ∷ log

-- The macro log_struct, with the texts of the field and of the format.
unfoldable pub log_struct : String × String × Arg → Log → Log
log_struct (field, format, value) log =
    record {
      format = codes "    " ++ (codes field ++ (codes " = " ++ (codes format ++ codes "\n")));
      args = value ∷ [];
    }
    ∷ log

-- Uses of log_struct, one after another.
abbrev pub log_fields : List (String × String × Arg) → Log → Log
log_fields [] log = log
log_fields (field ∷ fields) log = log_fields fields (log_struct field log)

-- `struct fuse_context`, with the members of its private data that are logged
pub record FuseContext : Type 0 where
  pub fuse : ℕ
  pub uid : ℕ
  pub gid : ℕ
  pub pid : ℤ
  pub private_data : ℕ
  pub logfile : ℕ
  pub diskfile : Text
  pub umask : ℕ

unfoldable pub log_fuse_context : FuseContext → Log → Log
log_fuse_context context log =
    log_fields
      (("fuse", "%08x", address context.fuse)
        ∷ ("uid", "%d", word (pos context.uid))
        ∷ ("gid", "%d", word (pos context.gid))
        ∷ ("pid", "%d", word context.pid)
        ∷ ("private_data", "%08x", address context.private_data)
        ∷ ("logfile", "%08x", address context.logfile)
        ∷ ("diskfile", "%s", text context.diskfile)
        ∷ ("umask", "%05o", word (pos context.umask))
        ∷ [])
      (log_msg "    context:\n" [] log)

-- `struct fuse_conn_info`
pub record ConnInfo : Type 0 where
  pub proto_major : ℕ
  pub proto_minor : ℕ
  pub async_read : ℕ
  pub max_write : ℕ
  pub max_readahead : ℕ
  pub capable : ℕ
  pub want : ℕ

unfoldable pub log_conn : ConnInfo → Log → Log
log_conn conn log =
    log_fields
      (("proto_major", "%d", word (pos conn.proto_major))
        ∷ ("proto_minor", "%d", word (pos conn.proto_minor))
        ∷ ("async_read", "%d", word (pos conn.async_read))
        ∷ ("max_write", "%d", word (pos conn.max_write))
        ∷ ("max_readahead", "%d", word (pos conn.max_readahead))
        ∷ ("capable", "%08x", word (pos conn.capable))
        ∷ ("want", "%08x", word (pos conn.want))
        ∷ [])
      (log_msg "    conn:\n" [] log)

-- `struct fuse_file_info`
pub record FileInfo : Type 0 where
  pub flags : ℤ
  pub fh_old : ℕ
  pub writepage : ℤ
  pub direct_io : ℕ
  pub keep_cache : ℕ
  pub fh : ℕ
  pub lock_owner : ℕ

unfoldable pub log_fi : FileInfo → Log → Log
log_fi fi log =
    log_fields
      (("flags", "0x%08x", word fi.flags)
        ∷ ("fh_old", "0x%08lx", long (pos fi.fh_old))
        ∷ ("writepage", "%d", word fi.writepage)
        ∷ ("direct_io", "%d", word (pos fi.direct_io))
        ∷ ("keep_cache", "%d", word (pos fi.keep_cache))
        ∷ ("fh", "0x%016llx", long (pos fi.fh))
        ∷ ("lock_owner", "0x%016llx", long (pos fi.lock_owner))
        ∷ [])
      (log_msg "    fi:\n" [] log)

unfoldable pub log_stat : Stat → Log → Log
log_stat si log =
    log_fields
      (("st_dev", "%lld", long (pos si.st_dev))
        ∷ ("st_ino", "%lld", long (pos si.st_ino))
        ∷ ("st_mode", "0%o", word (pos si.st_mode))
        ∷ ("st_nlink", "%d", long (pos si.st_nlink))
        ∷ ("st_uid", "%d", word (pos si.st_uid))
        ∷ ("st_gid", "%d", word (pos si.st_gid))
        ∷ ("st_rdev", "%lld", long (pos si.st_rdev))
        ∷ ("st_size", "%lld", long si.st_size)
        ∷ ("st_blksize", "%ld", long (pos si.st_blksize))
        ∷ ("st_blocks", "%lld", long (pos si.st_blocks))
        ∷ ("st_atime", "0x%08lx", long si.st_atime)
        ∷ ("st_mtime", "0x%08lx", long si.st_mtime)
        ∷ ("st_ctime", "0x%08lx", long si.st_ctime)
        ∷ [])
      (log_msg "    si:\n" [] log)

-- `struct statvfs`
pub record Statvfs : Type 0 where
  pub f_bsize : ℕ
  pub f_frsize : ℕ
  pub f_blocks : ℕ
  pub f_bfree : ℕ
  pub f_bavail : ℕ
  pub f_files : ℕ
  pub f_ffree : ℕ
  pub f_favail : ℕ
  pub f_fsid : ℕ
  pub f_flag : ℕ
  pub f_namemax : ℕ

unfoldable pub log_statvfs : Statvfs → Log → Log
log_statvfs sv log =
    log_fields
      (("f_bsize", "%ld", long (pos sv.f_bsize))
        ∷ ("f_frsize", "%ld", long (pos sv.f_frsize))
        ∷ ("f_blocks", "%lld", long (pos sv.f_blocks))
        ∷ ("f_bfree", "%lld", long (pos sv.f_bfree))
        ∷ ("f_bavail", "%lld", long (pos sv.f_bavail))
        ∷ ("f_files", "%lld", long (pos sv.f_files))
        ∷ ("f_ffree", "%lld", long (pos sv.f_ffree))
        ∷ ("f_favail", "%lld", long (pos sv.f_favail))
        ∷ ("f_fsid", "%ld", long (pos sv.f_fsid))
        ∷ ("f_flag", "0x%08lx", long (pos sv.f_flag))
        ∷ ("f_namemax", "%ld", long (pos sv.f_namemax))
        ∷ [])
      (log_msg "    sv:\n" [] log)

-- `struct utimbuf`
pub record Utimbuf : Type 0 where
  pub actime : ℤ
  pub modtime : ℤ

unfoldable pub log_utime : Utimbuf → Log → Log
log_utime buf log =
    log_fields
      (("actime", "0x%08lx", long buf.actime) ∷ ("modtime", "0x%08lx", long buf.modtime) ∷ [])
      (log_msg "    buf:\n" [] log)

-- Whether an inode has a name. A name is followed by the line of a nameless inode.
abbrev pub log_name : ℕ → Text → Log → Log
log_name i [] log = log_msg "[showInodeNames] Inode Name [%d]: NULL \n" (word (pos i) ∷ []) log
log_name i (c ∷ name) log =
    log_msg "[showInodeNames] Inode Name [%d]: NULL\n" (word (pos i) ∷ [])
      (log_msg "[showInodeNames] Inode Name [%d]: %s\n" (word (pos i) ∷ (text (c ∷ name) ∷ [])) log)

-- The loop of showInodeNames, with the rounds left.
unfoldable pub show_from : Store → ℕ → ℕ → Log → Outcome Log
show_from s zero i log = ok log
show_from s (suc left) i log = do
  f ← fcb_at s i
  show_from s left (suc i) (log_name i f.file_name log)

unfoldable pub show_inode_names : Store → Log → Outcome Log
show_inode_names s log = show_from s 64 0 log
