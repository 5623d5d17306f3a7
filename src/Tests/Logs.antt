-- ===== src/Tests/Logs.antt =====
-- Examples of what is logged.
use simpel_dateisystem.Base.{pos, ◌≡◌, refl, [], ◌∷◌, ◌++◌, length}
use simpel_dateisystem.Base.Outcome.{Ensures}
use simpel_dateisystem.Base.CString.{codes}
use simpel_dateisystem.Log.{
  Log, long, log_struct, log_msg, FuseContext, ConnInfo, FileInfo, Statvfs, Utimbuf,
  log_fuse_context, log_conn, log_fi, log_stat, log_statvfs, log_utime, show_inode_names,
}
use simpel_dateisystem.Log.Names.{shown, nulls, named, below, show_inode_names_lem}
use simpel_dateisystem.Tests.Data.{small}
use simpel_dateisystem.Tests.Handlers.{dirty}

abbrev context : FuseContext
context = record {
  fuse = 94000000000000;
  uid = 1000;
  gid = 100;
  pid = pos 4711;
  private_data = 94000000000016;
  logfile = 94000000000032;
  diskfile = codes "disk";
  umask = 18;
}

abbrev conn : ConnInfo
conn = record {
  proto_major = 7;
  proto_minor = 19;
  async_read = 1;
  max_write = 131072;
  max_readahead = 131072;
  capable = 123;
  want = 11;
}

abbrev file : FileInfo
file = record {
  flags = pos 32768;
  fh_old = 0;
  writepage = pos 0;
  direct_io = 0;
  keep_cache = 1;
  fh = 5;
  lock_owner = 0;
}

abbrev volume : Statvfs
volume = record {
  f_bsize = 4096;
  f_frsize = 4096;
  f_blocks = 1000;
  f_bfree = 500;
  f_bavail = 500;
  f_files = 100;
  f_ffree = 90;
  f_favail = 90;
  f_fsid = 1;
  f_flag = 0;
  f_namemax = 255;
}

abbrev times : Utimbuf
times = record { actime = pos 77; modtime = pos 78 }

abbrev times_log : Log
times_log =
    record { format = codes "    modtime = 0x%08lx\n"; args = long (pos 78) ∷ [] }
    ∷ (record { format = codes "    actime = 0x%08lx\n"; args = long (pos 77) ∷ [] }
        ∷ (record { format = codes "    buf:\n"; args = [] } ∷ []))

log_utime-times : log_utime times [] ≡ times_log
unfolding log_utime log_struct log_msg
log_utime-times = refl

abbrev all_structs : Log → Log
all_structs log =
    log_fuse_context context
      (log_conn conn (log_fi file (log_stat dirty (log_statvfs volume (log_utime times log)))))

length-all_structs : length (all_structs []) ≡ 54
unfolding log_fuse_context log_conn log_fi log_stat log_statvfs log_utime log_struct log_msg
length-all_structs = refl

show_inode_names_lem_example :
    Ensures
      (λ after.
        (shown after ≡ named small 64 ++ shown times_log)
        × (nulls after ≡ below 64 ++ nulls times_log))
      (show_inode_names small times_log)
show_inode_names_lem_example = show_inode_names_lem small times_log

small_names : named small 64 ≡ (pos 2, codes "b") ∷ ((pos 1, codes "a") ∷ ((pos 0, codes "/") ∷ []))
small_names = refl
