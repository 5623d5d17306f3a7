-- ===== src/Sfs/Requests.antt =====
-- The table of handlers, `sfs_oper` of src/sfs.c, as a function of the request, and the runs of a
-- mounted file system.
use simpel_dateisystem.Base.{ℕ, ℤ, Option, none, List, []}
use simpel_dateisystem.Base.Outcome.{Outcome, ok, ◌>>=◌}
use simpel_dateisystem.Base.CString.{Text}
use simpel_dateisystem.Store.{Store, Env}
use simpel_dateisystem.Sfs.{
  sfs_create, sfs_unlink, sfs_open, sfs_release, sfs_read, sfs_write, sfs_mkdir, sfs_rmdir,
  sfs_opendir, sfs_releasedir,
}
use simpel_dateisystem.Sfs.Getattr.{Stat, sfs_getattr}
use simpel_dateisystem.Sfs.Readdir.{sfs_readdir}

-- A call of FUSE, with the arguments that its handler looks at.
pub data Request : Type 0 where
  getattr : Text → Option Stat → Request
  create : Text → ℕ → Request
  unlink : Text → Request
  open_file : Text → Request
  release : Text → Request
  read : Text → Request
  write : Text → ℕ → Request
  rmdir : Text → Request
  mkdir : Text → ℕ → Request
  opendir : Text → Request
  readdir : Text → Request
  releasedir : Request

-- What FUSE sees of a call: the result, the buffer of getattr, and the names given by readdir.
pub record Reply : Type 0 where
  pub result : ℤ
  pub stat : Option Stat
  pub names : List Text

abbrev pub plain : ℤ × Store → Outcome (Reply × Store)
plain (z, s) = ok (record { result = z; stat = none; names = [] }, s)

unfoldable pub handle : Env → Store → Request → Outcome (Reply × Store)
handle env s (getattr path statbuf) =
    sfs_getattr env s path statbuf
    >>= (λ (z, stat, t). ok (record { result = z; stat = stat; names = [] }, t))
handle env s (create path mode) = sfs_create env s path mode >>= plain
handle env s (unlink path) = sfs_unlink env s path >>= plain
handle env s (open_file path) = sfs_open env s path >>= plain
handle env s (release path) = sfs_release env s path >>= plain
handle env s (read path) = sfs_read env s path >>= plain
handle env s (write path size) = sfs_write env s path size >>= plain
handle env s (rmdir path) = sfs_rmdir env s path >>= plain
handle env s (mkdir path mode) = sfs_mkdir env s path mode >>= plain
handle env s (opendir path) = sfs_opendir env s path >>= plain
handle env s (readdir path) =
    sfs_readdir env s path
    >>= (λ (z, names). ok (record { result = z; stat = none; names = names }, s))
handle env s releasedir = plain (sfs_releasedir s)
