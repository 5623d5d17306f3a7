-- ===== src/Mount/New.antt =====
-- sfs_init on a disk file without a file system: an empty one, which formatDisk gets, or one of zeros.
use mathlib.Core.Path.{subst}
use simpel_dateisystem.Base.{
  ℕ, zero, suc, pos, ◌≤◌, ◌≡◌, refl, sym, ap, ◌∙◌, Bool, false, Option, none, some, arith, leb_ℤ,
  ltb_ℤ, ◌==ℤ◌, if◌then◌else◌, to_int, to_int-small,
}
use simpel_dateisystem.Base.Outcome.{Outcome, ok, Ensures, Ensures-bind, Ensures-mono, ◌>>=◌}
use simpel_dateisystem.Base.CString.{Text}
use simpel_dateisystem.Knoten.{zero_superblock}
use simpel_dateisystem.Store.{Store, Env, start_store}
use simpel_dateisystem.Inodes.{create_inode, create_from}
use simpel_dateisystem.Inodes.Find.{inode_count}
use simpel_dateisystem.Format.{format_disk}
use simpel_dateisystem.Format.Layout.{IsLayout}
use simpel_dateisystem.Format.Fresh.{IsBlank, IsFresh, format_disk-IsFresh}
use simpel_dateisystem.Mount.{Disk, disk_open, s_block_read, load_from, mount, sfs_init}

-- What sfs_init leaves: a new file system of that size.
abbrev pub IsMounted : ℕ → Option Store → Type 0
IsMounted size none = ⊥
IsMounted size (some t) = IsFresh size t

-- The two variables that sfs_init sets in front of formatDisk.
abbrev opened : Disk → ℕ → Store
opened disk size = record start_store { diskfile = disk.open_result; disk_size = pos size }

opened-IsBlank : (disk : Disk) (size : ℕ) → IsBlank (opened disk size) size
opened-IsBlank disk size = record { s_block = refl; inodes = refl; disk_size = refl }

mount_new :
    (disk : Disk) (env : Env) (size : ℕ)
    → disk.st_size ≡ pos size
    → size ≤ 310303944
    → disk.pread_superblock.0 ≡ pos 0
    → mount disk env (record start_store { diskfile = disk.open_result })
      ≡ (format_disk env (opened disk size) >>= (λ r. ok r.1))
unfolding mount s_block_read
mount_new disk env size e h empty =
    let size_is : to_int disk.st_size ≡ pos size = ap to_int e ∙ to_int-small size (omega arith) in
    rw (size_is, empty) refl

pub open_new :
    (disk : Disk) (fd : ℕ)
    → disk.open_result ≡ pos fd
    → disk_open disk start_store ≡ some (record start_store { diskfile = disk.open_result })
unfolding disk_open
open_new disk fd descriptor =
    let valid : ltb_ℤ disk.open_result (pos 0) ≡ false =
      ap (λ z. ltb_ℤ z (pos 0)) descriptor ∙ ground arith in
    ap (λ (b : Bool). if b then none else some (record start_store { diskfile = disk.open_result }))
      valid

abbrev pub after_open : Disk → Env → Option Store → Outcome (Option Store)
after_open disk env none = ok none
after_open disk env (some s) = mount disk env s >>= (λ t. ok (some t))

-- At the start of the program, where the disk file can be opened and the read of the superblock gives
-- no byte, sfs_init leaves what formatDisk makes of the size.
sfs_init-IsFresh :
    (disk : Disk) (env : Env) (size fd : ℕ)
    → disk.open_result ≡ pos fd
    → disk.st_size ≡ pos size
    → size ≤ 310303944
    → disk.pread_superblock.0 ≡ pos 0
    → Ensures (IsMounted size) (sfs_init disk env start_store)
unfolding sfs_init
sfs_init-IsFresh disk env size fd descriptor e h empty =
    let started : sfs_init disk env start_store
        ≡ ((format_disk env (opened disk size) >>= (λ r. ok r.1)) >>= (λ t. ok (some t))) =
      ap (after_open disk env) (open_new disk fd descriptor)
      ∙ ap (λ r. r >>= (λ t. ok (some t))) (mount_new disk env size e h empty) in
    subst (Ensures (IsMounted size)) (sym started) (
      Ensures-bind (IsFresh size) (IsMounted size)
        (format_disk env (opened disk size) >>= (λ r. ok r.1)) _
        (Ensures-bind (λ r. (r.0 ≡ pos 1) × IsFresh size r.1) (IsFresh size)
          (format_disk env (opened disk size)) _
          (format_disk-IsFresh env (opened disk size) size (opened-IsBlank disk size) h)
          λ r done. done.1)
        λ t done. done)

-- A disk file that holds no file system: an empty one, or one that starts with zeros.
pub data IsUnformatted (disk : Disk) : Type 0 where
  empty : disk.st_size ≡ pos 0 → disk.pread_superblock.0 ≡ pos 0 → IsUnformatted disk
  zeros : (r : ℕ) → disk.pread_superblock ≡ (pos (suc r), zero_superblock) → IsUnformatted disk

-- A file system that counts no inode and in which no file can be made.
abbrev pub HasNoRoom : Option Store → Type 0
HasNoRoom none = ⊥
HasNoRoom (some t) =
    (inode_count t ≡ 0)
    × ((env : Env) (path : Text) (mode : ℕ) → create_inode env t path mode ≡ ok (none, t))

uncounted-HasNoRoom : (t : Store) → inode_count t ≡ 0 → HasNoRoom (some t)
unfolding create_inode create_from
uncounted-HasNoRoom t uncounted = (uncounted, λ env path mode. rw uncounted refl)

IsLayout-zero : (n : ℕ) → IsLayout 0 n → n ≡ 0
IsLayout-zero zero l = refl
IsLayout-zero (suc m) l = absurd (omega (arith, (l.given m refl).0))

fresh-HasNoRoom : (t : Option Store) → IsMounted 0 t → HasNoRoom t
fresh-HasNoRoom none fresh = elim fresh [ ]
fresh-HasNoRoom (some t) fresh = uncounted-HasNoRoom t (IsLayout-zero (inode_count t) fresh.counted)

mount-zeros :
    (disk : Disk) (env : Env) (s : Store) (r : ℕ)
    → disk.pread_superblock ≡ (pos (suc r), zero_superblock)
    → mount disk env s
      ≡ ok (record s { disk_size = to_int disk.st_size; s_block = zero_superblock })
unfolding mount s_block_read load_from
mount-zeros disk env s r e =
    let bytes : leb_ℤ (pos (suc r)) (pos 0) ≡ false = ground arith in
    let some_read : (pos (suc r) ==ℤ pos 0) ≡ false = ground arith in
    let no_error : ltb_ℤ (pos (suc r)) (pos 0) ≡ false = ground arith in
    rw (e, bytes, some_read, no_error) refl

-- At the start of the program, on a disk file that can be opened and is empty or starts with a
-- superblock of zeros, sfs_init ends without leaving an array, and leaves a file system that counts no
-- inode: create_inode gives NULL for every path and changes nothing.
pub sfs_init-HasNoRoom :
    (disk : Disk) (env : Env) (fd : ℕ)
    → disk.open_result ≡ pos fd
    → IsUnformatted disk
    → Ensures HasNoRoom (sfs_init disk env start_store)
unfolding sfs_init
sfs_init-HasNoRoom disk env fd descriptor (empty size none_read) =
    Ensures-mono _ _ (sfs_init disk env start_store)
      (sfs_init-IsFresh disk env 0 fd descriptor size (omega arith) none_read) fresh-HasNoRoom
sfs_init-HasNoRoom disk env fd descriptor (zeros r read) =
    let s0 = record start_store { diskfile = disk.open_result } in
    let s1 = record s0 { disk_size = to_int disk.st_size; s_block = zero_superblock } in
    let started : sfs_init disk env start_store ≡ ok (some s1) =
      ap (after_open disk env) (open_new disk fd descriptor)
      ∙ ap (λ r. r >>= (λ t. ok (some t))) (mount-zeros disk env s0 r read) in
    subst (Ensures HasNoRoom) (sym started) (uncounted-HasNoRoom s1 refl)
