-- ===== src/Mount.antt =====
-- The start and the end of the file system: disk_open, disk_close, block_read, sBlock_read and
-- inode_read of src/block.c, and sfs_init and sfs_destroy of src/sfs.c.
pub mod New
pub mod Old
pub mod Bounds
pub mod Load
pub mod Final
pub mod Sound
pub mod Medium
pub mod Again
use simpel_dateisystem.Base.{
  ℕ, zero, suc, ℤ, pos, negsuc, ◌+◌, ◌-◌, ◌*◌, ◌/◌, ◌%◌, Bool, false, Option, none, some, List, [],
  ◌∷◌, ltb, ◌==◌, leb_ℤ, ltb_ℤ, ◌==ℤ◌, ◌+ℤ◌, if◌then◌else◌, update, to_int,
}
use simpel_dateisystem.Base.Outcome.{Outcome, ok, fault, ◌>>=◌}
use simpel_dateisystem.Knoten.{
  FileControlBlock, Superblock, zero_fcb, zero_superblock, block_size, fcb_size, max_blocks,
}
use simpel_dateisystem.Store.{Store, Env, fcb_at, set_fcb}
use simpel_dateisystem.Block.{block_offset}
use simpel_dateisystem.Inodes.{rounds, next_block, next_fill, flush_all_inodes_to_disk}
use simpel_dateisystem.Format.{format_disk}

-- What the kernel answers while the disk is opened and read: the descriptor that `open` returns, the
-- size of the file, and for each `pread` its result with what the buffer holds afterwards. They are
-- independent here; a regular file gives no byte of the superblock only if its size is 0.
pub record Disk : Type 0 where
  pub open_result : ℤ
  pub st_size : ℤ
  pub pread_superblock : ℤ × Superblock
  pub pread_inode : ℤ → FileControlBlock → ℤ × FileControlBlock
  pub pread_block : ℤ → List ℕ → ℤ × List ℕ

-- `none` is the exit of the program.
unfoldable pub disk_open : Disk → Store → Option Store
disk_open disk s =
    if leb_ℤ (pos 0) s.diskfile
    then some s
    else if ltb_ℤ disk.open_result (pos 0)
    then none
    else some (record s { diskfile = disk.open_result })

-- Whether the descriptor is closed. It stays in `diskfile`.
unfoldable pub disk_close : Store → Bool
disk_close s = leb_ℤ (pos 0) s.diskfile

-- `memset` over a block
abbrev pub zero_block : ℕ → List ℕ
zero_block zero = []
zero_block (suc n) = 0 ∷ zero_block n

unfoldable pub block_read : Disk → ℤ → List ℕ → ℤ × List ℕ
block_read disk block_num buf =
    let (ret, read) = disk.pread_block (block_offset block_num) buf in
    if leb_ℤ ret (pos 0) then (ret, zero_block block_size) else (ret, read)

unfoldable pub s_block_read : Disk → ℤ × Superblock
s_block_read disk =
    let (ret, read) = disk.pread_superblock in
    if leb_ℤ ret (pos 0) then (ret, zero_superblock) else (ret, read)

-- The start of an inode up to byte `4096 - 4 * 840`: its fields and 17 of its entries.
abbrev pub zero_prefix : FileControlBlock → FileControlBlock
zero_prefix f = record zero_fcb { dir_contents = λ i. if ltb i 17 then none else f.dir_contents i }

-- `memset(&inodes[i], 0, BLOCK_SIZE)`: a block is more than an inode, so four inodes and the start of
-- a fifth are cleared.
unfoldable pub clear_block_at : Store → ℕ → Outcome Store
clear_block_at s i = do
  f ← fcb_at s (i + 4)
  s1 ← set_fcb s i zero_fcb
  s2 ← set_fcb s1 (i + 1) zero_fcb
  s3 ← set_fcb s2 (i + 2) zero_fcb
  s4 ← set_fcb s3 (i + 3) zero_fcb
  set_fcb s4 (i + 4) (zero_prefix f)

-- `inode_read(block_num, &inodes[i], offset)`
unfoldable pub inode_read : Disk → Store → ℤ → ℕ → ℤ → Outcome (ℤ × Store)
inode_read disk s block_num i offset = do
  f ← fcb_at s i
  let (ret, read) = disk.pread_inode (to_int (block_offset block_num +ℤ offset)) f
  s' ← (if leb_ℤ ret (pos 0) then clear_block_at s i else set_fcb s i read)
  ok (ret, s')

-- `mode & S_IFMT`, over `0010000`: 4 for a directory and 8 for a regular file.
unfoldable pub file_type : ℤ → ℕ
file_type (pos n) = n % 65536 / 4096
file_type (negsuc n) = (65535 - n % 65536) / 4096

abbrev pub is_dir : ℤ → Bool
is_dir mode = file_type mode == 4

abbrev pub is_reg : ℤ → Bool
is_reg mode = file_type mode == 8

abbrev pub set_dbmap : Store → ℕ → ℕ → Outcome Store
set_dbmap s i b =
    if ltb i max_blocks
    then ok (record s { s_block = record (s.s_block) { dbmap = update s.s_block.dbmap i b } })
    else fault

-- What sfs_init does with an inode that it has read.
unfoldable pub note_data : Store → ℕ → FileControlBlock → Outcome Store
note_data s i fcb =
    if is_dir fcb.mode
    then ok s
    else if is_reg fcb.mode
    then set_dbmap s i (if ltb_ℤ fcb.file_size (pos 1) then 0 else 1)
    else ok s

-- The loop of sfs_init, with the rounds left. At the end of the file the place stays as it is; a
-- failed read counts as a success.
unfoldable pub load_from : Disk → Store → ℕ → ℕ → ℤ → ℕ → Outcome Store
load_from disk s zero i b fill = ok s
load_from disk s (suc left) i b fill = do
  (is_succ, s1) ← inode_read disk s b i (pos (fill * fcb_size))
  let at_end = is_succ ==ℤ pos 0
  fcb ← fcb_at s1 i
  s2 ← (if at_end then ok s1 else note_data s1 i fcb)
  load_from disk s2 left (suc i) (if at_end then b else next_block s2 fill b)
      (if at_end then fill else next_fill s2 fill)

-- sfs_init behind disk_open. The magic number is looked at for the log only.
unfoldable pub mount : Disk → Env → Store → Outcome Store
mount disk env s =
    let s0 = record s { disk_size = to_int disk.st_size } in
    let (ret, sb) = s_block_read disk in
    if ret ==ℤ pos 0
    then format_disk env s0 >>= (λ (_, s1). ok s1)
    else if ltb_ℤ ret (pos 0)
    then ok s0
    else load_from disk (record s0 { s_block = sb }) (rounds 0 sb.num_inodes) 0 sb.inode_start_index
        0

-- `none` is the exit of the program.
unfoldable pub sfs_init : Disk → Env → Store → Outcome (Option Store)
sfs_init disk env s = elim (disk_open disk s) [
  | none ↦ ok none
  | some s0 ↦ mount disk env s0 >>= (λ s1. ok (some s1))
]

unfoldable pub sfs_destroy : Env → Store → Outcome Store
sfs_destroy env s = flush_all_inodes_to_disk env s false >>= (λ (_, s1). ok s1)
