-- ===== src/Store.antt =====
-- The global variables of the program (src/sfs.c lines 57 to 61, src/block.c line 18), and what the
-- C library and the kernel decide during a call.
use simpel_dateisystem.Base.{
  ℕ, ℤ, ◌≡◌, Bool, true, List, [], ltb, if◌then◌else◌, pos, negsuc, update,
}
use simpel_dateisystem.Base.Outcome.{Outcome, ok, fault}
use simpel_dateisystem.Knoten.{
  FileControlBlock, Superblock, zero_fcb, zero_superblock, max_inodes, max_blocks,
}

-- What a `pwrite` takes its bytes from: the buffer of '0' characters, the superblock, an inode, or
-- a block of the caller's.
pub data Buffer : Type 0 where
  zeros : Buffer
  superblock : Superblock → Buffer
  inode : FileControlBlock → Buffer
  block : List ℕ → Buffer

pub record Pwrite : Type 0 where
  pub buffer : Buffer
  pub size : ℤ
  pub offset : ℤ

-- `errno` is kept as the positive number. `writes` has the calls of `pwrite`, the last one first.
pub record Store : Type 0 where
  pub s_block : Superblock
  pub inodes : ℕ → FileControlBlock
  pub disk_size : ℤ
  pub diskfile : ℤ
  pub errno : ℕ
  pub writes : List Pwrite

-- The variables as the program starts.
abbrev pub start_store : Store
start_store = record {
  s_block = zero_superblock;
  inodes = λ _. zero_fcb;
  disk_size = pos 0;
  diskfile = negsuc 0;
  errno = 0;
  writes = [];
}

-- Whether `calloc` and `malloc` give memory, at the three kinds of calls of getRelativeParentName.
pub record Grants : Type 0 where
  pub absolute : Bool
  pub root : Bool
  pub relative : Bool

-- What one call of a handler meets. `find x` are the grants in round `x` of findFileOrDir, `parent`
-- and `path` those of create_inode; `pwrite` is the result of a call after the calls made so far;
-- `errno` is what the library leaves in errno while create_inode fails.
pub record Env : Type 0 where
  pub find : ℕ → Grants
  pub parent : Grants
  pub path : Bool
  pub uid : ℕ
  pub gid : ℕ
  pub time : ℤ
  pub pwrite : List Pwrite → Pwrite → ℤ
  pub errno : ℕ → ℕ

pub record IsGranted (g : Grants) : Type 0 where
  pub absolute : g.absolute ≡ true
  pub root : g.root ≡ true
  pub relative : g.relative ≡ true

-- Every allocation of the call succeeds.
pub record HasMemory (env : Env) : Type 0 where
  pub find : (x : ℕ) → IsGranted (env.find x)
  pub parent : IsGranted env.parent
  pub path : env.path ≡ true

-- A read of `inodes[i]`
abbrev pub fcb_at : Store → ℕ → Outcome FileControlBlock
fcb_at s i = if ltb i max_inodes then ok (s.inodes i) else fault

-- A write of `inodes[i]`
abbrev pub set_fcb : Store → ℕ → FileControlBlock → Outcome Store
set_fcb s i f = if ltb i max_inodes then ok (record s { inodes = update s.inodes i f }) else fault

abbrev pub set_ibmap : Store → ℕ → ℕ → Outcome Store
set_ibmap s i b =
    if ltb i max_blocks
    then ok (record s { s_block = record (s.s_block) { ibmap = update s.s_block.ibmap i b } })
    else fault

-- An `int` or `short` as an index of `inodes`, in the address computation `&inodes[n]`
abbrev pub inode_ref : ℤ → Outcome ℕ
inode_ref (pos n) = if ltb n max_inodes then ok n else fault
inode_ref (negsuc n) = fault
