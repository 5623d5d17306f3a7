-- ===== src/Format.antt =====
-- formatDisk of src/DateiSteuerBlock.c: the layout of a new disk and its root directory.
pub mod Layout
pub mod Fresh
use simpel_dateisystem.Base.{
  ℕ, zero, suc, ℤ, pos, negsuc, ◌+◌, ◌-◌, ◌*◌, ◌/◌, ◌^◌, true, [], ltb, ◌+ℤ◌, if◌then◌else◌,
  pos_part, to_short, to_int,
}
use simpel_dateisystem.Base.Outcome.{Outcome, ok, fault, ◌>>=◌}
use simpel_dateisystem.Knoten.{FileControlBlock, Superblock, block_size, fcb_size, superblock_size}
use simpel_dateisystem.Store.{Store, Env, superblock, inode, fcb_at, set_fcb, set_ibmap}
use simpel_dateisystem.Block.{block_write_padded, s_block_write_padded}
use simpel_dateisystem.Path.{root_name}
use simpel_dateisystem.Directory.{init_dir_contents}
use simpel_dateisystem.Inodes.{flush_all_inodes_to_disk}

-- What a round adds to `currAllocation`
abbrev pub inode_space : ℕ
inode_space = block_size * 15 + block_size / fcb_size

abbrev pub int_limit : ℕ
int_limit = 2 ^ 31

-- The body of the loop up to its assignments to the superblock.
abbrev pub add_inode : Superblock → Superblock
add_inode sb = record sb {
  num_inodes = sb.num_inodes +ℤ pos 1;
  num_data_blocks = sb.num_data_blocks +ℤ pos 15;
}

-- The loop over `spaceUsed` and `currAllocation`, with fuel. It faults where an `int` overflows, and
-- where the fuel is not enough.
unfoldable pub allocate_inodes : ℕ → ℕ → ℕ → ℕ → Superblock → Outcome Superblock
allocate_inodes zero remaining used allocation sb = fault
allocate_inodes (suc fuel) remaining used allocation sb =
    let allocation' = allocation + inode_space in
    let used' = used + allocation' in
    let rest = allocate_inodes fuel remaining used' allocation' (add_inode sb) in
    if ltb used remaining
    then (if ltb allocation' int_limit
        then (if ltb allocation' remaining
            then (if ltb used' int_limit then rest else fault)
            else ok sb)
        else fault)
    else ok sb

-- `remainingSpace`. A negative one ends the loop at once, as 0 does.
abbrev pub remaining_space : ℤ → ℤ
remaining_space disk_size = to_int (disk_size +ℤ negsuc (superblock_size - 1))

-- `S_IFDIR | 0755`
abbrev pub root_mode : ℕ
root_mode = 16877

unfoldable pub root_inode : Env → FileControlBlock → FileControlBlock
root_inode env f = init_dir_contents (record f {
  file_name = root_name;
  file_size = pos 0;
  parent_dir = [];
  mode = to_short root_mode;
  uid = to_short env.uid;
  time = env.time;
  inumber = pos 0;
  parent_inumber = negsuc 0;
})

-- The superblock before the loop.
abbrev pub start_layout : Superblock → Superblock
start_layout sb = record sb {
  num_inodes_per_block = pos (block_size / fcb_size);
  inode_start_index = pos (1 + superblock_size / block_size);
}

abbrev pub layout : ℤ → Superblock → Outcome Superblock
layout disk_size sb =
    let remaining = pos_part (remaining_space disk_size) in
    allocate_inodes (remaining / inode_space + 2) remaining 0 0 (start_layout sb)

-- formatDisk behind its loop: the marks, the root, and the writes to the disk. The result is always 1.
unfoldable pub set_up_root : Env → Store → Superblock → Outcome (ℤ × Store)
set_up_root env s sb = do
  s1 ← set_ibmap (record s { s_block = record sb { magic_num = pos 666 } }) 0 1
  f ← fcb_at s1 0
  s2 ← set_fcb s1 0 (root_inode env f)
  let s3 = (s_block_write_padded env (pos 0) (superblock s2.s_block) (pos superblock_size) s2).1
  root ← fcb_at s3 0
  let start = s3.s_block.inode_start_index
  let s4 = (block_write_padded env start (inode root) (pos fcb_size) (pos 0) s3).1
  (_, s5) ← flush_all_inodes_to_disk env s4 true
  ok (pos 1, s5)

unfoldable pub format_disk : Env → Store → Outcome (ℤ × Store)
format_disk env s = layout s.disk_size s.s_block >>= set_up_root env s
