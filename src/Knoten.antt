-- ===== src/Knoten.antt =====
-- The constants and structures of src/knoten.h and src/block.h, at their sizes on x86-64. An array is
-- a function of the index, a pointer to an inode is the inode's index, and `NULL` is `none`.
use simpel_dateisystem.Base.{ℕ, ℤ, pos, Option, none, []}
use simpel_dateisystem.Base.CString.{Text}

abbrev pub max_blocks : ℕ
max_blocks = 5859

abbrev pub name_size : ℕ
name_size = 256

abbrev pub max_files_in_dir : ℕ
max_files_in_dir = 30

abbrev pub block_size : ℕ
block_size = 4096

-- `fileControlBlock inodes[100]`
abbrev pub max_inodes : ℕ
max_inodes = 100

-- `sizeof(superblock)`: six `int`s and two maps of 5859 bytes, rounded up to four.
abbrev pub superblock_size : ℕ
superblock_size = 11744

-- `sizeof(fileControlBlock)`: 600 bytes in front of `dirContents`, and 30 pointers.
abbrev pub fcb_size : ℕ
fcb_size = 840

-- `&inodes[i]`, or `NULL`
abbrev pub Pointer : Type 0
Pointer = Option ℕ

pub record Superblock : Type 0 where
  pub magic_num : ℤ
  pub num_inodes : ℤ
  pub num_data_blocks : ℤ
  pub inode_start_index : ℤ
  pub datablock_start_index : ℤ
  pub num_inodes_per_block : ℤ
  pub ibmap : ℕ → ℕ
  pub dbmap : ℕ → ℕ

-- `block` is read and written by no operation.
pub record FileControlBlock : Type 0 where
  pub file_name : Text
  pub file_size : ℤ
  pub num_blocks : ℤ
  pub inumber : ℤ
  pub parent_inumber : ℤ
  pub parent_dir : Text
  pub mode : ℤ
  pub uid : ℤ
  pub block : ℕ → ℕ
  pub time : ℤ
  pub dir_contents : ℕ → Pointer

-- Both structures with every byte 0, as the program starts with them.
abbrev pub zero_superblock : Superblock
zero_superblock = record {
  magic_num = pos 0;
  num_inodes = pos 0;
  num_data_blocks = pos 0;
  inode_start_index = pos 0;
  datablock_start_index = pos 0;
  num_inodes_per_block = pos 0;
  ibmap = λ _. 0;
  dbmap = λ _. 0;
}

abbrev pub zero_fcb : FileControlBlock
zero_fcb = record {
  file_name = [];
  file_size = pos 0;
  num_blocks = pos 0;
  inumber = pos 0;
  parent_inumber = pos 0;
  parent_dir = [];
  mode = pos 0;
  uid = pos 0;
  block = λ _. 0;
  time = pos 0;
  dir_contents = λ _. none;
}
