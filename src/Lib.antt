-- ===== src/Lib.antt =====
-- SimpelDateisystem: a FUSE file system that keeps a tree of directories and files in memory and
-- writes it to a disk file. FUSE calls a handler of `src/sfs.c`; the handlers call
-- `src/DateiSteuerBlock.c`, which searches and changes the inodes, and that calls `src/block.c`,
-- which reads and writes the disk.
--
-- The modules, from below:
--   Base          the integers, results of C code, and C strings. A C string is the list of its
--                 characters in front of the NUL. Code that reaches undefined behaviour (an index out
--                 of an array, a name that is longer than its buffer, an `int` that overflows) is
--                 `fault`. The one exception is the superblock that the flush hands to pwrite with a
--                 size of 12288 bytes: that it has 11744 only is no fault here.
--   Knoten        `src/knoten.h` and `src/block.h`: the superblock and the inode (fileControlBlock),
--                 with their sizes on x86-64
--   Store         the program's variables (sBlockData, inodes, diskSize, diskfile, errno), the calls of
--                 pwrite made so far, and `Env`, what one call of a handler meets: whether each calloc
--                 and malloc succeeds, getuid, getgid, time, and the results of pwrite
--   Block         the writing half of `src/block.c`
--   Path          getRelativeParentName and the last name of a path
--   Directory     add_to_direntry, remove_from_direntry and the other operations on `dirContents`
--   Inodes        findFileOrDir, flushAllInodesTodisk, create_inode, remove_inode
--   Format        formatDisk
--   Mount         the reading half of `src/block.c`, sfs_init, sfs_destroy
--   Sfs           the handlers of `src/sfs.c`: Sfs itself, Sfs/Getattr, Sfs/Readdir, and their table
--                 `sfs_oper` in Sfs/Requests
--   Main          main, sfs_usage and log_open, up to the call of fuse_main
--   Log           the rest of `src/log.c`: the calls of vfprintf, and showInodeNames
--   Links         which inode is entered in which directory, and what keeps that consistent
--   Table         an abstract file system for comparison: a table with a name, a directory, a number
--                 and a mark for each inode, and what each request answers and makes of it
-- The functions have the names of the code in snake_case, so flush_all_inodes_to_disk is
-- flushAllInodesTodisk. Modules below Path, Directory, Inodes, Format, Mount,
-- Sfs, Main, Log, Links and Table have the proofs, and Tests has examples.
--
-- An operation takes the store and gives its result with the new store. A pointer into the array
-- `inodes` is an index or `none` for NULL. A loop is a recursion on the rounds that are left. The loop
-- of formatDisk has fuel: its allocation grows by 61,444 bytes in each round, so two more rounds than
-- that number divides the space are enough, and running out of fuel would be a fault.
--
-- An offset on the disk is computed as an `int`, which wraps modulo 2^32; an `int` that counts bytes
-- or blocks in formatDisk and overflows is a fault.
--
-- What stat, open and pread answer at a start are independent of each other in `Disk` (Mount). A regular
-- file gives no byte at offset 0 only if its size is 0, so sfs_init calls formatDisk with a diskSize of
-- 0, and no inode is counted. The theorems from formatDisk on are about formatDisk with any diskSize
-- for which the inodes fit the array.
--
-- What a disk file gives at the next start is a parameter (`Disk` in Mount). The theorems on an end and
-- the next start assume `ReadsBack` (Mount/Medium): a read of a place gives what the last pwrite there
-- has put. An inode on the disk has its `dirContents` as addresses, so this also takes the array
-- `inodes` to stand at the same address in both runs.
--
-- The invariant `IsSafe` (Inodes/Safe) says that the superblock counts no more than the 100 inodes of
-- the array and has the layout of formatDisk (inodes from block 3 on, four in a block), that inode 0
-- is named "/", that numbers and entries lie in the array, and that the last entry of a directory is
-- taken only when all are.
--
-- The invariant `IsLinked` (Links) says that an entry of a directory is an inode in use, with its own
-- number, that knows the directory as its parent, and that no number is entered twice. It needs paths
-- that name the parent of a new file, which FUSE gives: for a path as "/x//y", the code may take an
-- inode without a name for the parent.
--
-- Not modelled: `src/fuse.h`, a copy of the header of libfuse, whose calls and callbacks are parameters
-- here; `src/config.h` and the build files, which are generated and have no code; the messages that
-- the handlers and the functions below them log, vfprintf itself, and FUSE, which calls one handler at
-- a time here, as it does for a mount by `montiere.sh` with its option -s. sBlock_write_padded is
-- given more bytes than the superblock has, and so pwrite is given what lies behind it; the trace has
-- the superblock with that size. What `filler` returns is ignored by the code. Memory that the code
-- allocates and does not free is no part of the store.
mod Base
pub mod Knoten
pub mod Store
pub mod Block
pub mod Path
pub mod Directory
pub mod Inodes
pub mod Format
pub mod Mount
pub mod Sfs
pub mod Main
pub mod Log
pub mod Links
pub mod Table
mod Tests
