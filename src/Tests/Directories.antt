-- ===== src/Tests/Directories.antt =====
-- Examples of directory entries, of the inode that create_inode fills, and of the layout.
use simpel_dateisystem.Base.{ℕ, ◌+◌, ◌/◌, refl, arith}
use simpel_dateisystem.Base.Outcome.{Ensures}
use simpel_dateisystem.Knoten.{zero_superblock}
use simpel_dateisystem.Format.{allocate_inodes, inode_space}
use simpel_dateisystem.Format.Layout.{IsAllocated, allocate-IsLayout}

allocate-IsLayout_example :
    Ensures
      (λ sb'. (n : ℕ) × IsAllocated 2000000 zero_superblock n sb')
      (allocate_inodes (2000000 / inode_space + 2) 2000000 0 0 zero_superblock)
allocate-IsLayout_example = allocate-IsLayout 2000000 zero_superblock (omega arith) refl refl
