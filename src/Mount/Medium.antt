-- ===== src/Mount/Medium.antt =====
-- What the program relies on of the disk file: a `pread` of a place gives what the last `pwrite` there
-- has put, as long as no later call of `pwrite` touches the place.
use simpel_dateisystem.Base.{ℕ, pos, ◌+◌, ◌≤◌, ◌≡◌, ◌⊎◌, List, [], ◌∷◌, ◌++◌}
use simpel_dateisystem.Knoten.{FileControlBlock, Superblock, fcb_size, superblock_size}
use simpel_dateisystem.Store.{Pwrite, superblock, inode}
use simpel_dateisystem.Mount.{Disk}

-- The call does not touch the `size` bytes from `offset` on.
pub record Misses (offset size : ℕ) (call : Pwrite) : Type 0 where
  pub from : ℕ
  pub count : ℕ
  pub from_is : call.offset ≡ pos from
  pub count_is : call.size ≡ pos count
  pub apart : (from + count ≤ offset) ⊎ (offset + size ≤ from)

abbrev pub AllMiss : ℕ → ℕ → List Pwrite → Type 0
AllMiss offset size [] = Unit
AllMiss offset size (call ∷ calls) = Misses offset size call × AllMiss offset size calls

-- A disk file after these calls of `pwrite`, the last one first, each of which was taken in full. Of a
-- superblock that was written, a read takes the first bytes.
pub record ReadsBack (disk : Disk) (writes : List Pwrite) : Type 0 where
  pub inode_back :
      (after before : List Pwrite) (f old : FileControlBlock) (offset : ℕ)
      → writes
        ≡ after ++ (record { buffer = inode f; size = pos fcb_size; offset = pos offset } ∷ before)
      → AllMiss offset fcb_size after
      → disk.pread_inode (pos offset) old ≡ (pos fcb_size, f)
  pub superblock_back :
      (after before : List Pwrite) (sb : Superblock) (more : ℕ)
      → writes
        ≡ after
          ++ (record { buffer = superblock sb; size = pos (superblock_size + more); offset = pos 0 }
              ∷ before)
      → AllMiss 0 superblock_size after
      → disk.pread_superblock ≡ (pos superblock_size, sb)
