-- ===== src/Tests/Disks.antt =====
-- Examples of disks: the calls of pwrite, disks without a file system, and one with the small tree.
use simpel_dateisystem.Base.{
  ℕ, ℤ, pos, negsuc, ◌+◌, ◌-◌, ◌*◌, ◌/◌, ◌%◌, ◌<◌, ◌≤◌, ◌≡◌, refl, ap, arith, true, false,
}
use simpel_dateisystem.Base.Outcome.{ok, Ensures}
use simpel_dateisystem.Knoten.{FileControlBlock, zero_superblock}
use simpel_dateisystem.Store.{Env, start_store, superblock}
use simpel_dateisystem.Inodes.{flush_all_inodes_to_disk}
use simpel_dateisystem.Inodes.Flush.{with_writes}
use simpel_dateisystem.Inodes.Trace.{slot, twice, inode_calls, flush_all-calls}
use simpel_dateisystem.Mount.{Disk, sfs_init}
use simpel_dateisystem.Mount.New.{empty, zeros, HasNoRoom, sfs_init-HasNoRoom}
use simpel_dateisystem.Mount.Load.{Holds, IsRestored, sfs_init-IsRestored}
use simpel_dateisystem.Tests.Data.{calm, small, tree}

abbrev steady : Env
steady = record calm { pwrite = λ _ _. pos 0 }

flush_all-calls_example :
    (flush_all_inodes_to_disk steady small false
      ≡ ok (
        true,
        with_writes small
            (inode_calls tree 4 0 (twice (superblock small.s_block) 12288 0 small.writes)),
      ))
    × ((i j : ℕ) → i < j → (12288 ≤ slot i) × (slot i + 840 ≤ slot j))
flush_all-calls_example =
    flush_all-calls steady small (λ before call n e. refl) refl refl (omega arith)

abbrev new_disk : Disk
new_disk = record {
  open_result = pos 5;
  st_size = pos 0;
  pread_superblock = (pos 0, zero_superblock);
  pread_inode = λ _ f. (pos 0, f);
  pread_block = λ _ b. (pos 0, b);
}

abbrev zero_disk : Disk
zero_disk = record new_disk {
  st_size = pos 2000000;
  pread_superblock = (pos 11744, zero_superblock);
}

new_disk-HasNoRoom : Ensures HasNoRoom (sfs_init new_disk calm start_store)
new_disk-HasNoRoom = sfs_init-HasNoRoom new_disk calm 5 refl (empty refl refl)

sfs_init-HasNoRoom_example : Ensures HasNoRoom (sfs_init zero_disk calm start_store)
sfs_init-HasNoRoom_example = sfs_init-HasNoRoom zero_disk calm 5 refl (zeros 11743 refl)

abbrev at_offset : ℤ → FileControlBlock → ℤ × FileControlBlock
at_offset (pos o) f = (pos 840, tree ((o / 4096 - 3) * 4 + o % 4096 / 840))
at_offset (negsuc o) f = (negsuc 0, f)

abbrev old_disk : Disk
old_disk = record new_disk {
  st_size = pos 2000000;
  pread_superblock = (pos 11744, small.s_block);
  pread_inode = at_offset;
}

old_disk-Holds : Holds old_disk tree 5
old_disk-Holds i f h =
    let back : (slot i / 4096 - 3) * 4 + slot i % 4096 / 840 ≡ i = omega arith in
    ap (λ k. (pos 840, tree k)) back

sfs_init-IsRestored_example :
    Ensures (IsRestored small.s_block tree 5) (sfs_init old_disk calm start_store)
sfs_init-IsRestored_example =
    sfs_init-IsRestored old_disk calm small.s_block tree 5 5 11743 refl refl refl refl refl
      (omega arith) old_disk-Holds
