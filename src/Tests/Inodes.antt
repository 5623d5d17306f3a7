-- ===== src/Tests/Inodes.antt =====
-- Examples of searches, new files and removals.
use simpel_dateisystem.Base.{ℕ, to_short, ◌<◌, ◌≤◌, ◌≡◌, refl, arith, true, some}
use simpel_dateisystem.Base.Outcome.{ok, Ensures}
use simpel_dateisystem.Base.CString.{codes}
use simpel_dateisystem.Block.{s_block_write_padded, block_write_padded}
use simpel_dateisystem.Directory.{
  set_entry, free_entry, add_to_direntry, get_parent_fcb, scan_entries, last_entry_in_direntry,
  indexed_remove_from_direntry, remove_round, remove_loop, remove_from_direntry,
}
use simpel_dateisystem.Path.{relative_name, get_relative_parent_name, parent_of, parent_in}
use simpel_dateisystem.Store.{Store}
use simpel_dateisystem.Inodes.{
  is_file_at, find_from, find_file_or_dir, flush_from, flush_first_from, flush_all_inodes_to_disk,
  find_parent, modify_fcb, fill_names, fill_inode, commit_inode, create_in, create_at, create_from,
  create_inode, release_inode, remove_at, remove_found, remove_inode,
}
use simpel_dateisystem.Inodes.Find.{
  Bears, IsFirst, find_file_or_dir-IsFirst, find_file_or_dir-names,
}
use simpel_dateisystem.Inodes.Create.{IsCreated, create_inode-IsCreated}
use simpel_dateisystem.Inodes.Created.{create-find}
use simpel_dateisystem.Inodes.Remove.{IsRemoved, remove_inode-IsRemoved}
use simpel_dateisystem.Tests.Data.{
  small, small-IsSafe, calm, calm-HasMemory, store_of, ne-root, new_file-Fits,
}

find_file_or_dir-IsFirst_example :
    Ensures (IsFirst small (codes "/a/b") 0 5) (find_file_or_dir calm small (codes "/a/b"))
find_file_or_dir-IsFirst_example =
    find_file_or_dir-IsFirst calm small (codes "/a/b") calm-HasMemory (omega arith)
      (ne-root (codes "/a/b") (omega arith))

-- "/x/a/b" leads to the file "/a/b", though there is no directory "/x".
find_file_or_dir-names_example :
    find_file_or_dir calm small (codes "/a/b") ≡ find_file_or_dir calm small (codes "/x/a/b")
unfolding relative_name
find_file_or_dir-names_example =
    find_file_or_dir-names calm small (codes "/a/b") (codes "/x/a/b") calm-HasMemory
      (ne-root (codes "/a/b") (omega arith)) (ne-root (codes "/x/a/b") (omega arith)) refl refl

create_inode-IsCreated_example :
    Ensures
      (IsCreated calm small (codes "/a/c") 16384)
      (create_inode calm small (codes "/a/c") 16384)
create_inode-IsCreated_example =
    create_inode-IsCreated calm small (codes "/a/c") 16384 (omega arith) new_file-Fits

abbrev pub made : Store
made = store_of (create_inode calm small (codes "/a/c") 16384)

pub made_at_3 : create_inode calm small (codes "/a/c") 16384 ≡ ok (some 3, made)
unfolding create_inode create_from create_at create_in find_parent fill_inode fill_names modify_fcb
    commit_inode add_to_direntry free_entry set_entry to_short find_file_or_dir find_from is_file_at
    relative_name get_relative_parent_name parent_of parent_in flush_all_inodes_to_disk
    flush_first_from flush_from s_block_write_padded block_write_padded
made_at_3 = refl

remove_inode-IsRemoved_example :
    Ensures (IsRemoved calm small (codes "/a/b")) (remove_inode calm small (codes "/a/b"))
remove_inode-IsRemoved_example =
    remove_inode-IsRemoved calm small (codes "/a/b") small-IsSafe
      (ne-root (codes "/a/b") (omega arith))

abbrev pub removed : Store
removed = store_of (remove_inode calm small (codes "/a/b"))

pub removed_b : remove_inode calm small (codes "/a/b") ≡ ok (true, removed)
unfolding remove_inode remove_found get_parent_fcb remove_at release_inode remove_from_direntry
    remove_loop remove_round indexed_remove_from_direntry last_entry_in_direntry scan_entries
    set_entry find_file_or_dir find_from is_file_at relative_name get_relative_parent_name parent_of
    parent_in flush_all_inodes_to_disk flush_first_from flush_from s_block_write_padded
    block_write_padded
removed_b = refl

create-find_example :
    (made.s_block.ibmap 3 ≡ 1)
    × ((x : ℕ) × (find_file_or_dir calm made (codes "/a/c") ≡ ok (some x))
        × (x ≤ 3)
        × (((j : ℕ) → j < 3 → ¬ Bears (small.inodes j) (codes "/a/c")) → x ≡ 3)
        × ((j : ℕ) → j < 3 → Bears (small.inodes j) (codes "/a/c") → x ≤ j))
create-find_example =
    create-find calm calm small made (codes "/a/c") 16384 3 (omega arith) new_file-Fits
      calm-HasMemory (ne-root (codes "/a/c") (omega arith)) made_at_3
