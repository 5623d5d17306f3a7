-- ===== src/Tests/Restarts.antt =====
-- Examples of an end of the program and the next start.
use simpel_dateisystem.Base.{
  pos, negsuc, ◌≤◌, ◌<◌, ◌≡◌, refl, arith, none, some, [], to_short, to_int, to_u32,
}
use simpel_dateisystem.Base.Outcome.{Outcome, ok, fault, Ensures}
use simpel_dateisystem.Base.CString.{codes}
use simpel_dateisystem.Store.{Store, start_store}
use simpel_dateisystem.Block.{s_block_write_padded, block_write_padded}
use simpel_dateisystem.Path.{relative_name, get_relative_parent_name, parent_of, parent_in}
use simpel_dateisystem.Directory.{
  set_entry, free_entry, add_to_direntry, clear_entries, init_dir_contents,
}
use simpel_dateisystem.Inodes.{
  is_file_at, find_from, find_file_or_dir, flush_from, flush_first_from, flush_all_inodes_to_disk,
  find_parent, modify_fcb, fill_names, fill_inode, commit_inode, create_in, create_at, create_from,
  create_inode,
}
use simpel_dateisystem.Format.{allocate_inodes, root_inode, set_up_root, format_disk}
use simpel_dateisystem.Mount.{Disk, sfs_init, sfs_destroy}
use simpel_dateisystem.Mount.Load.{IsRestored}
use simpel_dateisystem.Mount.Bounds.{HasSuperblock, sfs_init-bounds}
use simpel_dateisystem.Mount.Sound.{IsMounted}
use simpel_dateisystem.Mount.Final.{EndsIn}
use simpel_dateisystem.Mount.Again.{sfs_destroy-sfs_init}
use simpel_dateisystem.Sfs.{sfs_mkdir}
use simpel_dateisystem.Sfs.Requests.{mkdir, Reply, handle}
use simpel_dateisystem.Table.{view}
use simpel_dateisystem.Table.Rows.{IsUnused}
use simpel_dateisystem.Table.Lives.{IsFree, zero_fcb-IsFree}
use simpel_dateisystem.Sfs.Restart.{FoundAt, restart-find, restart-IsMounted}
use simpel_dateisystem.Links.Lives.{IsBare, zero_fcb-IsBare}
use simpel_dateisystem.Tests.Data.{calm, calm-HasMemory, small, small-IsSafe, tree, ne-root}
use simpel_dateisystem.Tests.Media.{kept, kept-ReadsBack}
use simpel_dateisystem.Tests.Handlers.{fresh, fresh-IsFresh, with_a, with_a-Reach}

abbrev pub ended : Outcome Store → Store
ended (ok s) = s
ended fault = start_store

abbrev small_end : Store
small_end = ended (sfs_destroy calm small)

small_ends : sfs_destroy calm small ≡ ok small_end
unfolding sfs_destroy flush_all_inodes_to_disk flush_from s_block_write_padded block_write_padded
small_ends = refl

sfs_destroy-sfs_init_example :
    Ensures (IsRestored small.s_block tree 4) (sfs_init (kept small_end.writes) calm start_store)
sfs_destroy-sfs_init_example =
    sfs_destroy-sfs_init calm calm small small_end (kept small_end.writes) 5 5 small-IsSafe refl
      (omega arith) (λ before call. refl) small_ends refl (kept-ReadsBack small_end.writes)

abbrev pub with_a_end : Store
with_a_end = ended (sfs_destroy calm with_a)

abbrev pub plain_reply : Reply
plain_reply = record { result = pos 0; stat = none; names = [] }

-- What is used of the store after "/a" was made, and of the disk after the end.
pub record Facts : Type 0 where
  pub fresh_count : fresh.s_block.num_inodes ≡ pos 8
  pub count : with_a.s_block.num_inodes ≡ pos 8
  pub found : find_file_or_dir calm with_a (codes "/a") ≡ ok (some 1)
  pub ends : sfs_destroy calm with_a ≡ ok with_a_end
  pub last : EndsIn IsFree (kept with_a_end.writes) 7
  pub bare : EndsIn IsBare (kept with_a_end.writes) 7
  pub made : handle calm fresh (mkdir (codes "/a") 493) ≡ ok (plain_reply, with_a)
  pub unused : IsUnused (view with_a) 7

pub with_a_facts : Facts
unfolding handle sfs_mkdir create_inode create_from create_at create_in find_parent fill_inode
    fill_names modify_fcb commit_inode add_to_direntry free_entry set_entry to_short to_int to_u32
    find_file_or_dir find_from is_file_at relative_name get_relative_parent_name parent_of parent_in
    flush_all_inodes_to_disk flush_first_from flush_from s_block_write_padded block_write_padded
    format_disk set_up_root root_inode init_dir_contents clear_entries allocate_inodes sfs_destroy
with_a_facts = record {
  fresh_count = refl;
  count = refl;
  found = refl;
  ends = refl;
  last = λ read. zero_fcb-IsFree;
  bare = λ read. zero_fcb-IsBare;
  made = refl;
  unused = record { name = refl; dir = refl; number = refl };
}

restart-find_example :
    Ensures (FoundAt calm (codes "/a") 1) (sfs_init (kept with_a_end.writes) calm start_store)
restart-find_example =
    restart-find 2000000 fresh with_a with_a_end calm calm calm calm (kept with_a_end.writes) 5 8 1
      (codes "/a") fresh-IsFresh with_a-Reach with_a_facts.count (omega arith) calm-HasMemory
      calm-HasMemory (ne-root (codes "/a") (omega arith)) with_a_facts.found (omega arith)
      (λ before call. refl) with_a_facts.ends refl (kept-ReadsBack with_a_end.writes)

-- A disk file whose reads of inodes all fail.
abbrev failing : Disk
failing = record (kept small_end.writes) {
  pread_superblock = (pos 11744, small.s_block);
  pread_inode = λ _ f. (negsuc 0, f);
}

sfs_init-bounds_example :
    (5 ≤ 96 → Ensures (HasSuperblock small.s_block) (sfs_init failing calm start_store))
    × (100 < 5 → sfs_init failing calm start_store ≡ fault)
sfs_init-bounds_example = sfs_init-bounds failing calm small.s_block 5 5 11743 refl refl refl

restart-IsMounted_example : Ensures IsMounted (sfs_init (kept with_a_end.writes) calm start_store)
restart-IsMounted_example =
    restart-IsMounted 2000000 fresh with_a with_a_end calm calm (kept with_a_end.writes) 5 7
      fresh-IsFresh with_a-Reach with_a_facts.count (omega arith) (omega arith)
      (λ before call. refl) with_a_facts.ends refl (kept-ReadsBack with_a_end.writes)
      (λ read. (with_a_facts.last read).sane)
