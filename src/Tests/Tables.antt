-- ===== src/Tests/Tables.antt =====
-- Examples of requests against the table, and of an inode that is used again.
use simpel_dateisystem.Base.{
  ◌++◌, ◌≢◌, ℕ, zero, suc, pos, ◌<◌, ◌≡◌, refl, ap, arith, true, some, [], ◌∷◌, is_some, to_short,
  to_int, ◌∙◌,
}
use simpel_dateisystem.Base.Outcome.{ok, Ensures, ◌>>=◌}
use simpel_dateisystem.Base.CString.{codes}
use simpel_dateisystem.Store.{Store}
use simpel_dateisystem.Path.{
  root_name, relative_name, get_relative_parent_name, parent_of, parent_in,
}
use simpel_dateisystem.Block.{s_block_write_padded, block_write_padded}
use simpel_dateisystem.Directory.{
  set_entry, free_entry, add_to_direntry, get_parent_fcb, scan_entries, last_entry_in_direntry,
  indexed_remove_from_direntry, remove_round, remove_loop, remove_from_direntry,
}
use simpel_dateisystem.Inodes.{
  is_file_at, find_from, find_file_or_dir, flush_from, flush_first_from, flush_all_inodes_to_disk,
  find_parent, modify_fcb, fill_names, fill_inode, commit_inode, create_in, create_at, create_from,
  create_inode, release_inode, remove_at, remove_found, remove_inode,
}
use simpel_dateisystem.Inodes.Find.{Bears}
use simpel_dateisystem.Inodes.Safe.{IsSafe}
use simpel_dateisystem.Inodes.Remove.{remove_inode-IsSafe}
use simpel_dateisystem.Inodes.Create.{Fits}
use simpel_dateisystem.Sfs.Requests.{unlink, open_file, mkdir, plain, handle}
use simpel_dateisystem.Sfs.Lookup.{unlink-open}
use simpel_dateisystem.Sfs.Readdir.{sfs_readdir}
use simpel_dateisystem.Sfs.Listing.{prefix_names}
use simpel_dateisystem.Sfs.Reuse.{create-sfs_readdir}
use simpel_dateisystem.Table.{view, run}
use simpel_dateisystem.Table.Refine.{seen_reply, handle-run}
use simpel_dateisystem.Table.Runs.{Serves, idle, serve}
use simpel_dateisystem.Table.Names.{Serves-find}
use simpel_dateisystem.Sfs.Listed.{EndsAt, create-listed}
use simpel_dateisystem.Tests.Data.{
  calm, calm-HasMemory, small, small-IsSafe, one_entry, store_of, store_of-Ensures, ne-root,
  Fits-of, new_file-Fits,
}
use simpel_dateisystem.Tests.Inodes.{removed, made, made_at_3}
use simpel_dateisystem.Tests.Handlers.{unlinked}

handle-run_example :
    Ensures
      (λ r. seen_reply r ≡ run (pos 0) (view small) (mkdir (codes "/a/c") 493))
      (handle calm small (mkdir (codes "/a/c") 493))
handle-run_example =
    handle-run calm small calm-HasMemory small-IsSafe (mkdir (codes "/a/c") 493) new_file-Fits

served :
    Serves small
      (open_file (codes "/a/b") ∷ unlink (codes "/a/b") ∷ [])
      (pos 0 ∷ pos 0 ∷ [])
      removed
unfolding handle
served =
    let ne = ne-root (codes "/a/b") (omega arith) in
    let opened =
      (unlink-open calm calm small removed (codes "/a/b") small-IsSafe calm-HasMemory calm-HasMemory
        ne unlinked).0 in
    serve calm (open_file (codes "/a/b")) _
      (serve calm (unlink (codes "/a/b")) _ idle calm-HasMemory ne (ap (λ r. r >>= plain) unlinked))
      calm-HasMemory tt (ap (λ r. r >>= plain) opened)

Serves-find_example :
    find_file_or_dir calm removed (codes "/a") ≡ find_file_or_dir calm small (codes "/a")
Serves-find_example =
    Serves-find calm calm (codes "/a") small-IsSafe served (refl, (refl, tt)) calm-HasMemory
      calm-HasMemory

-- The tree without "/a", whose inode 1 keeps its entry.
abbrev pub without_a : Store
without_a = store_of (remove_inode calm small (codes "/a"))

without_a-IsSafe : IsSafe without_a
without_a-IsSafe =
    store_of-Ensures IsSafe (remove_inode calm small (codes "/a")) (
      remove_inode-IsSafe calm small (codes "/a") small-IsSafe (ne-root (codes "/a") (omega arith)))

new_top-Fits : Fits (codes "/x")
unfolding relative_name
new_top-Fits = Fits-of (codes "/x") root_name (omega arith) refl (omega arith)

abbrev with_x : Store
with_x = store_of (create_inode calm without_a (codes "/x") 16384)

with_x_at_1 : create_inode calm without_a (codes "/x") 16384 ≡ ok (some 1, with_x)
unfolding remove_inode remove_found get_parent_fcb remove_at release_inode remove_from_direntry
    remove_loop remove_round indexed_remove_from_direntry last_entry_in_direntry scan_entries
    set_entry find_file_or_dir find_from is_file_at relative_name get_relative_parent_name parent_of
    parent_in flush_all_inodes_to_disk flush_first_from flush_from s_block_write_padded
    block_write_padded create_inode create_from create_at create_in find_parent fill_inode
    fill_names modify_fcb commit_inode add_to_direntry free_entry to_short to_int
with_x_at_1 = refl

without_a_entries : (without_a.inodes 1).dir_contents ≡ one_entry 2
unfolding remove_inode remove_found get_parent_fcb remove_at release_inode remove_from_direntry
    remove_loop remove_round indexed_remove_from_direntry last_entry_in_direntry scan_entries
    set_entry find_file_or_dir find_from is_file_at relative_name get_relative_parent_name parent_of
    parent_in flush_all_inodes_to_disk flush_first_from flush_from s_block_write_padded
    block_write_padded to_int
without_a_entries = refl

no_x : (j : ℕ) → j < 1 → ¬ Bears (without_a.inodes j) (codes "/x")
unfolding relative_name remove_inode remove_found get_parent_fcb remove_at release_inode
    remove_from_direntry remove_loop remove_round indexed_remove_from_direntry
    last_entry_in_direntry scan_entries set_entry find_file_or_dir find_from is_file_at
    get_relative_parent_name parent_of parent_in flush_all_inodes_to_disk flush_first_from
    flush_from s_block_write_padded block_write_padded to_int
no_x zero h b = ground (arith, b)
no_x (suc j) h b = absurd (omega arith)

create-sfs_readdir_example :
    sfs_readdir calm with_x (codes "/x")
    ≡ ok (pos 0, codes "." ∷ codes ".." ∷ prefix_names with_x (without_a.inodes 1).dir_contents 1 0)
unfolding find_parent
create-sfs_readdir_example =
    create-sfs_readdir calm calm without_a with_x (codes "/x") root_name 16384 1 0 1
      without_a-IsSafe new_top-Fits calm-HasMemory (ne-root (codes "/x") (omega arith)) refl refl
      (omega arith) no_x (omega arith) (ap (λ (d : ℕ → _). d 1) without_a_entries)
      (λ j h. ap (λ (d : ℕ → _). is_some (d j)) without_a_entries ∙ taken j h) with_x_at_1
  where
    taken : (j : ℕ) → j < 1 → is_some (one_entry 2 j) ≡ true
    taken zero h = refl
    taken (suc j) h = absurd (omega arith)

made_finds_a : find_file_or_dir calm made (codes "/a") ≡ ok (some 1)
unfolding create_inode create_from create_at create_in find_parent fill_inode fill_names modify_fcb
    commit_inode add_to_direntry free_entry set_entry to_short find_file_or_dir find_from is_file_at
    relative_name get_relative_parent_name parent_of parent_in flush_all_inodes_to_disk
    flush_first_from flush_from s_block_write_padded block_write_padded to_int
made_finds_a = refl

pub parent_of_c : find_parent calm small (codes "/a/c") (codes "a") ≡ ok (some 1)
unfolding find_parent find_file_or_dir find_from is_file_at relative_name get_relative_parent_name
    parent_of parent_in
parent_of_c = refl

one_entry-EndsAt : EndsAt (one_entry 2) 1
one_entry-EndsAt = record { taken = λ j h. first j h; free = refl }
  where
    first : (j : ℕ) → j < 1 → is_some (one_entry 2 j) ≡ true
    first zero h = refl
    first (suc j) h = absurd (omega arith)

create-listed_example :
    sfs_readdir calm made (codes "/a")
    ≡ ok (
      pos 0,
      codes "."
          ∷ codes ".."
          ∷ (prefix_names small (one_entry 2) 1 0 ++ (relative_name (codes "/a/c") ∷ [])),
    )
create-listed_example =
    create-listed calm calm small made (codes "/a/c") (codes "a") (codes "/a") 16384 3 1 1
      small-IsSafe new_file-Fits refl parent_of_c (omega arith) (omega arith) (omega arith)
      one_entry-EndsAt refl others made_at_3 made_finds_a
  where
    others : (j : ℕ) → j < 1 → one_entry 2 j ≢ some 3
    others zero h e = absurd (ground (arith, e))
    others (suc j) h e = absurd (omega arith)
