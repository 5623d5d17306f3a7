-- ===== src/Tests/Links.antt =====
-- Examples of the links between inodes.
use simpel_dateisystem.Base.{
  ℕ, zero, suc, ◌<◌, ◌≡◌, refl, sym, ◌∙◌, inl, inr, arith, true, none, some, to_int, to_short,
  to_u32, List,
}
use simpel_dateisystem.Base.Outcome.{ok, Ensures}
use simpel_dateisystem.Base.CString.{codes}
use simpel_dateisystem.Knoten.{max_inodes}
use simpel_dateisystem.Path.{
  root_name, relative_name, get_relative_parent_name, parent_of, parent_in,
}
use simpel_dateisystem.Block.{s_block_write_padded, block_write_padded}
use simpel_dateisystem.Directory.{
  add_to_direntry, free_entry, init_dir_contents, clear_entries, set_entry, get_parent_fcb,
  scan_entries, last_entry_in_direntry, indexed_remove_from_direntry, remove_round, remove_loop,
  remove_from_direntry,
}
use simpel_dateisystem.Inodes.{
  is_file_at, find_from, find_file_or_dir, flush_from, flush_first_from, flush_all_inodes_to_disk,
  create_inode, create_from, create_at, create_in, commit_inode, find_parent, fill_inode,
  fill_names, modify_fcb, release_inode, remove_at, remove_found, remove_inode,
}
use simpel_dateisystem.Format.{format_disk, allocate_inodes, set_up_root, root_inode}
use simpel_dateisystem.Sfs.{sfs_mkdir}
use simpel_dateisystem.Sfs.Requests.{mkdir, handle}
use simpel_dateisystem.Sfs.Safety.{here, next, handle-IsSafe}
use simpel_dateisystem.Links.{Entered, IsEntry, IsLinked, IsNumbered}
use simpel_dateisystem.Links.Entries.{IsOnce}
use simpel_dateisystem.Links.Create.{IsJoined, create-IsJoined}
use simpel_dateisystem.Links.Remove.{IsCut, remove-IsCut}
use simpel_dateisystem.Links.Runs.{run-IsLinked}
use simpel_dateisystem.Links.Listed.{IsListing, run-sfs_readdir}
use simpel_dateisystem.Links.Unlink.{unlink-sfs_readdir}
use simpel_dateisystem.Inodes.Stale.{remove-find}
use simpel_dateisystem.Inodes.Find.{find_file_or_dir-root}
use mathlib.Core.List.{Memᴰ}
use simpel_dateisystem.Links.Itself.{IsOwnParent, remove-create_in_itself}
use simpel_dateisystem.Tests.Data.{
  calm, all_granted-IsGranted, small, small-IsSafe, tree, one_entry, ne-root, new_file-Fits,
}
use simpel_dateisystem.Tests.Inodes.{made, made_at_3, removed, removed_b}
use simpel_dateisystem.Tests.Handlers.{fresh, fresh-IsFresh, top-Fits, with_a, answered, unlinked}
use simpel_dateisystem.Tests.Tables.{parent_of_c, without_a}

one_entry-only : (k j e : ℕ) → one_entry k j ≡ some e → (j ≡ 0) × (e ≡ k)
one_entry-only k zero e at = ground (arith, at)
one_entry-only k (suc j) e at = absurd (ground (arith, at))

one_entry-IsOnce : (k : ℕ) → IsOnce (one_entry k)
one_entry-IsOnce k i j e hi hj at_i at_j =
    (one_entry-only k i e at_i).0 ∙ sym (one_entry-only k j e at_j).0

tree-IsEntry : (d e : ℕ) → Entered small d e → IsEntry small d e
tree-IsEntry zero e (j, hj, at) =
    rw ((one_entry-only 1 j e at).1)
      (record { ne_root = omega arith; number = refl; up = refl; used = refl })
tree-IsEntry (suc zero) e (j, hj, at) =
    rw ((one_entry-only 2 j e at).1)
      (record { ne_root = omega arith; number = refl; up = refl; used = refl })
tree-IsEntry (suc (suc zero)) e (j, hj, at) = absurd (ground (arith, at))
tree-IsEntry (suc (suc (suc d))) e (j, hj, at) = absurd (ground (arith, at))

tree-IsOnce : (d : ℕ) → IsOnce (tree d).dir_contents
tree-IsOnce zero = one_entry-IsOnce 1
tree-IsOnce (suc zero) = one_entry-IsOnce 2
tree-IsOnce (suc (suc zero)) = λ i j e hi hj at_i at_j. absurd (ground (arith, at_i))
tree-IsOnce (suc (suc (suc d))) = λ i j e hi hj at_i at_j. absurd (ground (arith, at_i))

tree-IsNumbered : (k : ℕ) → IsNumbered (tree k) k
tree-IsNumbered zero = inl refl
tree-IsNumbered (suc zero) = inl refl
tree-IsNumbered (suc (suc zero)) = inl refl
tree-IsNumbered (suc (suc (suc k))) = inr (refl, refl)

small-IsLinked : IsLinked small
small-IsLinked = record {
  entry = λ d e hd m. tree-IsEntry d e m;
  once = λ d hd. tree-IsOnce d;
  numbered = λ k hk. tree-IsNumbered k;
}

found_b : find_file_or_dir calm small (codes "/a/b") ≡ ok (some 2)
unfolding find_file_or_dir find_from is_file_at relative_name get_relative_parent_name parent_of
    parent_in
found_b = refl

found_a : find_file_or_dir calm small (codes "/a") ≡ ok (some 1)
unfolding find_file_or_dir find_from is_file_at relative_name get_relative_parent_name parent_of
    parent_in
found_a = refl

remove-IsCut_example : IsCut small removed 2
remove-IsCut_example =
    remove-IsCut calm small removed (codes "/a/b") small-IsSafe small-IsLinked 2
      (ne-root (codes "/a/b") (omega arith)) found_b removed_b

create-IsJoined_example : IsJoined small made 1 3
create-IsJoined_example =
    create-IsJoined calm small made (codes "/a/c") 16384 3 small-IsSafe small-IsLinked
      (λ e. absurd (ground (arith, e))) (codes "a") 1 new_file-Fits refl parent_of_c made_at_3

run-IsLinked_example :
    IsLinked with_a
    × ((d d' e : ℕ)
        → d < max_inodes
        → d' < max_inodes
        → Entered with_a d e
        → Entered with_a d' e
        → d ≡ d')
run-IsLinked_example =
    let (reply, e) =
      answered (handle calm fresh (mkdir (codes "/a") 493))
        (handle-IsSafe calm fresh fresh-IsFresh.safe (mkdir (codes "/a") 493) top-Fits) in
    run-IsLinked 2000000 fresh with_a fresh-IsFresh
      (next calm (mkdir (codes "/a") 493) reply here top-Fits e)
      ((λ q. absurd (ground (arith, q))), tt)

removed_a : remove_inode calm small (codes "/a") ≡ ok (true, without_a)
unfolding remove_inode remove_found get_parent_fcb remove_at release_inode remove_from_direntry
    remove_loop remove_round indexed_remove_from_direntry last_entry_in_direntry scan_entries
    set_entry find_file_or_dir find_from is_file_at relative_name get_relative_parent_name parent_of
    parent_in flush_all_inodes_to_disk flush_from s_block_write_padded block_write_padded to_int
removed_a = refl

-- In the tree without "/a", the new file "/a/c" takes the inode of "/a" and becomes its own parent.
remove-create_in_itself_example :
    Ensures
      (λ r. (r.0 ≡ some 1) × IsOwnParent without_a (codes "/a/c") 1 r.1)
      (create_inode calm without_a (codes "/a/c") 33188)
remove-create_in_itself_example =
    remove-create_in_itself calm calm small without_a (codes "/a") (codes "/a/c") (codes "a") 33188
      1 small-IsSafe small-IsLinked (ne-root (codes "/a") (omega arith)) found_a
      (λ e. absurd (ground (arith, e))) (λ j lo hi. absurd (omega arith)) removed_a new_file-Fits
      all_granted-IsGranted refl parent_of_c

with_a-last : (with_a.inodes 0).dir_contents 29 ≡ none
unfolding handle sfs_mkdir create_inode create_from create_at create_in commit_inode find_parent
    fill_inode fill_names modify_fcb add_to_direntry free_entry set_entry relative_name
    get_relative_parent_name parent_of parent_in flush_all_inodes_to_disk flush_first_from
    flush_from block_write_padded s_block_write_padded format_disk allocate_inodes set_up_root
    root_inode init_dir_contents clear_entries to_short to_int to_u32 find_file_or_dir
with_a-last = refl

run-sfs_readdir_example :
    (es : List ℕ) × IsListing calm with_a root_name 0 es
    × ((e : ℕ) → Memᴰ e es → IsEntry with_a 0 e)
run-sfs_readdir_example =
    let (reply, e) =
      answered (handle calm fresh (mkdir (codes "/a") 493))
        (handle-IsSafe calm fresh fresh-IsFresh.safe (mkdir (codes "/a") 493) top-Fits) in
    run-sfs_readdir 2000000 fresh with_a calm root_name 0 fresh-IsFresh
      (next calm (mkdir (codes "/a") 493) reply here top-Fits e)
      ((λ q. absurd (ground (arith, q))), tt) (find_file_or_dir-root calm with_a) with_a-last

removed-last : (removed.inodes 1).dir_contents 29 ≡ none
unfolding remove_inode remove_found get_parent_fcb remove_at release_inode remove_from_direntry
    remove_loop remove_round indexed_remove_from_direntry last_entry_in_direntry scan_entries
    set_entry find_file_or_dir find_from is_file_at relative_name get_relative_parent_name parent_of
    parent_in flush_all_inodes_to_disk flush_from s_block_write_padded block_write_padded to_int
removed-last = refl

unlink-sfs_readdir_example :
    (es : List ℕ) × IsListing calm removed (codes "/a") 1 es
    × (¬ Memᴰ 2 es)
    × ((e : ℕ) → Memᴰ e es → Entered small 1 e)
unlink-sfs_readdir_example =
    let ne = ne-root (codes "/a/b") (omega arith) in
    unlink-sfs_readdir calm calm small removed (codes "/a/b") (codes "/a") 2 1 small-IsSafe
      small-IsLinked ne found_b unlinked
      (remove-find calm calm small removed (codes "/a/b") (codes "/a") true small-IsSafe ne
          removed_b
        ∙ found_a)
      removed-last
