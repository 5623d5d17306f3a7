-- ===== src/Tests/Handlers.antt =====
-- Examples of the handlers and of a run.
use simpel_dateisystem.Base.{
  ℕ, zero, suc, ℤ, pos, negsuc, ◌<◌, ◌≡◌, refl, ◌≢◌, ◌⊎◌, ap, arith, true, none, some, ◌∷◌, is_some,
  to_u32, to_short,
}
use simpel_dateisystem.Base.Outcome.{Outcome, ok, fault, Ensures, ◌>>=◌}
use simpel_dateisystem.Base.CString.{codes}
use simpel_dateisystem.Store.{Store, start_store}
use simpel_dateisystem.Path.{
  root_name, relative_name, get_relative_parent_name, parent_of, parent_in,
}
use simpel_dateisystem.Directory.Effects.{put, without_entry, indexed_remove_lem}
use simpel_dateisystem.Inodes.{find_file_or_dir, find_from, is_file_at}
use simpel_dateisystem.Inodes.Find.{Bears}
use simpel_dateisystem.Inodes.Safe.{IsSafe}
use simpel_dateisystem.Inodes.Create.{Fits}
use simpel_dateisystem.Format.{format_disk}
use simpel_dateisystem.Format.Fresh.{IsBlank, IsFresh, format_disk-IsFresh}
use simpel_dateisystem.Sfs.{
  s_ifdir, s_ifreg, remove_result, sfs_create, sfs_mkdir, sfs_unlink, sfs_open,
}
use simpel_dateisystem.Sfs.Getattr.{Stat, is_special, sfs_getattr}
use simpel_dateisystem.Sfs.Readdir.{sfs_readdir}
use simpel_dateisystem.Sfs.Requests.{mkdir, unlink, Reply, handle}
use simpel_dateisystem.Sfs.Lookup.{Answers, lookup-Answers, unlink-open}
use simpel_dateisystem.Sfs.Create.{
  CreateAnswer, sfs_create-CreateAnswer, MkdirAnswer, sfs_mkdir-MkdirAnswer,
}
use simpel_dateisystem.Sfs.Attributes.{create-getattr}
use simpel_dateisystem.Sfs.Listing.{prefix_names, sfs_readdir_lem, remove-sfs_readdir}
use simpel_dateisystem.Sfs.Safety.{handle-IsSafe, Reach, here, next, run-IsSafe}
use simpel_dateisystem.Tests.Data.{
  calm, calm-HasMemory, small, small-IsSafe, tree, one_entry, store_of, store_of-Ensures, ne-root,
  Fits-of, new_file-Fits,
}
use simpel_dateisystem.Tests.Inodes.{made, made_at_3, removed, removed_b}

abbrev pub blank : Store
blank = record start_store { disk_size = pos 2000000 }

blank-IsBlank : IsBlank blank 2000000
blank-IsBlank = record { s_block = refl; inodes = refl; disk_size = refl }

format_disk-IsFresh_example :
    Ensures (λ r. (r.0 ≡ pos 1) × IsFresh 2000000 r.1) (format_disk calm blank)
format_disk-IsFresh_example = format_disk-IsFresh calm blank 2000000 blank-IsBlank (omega arith)

abbrev pub fresh : Store
fresh = store_of (format_disk calm blank)

pub fresh-IsFresh : IsFresh 2000000 fresh
fresh-IsFresh =
    store_of-Ensures (IsFresh 2000000) (format_disk calm blank)
      (second (format_disk calm blank) format_disk-IsFresh_calm)
  where
    second :
        (r : Outcome (ℤ × Store))
        → Ensures (λ q. (q.0 ≡ pos 1) × IsFresh 2000000 q.1) r
        → Ensures (λ q. IsFresh 2000000 q.1) r
    second (ok q) h = h.1
    second fault h = elim h [ ]

    format_disk-IsFresh_calm :
        Ensures (λ r. (r.0 ≡ pos 1) × IsFresh 2000000 r.1) (format_disk calm blank)
    format_disk-IsFresh_calm = format_disk-IsFresh calm blank 2000000 blank-IsBlank (omega arith)

pub top-Fits : Fits (codes "/a")
unfolding relative_name
top-Fits = Fits-of (codes "/a") root_name (omega arith) refl (omega arith)

pub answered :
    (r : Outcome (Reply × Store))
    → Ensures (λ q. IsSafe q.1) r
    → (reply : Reply) × (r ≡ ok (reply, store_of r))
answered (ok (reply, t)) h = (reply, refl)
answered fault h = elim h [ ]

abbrev pub with_a : Store
with_a = store_of (handle calm fresh (mkdir (codes "/a") 493))

pub with_a-Reach : Reach fresh with_a
with_a-Reach =
    let (reply, e) =
      answered (handle calm fresh (mkdir (codes "/a") 493))
        (handle-IsSafe calm fresh fresh-IsFresh.safe (mkdir (codes "/a") 493) top-Fits) in
    next calm (mkdir (codes "/a") 493) reply here top-Fits e

run-IsSafe_example :
    IsSafe with_a × Ensures (λ r. IsSafe r.1) (handle calm with_a (unlink (codes "/a")))
run-IsSafe_example =
    run-IsSafe 2000000 fresh with_a calm (unlink (codes "/a")) fresh-IsFresh with_a-Reach
      (ne-root (codes "/a") (omega arith))

handle-IsSafe_example : Ensures (λ r. IsSafe r.1) (handle calm small (mkdir (codes "/a/c") 493))
handle-IsSafe_example =
    handle-IsSafe calm small small-IsSafe (mkdir (codes "/a/c") 493) new_file-Fits

pub unlinked : sfs_unlink calm small (codes "/a/b") ≡ ok (pos 0, removed)
unfolding sfs_unlink
unlinked = ap (λ r. r >>= (λ q. ok (remove_result q))) removed_b

unlink-open_example :
    (sfs_open calm removed (codes "/a/b") ≡ ok (pos 0, removed))
    × Ensures (λ r. r.0 ≡ pos 0) (sfs_unlink calm removed (codes "/a/b"))
unlink-open_example =
    unlink-open calm calm small removed (codes "/a/b") small-IsSafe calm-HasMemory calm-HasMemory
      (ne-root (codes "/a/b") (omega arith)) unlinked

lookup-Answers_example :
    ((x : ℕ)
      → x < 5
      → Bears (tree x) (codes "/a/b")
      → Answers calm small (codes "/a/b") (ok (pos 0, small)))
    × (((x : ℕ) → x < 5 → ¬ Bears (tree x) (codes "/a/b"))
        → Answers calm small (codes "/a/b") (ok (negsuc 1, record small { errno = 2 })))
lookup-Answers_example =
    lookup-Answers calm small (codes "/a/b") calm-HasMemory (omega arith)
      (ne-root (codes "/a/b") (omega arith))

sfs_create-CreateAnswer_example :
    Ensures
      (CreateAnswer calm small (codes "/a/c") 33188)
      (sfs_create calm small (codes "/a/c") 33188)
sfs_create-CreateAnswer_example =
    sfs_create-CreateAnswer calm small (codes "/a/c") 33188 small-IsSafe new_file-Fits

sfs_mkdir-MkdirAnswer_example :
    Ensures (MkdirAnswer calm small (codes "/a/c") 493) (sfs_mkdir calm small (codes "/a/c") 493)
sfs_mkdir-MkdirAnswer_example =
    sfs_mkdir-MkdirAnswer calm small (codes "/a/c") 493 small-IsSafe new_file-Fits

abbrev pub dirty : Stat
dirty = record {
  st_dev = 9;
  st_ino = 9;
  st_mode = 9;
  st_nlink = 9;
  st_uid = 9;
  st_gid = 9;
  st_rdev = 9;
  st_size = pos 9;
  st_atime = pos 9;
  st_mtime = pos 9;
  st_ctime = pos 9;
  st_blksize = 9;
  st_blocks = 9;
}

no_c : (j : ℕ) → j < 3 → ¬ Bears (tree j) (codes "/a/c")
unfolding relative_name
no_c zero h b = ground (arith, b)
no_c (suc zero) h b = ground (arith, b)
no_c (suc (suc zero)) h b = ground (arith, b)
no_c (suc (suc (suc j))) h b = absurd (omega arith)

create-getattr_example :
    (st : Stat) × (sfs_getattr calm made (codes "/a/c") (some dirty) ≡ ok (pos 0, some st, made))
    × (st.st_uid ≡ to_u32 (to_short 1000))
    × (st.st_mtime ≡ pos 77)
    × ((to_short 16384 ≡ pos 493) ⊎ (to_short 16384 ≡ pos 16384) → st.st_mode ≡ s_ifdir)
    × (to_short 16384 ≡ negsuc 32347 → st.st_mode ≡ s_ifreg)
    × (to_short 16384 ≢ pos 493
        → to_short 16384 ≢ pos 16384
        → to_short 16384 ≢ negsuc 32347
        → st.st_mode ≡ 9)
unfolding is_special
create-getattr_example =
    create-getattr calm calm small made (codes "/a/c") 16384 3 dirty (omega arith) new_file-Fits
      calm-HasMemory (ne-root (codes "/a/c") (omega arith)) (omega arith) refl no_c made_at_3

found_a : find_file_or_dir calm small (codes "/a") ≡ ok (some 1)
unfolding find_file_or_dir find_from is_file_at relative_name get_relative_parent_name parent_of
    parent_in
found_a = refl

sfs_readdir_lem_example :
    ((n : ℕ)
      → n < 30
      → one_entry 2 n ≡ none
      → ((j : ℕ) → j < n → is_some (one_entry 2 j) ≡ true)
      → sfs_readdir calm small (codes "/a")
        ≡ ok (pos 0, codes "." ∷ codes ".." ∷ prefix_names small (one_entry 2) n 0))
    × (((j : ℕ) → j < 30 → is_some (one_entry 2 j) ≡ true)
        → sfs_readdir calm small (codes "/a") ≡ fault)
sfs_readdir_lem_example =
    sfs_readdir_lem calm small (codes "/a") 1 small-IsSafe (omega arith) found_a

abbrev emptied : Store
emptied = put small 1 (without_entry (tree 1) 0)

found_emptied : find_file_or_dir calm emptied (codes "/a") ≡ ok (some 1)
unfolding without_entry find_file_or_dir find_from is_file_at relative_name get_relative_parent_name
    parent_of parent_in
found_emptied = refl

remove-sfs_readdir_example :
    sfs_readdir calm emptied (codes "/a")
    ≡ ok (pos 0, codes "." ∷ codes ".." ∷ prefix_names small (one_entry 2) 0 0)
remove-sfs_readdir_example =
    remove-sfs_readdir calm small emptied (codes "/a") 1 0 small-IsSafe (omega arith) (omega arith)
      refl (λ j h. absurd (omega arith))
      (indexed_remove_lem small 1 0 (omega arith) (omega arith)
        (small-IsSafe.inode 1 (omega arith)).fills)
      found_emptied
