-- ===== src/Directory.antt =====
-- The directory entries of an inode: add_to_direntry, indexed_remove_from_direntry,
-- remove_from_direntry, getParentFcb and initDirContents of src/DateiSteuerBlock.c.
pub mod Entries
pub mod Effects
pub mod Unlink
use simpel_dateisystem.Base.{
  ℕ, zero, suc, ◌+◌, ◌-◌, Bool, true, false, Option, none, some, ltb, ◌==◌, ◌==ℤ◌, if◌then◌else◌,
  is_some, update,
}
use simpel_dateisystem.Base.Outcome.{Outcome, ok, fault, ◌>>=◌}
use simpel_dateisystem.Knoten.{FileControlBlock, Pointer, max_files_in_dir}
use simpel_dateisystem.Store.{Store, fcb_at, set_fcb, inode_ref}

-- A write of `parent->dirContents[i]`, the parent being an inode in range.
unfoldable pub set_entry : Store → ℕ → ℕ → Pointer → Outcome Store
set_entry s p i entry =
    if ltb i max_files_in_dir
    then fcb_at s p
      >>= (λ f. set_fcb s p (record f { dir_contents = update f.dir_contents i entry }))
    else fault

-- A read of `dirContents[i]`
abbrev pub entry_at : (ℕ → Pointer) → ℕ → Outcome Pointer
entry_at dir i = if ltb i max_files_in_dir then ok (dir i) else fault

-- The loop that looks for a free entry, with the rounds left: where it ends, 30 if all are taken.
unfoldable pub free_entry : (ℕ → Pointer) → ℕ → ℕ → ℕ
free_entry dir zero i = i
free_entry dir (suc left) i =
    let rest = free_entry dir left (suc i) in if is_some (dir i) then rest else i

-- `dirContents` is an array, so the test of the code whether it is NULL is false. The test behind
-- the loop is `i > MAX_FILES_IN_DIR`.
unfoldable pub add_to_direntry : Store → Pointer → Pointer → Outcome (Bool × Store)
add_to_direntry s none child = ok (true, s)
add_to_direntry s (some parent) none = ok (true, s)
add_to_direntry s (some parent) (some child) = do
  f ← fcb_at s parent
  let i = free_entry f.dir_contents max_files_in_dir 0
  s' ← (if ltb i max_files_in_dir then set_entry s parent i (some child) else ok s)
  ok (if ltb max_files_in_dir i then (false, s') else (true, s'))

-- The loop of indexed_remove_from_direntry: it advances by two over an entry that is taken, by one
-- over a free one. The fuel is the array's size.
unfoldable pub scan_entries : (ℕ → Pointer) → ℕ → ℕ → ℕ
scan_entries dir zero i = i
scan_entries dir (suc fuel) i =
    let rest = scan_entries dir fuel (if is_some (dir i) then i + 2 else i + 1) in
    if ltb i max_files_in_dir then rest else i

-- The loop ends at 30 or 31, so `lastEntryInDirentry` is never -1 and `i-1` does not wrap.
unfoldable pub last_entry_in_direntry : (ℕ → Pointer) → ℕ
last_entry_in_direntry dir = scan_entries dir max_files_in_dir 0 - 1

unfoldable pub indexed_remove_from_direntry : Store → Pointer → ℕ → Outcome (Bool × Store)
indexed_remove_from_direntry s none index = ok (false, s)
indexed_remove_from_direntry s (some parent) index = do
  f ← fcb_at s parent
  let last = last_entry_in_direntry f.dir_contents
  if last == index then set_entry s parent last none >>= (λ s'. ok (true, s')) else do
    moved ← entry_at f.dir_contents last
    s' ← set_entry s parent index moved
    s'' ← set_entry s' parent last none
    ok (true, s'')

-- A round of remove_from_direntry at entry `i`, with what the rounds behind it do.
unfoldable pub remove_round :
    Store → ℕ → ℕ → ℕ → Outcome (Bool × Store) → Pointer → Outcome (Bool × Store)
remove_round s parent child i rest none = rest
remove_round s parent child i rest (some entry) = do
  e ← fcb_at s entry
  c ← fcb_at s child
  if e.inumber ==ℤ c.inumber then indexed_remove_from_direntry s (some parent) i else rest

-- The loop, with the rounds left. It ends at 30, where the test `i > MAX_FILES_IN_DIR` is false, and
-- then says TRUE.
unfoldable pub remove_loop : Store → ℕ → FileControlBlock → ℕ → ℕ → ℕ → Outcome (Bool × Store)
remove_loop s parent f child zero i = ok (if ltb max_files_in_dir i then (false, s) else (true, s))
remove_loop s parent f child (suc left) i =
    remove_round s parent child i (remove_loop s parent f child left (suc i)) (f.dir_contents i)

unfoldable pub remove_from_direntry : Store → Pointer → Pointer → Outcome (Bool × Store)
remove_from_direntry s none child = ok (false, s)
remove_from_direntry s (some parent) none = ok (false, s)
remove_from_direntry s (some parent) (some child) = do
  f ← fcb_at s parent
  remove_loop s parent f child max_files_in_dir 0

unfoldable pub get_parent_fcb : Store → Pointer → Outcome Pointer
get_parent_fcb s none = ok none
get_parent_fcb s (some child) = do f ← fcb_at s child; p ← inode_ref f.parent_inumber; ok (some p)

-- `while (i < MAX_FILES_IN_DIR) fcb->dirContents[i] = NULL`
unfoldable pub clear_entries : (ℕ → Pointer) → ℕ → ℕ → ℕ → Pointer
clear_entries dir zero i = dir
clear_entries dir (suc left) i = clear_entries (update dir i none) left (suc i)

unfoldable pub init_dir_contents : FileControlBlock → FileControlBlock
init_dir_contents f = record f { dir_contents = clear_entries f.dir_contents max_files_in_dir 0 }
