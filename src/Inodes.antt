-- ===== src/Inodes.antt =====
-- The inodes of src/DateiSteuerBlock.c: getFreeInodeNum, findRootOrDieTrying, findFileOrDir,
-- flushAllInodesTodisk, create_inode and remove_inode.
pub mod Find
pub mod Safe
pub mod Flush
pub mod Fill
pub mod Create
pub mod Created
pub mod Remove
pub mod Stale
pub mod Trace
pub mod Free
use simpel_dateisystem.Base.{
  ℕ, zero, suc, ℤ, pos, negsuc, ◌+◌, ◌-◌, ◌*◌, Bool, true, false, Option, none, some, ltb, ◌==◌,
  leb_ℤ, ◌*ℤ◌, ◌+ℤ◌, if◌then◌else◌, update, pos_part, to_short, to_int, length, take,
}
use simpel_dateisystem.Base.Outcome.{Outcome, ok, fault, ◌>>=◌}
use simpel_dateisystem.Base.CString.{Text, str_eq, copy_into}
use simpel_dateisystem.Knoten.{
  FileControlBlock, Superblock, Pointer, name_size, max_inodes, max_blocks, block_size, fcb_size,
  superblock_size,
}
use simpel_dateisystem.Store.{Store, Env, superblock, inode, fcb_at, set_fcb, set_ibmap}
use simpel_dateisystem.Block.{block_write_padded, s_block_write_padded}
use simpel_dateisystem.Path.{root_name, relative_name, get_relative_parent_name}
use simpel_dateisystem.Directory.{add_to_direntry, remove_from_direntry, get_parent_fcb}

-- A read of `sBlock->ibmap[i]`
abbrev pub ibmap_at : Superblock → ℕ → Outcome ℕ
ibmap_at sb i = if ltb i max_blocks then ok (sb.ibmap i) else fault

-- The rounds of a loop `for (i = from; i < n; i++)` over an `int` n
abbrev pub rounds : ℕ → ℤ → ℕ
rounds from n = pos_part n - from

unfoldable pub free_inode_from : Superblock → ℕ → ℕ → Outcome (Option ℕ)
free_inode_from sb zero i = ok none
free_inode_from sb (suc left) i =
    let rest = free_inode_from sb left (suc i) in
    do b ← ibmap_at sb i; if b == 0 then ok (some i) else rest

-- `none` is the result -1.
unfoldable pub get_free_inode_num : Superblock → Outcome (Option ℕ)
get_free_inode_num sb = free_inode_from sb (rounds 0 sb.num_inodes) 0

-- `&inodes[0]`, which is not NULL
abbrev pub find_root_or_die_trying : Pointer
find_root_or_die_trying = some 0

-- The test of the parent's name. Where that name cannot be made, the inode is taken by its own name.
abbrev pub has_parent_name : FileControlBlock → Option Text → Bool
has_parent_name curr none = true
has_parent_name curr (some name) = str_eq curr.parent_dir name

unfoldable pub is_file_at : Env → FileControlBlock → Text → ℕ → Outcome Bool
is_file_at env curr file_path x =
    if str_eq curr.file_name (relative_name file_path)
    then get_relative_parent_name (env.find x) (some file_path)
      >>= (λ parent_name. ok (has_parent_name curr parent_name))
    else ok false

-- The loop of findFileOrDir, with the rounds left.
unfoldable pub find_from : Env → Store → Text → ℕ → ℕ → Outcome Pointer
find_from env s file_path zero x = ok none
find_from env s file_path (suc left) x =
    let rest = find_from env s file_path left (suc x) in
    do
      curr ← fcb_at s x
      found ← is_file_at env curr file_path x
      if found then ok (some x) else rest

unfoldable pub find_file_or_dir : Env → Store → Text → Outcome Pointer
find_file_or_dir env s file_path =
    if str_eq file_path root_name
    then ok find_root_or_die_trying
    else find_from env s file_path (rounds 0 s.s_block.num_inodes) 0

-- A round of the loops that write the inodes: the next place, after the inode has been written.
abbrev pub next_fill : Store → ℕ → ℕ
next_fill s fill = if leb_ℤ s.s_block.num_inodes_per_block (pos (fill + 1)) then 0 else fill + 1

abbrev pub next_block : Store → ℕ → ℤ → ℤ
next_block s fill b =
    if leb_ℤ s.s_block.num_inodes_per_block (pos (fill + 1)) then b +ℤ pos 1 else b

abbrev pub write_inode : Env → Store → FileControlBlock → ℤ → ℕ → Store
write_inode env s f b fill =
    (block_write_padded env b (inode f) (pos fcb_size) (pos (fill * fcb_size)) s).1

-- flushAllInodesTodisk(FALSE): the loop, with the rounds left.
unfoldable pub flush_from : Env → Store → ℕ → ℕ → ℤ → ℕ → Outcome Store
flush_from env s zero i b fill = ok s
flush_from env s (suc left) i b fill = do
  f ← fcb_at s i
  let s' = write_inode env s f b fill
  flush_from env s' left (suc i) (next_block s' fill b) (next_fill s' fill)

-- flushAllInodesTodisk(TRUE): the values that the code gives its copy `curr` are lost; what is
-- written is the inode as it stands in the array.
unfoldable pub flush_first_from : Env → Store → ℕ → ℕ → ℤ → ℕ → Outcome Store
flush_first_from env s zero i b fill = ok s
flush_first_from env s (suc left) i b fill = do
  f ← fcb_at s i
  s' ← set_ibmap s i 0
  let s'' = write_inode env s' f b fill
  flush_first_from env s'' left (suc i) (next_block s'' fill b) (next_fill s'' fill)

-- Both loops stop short of the last inode (`endCond-1`). The result is always TRUE.
unfoldable pub flush_all_inodes_to_disk : Env → Store → Bool → Outcome (Bool × Store)
flush_all_inodes_to_disk env s true = do
  s' ← flush_first_from env s (rounds 2 s.s_block.num_inodes) 1 s.s_block.inode_start_index 1
  ok (true, s')
flush_all_inodes_to_disk env s false = do
  let start = s.s_block.inode_start_index
  let s' =
      (s_block_write_padded env (pos 0) (superblock s.s_block) (to_int (pos block_size *ℤ start))
        s).1
  s'' ← flush_from env s' (rounds 1 s.s_block.num_inodes) 0 start 0
  ok (true, s'')

-- The parent of a new inode, by the absolute path that create_inode copies out of `path`.
unfoldable pub find_parent : Env → Store → Text → Text → Outcome Pointer
find_parent env s path parent_dir =
    if str_eq parent_dir root_name
    then ok find_root_or_die_trying
    else if env.path
    then copy_into (length path) (take (length path - length (relative_name path) - 1) path)
      >>= find_file_or_dir env s
    else ok none

-- Assignments to fields of `inodes[i]`
unfoldable pub modify_fcb : Store → ℕ → (FileControlBlock → FileControlBlock) → Outcome Store
modify_fcb s i change = fcb_at s i >>= (λ f. set_fcb s i (change f))

-- `strcpy` into the two names of an inode, each with room for 256 characters.
unfoldable pub fill_names : Store → Text → Text → ℕ → Outcome Store
fill_names s name parent_dir i = do
  file_name ← copy_into name_size name
  dir_name ← copy_into name_size parent_dir
  modify_fcb s i (λ f. record f { file_name = file_name; parent_dir = dir_name })

abbrev pub set_numbers : Env → ℕ → ℕ → FileControlBlock → FileControlBlock → FileControlBlock
set_numbers env mode i parent f = record f {
  parent_inumber = parent.inumber;
  mode = to_short mode;
  uid = to_short env.uid;
  time = env.time;
  inumber = to_short i;
}

abbrev pub set_parent : FileControlBlock → FileControlBlock → FileControlBlock
set_parent parent f = record f { parent_inumber = parent.inumber }

-- The assignments of create_inode in the code's order. The parent may be the inode itself, so its
-- number is read again for the last of them.
unfoldable pub fill_inode : Env → Store → Text → Text → ℕ → ℕ → ℕ → Outcome Store
fill_inode env s name parent_dir parent mode i = do
  s1 ← fill_names s name parent_dir i
  p ← fcb_at s1 parent
  s2 ← modify_fcb s1 i (set_numbers env mode i p)
  q ← fcb_at s2 parent
  modify_fcb s2 i (set_parent q)

-- What create_inode does once the new inode is an entry of its parent.
unfoldable pub commit_inode : Env → Store → Text → Text → ℕ → ℕ → ℕ → Outcome (Pointer × Store)
commit_inode env s path parent_dir parent mode i = do
  s1 ← fill_inode env s (relative_name path) parent_dir parent mode i
  s2 ← set_ibmap s1 i 1
  (_, s3) ← flush_all_inodes_to_disk env s2 false
  ok (some i, s3)

unfoldable pub create_in : Env → Store → Text → Text → Pointer → ℕ → ℕ → Outcome (Pointer × Store)
create_in env s path parent_dir none mode i = ok (none, s)
create_in env s path parent_dir (some parent) mode i = do
  (added, s1) ← add_to_direntry s (some parent) (some i)
  if added then commit_inode env s1 path parent_dir parent mode i else ok (none, s1)

-- The body of create_inode's loop, at a free inode.
unfoldable pub create_at : Env → Store → Text → ℕ → ℕ → Outcome (Pointer × Store)
create_at env s path mode i = do
  parent_name ← get_relative_parent_name env.parent (some path)
  elim parent_name [
    | none ↦ ok (none, s)
    | some parent_dir ↦
        find_parent env s path parent_dir
        >>= (λ parent. create_in env s path parent_dir parent mode i)
  ]

unfoldable pub create_from : Env → Store → Text → ℕ → ℕ → ℕ → Outcome (Pointer × Store)
create_from env s path mode zero i = ok (none, s)
create_from env s path mode (suc left) i =
    let rest = create_from env s path mode left (suc i) in
    do b ← ibmap_at s.s_block i; if b == 1 then rest else create_at env s path mode i

-- The new inode, or `none` for NULL.
unfoldable pub create_inode : Env → Store → Text → ℕ → Outcome (Pointer × Store)
create_inode env s path mode = create_from env s path mode (rounds 1 s.s_block.num_inodes) 1

-- `f->inumber` as an index of `ibmap`
abbrev pub ibmap_index : ℤ → Outcome ℕ
ibmap_index (pos n) = ok n
ibmap_index (negsuc n) = fault

-- What remove_inode does once the entry is gone from the parent.
unfoldable pub release_inode : Env → Store → ℕ → Outcome (Bool × Store)
release_inode env s f = do
  fcb ← fcb_at s f
  n ← ibmap_index fcb.inumber
  s1 ← set_ibmap s n 0
  (_, s2) ← flush_all_inodes_to_disk env s1 false
  ok (true, s2)

unfoldable pub remove_at : Env → Store → ℕ → Pointer → Outcome (Bool × Store)
remove_at env s f none = ok (false, s)
remove_at env s f (some p) = do
  (removed, s1) ← remove_from_direntry s (some p) (some f)
  if removed then release_inode env s1 f else ok (false, s1)

unfoldable pub remove_found : Env → Store → Pointer → Outcome (Bool × Store)
remove_found env s none = ok (false, s)
remove_found env s (some f) = get_parent_fcb s (some f) >>= remove_at env s f

unfoldable pub remove_inode : Env → Store → Text → Outcome (Bool × Store)
remove_inode env s file_path = find_file_or_dir env s file_path >>= remove_found env s
