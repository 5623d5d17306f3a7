-- ===== src/Table.antt =====
-- An abstract file system: a table with a row for each inode. It has no directories, no disk and no
-- errno, and says what the handlers of src/sfs.c answer and which names they make and free.
pub mod First
pub mod Search
pub mod Change
pub mod Refine
pub mod Runs
pub mod Names
pub mod Rows
pub mod Lives
pub mod Room
use simpel_dateisystem.Base.{
  ℕ, zero, suc, ℤ, pos, negsuc, ◌-◌, Bool, true, false, not, ◌&&◌, ◌||◌, ◌≡◌, ap, ◌∙◌, Option, none,
  some, ltb, ◌==◌, if◌then◌else◌, length, take, update, to_short, to_u32,
}
use mathlib.Core.Path.{fun_ext}
use simpel_dateisystem.Base.CString.{Text, str_eq}
use simpel_dateisystem.Store.{Store}
use simpel_dateisystem.Path.{root_name, relative_name}
use simpel_dateisystem.Path.Parent.{parent_name}
use simpel_dateisystem.Inodes.Find.{inode_count}
use simpel_dateisystem.Sfs.{path_max, s_ifdir, s_ifreg}
use simpel_dateisystem.Sfs.Getattr.{is_special}
use simpel_dateisystem.Sfs.Requests.{
  Request, getattr, create, unlink, open_file, release, read, write, rmdir, mkdir, opendir, readdir,
  releasedir,
}

-- Row `k` has the name of a file and of the directory it is in, its number, and its mark, which is 1
-- while the row is in use.
pub record Table : Type 0 where
  pub count : ℕ
  pub name : ℕ → Text
  pub dir : ℕ → Text
  pub number : ℕ → ℤ
  pub mark : ℕ → ℕ

-- The table that a store stands for.
abbrev pub view : Store → Table
view s = record {
  count = inode_count s;
  name = λ k. (s.inodes k).file_name;
  dir = λ k. (s.inodes k).parent_dir;
  number = λ k. (s.inodes k).inumber;
  mark = s.s_block.ibmap;
}

pub Table-ext :
    (a b : Table)
    → a.count ≡ b.count
    → ((k : ℕ) → a.name k ≡ b.name k)
    → ((k : ℕ) → a.dir k ≡ b.dir k)
    → ((k : ℕ) → a.number k ≡ b.number k)
    → ((k : ℕ) → a.mark k ≡ b.mark k)
    → a ≡ b
Table-ext a b c n d x m =
    ap (λ z. record a { count = z }) c
    ∙ ap (λ z. record a { count = b.count; name = z }) (fun_ext n)
    ∙ ap (λ z. record a { count = b.count; name = b.name; dir = z }) (fun_ext d)
    ∙ ap (λ z. record a { count = b.count; name = b.name; dir = b.dir; number = z }) (fun_ext x)
    ∙ ap (λ z. record b { mark = z }) (fun_ext m)

-- The first number from `i` on, within `left` numbers, that passes the test.
abbrev pub first : (ℕ → Bool) → ℕ → ℕ → Option ℕ
first test zero i = none
first test (suc left) i = let rest = first test left (suc i) in if test i then some i else rest

abbrev pub is_in : Text → Option Text → Bool
is_in dir none = true
is_in dir (some name) = str_eq dir name

-- A row goes by the last two names of a path.
abbrev pub bears : Table → Text → ℕ → Bool
bears tab path k = str_eq (tab.name k) (relative_name path) && is_in (tab.dir k) (parent_name path)

abbrev pub lookup : Table → Text → Option ℕ
lookup tab path = if str_eq path root_name then some 0 else first (bears tab path) tab.count 0

-- Where the directory of a new file has to be, `dir` being its name.
abbrev pub lookup_parent : Table → Text → Text → Option ℕ
lookup_parent tab path dir =
    if str_eq dir root_name
    then some 0
    else lookup tab (take (length path - length (relative_name path) - 1) path)

abbrev pub free_row : Table → Option ℕ
free_row tab = first (λ i. not (tab.mark i == 1)) (tab.count - 1) 1

abbrev pub fill_row : Table → Text → Text → ℕ → Table
fill_row tab path dir i = record tab {
  name = update tab.name i (relative_name path);
  dir = update tab.dir i dir;
  number = update tab.number i (to_short i);
  mark = update tab.mark i 1;
}

abbrev pub add_in : Table → Text → Text → ℕ → Option ℕ → Option ℕ × Table
add_in tab path dir i none = (none, tab)
add_in tab path dir i (some parent) = (some i, fill_row tab path dir i)

abbrev pub add_named : Table → Text → ℕ → Option Text → Option ℕ × Table
add_named tab path i none = (none, tab)
add_named tab path i (some dir) = add_in tab path dir i (lookup_parent tab path dir)

abbrev pub add_at : Table → Text → Option ℕ → Option ℕ × Table
add_at tab path none = (none, tab)
add_at tab path (some i) = add_named tab path i (parent_name path)

-- A new file takes the first row behind row 0 that is not in use.
abbrev pub add : Table → Text → Option ℕ × Table
add tab path = add_at tab path (free_row tab)

abbrev pub unmark : Table → ℤ → Table
unmark tab (pos n) = record tab { mark = update tab.mark n 0 }
unmark tab (negsuc n) = tab

abbrev pub drop_at : Table → Option ℕ → Bool × Table
drop_at tab none = (false, tab)
drop_at tab (some k) = (true, unmark tab (tab.number k))

-- A removal frees the row's mark and keeps its names.
abbrev pub drop : Table → Text → Bool × Table
drop tab path = drop_at tab (lookup tab path)

-- The results: 0 or -ENOENT for a search, what the caller says for a new file that fails, and 0 or
-- -ENOENT for a removal.
abbrev pub search_result : Option ℕ → ℤ
search_result (some k) = pos 0
search_result none = negsuc 1

abbrev pub add_result : ℤ → Option ℕ × Table → ℤ × Table
add_result failed (some i, tab) = (pos 0, tab)
add_result failed (none, tab) = (failed, tab)

abbrev pub drop_result : Bool × Table → ℤ × Table
drop_result (true, tab) = (pos 0, tab)
drop_result (false, tab) = (negsuc 1, tab)

abbrev pub list_result : Option ℕ → ℤ
list_result (some k) = pos 0
list_result none = negsuc 0

-- sfs_mkdir makes a file for two modes only, and its result is 0 in any case.
abbrev pub mkdir_result : Table → Text → ℕ → ℤ × Table
mkdir_result tab path mode =
    (pos 0, (if mode == 493 || mode == to_u32 (negsuc 32347) then (add tab path).1 else tab))

abbrev pub stat_result : Table → Text → ℤ
stat_result tab path =
    if ltb path_max (length path)
    then negsuc 0
    else if is_special path
    then pos 0
    else search_result (lookup tab path)

-- What a request answers and makes of the table. `failed` is the answer of a creation that fails.
abbrev pub run : ℤ → Table → Request → ℤ × Table
run failed tab (getattr path none) = (negsuc 0, tab)
run failed tab (getattr path (some buffer)) = (stat_result tab path, tab)
run failed tab (create path mode) = add_result failed (add tab path)
run failed tab (unlink path) = drop_result (drop tab path)
run failed tab (open_file path) = (search_result (lookup tab path), tab)
run failed tab (release path) = (search_result (lookup tab path), tab)
run failed tab (read path) = (search_result (lookup tab path), tab)
run failed tab (write path size) = (negsuc 0, tab)
run failed tab (rmdir path) = drop_result (drop tab path)
run failed tab (mkdir path mode) = mkdir_result tab path mode
run failed tab (opendir path) = (search_result (lookup tab path), tab)
run failed tab (readdir path) = (list_result (lookup tab path), tab)
run failed tab releasedir = (pos 0, tab)
