-- ===== src/Table/Search.antt =====
-- findFileOrDir is the search of the table.
use simpel_dateisystem.Base.{
  ℕ, ◌-◌, ◌≤◌, ◌≡◌, refl, sym, ◌≢◌, inl, inr, ap, ◌∙◌, true, false, ◌&&◌, Option, none, some, arith,
  Bool-cases, length, take,
}
use simpel_dateisystem.Base.Outcome.{ok, Ensures-ok}
use simpel_dateisystem.Base.CString.{Text, str_eq, str_eq→≡}
use simpel_dateisystem.Knoten.{FileControlBlock, Pointer, max_inodes}
use simpel_dateisystem.Store.{Store, Env, HasMemory}
use simpel_dateisystem.Path.{root_name, relative_name}
use simpel_dateisystem.Path.Parent.{parent_name}
use simpel_dateisystem.Inodes.{has_parent_name, find_file_or_dir, find_parent}
use simpel_dateisystem.Inodes.Find.{
  inode_count, Bears, IsFirst, find_file_or_dir-IsFirst, find_file_or_dir-root,
}
use simpel_dateisystem.Inodes.Create.{parent_path_fits}
use simpel_dateisystem.Table.{view, first, is_in, bears, lookup, lookup_parent}
use simpel_dateisystem.Table.First.{first-some, first-none}

is_in-has_parent_name :
    (f : FileControlBlock) (o : Option Text) → is_in f.parent_dir o ≡ has_parent_name f o
is_in-has_parent_name f none = refl
is_in-has_parent_name f (some name) = refl

bears→Bears :
    (s : Store) (path : Text) (k : ℕ) → bears (view s) path k ≡ true → Bears (s.inodes k) path
bears→Bears s path k e =
    ap (λ b. str_eq (s.inodes k).file_name (relative_name path) && b)
      (sym (is_in-has_parent_name (s.inodes k) (parent_name path)))
    ∙ e

Bears→bears :
    (s : Store) (path : Text) (k : ℕ) → Bears (s.inodes k) path → bears (view s) path k ≡ true
Bears→bears s path k e =
    ap (λ b. str_eq (s.inodes k).file_name (relative_name path) && b)
      (is_in-has_parent_name (s.inodes k) (parent_name path))
    ∙ e

not-bears :
    (s : Store) (path : Text) (k : ℕ) → ¬ Bears (s.inodes k) path → bears (view s) path k ≡ false
not-bears s path k miss = elim (Bool-cases (bears (view s) path k)) [
  | inl t ↦ absurd (miss (bears→Bears s path k t))
  | inr f ↦ f
]

first-IsFirst :
    (s : Store) (path : Text) (r : Pointer)
    → IsFirst s path 0 (inode_count s) r
    → first (bears (view s) path) (inode_count s) 0 ≡ r
first-IsFirst s path none miss =
    first-none (bears (view s) path) (inode_count s) 0
      (λ j lo hi. not-bears s path j (miss j lo (omega (arith, hi))))
first-IsFirst s path (some x) (lo, hi, hit, before) =
    first-some (bears (view s) path) (inode_count s) 0 x lo (omega arith) (Bears→bears s path x hit)
      (λ j lo' hi'. not-bears s path j (before j lo' hi'))

-- With memory, findFileOrDir is the search of the table that the store stands for.
pub find_file_or_dir-lookup :
    (env : Env) (s : Store) (path : Text)
    → HasMemory env
    → inode_count s ≤ max_inodes
    → find_file_or_dir env s path ≡ ok (lookup (view s) path)
find_file_or_dir-lookup env s path m h = elim (Bool-cases (str_eq path root_name)) [
  | inl top ↦ rw (top, str_eq→≡ path root_name top) (find_file_or_dir-root env s)
  | inr deep ↦
      let ne : path ≢ root_name = λ q. let t : str_eq path root_name ≡ true = rw q refl in cc in
      let (r, found, is_first) =
        Ensures-ok (IsFirst s path 0 (inode_count s)) (find_file_or_dir env s path)
          (find_file_or_dir-IsFirst env s path m h ne) in
      rw deep (found ∙ ap ok (sym (first-IsFirst s path r is_first)))
]

pub find_parent-lookup :
    (env : Env) (s : Store) (path dir : Text)
    → HasMemory env
    → inode_count s ≤ max_inodes
    → parent_name path ≡ some dir
    → find_parent env s path dir ≡ ok (lookup_parent (view s) path dir)
unfolding find_parent
find_parent-lookup env s path dir m h named = elim (Bool-cases (str_eq dir root_name)) [
  | inl top ↦ rw top refl
  | inr deep ↦
      let above = take (length path - length (relative_name path) - 1) path in
      let room = m.path in
      rw (deep, parent_path_fits path named) (simp room (find_file_or_dir-lookup env s above m h))
]
