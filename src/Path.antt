-- ===== src/Path.antt =====
-- The names that the program takes from a path: getRelativeParentName of src/DateiSteuerBlock.c, and
-- the last name of a path, which create_inode and findFileOrDir compute.
pub mod Parent
pub mod Front
use simpel_dateisystem.Base.{
  ◌+◌, ◌-◌, ◌*◌, Option, none, some, List, [], ◌∷◌, ◌==◌, if◌then◌else◌, length, take, drop,
}
use simpel_dateisystem.Base.Outcome.{Outcome, ok, ◌>>=◌}
use simpel_dateisystem.Base.CString.{Text, slash, strrchr, copy_into}
use simpel_dateisystem.Store.{Grants}

-- The string "/"
abbrev pub root_name : Text
root_name = slash ∷ []

-- `pLastSlash ? pLastSlash+1 : path`
unfoldable pub relative_name : Text → Text
relative_name path = elim (strrchr path slash) [ some rest ↦ drop 1 rest | none ↦ path ]

-- `malloc(2)` and `strncpy(r00t, "/", 2)`
abbrev pub new_root_name : Grants → Outcome (Option Text)
new_root_name g = if g.root then ok (some root_name) else ok none

-- The name of the parent, from the path up to its last slash; `strcpy` needs room for the NUL.
unfoldable pub parent_in : Grants → Text → Outcome (Option Text)
parent_in g absolute_parent_name = elim (strrchr absolute_parent_name slash) [
  | some from_last_slash ↦
      if g.relative
      then copy_into (length from_last_slash + 1) (drop 1 from_last_slash) >>= (λ t. ok (some t))
      else ok none
  | none ↦ new_root_name g
]

unfoldable pub parent_of : Grants → Text → Text → Outcome (Option Text)
parent_of g file_path from_last_slash =
    let len_abs_parent = length file_path - length from_last_slash in
    if len_abs_parent == 0
    then new_root_name g
    else copy_into (length file_path) (take len_abs_parent file_path) >>= parent_in g

-- `none` as the argument or the result is `NULL`.
unfoldable pub get_relative_parent_name : Grants → Option Text → Outcome (Option Text)
get_relative_parent_name g none = ok none
get_relative_parent_name g (some file_path) = elim (strrchr file_path slash) [
  | none ↦ ok none
  | some from_last_slash ↦ if g.absolute then parent_of g file_path from_last_slash else ok none
]
