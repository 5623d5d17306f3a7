-- ===== src/Tests/Paths.antt =====
-- Examples of paths.
use simpel_dateisystem.Base.{◌≡◌, refl, ◌⊎◌, none, some, ◌++◌, ◌∷◌}
use simpel_dateisystem.Base.Outcome.{ok}
use simpel_dateisystem.Base.CString.{codes, slash}
use simpel_dateisystem.Path.{root_name, relative_name, get_relative_parent_name}
use simpel_dateisystem.Path.Parent.{parent_name, get_relative_parent_name_total, path_names}
use simpel_dateisystem.Tests.Data.{all_granted, all_granted-IsGranted}

deep_parent : parent_name (codes "/a/b/c") ≡ some (codes "b")
deep_parent = refl

get_relative_parent_name_total_example :
    (get_relative_parent_name all_granted (some (codes "/a/b/c")) ≡ ok none)
    ⊎ (get_relative_parent_name all_granted (some (codes "/a/b/c"))
        ≡ ok (parent_name (codes "/a/b/c")))
get_relative_parent_name_total_example = get_relative_parent_name_total all_granted (codes "/a/b/c")

path_names_example :
    (get_relative_parent_name all_granted
        (some ((codes "/a" ++ (slash ∷ codes "b")) ++ (slash ∷ codes "c")))
      ≡ ok (some (codes "b")))
    × (relative_name ((codes "/a" ++ (slash ∷ codes "b")) ++ (slash ∷ codes "c")) ≡ codes "c")
    × (get_relative_parent_name all_granted (some (slash ∷ codes "c")) ≡ ok (some root_name))
    × (relative_name (slash ∷ codes "c") ≡ codes "c")
path_names_example =
    path_names all_granted (codes "/a") (codes "b") (codes "c") all_granted-IsGranted refl refl
