-- ===== src/Tests/Starts.antt =====
-- An example of a start of the program.
use simpel_dateisystem.Base.{pos, ◌≡◌, true, some, [], ◌∷◌, ◌++◌}
use simpel_dateisystem.Base.Outcome.{ok}
use simpel_dateisystem.Base.CString.{codes}
use simpel_dateisystem.Main.{World, aborted, returned, main}
use simpel_dateisystem.Main.Arguments.{main_lem}

abbrev quiet : World
quiet = record { malloc = true; fopen = some 3; fuse_main = λ argv disk_file state. pos 0 }

main_lem_example :
    (main quiet ((codes "sfs" ∷ codes "-d" ∷ []) ++ (codes "disk" ∷ (codes "/mnt" ∷ [])))
      ≡ ok (returned (pos 0)))
    × (main quiet (codes "/mnt" ∷ []) ≡ ok aborted)
    × (main quiet [] ≡ ok aborted)
main_lem_example = main_lem quiet (codes "sfs" ∷ codes "-d" ∷ []) (codes "disk") (codes "/mnt")
