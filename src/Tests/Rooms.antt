-- ===== src/Tests/Rooms.antt =====
-- An example of creations until no inode is free.
use simpel_dateisystem.Base.{ℤ, ◌≡◌, refl, arith, [], ◌∷◌, neg_ℕ, List}
use simpel_dateisystem.Base.Outcome.{Ensures}
use simpel_dateisystem.Base.CString.{Text, codes}
use simpel_dateisystem.Store.{Store}
use simpel_dateisystem.Path.{root_name, relative_name}
use simpel_dateisystem.Sfs.Requests.{create, Reply, handle}
use simpel_dateisystem.Table.{view}
use simpel_dateisystem.Table.Room.{room, AreTop, creates, zeros, creates-capacity}
use simpel_dateisystem.Tests.Data.{
  calm, calm-HasMemory, small, small-IsSafe, Fits-of, new_file-Fits,
}

abbrev new_paths : List Text
new_paths = codes "/x" ∷ codes "/y" ∷ []

new_paths-AreTop : AreTop new_paths
unfolding relative_name
new_paths-AreTop = (
  refl,
  Fits-of (codes "/x") root_name (omega arith) refl (omega arith),
  (refl, Fits-of (codes "/y") root_name (omega arith) refl (omega arith), tt),
)

creates-capacity_example :
    Ensures
      (λ (r : List ℤ × Store).
        (r.0 ≡ zeros 2)
        × (room (view r.1) ≡ 0)
        × Ensures
            (λ (a : Reply × Store).
              (a.0.result ≡ neg_ℕ (calm.errno r.1.errno)) × (view a.1 ≡ view r.1))
            (handle calm r.1 (create (codes "/a/c") 33188)))
      (creates calm small 33188 new_paths)
creates-capacity_example =
    creates-capacity calm calm small 33188 33188 new_paths (codes "/a/c") calm-HasMemory
      calm-HasMemory small-IsSafe new_paths-AreTop refl new_file-Fits
