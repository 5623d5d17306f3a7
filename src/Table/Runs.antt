-- ===== src/Table/Runs.antt =====
-- Whole runs of the file system of src/sfs.c against runs of the table.
use mathlib.Core.Path.{subst}
use simpel_dateisystem.Base.{ℤ, ◌≡◌, List, [], ◌∷◌}
use simpel_dateisystem.Base.Outcome.{ok, Ensures}
use simpel_dateisystem.Store.{Store, Env, HasMemory}
use simpel_dateisystem.Inodes.Safe.{IsSafe}
use simpel_dateisystem.Sfs.Requests.{Request, Reply, handle}
use simpel_dateisystem.Sfs.Keeps.{IsAllowed}
use simpel_dateisystem.Sfs.Safety.{handle-IsSafe}
use simpel_dateisystem.Table.{Table, view, run}
use simpel_dateisystem.Table.Refine.{handle-run}

-- The store `s` gets requests that are allowed, with memory for each; the last request and the last
-- result come first.
pub data Serves (s : Store) : List Request → List ℤ → Store → Type 0 where
  idle : Serves s [] [] s
  serve :
      {t u : Store} {requests : List Request} {results : List ℤ} (env : Env) (request : Request)
      (reply : Reply)
      → Serves s requests results t
      → HasMemory env
      → IsAllowed t request
      → handle env t request ≡ ok (reply, u)
      → Serves s (request ∷ requests) (reply.result ∷ results) u

-- The table gets the same requests. Only what a failing creation answers is left open.
pub data Runs (tab : Table) : List Request → List ℤ → Table → Type 0 where
  still : Runs tab [] [] tab
  step :
      {now after : Table} {requests : List Request} {results : List ℤ} {result : ℤ} (failed : ℤ)
      (request : Request)
      → Runs tab requests results now
      → (result, after) ≡ run failed now request
      → Runs tab (request ∷ requests) (result ∷ results) after

pub Serves-IsSafe :
    {s t : Store} {requests : List Request} {results : List ℤ}
    → IsSafe s
    → Serves s requests results t
    → IsSafe t
Serves-IsSafe v idle = v
Serves-IsSafe v (serve {t} env request reply before m allowed e) =
    subst (Ensures (λ q. IsSafe q.1)) e
      (handle-IsSafe env t (Serves-IsSafe v before) request allowed)

-- On a safe store, every run of allowed requests with memory gives results that the table gives for
-- the same requests, but for the number that a failing creation answers, and ends in a store that
-- stands for the table's last state.
pub Serves-Runs :
    {s t : Store} {requests : List Request} {results : List ℤ}
    → IsSafe s
    → Serves s requests results t
    → Runs (view s) requests results (view t)
Serves-Runs v idle = still
Serves-Runs v (serve {t} env request reply before m allowed e) =
    step _ request (Serves-Runs v before)
      (subst (Ensures _) e (handle-run env t m (Serves-IsSafe v before) request allowed))
