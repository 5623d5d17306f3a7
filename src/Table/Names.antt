-- ===== src/Table/Names.antt =====
-- Runs that make no file: by the table, no search of src/DateiSteuerBlock.c changes its answer.
use mathlib.Core.Path.{subst}
use simpel_dateisystem.Base.{
  arith, ℕ, ℤ, pos, negsuc, ◌≡◌, refl, ap, ◌∙◌, sym, Bool, true, false, Option, none, some, List,
  [], ◌∷◌,
}
use simpel_dateisystem.Base.Outcome.{ok}
use simpel_dateisystem.Base.CString.{Text}
use simpel_dateisystem.Store.{Store, Env, HasMemory}
use simpel_dateisystem.Inodes.{find_file_or_dir}
use simpel_dateisystem.Inodes.Safe.{IsSafe}
use simpel_dateisystem.Sfs.Requests.{
  Request, getattr, create, unlink, open_file, release, read, write, rmdir, mkdir, opendir, readdir,
  releasedir,
}
use simpel_dateisystem.Table.{Table, view, lookup, unmark, drop_at, drop_result, run}
use simpel_dateisystem.Table.Search.{find_file_or_dir-lookup}
use simpel_dateisystem.Table.Runs.{Serves, Serves-IsSafe, Runs, still, step, Serves-Runs}

-- The requests that can make a file.
abbrev pub makes : Request → Bool
makes (create path mode) = true
makes (mkdir path mode) = true
makes other = false

abbrev pub MakesNone : List Request → Type 0
MakesNone [] = Unit
MakesNone (request ∷ requests) = (makes request ≡ false) × MakesNone requests

-- What a search looks at.
record SameNames (a b : Table) : Type 0 where
  count : b.count ≡ a.count
  name : b.name ≡ a.name
  dir : b.dir ≡ a.dir

same-SameNames : (a : Table) → SameNames a a
same-SameNames a = record { count = refl; name = refl; dir = refl }

SameNames-trans : (a b c : Table) → SameNames a b → SameNames b c → SameNames a c
SameNames-trans a b c p q = record {
  count = q.count ∙ p.count;
  name = q.name ∙ p.name;
  dir = q.dir ∙ p.dir;
}

lookup-SameNames : (a b : Table) (path : Text) → SameNames a b → lookup b path ≡ lookup a path
lookup-SameNames a b path same = rw (same.count, same.name, same.dir) refl

unmark-SameNames : (a : Table) (z : ℤ) → SameNames a (unmark a z)
unmark-SameNames a (pos n) = record { count = refl; name = refl; dir = refl }
unmark-SameNames a (negsuc n) = same-SameNames a

drop_result-SameNames : (a : Table) (r : Option ℕ) → SameNames a (drop_result (drop_at a r)).1
drop_result-SameNames a none = same-SameNames a
drop_result-SameNames a (some k) = unmark-SameNames a (a.number k)

run-SameNames :
    (failed : ℤ) (a : Table) (request : Request)
    → makes request ≡ false
    → SameNames a (run failed a request).1
run-SameNames failed a (getattr path none) quiet = same-SameNames a
run-SameNames failed a (getattr path (some buffer)) quiet = same-SameNames a
run-SameNames failed a (create path mode) quiet = absurd (ground (arith, quiet))
run-SameNames failed a (unlink path) quiet = drop_result-SameNames a (lookup a path)
run-SameNames failed a (open_file path) quiet = same-SameNames a
run-SameNames failed a (release path) quiet = same-SameNames a
run-SameNames failed a (read path) quiet = same-SameNames a
run-SameNames failed a (write path size) quiet = same-SameNames a
run-SameNames failed a (rmdir path) quiet = drop_result-SameNames a (lookup a path)
run-SameNames failed a (mkdir path mode) quiet = absurd (ground (arith, quiet))
run-SameNames failed a (opendir path) quiet = same-SameNames a
run-SameNames failed a (readdir path) quiet = same-SameNames a
run-SameNames failed a releasedir quiet = same-SameNames a

Runs-SameNames :
    {a b : Table} {requests : List Request} {results : List ℤ}
    → Runs a requests results b
    → MakesNone requests
    → SameNames a b
Runs-SameNames {a} still quiet = same-SameNames a
Runs-SameNames {a} (step {now} failed request before e) (here, earlier) =
    SameNames-trans a now _ (Runs-SameNames before earlier)
      (subst (λ (q : ℤ × Table). SameNames now q.1) (sym e) (run-SameNames failed now request here))

-- On a safe store, with memory: a run of allowed requests of which none is a create or a mkdir, and
-- which may remove any number of files, leaves the answer of findFileOrDir for every path as it was.
pub Serves-find :
    {s t : Store} {requests : List Request} {results : List ℤ} (env env' : Env) (path : Text)
    → IsSafe s
    → Serves s requests results t
    → MakesNone requests
    → HasMemory env
    → HasMemory env'
    → find_file_or_dir env' t path ≡ find_file_or_dir env s path
Serves-find {s} {t} env env' path v served quiet m m' =
    find_file_or_dir-lookup env' t path m' (Serves-IsSafe v served).count
    ∙ ap ok (lookup-SameNames (view s) (view t) path (Runs-SameNames (Serves-Runs v served) quiet))
    ∙ sym (find_file_or_dir-lookup env s path m v.count)
