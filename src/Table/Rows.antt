-- ===== src/Table/Rows.antt =====
-- The rows of the table behind the counted ones, and those that were never used.
use simpel_dateisystem.Base.{
  ℕ, zero, suc, ℤ, pos, negsuc, ◌+◌, ◌-◌, ◌<◌, ◌≤◌, ◌≡◌, refl, ◌≢◌, inl, inr, Bool, not, Option,
  none, some, [], arith, ==_false, ◌==◌, ◌||◌, Bool-cases, to_u32,
}
use simpel_dateisystem.Base.CString.{Text}
use simpel_dateisystem.Path.Parent.{parent_name}
use simpel_dateisystem.Sfs.Requests.{
  Request, getattr, create, unlink, open_file, release, read, write, rmdir, mkdir, opendir, readdir,
  releasedir,
}
use simpel_dateisystem.Table.{
  Table, first, lookup, lookup_parent, free_row, fill_row, add_in, add_named, add_at, add,
  add_result, unmark, drop_at, drop_result, mkdir_result, run,
}

-- The row has no name and no number.
pub record IsUnused (tab : Table) (k : ℕ) : Type 0 where
  pub name : tab.name k ≡ []
  pub dir : tab.dir k ≡ []
  pub number : tab.number k ≡ pos 0

first_bounds :
    (test : ℕ → Bool) (left from i : ℕ)
    → first test left from ≡ some i
    → (from ≤ i) × (i < from + left)
first_bounds test zero from i e = absurd (ground (arith, e))
first_bounds test (suc left) from i e = elim (Bool-cases (test from)) [
  | inl hit ↦ ground (arith, hit, e)
  | inr miss ↦
      let later : first test left (suc from) ≡ some i = ground (arith, miss, e) in
      let (lo, hi) = first_bounds test left (suc from) i later in (omega arith, omega arith)
]

-- What a step may do to the rows.
pub record KeepsRows (a b : Table) : Type 0 where
  pub count : b.count ≡ a.count
  pub above : (k : ℕ) → a.count ≤ k → IsUnused a k → IsUnused b k

same-KeepsRows : (a : Table) → KeepsRows a a
same-KeepsRows a = record { count = refl; above = λ k h u. u }

fill_row-KeepsRows :
    (a : Table) (path dir : Text) (i : ℕ) → i < a.count → KeepsRows a (fill_row a path dir i)
fill_row-KeepsRows a path dir i h = record {
  count = refl;
  above = λ k le u.
      let ne : k ≢ i = omega arith in
      record {
        name = rw (==_false k i ne) u.name;
        dir = rw (==_false k i ne) u.dir;
        number = rw (==_false k i ne) u.number;
      };
}

add_in-KeepsRows :
    (a : Table) (path dir : Text) (i : ℕ) (parent : Option ℕ)
    → i < a.count
    → KeepsRows a (add_in a path dir i parent).1
add_in-KeepsRows a path dir i none h = same-KeepsRows a
add_in-KeepsRows a path dir i (some p) h = fill_row-KeepsRows a path dir i h

add_named-KeepsRows :
    (a : Table) (path : Text) (i : ℕ) (dir : Option Text)
    → i < a.count
    → KeepsRows a (add_named a path i dir).1
add_named-KeepsRows a path i none h = same-KeepsRows a
add_named-KeepsRows a path i (some dir) h =
    add_in-KeepsRows a path dir i (lookup_parent a path dir) h

add_at-KeepsRows :
    (a : Table) (path : Text) (o : Option ℕ)
    → ((i : ℕ) → o ≡ some i → i < a.count)
    → KeepsRows a (add_at a path o).1
add_at-KeepsRows a path none h = same-KeepsRows a
add_at-KeepsRows a path (some i) h = add_named-KeepsRows a path i (parent_name path) (h i refl)

add-KeepsRows : (a : Table) (path : Text) → KeepsRows a (add a path).1
add-KeepsRows a path =
    add_at-KeepsRows a path (free_row a) λ i e.
      let (lo, hi) = first_bounds (λ k. not (a.mark k == 1)) (a.count - 1) 1 i e in omega arith

add_result-KeepsRows :
    (failed : ℤ) (a : Table) (r : Option ℕ × Table)
    → KeepsRows a r.1
    → KeepsRows a (add_result failed r).1
add_result-KeepsRows failed a (none, b) h = h
add_result-KeepsRows failed a (some i, b) h = h

drop_result-KeepsRows : (a : Table) (r : Option ℕ) → KeepsRows a (drop_result (drop_at a r)).1
drop_result-KeepsRows a none = same-KeepsRows a
drop_result-KeepsRows a (some k) = unmark-KeepsRows (a.number k)
  where
    unmark-KeepsRows : (z : ℤ) → KeepsRows a (unmark a z)
    unmark-KeepsRows (pos n) = record {
      count = refl;
      above = λ k h u. record { name = u.name; dir = u.dir; number = u.number };
    }
    unmark-KeepsRows (negsuc n) = same-KeepsRows a

mkdir_result-KeepsRows :
    (a : Table) (path : Text) (mode : ℕ) → KeepsRows a (mkdir_result a path mode).1
mkdir_result-KeepsRows a path mode =
    elim (Bool-cases (mode == 493 || mode == to_u32 (negsuc 32347))) [
      | inl made ↦ rw made (add-KeepsRows a path)
      | inr other ↦ rw other (same-KeepsRows a)
    ]

-- A request keeps the count of the table, and the rows behind it stay unused.
pub run-KeepsRows :
    (failed : ℤ) (a : Table) (request : Request) → KeepsRows a (run failed a request).1
run-KeepsRows failed a (getattr path none) = same-KeepsRows a
run-KeepsRows failed a (getattr path (some buffer)) = same-KeepsRows a
run-KeepsRows failed a (create path mode) =
    add_result-KeepsRows failed a (add a path) (add-KeepsRows a path)
run-KeepsRows failed a (unlink path) = drop_result-KeepsRows a (lookup a path)
run-KeepsRows failed a (open_file path) = same-KeepsRows a
run-KeepsRows failed a (release path) = same-KeepsRows a
run-KeepsRows failed a (read path) = same-KeepsRows a
run-KeepsRows failed a (write path size) = same-KeepsRows a
run-KeepsRows failed a (rmdir path) = drop_result-KeepsRows a (lookup a path)
run-KeepsRows failed a (mkdir path mode) = mkdir_result-KeepsRows a path mode
run-KeepsRows failed a (opendir path) = same-KeepsRows a
run-KeepsRows failed a (readdir path) = same-KeepsRows a
run-KeepsRows failed a releasedir = same-KeepsRows a
