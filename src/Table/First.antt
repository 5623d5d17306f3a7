-- ===== src/Table/First.antt =====
-- The search of a table: the first number that passes a test.
use simpel_dateisystem.Base.{
  ℕ, zero, suc, ◌+◌, ◌<◌, ◌≤◌, ◌≡◌, refl, Bool, true, false, none, some, arith,
}
use native.Mathlib.Decide.{ℕ_discrete}
use simpel_dateisystem.Table.{first}

pub first-some :
    (test : ℕ → Bool) (left from i : ℕ)
    → from ≤ i
    → i < from + left
    → test i ≡ true
    → ((j : ℕ) → from ≤ j → j < i → test j ≡ false)
    → first test left from ≡ some i
first-some test zero from i lo hi hit before = absurd (omega arith)
first-some test (suc left) from i lo hi hit before = elim (ℕ_discrete from i) [
  | yes e ↦ rw (e, hit) refl
  | no ne ↦ rw (before from (omega arith) (omega arith)) (
      first-some test left (suc from) i (omega arith) (omega arith) hit
        (λ j lo' hi'. before j (omega arith) hi'))
]

pub first-none :
    (test : ℕ → Bool) (left from : ℕ)
    → ((j : ℕ) → from ≤ j → j < from + left → test j ≡ false)
    → first test left from ≡ none
first-none test zero from miss = refl
first-none test (suc left) from miss =
    rw (miss from (omega arith) (omega arith))
      (first-none test left (suc from) (λ j lo hi. miss j (omega arith) (omega arith)))
