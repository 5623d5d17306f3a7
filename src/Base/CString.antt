-- ===== src/Base/CString.antt =====
-- C strings as the lists of their characters before the terminating NUL, with what the program uses
-- of <string.h>.
use Prim.Native.Char.{code}
use Prim.Native.String.{String}
use Prim.Native.Nat.{ℕ}
use mathlib.Core.Path.{◌≡◌, refl}
use mathlib.Core.Logic.{◌↔◌, inl, inr}
use mathlib.Core.Bool.{Bool, true, false, ◌&&◌}
use mathlib.Core.Option.{Option, none, some}
use mathlib.Core.List.{List, [], ◌∷◌, ◌++◌}
use native.Mathlib.Omega.{arith}
use simpel_dateisystem.Base.Tests.{◌==◌, ltb, if◌then◌else◌, length, Bool-cases, Option-cases}
use simpel_dateisystem.Base.Outcome.{Outcome, ok, fault}

abbrev pub Text : Type 0
Text = List ℕ

-- A string literal of the program.
abbrev pub codes : String → Text
codes String.[] = []
codes (String.◌∷◌ c s) = code c ∷ codes s

abbrev pub slash : ℕ
slash = b'/'

-- `strcmp(a, b) == 0`
abbrev pub str_eq : Text → Text → Bool
str_eq [] [] = true
str_eq [] (_ ∷ _) = false
str_eq (_ ∷ _) [] = false
str_eq (a ∷ s) (b ∷ t) = (a == b) && str_eq s t

-- `strrchr(s, c)`: the rest of `s` from its last `c` on
abbrev pub strrchr : Text → ℕ → Option Text
strrchr [] c = none
strrchr (a ∷ s) c = elim (strrchr s c) [
  | some t ↦ some t
  | none ↦ if a == c then some (a ∷ s) else none
]

-- A copy of `s` into a zeroed buffer of `capacity` characters, with room for the NUL.
abbrev pub copy_into : ℕ → Text → Outcome Text
copy_into capacity s = if ltb (length s) capacity then ok s else fault

pub str_eq→≡ : (s t : Text) → str_eq s t ≡ true → s ≡ t
str_eq→≡ [] [] h = refl
str_eq→≡ [] (b ∷ t) h = ground arith
str_eq→≡ (a ∷ s) [] h = ground arith
str_eq→≡ (a ∷ s) (b ∷ t) h = ground (arith, str_eq→≡ s t)

pub str_eq_self : (s : Text) → str_eq s s ≡ true
str_eq_self [] = refl
str_eq_self (a ∷ s) = ground (arith, str_eq_self s)

pub str_eq_iff : (s t : Text) → (str_eq s t ≡ true) ↔ (s ≡ t)
str_eq_iff s t = (str_eq→≡ s t, λ e. simp (← e, str_eq_self))

-- The character does not occur.
abbrev pub Without : ℕ → Text → Type 0
Without c s = strrchr s c ≡ none

-- The text falls into what stands before the last `c` and the rest.
pub record SplitsAt (c : ℕ) (s rest : Text) : Type 0 where
  pub front : Text
  pub back : Text
  pub rest_eq : rest ≡ c ∷ back
  pub whole : s ≡ front ++ rest
  pub last : Without c back

pub strrchr-SplitsAt :
    (s : Text) (c : ℕ) {rest : Text} → strrchr s c ≡ some rest → SplitsAt c s rest
strrchr-SplitsAt [] c h = cc
strrchr-SplitsAt (a ∷ s) c {rest} h = elim (Option-cases (strrchr s c)) [
  | inl gone ↦ elim (Bool-cases (a == c)) [
    | inl hit ↦ record {
      front = [];
      back = s;
      rest_eq = ground arith;
      whole = ground arith;
      last = gone;
    }
    | inr miss ↦ ground arith
  ]
  | inr (t, found) ↦
      let inner = strrchr-SplitsAt s c found in
      record {
        front = a ∷ inner.front;
        back = inner.back;
        rest_eq = ground (arith, inner.rest_eq);
        whole = ground (arith, inner.whole);
        last = inner.last;
      }
]

-- The last `c` of a text that is put together around it.
pub strrchr-append :
    (front : Text) (c : ℕ) (back : Text)
    → Without c back
    → strrchr (front ++ (c ∷ back)) c ≡ some (c ∷ back)
strrchr-append [] c back h = ground arith
strrchr-append (a ∷ front) c back h = rw (strrchr-append front c back h)
