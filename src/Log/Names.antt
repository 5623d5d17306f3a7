-- ===== src/Log/Names.antt =====
-- What showInodeNames of src/DateiSteuerBlock.c logs: the names of inodes, and a line without a name
-- for each.
use mathlib.Core.Path.{subst}
use simpel_dateisystem.Base.{
  ℕ, zero, suc, ℤ, pos, ◌+◌, ◌≤◌, ◌≡◌, refl, ap, ◌∙◌, List, [], ◌∷◌, ◌++◌, arith, lt→ltb,
}
use simpel_dateisystem.Base.Outcome.{Ensures}
use simpel_dateisystem.Base.CString.{Text}
use simpel_dateisystem.Knoten.{max_inodes}
use simpel_dateisystem.Store.{Store}
use simpel_dateisystem.Log.{Arg, word, text, Log, log_msg, log_name, show_from, show_inode_names}

-- Messages with a number and a text
abbrev pub with_shown : List Arg → List (ℤ × Text) → List (ℤ × Text)
with_shown (word z ∷ (text t ∷ [])) l = (z, t) ∷ l
with_shown _ l = l

abbrev pub shown : Log → List (ℤ × Text)
shown [] = []
shown (m ∷ log) = with_shown m.args (shown log)

-- Messages with a number alone
abbrev pub with_null : List Arg → List ℤ → List ℤ
with_null (word z ∷ []) l = z ∷ l
with_null _ l = l

abbrev pub nulls : Log → List ℤ
nulls [] = []
nulls (m ∷ log) = with_null m.args (nulls log)

-- The inodes below `n` that have a name, the highest first
abbrev pub with_name : ℕ → Text → List (ℤ × Text) → List (ℤ × Text)
with_name n [] l = l
with_name n (c ∷ name) l = (pos n, c ∷ name) ∷ l

abbrev pub named : Store → ℕ → List (ℤ × Text)
named s zero = []
named s (suc n) = with_name n (s.inodes n).file_name (named s n)

-- The numbers below `n`, the highest first
abbrev pub below : ℕ → List ℤ
below zero = []
below (suc n) = pos n ∷ below n

-- The two lists of a log that the loop has reached at inode `n`
abbrev IsShown : Store → Log → ℕ → Log → Type 0
IsShown s log n after =
    (shown after ≡ named s n ++ shown log) × (nulls after ≡ below n ++ nulls log)

with_name-append :
    (n : ℕ) (name : Text) (l rest : List (ℤ × Text))
    → with_name n name (l ++ rest) ≡ with_name n name l ++ rest
with_name-append n [] l rest = refl
with_name-append n (c ∷ name) l rest = refl

log_name-shown :
    (i : ℕ) (name : Text) (log : Log) → shown (log_name i name log) ≡ with_name i name (shown log)
unfolding log_msg
log_name-shown i [] log = refl
log_name-shown i (c ∷ name) log = refl

log_name-nulls : (i : ℕ) (name : Text) (log : Log) → nulls (log_name i name log) ≡ pos i ∷ nulls log
unfolding log_msg
log_name-nulls i [] log = refl
log_name-nulls i (c ∷ name) log = refl

show_from-IsShown :
    (s : Store) (log : Log) (left i n : ℕ) (now : Log)
    → i + left ≡ n
    → n ≤ max_inodes
    → IsShown s log i now
    → Ensures (IsShown s log n) (show_from s left i now)
unfolding show_from
show_from-IsShown s log zero i n now end h done =
    let at_end : i ≡ n = omega (arith, end) in subst (λ k. IsShown s log k now) at_end done
show_from-IsShown s log (suc left) i n now end h (names, numbers) =
    let name = (s.inodes i).file_name in
    rw (lt→ltb i max_inodes (omega (arith, end))) (
      show_from-IsShown s log left (suc i) n (log_name i name now) (omega (arith, end)) h (
        log_name-shown i name now
            ∙ (ap (with_name i name) names ∙ with_name-append i name (named s i) (shown log)),
        log_name-nulls i name now ∙ ap (λ l. pos i ∷ l) numbers,
      ))

-- showInodeNames ends within the inode array. Of the first 64 inodes, whether in use or not, each that
-- has a name is logged once with its number and its name, in the order of the array, and each of the
-- 64, with or without a name, is logged once with its number alone.
pub show_inode_names_lem :
    (s : Store) (log : Log)
    → Ensures
        (λ after. (shown after ≡ named s 64 ++ shown log) × (nulls after ≡ below 64 ++ nulls log))
        (show_inode_names s log)
unfolding show_inode_names
show_inode_names_lem s log =
    show_from-IsShown s log 64 0 64 log (omega arith) (omega arith) (refl, refl)
