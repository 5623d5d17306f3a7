-- ===== src/Path/Parent.antt =====
-- What getRelativeParentName returns: a plain description of it, and its value on the paths that a
-- mounted file system is asked for.
use simpel_dateisystem.Base.{
  ℕ, suc, ◌+◌, ◌-◌, ◌<◌, ◌≤◌, ◌≡◌, ap, ◌⊎◌, inl, inr, Option, none, some, [], ◌∷◌, ◌++◌, arith,
  ◌==◌, Bool-cases, Option-cases, length, take, drop, lt→ltb, ==_iff, ◌∙◌, length-append,
  take-append,
}
use simpel_dateisystem.Base.Outcome.{Outcome, ok}
use simpel_dateisystem.Base.CString.{
  Text, slash, strrchr, copy_into, Without, strrchr-SplitsAt, strrchr-append,
}
use simpel_dateisystem.Store.{Grants, IsGranted}
use simpel_dateisystem.Path.{
  root_name, relative_name, parent_in, parent_of, get_relative_parent_name,
}

-- The last name of the path of a directory, or "/" where it has no slash.
abbrev pub directory_name : Text → Text
directory_name path = elim (strrchr path slash) [ some rest ↦ drop 1 rest | none ↦ root_name ]

-- The name of the parent, if the path has a slash.
abbrev pub parent_name : Text → Option Text
parent_name path = elim (strrchr path slash) [
  | some rest ↦ some (directory_name (take (length path - length rest) path))
  | none ↦ none
]

length-strrchr : (s : Text) (c : ℕ) {rest : Text} → strrchr s c ≡ some rest → 0 < length rest
length-strrchr s c e = let sp = strrchr-SplitsAt s c e in ground (arith, sp.rest_eq)

pub length-take-le : (n : ℕ) (s : Text) → length (take n s) ≤ n
length-take-le ℕ.zero s = omega arith
length-take-le (suc n) [] = omega arith
length-take-le (suc n) (x ∷ s) = omega (arith, length-take-le n s)

length-drop_one : (s : Text) → 0 < length s → length (drop 1 s) + 1 ≡ length s
length-drop_one [] h = elim h [ ]
length-drop_one (x ∷ s) h = omega arith

copy_into-ok : (n : ℕ) (s : Text) → length s < n → copy_into n s ≡ ok s
copy_into-ok n s h = rw (lt→ltb _ _ h)

-- The two outcomes of a call for a path: `NULL` for lack of memory, and `name`.
abbrev pub NullOr : Text → Outcome (Option Text) → Type 0
NullOr name r = (r ≡ ok none) ⊎ (r ≡ ok (some name))

parent_in-NullOr : (g : Grants) (t : Text) → NullOr (directory_name t) (parent_in g t)
unfolding parent_in
parent_in-NullOr g t = elim (Option-cases (strrchr t slash)) [
  | inl e ↦ ground (arith, e)
  | inr (rest, e) ↦
      let fits =
        copy_into-ok (length rest + 1) (drop 1 rest)
          (omega (arith, length-drop_one rest (length-strrchr t slash e))) in
      ground (arith, e, fits)
]

parent_in-granted :
    (g : Grants) (t : Text) → IsGranted g → parent_in g t ≡ ok (some (directory_name t))
unfolding parent_in
parent_in-granted g t w = elim (Option-cases (strrchr t slash)) [
  | inl e ↦ ground (arith, e)
  | inr (rest, e) ↦
      let fits =
        copy_into-ok (length rest + 1) (drop 1 rest)
          (omega (arith, length-drop_one rest (length-strrchr t slash e))) in
      ground (arith, e, fits)
]

-- The buffer for the path in front of the last slash is long enough.
front_fits :
    (path : Text) {rest : Text}
    → strrchr path slash ≡ some rest
    → copy_into (length path) (take (length path - length rest) path)
      ≡ ok (take (length path - length rest) path)
front_fits path {rest} e =
    let sp = strrchr-SplitsAt path slash e in
    copy_into-ok (length path) (take (length path - length rest) path) (
      omega (
        arith,
        length-take-le (length path - length rest) path,
        length-strrchr path slash e,
        ap length sp.whole,
        length-append sp.front rest,
      ))

parent_of-NullOr :
    (g : Grants) (path rest : Text)
    → strrchr path slash ≡ some rest
    → NullOr (directory_name (take (length path - length rest) path)) (parent_of g path rest)
unfolding parent_of
parent_of-NullOr g path rest e = elim (Bool-cases (length path - length rest == 0)) [
  | inl top ↦ let z : length path - length rest ≡ 0 = (==_iff _ _).0 top in rw z (ground arith)
  | inr deep ↦
      rw (deep, front_fits path e) (parent_in-NullOr g (take (length path - length rest) path))
]

parent_of-granted :
    (g : Grants) (path rest : Text)
    → strrchr path slash ≡ some rest
    → IsGranted g
    → parent_of g path rest ≡ ok (some (directory_name (take (length path - length rest) path)))
unfolding parent_of
parent_of-granted g path rest e w = elim (Bool-cases (length path - length rest == 0)) [
  | inl top ↦ let z : length path - length rest ≡ 0 = (==_iff _ _).0 top in rw z (ground arith)
  | inr deep ↦
      rw (deep, front_fits path e) (parent_in-granted g (take (length path - length rest) path) w)
]

-- Whatever memory there is, getRelativeParentName stays within its buffers: it returns the name that
-- `parent_name` describes, or NULL.
pub get_relative_parent_name_total :
    (g : Grants) (path : Text)
    → (get_relative_parent_name g (some path) ≡ ok none)
      ⊎ (get_relative_parent_name g (some path) ≡ ok (parent_name path))
unfolding get_relative_parent_name
get_relative_parent_name_total g path = elim (Option-cases (strrchr path slash)) [
  | inl e ↦ ground (arith, e)
  | inr (rest, e) ↦ ground (arith, e, parent_of-NullOr g path rest e)
]

-- With memory it returns the name that `parent_name` describes.
pub get_relative_parent_name-granted :
    (g : Grants) (path : Text)
    → IsGranted g
    → get_relative_parent_name g (some path) ≡ ok (parent_name path)
unfolding get_relative_parent_name
get_relative_parent_name-granted g path w = elim (Option-cases (strrchr path slash)) [
  | inl e ↦ ground (arith, e)
  | inr (rest, e) ↦ ground (arith, e, parent_of-granted g path rest e w)
]

take_front :
    (front back : Text) (c : ℕ)
    → take (length (front ++ (c ∷ back)) - length (c ∷ back)) (front ++ (c ∷ back)) ≡ front
take_front front back c =
    let k : length (front ++ (c ∷ back)) - length (c ∷ back) ≡ length front =
      omega (arith, length-append front (c ∷ back)) in
    rw k (take-append front (c ∷ back))

pub parent_name-append :
    (front name : Text)
    → Without slash name
    → parent_name (front ++ (slash ∷ name)) ≡ some (directory_name front)
parent_name-append front name h =
    rw (strrchr-append front slash name h, parent_name)
      (ap (λ t. some (directory_name t)) (take_front front name slash))

pub relative_name-append :
    (front name : Text) → Without slash name → relative_name (front ++ (slash ∷ name)) ≡ name
unfolding relative_name
relative_name-append front name h = rw (strrchr-append front slash name h, relative_name)

-- The last two names of a path, with memory and where the names have no slash: for `/.../directory/name` getRelativeParentName gives `directory`,
-- and create_inode and findFileOrDir go by `name`. For `/name` the first is "/".
pub path_names :
    (g : Grants) (front directory name : Text)
    → IsGranted g
    → Without slash directory
    → Without slash name
    → (get_relative_parent_name g (some ((front ++ (slash ∷ directory)) ++ (slash ∷ name)))
        ≡ ok (some directory))
      × (relative_name ((front ++ (slash ∷ directory)) ++ (slash ∷ name)) ≡ name)
      × (get_relative_parent_name g (some (slash ∷ name)) ≡ ok (some root_name))
      × (relative_name (slash ∷ name) ≡ name)
path_names g front directory name w d n = (
  get_relative_parent_name-granted g _ w
      ∙ ap ok (
          parent_name-append (front ++ (slash ∷ directory)) name n
          ∙ ap some (rw (strrchr-append front slash directory d, directory_name))),
  relative_name-append (front ++ (slash ∷ directory)) name n,
  get_relative_parent_name-granted g _ w ∙ ap ok (parent_name-append [] name n),
  relative_name-append [] name n,
)
