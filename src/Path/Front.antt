-- ===== src/Path/Front.antt =====
-- The path of the parent that create_inode of src/DateiSteuerBlock.c copies out of the path of a new
-- file, against the name that getRelativeParentName gives the parent.
use simpel_dateisystem.Base.{
  ◌-◌, ◌≡◌, refl, sym, ◌≢◌, ap, ◌∙◌, inl, inr, some, arith, length, take, drop, Option-cases,
}
use simpel_dateisystem.Base.CString.{Text, slash, strrchr, strrchr-SplitsAt}
use simpel_dateisystem.Path.{root_name, relative_name}
use simpel_dateisystem.Path.Parent.{directory_name, parent_name}

-- The path of a file up to its last slash
abbrev pub front_path : Text → Text
front_path path = take (length path - length (relative_name path) - 1) path

relative_name-directory :
    (t : Text) → directory_name t ≢ root_name → relative_name t ≡ directory_name t
unfolding relative_name
relative_name-directory t ne = elim (Option-cases (strrchr t slash)) [
  | inl e ↦ absurd (ne (rw (e, directory_name) refl))
  | inr (rest, e) ↦ rw (e, directory_name, relative_name) refl
]

front_path-rest :
    (path : Text) {rest : Text}
    → strrchr path slash ≡ some rest
    → front_path path ≡ take (length path - length rest) path
unfolding relative_name
front_path-rest path {rest} e =
    let sp = strrchr-SplitsAt path slash e in
    let n : length path - length (drop 1 rest) - 1 ≡ length path - length rest =
      rw sp.rest_eq (omega arith) in
    let last : relative_name path ≡ drop 1 rest = rw (e, relative_name) refl in
    ap (λ r. take (length path - length r - 1) path) last ∙ ap (λ k. take k path) n

-- The path of the parent has the parent's name as its last.
pub relative_name-front :
    (path : Text) {d : Text}
    → parent_name path ≡ some d
    → d ≢ root_name
    → relative_name (front_path path) ≡ d
relative_name-front path {d} named ne = elim (Option-cases (strrchr path slash)) [
  | inl e ↦ absurd (ground (arith, e, named))
  | inr (rest, e) ↦
      let is_d : directory_name (take (length path - length rest) path) ≡ d =
        ground (arith, e, named) in
      ap relative_name (front_path-rest path e)
      ∙ relative_name-directory (take (length path - length rest) path) (λ q. ne (sym is_d ∙ q))
      ∙ is_d
]
