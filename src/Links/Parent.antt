-- ===== src/Links/Parent.antt =====
-- The parent that create_inode of src/DateiSteuerBlock.c finds for a new file.
use simpel_dateisystem.Base.{
  ℕ, pos, ◌<◌, ◌≤◌, ◌≡◌, refl, sym, ◌≢◌, ◌⊎◌, inl, inr, ap, ◌∙◌, none, some, [], Bool-cases, true,
}
use simpel_dateisystem.Base.Outcome.{Ensures, Ensures-mono}
use simpel_dateisystem.Base.CString.{Text, str_eq, str_eq→≡}
use simpel_dateisystem.Knoten.{Pointer, max_inodes}
use simpel_dateisystem.Store.{Store, Env}
use simpel_dateisystem.Path.{root_name, relative_name}
use simpel_dateisystem.Path.Parent.{parent_name}
use simpel_dateisystem.Path.Front.{front_path, relative_name-front}
use simpel_dateisystem.Inodes.{find_file_or_dir, find_parent}
use simpel_dateisystem.Inodes.Find.{
  inode_count, IsHit, find_file_or_dir-IsHit, find_file_or_dir-root,
}
use simpel_dateisystem.Inodes.Create.{parent_path_fits}
use simpel_dateisystem.Links.{IsLinked}

-- The path of a new file names its parent: it is no path as "/x//y".
abbrev pub NamesParent : Text → Type 0
NamesParent path = parent_name path ≢ some []

-- The inode is the root, or bears a name.
abbrev pub IsKnown : Store → Pointer → Type 0
IsKnown s none = Unit
IsKnown s (some p) = (p ≡ 0) ⊎ ((s.inodes p).file_name ≢ [])

searched-IsKnown :
    (env : Env) (s : Store) (path d : Text)
    → inode_count s ≤ max_inodes
    → relative_name path ≡ d
    → d ≢ []
    → Ensures (IsKnown s) (find_file_or_dir env s path)
searched-IsKnown env s path d h last ne = elim (Bool-cases (str_eq path root_name)) [
  | inl e ↦ rw (str_eq→≡ path root_name e, find_file_or_dir-root env s) (inl refl)
  | inr e ↦
      Ensures-mono (IsHit s path (inode_count s)) (IsKnown s) (find_file_or_dir env s path)
        (find_file_or_dir-IsHit env s path h
          (λ q. let t : str_eq path root_name ≡ true = rw q refl in cc))
        (known last)
]
  where
    known : relative_name path ≡ d → (r : Pointer) → IsHit s path (inode_count s) r → IsKnown s r
    known last none hit = tt
    known last (some p) (hp, name) = inr λ q. ne (sym (sym q ∙ str_eq→≡ _ _ name ∙ last))

pub find_parent-IsKnown :
    (env : Env) (s : Store) (path d : Text)
    → inode_count s ≤ max_inodes
    → parent_name path ≡ some d
    → d ≢ []
    → Ensures (IsKnown s) (find_parent env s path d)
unfolding find_parent
find_parent-IsKnown env s path d h named ne = elim (Bool-cases (str_eq d root_name)) [
  | inl top ↦ rw top (inl refl)
  | inr deep ↦ elim (Bool-cases env.path) [
    | inl room ↦
        let other : d ≢ root_name = λ q. let t : str_eq d root_name ≡ true = rw q refl in cc in
        rw (deep, parent_path_fits path named)
          (simp room (
            searched-IsKnown env s (front_path path) d h (relative_name-front path named other) ne))
    | inr full ↦ rw deep (simp full tt)
  ]
]

-- A parent that is the root or bears a name has its own number.
pub IsKnown-number :
    (s : Store) (p : ℕ)
    → IsLinked s
    → p < max_inodes
    → IsKnown s (some p)
    → (s.inodes p).inumber ≡ pos p
IsKnown-number s p linked hp known = elim (linked.numbered p hp) [
  | inl own ↦ own
  | inr (none_yet, no_name) ↦ elim known [
    | inl root ↦ none_yet ∙ ap pos (sym root)
    | inr named ↦ absurd (named no_name)
  ]
]
