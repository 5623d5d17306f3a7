-- ===== src/Inodes/Find.antt =====
-- findFileOrDir: it ends within the array, and with memory it returns the first inode that bears the
-- last two names of the path.
use simpel_dateisystem.Base.{
  ℕ, zero, suc, ◌+◌, ◌-◌, ◌<◌, ◌≤◌, ◌≡◌, refl, sym, ◌≢◌, inl, inr, ap, ◌∙◌, Bool, true, false, none,
  some, ◌&&◌, arith, Bool-cases, Option-cases, pos_part, lt→ltb, drop,
}
use mathlib.Core.Path.{subst, ap₂}
use native.Mathlib.Nat.{zero-add}
use native.Mathlib.Decide.{ℕ_discrete, dec_lt}
use simpel_dateisystem.Base.Outcome.{ok, Ensures, Ensures-mono}
use simpel_dateisystem.Base.CString.{
  Text, str_eq, str_eq→≡, strrchr, slash, Without, strrchr-SplitsAt,
}
use simpel_dateisystem.Knoten.{FileControlBlock, Pointer, max_inodes}
use simpel_dateisystem.Store.{Store, Env, HasMemory}
use simpel_dateisystem.Path.{root_name, relative_name}
use simpel_dateisystem.Path.Parent.{
  parent_name, get_relative_parent_name_total, get_relative_parent_name-granted,
}
use simpel_dateisystem.Inodes.{has_parent_name, is_file_at, find_from, find_file_or_dir, rounds}

-- The inode bears the last name of the path, and its parent's name is the name in front of that.
abbrev pub Bears : FileControlBlock → Text → Type 0
Bears f path =
    (str_eq f.file_name (relative_name path) && has_parent_name f (parent_name path)) ≡ true

pub is_file_at_total :
    (env : Env) (f : FileControlBlock) (path : Text) (x : ℕ)
    → (b : Bool) × (is_file_at env f path x ≡ ok b)
      × (b ≡ true → str_eq f.file_name (relative_name path) ≡ true)
unfolding is_file_at
is_file_at_total env f path x = elim (Bool-cases (str_eq f.file_name (relative_name path))) [
  | inl e ↦ elim (get_relative_parent_name_total (env.find x) path) [
    | inl r ↦ (true, rw (e, r), λ _. e)
    | inr r ↦ (has_parent_name f (parent_name path), rw (e, r), λ _. e)
  ]
  | inr e ↦ (false, rw e, λ h. cc)
]

pub is_file_at-granted :
    (env : Env) (f : FileControlBlock) (path : Text) (x : ℕ)
    → HasMemory env
    → is_file_at env f path x
      ≡ ok (str_eq f.file_name (relative_name path) && has_parent_name f (parent_name path))
unfolding is_file_at
is_file_at-granted env f path x m =
    ground (arith, get_relative_parent_name-granted (env.find x) path (m.find x))

-- What a search that may lack memory has found: an inode below `n` with the last name of the path.
abbrev pub IsHit : Store → Text → ℕ → Pointer → Type 0
IsHit s path n none = Unit
IsHit s path n (some x) = (x < n) × (str_eq (s.inodes x).file_name (relative_name path) ≡ true)

pub find_from-IsHit :
    (env : Env) (s : Store) (path : Text) (left x : ℕ)
    → x + left ≤ max_inodes
    → Ensures (IsHit s path (x + left)) (find_from env s path left x)
unfolding find_from
find_from-IsHit env s path zero x h = tt
find_from-IsHit env s path (suc left) x h =
    let (b, e, hit) = is_file_at_total env (s.inodes x) path x in
    rw (lt→ltb x max_inodes (omega arith), e)
      (elim (Bool-cases b) [
        | inl t ↦ rw t (omega arith, hit t)
        | inr f ↦ rw f (
            let again : x + suc left ≡ suc x + left = omega arith in
            rw again (find_from-IsHit env s path left (suc x) (omega arith)))
      ])

-- What a search has found among the inodes from `from` on: the first that bears the names.
abbrev pub IsFirst : Store → Text → ℕ → ℕ → Pointer → Type 0
IsFirst s path from n none = (x : ℕ) → from ≤ x → x < n → ¬ Bears (s.inodes x) path
IsFirst s path from n (some x) =
    (from ≤ x)
    × (x < n)
    × Bears (s.inodes x) path
    × ((y : ℕ) → from ≤ y → y < x → ¬ Bears (s.inodes y) path)

IsFirst-step :
    (s : Store) (path : Text) (from n : ℕ) (r : Pointer)
    → ¬ Bears (s.inodes from) path
    → IsFirst s path (suc from) n r
    → IsFirst s path from n r
IsFirst-step s path from n none miss h =
    λ x lo hi. elim (ℕ_discrete from x) [ yes e ↦ rw e at miss | no ne ↦ h x (omega arith) hi ]
IsFirst-step s path from n (some x) miss (lo, hi, hit, before) = (
  omega arith,
  hi,
  hit,
  λ y lo' hi'. elim (ℕ_discrete from y) [
    | yes e ↦ rw e at miss
    | no ne ↦ before y (omega arith) hi'
  ],
)

pub find_from-IsFirst :
    (env : Env) (s : Store) (path : Text) (left x : ℕ)
    → HasMemory env
    → x + left ≤ max_inodes
    → Ensures (IsFirst s path x (x + left)) (find_from env s path left x)
unfolding find_from
find_from-IsFirst env s path zero x m h = λ y lo hi. absurd (omega arith)
find_from-IsFirst env s path (suc left) x m h =
    rw (lt→ltb x max_inodes (omega arith), is_file_at-granted env (s.inodes x) path x m)
      (elim (Bool-cases (
        str_eq (s.inodes x).file_name (relative_name path)
        && has_parent_name (s.inodes x) (parent_name path))) [
          | inl t ↦ rw t (omega arith, omega arith, t, λ y lo hi. absurd (omega arith))
          | inr f ↦ rw f (
              let again : x + suc left ≡ suc x + left = omega arith in
              rw again (
                Ensures-mono _ _ (find_from env s path left (suc x))
                  (find_from-IsFirst env s path left (suc x) m (omega arith))
                  (λ r found. IsFirst-step s path x (suc x + left) r (λ t. cc) found)))
        ])

pub IsFirst-unique :
    (s : Store) (path : Text) (from n : ℕ) (p q : Pointer)
    → IsFirst s path from n p
    → IsFirst s path from n q
    → p ≡ q
IsFirst-unique s path from n none none h k = refl
IsFirst-unique s path from n none (some y) h k = absurd (h y k.0 k.1 k.2)
IsFirst-unique s path from n (some x) none h k = absurd (k x h.0 h.1 h.2)
IsFirst-unique s path from n (some x) (some y) h k = elim (dec_lt x y) [
  | yes lt ↦ absurd (k.3 x h.0 lt h.2)
  | no ge ↦ elim (dec_lt y x) [ yes gt ↦ absurd (h.3 y k.0 gt k.2) | no le ↦ ap some (omega arith) ]
]

Without-drop : (s : Text) (c : ℕ) {rest : Text} → strrchr s c ≡ some rest → Without c (drop 1 rest)
Without-drop s c e = let sp = strrchr-SplitsAt s c e in rw sp.rest_eq sp.last

pub Without-relative_name : (path : Text) → Without slash (relative_name path)
unfolding relative_name
Without-relative_name path = elim (Option-cases (strrchr path slash)) [
  | inl e ↦ rw (e, relative_name) e
  | inr (rest, e) ↦ rw (e, relative_name) (Without-drop path slash e)
]

-- No path has "/" for its last name, so the root is found by the path "/" alone.
pub relative_name-ne-root : (path : Text) → relative_name path ≢ root_name
relative_name-ne-root path e =
    let none_in_root = subst (Without slash) e (Without-relative_name path) in cc none_in_root

-- The number of inodes that the superblock speaks of
abbrev pub inode_count : Store → ℕ
inode_count s = pos_part s.s_block.num_inodes

-- findFileOrDir on another path than "/", where no more than 100 inodes are counted: with memory the
-- result is the first inode, in the order of
-- the array, that bears the path's last two names, and NULL exactly if there is none.
pub find_file_or_dir-IsFirst :
    (env : Env) (s : Store) (path : Text)
    → HasMemory env
    → inode_count s ≤ max_inodes
    → path ≢ root_name
    → Ensures (IsFirst s path 0 (inode_count s)) (find_file_or_dir env s path)
unfolding find_file_or_dir
find_file_or_dir-IsFirst env s path m h ne = elim (Bool-cases (str_eq path root_name)) [
  | inl e ↦ absurd (ne (str_eq→≡ path root_name e))
  | inr e ↦ rw e (
      let n : inode_count s - 0 ≡ inode_count s = omega arith in
      rw n (rw zero-add at (find_from-IsFirst env s path (inode_count s) 0 m (omega arith))))
]

-- Whatever memory there is, findFileOrDir reads within the array.
pub find_file_or_dir-IsHit :
    (env : Env) (s : Store) (path : Text)
    → inode_count s ≤ max_inodes
    → path ≢ root_name
    → Ensures (IsHit s path (inode_count s)) (find_file_or_dir env s path)
unfolding find_file_or_dir
find_file_or_dir-IsHit env s path h ne = elim (Bool-cases (str_eq path root_name)) [
  | inl e ↦ absurd (ne (str_eq→≡ path root_name e))
  | inr e ↦ rw e (
      let n : inode_count s - 0 ≡ inode_count s = omega arith in
      rw n (rw zero-add at (find_from-IsHit env s path (inode_count s) 0 (omega arith))))
]

pub find_file_or_dir-root : (env : Env) (s : Store) → find_file_or_dir env s root_name ≡ ok (some 0)
unfolding find_file_or_dir
find_file_or_dir-root env s = refl

is_file_at-names :
    (env : Env) (p q : Text) (x : ℕ)
    → HasMemory env
    → relative_name p ≡ relative_name q
    → parent_name p ≡ parent_name q
    → (f : FileControlBlock) → is_file_at env f p x ≡ is_file_at env f q x
is_file_at-names env p q x m e d f =
    is_file_at-granted env f p x m
    ∙ ap₂ (λ n o. ok (str_eq f.file_name n && has_parent_name f o)) e d
    ∙ sym (is_file_at-granted env f q x m)

find_from-names :
    (env : Env) (s : Store) (p q : Text) (left x : ℕ)
    → HasMemory env
    → relative_name p ≡ relative_name q
    → parent_name p ≡ parent_name q
    → find_from env s p left x ≡ find_from env s q left x
unfolding find_from
find_from-names env s p q zero x m e d = refl
find_from-names env s p q (suc left) x m e d =
    simp (is_file_at-names env p q x m e d, find_from-names env s p q left (suc x) m e d)

-- With memory, of a path other than "/" findFileOrDir uses the last two names only: two paths that agree in these
-- lead to the same inode, wherever in the tree they stand.
pub find_file_or_dir-names :
    (env : Env) (s : Store) (p q : Text)
    → HasMemory env
    → p ≢ root_name
    → q ≢ root_name
    → relative_name p ≡ relative_name q
    → parent_name p ≡ parent_name q
    → find_file_or_dir env s p ≡ find_file_or_dir env s q
unfolding find_file_or_dir
find_file_or_dir-names env s p q m hp hq e d =
    let p_root : str_eq p root_name ≡ false = ground (arith, str_eq→≡ p root_name) in
    let q_root : str_eq q root_name ≡ false = ground (arith, str_eq→≡ q root_name) in
    rw (p_root, q_root) (find_from-names env s p q (rounds 0 s.s_block.num_inodes) 0 m e d)
