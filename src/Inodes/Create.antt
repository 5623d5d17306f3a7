-- ===== src/Inodes/Create.antt =====
-- create_inode: the store that it leaves, and that it stays within the array and its buffers.
use native.Mathlib.Decide.{ℕ_discrete, dec_lt}
use simpel_dateisystem.Base.{
  ℕ, zero, suc, ◌+◌, ◌-◌, ◌<◌, ◌≤◌, ◌≡◌, refl, ◌≢◌, inl, inr, ap, ◌∙◌, true, false, none, some, [],
  ◌∷◌, arith, ltb, ◌==◌, Bool-cases, Option-cases, update, lt→ltb, ==_iff, length, take,
}
use simpel_dateisystem.Base.Outcome.{ok, Ensures, Ensures-mono, Ensures-bind, Ensures-ok}
use simpel_dateisystem.Base.CString.{Text, str_eq, str_eq→≡}
use simpel_dateisystem.Knoten.{Pointer, max_inodes, max_blocks, name_size}
use simpel_dateisystem.Store.{Store, Env}
use simpel_dateisystem.Path.{root_name, relative_name, get_relative_parent_name}
use simpel_dateisystem.Path.Parent.{parent_name, get_relative_parent_name_total, length-take-le}
use simpel_dateisystem.Directory.Effects.{put, with_entry, add_to_direntry_lem}
use simpel_dateisystem.Inodes.{
  find_file_or_dir, find_parent, commit_inode, create_in, create_at, create_from, create_inode,
  flush_all_inodes_to_disk,
}
use simpel_dateisystem.Inodes.Find.{
  inode_count, IsHit, find_file_or_dir-IsHit, find_file_or_dir-root,
}
use simpel_dateisystem.Inodes.Flush.{OnlyWrites, flush_all-OnlyWrites}
use simpel_dateisystem.Inodes.Fill.{new_inode, fill_inode-ok}

-- The names that create_inode copies into the inode fit their buffers.
pub record Fits (path : Text) : Type 0 where
  pub name : length (relative_name path) < name_size
  pub parent : (d : Text) → parent_name path ≡ some d → length d < name_size

abbrev pub mark : Store → ℕ → ℕ → Store
mark s i b = record s { s_block = record (s.s_block) { ibmap = update s.s_block.ibmap i b } }

-- The store after add_to_direntry: inode `i` is an entry of `parent`, if that had a free one.
abbrev pub entered : Store → ℕ → ℕ → Store
entered s parent i = put s parent (with_entry (s.inodes parent) i)

unfoldable pub created_store : Env → Store → Text → Text → ℕ → ℕ → ℕ → Store
created_store env s path parent_dir parent mode i =
    let s1 = entered s parent i in
    mark (put s1 i (new_inode env s1 (relative_name path) parent_dir parent mode i)) i 1

-- A pointer into the array, or NULL.
abbrev pub InArray : Pointer → Type 0
InArray none = Unit
InArray (some p) = p < max_inodes

IsHit→InArray :
    (s : Store) (path : Text) (n : ℕ) (r : Pointer) → n ≤ max_inodes → IsHit s path n r → InArray r
IsHit→InArray s path n none h k = tt
IsHit→InArray s path n (some p) h k = omega arith

pub find_file_or_dir-InArray :
    (env : Env) (s : Store) (path : Text)
    → inode_count s ≤ max_inodes
    → Ensures InArray (find_file_or_dir env s path)
find_file_or_dir-InArray env s path h = elim (Bool-cases (str_eq path root_name)) [
  | inl e ↦ rw (str_eq→≡ path root_name e) root_case
  | inr e ↦
      Ensures-mono (IsHit s path (inode_count s)) InArray (find_file_or_dir env s path)
        (find_file_or_dir-IsHit env s path h
          (λ q. let t : str_eq path root_name ≡ true = rw q refl in cc))
        (λ r hit. IsHit→InArray s path (inode_count s) r h hit)
]
  where
    root_case : Ensures InArray (find_file_or_dir env s root_name)
    root_case = rw (find_file_or_dir-root env s) (omega arith)

nonempty : (path : Text) {d : Text} → parent_name path ≡ some d → 0 < length path
nonempty [] e = cc
nonempty (c ∷ path) e = omega arith

-- The buffer for the absolute path of the parent is long enough.
pub parent_path_fits :
    (path : Text) {d : Text}
    → parent_name path ≡ some d
    → ltb (length (take (length path - length (relative_name path) - 1) path)) (length path) ≡ true
parent_path_fits path e =
    let n = length path - length (relative_name path) - 1 in
    lt→ltb _ _ (omega (arith, length-take-le n path, nonempty path e))

pub find_parent-InArray :
    (env : Env) (s : Store) (path d : Text)
    → inode_count s ≤ max_inodes
    → parent_name path ≡ some d
    → Ensures InArray (find_parent env s path d)
unfolding find_parent
find_parent-InArray env s path d h named = elim (Bool-cases (str_eq d root_name)) [
  | inl top ↦ rw top (omega arith)
  | inr deep ↦ elim (Bool-cases env.path) [
    | inl room ↦
        rw (deep, parent_path_fits path named) (simp room (find_file_or_dir-InArray env s _ h))
    | inr full ↦ rw deep (simp full tt)
  ]
]

module _ (env : Env) (s : Store) (path parent_dir : Text) (parent mode i : ℕ) where
  abbrev IsCommitted : Pointer × Store → Type 0
  IsCommitted r =
      (r.0 ≡ some i) × OnlyWrites (created_store env s path parent_dir parent mode i) r.1

  create_in-IsCommitted :
      inode_count s ≤ max_inodes
      → i < max_inodes
      → parent < max_inodes
      → length (relative_name path) < name_size
      → length parent_dir < name_size
      → Ensures IsCommitted (create_in env s path parent_dir (some parent) mode i)
  unfolding create_in commit_inode created_store
  create_in-IsCommitted h hi hp hn hd =
      let s1 = entered s parent i in
      let s2 = put s1 i (new_inode env s1 (relative_name path) parent_dir parent mode i) in
      rw
        (
          add_to_direntry_lem s parent i hp,
          fill_inode-ok env s1 (relative_name path) parent_dir parent mode i hi hp hn hd,
          lt→ltb i max_blocks (omega arith),
        )
        (Ensures-bind (λ r. (r.0 ≡ true) × OnlyWrites (mark s2 i 1) r.1) IsCommitted
          (flush_all_inodes_to_disk env (mark s2 i 1) false) _
          (flush_all-OnlyWrites env (mark s2 i 1) h) λ r done. (refl, done.1))

-- What a call of create_inode that returned the new inode `i` has done: `i` is the first inode from 1
-- on that is not in use, and the inode that the path's parent was found at has it as an entry, if that
-- had a free one; the entries of a full directory stay as they are.
pub record IsCreatedAt (env : Env) (s : Store) (path : Text) (mode i : ℕ) (t : Store) : Type 0 where
  pub parent_dir : Text
  pub parent : ℕ
  pub named : parent_name path ≡ some parent_dir
  pub found : find_parent env s path parent_dir ≡ ok (some parent)
  pub parent_in : parent < max_inodes
  pub ne_root : 0 < i
  pub counted : i < inode_count s
  pub free : s.s_block.ibmap i ≢ 1
  pub taken : (j : ℕ) → 0 < j → j < i → s.s_block.ibmap j ≡ 1
  pub store : OnlyWrites (created_store env s path parent_dir parent mode i) t

-- Why a call of create_inode returned NULL: each inode but the root is in use, the path's parent has
-- no name or there is no memory for it, or the parent is not found.
pub data Refused (env : Env) (s : Store) (path : Text) : Type 0 where
  all_used : ((j : ℕ) → 0 < j → j < inode_count s → s.s_block.ibmap j ≡ 1) → Refused env s path
  no_name : get_relative_parent_name env.parent (some path) ≡ ok none → Refused env s path
  no_parent :
      (d : Text)
      → parent_name path ≡ some d
      → find_parent env s path d ≡ ok none
      → Refused env s path

abbrev pub IsCreated : Env → Store → Text → ℕ → Pointer × Store → Type 0
IsCreated env s path mode (none, t) = (t ≡ s) × Refused env s path
IsCreated env s path mode (some i, t) = IsCreatedAt env s path mode i t

module _ (env : Env) (s : Store) (path : Text) (mode : ℕ) (h : inode_count s ≤ max_inodes)
    (fits : Fits path) where
  create_found :
      (i : ℕ) (d : Text) (r : Pointer)
      → parent_name path ≡ some d
      → find_parent env s path d ≡ ok r
      → InArray r
      → 0 < i
      → i < inode_count s
      → s.s_block.ibmap i ≢ 1
      → ((j : ℕ) → 0 < j → j < i → s.s_block.ibmap j ≡ 1)
      → Ensures (IsCreated env s path mode) (create_in env s path d r mode i)
  unfolding create_in
  create_found i d none named found arr h0 hi free taken = (refl, no_parent d named found)
  create_found i d (some p) named found arr h0 hi free taken =
      Ensures-mono (IsCommitted env s path d p mode i) (IsCreated env s path mode)
        (create_in env s path d (some p) mode i)
        (create_in-IsCommitted env s path d p mode i h (omega arith) arr fits.name
          (fits.parent d named))
        λ (q, t) (e, only). rw e (record {
          parent_dir = d;
          parent = p;
          named = named;
          found = found;
          parent_in = arr;
          ne_root = h0;
          counted = hi;
          free = free;
          taken = taken;
          store = only;
        })

  create_at-IsCreated :
      (i : ℕ)
      → 0 < i
      → i < inode_count s
      → s.s_block.ibmap i ≢ 1
      → ((j : ℕ) → 0 < j → j < i → s.s_block.ibmap j ≡ 1)
      → Ensures (IsCreated env s path mode) (create_at env s path mode i)
  unfolding create_at
  create_at-IsCreated i h0 hi free taken = elim (get_relative_parent_name_total env.parent path) [
    | inl r ↦ rw r (refl, no_name r)
    | inr r ↦ elim (Option-cases (parent_name path)) [
      | inl e ↦ rw (r, e) (refl, no_name (r ∙ ap ok e))
      | inr (d, e) ↦
          let (q, found, arr) =
            Ensures-ok InArray (find_parent env s path d) (find_parent-InArray env s path d h e) in
          rw (r, e, found) (create_found i d q e found arr h0 hi free taken)
    ]
  ]

  create_from-IsCreated :
      (left i : ℕ)
      → 0 < i
      → i + left ≡ inode_count s
      → ((j : ℕ) → 0 < j → j < i → s.s_block.ibmap j ≡ 1)
      → Ensures (IsCreated env s path mode) (create_from env s path mode left i)
  unfolding create_from
  create_from-IsCreated zero i h0 hi taken =
      (refl, all_used λ j lo up. taken j lo (omega (arith, hi, up)))
  create_from-IsCreated (suc left) i h0 hi taken = elim (Bool-cases (s.s_block.ibmap i == 1)) [
    | inl used ↦
        rw (lt→ltb i max_blocks (omega arith), used)
          (create_from-IsCreated left (suc i) (omega arith) (omega arith) λ j lo hi'.
            elim (ℕ_discrete j i) [
              | yes e ↦ rw e ((==_iff _ _).0 used)
              | no ne ↦ taken j lo (omega arith)
            ])
    | inr free ↦
        rw (lt→ltb i max_blocks (omega arith), free)
          (create_at-IsCreated i h0 (omega arith) (λ e. ground (arith, e)) taken)
  ]

  -- create_inode on names that fit their buffers, where no more than 100 inodes are counted: it ends,
  -- without leaving an array, either with NULL, the store as it was and one of the reasons of
  -- `Refused`, or with a new inode as `IsCreatedAt` describes, which is entered in its parent only if
  -- that had a free entry.
  pub create_inode-IsCreated : Ensures (IsCreated env s path mode) (create_inode env s path mode)
  unfolding create_inode create_from
  create_inode-IsCreated = elim (dec_lt 0 (inode_count s)) [
    | yes some_inode ↦
        create_from-IsCreated (inode_count s - 1) 1 (omega arith) (omega arith)
          (λ j lo hi. absurd (omega arith))
    | no empty ↦
        let n : inode_count s - 1 ≡ 0 = omega arith in
        rw n (refl, all_used λ j lo up. absurd (omega (arith, up, empty)))
  ]
