-- ===== src/Inodes/Created.antt =====
-- After create_inode: the invariant, what has changed, and that the new inode is found by its path.
use mathlib.Core.Path.{subst, ap₂}
use native.Mathlib.Decide.{ℕ_discrete, dec_lt}
use simpel_dateisystem.Base.{
  ℕ, ◌<◌, ◌≤◌, ◌≡◌, refl, sym, ◌≢◌, inl, inr, ap, ◌∙◌, Option, none, some, ◌&&◌, arith, ◌==◌,
  Bool-cases, ==_iff, ==_false,
}
use simpel_dateisystem.Base.Outcome.{ok, Ensures, Ensures-mono, Ensures-ok}
use simpel_dateisystem.Base.CString.{Text, str_eq, str_eq_self}
use simpel_dateisystem.Knoten.{FileControlBlock, Pointer, max_inodes}
use simpel_dateisystem.Store.{Store, Env, HasMemory}
use simpel_dateisystem.Path.{root_name, relative_name}
use simpel_dateisystem.Path.Parent.{parent_name}
use simpel_dateisystem.Directory.Effects.{put, with_entry}
use simpel_dateisystem.Inodes.{has_parent_name, find_file_or_dir, create_inode}
use simpel_dateisystem.Inodes.Find.{inode_count, Bears, IsFirst, find_file_or_dir-IsFirst}
use simpel_dateisystem.Inodes.Safe.{
  IsIndex, IsSafe, layout_of, IsSafe-put, IsSafe-same, to_short-IsIndex, with_entry-fields,
  with_entry-IsSound,
}
use simpel_dateisystem.Inodes.Flush.{OnlyWrites}
use simpel_dateisystem.Inodes.Fill.{parent_number, new_inode}
use simpel_dateisystem.Inodes.Create.{
  Fits, entered, created_store, IsCreated, IsCreatedAt, create_inode-IsCreated,
}

pub OnlyWrites-IsSafe : (s t : Store) → OnlyWrites s t → IsSafe s → IsSafe t
OnlyWrites-IsSafe s t e v = IsSafe-same (ap (λ (r : Store). r.inodes) e) (ap layout_of e) v

pub entered-IsSafe :
    (s : Store) (parent i : ℕ)
    → IsSafe s
    → parent < max_inodes
    → i < max_inodes
    → IsSafe (entered s parent i)
entered-IsSafe s parent i v hp hi =
    let f = s.inodes parent in
    let (_, name, number, _) = with_entry-fields f i in
    IsSafe-put s parent (with_entry f i) v (with_entry-IsSound f i (v.inode parent hp) hi)
      (λ e. name ∙ ap (λ k. (s.inodes k).file_name) e ∙ v.root)
      (λ h. rw number (v.parent parent h hp))

module _ (env : Env) (s : Store) (name dir : Text) (parent mode i : ℕ) where
  parent_number-IsIndex :
      IsSafe s → parent < max_inodes → i < max_inodes → IsIndex (parent_number s parent i)
  parent_number-IsIndex v hp hi = elim (Bool-cases (parent == i)) [
    | inl e ↦ rw e (to_short-IsIndex i hi)
    | inr e ↦ rw e ((v.inode parent hp).inumber)
  ]

  new_inode-IsSafe :
      IsSafe s
      → parent < max_inodes
      → i < max_inodes
      → 0 < i
      → IsSafe (put s i (new_inode env s name dir parent mode i))
  unfolding new_inode
  new_inode-IsSafe v hp hi h0 =
      IsSafe-put s i (new_inode env s name dir parent mode i) v
        (record {
          inumber = to_short-IsIndex i hi;
          entries = (v.inode i hi).entries;
          fills = (v.inode i hi).fills;
        })
        (λ e. absurd (omega arith)) (λ _. parent_number-IsIndex v hp hi)

created_store-IsSafe :
    (env : Env) (s : Store) (path dir : Text) (parent mode i : ℕ)
    → IsSafe s
    → parent < max_inodes
    → i < max_inodes
    → 0 < i
    → IsSafe (created_store env s path dir parent mode i)
unfolding created_store
created_store-IsSafe env s path dir parent mode i v hp hi h0 = IsSafe-same refl refl (
    new_inode-IsSafe env (entered s parent i) (relative_name path) dir parent mode i
      (entered-IsSafe s parent i v hp hi) hp hi h0)

created-IsSafe :
    (env : Env) (s : Store) (path : Text) (mode : ℕ) (r : Pointer × Store)
    → IsSafe s
    → IsCreated env s path mode r
    → IsSafe r.1
created-IsSafe env s path mode (none, t) v (e, _) = rw e v
created-IsSafe env s path mode (some i, t) v c =
    OnlyWrites-IsSafe (created_store env s path c.parent_dir c.parent mode i) t c.store (
      created_store-IsSafe env s path c.parent_dir c.parent mode i v c.parent_in
        (omega (arith, c.counted, v.count)) c.ne_root)

-- create_inode on names that fit their buffers ends without leaving an array and keeps the invariant
-- `IsSafe`, whether it makes an inode or not.
pub create_inode-IsSafe :
    (env : Env) (s : Store) (path : Text) (mode : ℕ)
    → IsSafe s
    → Fits path
    → Ensures (λ r. IsSafe r.1) (create_inode env s path mode)
create_inode-IsSafe env s path mode v fits =
    Ensures-mono (IsCreated env s path mode) _ (create_inode env s path mode)
      (create_inode-IsCreated env s path mode v.count fits)
      (λ r c. created-IsSafe env s path mode r v c)

pub has_parent_name-same :
    (f g : FileControlBlock) (o : Option Text)
    → f.parent_dir ≡ g.parent_dir
    → has_parent_name f o ≡ has_parent_name g o
has_parent_name-same f g none e = refl
has_parent_name-same f g (some n) e = ap (λ d. str_eq d n) e

module _ {env : Env} {s t : Store} {path : Text} {mode i : ℕ}
    (c : IsCreatedAt env s path mode i t) where
  pub created_inodes : t.inodes ≡ (created_store env s path c.parent_dir c.parent mode i).inodes
  created_inodes = ap (λ (r : Store). r.inodes) c.store

  -- The names of every other inode are as before.
  pub created_others :
      (k : ℕ)
      → k ≢ i
      → ((t.inodes k).file_name ≡ (s.inodes k).file_name)
        × ((t.inodes k).parent_dir ≡ (s.inodes k).parent_dir)
  unfolding created_store
  created_others k ne =
      let fields = with_entry-fields (s.inodes c.parent) i in
      rw (created_inodes, ==_false k i ne) (ground (arith, fields))

  pub created_names :
      ((t.inodes i).file_name ≡ relative_name path) × ((t.inodes i).parent_dir ≡ c.parent_dir)
  unfolding created_store new_inode
  created_names = rw (created_inodes, (==_iff i i).1 refl) (refl, refl)

  pub created_count : inode_count t ≡ inode_count s
  unfolding created_store
  created_count = ap (λ (r : Store). inode_count r) c.store

  pub created_Bears : Bears (t.inodes i) path
  created_Bears =
      rw (c.named, has_parent_name, created_names.0, created_names.1)
        (rw (str_eq_self (relative_name path), str_eq_self c.parent_dir))

  -- An inode other than the new one bears a path's names after the call only if it did before.
  pub created_Bears-others :
      (q : Text) (k : ℕ) → k ≢ i → Bears (t.inodes k) q → Bears (s.inodes k) q
  created_Bears-others q k ne b =
      let (name, dir) = created_others k ne in
      ap₂ (λ n p. str_eq n (relative_name q) && p) (sym name)
        (sym (has_parent_name-same (t.inodes k) (s.inodes k) (parent_name q) dir))
      ∙ b

  -- An inode that bore a path's names before the call still does.
  Bears-created_others : (q : Text) (k : ℕ) → k ≢ i → Bears (s.inodes k) q → Bears (t.inodes k) q
  Bears-created_others q k ne b =
      let (name, dir) = created_others k ne in
      ap₂ (λ n p. str_eq n (relative_name q) && p) name
        (has_parent_name-same (t.inodes k) (s.inodes k) (parent_name q) dir)
      ∙ b

  pub created_mark : t.s_block.ibmap i ≡ 1
  unfolding created_store
  created_mark = ap (λ (r : Store). r.s_block.ibmap i) c.store ∙ rw ((==_iff i i).1 refl)

  found_after_create :
      (r : Pointer)
      → IsFirst t path 0 (inode_count t) r
      → (x : ℕ) × (r ≡ some x)
        × (x ≤ i)
        × (((j : ℕ) → j < i → ¬ Bears (s.inodes j) path) → x ≡ i)
        × ((j : ℕ) → j < i → Bears (s.inodes j) path → x ≤ j)
  found_after_create none first =
      absurd (first i (omega arith) (rw created_count c.counted) created_Bears)
  found_after_create (some x) (lo, hi, hit, before) = elim (dec_lt i x) [
    | yes lt ↦ absurd (before i (omega arith) lt created_Bears)
    | no ge ↦ (
      x,
      refl,
      omega arith,
      λ fresh. elim (ℕ_discrete x i) [
        | yes e ↦ e
        | no ne ↦ absurd (fresh x (omega arith) (created_Bears-others path x ne hit))
      ],
      λ j hj b. elim (dec_lt j x) [
        | yes below ↦
            absurd (before j (omega arith) below (Bears-created_others path j (omega arith) b))
        | no level ↦ omega arith
      ],
    )
  ]

-- Where no more than 100 inodes are counted, and for another path than "/" whose names fit their
-- buffers: after create_inode has made inode `i` for the path, findFileOrDir with memory finds the
-- path: at `i`, if no inode before it bore the path's names, and otherwise at an inode no later than
-- each of those before `i` that did. The new inode counts as in use.
pub create-find :
    (env env' : Env) (s t : Store) (path : Text) (mode i : ℕ)
    → inode_count s ≤ max_inodes
    → Fits path
    → HasMemory env'
    → path ≢ root_name
    → create_inode env s path mode ≡ ok (some i, t)
    → (t.s_block.ibmap i ≡ 1)
      × ((x : ℕ) × (find_file_or_dir env' t path ≡ ok (some x))
          × (x ≤ i)
          × (((j : ℕ) → j < i → ¬ Bears (s.inodes j) path) → x ≡ i)
          × ((j : ℕ) → j < i → Bears (s.inodes j) path → x ≤ j))
create-find env env' s t path mode i h fits m ne e =
    let c : IsCreatedAt env s path mode i t =
      subst (Ensures (IsCreated env s path mode)) e
        (create_inode-IsCreated env s path mode h fits) in
    let (r, found, first) =
      Ensures-ok (IsFirst t path 0 (inode_count t)) (find_file_or_dir env' t path)
        (find_file_or_dir-IsFirst env' t path m (rw (created_count c) h) ne) in
    let (x, is_x, le, fresh, shadowed) = found_after_create c r first in
    (created_mark c, (x, found ∙ ap ok is_x, le, fresh, shadowed))
