-- ===== src/Links/Create.antt =====
-- What create_inode of src/DateiSteuerBlock.c does to the links between the inodes.
use mathlib.Core.Path.{subst}
use native.Mathlib.Decide.{ℕ_discrete}
use simpel_dateisystem.Base.{
  ℕ, pos, ◌<◌, ◌≡◌, refl, sym, ◌≢◌, ◌↔◌, ◌⊎◌, inl, inr, ap, ◌∙◌, some, arith, ==_iff, ==_false,
  to_short-small,
}
use simpel_dateisystem.Base.Outcome.{ok, Ensures}
use simpel_dateisystem.Base.CString.{Text}
use simpel_dateisystem.Knoten.{max_inodes}
use simpel_dateisystem.Store.{Store, Env}
use simpel_dateisystem.Path.Parent.{parent_name}
use simpel_dateisystem.Directory.Effects.{with_entry}
use simpel_dateisystem.Inodes.{create_inode, find_parent}
use simpel_dateisystem.Inodes.Safe.{IsSafe, with_entry-fields}
use simpel_dateisystem.Inodes.Fill.{new_inode}
use simpel_dateisystem.Inodes.Create.{
  Fits, entered, created_store, IsCreated, IsCreatedAt, create_inode-IsCreated,
}
use simpel_dateisystem.Inodes.Created.{created_inodes, created_others, created_mark}
use simpel_dateisystem.Sfs.Reuse.{created_parent}
use simpel_dateisystem.Links.{Entered, IsEntry, IsLinked}
use simpel_dateisystem.Links.Entries.{
  IsOnce, HasRoom, Adds, with_entry-Adds, Adds-Member, Adds-IsOnce,
}
use simpel_dateisystem.Links.Parent.{NamesParent, find_parent-IsKnown, IsKnown-number}

module _ {env : Env} {s t : Store} {path : Text} {mode i : ℕ} (c : IsCreatedAt env s path mode i t)
    (hi : i < max_inodes) where
  -- The entries of an inode, the new one included, are those behind add_to_direntry.
  created_dir : (d : ℕ) → (t.inodes d).dir_contents ≡ ((entered s c.parent i).inodes d).dir_contents
  unfolding created_store new_inode
  created_dir d = rw (created_inodes c) (elim (ℕ_discrete d i) [
    | yes q ↦ rw (q, (==_iff i i).1 refl) refl
    | no ne ↦ rw (==_false d i ne) refl
  ])

  created_dir_parent :
      (t.inodes c.parent).dir_contents ≡ (with_entry (s.inodes c.parent) i).dir_contents
  created_dir_parent = created_dir c.parent ∙ rw ((==_iff c.parent c.parent).1 refl) refl

  created_dir_other : (d : ℕ) → d ≢ c.parent → (t.inodes d).dir_contents ≡ (s.inodes d).dir_contents
  created_dir_other d ne = created_dir d ∙ rw (==_false d c.parent ne) refl

  created_number : (t.inodes i).inumber ≡ pos i
  unfolding created_store new_inode
  created_number =
      ap (λ (f : ℕ → _). (f i).inumber) (created_inodes c)
      ∙ rw ((==_iff i i).1 refl) (to_short-small i (omega arith))

  pub created_up :
      (s.inodes c.parent).inumber ≡ pos c.parent → (t.inodes i).parent_inumber ≡ pos c.parent
  unfolding created_store new_inode
  created_up own =
      let fields = with_entry-fields (s.inodes c.parent) i in
      let small = to_short-small i (omega arith) in
      ap (λ (f : ℕ → _). (f i).parent_inumber) (created_inodes c)
      ∙ rw ((==_iff i i).1 refl) (ground (arith, own, fields, small))

  created_others_same :
      (k : ℕ)
      → k ≢ i
      → ((t.inodes k).inumber ≡ (s.inodes k).inumber)
        × ((t.inodes k).parent_inumber ≡ (s.inodes k).parent_inumber)
  unfolding created_store
  created_others_same k ne =
      let fields = with_entry-fields (s.inodes c.parent) i in
      rw (created_inodes c, ==_false k i ne) (ground (arith, fields))

  created_marks : (k : ℕ) → k ≢ i → t.s_block.ibmap k ≡ s.s_block.ibmap k
  unfolding created_store
  created_marks k ne = ap (λ (r : Store). r.s_block.ibmap k) c.store ∙ rw (==_false k i ne) refl

module _ {env : Env} {s t : Store} {path : Text} {mode i : ℕ} (linked : IsLinked s)
    (c : IsCreatedAt env s path mode i t) (hi : i < max_inodes)
    (own : (s.inodes c.parent).inumber ≡ pos c.parent) where
  -- A free inode is entered nowhere.
  not_entered : (d : ℕ) → d < max_inodes → ¬ Entered s d i
  not_entered d hd m = c.free (linked.entry d i hd m).used

  adds : Adds (s.inodes c.parent).dir_contents (t.inodes c.parent).dir_contents i
  adds =
      subst (λ d. Adds (s.inodes c.parent).dir_contents d i) (sym (created_dir_parent c hi))
        (with_entry-Adds (s.inodes c.parent) i)

  -- The entries after the creation.
  pub created_members :
      (d e : ℕ)
      → Entered t d e
        ↔ (Entered s d e ⊎ ((d ≡ c.parent) × (e ≡ i) × HasRoom (s.inodes c.parent).dir_contents))
  created_members d e = elim (ℕ_discrete d c.parent) [
    | yes q ↦
        let (forth, back) = Adds-Member adds e in
        rw q (
          λ m. elim (forth m) [ inl old ↦ inl old | inr (is_i, room) ↦ inr (refl, is_i, room) ],
          λ m. elim m [ inl old ↦ back (inl old) | inr (_, is_i, room) ↦ back (inr (is_i, room)) ],
        )
    | no ne ↦
        rw (created_dir_other c hi d ne)
          (λ m. inl m, λ m. elim m [ inl old ↦ old | inr (q, _, _) ↦ absurd (ne q) ])
  ]

  created-IsOnce : (d : ℕ) → d < max_inodes → IsOnce (t.inodes d).dir_contents
  created-IsOnce d hd = elim (ℕ_discrete d c.parent) [
    | yes q ↦
        rw q
          (Adds-IsOnce adds (linked.once c.parent c.parent_in) (not_entered c.parent c.parent_in))
    | no ne ↦ rw (created_dir_other c hi d ne) (linked.once d hd)
  ]

  old-IsEntry : (d e : ℕ) → d < max_inodes → Entered s d e → IsEntry t d e
  old-IsEntry d e hd m =
      let known = linked.entry d e hd m in
      let ne : e ≢ i = λ q. not_entered d hd (subst (Entered s d) q m) in
      let (number, up) = created_others_same c hi e ne in
      record {
        ne_root = known.ne_root;
        number = number ∙ known.number;
        up = up ∙ known.up;
        used = created_marks c hi e ne ∙ known.used;
      }

  new-IsEntry : IsEntry t c.parent i
  new-IsEntry = record {
    ne_root = c.ne_root;
    number = created_number c hi;
    up = created_up c hi own;
    used = created_mark c;
  }

  created-IsLinked : IsLinked t
  created-IsLinked = record {
    entry = λ d e hd m. elim ((created_members d e).0 m) [
      | inl old ↦ old-IsEntry d e hd old
      | inr (at_parent, is_i, _) ↦ rw (at_parent, is_i) new-IsEntry
    ];
    once = created-IsOnce;
    numbered = λ k hk. elim (ℕ_discrete k i) [
      | yes q ↦ rw q (inl (created_number c hi))
      | no ne ↦
          let (number, _) = created_others_same c hi k ne in
          let (name, _) = created_others c k ne in
          elim (linked.numbered k hk) [
            | inl same ↦ inl (number ∙ same)
            | inr (none_yet, no_name) ↦ inr (number ∙ none_yet, name ∙ no_name)
          ]
    ];
  }

-- The links after a creation: the new inode is an entry of its parent, if that had room, and all
-- others are as before.
pub record IsJoined (s t : Store) (p i : ℕ) : Type 0 where
  pub linked : IsLinked t
  pub members :
      (d e : ℕ)
      → Entered t d e ↔ (Entered s d e ⊎ ((d ≡ p) × (e ≡ i) × HasRoom (s.inodes p).dir_contents))

module _ (env : Env) (s t : Store) (path : Text) (mode i : ℕ) (v : IsSafe s) (linked : IsLinked s)
    (names : NamesParent path) where
  pub created-IsJoined : (c : IsCreatedAt env s path mode i t) → IsJoined s t c.parent i
  created-IsJoined c =
      let hi : i < max_inodes = omega (arith, c.counted, v.count) in
      let known = subst (Ensures _) c.found (
        find_parent-IsKnown env s path c.parent_dir v.count c.named
          (λ q. names (c.named ∙ ap some q))) in
      let own = IsKnown-number s c.parent linked c.parent_in known in
      record {
        linked = created-IsLinked linked c hi own;
        members = created_members linked c hi own;
      }

  -- On a safe and linked store, for a path whose names fit their buffers and that names its parent:
  -- after create_inode has made inode `i` for the path, whose parent was found at `p`, the new inode
  -- is an entry of `p` if `p` had a free entry, all else is entered where it was, and the store is
  -- linked.
  pub create-IsJoined :
      (dir : Text) (p : ℕ)
      → Fits path
      → parent_name path ≡ some dir
      → find_parent env s path dir ≡ ok (some p)
      → create_inode env s path mode ≡ ok (some i, t)
      → IsJoined s t p i
  create-IsJoined dir p fits named found e =
      let c : IsCreatedAt env s path mode i t =
        subst (Ensures (IsCreated env s path mode)) e
          (create_inode-IsCreated env s path mode v.count fits) in
      subst (λ q. IsJoined s t q i) (created_parent c dir p named found) (created-IsJoined c)
