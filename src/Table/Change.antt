-- ===== src/Table/Change.antt =====
-- create_inode adds a row to the table, and remove_inode frees one.
use native.Mathlib.Decide.{ℕ_discrete}
use simpel_dateisystem.Base.{
  ℕ, ◌-◌, ◌≤◌, ◌≡◌, refl, sym, ◌≢◌, ap, ◌∙◌, Bool, true, false, not, Option, none, some, arith,
  ◌==◌, ==_iff, ==_false, update, to_short,
}
use simpel_dateisystem.Base.Outcome.{ok, Ensures, Ensures-mono}
use simpel_dateisystem.Base.CString.{Text}
use simpel_dateisystem.Knoten.{Pointer, max_inodes}
use simpel_dateisystem.Store.{Store, Env, HasMemory}
use simpel_dateisystem.Path.{root_name}
use simpel_dateisystem.Path.Parent.{parent_name, get_relative_parent_name-granted}
use simpel_dateisystem.Directory.Effects.{put, without_entry}
use simpel_dateisystem.Directory.Unlink.{Unlinked, absent, removed}
use simpel_dateisystem.Inodes.{create_inode, remove_inode}
use simpel_dateisystem.Inodes.Find.{inode_count}
use simpel_dateisystem.Inodes.Safe.{IsSafe, with_entry-fields}
use simpel_dateisystem.Inodes.Fill.{new_inode}
use simpel_dateisystem.Inodes.Create.{
  Fits, created_store, Refused, all_used, no_name, no_parent, IsCreated, IsCreatedAt,
  create_inode-IsCreated,
}
use simpel_dateisystem.Inodes.Created.{created_inodes, created_count, created_names, created_others}
use simpel_dateisystem.Inodes.Remove.{IsRemoved, IsRemovedAt, remove_inode-IsRemoved}
use simpel_dateisystem.Table.{
  Table, Table-ext, view, free_row, lookup_parent, fill_row, add_in, add_named, add_at, add, unmark,
  drop_at, drop,
}
use simpel_dateisystem.Table.First.{first-some, first-none}
use simpel_dateisystem.Table.Search.{find_file_or_dir-lookup, find_parent-lookup}

-- A pointer and the table, as the abstract operations give them.
abbrev pub seen {ℓ} : {A : Type ℓ} → A × Store → A × Table
seen (a, s) = (a, view s)

pointer_of : (p q : Pointer) → ok p ≡ ok q → p ≡ q
pointer_of p q e = ground arith

is_free : (s : Store) (i : ℕ) → s.s_block.ibmap i ≢ 1 → not (s.s_block.ibmap i == 1) ≡ true
is_free s i ne = rw (==_false (s.s_block.ibmap i) 1 ne) refl

is_used : (s : Store) (i : ℕ) → s.s_block.ibmap i ≡ 1 → not (s.s_block.ibmap i == 1) ≡ false
is_used s i e = rw ((==_iff (s.s_block.ibmap i) 1).1 e) refl

module _ {env : Env} {s t : Store} {path : Text} {mode i : ℕ}
    (c : IsCreatedAt env s path mode i t) where
  free_row-created : free_row (view s) ≡ some i
  free_row-created =
      first-some (λ k. not (s.s_block.ibmap k == 1)) (inode_count s - 1) 1 i
        (omega (arith, c.ne_root)) (omega (arith, c.counted)) (is_free s i c.free)
        (λ j lo hi. is_used s j (c.taken j (omega arith) hi))

  created_number :
      (k : ℕ) → (t.inodes k).inumber ≡ update (λ j. (s.inodes j).inumber) i (to_short i) k
  unfolding created_store new_inode
  created_number k = elim (ℕ_discrete k i) [
    | yes e ↦ rw (created_inodes c, e, (==_iff i i).1 refl) refl
    | no ne ↦
        let fields = with_entry-fields (s.inodes c.parent) i in
        rw (created_inodes c, ==_false k i ne) (ground (arith, fields))
  ]

  created_mark_at : (k : ℕ) → t.s_block.ibmap k ≡ update s.s_block.ibmap i 1 k
  unfolding created_store
  created_mark_at k = ap (λ (r : Store). r.s_block.ibmap k) c.store

  created-fill_row : view t ≡ fill_row (view s) path c.parent_dir i
  created-fill_row =
      Table-ext (view t) (fill_row (view s) path c.parent_dir i) (created_count c)
        (λ k. elim (ℕ_discrete k i) [
          | yes e ↦ rw (e, (==_iff i i).1 refl) (created_names c).0
          | no ne ↦ rw (==_false k i ne) (created_others c k ne).0
        ])
        (λ k. elim (ℕ_discrete k i) [
          | yes e ↦ rw (e, (==_iff i i).1 refl) (created_names c).1
          | no ne ↦ rw (==_false k i ne) (created_others c k ne).1
        ])
        created_number created_mark_at

  add-created : HasMemory env → inode_count s ≤ max_inodes → add (view s) path ≡ (some i, view t)
  add-created m h =
      let parent : ok (lookup_parent (view s) path c.parent_dir) ≡ ok (some c.parent) =
        sym (find_parent-lookup env s path c.parent_dir m h c.named) ∙ c.found in
      ap (add_at (view s) path) free_row-created
      ∙ ap (add_named (view s) path i) c.named
      ∙ ap (add_in (view s) path c.parent_dir i) (pointer_of _ _ parent)
      ∙ ap (λ tab. (some i, tab)) (sym created-fill_row)

add-none :
    (s : Store) (path : Text) (o : Option ℕ)
    → parent_name path ≡ none
    → add_at (view s) path o ≡ (none, view s)
add-none s path none e = refl
add-none s path (some i) e = ap (add_named (view s) path i) e

add-no_parent :
    (s : Store) (path d : Text) (o : Option ℕ)
    → parent_name path ≡ some d
    → lookup_parent (view s) path d ≡ none
    → add_at (view s) path o ≡ (none, view s)
add-no_parent s path d none e missing = refl
add-no_parent s path d (some i) e missing =
    ap (add_named (view s) path i) e ∙ ap (add_in (view s) path d i) missing

text_of : (p q : Option Text) → ok p ≡ ok q → p ≡ q
text_of p q e = ground arith

add-Refused :
    (env : Env) (s : Store) (path : Text)
    → HasMemory env
    → inode_count s ≤ max_inodes
    → Refused env s path
    → add (view s) path ≡ (none, view s)
add-Refused env s path m h (all_used taken) = ap (add_at (view s) path) (
    first-none (λ k. not (s.s_block.ibmap k == 1)) (inode_count s - 1) 1
      (λ j lo hi. is_used s j (taken j lo (omega (arith, hi)))))
add-Refused env s path m h (no_name e) =
    add-none s path _
      (text_of _ _ (sym (get_relative_parent_name-granted env.parent path m.parent) ∙ e))
add-Refused env s path m h (no_parent d named missing) =
    add-no_parent s path d _ named
      (pointer_of _ _ (sym (find_parent-lookup env s path d m h named) ∙ missing))

-- create_inode adds the row that the table adds, or none where the table adds none; then it changes
-- nothing.
abbrev pub IsAdded : Store → Text → Pointer × Store → Type 0
IsAdded s path r = (seen r ≡ add (view s) path) × (r.0 ≡ none → r.1 ≡ s)

pub create_inode-IsAdded :
    (env : Env) (s : Store) (path : Text) (mode : ℕ)
    → HasMemory env
    → inode_count s ≤ max_inodes
    → Fits path
    → Ensures (IsAdded s path) (create_inode env s path mode)
create_inode-IsAdded env s path mode m h fits =
    Ensures-mono (IsCreated env s path mode) (IsAdded s path) (create_inode env s path mode)
      (create_inode-IsCreated env s path mode h fits) added
  where
    added : (r : Pointer × Store) → IsCreated env s path mode r → IsAdded s path r
    added (none, t) (e, why) =
        (ap (λ u. (none, view u)) e ∙ sym (add-Refused env s path m h why), λ _. e)
    added (some i, t) c = (sym (add-created c m h), λ q. absurd (cc q))

without_entry-view :
    (s : Store) (parent i : ℕ) → view (put s parent (without_entry (s.inodes parent) i)) ≡ view s
unfolding without_entry
without_entry-view s parent i =
    Table-ext (view (put s parent (without_entry (s.inodes parent) i))) (view s) refl
      (λ k. ground arith) (λ k. ground arith) (λ k. ground arith) (λ k. refl)

-- What a removal from a directory leaves of the table: all of it.
Unlinked-view : (s t : Store) (parent child : ℕ) → Unlinked s parent child 0 t → view t ≡ view s
Unlinked-view s t parent child (absent all e) = ap view e
Unlinked-view s t parent child (removed i lo hi hit before e) =
    ap view e ∙ without_entry-view s parent i

removed-unmark :
    (env : Env) (s t : Store) (path : Text) (r : IsRemovedAt env s path t)
    → view t ≡ unmark (view s) ((view s).number r.file)
removed-unmark env s t path r =
    let between = Unlinked-view s r.between r.parent r.file r.unlinked in
    ap view r.store
    ∙ ap (λ z. unmark (view r.between) z) (sym r.number_is)
    ∙ ap (λ (tab : Table). unmark tab (tab.number r.file)) between

-- remove_inode frees the row that the table frees, or none where the table frees none.
pub remove_inode-drop :
    (env : Env) (s : Store) (path : Text)
    → HasMemory env
    → IsSafe s
    → path ≢ root_name
    → Ensures (λ r. seen r ≡ drop (view s) path) (remove_inode env s path)
remove_inode-drop env s path m v ne =
    Ensures-mono (IsRemoved env s path) (λ r. seen r ≡ drop (view s) path) (remove_inode env s path)
      (remove_inode-IsRemoved env s path v ne) dropped
  where
    dropped : (r : Bool × Store) → IsRemoved env s path r → seen r ≡ drop (view s) path
    dropped (false, t) (e, missing) =
        ap (λ u. (false, view u)) e
        ∙ ap (drop_at (view s))
            (pointer_of _ _ (sym missing ∙ find_file_or_dir-lookup env s path m v.count))
    dropped (true, t) r =
        ap (λ tab. (true, tab)) (removed-unmark env s t path r)
        ∙ ap (drop_at (view s))
            (pointer_of _ _ (sym r.found ∙ find_file_or_dir-lookup env s path m v.count))
