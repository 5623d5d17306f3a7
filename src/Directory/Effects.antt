-- ===== src/Directory/Effects.antt =====
-- What the operations on directory entries do to the store, as equations.
use mathlib.Core.Path.{fun_ext}
use native.Mathlib.Decide.{ℕ_discrete}
use simpel_dateisystem.Base.{
  ℕ, ◌<◌, ◌≡◌, refl, sym, ◌≢◌, inl, inr, ap, ◌∙◌, true, false, none, some, arith, ltb, ◌==◌,
  if◌then◌else◌, Bool-cases, update, lt→ltb, ltb→lt, le→ltb_false, ==_iff, ==_false,
}
use simpel_dateisystem.Base.Outcome.{ok}
use simpel_dateisystem.Knoten.{FileControlBlock, Pointer, max_files_in_dir, max_inodes}
use simpel_dateisystem.Store.{Store}
use simpel_dateisystem.Directory.{
  free_entry, set_entry, add_to_direntry, indexed_remove_from_direntry,
}
use simpel_dateisystem.Directory.Entries.{
  Entries, FillsUp, free_entry-IsFirstFree, last_entry_in_direntry-FillsUp,
}

-- The store with another inode at `k`
abbrev pub put : Store → ℕ → FileControlBlock → Store
put s k f = record s { inodes = update s.inodes k f }

abbrev pub set_dir : FileControlBlock → ℕ → Pointer → FileControlBlock
set_dir f i entry = record f { dir_contents = update f.dir_contents i entry }

-- The inode with a new entry at its first free place, or as it is if there is none.
unfoldable pub with_entry : FileControlBlock → ℕ → FileControlBlock
with_entry f child =
    let i = free_entry f.dir_contents max_files_in_dir 0 in
    if ltb i max_files_in_dir then set_dir f i (some child) else f

-- The entries with the one at `index` replaced by the array's last, which becomes free.
unfoldable pub without_entry : FileControlBlock → ℕ → FileControlBlock
without_entry f index = record f {
  dir_contents =
      λ j. if j == 29 then none else if j == index then f.dir_contents 29 else f.dir_contents j;
}

pub put_at : (s : Store) (k : ℕ) (f : FileControlBlock) → (put s k f).inodes k ≡ f
put_at s k f = rw ((==_iff k k).1 refl)

pub put_ne :
    (s : Store) (k j : ℕ) (f : FileControlBlock) → j ≢ k → (put s k f).inodes j ≡ s.inodes j
put_ne s k j f ne = rw (==_false j k ne)

pub put-put : (s : Store) (k : ℕ) (f g : FileControlBlock) → put (put s k f) k g ≡ put s k g
put-put s k f g =
    ap (λ (i : ℕ → FileControlBlock). record s { inodes = i }) (fun_ext λ j. ground arith)

pub put_self : (s : Store) (k : ℕ) → put s k (s.inodes k) ≡ s
put_self s k =
    ap (λ (f : ℕ → FileControlBlock). record s { inodes = f })
      (fun_ext λ j. elim (ℕ_discrete j k) [
        | yes e ↦ rw (e, (==_iff k k).1 refl)
        | no ne ↦ rw (==_false j k ne)
      ])

pub set_entry-ok :
    (s : Store) (parent i : ℕ) (entry : Pointer)
    → parent < max_inodes
    → i < max_files_in_dir
    → set_entry s parent i entry ≡ ok (put s parent (set_dir (s.inodes parent) i entry))
unfolding set_entry
set_entry-ok s parent i entry h hi = rw (lt→ltb _ _ h, lt→ltb _ _ hi)

-- For a parent in the inode array, add_to_direntry puts the child at the first free entry of the parent. It says TRUE also if there is
-- no free entry, and then changes nothing.
pub add_to_direntry_lem :
    (s : Store) (parent child : ℕ)
    → parent < max_inodes
    → add_to_direntry s (some parent) (some child)
      ≡ ok (true, put s parent (with_entry (s.inodes parent) child))
unfolding add_to_direntry with_entry
add_to_direntry_lem s parent child h =
    let dir = (s.inodes parent).dir_contents in
    let i = free_entry dir max_files_in_dir 0 in
    let first = free_entry-IsFirstFree dir max_files_in_dir 0 in
    let over : ltb max_files_in_dir i ≡ false = le→ltb_false _ _ (omega (arith, first.upper)) in
    elim (Bool-cases (ltb i max_files_in_dir)) [
      | inl room ↦
          rw (lt→ltb _ _ h, room, set_entry-ok s parent i (some child) h (ltb→lt _ _ room), over)
      | inr full ↦ rw (lt→ltb _ _ h, full, over) (ap (λ t. ok (true, t)) (sym (put_self s parent)))
    ]

without_entry-last :
    (f : FileControlBlock) (index : ℕ)
    → (29 == index) ≡ true
    → set_dir f 29 none ≡ without_entry f index
unfolding without_entry
without_entry-last f index hit =
    ap (λ (d : Entries). record f { dir_contents = d }) (fun_ext λ j. ground arith)

without_entry-other :
    (f : FileControlBlock) (index : ℕ)
    → set_dir (set_dir f index (f.dir_contents 29)) 29 none ≡ without_entry f index
unfolding without_entry
without_entry-other f index = refl

-- indexed_remove_from_direntry on a directory whose last entry is taken only when all are: entry
-- `index` gets the contents of entry 29, entry 29 becomes free, and the others stay. So a hole is left
-- unless the directory was full or `index` is 29.
pub indexed_remove_lem :
    (s : Store) (parent index : ℕ)
    → parent < max_inodes
    → index < max_files_in_dir
    → FillsUp (s.inodes parent).dir_contents
    → indexed_remove_from_direntry s (some parent) index
      ≡ ok (true, put s parent (without_entry (s.inodes parent) index))
unfolding indexed_remove_from_direntry
indexed_remove_lem s parent index h hi fills =
    let f = s.inodes parent in
    let moved = set_dir f index (f.dir_contents 29) in
    let last = last_entry_in_direntry-FillsUp f.dir_contents fills in
    let in_dir : 29 < max_files_in_dir = omega arith in
    elim (Bool-cases (29 == index)) [
      | inl hit ↦
          rw (lt→ltb _ _ h, last, hit, set_entry-ok s parent 29 none h in_dir)
            (ap (λ g. ok (true, put s parent g)) (without_entry-last f index hit))
      | inr miss ↦
          rw
            (
              lt→ltb _ _ h,
              last,
              miss,
              set_entry-ok s parent index (f.dir_contents 29) h hi,
              set_entry-ok (put s parent moved) parent 29 none h in_dir,
              put_at s parent moved,
            )
            (ap (λ t. ok (true, t))
              (put-put s parent moved (set_dir moved 29 none)
                ∙ ap (put s parent) (without_entry-other f index)))
    ]
