-- ===== src/Inodes/Safe.antt =====
-- The invariant of the inode array on which memory safety rests, and what keeps it.
use native.Mathlib.Decide.{ℕ_discrete}
use simpel_dateisystem.Base.{
  ap, ◌∙◌, ℕ, ℤ, pos, ◌<◌, ◌≤◌, ◌≡◌, refl, sym, inl, inr, some, arith, ltb, ◌==◌, Bool-cases,
  update, ==_iff, ==_false, to_short, to_short-small,
}
use simpel_dateisystem.Knoten.{FileControlBlock, max_files_in_dir, max_inodes}
use simpel_dateisystem.Store.{Store}
use simpel_dateisystem.Path.{root_name}
use simpel_dateisystem.Directory.{free_entry}
use simpel_dateisystem.Directory.Entries.{Entries, FillsUp, IsFirstFree, free_entry-IsFirstFree}
use simpel_dateisystem.Directory.Effects.{put, with_entry, without_entry}
use simpel_dateisystem.Inodes.Find.{inode_count}

-- The number is an index of the inode array.
abbrev pub IsIndex : ℤ → Type 0
IsIndex z = (n : ℕ) × (z ≡ pos n) × (n < max_inodes)

-- Every entry points into the array.
abbrev pub EntriesIn : Entries → Type 0
EntriesIn dir = (i e : ℕ) → i < max_files_in_dir → dir i ≡ some e → e < max_inodes

pub record IsSound (f : FileControlBlock) : Type 0 where
  pub inumber : IsIndex f.inumber
  pub entries : EntriesIn f.dir_contents
  pub fills : FillsUp f.dir_contents

-- The layout of the disk: the inodes that are counted, how many stand in a block, and the first block.
abbrev pub layout_of : Store → ℕ × ℤ × ℤ
layout_of s = (inode_count s, s.s_block.num_inodes_per_block, s.s_block.inode_start_index)

pub record IsSafe (s : Store) : Type 0 where
  pub count : inode_count s ≤ max_inodes
  pub per_block : s.s_block.num_inodes_per_block ≡ pos 4
  pub start : s.s_block.inode_start_index ≡ pos 3
  pub root : (s.inodes 0).file_name ≡ root_name
  pub inode : (k : ℕ) → k < max_inodes → IsSound (s.inodes k)
  pub parent : (k : ℕ) → 0 < k → k < max_inodes → IsIndex (s.inodes k).parent_inumber

pub to_short-IsIndex : (i : ℕ) → i < max_inodes → IsIndex (to_short i)
to_short-IsIndex i h = (i, to_short-small i (omega arith), h)

-- An update of one inode keeps the invariant if the new inode is sound.
pub IsSafe-put :
    (s : Store) (k : ℕ) (f : FileControlBlock)
    → IsSafe s
    → IsSound f
    → (k ≡ 0 → f.file_name ≡ root_name)
    → (0 < k → IsIndex f.parent_inumber)
    → IsSafe (put s k f)
IsSafe-put s k f v sound root parent = record {
  count = v.count;
  per_block = v.per_block;
  start = v.start;
  root = elim (ℕ_discrete 0 k) [
    | yes e ↦ rw (← e) (root (sym e))
    | no ne ↦ rw (==_false 0 k ne) v.root
  ];
  inode = λ j hj. elim (ℕ_discrete j k) [
    | yes e ↦ rw (e, (==_iff k k).1 refl) sound
    | no ne ↦ rw (==_false j k ne) (v.inode j hj)
  ];
  parent = λ j h0 hj. elim (ℕ_discrete j k) [
    | yes e ↦ rw (e, (==_iff k k).1 refl) (parent (rw e at h0))
    | no ne ↦ rw (==_false j k ne) (v.parent j h0 hj)
  ];
}

-- A store that differs only in what the invariant does not speak of.
pub IsSafe-same :
    {s t : Store} → t.inodes ≡ s.inodes → layout_of t ≡ layout_of s → IsSafe s → IsSafe t
IsSafe-same e l v = record {
  count = rw (ap (λ (p : ℕ × ℤ × ℤ). p.0) l) v.count;
  per_block = ap (λ (p : ℕ × ℤ × ℤ). p.1) l ∙ v.per_block;
  start = ap (λ (p : ℕ × ℤ × ℤ). p.2) l ∙ v.start;
  root = rw e v.root;
  inode = rw e v.inode;
  parent = rw e v.parent;
}

pub with_entry-fields :
    (f : FileControlBlock) (child : ℕ)
    → ((with_entry f child).inumber ≡ f.inumber)
      × ((with_entry f child).file_name ≡ f.file_name)
      × ((with_entry f child).parent_inumber ≡ f.parent_inumber)
      × ((with_entry f child).parent_dir ≡ f.parent_dir)
unfolding with_entry
with_entry-fields f child = ground arith

update-EntriesIn :
    (dir : Entries) (i child : ℕ)
    → EntriesIn dir
    → child < max_inodes
    → EntriesIn (update dir i (some child))
update-EntriesIn dir i child h hc j e hj q = elim (Bool-cases (j == i)) [
  | inl t ↦ ground (arith, q)
  | inr f ↦ h j e hj (ground (arith, q))
]

pub with_entry-EntriesIn :
    (f : FileControlBlock) (child : ℕ)
    → EntriesIn f.dir_contents
    → child < max_inodes
    → EntriesIn (with_entry f child).dir_contents
unfolding with_entry
with_entry-EntriesIn f child h hc =
    let i = free_entry f.dir_contents max_files_in_dir 0 in
    elim (Bool-cases (ltb i max_files_in_dir)) [
      | inl room ↦ rw room (update-EntriesIn f.dir_contents i child h hc)
      | inr full ↦ rw full h
    ]

update-FillsUp :
    (dir : Entries) (i child : ℕ)
    → IsFirstFree dir 0 max_files_in_dir i
    → FillsUp dir
    → FillsUp (update dir i (some child))
update-FillsUp dir i child first fills last j hj = elim (ℕ_discrete j i) [
  | yes e ↦ rw (e, (==_iff i i).1 refl)
  | no ne ↦ rw (==_false j i ne) (elim (ℕ_discrete 29 i) [
    | yes top ↦ first.taken j (omega arith) (omega arith)
    | no low ↦ fills (rw (==_false 29 i low) at last) j hj
  ])
]

pub with_entry-FillsUp :
    (f : FileControlBlock) (child : ℕ)
    → FillsUp f.dir_contents
    → FillsUp (with_entry f child).dir_contents
unfolding with_entry
with_entry-FillsUp f child h =
    let i = free_entry f.dir_contents max_files_in_dir 0 in
    let first = free_entry-IsFirstFree f.dir_contents max_files_in_dir 0 in
    elim (Bool-cases (ltb i max_files_in_dir)) [
      | inl room ↦ rw room (update-FillsUp f.dir_contents i child first h)
      | inr full ↦ rw full h
    ]

pub with_entry-IsSound :
    (f : FileControlBlock) (child : ℕ)
    → IsSound f
    → child < max_inodes
    → IsSound (with_entry f child)
with_entry-IsSound f child h hc = record {
  inumber = rw ((with_entry-fields f child).0) h.inumber;
  entries = with_entry-EntriesIn f child h.entries hc;
  fills = with_entry-FillsUp f child h.fills;
}

pub without_entry-IsSound :
    (f : FileControlBlock) (index : ℕ) → IsSound f → IsSound (without_entry f index)
unfolding without_entry
without_entry-IsSound f index h = record {
  inumber = h.inumber;
  entries = λ j e hj q. elim (Bool-cases (j == index)) [
    | inl t ↦ h.entries 29 e (omega arith) (ground (arith, q))
    | inr u ↦ h.entries j e hj (ground (arith, q))
  ];
  fills = λ last. absurd (ground (arith, last));
}
