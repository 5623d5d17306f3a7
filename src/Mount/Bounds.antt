-- ===== src/Mount/Bounds.antt =====
-- How many inodes sfs_init can read into the array, whatever the disk answers.
use mathlib.Core.Path.{subst}
use simpel_dateisystem.Base.{
  Option, some, none, ℕ, zero, suc, ℤ, pos, ◌+◌, ◌*◌, ◌<◌, ◌≤◌, ◌≡◌, refl, sym, inl, inr, ap, ◌∙◌,
  Bool, true, false, arith, ◌+ℤ◌, ◌==ℤ◌, leb_ℤ, if◌then◌else◌, lt→ltb, ltb, Bool-cases, to_int,
}
use simpel_dateisystem.Base.Outcome.{Outcome, ok, fault, Ensures, Ensures-mono, Ensures-bind, ◌>>=◌}
use simpel_dateisystem.Knoten.{FileControlBlock, Superblock, max_inodes, max_blocks, fcb_size}
use simpel_dateisystem.Store.{Store, Env, start_store, fcb_at, set_fcb}
use simpel_dateisystem.Block.{block_offset}
use simpel_dateisystem.Inodes.{next_fill, next_block}
use simpel_dateisystem.Mount.{Disk, clear_block_at, inode_read, note_data, load_from, sfs_init}
use simpel_dateisystem.Mount.Old.{OnlyData, note_data-OnlyData, with_superblock, sfs_init-load_from}

-- The store keeps the inodes in front of `i`, and of the superblock the count, the layout and the
-- inode map.
pub record KeepsBelow (i : ℕ) (s t : Store) : Type 0 where
  pub inodes : (k : ℕ) → k < i → t.inodes k ≡ s.inodes k
  pub count : t.s_block.num_inodes ≡ s.s_block.num_inodes
  pub ibmap : t.s_block.ibmap ≡ s.s_block.ibmap

KeepsBelow-trans :
    (i j : ℕ) (s t u : Store) → i ≤ j → KeepsBelow i s t → KeepsBelow j t u → KeepsBelow i s u
KeepsBelow-trans i j s t u le a b = record {
  inodes = λ k h. b.inodes k (omega arith) ∙ a.inodes k h;
  count = b.count ∙ a.count;
  ibmap = b.ibmap ∙ a.ibmap;
}

clear_block_at-KeepsBelow :
    (s : Store) (i : ℕ) → i + 4 < max_inodes → Ensures (KeepsBelow i s) (clear_block_at s i)
unfolding clear_block_at
clear_block_at-KeepsBelow s i h =
    rw
      (
        lt→ltb i max_inodes (omega arith),
        lt→ltb (i + 1) max_inodes (omega arith),
        lt→ltb (i + 2) max_inodes (omega arith),
        lt→ltb (i + 3) max_inodes (omega arith),
        lt→ltb (i + 4) max_inodes h,
      )
      (record { inodes = λ k hk. ground arith; count = refl; ibmap = refl })

module _ (disk : Disk) where
  answer-KeepsBelow :
      (s : Store) (i : ℕ) (b : Bool) (ret : ℤ) (read : FileControlBlock)
      → i + 4 < max_inodes
      → Ensures
          (λ (r : ℤ × Store). KeepsBelow i s r.1)
          ((if b then clear_block_at s i else set_fcb s i read) >>= (λ t. ok (ret, t)))
  answer-KeepsBelow s i true ret read h =
      Ensures-bind (KeepsBelow i s) (λ (r : ℤ × Store). KeepsBelow i s r.1) (clear_block_at s i) _
        (clear_block_at-KeepsBelow s i h) λ t k. k
  answer-KeepsBelow s i false ret read h =
      rw (lt→ltb i max_inodes (omega arith))
        (record { inodes = λ k hk. ground arith; count = refl; ibmap = refl })

  inode_read-KeepsBelow :
      (s : Store) (b : ℤ) (i : ℕ) (offset : ℤ)
      → i + 4 < max_inodes
      → Ensures (λ r. KeepsBelow i s r.1) (inode_read disk s b i offset)
  unfolding inode_read
  inode_read-KeepsBelow s b i offset h =
      let answer = disk.pread_inode (to_int (block_offset b +ℤ offset)) (s.inodes i) in
      rw (lt→ltb i max_inodes (omega arith)) (
        rw (lt→ltb i max_inodes (omega arith)) at
          (answer-KeepsBelow s i (leb_ℤ answer.0 (pos 0)) answer.0 answer.1 h))

  OnlyData→KeepsBelow : (i : ℕ) (s t : Store) → OnlyData s t → KeepsBelow i s t
  OnlyData→KeepsBelow i s t d = record {
    inodes = λ k h. ap (λ f. f k) d.inodes;
    count = d.count;
    ibmap = d.ibmap;
  }

  noted-KeepsBelow :
      (b : Bool) (s : Store) (i : ℕ) (f : FileControlBlock)
      → i < max_blocks
      → Ensures (KeepsBelow i s) (if b then ok s else note_data s i f)
  noted-KeepsBelow true s i f h = record { inodes = λ k hk. refl; count = refl; ibmap = refl }
  noted-KeepsBelow false s i f h =
      Ensures-mono (OnlyData s) (KeepsBelow i s) (note_data s i f) (note_data-OnlyData s i f h)
        (OnlyData→KeepsBelow i s)

  -- The loop over up to 96 inodes, with any answers.
  pub load_from-KeepsBelow :
      (s : Store) (left i : ℕ) (b : ℤ) (fill : ℕ)
      → i + left + 4 ≤ max_inodes
      → Ensures (KeepsBelow i s) (load_from disk s left i b fill)
  unfolding load_from
  load_from-KeepsBelow s zero i b fill h = record {
    inodes = λ k hk. refl;
    count = refl;
    ibmap = refl;
  }
  load_from-KeepsBelow s (suc left) i b fill h =
      Ensures-bind (λ (r : ℤ × Store). KeepsBelow i s r.1) (KeepsBelow i s)
        (inode_read disk s b i (pos (fill * fcb_size))) _
        (inode_read-KeepsBelow s b i (pos (fill * fcb_size)) (omega arith))
        λ (ret, s1) k1. rw (lt→ltb i max_inodes (omega arith)) (
          Ensures-bind (KeepsBelow i s1) (KeepsBelow i s)
            (if ret ==ℤ pos 0 then ok s1 else note_data s1 i (s1.inodes i)) _
            (noted-KeepsBelow (ret ==ℤ pos 0) s1 i (s1.inodes i) (omega arith))
            λ s2 k2.
              let b' = if ret ==ℤ pos 0 then b else next_block s2 fill b in
              let fill' = if ret ==ℤ pos 0 then fill else next_fill s2 fill in
              Ensures-mono (KeepsBelow (suc i) s2) (KeepsBelow i s)
                (load_from disk s2 left (suc i) b' fill')
                (load_from-KeepsBelow s2 left (suc i) b' fill' (omega arith))
                λ t k3.
                  KeepsBelow-trans i i s s1 t (omega arith) k1
                    (KeepsBelow-trans i (suc i) s1 s2 t (omega arith) k2 k3))

  bind-fault :
      {A : Type 0} {B : Type 0} (r : Outcome A) (k : A → Outcome B)
      → ((a : A) → k a ≡ fault)
      → (r >>= k) ≡ fault
  bind-fault (ok a) k h = h a
  bind-fault fault k h = refl

  -- The loop over more than 100 inodes reads behind the array.
  pub load_from-fault :
      (s : Store) (left i : ℕ) (b : ℤ) (fill : ℕ)
      → i ≤ max_inodes
      → max_inodes < i + left
      → load_from disk s left i b fill ≡ fault
  unfolding load_from inode_read
  load_from-fault s zero i b fill h over = absurd (omega arith)
  load_from-fault s (suc left) i b fill h over = elim (Bool-cases (ltb i max_inodes)) [
    | inr top ↦ rw top refl
    | inl inside ↦ bind-fault (inode_read disk s b i (pos (fill * fcb_size))) _ λ (ret, s1).
        bind-fault (fcb_at s1 i) _ λ f.
          bind-fault (if ret ==ℤ pos 0 then ok s1 else note_data s1 i f) _ λ s2.
            load_from-fault s2 left (suc i) (if ret ==ℤ pos 0 then b else next_block s2 fill b)
              (if ret ==ℤ pos 0 then fill else next_fill s2 fill) (ground arith) (omega arith)
  ]

-- The superblock's count and inode map are in the store.
abbrev pub HasSuperblock : Superblock → Option Store → Type 0
HasSuperblock sb none = ⊥
HasSuperblock sb (some t) = (t.s_block.num_inodes ≡ sb.num_inodes) × (t.s_block.ibmap ≡ sb.ibmap)

-- At the start of the program, on a disk file that can be opened and gives a superblock with a count
-- of `n` inodes: if `n` is at most 96, sfs_init ends within the array, whatever its reads of inodes
-- give, and has the count and the inode map of the disk; if `n` is more than 100, sfs_init leaves the
-- array in any case.
pub sfs_init-bounds :
    (disk : Disk) (env : Env) (sb : Superblock) (fd n r : ℕ)
    → disk.open_result ≡ pos fd
    → disk.pread_superblock ≡ (pos (suc r), sb)
    → sb.num_inodes ≡ pos n
    → (n ≤ 96 → Ensures (HasSuperblock sb) (sfs_init disk env start_store))
      × (100 < n → sfs_init disk env start_store ≡ fault)
sfs_init-bounds disk env sb fd n r descriptor read count =
    let s = with_superblock disk sb in
    let start = sb.inode_start_index in
    let started = sfs_init-load_from disk env sb fd n r descriptor read count in
    (
      λ h. subst (Ensures (HasSuperblock sb)) (sym started) (
          Ensures-bind (KeepsBelow 0 s) (HasSuperblock sb) (load_from disk s n 0 start 0) _
            (load_from-KeepsBelow disk s n 0 start 0 (omega arith)) λ t k. (k.count, k.ibmap)),
      λ h.
          started
          ∙ ap (λ q. q >>= (λ t. ok (some t)))
              (load_from-fault disk s n 0 start 0 (omega arith) (omega arith)),
    )
