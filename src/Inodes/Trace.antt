-- ===== src/Inodes/Trace.antt =====
-- Where flushAllInodesTodisk(FALSE) writes: the calls of pwrite, one by one.
use simpel_dateisystem.Base.{
  ℕ, zero, suc, pos, ◌+◌, ◌*◌, ◌/◌, ◌%◌, ◌<◌, ◌^◌, to_int, to_int-small, ◌≤◌, ◌≡◌, refl, ap, ◌∙◌,
  true, false, List, ◌∷◌, arith, ◌+ℤ◌, ◌*ℤ◌, leb_ℤ, ltb_ℤ, if◌then◌else◌, lt→ltb,
}
use simpel_dateisystem.Base.Outcome.{ok, ◌>>=◌}
use simpel_dateisystem.Knoten.{FileControlBlock, block_size, fcb_size, max_inodes}
use simpel_dateisystem.Store.{Store, Env, Pwrite, Buffer, zeros, superblock, inode}
use simpel_dateisystem.Block.{pwrite_twice, block_offset, block_write_padded, s_block_write_padded}
use simpel_dateisystem.Inodes.{
  rounds, next_fill, next_block, write_inode, flush_from, flush_all_inodes_to_disk,
}
use simpel_dateisystem.Inodes.Find.{inode_count}
use simpel_dateisystem.Inodes.Flush.{with_writes}

-- Where inode `i` stands on the disk: four inodes to a block, from block 3 on.
abbrev pub slot : ℕ → ℕ
slot i = block_size * (3 + i / 4) + fcb_size * (i % 4)

-- The calls that write one buffer, the last one first: '0' characters, then the contents.
abbrev pub twice : Buffer → ℕ → ℕ → List Pwrite → List Pwrite
twice b size offset before =
    record { buffer = b; size = pos size; offset = pos offset }
    ∷ (record { buffer = zeros; size = pos size; offset = pos offset } ∷ before)

-- The calls that write `n` inodes from `i` on.
unfoldable pub inode_calls : (ℕ → FileControlBlock) → ℕ → ℕ → List Pwrite → List Pwrite
inode_calls inodes zero i before = before
inode_calls inodes (suc n) i before =
    inode_calls inodes n (suc i) (twice (inode (inodes i)) fcb_size (slot i) before)

-- The disk takes every write.
abbrev pub Takes : Env → Type 0
Takes env =
    (before : List Pwrite) (call : Pwrite) (n : ℕ)
    → call.size ≡ pos n
    → ltb_ℤ (env.pwrite before call) (pos 0) ≡ false

pwrite_twice-taken :
    (env : Env) (b : Buffer) (size offset : ℕ) (s : Store)
    → Takes env
    → (pwrite_twice env b (pos size) (pos offset) s).1
      ≡ with_writes s (twice b size offset s.writes)
pwrite_twice-taken env b size offset s takes =
    let first : Pwrite = record { buffer = zeros; size = pos size; offset = pos offset } in
    ground (arith, takes s.writes first size refl)

block_offset-pos : (q : ℕ) → q < 2 ^ 19 → block_offset (pos q) ≡ pos (block_size * q)
block_offset-pos q h =
    let product : pos q *ℤ pos block_size ≡ pos (block_size * q) = ground arith in
    ap to_int product ∙ to_int-small (block_size * q) (omega arith)

pos-add : (a b : ℕ) → pos a +ℤ pos b ≡ pos (a + b)
pos-add a b = ground arith

pub offset-slot :
    (i : ℕ)
    → i < max_inodes
    → to_int (block_offset (pos (3 + i / 4)) +ℤ pos (i % 4 * fcb_size)) ≡ pos (slot i)
offset-slot i h =
    ap (λ z. to_int (z +ℤ pos (i % 4 * fcb_size))) (block_offset-pos (3 + i / 4) (omega arith))
    ∙ ap to_int (pos-add (block_size * (3 + i / 4)) (i % 4 * fcb_size) ∙ ap pos (omega arith))
    ∙ to_int-small (slot i) (omega arith)

pub fill-step : (i : ℕ) → (if leb_ℤ (pos 4) (pos (i % 4 + 1)) then 0 else i % 4 + 1) ≡ suc i % 4
fill-step i = ground arith

pub block-step :
    (i : ℕ)
    → (if leb_ℤ (pos 4) (pos (i % 4 + 1)) then pos (3 + i / 4) +ℤ pos 1 else pos (3 + i / 4))
      ≡ pos (3 + suc i / 4)
block-step i = ground arith

module _ (env : Env) (takes : Takes env) where
  write_inode-taken :
      (s : Store) (i : ℕ)
      → i < max_inodes
      → write_inode env s (s.inodes i) (pos (3 + i / 4)) (i % 4)
        ≡ with_writes s (twice (inode (s.inodes i)) fcb_size (slot i) s.writes)
  unfolding block_write_padded
  write_inode-taken s i h =
      ap (λ z. (pwrite_twice env (inode (s.inodes i)) (pos fcb_size) z s).1) (offset-slot i h)
      ∙ pwrite_twice-taken env (inode (s.inodes i)) fcb_size (slot i) s takes

  flush_from-calls :
      (s : Store) (n i : ℕ)
      → s.s_block.num_inodes_per_block ≡ pos 4
      → i + n ≤ max_inodes
      → flush_from env s n i (pos (3 + i / 4)) (i % 4)
        ≡ ok (with_writes s (inode_calls s.inodes n i s.writes))
  unfolding flush_from inode_calls
  flush_from-calls s zero i per h = refl
  flush_from-calls s (suc n) i per h =
      let t = with_writes s (twice (inode (s.inodes i)) fcb_size (slot i) s.writes) in
      let b : next_block t (i % 4) (pos (3 + i / 4)) ≡ pos (3 + suc i / 4) =
        ap (λ p. if leb_ℤ p (pos (i % 4 + 1)) then pos (3 + i / 4) +ℤ pos 1 else pos (3 + i / 4))
          per
        ∙ block-step i in
      let fill : next_fill t (i % 4) ≡ suc i % 4 =
        ap (λ p. if leb_ℤ p (pos (i % 4 + 1)) then 0 else i % 4 + 1) per ∙ fill-step i in
      rw (lt→ltb i max_inodes (omega arith)) (
        ap
          (λ (u : Store).
            flush_from env u n (suc i) (next_block u (i % 4) (pos (3 + i / 4)))
              (next_fill u (i % 4)))
          (write_inode-taken s i (omega arith))
        ∙ ap (λ z. flush_from env t n (suc i) z (next_fill t (i % 4))) b
        ∙ ap (λ z. flush_from env t n (suc i) (pos (3 + suc i / 4)) z) fill
        ∙ flush_from-calls t n (suc i) per (omega arith))

-- The inodes' places on the disk lie behind the three blocks of the superblock, and apart.
pub slot-apart : (i j : ℕ) → i < j → (block_size * 3 ≤ slot i) × (slot i + fcb_size ≤ slot j)
slot-apart i j h = (omega arith, omega arith)

-- flushAllInodesTodisk(FALSE), with the layout that formatDisk makes, up to 100 inodes counted, and a
-- disk that takes every write: it returns TRUE, and its calls of pwrite are the superblock at offset 0
-- and each inode but the last counted one at its own place, twice each: first '0' characters, and then
-- the contents. The places begin behind the superblock's three blocks and do not overlap.
pub flush_all-calls :
    (env : Env) (s : Store)
    → Takes env
    → s.s_block.num_inodes_per_block ≡ pos 4
    → s.s_block.inode_start_index ≡ pos 3
    → inode_count s ≤ max_inodes
    → (flush_all_inodes_to_disk env s false
        ≡ ok (
          true,
          with_writes s (
              inode_calls s.inodes
                (rounds 1 s.s_block.num_inodes)
                0
                (twice (superblock s.s_block) (block_size * 3) 0 s.writes)),
        ))
      × ((i j : ℕ) → i < j → (block_size * 3 ≤ slot i) × (slot i + fcb_size ≤ slot j))
unfolding flush_all_inodes_to_disk s_block_write_padded to_int
flush_all-calls env s takes per start h =
    let sb = superblock s.s_block in
    let t = with_writes s (twice sb (block_size * 3) 0 s.writes) in
    let n = rounds 1 s.s_block.num_inodes in
    (
      ap
            (λ z.
              flush_from env (pwrite_twice env sb (to_int (pos block_size *ℤ z)) (pos 0) s).1 n 0 z
                0
              >>= (λ u. ok (true, u)))
            start
          ∙ ap (λ (u : Store). flush_from env u n 0 (pos 3) 0 >>= (λ u. ok (true, u)))
              (pwrite_twice-taken env sb (block_size * 3) 0 s takes)
          ∙ ap (λ r. r >>= (λ u. ok (true, u)))
              (flush_from-calls env takes t n 0 per (omega arith)),
      slot-apart,
    )
