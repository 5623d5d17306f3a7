-- ===== src/Inodes/Flush.antt =====
-- flushAllInodesTodisk within the array: it ends, returns TRUE, and changes nothing in memory but the
-- inode map in its first run.
use simpel_dateisystem.Base.{
  ℕ, zero, suc, ℤ, pos, ◌+◌, ◌<◌, ◌≤◌, ◌≡◌, refl, ap, ◌∙◌, true, false, List, arith, ◌*ℤ◌, to_int,
  update, lt→ltb,
}
use simpel_dateisystem.Base.Outcome.{Ensures, Ensures-mono, Ensures-bind}
use simpel_dateisystem.Knoten.{FileControlBlock, max_inodes, max_blocks, block_size}
use simpel_dateisystem.Store.{Store, Env, Pwrite, Buffer, superblock, inode}
use simpel_dateisystem.Block.{pwrite_twice, block_write_padded, s_block_write_padded}
use simpel_dateisystem.Inodes.{
  rounds, next_fill, next_block, write_inode, flush_from, flush_first_from,
  flush_all_inodes_to_disk,
}
use simpel_dateisystem.Inodes.Find.{inode_count}

abbrev pub with_writes : Store → List Pwrite → Store
with_writes s w = record s { writes = w }

-- `t` is `s` but for the calls of pwrite made in between.
abbrev pub OnlyWrites : Store → Store → Type 0
OnlyWrites s t = t ≡ with_writes s t.writes

pub OnlyWrites-trans : (s t u : Store) → OnlyWrites s t → OnlyWrites t u → OnlyWrites s u
OnlyWrites-trans s t u h k = k ∙ ap (λ (r : Store). with_writes r u.writes) h

pub pwrite_twice-OnlyWrites :
    (env : Env) (b : Buffer) (size offset : ℤ) (s : Store)
    → OnlyWrites s (pwrite_twice env b size offset s).1
pwrite_twice-OnlyWrites env b size offset s = ground arith

pub write_inode-OnlyWrites :
    (env : Env) (s : Store) (f : FileControlBlock) (b : ℤ) (fill : ℕ)
    → OnlyWrites s (write_inode env s f b fill)
unfolding block_write_padded
write_inode-OnlyWrites env s f b fill = pwrite_twice-OnlyWrites env (inode f) _ _ s

pub flush_from-OnlyWrites :
    (env : Env) (s : Store) (left i : ℕ) (b : ℤ) (fill : ℕ)
    → i + left ≤ max_inodes
    → Ensures (OnlyWrites s) (flush_from env s left i b fill)
unfolding flush_from
flush_from-OnlyWrites env s zero i b fill h = refl
flush_from-OnlyWrites env s (suc left) i b fill h =
    let s' = write_inode env s (s.inodes i) b fill in
    rw (lt→ltb i max_inodes (omega arith)) (
      Ensures-mono _ _ (flush_from env s' left (suc i) (next_block s' fill b) (next_fill s' fill))
        (flush_from-OnlyWrites env s' left (suc i) _ _ (omega arith))
        λ t only. OnlyWrites-trans s s' t (write_inode-OnlyWrites env s (s.inodes i) b fill) only)

-- flushAllInodesTodisk(FALSE), where no more than 100 inodes are counted: it ends within the array,
-- returns TRUE, and changes nothing but the calls of pwrite made.
pub flush_all-OnlyWrites :
    (env : Env) (s : Store)
    → inode_count s ≤ max_inodes
    → Ensures (λ r. (r.0 ≡ true) × OnlyWrites s r.1) (flush_all_inodes_to_disk env s false)
unfolding flush_all_inodes_to_disk s_block_write_padded
flush_all-OnlyWrites env s h =
    let start = s.s_block.inode_start_index in
    let s' =
      (pwrite_twice env (superblock s.s_block) (to_int (pos block_size *ℤ start)) (pos 0) s).1 in
    let only =
      pwrite_twice-OnlyWrites env (superblock s.s_block) (to_int (pos block_size *ℤ start)) (pos 0)
        s in
    Ensures-bind (OnlyWrites s') _ (flush_from env s' (rounds 1 s.s_block.num_inodes) 0 start 0) _
      (flush_from-OnlyWrites env s' (rounds 1 s.s_block.num_inodes) 0 start 0 (omega arith))
      λ t later. (refl, OnlyWrites-trans s s' t only later)

-- `t` differs from `s` in the calls of pwrite, and in marks from inode `from` on that were cleared.
pub record KeepsTree (from : ℕ) (s t : Store) : Type 0 where
  pub inodes : t.inodes ≡ s.inodes
  pub count : t.s_block.num_inodes ≡ s.s_block.num_inodes
  pub per_block : t.s_block.num_inodes_per_block ≡ s.s_block.num_inodes_per_block
  pub start : t.s_block.inode_start_index ≡ s.s_block.inode_start_index
  pub magic : t.s_block.magic_num ≡ s.s_block.magic_num
  pub below : (j : ℕ) → j < from → t.s_block.ibmap j ≡ s.s_block.ibmap j
  pub clear : (j : ℕ) → s.s_block.ibmap j ≡ 0 → t.s_block.ibmap j ≡ 0

abbrev clear_mark : Store → ℕ → Store
clear_mark s i = record s { s_block = record (s.s_block) { ibmap = update s.s_block.ibmap i 0 } }

KeepsTree-step :
    (s u t : Store) (i : ℕ)
    → OnlyWrites (clear_mark s i) u
    → KeepsTree (suc i) u t
    → KeepsTree i s t
KeepsTree-step s u t i e k = record {
  inodes = k.inodes ∙ ap (λ (r : Store). r.inodes) e;
  count = k.count ∙ ap (λ (r : Store). r.s_block.num_inodes) e;
  per_block = k.per_block ∙ ap (λ (r : Store). r.s_block.num_inodes_per_block) e;
  start = k.start ∙ ap (λ (r : Store). r.s_block.inode_start_index) e;
  magic = k.magic ∙ ap (λ (r : Store). r.s_block.magic_num) e;
  below = λ j h. k.below j (omega arith) ∙ ap (λ (r : Store). r.s_block.ibmap j) e ∙ ground arith;
  clear = λ j h. k.clear j (ap (λ (r : Store). r.s_block.ibmap j) e ∙ ground arith);
}

-- The loop of the first flush, within the array.
pub flush_first_from-KeepsTree :
    (env : Env) (s : Store) (left i : ℕ) (b : ℤ) (fill : ℕ)
    → i + left ≤ max_inodes
    → Ensures (KeepsTree i s) (flush_first_from env s left i b fill)
unfolding flush_first_from
flush_first_from-KeepsTree env s zero i b fill h = record {
  inodes = refl;
  count = refl;
  per_block = refl;
  start = refl;
  magic = refl;
  below = λ j _. refl;
  clear = λ j e. e;
}
flush_first_from-KeepsTree env s (suc left) i b fill h =
    let s' = clear_mark s i in
    let u = write_inode env s' (s.inodes i) b fill in
    rw (lt→ltb i max_inodes (omega arith), lt→ltb i max_blocks (omega arith))
      (Ensures-mono (KeepsTree (suc i) u) (KeepsTree i s) _
        (flush_first_from-KeepsTree env u left (suc i) (next_block u fill b) (next_fill u fill)
          (omega arith))
        λ t. KeepsTree-step s u t i (write_inode-OnlyWrites env s' (s.inodes i) b fill))

-- flushAllInodesTodisk(TRUE), as formatDisk calls it.
pub flush_all_first-KeepsTree :
    (env : Env) (s : Store)
    → inode_count s ≤ max_inodes
    → Ensures (λ r. KeepsTree 1 s r.1) (flush_all_inodes_to_disk env s true)
unfolding flush_all_inodes_to_disk
flush_all_first-KeepsTree env s h =
    let n = rounds 2 s.s_block.num_inodes in
    let start = s.s_block.inode_start_index in
    Ensures-bind (KeepsTree 1 s) _ (flush_first_from env s n 1 start 1) _
      (flush_first_from-KeepsTree env s n 1 start 1 (omega arith)) λ t k. k
