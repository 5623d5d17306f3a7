-- ===== src/Mount/Again.antt =====
-- The end of one run of the program and the start of the next: what sfs_destroy writes is what
-- sfs_init reads.
use mathlib.Core.Path.{subst}
use native.Mathlib.Decide.{ℕ_discrete}
use simpel_dateisystem.Base.{
  ℕ, zero, suc, pos, ◌+◌, ◌-◌, ◌*◌, ◌<◌, ◌≤◌, ◌≡◌, refl, sym, inr, ap, ◌∙◌, List, [], ◌∷◌, ◌++◌,
  arith, ltb_ℤ,
}
use simpel_dateisystem.Base.Outcome.{ok, Ensures, ◌>>=◌}
use simpel_dateisystem.Knoten.{
  FileControlBlock, Superblock, block_size, fcb_size, superblock_size, max_inodes,
}
use simpel_dateisystem.Store.{Store, Env, Pwrite, Buffer, zeros, superblock, inode, start_store}
use simpel_dateisystem.Inodes.{rounds}
use simpel_dateisystem.Inodes.Safe.{IsSafe}
use simpel_dateisystem.Inodes.Flush.{with_writes}
use simpel_dateisystem.Inodes.Trace.{slot, twice, inode_calls, slot-apart, Takes, flush_all-calls}
use simpel_dateisystem.Mount.{Disk, sfs_init, sfs_destroy}
use simpel_dateisystem.Mount.Medium.{Misses, AllMiss, ReadsBack}
use simpel_dateisystem.Mount.Load.{Holds, IsRestored, sfs_init-held}

-- One call for an inode at its place.
abbrev call_at : Buffer → ℕ → Pwrite
call_at b k = record { buffer = b; size = pos fcb_size; offset = pos (slot k) }

inode_calls-append :
    (inodes : ℕ → FileControlBlock) (n i : ℕ) (xs ys : List Pwrite)
    → inode_calls inodes n i (xs ++ ys) ≡ inode_calls inodes n i xs ++ ys
unfolding inode_calls
inode_calls-append inodes zero i xs ys = refl
inode_calls-append inodes (suc n) i xs ys =
    inode_calls-append inodes n (suc i) (twice (inode (inodes i)) fcb_size (slot i) xs) ys

Misses-call :
    (offset size k : ℕ) (b : Buffer) → offset + size ≤ slot k → Misses offset size (call_at b k)
Misses-call offset size k b h = record {
  from = slot k;
  count = fcb_size;
  from_is = refl;
  count_is = refl;
  apart = inr h;
}

-- The calls for the inodes from `i` on touch nothing in front of the place of inode `i`.
AllMiss-inode_calls :
    (inodes : ℕ → FileControlBlock) (offset size n i : ℕ) (xs : List Pwrite)
    → ((k : ℕ) → i ≤ k → offset + size ≤ slot k)
    → AllMiss offset size xs
    → AllMiss offset size (inode_calls inodes n i xs)
unfolding inode_calls
AllMiss-inode_calls inodes offset size zero i xs h all = all
AllMiss-inode_calls inodes offset size (suc n) i xs h all =
    AllMiss-inode_calls inodes offset size n (suc i) (twice (inode (inodes i)) fcb_size (slot i) xs)
      (λ k le. h k (omega arith))
      (
        Misses-call offset size i (inode (inodes i)) (h i (omega arith)),
        (Misses-call offset size i zeros (h i (omega arith)), all),
      )

-- Where the last call for inode `k` stands in the trace.
record IsSplit (writes : List Pwrite) (f : FileControlBlock) (k : ℕ) : Type 0 where
  after : List Pwrite
  before : List Pwrite
  split : writes ≡ after ++ (call_at (inode f) k ∷ before)
  miss : AllMiss (slot k) fcb_size after

inode_calls-IsSplit :
    (inodes : ℕ → FileControlBlock) (n i k : ℕ) (xs : List Pwrite)
    → i ≤ k
    → k < i + n
    → IsSplit (inode_calls inodes n i xs) (inodes k) k
unfolding inode_calls
inode_calls-IsSplit inodes zero i k xs le lt = absurd (omega arith)
inode_calls-IsSplit inodes (suc n) i k xs le lt = elim (ℕ_discrete i k) [
  | yes e ↦
      subst (λ j. IsSplit (inode_calls inodes (suc n) i xs) (inodes j) j) e
        (record {
          after = inode_calls inodes n (suc i) [];
          before = call_at zeros i ∷ xs;
          split =
              inode_calls-append inodes n (suc i) []
                (twice (inode (inodes i)) fcb_size (slot i) xs);
          miss =
              AllMiss-inode_calls inodes (slot i) fcb_size n (suc i) []
                (λ j h. (slot-apart i j (omega arith)).1) tt;
        })
  | no ne ↦
      inode_calls-IsSplit inodes n (suc i) k (twice (inode (inodes i)) fcb_size (slot i) xs)
        (omega arith) (omega arith)
]

-- What is on the disk after a flush.
flush-Holds :
    (disk : Disk) (inodes : ℕ → FileControlBlock) (n : ℕ) (xs : List Pwrite)
    → ReadsBack disk (inode_calls inodes n 0 xs)
    → Holds disk inodes n
flush-Holds disk inodes n xs law k f h =
    let s = inode_calls-IsSplit inodes n 0 k xs (omega arith) (omega arith) in
    law.inode_back s.after s.before (inodes k) f (slot k) s.split s.miss

flush-superblock :
    (disk : Disk) (inodes : ℕ → FileControlBlock) (n : ℕ) (sb : Superblock) (xs : List Pwrite)
    → ReadsBack disk (inode_calls inodes n 0 (twice (superblock sb) (block_size * 3) 0 xs))
    → disk.pread_superblock ≡ (pos superblock_size, sb)
flush-superblock disk inodes n sb xs law =
    law.superblock_back (inode_calls inodes n 0 [])
      (record { buffer = zeros; size = pos (block_size * 3); offset = pos 0 } ∷ xs) sb 544
      (inode_calls-append inodes n 0 [] (twice (superblock sb) (block_size * 3) 0 xs))
      (AllMiss-inode_calls inodes 0 superblock_size n 0 [] (λ k le. omega arith) tt)

-- A disk that takes every write in full.
abbrev pub TakesAll : Env → Type 0
TakesAll env = (before : List Pwrite) (call : Pwrite) → env.pwrite before call ≡ call.size

TakesAll→Takes : (env : Env) → TakesAll env → Takes env
TakesAll→Takes env takes before call n e =
    ap (λ z. ltb_ℤ z (pos 0)) (takes before call ∙ e) ∙ ground arith

written : (t u : Store) → ok t ≡ ok u → t.writes ≡ u.writes
written t u e = ground arith

destroyed :
    (env : Env) (s t : Store) (n : ℕ)
    → IsSafe s
    → s.s_block.num_inodes ≡ pos n
    → n ≤ max_inodes
    → TakesAll env
    → sfs_destroy env s ≡ ok t
    → t.writes
      ≡ inode_calls s.inodes (n - 1) 0 (twice (superblock s.s_block) (block_size * 3) 0 s.writes)
unfolding sfs_destroy
destroyed env s t n v counted h takes e =
    let calls = (flush_all-calls env s (TakesAll→Takes env takes) v.per_block v.start v.count).0 in
    let done : ok t
        ≡ ok (
            with_writes s (
              inode_calls s.inodes (rounds 1 s.s_block.num_inodes) 0
                (twice (superblock s.s_block) (block_size * 3) 0 s.writes))) =
      sym e ∙ ap (λ r. r >>= (λ q. ok q.1)) calls in
    written t _ done
    ∙ ap
        (λ z.
          inode_calls s.inodes (rounds 1 z) 0
            (twice (superblock s.s_block) (block_size * 3) 0 s.writes))
        counted

-- What the disk holds after sfs_destroy.
pub destroyed-Holds :
    (env : Env) (s t : Store) (disk : Disk) (n : ℕ)
    → IsSafe s
    → s.s_block.num_inodes ≡ pos n
    → n ≤ max_inodes
    → TakesAll env
    → sfs_destroy env s ≡ ok t
    → ReadsBack disk t.writes
    → (disk.pread_superblock ≡ (pos superblock_size, s.s_block)) × Holds disk s.inodes (n - 1)
destroyed-Holds env s t disk n v counted few takes e law =
    let law' = subst (ReadsBack disk) (destroyed env s t n v counted few takes e) law in
    (
      flush-superblock disk s.inodes (n - 1) s.s_block s.writes law',
      flush-Holds disk s.inodes (n - 1) (twice (superblock s.s_block) (block_size * 3) 0 s.writes)
          law',
    )

-- sfs_destroy on a safe store with a count of up to 96 inodes, and a disk that takes every write in
-- full: at the next start of the program on a disk file that reads back what was written, sfs_init
-- ends without leaving an array and has all counted inodes but the last, the count and the inode map
-- of the store.
pub sfs_destroy-sfs_init :
    (env env' : Env) (s t : Store) (disk : Disk) (fd n : ℕ)
    → IsSafe s
    → s.s_block.num_inodes ≡ pos n
    → n ≤ 96
    → TakesAll env
    → sfs_destroy env s ≡ ok t
    → disk.open_result ≡ pos fd
    → ReadsBack disk t.writes
    → Ensures (IsRestored s.s_block s.inodes (n - 1)) (sfs_init disk env' start_store)
sfs_destroy-sfs_init env env' s t disk fd n v counted few takes e descriptor law =
    let (sb, holds) = destroyed-Holds env s t disk n v counted (omega arith) takes e law in
    sfs_init-held disk env' s.s_block s.inodes fd (n - 1) n 11743 descriptor sb counted v.per_block
      v.start (omega arith) (omega arith) (inr few) holds
