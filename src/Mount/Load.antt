-- ===== src/Mount/Load.antt =====
-- The loop of sfs_init on a disk that holds the inodes where flushAllInodesTodisk writes them.
use mathlib.Core.Path.{subst}
use native.Mathlib.Decide.{ℕ_discrete, dec_lt}
use simpel_dateisystem.Base.{
  Option, some, to_int, ℕ, zero, suc, ℤ, pos, ◌+◌, ◌*◌, ◌/◌, ◌%◌, ◌<◌, ◌≤◌, ◌≡◌, refl, sym, ◌⊎◌,
  inl, inr, ap, ◌∙◌, arith, ◌+ℤ◌, leb_ℤ, if◌then◌else◌, lt→ltb,
}
use simpel_dateisystem.Base.Outcome.{ok, Ensures, Ensures-mono, Ensures-bind, ◌>>=◌}
use simpel_dateisystem.Knoten.{FileControlBlock, Superblock, fcb_size, max_inodes}
use simpel_dateisystem.Store.{Store, Env, start_store}
use simpel_dateisystem.Block.{block_offset}
use simpel_dateisystem.Directory.Effects.{put, put_at, put_ne}
use simpel_dateisystem.Inodes.{next_fill, next_block}
use simpel_dateisystem.Inodes.Trace.{slot, offset-slot, fill-step, block-step}
use simpel_dateisystem.Mount.{Disk, clear_block_at, inode_read, note_data, load_from, sfs_init}
use simpel_dateisystem.Mount.Old.{OnlyData, note_data-OnlyData, with_superblock, sfs_init-load_from}
use simpel_dateisystem.Mount.Bounds.{KeepsBelow, load_from-KeepsBelow}

-- The disk gives these inodes at the places of flushAllInodesTodisk, from 0 up to `n`.
abbrev pub Holds : Disk → (ℕ → FileControlBlock) → ℕ → Type 0
Holds disk content n =
    (i : ℕ) (f : FileControlBlock)
    → i < n
    → disk.pread_inode (pos (slot i)) f ≡ (pos fcb_size, content i)

pub inode_read-Holds :
    (disk : Disk) (content : ℕ → FileControlBlock) (n : ℕ) (s : Store) (i : ℕ)
    → Holds disk content n
    → i < n
    → i < max_inodes
    → inode_read disk s (pos (3 + i / 4)) i (pos (i % 4 * fcb_size))
      ≡ ok (pos fcb_size, put s i (content i))
unfolding inode_read
inode_read-Holds disk content n s i holds hn h =
    let read : disk.pread_inode (to_int (block_offset (pos (3 + i / 4)) +ℤ pos (i % 4 * fcb_size)))
          (s.inodes i)
        ≡ (pos fcb_size, content i) =
      ap (λ z. disk.pread_inode z (s.inodes i)) (offset-slot i h) ∙ holds i (s.inodes i) hn in
    rw (lt→ltb i max_inodes h) (
      ap
        (λ (r : ℤ × FileControlBlock).
          (if leb_ℤ r.0 (pos 0) then clear_block_at s i else ok (put s i r.1))
          >>= (λ t. ok (r.0, t)))
        read)

-- What the rounds from `i` on have read.
pub record IsLoaded (content : ℕ → FileControlBlock) (i n : ℕ) (s t : Store) : Type 0 where
  pub read : (k : ℕ) → i ≤ k → k < n → t.inodes k ≡ content k
  pub before : (k : ℕ) → k < i → t.inodes k ≡ s.inodes k
  pub count : t.s_block.num_inodes ≡ s.s_block.num_inodes
  pub ibmap : t.s_block.ibmap ≡ s.s_block.ibmap

IsLoaded-step :
    (content : ℕ → FileControlBlock) (i n : ℕ) (s t u : Store)
    → OnlyData (put s i (content i)) t
    → IsLoaded content (suc i) n t u
    → IsLoaded content i n s u
IsLoaded-step content i n s t u only l = record {
  read = λ k lo hi. elim (ℕ_discrete k i) [
    | yes e ↦ l.before k (omega arith) ∙ ap (λ f. f k) only.inodes ∙ rw e (put_at s i (content i))
    | no ne ↦ l.read k (omega arith) hi
  ];
  before = λ k h.
      l.before k (omega arith) ∙ ap (λ f. f k) only.inodes ∙ put_ne s i k (content i) (omega arith);
  count = l.count ∙ only.count;
  ibmap = l.ibmap ∙ only.ibmap;
}

-- The place of the next inode.
pub next_place :
    (t : Store) (i : ℕ)
    → t.s_block.num_inodes_per_block ≡ pos 4
    → (next_block t (i % 4) (pos (3 + i / 4)) ≡ pos (3 + suc i / 4))
      × (next_fill t (i % 4) ≡ suc i % 4)
next_place t i per = (
  ap (λ p. if leb_ℤ p (pos (i % 4 + 1)) then pos (3 + i / 4) +ℤ pos 1 else pos (3 + i / 4)) per
      ∙ block-step i,
  ap (λ p. if leb_ℤ p (pos (i % 4 + 1)) then 0 else i % 4 + 1) per ∙ fill-step i,
)

load_next :
    (disk : Disk) (content : ℕ → FileControlBlock) (n : ℕ) (s t : Store) (left i : ℕ)
    → t.s_block.num_inodes_per_block ≡ pos 4
    → OnlyData (put s i (content i)) t
    → Ensures
        (IsLoaded content (suc i) n t)
        (load_from disk t left (suc i) (pos (3 + suc i / 4)) (suc i % 4))
    → Ensures (IsLoaded content i n s) (
        load_from disk t left
          (suc i)
          (next_block t (i % 4) (pos (3 + i / 4)))
          (next_fill t (i % 4)))
load_next disk content n s t left i per only later =
    let (b, fill) = next_place t i per in
    subst
      (λ z.
        Ensures (IsLoaded content i n s) (load_from disk t left (suc i) z (next_fill t (i % 4))))
      (sym b)
      (subst
        (λ z.
          Ensures (IsLoaded content i n s) (load_from disk t left (suc i) (pos (3 + suc i / 4)) z))
        (sym fill)
        (Ensures-mono (IsLoaded content (suc i) n t) (IsLoaded content i n s) _ later
          λ u l. IsLoaded-step content i n s t u only l))

KeepsBelow→IsLoaded :
    (content : ℕ → FileControlBlock) (i m : ℕ) (s t : Store)
    → m ≤ i
    → KeepsBelow i s t
    → IsLoaded content i m s t
KeepsBelow→IsLoaded content i m s t le k = record {
  read = λ j lo hi. absurd (omega arith);
  before = k.inodes;
  count = k.count;
  ibmap = k.ibmap;
}

-- The disk holds the first `m` of `n` inodes. What it answers for the others does not matter if they
-- are no more than 96.
abbrev pub Suffices : ℕ → ℕ → Type 0
Suffices m n = (m ≡ n) ⊎ (n ≤ 96)

load_from-IsLoaded :
    (disk : Disk) (content : ℕ → FileControlBlock) (m n : ℕ) (s : Store) (left i : ℕ)
    → Holds disk content m
    → m ≤ n
    → n ≤ max_inodes
    → Suffices m n
    → i + left ≡ n
    → s.s_block.num_inodes_per_block ≡ pos 4
    → Ensures (IsLoaded content i m s) (load_from disk s left i (pos (3 + i / 4)) (i % 4))
unfolding load_from
load_from-IsLoaded disk content m n s zero i holds le h suff e per = record {
  read = λ k lo hi. absurd (omega arith);
  before = λ k lo. refl;
  count = refl;
  ibmap = refl;
}
load_from-IsLoaded disk content m n s (suc left) i holds le h suff e per = elim (dec_lt i m) [
  | yes held ↦
      let s1 = put s i (content i) in
      rw
        (
          inode_read-Holds disk content m s i holds held (omega arith),
          lt→ltb i max_inodes (omega arith),
          put_at s i (content i),
        )
        (Ensures-bind (OnlyData s1) (IsLoaded content i m s) (note_data s1 i (content i)) _
          (note_data-OnlyData s1 i (content i) (omega arith))
          λ t only. load_next disk content m s t left i (only.per_block ∙ per) only (
            load_from-IsLoaded disk content m n t left (suc i) holds le h suff (omega arith)
              (only.per_block ∙ per)))
  | no above ↦ elim suff [
    | inl all ↦ absurd (omega arith)
    | inr few ↦
        Ensures-mono (KeepsBelow i s) (IsLoaded content i m s)
          (load_from disk s (suc left) i (pos (3 + i / 4)) (i % 4))
          (load_from-KeepsBelow disk s (suc left) i (pos (3 + i / 4)) (i % 4) (omega arith))
          λ t k. KeepsBelow→IsLoaded content i m s t (omega arith) k
  ]
]

-- What sfs_init leaves: the inodes and the superblock that the disk holds.
pub data IsRestored (sb : Superblock) (content : ℕ → FileControlBlock) (n : ℕ)
    : Option Store → Type 0 where
  restored :
      (t : Store)
      → ((k : ℕ) → k < n → t.inodes k ≡ content k)
      → t.s_block.num_inodes ≡ sb.num_inodes
      → t.s_block.ibmap ≡ sb.ibmap
      → IsRestored sb content n (some t)

pub sfs_init-held :
    (disk : Disk) (env : Env) (sb : Superblock) (content : ℕ → FileControlBlock) (fd m n r : ℕ)
    → disk.open_result ≡ pos fd
    → disk.pread_superblock ≡ (pos (suc r), sb)
    → sb.num_inodes ≡ pos n
    → sb.num_inodes_per_block ≡ pos 4
    → sb.inode_start_index ≡ pos 3
    → m ≤ n
    → n ≤ max_inodes
    → Suffices m n
    → Holds disk content m
    → Ensures (IsRestored sb content m) (sfs_init disk env start_store)
sfs_init-held disk env sb content fd m n r descriptor read count per start le h suff holds =
    let s = with_superblock disk sb in
    let started : sfs_init disk env start_store
        ≡ (load_from disk s n 0 (pos 3) 0 >>= (λ t. ok (some t))) =
      sfs_init-load_from disk env sb fd n r descriptor read count
      ∙ ap (λ z. load_from disk s n 0 z 0 >>= (λ t. ok (some t))) start in
    subst (Ensures (IsRestored sb content m)) (sym started) (
      Ensures-bind (IsLoaded content 0 m s) (IsRestored sb content m)
        (load_from disk s n 0 (pos 3) 0) _
        (load_from-IsLoaded disk content m n s n 0 holds le h suff (omega arith) per)
        λ t l. restored t (λ k hk. l.read k (omega arith) hk) l.count l.ibmap)

-- At the start of the program, on a disk file that can be opened and gives a superblock with the
-- layout of formatDisk and a count of `n`, at most 100, inodes, and each of these at the place where
-- flushAllInodesTodisk(FALSE) writes it: sfs_init ends without leaving an array, and the store has the
-- inodes, the count and the inode map of the disk.
pub sfs_init-IsRestored :
    (disk : Disk) (env : Env) (sb : Superblock) (content : ℕ → FileControlBlock) (fd n r : ℕ)
    → disk.open_result ≡ pos fd
    → disk.pread_superblock ≡ (pos (suc r), sb)
    → sb.num_inodes ≡ pos n
    → sb.num_inodes_per_block ≡ pos 4
    → sb.inode_start_index ≡ pos 3
    → n ≤ max_inodes
    → Holds disk content n
    → Ensures (IsRestored sb content n) (sfs_init disk env start_store)
sfs_init-IsRestored disk env sb content fd n r descriptor read count per start h holds =
    sfs_init-held disk env sb content fd n n r descriptor read count per start (omega arith) h
      (inl refl) holds
