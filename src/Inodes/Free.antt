-- ===== src/Inodes/Free.antt =====
-- What getFreeInodeNum looks for.
use native.Mathlib.Decide.{ℕ_discrete}
use simpel_dateisystem.Base.{
  ℕ, zero, suc, ◌+◌, ◌-◌, ◌<◌, ◌≤◌, ◌≡◌, sym, ◌≢◌, inl, inr, ap, ◌∙◌, true, Option, none, some,
  arith, ◌==◌, Bool-cases, lt→ltb, ==_iff, pos_part,
}
use simpel_dateisystem.Base.Outcome.{Ensures, Ensures-mono}
use simpel_dateisystem.Knoten.{Superblock, max_blocks}
use simpel_dateisystem.Inodes.{free_inode_from, get_free_inode_num}

-- The first inode from `from` on, in front of `n`, whose mark is 0.
abbrev IsFree : Superblock → ℕ → ℕ → Option ℕ → Type 0
IsFree sb from n none = (j : ℕ) → from ≤ j → j < n → sb.ibmap j ≢ 0
IsFree sb from n (some k) =
    (from ≤ k) × (k < n) × (sb.ibmap k ≡ 0) × ((j : ℕ) → from ≤ j → j < k → sb.ibmap j ≢ 0)

IsFree-skip :
    (sb : Superblock) (i n : ℕ) (r : Option ℕ)
    → sb.ibmap i ≢ 0
    → IsFree sb (suc i) n r
    → IsFree sb i n r
IsFree-skip sb i n none ne rest = λ j lo hi. elim (ℕ_discrete j i) [
  | yes e ↦ λ z. ne (ap sb.ibmap (sym e) ∙ z)
  | no above ↦ rest j (omega arith) hi
]
IsFree-skip sb i n (some k) ne (lo, hi, free, before) = (
  omega arith,
  hi,
  free,
  λ j lo' hi'. elim (ℕ_discrete j i) [
    | yes e ↦ λ z. ne (ap sb.ibmap (sym e) ∙ z)
    | no above ↦ before j (omega arith) hi'
  ],
)

free_inode_from-IsFree :
    (sb : Superblock) (n left i : ℕ)
    → i + left ≡ n
    → n ≤ max_blocks
    → Ensures (IsFree sb i n) (free_inode_from sb left i)
unfolding free_inode_from
free_inode_from-IsFree sb n zero i e h = λ j lo hi. absurd (omega arith)
free_inode_from-IsFree sb n (suc left) i e h = elim (Bool-cases (sb.ibmap i == 0)) [
  | inl free ↦
      rw (lt→ltb i max_blocks (omega arith), free)
        (omega arith, omega arith, (==_iff _ _).0 free, λ j lo hi. absurd (omega arith))
  | inr taken ↦
      rw (lt→ltb i max_blocks (omega arith), taken)
        (Ensures-mono (IsFree sb (suc i) n) (IsFree sb i n) (free_inode_from sb left (suc i))
          (free_inode_from-IsFree sb n left (suc i) (omega arith) h)
          λ r rest.
            IsFree-skip sb i n r (λ z. let t : (sb.ibmap i == 0) ≡ true = (==_iff _ _).1 z in cc)
              rest)
]

-- Where no more inodes are counted than the inode map has marks, getFreeInodeNum ends within the map
-- and gives the first counted inode whose mark is 0, the root included, and -1 exactly if there is
-- none.
get_free_inode_num-IsFree :
    (sb : Superblock)
    → pos_part sb.num_inodes ≤ max_blocks
    → Ensures (IsFree sb 0 (pos_part sb.num_inodes)) (get_free_inode_num sb)
unfolding get_free_inode_num
get_free_inode_num-IsFree sb h =
    free_inode_from-IsFree sb (pos_part sb.num_inodes) (pos_part sb.num_inodes - 0) 0 (omega arith)
      h
