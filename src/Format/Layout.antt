-- ===== src/Format/Layout.antt =====
-- The loop of formatDisk: how many inodes a disk of a given size gets.
use native.Mathlib.Decide.{dec_lt}
use simpel_dateisystem.Base.{
  ℕ, zero, suc, pos, ◌+◌, ◌*◌, ◌/◌, ◌^◌, ◌<◌, ◌≤◌, ◌≡◌, refl, ◌⊎◌, inl, inr, ap, ◌∙◌, arith, ltb,
  ◌+ℤ◌, Bool-cases, lt→ltb, ltb→lt, ltb_false→le,
}
use simpel_dateisystem.Base.Outcome.{Ensures, Ensures-mono}
use simpel_dateisystem.Knoten.{Superblock}
use simpel_dateisystem.Format.{inode_space, int_limit, add_inode, allocate_inodes}

-- 1 + 2 + ... + n
abbrev pub triangle : ℕ → ℕ
triangle zero = 0
triangle (suc n) = triangle n + suc n

-- The program's rule for `n` inodes in `remaining` bytes: the n-th was still given, and the next is
-- not. `spaceUsed` adds up `currAllocation`, so it counts the first inode n times.
pub record IsLayout (remaining n : ℕ) : Type 0 where
  pub given :
      (m : ℕ) → n ≡ suc m → (inode_space * triangle m < remaining) × (inode_space * n < remaining)
  pub stops : (remaining ≤ inode_space * triangle n) ⊎ (remaining ≤ inode_space * suc n)

-- What the loop has done to a superblock with `k` inodes.
pub record IsAllocated (remaining : ℕ) (sb : Superblock) (n : ℕ) (sb' : Superblock) : Type 0 where
  pub inodes : sb'.num_inodes ≡ pos n
  pub blocks : sb'.num_data_blocks ≡ pos (15 * n)
  pub start : sb'.inode_start_index ≡ sb.inode_start_index
  pub per_block : sb'.num_inodes_per_block ≡ sb.num_inodes_per_block
  pub ibmap : sb'.ibmap ≡ sb.ibmap
  pub layout : IsLayout remaining n

-- The `k` inodes counted so far were given.
abbrev Given : ℕ → ℕ → Type 0
Given remaining k =
    (m : ℕ) → k ≡ suc m → (inode_space * triangle m < remaining) × (inode_space * k < remaining)

Given-le : (remaining k : ℕ) → Given remaining k → inode_space * k ≤ remaining
Given-le remaining zero given = omega arith
Given-le remaining (suc m) given = omega (arith, given m refl)

abbrev Post : ℕ → Superblock → Superblock → Type 0
Post remaining sb sb' = (n : ℕ) × IsAllocated remaining sb n sb'

stop :
    (remaining k : ℕ) (sb : Superblock)
    → sb.num_inodes ≡ pos k
    → sb.num_data_blocks ≡ pos (15 * k)
    → Given remaining k
    → (remaining ≤ inode_space * triangle k) ⊎ (remaining ≤ inode_space * suc k)
    → Post remaining sb sb
stop remaining k sb i b given s = (
  k,
  record {
    inodes = i;
    blocks = b;
    start = refl;
    per_block = refl;
    ibmap = refl;
    layout = record { given = given; stops = s };
  },
)

next_inodes :
    (sb : Superblock) (k : ℕ) → sb.num_inodes ≡ pos k → (add_inode sb).num_inodes ≡ pos (suc k)
next_inodes sb k e = ap (λ z. z +ℤ pos 1) e ∙ ground arith

next_blocks :
    (sb : Superblock) (k : ℕ)
    → sb.num_data_blocks ≡ pos (15 * k)
    → (add_inode sb).num_data_blocks ≡ pos (15 * suc k)
next_blocks sb k e = ap (λ z. z +ℤ pos 15) e ∙ ground arith

next-Given :
    (remaining k : ℕ)
    → inode_space * triangle k < remaining
    → inode_space * suc k < remaining
    → Given remaining (suc k)
next-Given remaining k more room m e = let q : m ≡ k = omega arith in (rw q more, room)

Post-add :
    (remaining : ℕ) (sb sb' : Superblock)
    → Post remaining (add_inode sb) sb'
    → Post remaining sb sb'
Post-add remaining sb sb' (n, a) = (
  n,
  record {
    inodes = a.inodes;
    blocks = a.blocks;
    start = a.start;
    per_block = a.per_block;
    ibmap = a.ibmap;
    layout = a.layout;
  },
)

allocate_inodes-IsLayout :
    (fuel remaining k : ℕ) (sb : Superblock)
    → remaining ≤ 2 ^ 30
    → remaining < inode_space * k + inode_space * fuel
    → sb.num_inodes ≡ pos k
    → sb.num_data_blocks ≡ pos (15 * k)
    → Given remaining k
    → Ensures
        (Post remaining sb)
        (allocate_inodes fuel remaining (inode_space * triangle k) (inode_space * k) sb)
unfolding allocate_inodes
allocate_inodes-IsLayout zero remaining k sb small enough i b given =
    absurd (omega (arith, Given-le remaining k given))
allocate_inodes-IsLayout (suc fuel) remaining k sb small enough i b given =
    let below = Given-le remaining k given in
    let alloc : inode_space * k + inode_space ≡ inode_space * suc k = omega arith in
    let used : inode_space * triangle k + inode_space * suc k ≡ inode_space * triangle (suc k) =
      omega arith in
    rw (alloc, used)
      (elim (Bool-cases (ltb (inode_space * triangle k) remaining)) [
        | inl more ↦
            rw (more, lt→ltb (inode_space * suc k) int_limit (omega arith))
              (elim (Bool-cases (ltb (inode_space * suc k) remaining)) [
                | inl room ↦
                    rw
                      (
                        room,
                        lt→ltb (inode_space * triangle (suc k)) int_limit
                            (omega (arith, ltb→lt _ _ more, ltb→lt _ _ room)),
                      )
                      (Ensures-mono (Post remaining (add_inode sb)) (Post remaining sb) _
                        (allocate_inodes-IsLayout fuel remaining (suc k) (add_inode sb) small
                          (omega arith) (next_inodes sb k i) (next_blocks sb k b)
                          (next-Given remaining k (ltb→lt _ _ more) (ltb→lt _ _ room)))
                        (Post-add remaining sb))
                | inr none_left ↦
                    rw none_left (stop remaining k sb i b given (inr (ltb_false→le _ _ none_left)))
              ])
        | inr all_used ↦
            rw all_used (stop remaining k sb i b given (inl (ltb_false→le _ _ all_used)))
      ])

-- The layout of a disk of up to 2^30 bytes behind its superblock: the loop of formatDisk ends without
-- overflow, and counts the inodes by the rule of `IsLayout` and 15 data blocks for each.
pub allocate-IsLayout :
    (remaining : ℕ) (sb : Superblock)
    → remaining ≤ 2 ^ 30
    → sb.num_inodes ≡ pos 0
    → sb.num_data_blocks ≡ pos 0
    → Ensures
        (λ sb'. (n : ℕ) × IsAllocated remaining sb n sb')
        (allocate_inodes (remaining / inode_space + 2) remaining 0 0 sb)
allocate-IsLayout remaining sb small i b =
    allocate_inodes-IsLayout (remaining / inode_space + 2) remaining 0 sb small (omega arith) i b
      (λ m e. absurd (omega arith))

triangle-ge : (m : ℕ) → 100 ≤ m → 5050 ≤ triangle m
triangle-ge zero h = absurd (omega arith)
triangle-ge (suc m) h = elim (dec_lt m 100) [
  | yes lt ↦ let e : m ≡ 99 = omega arith in rw e (omega arith)
  | no ge ↦ omega (arith, triangle-ge m (omega arith))
]

-- 310,292,200 bytes behind the superblock are not enough for more inodes than the array holds.
pub IsLayout-le : (remaining n : ℕ) → IsLayout remaining n → remaining ≤ 310292200 → n ≤ 100
IsLayout-le remaining zero l h = omega arith
IsLayout-le remaining (suc m) l h = elim (dec_lt m 100) [
  | yes lt ↦ omega arith
  | no ge ↦ absurd (omega (arith, l.given m refl, triangle-ge m (omega arith)))
]
