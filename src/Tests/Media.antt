-- ===== src/Tests/Media.antt =====
-- A disk file that keeps the calls of `pwrite`, as an example of one that reads back what was written.
use simpel_dateisystem.Base.{
  ℕ, suc, ℤ, pos, negsuc, ◌+◌, ◌≡◌, refl, ap, ◌∙◌, Bool, true, false, ◌||◌, List, [], ◌∷◌, ◌++◌,
  leb, if◌then◌else◌, arith,
}
use simpel_dateisystem.Knoten.{
  FileControlBlock, Superblock, zero_fcb, zero_superblock, fcb_size, superblock_size,
}
use simpel_dateisystem.Store.{Buffer, zeros, superblock, inode, block, Pwrite}
use simpel_dateisystem.Mount.{Disk}
use simpel_dateisystem.Mount.Medium.{Misses, AllMiss, ReadsBack}

abbrev span_misses : ℕ → ℕ → ℤ → ℤ → Bool
span_misses o n (pos a) (pos z) = leb (a + z) o || leb (o + n) a
span_misses o n (pos a) (negsuc z) = false
span_misses o n (negsuc a) z = false

abbrev inode_of : Buffer → FileControlBlock
inode_of (inode f) = f
inode_of zeros = zero_fcb
inode_of (superblock sb) = zero_fcb
inode_of (block b) = zero_fcb

abbrev superblock_of : Buffer → Superblock
superblock_of (superblock sb) = sb
superblock_of zeros = zero_superblock
superblock_of (inode f) = zero_superblock
superblock_of (block b) = zero_superblock

-- The last call that touches the place.
abbrev last_call : ℕ → ℕ → List Pwrite → Buffer
last_call o n [] = zeros
last_call o n (call ∷ calls) =
    let rest = last_call o n calls in
    if span_misses o n call.offset call.size then rest else call.buffer

abbrev read_inode : List Pwrite → ℤ → FileControlBlock → ℤ × FileControlBlock
read_inode writes (pos o) f = (pos fcb_size, inode_of (last_call o fcb_size writes))
read_inode writes (negsuc o) f = (negsuc 0, f)

abbrev pub kept : List Pwrite → Disk
kept writes = record {
  open_result = pos 5;
  st_size = pos 2000000;
  pread_superblock = (pos superblock_size, superblock_of (last_call 0 superblock_size writes));
  pread_inode = read_inode writes;
  pread_block = λ _ b. (pos 0, b);
}

Misses-span :
    (o n : ℕ) (call : Pwrite) → Misses o n call → span_misses o n call.offset call.size ≡ true
Misses-span o n call m = rw (m.from_is, m.count_is) ground (arith, m.apart)

last_call-append :
    (o n : ℕ) (after before : List Pwrite)
    → AllMiss o n after
    → last_call o n (after ++ before) ≡ last_call o n before
last_call-append o n [] before all = refl
last_call-append o n (call ∷ after) before (m, all) =
    rw (Misses-span o n call m) (last_call-append o n after before all)

touched : (o n : ℕ) → (leb (o + suc n) o || leb (o + suc n) o) ≡ false
touched o n = ground arith

touched_start : (more : ℕ) → (leb (0 + (superblock_size + more)) 0 || false) ≡ false
touched_start more = ground arith

pub kept-ReadsBack : (writes : List Pwrite) → ReadsBack (kept writes) writes
kept-ReadsBack writes = record {
  inode_back = λ after before f old o e all.
      ap (λ w. (pos fcb_size, inode_of (last_call o fcb_size w))) e
      ∙ ap (λ b. (pos fcb_size, inode_of b)) (last_call-append o fcb_size after _ all)
      ∙ ap (λ b. (pos fcb_size, inode_of (if b then last_call o fcb_size before else inode f)))
          (touched o 839);
  superblock_back = λ after before sb more e all.
      ap (λ w. (pos superblock_size, superblock_of (last_call 0 superblock_size w))) e
      ∙ ap (λ b. (pos superblock_size, superblock_of b))
          (last_call-append 0 superblock_size after _ all)
      ∙ ap
          (λ b. (
            pos superblock_size,
            superblock_of (if b then last_call 0 superblock_size before else superblock sb),
          ))
          (touched_start more);
}
