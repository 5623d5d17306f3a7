-- ===== src/Mount/Old.antt =====
-- sfs_init on a disk file that has a superblock: what it does with an inode that it has read, and how
-- it comes to its loop.
use simpel_dateisystem.Base.{
  some, to_int, pos_part, ℕ, suc, ℤ, pos, ◌-◌, ◌<◌, ◌≡◌, refl, inl, inr, ap, ◌∙◌, false, arith,
  ◌==ℤ◌, leb_ℤ, ltb_ℤ, if◌then◌else◌, lt→ltb, Bool-cases,
}
use simpel_dateisystem.Base.Outcome.{Outcome, ok, Ensures, ◌>>=◌}
use simpel_dateisystem.Knoten.{zero_superblock, FileControlBlock, Superblock, max_blocks}
use simpel_dateisystem.Store.{Store, Env, start_store}
use simpel_dateisystem.Mount.{
  Disk, is_dir, is_reg, note_data, load_from, s_block_read, mount, sfs_init,
}
use simpel_dateisystem.Format.{format_disk}
use simpel_dateisystem.Mount.New.{open_new, after_open}

-- The store differs in the map of data blocks only.
pub record OnlyData (s t : Store) : Type 0 where
  pub inodes : t.inodes ≡ s.inodes
  pub per_block : t.s_block.num_inodes_per_block ≡ s.s_block.num_inodes_per_block
  pub start : t.s_block.inode_start_index ≡ s.s_block.inode_start_index
  pub count : t.s_block.num_inodes ≡ s.s_block.num_inodes
  pub ibmap : t.s_block.ibmap ≡ s.s_block.ibmap

pub same-OnlyData : (s : Store) → OnlyData s s
same-OnlyData s = record {
  inodes = refl;
  per_block = refl;
  start = refl;
  count = refl;
  ibmap = refl;
}

pub note_data-OnlyData :
    (s : Store) (i : ℕ) (f : FileControlBlock)
    → i < max_blocks
    → Ensures (OnlyData s) (note_data s i f)
unfolding note_data
note_data-OnlyData s i f h = elim (Bool-cases (is_dir f.mode)) [
  | inl dir ↦ rw dir (same-OnlyData s)
  | inr no_dir ↦ elim (Bool-cases (is_reg f.mode)) [
    | inl reg ↦
        rw (no_dir, reg, lt→ltb i max_blocks h)
          (record { inodes = refl; per_block = refl; start = refl; count = refl; ibmap = refl })
    | inr no_reg ↦ rw (no_dir, no_reg) (same-OnlyData s)
  ]
]

-- The variables as sfs_init's loop finds them.
abbrev pub with_superblock : Disk → Superblock → Store
with_superblock disk sb = record start_store {
  s_block = sb;
  disk_size = to_int disk.st_size;
  diskfile = disk.open_result;
}

s_block_read-some :
    (disk : Disk) (sb : Superblock) (r : ℕ)
    → disk.pread_superblock ≡ (pos (suc r), sb)
    → s_block_read disk ≡ (pos (suc r), sb)
unfolding s_block_read
s_block_read-some disk sb r read =
    let some_bytes : leb_ℤ (pos (suc r)) (pos 0) ≡ false = ground arith in
    ap (λ (p : ℤ × Superblock). if leb_ℤ p.0 (pos 0) then (p.0, zero_superblock) else (p.0, p.1))
      read
    ∙ ap (λ b. if b then (pos (suc r), zero_superblock) else (pos (suc r), sb)) some_bytes

-- sfs_init behind the read of the superblock
abbrev mount_with : Disk → Env → ℤ × Superblock → Outcome Store
mount_with disk env (ret, sb) =
    if ret ==ℤ pos 0
    then format_disk env (with_superblock disk zero_superblock) >>= (λ r. ok r.1)
    else if ltb_ℤ ret (pos 0)
    then ok (with_superblock disk zero_superblock)
    else load_from disk (with_superblock disk sb) (pos_part sb.num_inodes - 0) 0
        sb.inode_start_index 0

mount_old :
    (disk : Disk) (env : Env) (sb : Superblock) (n r : ℕ)
    → disk.pread_superblock ≡ (pos (suc r), sb)
    → sb.num_inodes ≡ pos n
    → mount disk env (record start_store { diskfile = disk.open_result })
      ≡ load_from disk (with_superblock disk sb) n 0 sb.inode_start_index 0
unfolding mount
mount_old disk env sb n r read count =
    let s1 = with_superblock disk sb in
    let nonzero : (pos (suc r) ==ℤ pos 0) ≡ false = ground arith in
    let nonneg : ltb_ℤ (pos (suc r)) (pos 0) ≡ false = ground arith in
    let same : pos_part sb.num_inodes - 0 ≡ n = ap (λ z. pos_part z - 0) count ∙ omega arith in
    let load = load_from disk s1 (pos_part sb.num_inodes - 0) 0 sb.inode_start_index 0 in
    let s0 = with_superblock disk zero_superblock in
    ap (mount_with disk env) (s_block_read-some disk sb r read)
    ∙ ap
        (λ b.
          if b
          then format_disk env s0 >>= (λ r. ok r.1)
          else if ltb_ℤ (pos (suc r)) (pos 0)
          then ok s0
          else load)
        nonzero
    ∙ ap (λ b. if b then ok s0 else load) nonneg
    ∙ ap (λ m. load_from disk s1 m 0 sb.inode_start_index 0) same

-- At the start of the program, on a disk file that can be opened and has a superblock, sfs_init is its
-- loop.
pub sfs_init-load_from :
    (disk : Disk) (env : Env) (sb : Superblock) (fd n r : ℕ)
    → disk.open_result ≡ pos fd
    → disk.pread_superblock ≡ (pos (suc r), sb)
    → sb.num_inodes ≡ pos n
    → sfs_init disk env start_store
      ≡ (load_from disk (with_superblock disk sb) n 0 sb.inode_start_index 0 >>= (λ t. ok (some t)))
unfolding sfs_init
sfs_init-load_from disk env sb fd n r descriptor read count =
    ap (after_open disk env) (open_new disk fd descriptor)
    ∙ ap (λ q. q >>= (λ t. ok (some t))) (mount_old disk env sb n r read count)
