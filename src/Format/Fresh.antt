-- ===== src/Format/Fresh.antt =====
-- formatDisk on the variables as the program starts: the tree with the root alone.
use simpel_dateisystem.Base.{
  ℕ, ℤ, pos, negsuc, ◌-◌, ◌^◌, ◌<◌, ◌≤◌, ◌≡◌, refl, sym, ap, ◌∙◌, true, none, arith, ◌+ℤ◌, is_some,
  update, ==_false, pos_part, to_int, to_u32,
}
use native.Mathlib.Decide.{ℕ_discrete}
use simpel_dateisystem.Base.Outcome.{Ensures, Ensures-bind}
use simpel_dateisystem.Knoten.{
  FileControlBlock, Superblock, zero_fcb, zero_superblock, max_inodes, max_files_in_dir,
  superblock_size, fcb_size,
}
use simpel_dateisystem.Store.{Store, Env, superblock, inode}
use simpel_dateisystem.Block.{block_offset, block_write_padded, s_block_write_padded}
use simpel_dateisystem.Directory.{init_dir_contents}
use simpel_dateisystem.Directory.Entries.{clear_entries-none}
use simpel_dateisystem.Directory.Effects.{put}
use simpel_dateisystem.Inodes.{flush_all_inodes_to_disk}
use simpel_dateisystem.Inodes.Find.{inode_count}
use simpel_dateisystem.Inodes.Safe.{IsSound, IsSafe}
use simpel_dateisystem.Inodes.Flush.{
  OnlyWrites, OnlyWrites-trans, KeepsTree, flush_all_first-KeepsTree, pwrite_twice-OnlyWrites,
}
use simpel_dateisystem.Format.{
  remaining_space, root_inode, start_layout, layout, set_up_root, format_disk,
}
use simpel_dateisystem.Format.Layout.{IsLayout, IsAllocated, allocate-IsLayout, IsLayout-le}

-- The store of a program that has not touched its variables but the two that sfs_init sets.
pub record IsBlank (s : Store) (size : ℕ) : Type 0 where
  pub s_block : s.s_block ≡ zero_superblock
  pub inodes : s.inodes ≡ (λ _. zero_fcb)
  pub disk_size : s.disk_size ≡ pos size

pub remaining_space_lem :
    (size : ℕ) → size < 2 ^ 31 → pos_part (remaining_space (pos size)) ≡ size - superblock_size
unfolding to_int to_u32
remaining_space_lem size h = ground arith

-- A new file system: the root is its only directory, empty, and no other inode is in use.
pub record IsFresh (size : ℕ) (t : Store) : Type 0 where
  pub safe : IsSafe t
  pub magic : t.s_block.magic_num ≡ pos 666
  pub counted : IsLayout (size - superblock_size) (inode_count t)
  pub root_used : t.s_block.ibmap 0 ≡ 1
  pub others_free : (j : ℕ) → 0 < j → t.s_block.ibmap j ≡ 0
  pub root_empty : (i : ℕ) → i < max_files_in_dir → (t.inodes 0).dir_contents i ≡ none
  pub root_up : (t.inodes 0).parent_inumber ≡ negsuc 0
  pub root_number : (t.inodes 0).inumber ≡ pos 0
  pub nameless : (k : ℕ) → 0 < k → t.inodes k ≡ zero_fcb

root_inode-empty :
    (env : Env) (f : FileControlBlock) (i : ℕ)
    → i < max_files_in_dir
    → (root_inode env f).dir_contents i ≡ none
unfolding root_inode init_dir_contents
root_inode-empty env f i h =
    clear_entries-none f.dir_contents max_files_in_dir 0 i (omega arith) (omega arith)

root_inode-IsSound : (env : Env) (f : FileControlBlock) → IsSound (root_inode env f)
unfolding root_inode init_dir_contents
root_inode-IsSound env f = record {
  inumber = (0, refl, omega arith);
  entries = λ i e hi q. absurd (cc (sym (root_inode-empty env f i hi) ∙ q));
  fills = λ last. absurd (cc (sym (ap is_some (root_inode-empty env f 29 (omega arith))) ∙ last));
}

module _ (env : Env) (s : Store) (size : ℕ) (blank : IsBlank s size)
    (small : size ≤ 310303944) where
  abbrev fresh_memory : Superblock → Store
  fresh_memory sb =
      put (record s { s_block = record sb { magic_num = pos 666; ibmap = update sb.ibmap 0 1 } }) 0
        (root_inode env (s.inodes 0))

  abbrev fresh_inodes : ℕ → FileControlBlock
  fresh_inodes = update (λ _. zero_fcb) 0 (root_inode env (s.inodes 0))

  fresh-IsSafe :
      (t : Store)
      → t.inodes ≡ fresh_inodes
      → inode_count t ≤ max_inodes
      → t.s_block.num_inodes_per_block ≡ pos 4
      → t.s_block.inode_start_index ≡ pos 3
      → IsSafe t
  unfolding root_inode init_dir_contents
  fresh-IsSafe t e h per start = record {
    count = h;
    per_block = per;
    start = start;
    root = ap (λ (f : ℕ → FileControlBlock). (f 0).file_name) e;
    inode = λ k hk. rw e (elim (ℕ_discrete k 0) [
      | yes q ↦ rw q (root_inode-IsSound env (s.inodes 0))
      | no ne ↦ rw (==_false k 0 ne) zero-IsSound
    ]);
    parent = λ k h0 hk. rw (e, ==_false k 0 (omega arith)) (0, refl, omega arith);
  }
    where
      zero-IsSound : IsSound zero_fcb
      zero-IsSound = record {
        inumber = (0, refl, omega arith);
        entries = λ i e hi q. absurd (cc q);
        fills = λ last. absurd (cc last);
      }

  formatted-IsFresh :
      (sb : Superblock) (n : ℕ) (u t : Store)
      → IsAllocated (size - superblock_size) (start_layout s.s_block) n sb
      → OnlyWrites (fresh_memory sb) u
      → KeepsTree 1 u t
      → IsFresh size t
  unfolding root_inode init_dir_contents
  formatted-IsFresh sb n u t a only k =
      let count : inode_count t ≡ n =
        ap pos_part (k.count ∙ ap (λ (r : Store). r.s_block.num_inodes) only ∙ a.inodes) in
      let inodes : t.inodes ≡ fresh_inodes =
        k.inodes
        ∙ ap (λ (r : Store). r.inodes) only
        ∙ ap (λ (f : ℕ → FileControlBlock). update f 0 (root_inode env (s.inodes 0)))
            blank.inodes in
      let marks : (j : ℕ) → u.s_block.ibmap j ≡ update sb.ibmap 0 1 j =
        λ j. ap (λ (r : Store). r.s_block.ibmap j) only in
      let unmarked : (j : ℕ) → sb.ibmap j ≡ 0 =
        λ j. ap (λ (m : ℕ → ℕ). m j) a.ibmap ∙ ap (λ (b : Superblock). b.ibmap j) blank.s_block in
      let limit : n ≤ 100 = IsLayout-le (size - superblock_size) n a.layout (omega arith) in
      record {
        safe =
            fresh-IsSafe t inodes (rw count limit)
              (k.per_block ∙ ap (λ (r : Store). r.s_block.num_inodes_per_block) only ∙ a.per_block)
              (k.start ∙ ap (λ (r : Store). r.s_block.inode_start_index) only ∙ a.start);
        magic = k.magic ∙ ap (λ (r : Store). r.s_block.magic_num) only;
        counted = rw count a.layout;
        root_used = k.below 0 (omega arith) ∙ marks 0;
        others_free = λ j h. k.clear j (marks j ∙ rw (==_false j 0 (omega arith)) (unmarked j));
        root_empty = λ i h.
            ap (λ (f : ℕ → FileControlBlock). (f 0).dir_contents i) inodes
            ∙ root_inode-empty env (s.inodes 0) i h;
        root_up = ap (λ (f : ℕ → FileControlBlock). (f 0).parent_inumber) inodes ∙ refl;
        root_number = ap (λ (f : ℕ → FileControlBlock). (f 0).inumber) inodes ∙ refl;
        nameless =
            λ j h. ap (λ (f : ℕ → FileControlBlock). f j) inodes ∙ rw (==_false j 0 (omega arith));
      }

  abbrev IsFormatted : ℤ × Store → Type 0
  IsFormatted r = (r.0 ≡ pos 1) × IsFresh size r.1

  abbrev Laid : Superblock → Type 0
  Laid sb = (n : ℕ) × IsAllocated (size - superblock_size) (start_layout s.s_block) n sb

  set_up_root-IsFresh :
      (sb : Superblock) (n : ℕ)
      → IsAllocated (size - superblock_size) (start_layout s.s_block) n sb
      → Ensures IsFormatted (set_up_root env s sb)
  unfolding set_up_root s_block_write_padded block_write_padded
  set_up_root-IsFresh sb n a =
      let s2 = fresh_memory sb in
      let s3 =
        (s_block_write_padded env (pos 0) (superblock s2.s_block) (pos superblock_size) s2).1 in
      let start = s3.s_block.inode_start_index in
      let s4 = (block_write_padded env start (inode (s3.inodes 0)) (pos fcb_size) (pos 0) s3).1 in
      let only : OnlyWrites s2 s4 =
        OnlyWrites-trans s2 s3 s4
          (pwrite_twice-OnlyWrites env (superblock s2.s_block) (pos superblock_size) (pos 0) s2)
          (pwrite_twice-OnlyWrites env (inode (s3.inodes 0)) (pos fcb_size)
            (to_int (block_offset start +ℤ pos 0)) s3) in
      let count : inode_count s4 ≡ n =
        ap pos_part (ap (λ (r : Store). r.s_block.num_inodes) only ∙ a.inodes) in
      let limit : n ≤ 100 = IsLayout-le (size - superblock_size) n a.layout (omega arith) in
      Ensures-bind (λ r. KeepsTree 1 s4 r.1) IsFormatted (flush_all_inodes_to_disk env s4 true) _
        (flush_all_first-KeepsTree env s4 (rw count limit))
        λ r k. (refl, formatted-IsFresh sb n s4 r.1 a only k)

  -- formatDisk, on the variables as the program starts and a disk of up to 310,303,944 bytes: it ends, without overflow and within its arrays,
  -- returns 1, and leaves a new file system whose inodes all lie in the array.
  pub format_disk-IsFresh : Ensures (λ r. (r.0 ≡ pos 1) × IsFresh size r.1) (format_disk env s)
  unfolding format_disk
  format_disk-IsFresh =
      let space : pos_part (remaining_space s.disk_size) ≡ size - superblock_size =
        ap (λ z. pos_part (remaining_space z)) blank.disk_size
        ∙ remaining_space_lem size (omega arith) in
      let laid_out : Ensures Laid (layout s.disk_size s.s_block) = rw space (
        allocate-IsLayout (size - superblock_size) (start_layout s.s_block) (omega arith)
          (ap (λ (b : Superblock). b.num_inodes) blank.s_block)
          (ap (λ (b : Superblock). b.num_data_blocks) blank.s_block)) in
      Ensures-bind Laid IsFormatted (layout s.disk_size s.s_block) (set_up_root env s) laid_out
        λ sb (n, a). set_up_root-IsFresh sb n a
