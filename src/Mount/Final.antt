-- ===== src/Mount/Final.antt =====
-- The last round of sfs_init's loop in src/sfs.c, for the inode that the flush never writes.
use mathlib.Core.Path.{fun_ext, subst}
use simpel_dateisystem.Base.{
  ℕ, ℤ, pos, ◌+◌, ◌*◌, ◌/◌, ◌%◌, ◌<◌, ◌≤◌, ◌≡◌, refl, sym, inl, inr, ap, ◌∙◌, Bool, true, false,
  arith, ◌==ℤ◌, leb_ℤ, if◌then◌else◌, lt→ltb, Bool-cases, update, ◌==◌,
}
use native.Mathlib.Decide.{ℕ_discrete}
use simpel_dateisystem.Base.Outcome.{ok, Ensures, Ensures-bind, ◌>>=◌}
use simpel_dateisystem.Knoten.{FileControlBlock, zero_fcb, fcb_size, max_inodes, max_blocks}
use simpel_dateisystem.Store.{Store, set_fcb}
use simpel_dateisystem.Directory.Effects.{put, put_at, put_ne}
use simpel_dateisystem.Inodes.Safe.{IsIndex, IsSound}
use simpel_dateisystem.Inodes.Trace.{slot, offset-slot}
use simpel_dateisystem.Mount.{Disk, zero_prefix, clear_block_at, inode_read, note_data, load_from}
use simpel_dateisystem.Mount.Old.{OnlyData, same-OnlyData, note_data-OnlyData}

-- What the invariant asks of an inode other than the root.
pub record IsSane (f : FileControlBlock) : Type 0 where
  pub sound : IsSound f
  pub parent : IsIndex f.parent_inumber

pub zero_fcb-IsSane : IsSane zero_fcb
zero_fcb-IsSane = record {
  sound = record {
    inumber = (0, refl, omega arith);
    entries = λ i e h is. absurd (ground (arith, is));
    fills = λ e. absurd (ground (arith, e));
  };
  parent = (0, refl, omega arith);
}

zero_prefix_zero : zero_prefix zero_fcb ≡ zero_fcb
zero_prefix_zero =
    ap (λ (d : ℕ → _). record zero_fcb { dir_contents = d }) (fun_ext λ i. ground arith)

-- The superblock has the same layout and inode map.
pub record SameLayout (s t : Store) : Type 0 where
  pub count : t.s_block.num_inodes ≡ s.s_block.num_inodes
  pub per_block : t.s_block.num_inodes_per_block ≡ s.s_block.num_inodes_per_block
  pub start : t.s_block.inode_start_index ≡ s.s_block.inode_start_index
  pub ibmap : t.s_block.ibmap ≡ s.s_block.ibmap

-- What stands behind the inodes that the flush has written: nothing that can be read, or an inode that
-- meets the condition.
abbrev pub EndsIn : (FileControlBlock → Type 0) → Disk → ℕ → Type 0
EndsIn Good disk m =
    let (ret, read) = disk.pread_inode (pos (slot m)) zero_fcb in
    leb_ℤ ret (pos 0) ≡ false → Good read

-- The round for inode `m` changes only the inodes from `m` on, and leaves ones there that meet the
-- condition.
pub record IsEnded (Good : FileControlBlock → Type 0) (m : ℕ) (s t : Store) : Type 0 where
  pub before : (k : ℕ) → k < m → t.inodes k ≡ s.inodes k
  pub good : (k : ℕ) → m ≤ k → Good (t.inodes k)
  pub layout : SameLayout s t

OnlyData-IsEnded :
    (Good : FileControlBlock → Type 0) (m : ℕ) (s t u : Store)
    → IsEnded Good m s t
    → OnlyData t u
    → IsEnded Good m s u
OnlyData-IsEnded Good m s t u e only = record {
  before = λ k h. ap (λ f. f k) only.inodes ∙ e.before k h;
  good = λ k lo. subst Good (sym (ap (λ f. f k) only.inodes)) (e.good k lo);
  layout = record {
    count = only.count ∙ e.layout.count;
    per_block = only.per_block ∙ e.layout.per_block;
    start = only.start ∙ e.layout.start;
    ibmap = only.ibmap ∙ e.layout.ibmap;
  };
}

noted-OnlyData :
    (b : Bool) (s : Store) (i : ℕ) (f : FileControlBlock)
    → i < max_blocks
    → Ensures (OnlyData s) (if b then ok s else note_data s i f)
noted-OnlyData true s i f h = same-OnlyData s
noted-OnlyData false s i f h = note_data-OnlyData s i f h

blank_at : (f : ℕ → FileControlBlock) (j k : ℕ) → f k ≡ zero_fcb → update f j zero_fcb k ≡ zero_fcb
blank_at f j k e = elim (Bool-cases (k == j)) [ inl same ↦ rw same refl | inr other ↦ rw other e ]

module _ (Good : FileControlBlock → Type 0) (zero_good : Good zero_fcb) (disk : Disk) (m : ℕ)
    (s : Store) (few : m + 4 < max_inodes) (blank : (k : ℕ) → m ≤ k → s.inodes k ≡ zero_fcb) where
  cleared-IsEnded : Ensures (IsEnded Good m s) (clear_block_at s m)
  unfolding clear_block_at
  cleared-IsEnded =
      rw
        (
          lt→ltb m max_inodes (omega arith),
          lt→ltb (m + 1) max_inodes (omega arith),
          lt→ltb (m + 2) max_inodes (omega arith),
          lt→ltb (m + 3) max_inodes (omega arith),
          lt→ltb (m + 4) max_inodes few,
          blank (m + 4) (omega arith),
          zero_prefix_zero,
        )
        (record {
          before = λ k h. ground arith;
          good = λ k lo.
              let f1 = update s.inodes m zero_fcb in
              let f2 = update f1 (m + 1) zero_fcb in
              let f3 = update f2 (m + 2) zero_fcb in
              let f4 = update f3 (m + 3) zero_fcb in
              let was = blank_at f1 (m + 1) k (blank_at s.inodes m k (blank k lo)) in
              subst Good
                (sym (blank_at f4 (m + 4) k (blank_at f3 (m + 3) k (blank_at f2 (m + 2) k was))))
                zero_good;
          layout = record { count = refl; per_block = refl; start = refl; ibmap = refl };
        })

  put-IsEnded : (f : FileControlBlock) → Good f → IsEnded Good m s (put s m f)
  put-IsEnded f good = record {
    before = λ k h. put_ne s m k f (omega arith);
    good = λ k lo. elim (ℕ_discrete k m) [
      | yes e ↦ rw e (rw (put_at s m f) good)
      | no ne ↦ rw (put_ne s m k f ne, blank k lo) zero_good
    ];
    layout = record { count = refl; per_block = refl; start = refl; ibmap = refl };
  }

  answer-IsEnded :
      (b : Bool) (ret : ℤ) (read : FileControlBlock)
      → (b ≡ false → Good read)
      → Ensures
          (λ (r : ℤ × Store). IsEnded Good m s r.1)
          ((if b then clear_block_at s m else set_fcb s m read) >>= (λ t. ok (ret, t)))
  answer-IsEnded true ret read sound =
      Ensures-bind (IsEnded Good m s) (λ (r : ℤ × Store). IsEnded Good m s r.1) (clear_block_at s m)
        _ cleared-IsEnded λ t k. k
  answer-IsEnded false ret read sound =
      rw (lt→ltb m max_inodes (omega arith)) (put-IsEnded read (sound refl))

  read-IsEnded :
      EndsIn Good disk m
      → Ensures
          (λ r. IsEnded Good m s r.1)
          (inode_read disk s (pos (3 + m / 4)) m (pos (m % 4 * fcb_size)))
  unfolding inode_read
  read-IsEnded sound =
      let place = offset-slot m (omega arith) in
      let answer = disk.pread_inode (pos (slot m)) zero_fcb in
      rw (lt→ltb m max_inodes (omega arith), place, blank m (omega arith))
        (rw (lt→ltb m max_inodes (omega arith)) at
          (answer-IsEnded (leb_ℤ answer.0 (pos 0)) answer.0 answer.1 sound))

  -- The last round
  pub last_round-IsEnded :
      EndsIn Good disk m
      → Ensures (IsEnded Good m s) (load_from disk s 1 m (pos (3 + m / 4)) (m % 4))
  unfolding load_from
  last_round-IsEnded sound =
      Ensures-bind (λ (r : ℤ × Store). IsEnded Good m s r.1) (IsEnded Good m s)
        (inode_read disk s (pos (3 + m / 4)) m (pos (m % 4 * fcb_size))) _ (read-IsEnded sound)
        λ (ret, s1) k1. rw (lt→ltb m max_inodes (omega arith)) (
          Ensures-bind (OnlyData s1) (IsEnded Good m s)
            (if ret ==ℤ pos 0 then ok s1 else note_data s1 m (s1.inodes m)) _
            (noted-OnlyData (ret ==ℤ pos 0) s1 m (s1.inodes m) (omega arith))
            λ t only. OnlyData-IsEnded Good m s s1 t k1 only)
