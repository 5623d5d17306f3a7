-- ===== src/Mount/Sound.antt =====
-- What sfs_init of src/sfs.c leaves of the invariant: the whole inode array, with the places that the
-- flush has not written.
use mathlib.Core.Path.{subst}
use simpel_dateisystem.Base.{
  ℕ, zero, suc, pos, ◌+◌, ◌/◌, ◌%◌, ◌<◌, ◌≤◌, ◌≡◌, refl, sym, ◌⊎◌, inl, inr, ap, ◌∙◌, Option, none,
  some, arith, lt→ltb, pos_part,
}
use native.Mathlib.Decide.{ℕ_discrete, dec_lt}
use simpel_dateisystem.Base.Outcome.{ok, Ensures, Ensures-mono, Ensures-bind, ◌>>=◌}
use simpel_dateisystem.Knoten.{FileControlBlock, zero_fcb, max_inodes}
use simpel_dateisystem.Store.{Store, Env, start_store}
use simpel_dateisystem.Directory.Effects.{put, put_at, put_ne}
use simpel_dateisystem.Inodes.Safe.{IsSafe}
use simpel_dateisystem.Mount.{Disk, note_data, load_from, sfs_init}
use simpel_dateisystem.Mount.Old.{OnlyData, note_data-OnlyData, with_superblock, sfs_init-load_from}
use simpel_dateisystem.Mount.Load.{Holds, inode_read-Holds, next_place}
use simpel_dateisystem.Mount.Final.{
  SameLayout, IsSane, zero_fcb-IsSane, EndsIn, IsEnded, last_round-IsEnded,
}

-- The rounds from `i` up to `m` have read the inodes there and have changed no other.
pub record IsRead (content : ℕ → FileControlBlock) (i m : ℕ) (s t : Store) : Type 0 where
  pub read : (k : ℕ) → i ≤ k → k < m → t.inodes k ≡ content k
  pub rest : (k : ℕ) → (k < i) ⊎ (m ≤ k) → t.inodes k ≡ s.inodes k
  pub layout : SameLayout s t

IsRead-step :
    (content : ℕ → FileControlBlock) (i m : ℕ) (s t u : Store)
    → i < m
    → OnlyData (put s i (content i)) t
    → IsRead content (suc i) m t u
    → IsRead content i m s u
IsRead-step content i m s t u lt only l = record {
  read = λ k lo hi. elim (ℕ_discrete k i) [
    | yes e ↦
        l.rest k (inl (omega arith)) ∙ ap (λ f. f k) only.inodes ∙ rw e (put_at s i (content i))
    | no ne ↦ l.read k (omega arith) hi
  ];
  rest = λ k out.
      l.rest k (elim out [ inl below ↦ inl (omega arith) | inr above ↦ inr above ])
      ∙ ap (λ f. f k) only.inodes
      ∙ put_ne s i k (content i) (elim out [ inl below ↦ omega arith | inr above ↦ omega arith ]);
  layout = record {
    count = l.layout.count ∙ only.count;
    per_block = l.layout.per_block ∙ only.per_block;
    start = l.layout.start ∙ only.start;
    ibmap = l.layout.ibmap ∙ only.ibmap;
  };
}

module _ (disk : Disk) (content : ℕ → FileControlBlock) (m : ℕ) (P : Store → Type 0)
    (holds : Holds disk content m) (few : m < max_inodes) where
  -- The loop comes to its last round with the inodes in front of it.
  load_held :
      (s : Store) (left i : ℕ)
      → i + left ≡ m
      → s.s_block.num_inodes_per_block ≡ pos 4
      → ((t : Store)
          → IsRead content i m s t
          → Ensures P (load_from disk t 1 m (pos (3 + m / 4)) (m % 4)))
      → Ensures P (load_from disk s (suc left) i (pos (3 + i / 4)) (i % 4))
  unfolding load_from
  load_held s zero i e per last =
      let at : m ≡ i = omega arith in
      subst (λ j. Ensures P (load_from disk s 1 j (pos (3 + j / 4)) (j % 4))) at
        (last s (record {
          read = λ k lo hi. absurd (omega arith);
          rest = λ k out. refl;
          layout = record { count = refl; per_block = refl; start = refl; ibmap = refl };
        }))
  load_held s (suc left) i e per last =
      let s1 = put s i (content i) in
      rw
        (
          inode_read-Holds disk content m s i holds (omega arith) (omega arith),
          lt→ltb i max_inodes (omega arith),
          put_at s i (content i),
        )
        (Ensures-bind (OnlyData s1) P (note_data s1 i (content i)) _
          (note_data-OnlyData s1 i (content i) (omega arith))
          λ t only.
            let (b, fill) = next_place t i (only.per_block ∙ per) in
            rw (b, fill)
              (load_held t left (suc i) (omega arith) (only.per_block ∙ per)
                λ u l. last u (IsRead-step content i m s t u (omega arith) only l)))

-- sfs_init has not ended the program, and the invariant holds.
abbrev pub IsMounted : Option Store → Type 0
IsMounted none = ⊥
IsMounted (some t) = IsSafe t

pub loaded-IsSafe :
    (disk : Disk) (m : ℕ) (s t u : Store)
    → IsSafe s
    → 0 < m
    → IsRead s.inodes 0 m (with_superblock disk s.s_block) t
    → IsEnded IsSane m t u
    → IsSafe u
loaded-IsSafe disk m s t u v positive r e =
    let kept : (k : ℕ) → k < m → u.inodes k ≡ s.inodes k =
      λ k h. e.before k h ∙ r.read k (omega arith) h in
    record {
      count = rw (ap pos_part (e.layout.count ∙ r.layout.count)) v.count;
      per_block = e.layout.per_block ∙ r.layout.per_block ∙ v.per_block;
      start = e.layout.start ∙ r.layout.start ∙ v.start;
      root = rw (kept 0 positive) v.root;
      inode = λ k h. elim (dec_lt k m) [
        | yes lt ↦ rw (kept k lt) (v.inode k h)
        | no ge ↦ (e.good k (omega arith)).sound
      ];
      parent = λ k h0 h. elim (dec_lt k m) [
        | yes lt ↦ rw (kept k lt) (v.parent k h0 h)
        | no ge ↦ (e.good k (omega arith)).parent
      ];
    }

module _ (Good : FileControlBlock → Type 0) (zero_good : Good zero_fcb) (disk : Disk) (env : Env)
    (s : Store) (fd m r : ℕ) (v : IsSafe s) (descriptor : disk.open_result ≡ pos fd)
    (read : disk.pread_superblock ≡ (pos (suc r), s.s_block))
    (count : s.s_block.num_inodes ≡ pos (suc m)) (few : m < 96) (holds : Holds disk s.inodes m)
    (ends : EndsIn Good disk m) where
  -- sfs_init on a disk that holds all inodes of a safe store but the last.
  pub sfs_init-IsEnded :
      (Q : Option Store → Type 0)
      → ((t u : Store)
          → IsRead s.inodes 0 m (with_superblock disk s.s_block) t
          → IsEnded Good m t u
          → Q (some u))
      → Ensures Q (sfs_init disk env start_store)
  sfs_init-IsEnded Q h =
      let s0 = with_superblock disk s.s_block in
      let started : sfs_init disk env start_store
          ≡ (load_from disk s0 (suc m) 0 (pos 3) 0 >>= (λ t. ok (some t))) =
        sfs_init-load_from disk env s.s_block fd (suc m) r descriptor read count
        ∙ ap (λ z. load_from disk s0 (suc m) 0 z 0 >>= (λ t. ok (some t))) v.start in
      let Q' : Store → Type 0 = λ u. Q (some u) in
      subst (Ensures Q) (sym started) (
        Ensures-bind Q' Q (load_from disk s0 (suc m) 0 (pos 3) 0) _
          (load_held disk s.inodes m Q' holds (omega arith) s0 m 0 (omega arith) v.per_block
            λ t before.
              Ensures-mono (IsEnded Good m t) Q' (load_from disk t 1 m (pos (3 + m / 4)) (m % 4))
                (last_round-IsEnded Good zero_good disk m t (omega arith)
                  (λ k le. before.rest k (inr le)) ends)
                λ u ended. h t u before ended)
          λ t q. q)

-- On such a disk the invariant holds after sfs_init.
pub sfs_init-IsMounted :
    (disk : Disk) (env : Env) (s : Store) (fd m r : ℕ)
    → IsSafe s
    → disk.open_result ≡ pos fd
    → disk.pread_superblock ≡ (pos (suc r), s.s_block)
    → s.s_block.num_inodes ≡ pos (suc m)
    → 0 < m
    → m < 96
    → Holds disk s.inodes m
    → EndsIn IsSane disk m
    → Ensures IsMounted (sfs_init disk env start_store)
sfs_init-IsMounted disk env s fd m r v descriptor read count positive few holds sound =
    sfs_init-IsEnded IsSane zero_fcb-IsSane disk env s fd m r v descriptor read count few holds
      sound IsMounted (λ t u before ended. loaded-IsSafe disk m s t u v positive before ended)
