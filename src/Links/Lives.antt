-- ===== src/Links/Lives.antt =====
-- The links between the inodes over a life of the file system of src/sfs.c, with its restarts.
use mathlib.Core.Path.{subst}
use native.Mathlib.Decide.{dec_lt}
use simpel_dateisystem.Base.{ℕ, ℤ, ◌<◌, ◌≤◌, ◌≡◌, refl, sym, ap, ◌∙◌, inr, none, List, arith}
use simpel_dateisystem.Base.Outcome.{Ensures}
use simpel_dateisystem.Knoten.{FileControlBlock, Pointer, zero_fcb, max_files_in_dir, max_inodes}
use simpel_dateisystem.Store.{Store}
use simpel_dateisystem.Inodes.Safe.{IsSafe}
use simpel_dateisystem.Format.Fresh.{IsFresh}
use simpel_dateisystem.Mount.Final.{EndsIn}
use simpel_dateisystem.Sfs.Requests.{Request}
use simpel_dateisystem.Sfs.Keeps.{Asks}
use simpel_dateisystem.Table.{view}
use simpel_dateisystem.Table.Rows.{IsUnused}
use simpel_dateisystem.Table.Lives.{
  IsFree, zero_fcb-IsFree, IsTidy, tidy-IsUnused, fresh-IsTidy, Restarts, Restarts-IsEnded, Lives,
  begin, ask, restart, Lives-IsAlive,
}
use simpel_dateisystem.Links.{Entered, IsNumbered, IsLinked}
use simpel_dateisystem.Links.Parent.{NamesParent}
use simpel_dateisystem.Links.Runs.{fresh-IsLinked, handle-IsLinked}

-- An inode that was never used, with no entry.
pub record IsBare (f : FileControlBlock) : Type 0 where
  pub free : IsFree f
  pub empty : (j : ℕ) → j < max_files_in_dir → f.dir_contents j ≡ none

pub zero_fcb-IsBare : IsBare zero_fcb
zero_fcb-IsBare = record { free = zero_fcb-IsFree; empty = λ j h. refl }

-- A store whose inodes before `m` are those of a linked store in which no row from `m` on is used.
module _ (s u : Store) (m : ℕ) (linked : IsLinked s)
    (unused : (k : ℕ) → m ≤ k → IsUnused (view s) k)
    (kept : (k : ℕ) → k < m → u.inodes k ≡ s.inodes k)
    (bare : (k : ℕ) → m ≤ k → IsBare (u.inodes k)) (marks : u.s_block.ibmap ≡ s.s_block.ibmap) where
  was_entered : (d e : ℕ) → d < max_inodes → Entered u d e → (d < m) × Entered s d e
  was_entered d e hd (j, hj, at) = elim (dec_lt d m) [
    | yes low ↦
        (low, (j, hj, ap (λ (f : FileControlBlock). f.dir_contents j) (sym (kept d low)) ∙ at))
    | no high ↦ let free = (bare d (omega arith)).empty j hj in absurd (cc (free, at))
  ]

  -- An inode that was entered is one of those that were kept.
  entered_kept : (d e : ℕ) → d < max_inodes → Entered s d e → e < m
  entered_kept d e hd old = elim (dec_lt e m) [
    | yes low ↦ low
    | no high ↦
        let known = linked.entry d e hd old in
        let q = sym known.number ∙ (unused e (omega arith)).number in
        absurd (ground (arith, known.ne_root, q))
  ]

  kept-IsLinked : IsLinked u
  kept-IsLinked = record {
    entry = λ d e hd m.
        let (low, old) = was_entered d e hd m in
        let known = linked.entry d e hd old in
        let same = kept e (entered_kept d e hd old) in
        record {
          ne_root = known.ne_root;
          number = ap (λ (f : FileControlBlock). f.inumber) same ∙ known.number;
          up = ap (λ (f : FileControlBlock). f.parent_inumber) same ∙ known.up;
          used = ap (λ (b : ℕ → ℕ). b e) marks ∙ known.used;
        };
    once = λ d hd j k e hj hk at_j at_k.
        let (low, _) = was_entered d e hd (j, hj, at_j) in
        let same = ap (λ (f : FileControlBlock). f.dir_contents) (sym (kept d low)) in
        linked.once d hd j k e hj hk (ap (λ (g : ℕ → Pointer). g j) same ∙ at_j)
          (ap (λ (g : ℕ → Pointer). g k) same ∙ at_k);
    numbered = λ k hk. elim (dec_lt k m) [
      | yes low ↦ subst (λ f. IsNumbered f k) (sym (kept k low)) (linked.numbered k hk)
      | no high ↦ let free = (bare k (omega arith)).free in inr (free.number, free.name)
    ];
  }

-- A restart keeps the links, if the disk has nothing or a bare inode at the place of the last one.
Restarts-IsLinked :
    (s v : Store)
    → IsSafe s
    → IsTidy s
    → IsLinked s
    → (r : Restarts s v) → EndsIn IsBare r.disk r.last
    → IsLinked v
Restarts-IsLinked s v safe tidy linked r ends =
    Restarts-IsEnded IsBare s v r zero_fcb-IsBare safe ends IsLinked λ t u read ended.
      kept-IsLinked s u r.last linked (tidy-IsUnused r.last s r.count tidy r.unused)
        (λ k h. ended.before k h ∙ read.read k (omega arith) h) ended.good
        (ended.layout.ibmap ∙ read.layout.ibmap)

-- In every step of the life, the path of a new file names its parent, and a restart finds nothing or a
-- bare inode at the place of the last one.
abbrev pub KeepsLinks :
    {s t : Store} {requests : List Request} {results : List ℤ} → Lives s requests results t → Type 0
KeepsLinks begin = Unit
KeepsLinks (ask env request reply before m allowed e) = Asks NamesParent request × KeepsLinks before
KeepsLinks (restart before r) = EndsIn IsBare r.disk r.last × KeepsLinks before

life-IsLinked :
    {s t : Store} {requests : List Request} {results : List ℤ}
    → IsSafe s
    → IsTidy s
    → IsLinked s
    → (life : Lives s requests results t) → KeepsLinks life
    → IsLinked t
life-IsLinked v tidy linked begin keeps = linked
life-IsLinked v tidy linked (ask {t = now} env request reply before m allowed e) (named, earlier) =
    subst (Ensures (λ q. IsLinked q.1)) e (
      handle-IsLinked env now (Lives-IsAlive v tidy before).safe
        (life-IsLinked v tidy linked before earlier) request allowed named)
life-IsLinked v tidy linked (restart {t = now} {u = new} before r) (ends, earlier) =
    let alive = Lives-IsAlive v tidy before in
    Restarts-IsLinked now new alive.safe alive.tidy (life-IsLinked v tidy linked before earlier) r
      ends

-- From formatDisk on with at least one inode, over any life of allowed requests with memory and of
-- restarts as `Lives` has them: where the paths of new files name their parents, and the disk has
-- nothing or an inode that was never used and has no entry at the place of the last inode, the store
-- stays linked: an entry of a directory is never the root, it is an inode in use with its own number
-- that knows the directory as its parent, and no inode is entered twice.
pub Lives-IsLinked :
    {s t : Store} {requests : List Request} {results : List ℤ} (size : ℕ)
    → IsFresh size s
    → 0 < (view s).count
    → (life : Lives s requests results t) → KeepsLinks life
    → IsLinked t
Lives-IsLinked {s} size fresh h life keeps =
    life-IsLinked fresh.safe (fresh-IsTidy size s fresh h) (fresh-IsLinked size s fresh) life keeps
