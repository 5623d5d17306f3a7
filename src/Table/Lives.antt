-- ===== src/Table/Lives.antt =====
-- The life of a file system of src/sfs.c: requests, ends of the program and new starts, against one run
-- of the table.
use mathlib.Core.Path.{subst}
use native.Mathlib.Decide.{ℕ_discrete, dec_lt}
use simpel_dateisystem.Base.{
  ℕ, suc, ℤ, pos, ◌-◌, ◌<◌, ◌≤◌, ◌≡◌, refl, ap, ◌∙◌, sym, Option, none, some, List, [], ◌∷◌, arith,
  pos_part, neg_ℕ,
}
use simpel_dateisystem.Base.Outcome.{ok, Ensures}
use simpel_dateisystem.Knoten.{FileControlBlock, zero_fcb}
use simpel_dateisystem.Store.{Store, Env, HasMemory, start_store}
use simpel_dateisystem.Inodes.Safe.{IsSafe}
use simpel_dateisystem.Format.Fresh.{IsFresh}
use simpel_dateisystem.Mount.{Disk, sfs_init, sfs_destroy}
use simpel_dateisystem.Mount.Old.{with_superblock}
use simpel_dateisystem.Mount.Load.{Holds}
use simpel_dateisystem.Mount.Medium.{ReadsBack}
use simpel_dateisystem.Mount.Again.{destroyed-Holds, TakesAll}
use simpel_dateisystem.Mount.Final.{IsSane, zero_fcb-IsSane, EndsIn, IsEnded}
use simpel_dateisystem.Mount.Sound.{IsRead, loaded-IsSafe, sfs_init-IsEnded}
use simpel_dateisystem.Sfs.Requests.{Request, Reply, handle}
use simpel_dateisystem.Sfs.Keeps.{IsAllowed}
use simpel_dateisystem.Sfs.Safety.{handle-IsSafe}
use simpel_dateisystem.Table.{Table, view, Table-ext}
use simpel_dateisystem.Table.Refine.{handle-run}
use simpel_dateisystem.Table.Runs.{Runs, still, step}
use simpel_dateisystem.Table.Rows.{IsUnused, KeepsRows, run-KeepsRows}

-- An inode that was never used.
pub record IsFree (f : FileControlBlock) : Type 0 where
  pub sane : IsSane f
  pub name : f.file_name ≡ []
  pub dir : f.parent_dir ≡ []
  pub number : f.inumber ≡ pos 0

pub zero_fcb-IsFree : IsFree zero_fcb
zero_fcb-IsFree = record { sane = zero_fcb-IsSane; name = refl; dir = refl; number = refl }

-- The invariant holds after the start, and the store stands for the same table.
abbrev pub IsRestarted : Store → Store → Type 0
IsRestarted s u = IsSafe u × (view u ≡ view s)

-- No row behind the counted ones is used.
abbrev pub IsTidy : Store → Type 0
IsTidy s = (k : ℕ) → (view s).count ≤ k → IsUnused (view s) k

IsEnded-IsSane : (m : ℕ) (s t : Store) → IsEnded IsFree m s t → IsEnded IsSane m s t
IsEnded-IsSane m s t e = record {
  before = e.before;
  good = λ k h. (e.good k h).sane;
  layout = e.layout;
}

-- Where the last row was never used, none from it on was.
pub tidy-IsUnused :
    (m : ℕ) (s : Store)
    → s.s_block.num_inodes ≡ pos (suc m)
    → IsTidy s
    → IsUnused (view s) m
    → (k : ℕ) → m ≤ k
    → IsUnused (view s) k
tidy-IsUnused m s count tidy last k h = elim (ℕ_discrete k m) [
  | yes e ↦ subst (IsUnused (view s)) (sym e) last
  | no ne ↦ let c : (view s).count ≡ suc m = ap pos_part count in tidy k (omega arith)
]

loaded-view :
    (disk : Disk) (m : ℕ) (s t u : Store)
    → s.s_block.num_inodes ≡ pos (suc m)
    → IsTidy s
    → IsUnused (view s) m
    → IsRead s.inodes 0 m (with_superblock disk s.s_block) t
    → IsEnded IsFree m t u
    → view u ≡ view s
loaded-view disk m s t u count tidy last r e =
    let kept : (k : ℕ) → k < m → u.inodes k ≡ s.inodes k =
      λ k h. e.before k h ∙ r.read k (omega arith) h in
    let unused = tidy-IsUnused m s count tidy last in
    Table-ext (view u) (view s) (ap pos_part (e.layout.count ∙ r.layout.count))
      (λ k. elim (dec_lt k m) [
        | yes lt ↦ ap (λ (f : FileControlBlock). f.file_name) (kept k lt)
        | no ge ↦ (e.good k (omega arith)).name ∙ sym (unused k (omega arith)).name
      ])
      (λ k. elim (dec_lt k m) [
        | yes lt ↦ ap (λ (f : FileControlBlock). f.parent_dir) (kept k lt)
        | no ge ↦ (e.good k (omega arith)).dir ∙ sym (unused k (omega arith)).dir
      ])
      (λ k. elim (dec_lt k m) [
        | yes lt ↦ ap (λ (f : FileControlBlock). f.inumber) (kept k lt)
        | no ge ↦ (e.good k (omega arith)).number ∙ sym (unused k (omega arith)).number
      ])
      (λ k. ap (λ (f : ℕ → ℕ). f k) (e.layout.ibmap ∙ r.layout.ibmap))

-- An end of the program and the next start that lose nothing: the count is from 2 to 96, the last
-- inode, which is never written, was never used, the disk takes every write and reads back what was
-- written, and gives nothing or a free inode at the place of the last one.
pub record Restarts (s v : Store) : Type 0 where
  pub end_env : Env
  pub start_env : Env
  pub ended : Store
  pub disk : Disk
  pub descriptor : ℕ
  pub last : ℕ
  pub count : s.s_block.num_inodes ≡ pos (suc last)
  pub some_before : 0 < last
  pub few : last < 96
  pub unused : IsUnused (view s) last
  pub takes : TakesAll end_env
  pub ends : sfs_destroy end_env s ≡ ok ended
  pub opens : disk.open_result ≡ pos descriptor
  pub reads_back : ReadsBack disk ended.writes
  pub free_end : EndsIn IsFree disk last
  pub starts : sfs_init disk start_env start_store ≡ ok (some v)

-- The condition holds of the store that a call of sfs_init has left.
abbrev Left : (Store → Type 0) → Option Store → Type 0
Left Q none = ⊥
Left Q (some u) = Q u

-- What a restart leaves: the inodes before the last one are read back, and the inodes from there on
-- are as the disk gives them, where `Good` holds of a blank inode.
pub Restarts-IsEnded :
    (Good : FileControlBlock → Type 0) (s v : Store) (r : Restarts s v)
    → Good zero_fcb
    → IsSafe s
    → EndsIn Good r.disk r.last
    → (Q : Store → Type 0)
    → ((t u : Store)
        → IsRead s.inodes 0 r.last (with_superblock r.disk s.s_block) t
        → IsEnded Good r.last t u
        → Q u)
    → Q v
Restarts-IsEnded Good s v r zero_good safe ends Q h =
    let (sb, holds) =
      destroyed-Holds r.end_env s r.ended r.disk (suc r.last) safe r.count (omega (arith, r.few))
        r.takes r.ends r.reads_back in
    let same : suc r.last - 1 ≡ r.last = omega arith in
    subst (Ensures (Left Q)) r.starts (
      sfs_init-IsEnded Good zero_good r.disk r.start_env s r.descriptor r.last 11743 safe r.opens sb
        r.count r.few (subst (Holds r.disk s.inodes) same holds) ends (Left Q) h)

Restarts-IsRestarted : (s v : Store) → IsSafe s → IsTidy s → Restarts s v → IsRestarted s v
Restarts-IsRestarted s v safe tidy r =
    Restarts-IsEnded IsFree s v r zero_fcb-IsFree safe r.free_end (IsRestarted s) λ t u read ended.
      (
        loaded-IsSafe r.disk r.last s t u safe r.some_before read (IsEnded-IsSane r.last t u ended),
        loaded-view r.disk r.last s t u r.count tidy r.unused read ended,
      )

-- A life of the file system: allowed requests with memory, and restarts; the last request and the last
-- result come first.
pub data Lives (s : Store) : List Request → List ℤ → Store → Type 0 where
  begin : Lives s [] [] s
  ask :
      {t u : Store} {requests : List Request} {results : List ℤ} (env : Env) (request : Request)
      (reply : Reply)
      → Lives s requests results t
      → HasMemory env
      → IsAllowed t request
      → handle env t request ≡ ok (reply, u)
      → Lives s (request ∷ requests) (reply.result ∷ results) u
  restart :
      {t u : Store} {requests : List Request} {results : List ℤ}
      → Lives s requests results t
      → Restarts t u
      → Lives s requests results u

pub fresh-IsTidy : (size : ℕ) (s : Store) → IsFresh size s → 0 < (view s).count → IsTidy s
fresh-IsTidy size s fresh h k le =
    let blank = fresh.nameless k (omega arith) in
    record {
      name = ap (λ (f : FileControlBlock). f.file_name) blank;
      dir = ap (λ (f : FileControlBlock). f.parent_dir) blank;
      number = ap (λ (f : FileControlBlock). f.inumber) blank;
    }

IsTidy-view : (s t : Store) → view t ≡ view s → IsTidy s → IsTidy t
IsTidy-view s t e tidy = subst (λ tab. (k : ℕ) → tab.count ≤ k → IsUnused tab k) (sym e) tidy

-- What holds at each moment of a life.
pub record IsAlive (s t : Store) (requests : List Request) (results : List ℤ) : Type 0 where
  pub safe : IsSafe t
  pub tidy : IsTidy t
  pub runs : Runs (view s) requests results (view t)

asked-IsAlive :
    (s t u : Store) (requests : List Request) (results : List ℤ) (env : Env) (request : Request)
    (reply : Reply)
    → IsAlive s t requests results
    → HasMemory env
    → IsAllowed t request
    → handle env t request ≡ ok (reply, u)
    → IsAlive s u (request ∷ requests) (reply.result ∷ results)
asked-IsAlive s t u requests results env request reply alive m allowed e =
    let answer = subst (Ensures _) e (handle-run env t m alive.safe request allowed) in
    let failed = neg_ℕ (env.errno t.errno) in
    let kept : KeepsRows (view t) (view u) =
      subst (λ (q : ℤ × Table). KeepsRows (view t) q.1) (sym answer)
        (run-KeepsRows failed (view t) request) in
    record {
      safe = subst (Ensures (λ q. IsSafe q.1)) e (handle-IsSafe env t alive.safe request allowed);
      tidy = λ k le.
          let counted : (view t).count ≤ k = omega (arith, kept.count) in
          kept.above k counted (alive.tidy k counted);
      runs = step _ request alive.runs answer;
    }

pub Lives-IsAlive :
    {s t : Store} {requests : List Request} {results : List ℤ}
    → IsSafe s
    → IsTidy s
    → Lives s requests results t
    → IsAlive s t requests results
Lives-IsAlive v tidy begin = record { safe = v; tidy = tidy; runs = still }
Lives-IsAlive {s} v tidy (ask {t} {u} {requests} {results} env request reply before m allowed e) =
    asked-IsAlive s t u requests results env request reply (Lives-IsAlive v tidy before) m allowed e
Lives-IsAlive {s} v tidy (restart {t} {u} {requests} {results} before r) =
    let alive = Lives-IsAlive v tidy before in
    let (safe, same) = Restarts-IsRestarted t u alive.safe alive.tidy r in
    record {
      safe = safe;
      tidy = IsTidy-view t u same alive.tidy;
      runs = subst (Runs (view s) requests results) (sym same) alive.runs;
    }

-- From formatDisk on with at least one inode, over any life of allowed requests with memory and of
-- restarts: where each restart finds 2 to 96 inodes of which the last was never used, and a disk that
-- takes every write, reads back what was written and gives nothing or a free inode at the last place,
-- the results are those that one run of the table, which knows of no restart, gives for the requests,
-- but for the number that a failing creation answers; the store stands for the table's last state, and
-- the invariant holds.
pub Lives-Runs :
    {s t : Store} {requests : List Request} {results : List ℤ} (size : ℕ)
    → IsFresh size s
    → 0 < (view s).count
    → Lives s requests results t
    → IsSafe t × Runs (view s) requests results (view t)
Lives-Runs {s} size fresh h life =
    let alive = Lives-IsAlive fresh.safe (fresh-IsTidy size s fresh h) life in
    (alive.safe, alive.runs)
