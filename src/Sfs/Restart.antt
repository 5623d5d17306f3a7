-- ===== src/Sfs/Restart.antt =====
-- A run of the file system, its end, and the next start: the files are found as before.
use mathlib.Core.Path.{subst}
use simpel_dateisystem.Base.{
  ℕ, suc, pos, ◌-◌, ◌<◌, ◌≤◌, ◌≡◌, sym, ◌≢◌, ap, ◌∙◌, Option, none, some, arith, pos_part,
}
use simpel_dateisystem.Base.Outcome.{ok, Ensures, Ensures-mono, Ensures-ok}
use simpel_dateisystem.Base.CString.{Text}
use simpel_dateisystem.Store.{Store, Env, HasMemory, start_store}
use simpel_dateisystem.Path.{root_name}
use simpel_dateisystem.Inodes.{find_file_or_dir}
use simpel_dateisystem.Inodes.Find.{
  inode_count, Bears, IsFirst, IsFirst-unique, find_file_or_dir-IsFirst,
}
use simpel_dateisystem.Format.Fresh.{IsFresh}
use simpel_dateisystem.Mount.{Disk, sfs_init, sfs_destroy}
use simpel_dateisystem.Mount.Medium.{ReadsBack}
use simpel_dateisystem.Mount.Load.{IsRestored, restored}
use simpel_dateisystem.Mount.Load.{Holds}
use simpel_dateisystem.Mount.Final.{IsSane, EndsIn}
use simpel_dateisystem.Mount.Sound.{IsMounted, sfs_init-IsMounted}
use simpel_dateisystem.Mount.Again.{destroyed-Holds, TakesAll, sfs_destroy-sfs_init}
use simpel_dateisystem.Sfs.Safety.{Reach, Reach-IsSafe}

-- The path is found at inode `x`.
abbrev pub FoundAt : Env → Text → ℕ → Option Store → Type 0
FoundAt env path x none = ⊥
FoundAt env path x (some t) = find_file_or_dir env t path ≡ ok (some x)

-- What comes first in a store comes first in every store with the same inodes up to it.
IsFirst-prefix :
    (s t : Store) (path : Text) (n x : ℕ)
    → ((k : ℕ) → k < suc x → t.inodes k ≡ s.inodes k)
    → IsFirst s path 0 n (some x)
    → IsFirst t path 0 n (some x)
IsFirst-prefix s t path n x same (lo, hi, hit, before) = (
  lo,
  hi,
  subst (λ f. Bears f path) (sym (same x (omega arith))) hit,
  λ y lo' hi' b. before y lo' hi' (subst (λ f. Bears f path) (same y (omega arith)) b),
)

restored-FoundAt :
    (env env' : Env) (s : Store) (path : Text) (n x : ℕ) (o : Option Store)
    → n ≤ 96
    → s.s_block.num_inodes ≡ pos n
    → HasMemory env
    → HasMemory env'
    → path ≢ root_name
    → find_file_or_dir env s path ≡ ok (some x)
    → x < n - 1
    → IsRestored s.s_block s.inodes (n - 1) o
    → FoundAt env' path x o
restored-FoundAt env env' s path n x o few counted m m' ne found hx (restored t same count marks) =
    let count_s : inode_count s ≡ n = ap pos_part counted in
    let count_t : inode_count t ≡ n = ap pos_part (count ∙ counted) in
    let first_s : IsFirst s path 0 (inode_count s) (some x) =
      subst (Ensures (IsFirst s path 0 (inode_count s))) found
        (find_file_or_dir-IsFirst env s path m (rw count_s (omega arith)) ne) in
    let (r, is_r, first_r) =
      Ensures-ok (IsFirst t path 0 (inode_count t)) (find_file_or_dir env' t path)
        (find_file_or_dir-IsFirst env' t path m' (rw count_t (omega arith)) ne) in
    let first_t : IsFirst t path 0 (inode_count t) (some x) =
      subst (λ c. IsFirst t path 0 c (some x)) (count_s ∙ sym count_t)
        (IsFirst-prefix s t path (inode_count s) x (λ k h. same k (omega arith)) first_s) in
    is_r ∙ ap ok (IsFirst-unique t path 0 (inode_count t) r (some x) first_r first_t)

-- From formatDisk on with a count of up to 96 inodes, after any run of allowed requests: when
-- sfs_destroy has written the store to a disk that takes every write and the program starts again on
-- a disk file that reads back what was written, sfs_init ends without leaving an array, and a path
-- other than "/" that was found at an inode in front of the last counted one is found there again.
pub restart-find :
    (size : ℕ) (s0 s t : Store) (env env' find_env find_env' : Env) (disk : Disk) (fd n x : ℕ)
    (path : Text)
    → IsFresh size s0
    → Reach s0 s
    → s.s_block.num_inodes ≡ pos n
    → n ≤ 96
    → HasMemory find_env
    → HasMemory find_env'
    → path ≢ root_name
    → find_file_or_dir find_env s path ≡ ok (some x)
    → x < n - 1
    → TakesAll env
    → sfs_destroy env s ≡ ok t
    → disk.open_result ≡ pos fd
    → ReadsBack disk t.writes
    → Ensures (FoundAt find_env' path x) (sfs_init disk env' start_store)
restart-find size s0 s t env env' find_env find_env' disk fd n x path fresh r counted few m m' ne
      found hx takes e descriptor law =
    Ensures-mono (IsRestored s.s_block s.inodes (n - 1)) (FoundAt find_env' path x)
      (sfs_init disk env' start_store)
      (sfs_destroy-sfs_init env env' s t disk fd n (Reach-IsSafe fresh.safe r) counted few takes e
        descriptor law)
      λ o back. restored-FoundAt find_env find_env' s path n x o few counted m m' ne found hx back

-- From formatDisk on with a count of 2 to 96 inodes, after any run of allowed requests: when sfs_destroy
-- has written the store to a disk that takes every write and the program starts again on a disk file
-- that reads back what was written, sfs_init ends within the array and the new store keeps the
-- invariant `IsSafe`, if the place of the last inode, which is never written, cannot be read or gives
-- an inode that the invariant allows.
pub restart-IsMounted :
    (size : ℕ) (s0 s t : Store) (env env' : Env) (disk : Disk) (fd m : ℕ)
    → IsFresh size s0
    → Reach s0 s
    → s.s_block.num_inodes ≡ pos (suc m)
    → 0 < m
    → m < 96
    → TakesAll env
    → sfs_destroy env s ≡ ok t
    → disk.open_result ≡ pos fd
    → ReadsBack disk t.writes
    → EndsIn IsSane disk m
    → Ensures IsMounted (sfs_init disk env' start_store)
restart-IsMounted size s0 s t env env' disk fd m fresh r counted positive few takes e descriptor law
      sound =
    let v = Reach-IsSafe fresh.safe r in
    let (sb, holds) = destroyed-Holds env s t disk (suc m) v counted (omega arith) takes e law in
    let same : suc m - 1 ≡ m = omega arith in
    sfs_init-IsMounted disk env' s fd m 11743 v descriptor sb counted positive few
      (subst (Holds disk s.inodes) same holds) sound
