-- ===== src/Sfs/Lookup.antt =====
-- What the handlers answer about a path, before and after the tree changes.
use mathlib.Core.Path.{subst}
use simpel_dateisystem.Base.{
  ℕ, ℤ, pos, negsuc, ◌<◌, ◌≤◌, ◌≡◌, refl, sym, ◌≢◌, ap, ◌∙◌, Bool, true, false, none, some, arith,
}
use simpel_dateisystem.Base.Outcome.{Outcome, ok, Ensures, Ensures-bind, Ensures-ok, ◌>>=◌}
use simpel_dateisystem.Base.CString.{Text}
use simpel_dateisystem.Knoten.{Pointer, max_inodes}
use simpel_dateisystem.Store.{Store, Env, HasMemory}
use simpel_dateisystem.Path.{root_name}
use simpel_dateisystem.Inodes.{find_file_or_dir, remove_inode}
use simpel_dateisystem.Inodes.Find.{
  inode_count, Bears, IsFirst, IsFirst-unique, find_file_or_dir-IsFirst,
}
use simpel_dateisystem.Inodes.Safe.{IsSafe}
use simpel_dateisystem.Inodes.Remove.{
  IsRemoved, IsRemovedAt, remove_inode-IsRemoved, remove_inode-IsSafe,
}
use simpel_dateisystem.Inodes.Stale.{remove-find}
use simpel_dateisystem.Sfs.{
  remove_result, lookup_result, sfs_unlink, sfs_open, sfs_release, sfs_read, sfs_opendir,
}

-- The four handlers that only look a path up give this answer.
abbrev pub Answers : Env → Store → Text → Outcome (ℤ × Store) → Type 0
Answers env s path r =
    (sfs_open env s path ≡ r)
    × (sfs_release env s path ≡ r)
    × (sfs_opendir env s path ≡ r)
    × (sfs_read env s path ≡ r)

Answers-found :
    (env : Env) (s : Store) (path : Text) (r : Pointer)
    → find_file_or_dir env s path ≡ ok r
    → Answers env s path (ok (lookup_result s r))
unfolding sfs_open sfs_release sfs_opendir sfs_read
Answers-found env s path r e = rw e (refl, refl, refl, refl)

-- With memory, and where no more than 100 inodes are counted, sfs_open, sfs_release, sfs_opendir and sfs_read of another path than "/" return 0 and
-- change nothing if an inode bears the path's last two names, and otherwise return -ENOENT with errno
-- set to it.
pub lookup-Answers :
    (env : Env) (s : Store) (path : Text)
    → HasMemory env
    → inode_count s ≤ max_inodes
    → path ≢ root_name
    → (((x : ℕ) → x < inode_count s → Bears (s.inodes x) path → Answers env s path (ok (pos 0, s)))
        × (((x : ℕ) → x < inode_count s → ¬ Bears (s.inodes x) path)
            → Answers env s path (ok (negsuc 1, record s { errno = 2 }))))
lookup-Answers env s path m h ne =
    let (r, found, first) =
      Ensures-ok (IsFirst s path 0 (inode_count s)) (find_file_or_dir env s path)
        (find_file_or_dir-IsFirst env s path m h ne) in
    cases r found first
  where
    cases :
        (r : Pointer)
        → find_file_or_dir env s path ≡ ok r
        → IsFirst s path 0 (inode_count s) r
        → (((x : ℕ)
              → x < inode_count s
              → Bears (s.inodes x) path
              → Answers env s path (ok (pos 0, s)))
            × (((x : ℕ) → x < inode_count s → ¬ Bears (s.inodes x) path)
                → Answers env s path (ok (negsuc 1, record s { errno = 2 }))))
    cases none found first =
        (λ x hx b. absurd (first x (omega arith) hx b), λ _. Answers-found env s path none found)
    cases (some y) found (lo, hi, b, _) =
        (λ _ _ _. Answers-found env s path (some y) found, λ miss. absurd (miss y hi b))

-- Where both calls have memory a search does not depend on the call.
find-memory :
    (env env' : Env) (s : Store) (path : Text)
    → HasMemory env
    → HasMemory env'
    → inode_count s ≤ max_inodes
    → path ≢ root_name
    → find_file_or_dir env s path ≡ find_file_or_dir env' s path
find-memory env env' s path m m' h ne =
    let (p, is_p, first_p) =
      Ensures-ok (IsFirst s path 0 (inode_count s)) (find_file_or_dir env s path)
        (find_file_or_dir-IsFirst env s path m h ne) in
    let (q, is_q, first_q) =
      Ensures-ok (IsFirst s path 0 (inode_count s)) (find_file_or_dir env' s path)
        (find_file_or_dir-IsFirst env' s path m' h ne) in
    is_p ∙ ap ok (IsFirst-unique s path 0 (inode_count s) p q first_p first_q) ∙ sym is_q

removed_of : (r : Bool × Store) (t : Store) → ok (remove_result r) ≡ ok (pos 0, t) → r ≡ (true, t)
removed_of (true, u) t e = ground arith
removed_of (false, u) t e = ground arith

-- A sfs_unlink that has returned 0 is a remove_inode that has returned TRUE.
pub sfs_unlink-remove_inode :
    (env : Env) (s t : Store) (path : Text)
    → IsSafe s
    → path ≢ root_name
    → sfs_unlink env s path ≡ ok (pos 0, t)
    → remove_inode env s path ≡ ok (true, t)
unfolding sfs_unlink
sfs_unlink-remove_inode env s t path v ne e =
    let ((b, u), removal, is) =
      Ensures-ok (IsRemoved env s path) (remove_inode env s path)
        (remove_inode-IsRemoved env s path v ne) in
    let e' : ok (remove_result (b, u)) ≡ ok (pos 0, t) =
      sym (ap (λ r. r >>= (λ q. ok (remove_result q))) removal) ∙ e in
    removal ∙ ap ok (removed_of (b, u) t e')

-- On a safe store, with memory, and for another path than "/", a removed file does not go away: after
-- sfs_unlink has returned 0 for the path, sfs_open of the path still returns 0 and changes nothing,
-- and another sfs_unlink of it ends and returns 0, too.
pub unlink-open :
    (env env' : Env) (s t : Store) (path : Text)
    → IsSafe s
    → HasMemory env
    → HasMemory env'
    → path ≢ root_name
    → sfs_unlink env s path ≡ ok (pos 0, t)
    → (sfs_open env' t path ≡ ok (pos 0, t)) × Ensures (λ r. r.0 ≡ pos 0) (sfs_unlink env' t path)
unfolding sfs_unlink
unlink-open env env' s t path v m m' ne e =
    let removal = sfs_unlink-remove_inode env s t path v ne e in
    let at : IsRemovedAt env s path t =
      subst (Ensures (IsRemoved env s path)) removal (remove_inode-IsRemoved env s path v ne) in
    let kept : find_file_or_dir env' t path ≡ find_file_or_dir env' s path =
      remove-find env env' s t path path true v ne removal in
    let found : find_file_or_dir env' t path ≡ ok (some at.file) =
      kept ∙ find-memory env' env s path m' m v.count ne ∙ at.found in
    let vt : IsSafe t =
      subst (Ensures (λ r. IsSafe r.1)) removal (remove_inode-IsSafe env s path v ne) in
    (
      (Answers-found env' t path (some at.file) found).0,
      Ensures-bind (IsRemoved env' t path) (λ r. r.0 ≡ pos 0) (remove_inode env' t path) _
          (remove_inode-IsRemoved env' t path vt ne) λ r again. removed_again r at.file found again,
    )
  where
    removed_again :
        (r : Bool × Store) (file : ℕ)
        → find_file_or_dir env' t path ≡ ok (some file)
        → IsRemoved env' t path r
        → (remove_result r).0 ≡ pos 0
    removed_again (true, w) file found again = refl
    removed_again (false, w) file found (_, missing) = cc (found, missing)
