-- ===== src/Inodes/Stale.antt =====
-- What remove_inode leaves behind: the inode keeps its names, and findFileOrDir does not look at the
-- inode map, so every path is found as before.
use mathlib.Core.Path.{subst, fun_ext}
use simpel_dateisystem.Base.{
  ℕ, zero, suc, ◌≡◌, refl, ◌≢◌, inl, inr, ap, ◌∙◌, Bool, true, false, Option, some, arith, ltb,
  if◌then◌else◌, Bool-cases,
}
use simpel_dateisystem.Base.Outcome.{ok, Ensures, ◌>>=◌}
use simpel_dateisystem.Base.CString.{Text, str_eq}
use simpel_dateisystem.Knoten.{FileControlBlock, max_inodes}
use simpel_dateisystem.Store.{Store, Env}
use simpel_dateisystem.Path.{root_name, relative_name, get_relative_parent_name}
use simpel_dateisystem.Directory.Effects.{without_entry}
use simpel_dateisystem.Directory.Unlink.{Unlinked, absent, removed}
use simpel_dateisystem.Inodes.{is_file_at, find_from, find_file_or_dir, remove_inode, rounds}
use simpel_dateisystem.Inodes.Safe.{IsSafe}
use simpel_dateisystem.Inodes.Created.{has_parent_name-same}
use simpel_dateisystem.Inodes.Remove.{IsRemoved, remove_inode-IsRemoved}

-- The two stores have as many inodes, with the same names.
pub record SameNames (s t : Store) : Type 0 where
  pub count : t.s_block.num_inodes ≡ s.s_block.num_inodes
  pub name : (k : ℕ) → (t.inodes k).file_name ≡ (s.inodes k).file_name
  pub dir : (k : ℕ) → (t.inodes k).parent_dir ≡ (s.inodes k).parent_dir

is_file_at-same :
    (env : Env) (f g : FileControlBlock) (path : Text) (x : ℕ)
    → f.file_name ≡ g.file_name
    → f.parent_dir ≡ g.parent_dir
    → is_file_at env f path x ≡ is_file_at env g path x
unfolding is_file_at
is_file_at-same env f g path x name dir = rw name (
    ap
      (λ (test : Option Text → Bool).
        if str_eq g.file_name (relative_name path)
        then get_relative_parent_name (env.find x) (some path)
          >>= (λ parent_name. ok (test parent_name))
        else ok false)
      (fun_ext λ o. has_parent_name-same f g o dir))

module _ (env : Env) (s t : Store) (path : Text) (same : SameNames s t) where
  find_from-same : (left x : ℕ) → find_from env t path left x ≡ find_from env s path left x
  unfolding find_from
  find_from-same zero x = refl
  find_from-same (suc left) x = elim (Bool-cases (ltb x max_inodes)) [
    | inl inside ↦ rw (
      inside,
      is_file_at-same env (t.inodes x) (s.inodes x) path x (same.name x) (same.dir x),
      find_from-same left (suc x),
    )
    | inr outside ↦ rw outside
  ]

  pub find_file_or_dir-same : find_file_or_dir env t path ≡ find_file_or_dir env s path
  unfolding find_file_or_dir
  find_file_or_dir-same =
      ap (λ n. if str_eq path root_name then ok (some 0) else find_from env t path (rounds 0 n) 0)
        same.count
      ∙ ap (λ r. if str_eq path root_name then ok (some 0) else r)
          (find_from-same (rounds 0 s.s_block.num_inodes) 0)

Unlinked-SameNames : (s t : Store) (parent child : ℕ) → Unlinked s parent child 0 t → SameNames s t
unfolding without_entry
Unlinked-SameNames s t parent child (absent all e) =
    rw e (record { count = refl; name = λ k. refl; dir = λ k. refl })
Unlinked-SameNames s t parent child (removed i lo hi hit before e) =
    rw e (record { count = refl; name = λ k. ground arith; dir = λ k. ground arith })

pub removed-SameNames :
    (env : Env) (s : Store) (path : Text) (r : Bool × Store)
    → IsRemoved env s path r
    → SameNames s r.1
removed-SameNames env s path (false, t) (e, _) =
    rw e (record { count = refl; name = λ k. refl; dir = λ k. refl })
removed-SameNames env s path (true, t) r =
    let u = Unlinked-SameNames s r.between r.parent r.file r.unlinked in
    record {
      count = ap (λ (q : Store). q.s_block.num_inodes) r.store ∙ u.count;
      name = λ k. ap (λ (q : Store). (q.inodes k).file_name) r.store ∙ u.name k;
      dir = λ k. ap (λ (q : Store). (q.inodes k).parent_dir) r.store ∙ u.dir k;
    }

-- A file that remove_inode has removed is still found by its path, and so is every other: after a call
-- on a safe store for another path than "/", findFileOrDir gives for each path the result that it gave
-- before.
pub remove-find :
    (env env' : Env) (s t : Store) (path q : Text) (b : Bool)
    → IsSafe s
    → path ≢ root_name
    → remove_inode env s path ≡ ok (b, t)
    → find_file_or_dir env' t q ≡ find_file_or_dir env' s q
remove-find env env' s t path q b v ne e = find_file_or_dir-same env' s t q (
    removed-SameNames env s path (b, t)
      (subst (Ensures (IsRemoved env s path)) e (remove_inode-IsRemoved env s path v ne)))
