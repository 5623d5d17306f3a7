-- ===== src/Links/Itself.antt =====
-- A file made in a directory that has been removed: create_inode of src/DateiSteuerBlock.c finds the
-- removed directory by its names, and may take its inode for the file.
use mathlib.Core.Path.{subst, fun_ext}
use native.Mathlib.Decide.{dec_lt}
use simpel_dateisystem.Base.{
  ℕ, pos, pos_part, ◌<◌, ◌≡◌, refl, sym, ◌≢◌, inl, inr, ap, ◌∙◌, true, none, some, [], arith,
  ==_false, if◌then◌else◌, length,
}
use simpel_dateisystem.Base.Outcome.{Outcome, ok, Ensures, Ensures-mono, ◌>>=◌}
use simpel_dateisystem.Base.CString.{Text, str_eq, copy_into}
use simpel_dateisystem.Knoten.{Pointer, max_inodes}
use simpel_dateisystem.Store.{Store, Env, IsGranted}
use simpel_dateisystem.Path.{root_name, relative_name}
use simpel_dateisystem.Path.Front.{front_path}
use simpel_dateisystem.Path.Parent.{parent_name, get_relative_parent_name-granted}
use simpel_dateisystem.Inodes.{
  find_root_or_die_trying, find_file_or_dir, create_inode, remove_inode, find_parent,
}
use simpel_dateisystem.Inodes.Find.{inode_count}
use simpel_dateisystem.Inodes.Safe.{IsSafe}
use simpel_dateisystem.Inodes.Create.{
  Fits, Refused, all_used, no_name, no_parent, IsCreated, IsCreatedAt, create_inode-IsCreated,
}
use simpel_dateisystem.Inodes.Created.{created_names}
use simpel_dateisystem.Inodes.Remove.{
  IsRemoved, IsRemovedAt, remove_inode-IsRemoved, remove_inode-IsSafe,
}
use simpel_dateisystem.Inodes.Stale.{removed-SameNames, remove-find}
use simpel_dateisystem.Sfs.Reuse.{created_parent}
use simpel_dateisystem.Links.{Entered, IsLinked}
use simpel_dateisystem.Links.Entries.{HasRoom}
use simpel_dateisystem.Links.Create.{created_up, created_members}
use simpel_dateisystem.Links.Remove.{remove-IsCut}

-- The inode is its own parent, under its new name.
pub record IsOwnParent (s : Store) (path : Text) (i : ℕ) (t : Store) : Type 0 where
  pub up : (t.inodes i).parent_inumber ≡ pos i
  pub name : (t.inodes i).file_name ≡ relative_name path
  pub entered : HasRoom (s.inodes i).dir_contents → Entered t i i

module _ (env : Env) (s : Store) (path dir : Text) (mode i : ℕ) (fits : Fits path)
    (granted : IsGranted env.parent) (v : IsSafe s) (named : parent_name path ≡ some dir)
    (found : find_parent env s path dir ≡ ok (some i)) (h0 : 0 < i) (hi : i < inode_count s)
    (free : s.s_block.ibmap i ≢ 1) where
  not-Refused : ¬ Refused env s path
  not-Refused (all_used all) = free (all i h0 hi)
  not-Refused (no_name e) =
      let q = sym e ∙ get_relative_parent_name-granted env.parent path granted ∙ ap ok named in
      ground arith
  not-Refused (no_parent d named' e) =
      let same : d ≡ dir = let q = sym named' ∙ named in ground arith in
      let q = sym e ∙ ap (find_parent env s path) same ∙ found in ground arith

  module _ (linked : IsLinked s) (own : (s.inodes i).inumber ≡ pos i)
      (used : (j : ℕ) → 0 < j → j < i → s.s_block.ibmap j ≡ 1) where
    created-IsOwnParent :
        (k : ℕ) (t : Store)
        → IsCreatedAt env s path mode k t
        → (some k ≡ some i) × IsOwnParent s path i t
    created-IsOwnParent k t c =
        let same : k ≡ i = elim (dec_lt k i) [
          | yes below ↦ absurd (c.free (used k c.ne_root below))
          | no above ↦ elim (dec_lt i k) [
            | yes over ↦ absurd (free (c.taken i h0 over))
            | no level ↦ omega (arith, above, level)
          ]
        ] in
        (ap some same, in_itself (subst (λ j. IsCreatedAt env s path mode j t) same c))
      where
        in_itself : {t : Store} → IsCreatedAt env s path mode i t → IsOwnParent s path i t
        in_itself c =
            let in_array : i < max_inodes = omega (arith, v.count) in
            let parent = created_parent c dir i named found in
            let own_parent = subst (λ p. (s.inodes p).inumber ≡ pos p) (sym parent) own in
            record {
              up = created_up c in_array own_parent ∙ ap pos parent;
              name = (created_names c).0;
              entered = λ room. (created_members linked c in_array own_parent i i).1 (
                  inr (
                    sym parent,
                    refl,
                    subst (λ p. HasRoom (s.inodes p).dir_contents) (sym parent) room,
                  ));
            }

    pub create_in_itself :
        Ensures (λ r. (r.0 ≡ some i) × IsOwnParent s path i r.1) (create_inode env s path mode)
    create_in_itself =
        Ensures-mono (IsCreated env s path mode) _ (create_inode env s path mode)
          (create_inode-IsCreated env s path mode v.count fits) at_result
      where
        at_result :
            (r : Pointer × Store)
            → IsCreated env s path mode r
            → (r.0 ≡ some i) × IsOwnParent s path i r.1
        at_result (none, t) (_, why) = absurd (not-Refused why)
        at_result (some k, t) c = created-IsOwnParent k t c

find_parent-same :
    (env : Env) (s t : Store) (path dir : Text)
    → ((q : Text) → find_file_or_dir env t q ≡ find_file_or_dir env s q)
    → find_parent env t path dir ≡ find_parent env s path dir
unfolding find_parent
find_parent-same env s t path dir same =
    ap
      (λ (search : Text → Outcome Pointer).
        if str_eq dir root_name
        then ok find_root_or_die_trying
        else if env.path
        then copy_into (length path) (front_path path) >>= search
        else ok none)
      (fun_ext same)

-- On a safe and linked store: a directory, not "/", with a name, is found at inode `f` and removed,
-- where every inode from 1 to `f` - 1 is in use, and then a file is made, by a path whose names fit
-- their buffers and whose parent was found at `f` before the removal, with memory for the parent's
-- name. Then create_inode takes inode `f` for the file: the inode is its own parent, bears the file's
-- name, and is an entry of itself if it had a free entry.
pub remove-create_in_itself :
    (env env' : Env) (s t : Store) (path new dir : Text) (mode f : ℕ)
    → IsSafe s
    → IsLinked s
    → path ≢ root_name
    → find_file_or_dir env s path ≡ ok (some f)
    → (s.inodes f).file_name ≢ []
    → ((j : ℕ) → 0 < j → j < f → s.s_block.ibmap j ≡ 1)
    → remove_inode env s path ≡ ok (true, t)
    → Fits new
    → IsGranted env'.parent
    → parent_name new ≡ some dir
    → find_parent env' s new dir ≡ ok (some f)
    → Ensures (λ r. (r.0 ≡ some f) × IsOwnParent t new f r.1) (create_inode env' t new mode)
remove-create_in_itself env env' s t path new dir mode f v linked ne found has_name used e fits
      granted named at_f =
    let r : IsRemovedAt env s path t =
      subst (Ensures (IsRemoved env s path)) e (remove_inode-IsRemoved env s path v ne) in
    let is_f : r.file ≡ f = let q = sym r.found ∙ found in ground arith in
    let cut = remove-IsCut env s t path v linked f ne found e in
    let safe : IsSafe t =
      subst (Ensures (λ q. IsSafe q.1)) e (remove_inode-IsSafe env s path v ne) in
    let names = removed-SameNames env s path (true, t) r in
    let own : (t.inodes f).inumber ≡ pos f =
      elim (linked.numbered f (omega (arith, r.counted, v.count, is_f))) [
        | inl q ↦ cut.same.inumber f ∙ q
        | inr (_, nameless) ↦ absurd (has_name nameless)
      ] in
    let count : inode_count t ≡ inode_count s = ap pos_part names.count in
    create_in_itself env' t new dir mode f fits granted safe named
      (find_parent-same env' s t new dir (λ q. remove-find env env' s t path q true v ne e) ∙ at_f)
      (omega (arith, r.ne_root, is_f)) (omega (arith, r.counted, is_f, count))
      (λ q. let z = sym (cut.freed has_name f) ∙ q in ground arith) cut.linked own
      (λ j lo hi. cut.freed has_name j ∙ rw (==_false j f (omega arith)) (used j lo hi))
