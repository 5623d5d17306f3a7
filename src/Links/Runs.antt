-- ===== src/Links/Runs.antt =====
-- The links between the inodes in every run of the file system of src/sfs.c from formatDisk on.
use mathlib.Core.Path.{subst}
use native.Mathlib.Decide.{ℕ_discrete}
use simpel_dateisystem.Base.{ℕ, pos, ◌<◌, ◌≡◌, sym, ap, ◌∙◌, inl, inr, arith, none, some}
use simpel_dateisystem.Base.Outcome.{Ensures, Ensures-mono}
use simpel_dateisystem.Base.CString.{Text}
use simpel_dateisystem.Knoten.{FileControlBlock, Superblock, Pointer, max_inodes}
use simpel_dateisystem.Store.{Store, Env}
use simpel_dateisystem.Inodes.{create_inode, remove_inode}
use simpel_dateisystem.Inodes.Safe.{IsSafe}
use simpel_dateisystem.Inodes.Create.{IsCreated, create_inode-IsCreated}
use simpel_dateisystem.Inodes.Remove.{IsRemoved, remove_inode-IsRemoved}
use simpel_dateisystem.Format.Fresh.{IsFresh}
use simpel_dateisystem.Sfs.Requests.{Request, handle}
use simpel_dateisystem.Sfs.Keeps.{IsAllowed, Asks, IsOfTree, handle-Keeps}
use simpel_dateisystem.Sfs.Safety.{Reach, here, next, Reach-IsSafe}
use simpel_dateisystem.Links.{Entered, IsLinked, IsLinked-same}
use simpel_dateisystem.Links.Parent.{NamesParent}
use simpel_dateisystem.Links.Create.{created-IsJoined}
use simpel_dateisystem.Links.Remove.{removed-IsLinked}

-- A new disk has no entries at all, and no named inode but the root.
pub fresh-IsLinked : (size : ℕ) (s : Store) → IsFresh size s → IsLinked s
fresh-IsLinked size s fresh = record {
  entry = λ d e hd m. absurd (empty d hd e m);
  once = λ d hd j k e hj hk at_j at_k. absurd (empty d hd e (j, hj, at_j));
  numbered = λ k hk. elim (ℕ_discrete k 0) [
    | yes root ↦ inl (ap (λ j. (s.inodes j).inumber) root ∙ fresh.root_number ∙ ap pos (sym root))
    | no ne ↦
        let z = fresh.nameless k (omega arith) in
        inr
          (ap (λ (f : FileControlBlock). f.inumber) z, ap (λ (f : FileControlBlock). f.file_name) z)
  ];
}
  where
    empty : (d : ℕ) → d < max_inodes → (e : ℕ) → ¬ Entered s d e
    empty d hd e (j, hj, at) = elim (ℕ_discrete d 0) [
      | yes root ↦
          let free = fresh.root_empty j hj in
          let taken = ap (λ k. (s.inodes k).dir_contents j) (sym root) ∙ at in cc (free, taken)
      | no ne ↦
          let z = fresh.nameless d (omega arith) in
          let free : (s.inodes d).dir_contents j ≡ none =
            ap (λ (f : FileControlBlock). f.dir_contents j) z in
          cc (free, at)
    ]

IsLinked-IsOfTree : IsOfTree IsLinked
IsLinked-IsOfTree s t e b linked = IsLinked-same s t e (ap (λ (q : Superblock). q.ibmap) b) linked

module _ (env : Env) (s : Store) (v : IsSafe s) (linked : IsLinked s) where
  create-IsLinked :
      (path : Text) (mode : ℕ) (r : Pointer × Store)
      → NamesParent path
      → IsCreated env s path mode r
      → IsLinked r.1
  create-IsLinked path mode (none, t) names (same, _) = subst IsLinked (sym same) linked
  create-IsLinked path mode (some i, t) names c =
      (created-IsJoined env s t path mode i v linked names c).linked

  -- Every handler keeps a safe store linked, if the path of a new file names its parent.
  pub handle-IsLinked :
      (request : Request)
      → IsAllowed s request
      → Asks NamesParent request
      → Ensures (λ r. IsLinked r.1) (handle env s request)
  handle-IsLinked request allowed named =
      handle-Keeps IsLinked IsLinked-IsOfTree NamesParent env s v linked
        (λ path mode fits names.
          Ensures-mono (IsCreated env s path mode) _ (create_inode env s path mode)
            (create_inode-IsCreated env s path mode v.count fits)
            λ r c. create-IsLinked path mode r names c)
        (λ path ne.
          Ensures-mono (IsRemoved env s path) _ (remove_inode env s path)
            (remove_inode-IsRemoved env s path v ne)
            λ r c. removed-IsLinked env s r.1 path v linked r.0 c)
        request allowed named

-- In every step of the run, the path of a new file names its parent.
abbrev pub AllName : {s t : Store} → Reach s t → Type 0
AllName here = Unit
AllName (next env request reply before allowed e) = Asks NamesParent request × AllName before

pub Reach-IsLinked :
    (size : ℕ) (s t : Store) → IsFresh size s → (r : Reach s t) → AllName r → IsLinked t
Reach-IsLinked size s t fresh here named = fresh-IsLinked size s fresh
Reach-IsLinked size s t fresh (next {t = now} env request reply before allowed e) (named, earlier) =
    subst (Ensures (λ q. IsLinked q.1)) e (
      handle-IsLinked env now (Reach-IsSafe fresh.safe before)
        (Reach-IsLinked size s now fresh before earlier) request allowed named)

-- From formatDisk on, after any run of allowed requests whose new paths name their parents: an entry
-- of a directory is never the root, it is an inode in use with its own number that knows the
-- directory as its parent; no inode is entered twice in a directory, and none in two directories.
pub run-IsLinked :
    (size : ℕ) (s t : Store)
    → IsFresh size s
    → (r : Reach s t) → AllName r
    → IsLinked t
      × ((d d' e : ℕ) → d < max_inodes → d' < max_inodes → Entered t d e → Entered t d' e → d ≡ d')
run-IsLinked size s t fresh r named =
    let linked = Reach-IsLinked size s t fresh r named in
    (
      linked,
      λ d d' e hd hd' m m'.
          let same = sym (linked.entry d e hd m).up ∙ (linked.entry d' e hd' m').up in ground arith,
    )
