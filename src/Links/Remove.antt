-- ===== src/Links/Remove.antt =====
-- What remove_inode of src/DateiSteuerBlock.c does to the links between the inodes.
use mathlib.Core.Path.{subst, ap₂}
use native.Mathlib.Decide.{ℕ_discrete}
use simpel_dateisystem.Base.{
  ℕ, pos, ◌<◌, ◌≤◌, ◌≡◌, refl, sym, ◌≢◌, ◌↔◌, inl, inr, ap, ◌∙◌, Bool, true, false, some, [], arith,
  update, ==_false,
}
use simpel_dateisystem.Base.Outcome.{ok, Ensures}
use simpel_dateisystem.Base.CString.{Text}
use simpel_dateisystem.Knoten.{FileControlBlock, max_files_in_dir, max_inodes}
use simpel_dateisystem.Store.{Store, Env}
use simpel_dateisystem.Path.{root_name}
use simpel_dateisystem.Directory.Effects.{put, put_at, put_ne, without_entry}
use simpel_dateisystem.Directory.Unlink.{Refers, Unlinked, absent, removed}
use simpel_dateisystem.Inodes.{find_file_or_dir, remove_inode}
use simpel_dateisystem.Inodes.Safe.{IsSafe}
use simpel_dateisystem.Inodes.Flush.{OnlyWrites}
use simpel_dateisystem.Inodes.Create.{mark}
use simpel_dateisystem.Inodes.Remove.{IsRemoved, IsRemovedAt, remove_inode-IsRemoved}
use simpel_dateisystem.Links.{Entered, IsLinked, IsLinked-same}
use simpel_dateisystem.Links.Entries.{Member, IsOnce, without_entry-Member, without_entry-IsOnce}

-- The names and numbers of all inodes are the same.
pub record SameNumbers (s t : Store) : Type 0 where
  pub inumber : (k : ℕ) → (t.inodes k).inumber ≡ (s.inodes k).inumber
  pub up : (k : ℕ) → (t.inodes k).parent_inumber ≡ (s.inodes k).parent_inumber
  pub name : (k : ℕ) → (t.inodes k).file_name ≡ (s.inodes k).file_name

SameNumbers-through : (s t u : Store) → u.inodes ≡ t.inodes → SameNumbers s t → SameNumbers s u
SameNumbers-through s t u e same = record {
  inumber = λ k. ap (λ (f : ℕ → FileControlBlock). (f k).inumber) e ∙ same.inumber k;
  up = λ k. ap (λ (f : ℕ → FileControlBlock). (f k).parent_inumber) e ∙ same.up k;
  name = λ k. ap (λ (f : ℕ → FileControlBlock). (f k).file_name) e ∙ same.name k;
}

-- `t` has the entries of `s` but for those of `file`.
pub record Unlinks (s t : Store) (file : ℕ) : Type 0 where
  pub members : (d e : ℕ) → d < max_inodes → Entered t d e ↔ (Entered s d e × (e ≢ file))
  pub once : (d : ℕ) → d < max_inodes → IsOnce (t.inodes d).dir_contents
  pub same : SameNumbers s t
  pub marks : t.s_block.ibmap ≡ s.s_block.ibmap

module _ (s : Store) (linked : IsLinked s) (file parent : ℕ) (hf : file < max_inodes)
    (hp : parent < max_inodes) (up : (s.inodes file).parent_inumber ≡ pos parent) where
  -- Only the parent has entries of the file.
  only_parent : (d : ℕ) → d < max_inodes → Entered s d file → d ≡ parent
  only_parent d hd m = let e = sym (linked.entry d file hd m).up ∙ up in ground arith

  -- An entry with the number of the file is the file.
  referred :
      (j e : ℕ)
      → j < max_files_in_dir
      → (s.inodes parent).dir_contents j ≡ some e
      → (s.inodes e).inumber ≡ (s.inodes file).inumber
      → e ≡ file
  referred j e hj at same =
      let known = linked.entry parent e hp (j, hj, at) in
      elim (linked.numbered file hf) [
        | inl own ↦ let n = sym known.number ∙ same ∙ own in ground arith
        | inr (none_yet, _) ↦
            let n = sym known.number ∙ same ∙ none_yet in ground (arith, known.ne_root)
      ]

  absent-Unlinks :
      ((j : ℕ) → 0 ≤ j → j < max_files_in_dir → ¬ Refers s parent file j) → Unlinks s s file
  absent-Unlinks all = record {
    members = λ d e hd. (λ m. (m, λ q. out d hd (subst (Entered s d) q m)), λ (m, _). m);
    once = linked.once;
    same = record { inumber = λ k. refl; up = λ k. refl; name = λ k. refl };
    marks = refl;
  }
    where
      out : (d : ℕ) → d < max_inodes → ¬ Entered s d file
      out d hd m =
          let (j, hj, at) = subst (λ k. Entered s k file) (only_parent d hd m) m in
          all j (omega arith) hj (file, at, refl)

  removed-SameNumbers : (i : ℕ) → SameNumbers s (put s parent (without_entry (s.inodes parent) i))
  unfolding without_entry
  removed-SameNumbers i = record {
    inumber = λ k. ground arith;
    up = λ k. ground arith;
    name = λ k. ground arith;
  }

  removed-Unlinks :
      (i : ℕ)
      → i < max_files_in_dir
      → (s.inodes parent).dir_contents i ≡ some file
      → Unlinks s (put s parent (without_entry (s.inodes parent) i)) file
  removed-Unlinks i hi at =
      let f = s.inodes parent in
      let g = without_entry f i in
      let once = linked.once parent hp in
      record {
        members = λ d e hd. elim (ℕ_discrete d parent) [
          | yes q ↦ rw (q, put_at s parent g) (without_entry-Member f i hi once file at e)
          | no ne ↦
              rw (put_ne s parent d g ne)
                (λ m. (m, λ q. ne (only_parent d hd (subst (Entered s d) q m))), λ (m, _). m)
        ];
        once = λ d hd. elim (ℕ_discrete d parent) [
          | yes q ↦ rw (q, put_at s parent g) (without_entry-IsOnce f i hi once file at)
          | no ne ↦ rw (put_ne s parent d g ne) (linked.once d hd)
        ];
        same = removed-SameNumbers i;
        marks = refl;
      }

  Unlinked-Unlinks : (t : Store) → Unlinked s parent file 0 t → Unlinks s t file
  Unlinked-Unlinks t (absent all e) = rw e (absent-Unlinks all)
  Unlinked-Unlinks t (removed i lo hi (e', at, same) before e) =
      rw e (removed-Unlinks i hi (at ∙ ap some (referred i e' hi at same)))

module _ (s t : Store) (linked : IsLinked s) (file number : ℕ) (hf : file < max_inodes)
    (u : Unlinks s t file) (number_is : (t.inodes file).inumber ≡ pos number) where
  -- The mark that is cleared is not that of another file that is entered.
  other_mark : (d e : ℕ) → d < max_inodes → Entered t d e → e ≢ number
  other_mark d e hd m q =
      let (before, ne) = (u.members d e hd).0 m in
      let known = linked.entry d e hd before in
      let is_number : (s.inodes file).inumber ≡ pos number =
        sym (u.same.inumber file) ∙ number_is in
      elim (linked.numbered file hf) [
        | inl own ↦ let n = sym own ∙ is_number in ne (ground (arith, n, q))
        | inr (none_yet, _) ↦
            let n = sym none_yet ∙ is_number in ground (arith, known.ne_root, n, q)
      ]

  Unlinks-IsLinked : IsLinked (mark t number 0)
  Unlinks-IsLinked = record {
    entry = λ d e hd m.
        let known = linked.entry d e hd ((u.members d e hd).0 m).0 in
        record {
          ne_root = known.ne_root;
          number = u.same.inumber e ∙ known.number;
          up = u.same.up e ∙ known.up;
          used = rw (==_false e number (other_mark d e hd m)) (ap (λ m. m e) u.marks ∙ known.used);
        };
    once = u.once;
    numbered = λ k hk. elim (linked.numbered k hk) [
      | inl own ↦ inl (u.same.inumber k ∙ own)
      | inr (none_yet, no_name) ↦ inr (u.same.inumber k ∙ none_yet, u.same.name k ∙ no_name)
    ];
  }

pub OnlyWrites-IsLinked : (s t : Store) → OnlyWrites s t → IsLinked s → IsLinked t
OnlyWrites-IsLinked s t only =
    IsLinked-same s t (ap (λ (r : Store). r.inodes) only) (ap (λ (r : Store). r.s_block.ibmap) only)

-- The links after a removal that returned TRUE: all are as before, but the file that the path was found
-- at is entered nowhere.
pub record IsCut (s t : Store) (file : ℕ) : Type 0 where
  pub linked : IsLinked t
  pub members : (d e : ℕ) → d < max_inodes → Entered t d e ↔ (Entered s d e × (e ≢ file))
  pub same : SameNumbers s t
  pub freed :
      (s.inodes file).file_name ≢ [] → (k : ℕ) → t.s_block.ibmap k ≡ update s.s_block.ibmap file 0 k

module _ (env : Env) (s t : Store) (path : Text) (v : IsSafe s) (linked : IsLinked s) where
  removed-IsCut : (r : IsRemovedAt env s path t) → IsCut s t r.file
  removed-IsCut r =
      let hf : r.file < max_inodes = omega (arith, r.counted, v.count) in
      let u =
        Unlinked-Unlinks s linked r.file r.parent hf r.parent_in r.parent_is r.between r.unlinked in
      let inodes : t.inodes ≡ r.between.inodes = ap (λ (w : Store). w.inodes) r.store in
      let number_own : (s.inodes r.file).file_name ≢ [] → r.number ≡ r.file = λ named.
        elim (linked.numbered r.file hf) [
          | inl own ↦ let q = sym r.number_is ∙ u.same.inumber r.file ∙ own in ground arith
          | inr (_, no_name) ↦ absurd (named no_name)
        ] in
      record {
        linked =
            OnlyWrites-IsLinked (mark r.between r.number 0) t r.store
              (Unlinks-IsLinked s r.between linked r.file r.number hf u r.number_is);
        members = λ d e hd.
            subst (λ (i : ℕ → _). Member (i d).dir_contents e ↔ (Entered s d e × (e ≢ r.file)))
              (sym inodes) (u.members d e hd);
        same = SameNumbers-through s r.between t inodes u.same;
        freed = λ named k.
            ap (λ (w : Store). w.s_block.ibmap k) r.store
            ∙ ap₂ (λ m n. update m n 0 k) u.marks (number_own named);
      }

  -- On a safe and linked store: a call of remove_inode for another path than "/" that returned TRUE
  -- takes the file that the path was found at out of every directory and no other file out of any,
  -- keeps all names and numbers and, if the file has a name, clears its mark alone, and keeps the
  -- store linked.
  pub remove-IsCut :
      (file : ℕ)
      → path ≢ root_name
      → find_file_or_dir env s path ≡ ok (some file)
      → remove_inode env s path ≡ ok (true, t)
      → IsCut s t file
  remove-IsCut file ne found e =
      let r : IsRemovedAt env s path t =
        subst (Ensures (IsRemoved env s path)) e (remove_inode-IsRemoved env s path v ne) in
      let same : r.file ≡ file = let q = sym r.found ∙ found in ground arith in
      subst (IsCut s t) same (removed-IsCut r)

  pub removed-IsLinked : (b : Bool) → IsRemoved env s path (b, t) → IsLinked t
  removed-IsLinked false (same, _) = subst IsLinked (sym same) linked
  removed-IsLinked true r = (removed-IsCut r).linked
