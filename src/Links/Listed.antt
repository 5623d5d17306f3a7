-- ===== src/Links/Listed.antt =====
-- What sfs_readdir of src/sfs.c lists in a run of the file system: files in use, none twice.
use mathlib.Core.List.{Memᴰ}
use mathlib.Core.List.Memᴰ
use mathlib.Core.Path.{subst}
use native.Mathlib.Decide.{dec_lt}
use simpel_dateisystem.Base.{
  ℕ, zero, suc, pos, ◌+◌, ◌<◌, ◌≤◌, ◌≡◌, refl, sym, inl, inr, ap, ◌∙◌, true, none, some, List, [],
  ◌∷◌, map, arith, is_some, Option-cases,
}
use simpel_dateisystem.Base.Outcome.{ok, Ensures}
use simpel_dateisystem.Base.CString.{Text, codes}
use simpel_dateisystem.Knoten.{Pointer, max_files_in_dir, max_inodes}
use simpel_dateisystem.Store.{Store, Env}
use simpel_dateisystem.Directory.{free_entry}
use simpel_dateisystem.Directory.Entries.{Entries, IsFirstFree, free_entry-IsFirstFree}
use simpel_dateisystem.Inodes.{find_file_or_dir}
use simpel_dateisystem.Inodes.Safe.{IsSafe}
use simpel_dateisystem.Inodes.Create.{InArray, find_file_or_dir-InArray}
use simpel_dateisystem.Format.Fresh.{IsFresh}
use simpel_dateisystem.Sfs.Readdir.{sfs_readdir}
use simpel_dateisystem.Sfs.Listing.{name_of, prefix_names, sfs_readdir_lem}
use simpel_dateisystem.Sfs.Safety.{Reach, Reach-IsSafe}
use simpel_dateisystem.Links.{Entered, IsEntry, IsLinked}
use simpel_dateisystem.Links.Entries.{IsOnce}
use simpel_dateisystem.Links.Runs.{AllName, Reach-IsLinked}

abbrev pub IsDistinct : List ℕ → Type 0
IsDistinct [] = Unit
IsDistinct (e ∷ es) = (¬ Memᴰ e es) × IsDistinct es

-- An entry in front of the numbers
abbrev with_number : Pointer → List ℕ → List ℕ
with_number none es = es
with_number (some e) es = e ∷ es

-- The inode numbers of `n` entries from `i` on.
abbrev pub numbers : Entries → ℕ → ℕ → List ℕ
numbers dir zero i = []
numbers dir (suc n) i = with_number (dir i) (numbers dir n (suc i))

module _ (dir : Entries) where
  -- A number of the list stands in the directory, from `i` on.
  numbers-stand :
      (n i e : ℕ) → Memᴰ e (numbers dir n i) → (j : ℕ) × (i ≤ j) × (j < i + n) × (dir j ≡ some e)
  numbers-stand zero i e m = absurd (Memᴰ.not-nil m)
  numbers-stand (suc n) i e m = first (dir i) refl (numbers-stand n (suc i) e) m
    where
      first :
          (o : Pointer)
          → dir i ≡ o
          → (Memᴰ e (numbers dir n (suc i))
              → (j : ℕ) × (suc i ≤ j) × (j < suc i + n) × (dir j ≡ some e))
          → Memᴰ e (with_number o (numbers dir n (suc i)))
          → (j : ℕ) × (i ≤ j) × (j < i + suc n) × (dir j ≡ some e)
      first none at later m = let (j, lo, hi, at_j) = later m in (j, omega arith, omega arith, at_j)
      first (some p) at later (Memᴰ.head same) =
          (i, omega arith, omega arith, at ∙ ap some (sym same))
      first (some p) at later (Memᴰ.tail m) =
          let (j, lo, hi, at_j) = later m in (j, omega arith, omega arith, at_j)

  -- What stands in the directory, from `i` on, is a number of the list.
  numbers-have : (n i j e : ℕ) → i ≤ j → j < i + n → dir j ≡ some e → Memᴰ e (numbers dir n i)
  numbers-have zero i j e lo hi at = absurd (omega arith)
  numbers-have (suc n) i j e lo hi at = elim (dec_lt i j) [
    | yes later ↦ behind (dir i) (numbers-have n (suc i) j e (omega arith) (omega arith) at)
    | no same ↦
        let here : dir i ≡ some e = ap dir (omega (arith, same, lo)) ∙ at in
        rw here (Memᴰ.head refl)
  ]
    where
      behind :
          (o : Pointer)
          → Memᴰ e (numbers dir n (suc i))
          → Memᴰ e (with_number o (numbers dir n (suc i)))
      behind none m = m
      behind (some p) m = Memᴰ.tail m

  numbers-IsDistinct :
      IsOnce dir → (n i : ℕ) → i + n ≤ max_files_in_dir → IsDistinct (numbers dir n i)
  numbers-IsDistinct once zero i h = tt
  numbers-IsDistinct once (suc n) i h = elim (Option-cases (dir i)) [
    | inl free ↦ rw free (numbers-IsDistinct once n (suc i) (omega arith))
    | inr (p, at) ↦ rw at (
      λ m.
          let (j, lo, hi, at_j) = numbers-stand n (suc i) p m in
          let same = once i j p (omega arith) (omega arith) at at_j in omega arith,
      numbers-IsDistinct once n (suc i) (omega arith),
    )
  ]

  numbers-names :
      (s : Store) (n i : ℕ)
      → ((j : ℕ) → i ≤ j → j < i + n → is_some (dir j) ≡ true)
      → prefix_names s dir n i ≡ map (λ e. (s.inodes e).file_name) (numbers dir n i)
  unfolding prefix_names name_of
  numbers-names s zero i taken = refl
  numbers-names s (suc n) i taken = elim (Option-cases (dir i)) [
    | inl free ↦
        let here = taken i (omega arith) (omega arith) in absurd (ground (arith, here, free))
    | inr (p, at) ↦ rw at (
        ap (λ names. (s.inodes p).file_name ∷ names)
          (numbers-names s n (suc i) (λ j lo hi. taken j (omega arith) (omega arith))))
  ]

first_free-low :
    (dir : Entries) (n : ℕ)
    → IsFirstFree dir 0 max_files_in_dir n
    → dir 29 ≡ none
    → n < max_files_in_dir
first_free-low dir n first last = elim (dec_lt n max_files_in_dir) [
  | yes low ↦ low
  | no top ↦
      let taken = first.taken 29 (omega arith) (omega (arith, top)) in
      absurd (ground (arith, taken, last))
]

-- An entry with no free entry in front of it stands in front of the first free one.
in_front :
    (dir : Entries) (n j : ℕ) {e : ℕ}
    → IsFirstFree dir 0 max_files_in_dir n
    → n < max_files_in_dir
    → dir j ≡ some e
    → ((k : ℕ) → k < j → is_some (dir k) ≡ true)
    → j < 0 + n
in_front dir n j first room at taken =
    let free = first.free (omega (arith, room)) in
    elim (dec_lt j n) [
      | yes low ↦ omega (arith, low)
      | no high ↦ elim (dec_lt n j) [
        | yes past ↦ let here = taken n past in absurd (ground (arith, here, free))
        | no same ↦
            let here : dir n ≡ _ = ap dir (omega (arith, high, same)) ∙ at in
            absurd (ground (arith, here, free))
      ]
    ]

-- The listing of inode `d`: ".", ".." and the names of inodes that are entered in `d`, of each that has
-- no free entry in front of its own, and of none twice.
pub record IsListing (env : Env) (s : Store) (path : Text) (d : ℕ) (es : List ℕ) : Type 0 where
  pub answer :
      sfs_readdir env s path
      ≡ ok (pos 0, codes "." ∷ codes ".." ∷ map (λ e. (s.inodes e).file_name) es)
  pub entered : (e : ℕ) → Memᴰ e es → Entered s d e
  pub complete :
      (j e : ℕ)
      → j < max_files_in_dir
      → (s.inodes d).dir_contents j ≡ some e
      → ((k : ℕ) → k < j → is_some ((s.inodes d).dir_contents k) ≡ true)
      → Memᴰ e es
  pub distinct : IsDistinct es

pub listed :
    (env : Env) (s : Store) (path : Text) (d : ℕ)
    → IsSafe s
    → IsLinked s
    → find_file_or_dir env s path ≡ ok (some d)
    → (s.inodes d).dir_contents 29 ≡ none
    → (es : List ℕ) × IsListing env s path d es
listed env s path d v linked found last =
    let hd : d < max_inodes =
      subst (Ensures InArray) found (find_file_or_dir-InArray env s path v.count) in
    let dir = (s.inodes d).dir_contents in
    let n = free_entry dir max_files_in_dir 0 in
    let first = free_entry-IsFirstFree dir max_files_in_dir 0 in
    let room : n < max_files_in_dir = first_free-low dir n first last in
    (
      numbers dir n 0,
      record {
        answer =
            (sfs_readdir_lem env s path d v hd found).0 n room (first.free (omega (arith, room)))
              (λ j hj. first.taken j (omega arith) hj)
            ∙ ap (λ names. ok (pos 0, codes "." ∷ codes ".." ∷ names))
                (numbers-names dir s n 0 (λ j lo hi. first.taken j lo (omega arith)));
        entered =
            λ e m. let (j, lo, hi, at) = numbers-stand dir n 0 e m in (j, omega (arith, room), at);
        complete = λ j e hj at taken.
            numbers-have dir n 0 j e (omega arith) (in_front dir n j first room at taken) at;
        distinct = numbers-IsDistinct dir (linked.once d hd) n 0 (omega (arith, room));
      },
    )

-- From formatDisk on, after any run of allowed requests whose new paths name their parents: for a path
-- that is found at an inode `d` whose last entry is free, sfs_readdir returns 0 and lists ".", ".."
-- and the names of inodes, none of them twice. Each of these inodes is entered in `d`, is in use and
-- knows `d` as its parent, and every inode that is entered in `d` with no free entry in front of its
-- own is among them.
pub run-sfs_readdir :
    (size : ℕ) (s t : Store) (env : Env) (path : Text) (d : ℕ)
    → IsFresh size s
    → (r : Reach s t) → AllName r
    → find_file_or_dir env t path ≡ ok (some d)
    → (t.inodes d).dir_contents 29 ≡ none
    → (es : List ℕ) × IsListing env t path d es × ((e : ℕ) → Memᴰ e es → IsEntry t d e)
run-sfs_readdir size s t env path d fresh r named found last =
    let v = Reach-IsSafe fresh.safe r in
    let linked = Reach-IsLinked size s t fresh r named in
    let hd : d < max_inodes =
      subst (Ensures InArray) found (find_file_or_dir-InArray env t path v.count) in
    let (es, listing) = listed env t path d v linked found last in
    (es, listing, λ e m. linked.entry d e hd (listing.entered e m))
