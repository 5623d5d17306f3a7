-- ===== src/Tests/Data.antt =====
-- A small tree for the examples: "/" with the directory "/a", and in that the file "/a/b".
use mathlib.Core.Path.{subst}
use simpel_dateisystem.Base.{
  ℕ, zero, suc, pos, negsuc, ◌<◌, ◌≡◌, refl, sym, ◌≢◌, true, none, some, arith, length, ap, ◌∙◌,
}
use simpel_dateisystem.Base.Outcome.{Outcome, ok, fault, Ensures}
use simpel_dateisystem.Base.CString.{Text, codes}
use simpel_dateisystem.Knoten.{FileControlBlock, zero_fcb, zero_superblock, max_inodes, name_size}
use simpel_dateisystem.Store.{Store, Env, Grants, IsGranted, HasMemory, start_store}
use simpel_dateisystem.Path.{root_name, relative_name}
use simpel_dateisystem.Path.Parent.{parent_name}
use simpel_dateisystem.Inodes.Create.{Fits}
use simpel_dateisystem.Directory.Entries.{Entries, FillsUp}
use simpel_dateisystem.Inodes.Safe.{IsIndex, EntriesIn, IsSound, IsSafe}

abbrev pub all_granted : Grants
all_granted = record { absolute = true; root = true; relative = true }

pub all_granted-IsGranted : IsGranted all_granted
all_granted-IsGranted = record { absolute = refl; root = refl; relative = refl }

-- A call with memory, at which the disk takes every byte.
abbrev pub calm : Env
calm = record {
  find = λ _. all_granted;
  parent = all_granted;
  path = true;
  uid = 1000;
  gid = 100;
  time = pos 77;
  pwrite = λ _ call. call.size;
  errno = λ e. e;
}

pub calm-HasMemory : HasMemory calm
calm-HasMemory = record {
  find = λ x. all_granted-IsGranted;
  parent = all_granted-IsGranted;
  path = refl;
}

-- A directory with one entry
abbrev pub one_entry : ℕ → Entries
one_entry k zero = some k
one_entry k (suc i) = none

abbrev pub tree : ℕ → FileControlBlock
tree zero = record zero_fcb {
  file_name = root_name;
  mode = pos 16877;
  parent_inumber = negsuc 0;
  dir_contents = one_entry 1;
}
tree (suc zero) = record zero_fcb {
  file_name = codes "a";
  parent_dir = root_name;
  mode = pos 16384;
  inumber = pos 1;
  parent_inumber = pos 0;
  dir_contents = one_entry 2;
}
tree (suc (suc zero)) = record zero_fcb {
  file_name = codes "b";
  parent_dir = codes "a";
  inumber = pos 2;
  parent_inumber = pos 1;
}
tree (suc (suc (suc k))) = zero_fcb

abbrev pub used : ℕ → ℕ
used zero = 1
used (suc zero) = 1
used (suc (suc zero)) = 1
used (suc (suc (suc k))) = 0

abbrev pub small : Store
small = record start_store {
  s_block = record zero_superblock {
    magic_num = pos 666;
    num_inodes = pos 5;
    num_inodes_per_block = pos 4;
    inode_start_index = pos 3;
    ibmap = used;
  };
  inodes = tree;
}

one_entry-IsSound :
    (f : FileControlBlock) (k n : ℕ)
    → k < max_inodes
    → n < max_inodes
    → f.inumber ≡ pos n
    → f.dir_contents ≡ one_entry k
    → IsSound f
one_entry-IsSound f k n hk hn number dir = record {
  inumber = (n, number, hn);
  entries = subst EntriesIn (sym dir) (at k hk);
  fills = subst FillsUp (sym dir) (λ e. absurd (ground (arith, e)));
}
  where
    at : (k : ℕ) → k < max_inodes → EntriesIn (one_entry k)
    at k hk zero e h is = ground (arith, is)
    at k hk (suc i) e h is = ground (arith, is)

no_entry-IsSound :
    (f : FileControlBlock) (n : ℕ)
    → n < max_inodes
    → f.inumber ≡ pos n
    → f.dir_contents ≡ (λ _. none)
    → IsSound f
no_entry-IsSound f n hn number dir = record {
  inumber = (n, number, hn);
  entries = subst EntriesIn (sym dir) (λ i e h is. absurd (ground (arith, is)));
  fills = subst FillsUp (sym dir) (λ e. absurd (ground (arith, e)));
}

tree-IsSound : (k : ℕ) → IsSound (tree k)
tree-IsSound zero = one_entry-IsSound (tree 0) 1 0 (omega arith) (omega arith) refl refl
tree-IsSound (suc zero) = one_entry-IsSound (tree 1) 2 1 (omega arith) (omega arith) refl refl
tree-IsSound (suc (suc zero)) = no_entry-IsSound (tree 2) 2 (omega arith) refl refl
tree-IsSound (suc (suc (suc k))) = no_entry-IsSound zero_fcb 0 (omega arith) refl refl

tree-parent : (k : ℕ) → 0 < k → IsIndex (tree k).parent_inumber
tree-parent zero h = absurd (omega arith)
tree-parent (suc zero) h = (0, refl, omega arith)
tree-parent (suc (suc zero)) h = (1, refl, omega arith)
tree-parent (suc (suc (suc k))) h = (0, refl, omega arith)

pub small-IsSafe : IsSafe small
small-IsSafe = record {
  per_block = refl;
  start = refl;
  count = omega arith;
  root = refl;
  inode = λ k h. tree-IsSound k;
  parent = λ k h0 h. tree-parent k h0;
}

-- The store that a call leaves.
abbrev pub store_of {ℓ} : {A : Type ℓ} → Outcome (A × Store) → Store
store_of (ok (a, s)) = s
store_of fault = start_store

pub store_of-Ensures {ℓ} :
    {A : Type ℓ} (P : Store → Type 0) (r : Outcome (A × Store))
    → Ensures (λ q. P q.1) r
    → P (store_of r)
store_of-Ensures P (ok (a, s)) h = h
store_of-Ensures P fault h = elim h [ ]

pub ne-root : (path : Text) → 1 < length path → path ≢ root_name
ne-root path h e = let one : length path ≡ 1 = ap length e in omega arith

pub Fits-of :
    (path d : Text)
    → length (relative_name path) < name_size
    → parent_name path ≡ some d
    → length d < name_size
    → Fits path
Fits-of path d hn e hd = record {
  name = hn;
  parent = λ d' e'. let same : d ≡ d' = some_of d d' (sym e ∙ e') in rw (← same) hd;
}
  where
    some_of : (a b : Text) → some a ≡ some b → a ≡ b
    some_of a b e = ground arith

pub new_file-Fits : Fits (codes "/a/c")
unfolding relative_name
new_file-Fits = Fits-of (codes "/a/c") (codes "a") (omega arith) refl (omega arith)
