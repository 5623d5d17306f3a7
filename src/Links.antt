-- ===== src/Links.antt =====
-- The links between the inodes of src/DateiSteuerBlock.c: which inode is entered in which directory,
-- by the entries of the directory, the parent's number in the inode and the inode map.
pub mod Entries
pub mod Parent
pub mod Create
pub mod Remove
pub mod Itself
pub mod Runs
pub mod Listed
pub mod Unlink
pub mod Lives
use mathlib.Core.Path.{subst}
use simpel_dateisystem.Base.{ℕ, pos, ◌<◌, ◌≡◌, ◌⊎◌, some, []}
use simpel_dateisystem.Knoten.{FileControlBlock, max_inodes, max_files_in_dir}
use simpel_dateisystem.Store.{Store}
use simpel_dateisystem.Links.Entries.{Member, IsOnce}

-- Inode `e` is an entry of inode `d`.
abbrev pub Entered : Store → ℕ → ℕ → Type 0
Entered s d e = Member (s.inodes d).dir_contents e

-- What is known of an inode `e` that is an entry of `d`: it is not the root, it has its own number, it
-- knows `d` as its parent, and it is in use.
pub record IsEntry (s : Store) (d e : ℕ) : Type 0 where
  pub ne_root : 0 < e
  pub number : (s.inodes e).inumber ≡ pos e
  pub up : (s.inodes e).parent_inumber ≡ pos d
  pub used : s.s_block.ibmap e ≡ 1

-- An inode has its own number, or the number 0 and no name as at the start.
abbrev pub IsNumbered : FileControlBlock → ℕ → Type 0
IsNumbered f k = (f.inumber ≡ pos k) ⊎ ((f.inumber ≡ pos 0) × (f.file_name ≡ []))

pub record IsLinked (s : Store) : Type 0 where
  pub entry : (d e : ℕ) → d < max_inodes → Entered s d e → IsEntry s d e
  pub once : (d : ℕ) → d < max_inodes → IsOnce (s.inodes d).dir_contents
  pub numbered : (k : ℕ) → k < max_inodes → IsNumbered (s.inodes k) k

-- A store that differs only in what the links do not speak of.
pub IsLinked-same :
    (s t : Store)
    → t.inodes ≡ s.inodes
    → t.s_block.ibmap ≡ s.s_block.ibmap
    → IsLinked s
    → IsLinked t
IsLinked-same s t i b linked = record {
  entry = λ d e hd m.
      let known = linked.entry d e hd (subst (λ f. Member (f d).dir_contents e) i m) in
      record {
        ne_root = known.ne_root;
        number = rw i known.number;
        up = rw i known.up;
        used = rw b known.used;
      };
  once = rw i linked.once;
  numbered = rw i linked.numbered;
}
