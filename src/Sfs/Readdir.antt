-- ===== src/Sfs/Readdir.antt =====
-- sfs_readdir of src/sfs.c.
use simpel_dateisystem.Base.{ℕ, zero, suc, ℤ, pos, negsuc, none, some, List, [], ◌∷◌}
use simpel_dateisystem.Base.Outcome.{Outcome, ok, fault, ◌>>=◌}
use simpel_dateisystem.Base.CString.{Text, codes}
use simpel_dateisystem.Knoten.{Pointer, max_files_in_dir}
use simpel_dateisystem.Store.{Store, Env, fcb_at}
use simpel_dateisystem.Inodes.{find_file_or_dir}

-- The loop of sfs_readdir: the names given to `filler` from entry `i` on. The loop has no bound but
-- a free entry, and reads behind the array after 30 entries.
unfoldable pub name_entry : Store → Outcome (List Text) → Pointer → Outcome (List Text)
name_entry s rest none = ok []
name_entry s rest (some entry) = do curr ← fcb_at s entry; names ← rest; ok (curr.file_name ∷ names)

unfoldable pub entry_names : Store → (ℕ → Pointer) → ℕ → ℕ → Outcome (List Text)
entry_names s dir zero i = fault
entry_names s dir (suc left) i = name_entry s (entry_names s dir left (suc i)) (dir i)

-- The names that the handler gives to `filler`, whose result is ignored.
unfoldable pub readdir_found : Store → Pointer → Outcome (ℤ × List Text)
readdir_found s none = ok (negsuc 0, codes "." ∷ codes ".." ∷ [])
readdir_found s (some directory) = do
  f ← fcb_at s directory
  names ← entry_names s f.dir_contents max_files_in_dir 0
  ok (pos 0, codes "." ∷ codes ".." ∷ names)

unfoldable pub sfs_readdir : Env → Store → Text → Outcome (ℤ × List Text)
sfs_readdir env s path = find_file_or_dir env s path >>= readdir_found s
