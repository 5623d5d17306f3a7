-- ===== src/Sfs/Create.antt =====
-- What sfs_create, sfs_mkdir and sfs_write do to the tree, and what sfs_getattr then says.
use simpel_dateisystem.Base.{
  ℕ, ℤ, pos, negsuc, ◌<◌, ◌≤◌, ◌≡◌, refl, ◌≢◌, ◌⊎◌, inl, inr, true, none, some, arith, leb, ◌==◌,
  Bool-cases, neg_ℕ, to_u32, ==_iff,
}
use simpel_dateisystem.Base.Outcome.{Ensures, Ensures-bind}
use simpel_dateisystem.Base.CString.{Text}
use simpel_dateisystem.Knoten.{Pointer, max_inodes}
use simpel_dateisystem.Store.{Store, Env}
use simpel_dateisystem.Inodes.{find_file_or_dir, create_inode}
use simpel_dateisystem.Inodes.Find.{inode_count}
use simpel_dateisystem.Inodes.Safe.{IsSafe}
use simpel_dateisystem.Inodes.Create.{
  Fits, InArray, Refused, IsCreated, IsCreatedAt, create_inode-IsCreated, find_file_or_dir-InArray,
}
use simpel_dateisystem.Sfs.{
  enoent, efbig, s_ifdir, s_ifreg, capacity, set_errno, create_result, write_result, sfs_create,
  sfs_mkdir, sfs_write,
}

-- What sfs_create answers: 0 and the store with the new inode, or the negated number that the
-- library left in errno, and a store that differs in errno only.
pub data CreateAnswer (env : Env) (s : Store) (path : Text) (mode : ℕ) : ℤ × Store → Type 0 where
  created :
      (i : ℕ) (t : Store)
      → IsCreatedAt env s path mode i t
      → CreateAnswer env s path mode (pos 0, t)
  failed :
      Refused env s path
      → CreateAnswer env s path mode (neg_ℕ (env.errno s.errno), set_errno (env.errno s.errno) s)

-- On a safe store, sfs_create with names that fit ends without leaving an array. It returns 0 with the new inode
-- made, or, when no inode is free or the parent is not found or has no name, it changes nothing but
-- errno and returns the negation of what the library left there.
pub sfs_create-CreateAnswer :
    (env : Env) (s : Store) (path : Text) (mode : ℕ)
    → IsSafe s
    → Fits path
    → Ensures (CreateAnswer env s path mode) (sfs_create env s path mode)
unfolding sfs_create
sfs_create-CreateAnswer env s path mode v fits =
    Ensures-bind (IsCreated env s path mode) (CreateAnswer env s path mode)
      (create_inode env s path mode) _ (create_inode-IsCreated env s path mode v.count fits) answer
  where
    answer :
        (r : Pointer × Store)
        → IsCreated env s path mode r
        → CreateAnswer env s path mode (create_result env r)
    answer (none, t) (e, why) = rw e (failed why)
    answer (some i, t) c = created i t c

-- What sfs_mkdir answers: always 0. With mode 0755 a directory was made, with mode -32348 modulo 2^32
-- a file, unless create_inode refused; with another mode nothing happened.
pub data MkdirAnswer (env : Env) (s : Store) (path : Text) (mode : ℕ) : ℤ × Store → Type 0 where
  directory :
      (i : ℕ) (t : Store)
      → mode ≡ 493
      → IsCreatedAt env s path s_ifdir i t
      → MkdirAnswer env s path mode (pos 0, t)
  file :
      (i : ℕ) (t : Store)
      → mode ≡ to_u32 (negsuc 32347)
      → IsCreatedAt env s path s_ifreg i t
      → MkdirAnswer env s path mode (pos 0, t)
  refused : Refused env s path → MkdirAnswer env s path mode (pos 0, s)
  other : mode ≢ 493 → mode ≢ to_u32 (negsuc 32347) → MkdirAnswer env s path mode (pos 0, s)

-- On a safe store, sfs_mkdir with names that fit ends without leaving an array and returns 0. With mode 0755 it has
-- made a directory, with mode -32348 modulo 2^32 a file; with another mode, or when no inode is free
-- or the parent is not found or has no name, it has changed nothing and still returns 0.
pub sfs_mkdir-MkdirAnswer :
    (env : Env) (s : Store) (path : Text) (mode : ℕ)
    → IsSafe s
    → Fits path
    → Ensures (MkdirAnswer env s path mode) (sfs_mkdir env s path mode)
unfolding sfs_mkdir
sfs_mkdir-MkdirAnswer env s path mode v fits = elim (Bool-cases (mode == 493)) [
  | inl dir ↦ rw dir (
      Ensures-bind (IsCreated env s path s_ifdir) (MkdirAnswer env s path mode)
        (create_inode env s path s_ifdir) _ (create_inode-IsCreated env s path s_ifdir v.count fits)
        (made_dir ((==_iff mode 493).0 dir)))
  | inr not_dir ↦ elim (Bool-cases (mode == to_u32 (negsuc 32347))) [
    | inl reg ↦
        rw (not_dir, reg)
          (Ensures-bind (IsCreated env s path s_ifreg) (MkdirAnswer env s path mode)
            (create_inode env s path s_ifreg) _
            (create_inode-IsCreated env s path s_ifreg v.count fits)
            (made_file ((==_iff mode (to_u32 (negsuc 32347))).0 reg)))
    | inr neither ↦
        rw (not_dir, neither)
          (other (λ e. let t : (mode == 493) ≡ true = (==_iff mode 493).1 e in cc)
            (λ e.
              let t : (mode == to_u32 (negsuc 32347)) ≡ true =
                (==_iff mode (to_u32 (negsuc 32347))).1 e in
              cc))
  ]
]
  where
    made_dir :
        mode ≡ 493
        → (r : Pointer × Store) → IsCreated env s path s_ifdir r
        → MkdirAnswer env s path mode (pos 0, r.1)
    made_dir m (none, t) (e, why) = rw e (refused why)
    made_dir m (some i, t) c = directory i t m c

    made_file :
        mode ≡ to_u32 (negsuc 32347)
        → (r : Pointer × Store) → IsCreated env s path s_ifreg r
        → MkdirAnswer env s path mode (pos 0, r.1)
    made_file m (none, t) (e, why) = rw e (refused why)
    made_file m (some i, t) c = file i t m c

-- Where no more than 100 inodes are counted, sfs_write ends without leaving an array and returns -1 for every path and size. Nothing but errno
-- changes, and errno only to ENOENT or to EFBIG, the latter only from 245761 bytes on.
sfs_write-result :
    (env : Env) (s : Store) (path : Text) (size : ℕ)
    → inode_count s ≤ max_inodes
    → Ensures
        (λ r.
          (r.0 ≡ negsuc 0)
          × ((r.1 ≡ s)
              ⊎ ((r.1 ≡ set_errno enoent s) ⊎ ((r.1 ≡ set_errno efbig s) × (245760 < size)))))
        (sfs_write env s path size)
unfolding sfs_write
sfs_write-result env s path size h =
    Ensures-bind InArray _ (find_file_or_dir env s path) _ (find_file_or_dir-InArray env s path h)
      answer
  where
    answer :
        (r : Pointer)
        → InArray r
        → ((write_result s size r).0 ≡ negsuc 0)
          × (((write_result s size r).1 ≡ s)
              ⊎ (((write_result s size r).1 ≡ set_errno enoent s)
                  ⊎ (((write_result s size r).1 ≡ set_errno efbig s) × (245760 < size))))
    answer none a = (refl, inr (inl refl))
    answer (some i) a = elim (Bool-cases (leb size capacity)) [
      | inl small ↦ rw small (refl, inl refl)
      | inr big ↦ rw big (refl, inr (inr (refl, ground arith)))
    ]
