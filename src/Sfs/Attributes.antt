-- ===== src/Sfs/Attributes.antt =====
-- What sfs_getattr says of a file that create_inode has made.
use mathlib.Core.Path.{subst}
use simpel_dateisystem.Base.{
  ℕ, pos, negsuc, ◌<◌, ◌≤◌, ◌≡◌, refl, sym, ◌≢◌, ◌⊎◌, inl, inr, ==ℤ_false, ap, ◌∙◌, false, some,
  arith, ltb, lt→ltb, length, to_u32, to_short, ==_iff,
}
use simpel_dateisystem.Base.Outcome.{ok, Ensures}
use simpel_dateisystem.Base.CString.{Text}
use simpel_dateisystem.Knoten.{FileControlBlock, max_inodes}
use simpel_dateisystem.Store.{Store, Env, HasMemory}
use simpel_dateisystem.Path.{root_name}
use simpel_dateisystem.Inodes.{find_file_or_dir, create_inode}
use simpel_dateisystem.Inodes.Find.{inode_count, Bears}
use simpel_dateisystem.Inodes.Fill.{new_inode}
use simpel_dateisystem.Inodes.Create.{
  Fits, created_store, IsCreated, IsCreatedAt, create_inode-IsCreated,
}
use simpel_dateisystem.Inodes.Created.{created_inodes, create-find}
use simpel_dateisystem.Sfs.{path_max, s_ifdir, s_ifreg}
use simpel_dateisystem.Sfs.Getattr.{
  Stat, is_special, stat_mode, file_stat, getattr_found, sfs_getattr,
}

module _ {env : Env} {s t : Store} {path : Text} {mode i : ℕ}
    (c : IsCreatedAt env s path mode i t) where
  created_fields :
      ((t.inodes i).mode ≡ to_short mode)
      × ((t.inodes i).uid ≡ to_short env.uid)
      × ((t.inodes i).time ≡ env.time)
  unfolding created_store new_inode
  created_fields = rw (created_inodes c, (==_iff i i).1 refl) (refl, refl, refl)

-- What sfs_getattr answers about a path that is found at inode `x`.
getattr_at :
    (env : Env) (s : Store) (path : Text) (buffer : Stat) (x : ℕ)
    → length path ≤ path_max
    → is_special path ≡ false
    → find_file_or_dir env s path ≡ ok (some x)
    → x < max_inodes
    → sfs_getattr env s path (some buffer) ≡ ok (pos 0, some (file_stat env (s.inodes x) buffer), s)
unfolding sfs_getattr getattr_found
getattr_at env s path buffer x short ordinary found h =
    let within : ltb path_max (length path) ≡ false = ground arith in
    rw (within, ordinary, found, lt→ltb x max_inodes h) refl

-- The `st_mode` that sfs_getattr gives, by the mode of the inode.
module _ (f : FileControlBlock) (old : ℕ) where
  directory-stat_mode : (f.mode ≡ pos 493) ⊎ (f.mode ≡ pos 16384) → stat_mode f old ≡ s_ifdir
  directory-stat_mode (inl e) = rw e refl
  directory-stat_mode (inr e) = rw e refl

  file-stat_mode : f.mode ≡ negsuc 32347 → stat_mode f old ≡ s_ifreg
  file-stat_mode e = rw e refl

  other-stat_mode :
      f.mode ≢ pos 493 → f.mode ≢ pos 16384 → f.mode ≢ negsuc 32347 → stat_mode f old ≡ old
  other-stat_mode a b c =
      rw
        (
          ==ℤ_false f.mode (pos 493) a,
          ==ℤ_false f.mode (pos 16384) b,
          ==ℤ_false f.mode (negsuc 32347) c,
        )
        refl

-- Where no more than 100 inodes are counted: after create_inode has made inode `i` for a path of at
-- most 4096 characters that fits and is not special, with memory for the search, and where no inode
-- before `i` bore its names, sfs_getattr of the path returns 0 with the time of the call and the uid
-- of the caller as it stands in a `short`, its low 16 bits in two's complement. Its st_mode is S_IFDIR
-- if the mode is 0755 or 040000 as a `short`, S_IFREG if it is -32348 (0100644), and for every other
-- mode what stood in the buffer.
pub create-getattr :
    (env env' : Env) (s t : Store) (path : Text) (mode i : ℕ) (buffer : Stat)
    → inode_count s ≤ max_inodes
    → Fits path
    → HasMemory env'
    → path ≢ root_name
    → length path ≤ path_max
    → is_special path ≡ false
    → ((j : ℕ) → j < i → ¬ Bears (s.inodes j) path)
    → create_inode env s path mode ≡ ok (some i, t)
    → (st : Stat) × (sfs_getattr env' t path (some buffer) ≡ ok (pos 0, some st, t))
      × (st.st_uid ≡ to_u32 (to_short env.uid))
      × (st.st_mtime ≡ env.time)
      × ((to_short mode ≡ pos 493) ⊎ (to_short mode ≡ pos 16384) → st.st_mode ≡ s_ifdir)
      × (to_short mode ≡ negsuc 32347 → st.st_mode ≡ s_ifreg)
      × (to_short mode ≢ pos 493
          → to_short mode ≢ pos 16384
          → to_short mode ≢ negsuc 32347
          → st.st_mode ≡ buffer.st_mode)
unfolding file_stat
create-getattr env env' s t path mode i buffer h fits m ne short ordinary fresh e =
    let c : IsCreatedAt env s path mode i t =
      subst (Ensures (IsCreated env s path mode)) e
        (create_inode-IsCreated env s path mode h fits) in
    let (_, (x, found, le, at, _)) = create-find env env' s t path mode i h fits m ne e in
    let (is_mode, is_uid, is_time) = created_fields c in
    let answer =
      getattr_at env' t path buffer i short ordinary (found ∙ ap (λ k. ok (some k)) (at fresh))
        (omega (arith, c.counted)) in
    (
      file_stat env' (t.inodes i) buffer,
      answer,
      ap to_u32 is_uid,
      is_time,
      λ q.
          directory-stat_mode (t.inodes i) buffer.st_mode
            (elim q [ inl a ↦ inl (is_mode ∙ a) | inr b ↦ inr (is_mode ∙ b) ]),
      λ q. file-stat_mode (t.inodes i) buffer.st_mode (is_mode ∙ q),
      λ a b d.
          other-stat_mode (t.inodes i) buffer.st_mode (λ q. a (sym is_mode ∙ q))
            (λ q. b (sym is_mode ∙ q)) (λ q. d (sym is_mode ∙ q)),
    )
