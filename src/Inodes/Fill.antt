-- ===== src/Inodes/Fill.antt =====
-- The fields that create_inode gives a new inode.
use simpel_dateisystem.Base.{
  ℕ, ℤ, ◌<◌, ◌≡◌, ap, ◌∙◌, arith, ◌==◌, if◌then◌else◌, lt→ltb, to_short, length,
}
use simpel_dateisystem.Base.Outcome.{Outcome, ok, ◌>>=◌}
use simpel_dateisystem.Base.CString.{Text}
use simpel_dateisystem.Knoten.{FileControlBlock, max_inodes, name_size}
use simpel_dateisystem.Store.{Store, Env, fcb_at}
use simpel_dateisystem.Directory.Effects.{put, put_at, put-put}
use simpel_dateisystem.Inodes.{modify_fcb, fill_names, set_numbers, set_parent, fill_inode}

abbrev pub set_names : Text → Text → FileControlBlock → FileControlBlock
set_names name parent_dir f = record f { file_name = name; parent_dir = parent_dir }

-- The number that ends up in `parent_inumber`
abbrev pub parent_number : Store → ℕ → ℕ → ℤ
parent_number s parent i = if parent == i then to_short i else (s.inodes parent).inumber

-- The inode that create_inode makes of `inodes[i]`; the rest of it stays as it was.
unfoldable pub new_inode : Env → Store → Text → Text → ℕ → ℕ → ℕ → FileControlBlock
new_inode env s name parent_dir parent mode i = record (s.inodes i) {
  file_name = name;
  parent_dir = parent_dir;
  parent_inumber = parent_number s parent i;
  mode = to_short mode;
  uid = to_short env.uid;
  time = env.time;
  inumber = to_short i;
}

pub modify_fcb-ok :
    (s : Store) (i : ℕ) (change : FileControlBlock → FileControlBlock)
    → i < max_inodes
    → modify_fcb s i change ≡ ok (put s i (change (s.inodes i)))
unfolding modify_fcb
modify_fcb-ok s i change h = rw (lt→ltb _ _ h)

fill_names-ok :
    (s : Store) (name parent_dir : Text) (i : ℕ)
    → i < max_inodes
    → length name < name_size
    → length parent_dir < name_size
    → fill_names s name parent_dir i ≡ ok (put s i (set_names name parent_dir (s.inodes i)))
unfolding fill_names
fill_names-ok s name parent_dir i h hn hd = rw (lt→ltb _ _ hn, lt→ltb _ _ hd, modify_fcb-ok s i _ h)

fcb_at-ok : (s : Store) (i : ℕ) → i < max_inodes → fcb_at s i ≡ ok (s.inodes i)
fcb_at-ok s i h = rw (lt→ltb _ _ h)

last_read :
    (env : Env) (s : Store) (name parent_dir : Text) (parent mode i : ℕ) (p : FileControlBlock)
    → set_parent
        ((put s i (set_numbers env mode i p (set_names name parent_dir (s.inodes i)))).inodes
          parent)
        (set_numbers env mode i p (set_names name parent_dir (s.inodes i)))
      ≡ new_inode env s name parent_dir parent mode i
unfolding new_inode
last_read env s name parent_dir parent mode i p =
    ap
      (λ (z : ℤ). record (s.inodes i) {
        file_name = name;
        parent_dir = parent_dir;
        parent_inumber = z;
        mode = to_short mode;
        uid = to_short env.uid;
        time = env.time;
        inumber = to_short i;
      })
      (ground arith)

-- The last two statements: the parent's number is read again.
abbrev renumber : ℕ → ℕ → Store → Outcome Store
renumber parent i t = fcb_at t parent >>= (λ q. modify_fcb t i (set_parent q))

renumber-ok :
    (s : Store) (parent i : ℕ) (f : FileControlBlock)
    → i < max_inodes
    → parent < max_inodes
    → renumber parent i (put s i f) ≡ ok (put s i (set_parent ((put s i f).inodes parent) f))
renumber-ok s parent i f h hp =
    let q = (put s i f).inodes parent in
    let t = put s i f in
    ap (λ r. r >>= (λ g. modify_fcb t i (set_parent g))) (fcb_at-ok t parent hp)
    ∙ modify_fcb-ok t i (set_parent q) h
    ∙ ap (λ g. ok (put t i (set_parent q g))) (put_at s i f)
    ∙ ap ok (put-put s i f (set_parent q f))

-- For an inode and a parent in the array, and names that fit their buffers, the assignments of
-- create_inode, in the order of the code and also if the parent is the inode itself, amount to
-- `new_inode` and change no other inode.
pub fill_inode-ok :
    (env : Env) (s : Store) (name parent_dir : Text) (parent mode i : ℕ)
    → i < max_inodes
    → parent < max_inodes
    → length name < name_size
    → length parent_dir < name_size
    → fill_inode env s name parent_dir parent mode i
      ≡ ok (put s i (new_inode env s name parent_dir parent mode i))
unfolding fill_inode
fill_inode-ok env s name parent_dir parent mode i h hp hn hd =
    let f1 = set_names name parent_dir (s.inodes i) in
    let s1 = put s i f1 in
    let p = s1.inodes parent in
    let f2 = set_numbers env mode i p f1 in
    ap
      (λ r. r >>= (λ t.
        fcb_at t parent >>= (λ q. modify_fcb t i (set_numbers env mode i q) >>= renumber parent i)))
      (fill_names-ok s name parent_dir i h hn hd)
    ∙ ap (λ r. r >>= (λ q. modify_fcb s1 i (set_numbers env mode i q) >>= renumber parent i))
        (fcb_at-ok s1 parent hp)
    ∙ ap (λ r. r >>= renumber parent i) (modify_fcb-ok s1 i (set_numbers env mode i p) h)
    ∙ ap (λ g. renumber parent i (put s1 i (set_numbers env mode i p g))) (put_at s i f1)
    ∙ ap (renumber parent i) (put-put s i f1 f2)
    ∙ renumber-ok s parent i f2 h hp
    ∙ ap (λ g. ok (put s i g)) (last_read env s name parent_dir parent mode i p)
