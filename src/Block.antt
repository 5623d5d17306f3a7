-- ===== src/Block.antt =====
-- The writing half of src/block.c: each operation asks the kernel for one or two calls of `pwrite`.
use simpel_dateisystem.Base.{ℕ, ℤ, List, ◌∷◌, ltb_ℤ, pos, ◌+ℤ◌, ◌*ℤ◌, to_int, if◌then◌else◌}
use simpel_dateisystem.Knoten.{block_size}
use simpel_dateisystem.Store.{Store, Env, Buffer, zeros, block, Pwrite}

-- One call, with its result. The calls so far stand in the store.
abbrev pub pwrite : Env → Buffer → ℤ → ℤ → Store → ℤ × Store
pwrite env b size offset s =
    let call : Pwrite = record { buffer = b; size = size; offset = offset } in
    (env.pwrite s.writes call, record s { writes = call ∷ s.writes })

-- Two calls at one place: the '0' characters, and then the contents unless that failed.
abbrev pub pwrite_twice : Env → Buffer → ℤ → ℤ → Store → ℤ × Store
pwrite_twice env b size offset s =
    let (ret, s') = pwrite env zeros size offset s in
    if ltb_ℤ ret (pos 0) then (ret, s') else pwrite env b size offset s'

-- `block_num*BLOCK_SIZE`, an `int`. Where it overflows it is taken modulo 2^32, as is the sum with an
-- offset in the block.
abbrev pub block_offset : ℤ → ℤ
block_offset block_num = to_int (block_num *ℤ pos block_size)

unfoldable pub block_write : Env → ℤ → List ℕ → Store → ℤ × Store
block_write env block_num buf s = pwrite env (block buf) (pos block_size) (block_offset block_num) s

-- The block number is ignored: the superblock stands at offset 0. A size above its 11744 bytes makes
-- pwrite read what lies behind it in memory; that is no fault here.
unfoldable pub s_block_write_padded : Env → ℤ → Buffer → ℤ → Store → ℤ × Store
s_block_write_padded env block_num buf size s = pwrite_twice env buf size (pos 0) s

unfoldable pub block_write_padded : Env → ℤ → Buffer → ℤ → ℤ → Store → ℤ × Store
block_write_padded env block_num buf size offset s =
    pwrite_twice env buf size (to_int (block_offset block_num +ℤ offset)) s
