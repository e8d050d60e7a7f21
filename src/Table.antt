-- ===== src/Table.antt =====
-- runtime/redzone_rt.c, the allocation table: g_blocks with its capacity. A `Block *` is the index
-- of the block, handed on with the block that stands there.
pub mod Find
use redzone.Prelude.{
  ℕ, zero, suc, ◌+◌, ◌-◌, ◌*◌, ◌^◌, Bool, true, false, ◌&&◌, Option, none, some, List, [], ◌∷◌,
  ◌++◌, ltb, leb, ◌==◌, if◌then◌else◌, length, not,
}
use redzone.Prelude.Bits.{u64}
use redzone.Report.{File, Kind, Access, Outcome, reports, returns, out_of_memory}

pub record Block : Type 0 where
  pub real_base : ℕ
  pub total_size : ℕ
  pub user_addr : ℕ
  pub user_size : ℕ
  pub freed : Bool
  pub alloc_file : File
  pub alloc_line : ℕ

pub record Table : Type 0 where
  pub blocks : List Block
  pub cap : ℕ

-- Is the address in the whole allocation, its red zones included?
unfoldable pub holds : Block → ℕ → Bool
holds b addr = leb b.real_base addr && ltb addr (u64 (b.real_base + b.total_size))

-- The scan from index `i` on.
unfoldable pub find_from : List Block → ℕ → ℕ → Option (ℕ × Block)
find_from [] i addr = none
find_from (b ∷ bs) i addr = if holds b addr then some (i, b) else find_from bs (i + 1) addr

unfoldable pub find_block : List Block → ℕ → Option (ℕ × Block)
unfolding find_from
find_block bs addr = find_from bs 0 addr

-- sizeof(Block)
abbrev pub block_size : ℕ
block_size = 56

-- The entry goes to the end, and its index is returned.
abbrev append_block : Table → Block → Table × ℕ
append_block t b = (record t { blocks = t.blocks ++ b ∷ [] }, length t.blocks)

abbrev pub grown_cap : ℕ → ℕ
grown_cap cap = if cap == 0 then 64 else u64 (cap * 2)

-- `grow n` says whether the system reallocates the table to `n` bytes.
unfoldable pub record_block : (ℕ → Bool) → Table → Block → Outcome (Table × ℕ)
record_block grow t b =
    if not (length t.blocks == t.cap)
    then returns (append_block t b)
    else if grow (u64 (grown_cap t.cap * block_size))
    then returns (append_block (record t { cap = grown_cap t.cap }) b)
    else out_of_memory

-- report: a violation in a block of the table
unfoldable pub report {ℓ} : {A : Type ℓ} → Kind → ℕ → ℕ → Access → File → ℕ → Block → Outcome A
report kind addr size is_write file line b = reports (record {
  kind = kind;
  is_write = is_write;
  size = size;
  addr = addr;
  file = file;
  line = line;
  region = some (record {
    region_size = b.user_size;
    freed = b.freed;
    alloc_file = b.alloc_file;
    alloc_line = b.alloc_line;
  });
  with_stack = true;
})

-- The sentence of a text report that places the address.
pub data Place : Type 0 where
  before : ℕ → Place
  after : ℕ → Place
  inside : Place

unfoldable pub place : Block → ℕ → Place
place b a =
    if ltb a b.user_addr
    then before (b.user_addr - a)
    else if leb (u64 (b.user_addr + b.user_size)) a
    then after (a - u64 (b.user_addr + b.user_size))
    else inside
