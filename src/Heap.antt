-- ===== src/Heap.antt =====
-- runtime/redzone_rt.c, the allocator's state: the heap with its guards, table and headers. An
-- address is a number below 2 ^ 64. The system allocator is not the program's: `sys_malloc` is
-- its answer to the one request that an operation makes, `none` for NULL. The locks are not in the
-- model: each operation is one step.
pub mod Ops
pub mod Valid
pub mod Lookup
pub mod Headers
pub mod Extend
pub mod Alloc
pub mod Free
pub mod Writes
pub mod Pow2
pub mod Entry
pub mod Aligned
pub mod Realloc
pub mod After
pub mod Calls
use redzone.Prelude.{
  ℕ, ◌+◌, ◌-◌, ◌%◌, ◌^◌, Bool, true, false, not, ◌||◌, Option, none, some, List, ltb, leb, ◌==◌,
  if◌then◌else◌, length, get_elem?,
}
use redzone.Prelude.Bits.{u64_mod, sub64}
use redzone.Shadow.{Shadow, rz_poison, shadow_load}
use redzone.Memory.{Memory, load_bytes, store_bytes}
use redzone.Table.{Block, Table}

pub record Heap : Type 0 where
  pub shadow : Shadow
  pub table : Table
  pub memory : Memory

-- What the system answers while one operation runs.
pub record System : Type 0 where
  pub sys_malloc : ℕ → Option ℕ
  pub sys_grow : ℕ → Bool

abbrev pub size_max : ℕ
size_max = u64_mod - 1

-- RZ_HEADER_MAGIC, "redzone!"
abbrev pub header_magic : ℕ
header_magic = 0x7265647a6f6e6521

-- sizeof(Header); `magic` lies 16 and `index` 8 bytes below the user region.
abbrev pub header_size : ℕ
header_size = 16

-- Header: the two words that the runtime keeps below a user region
pub record Header : Type 0 where
  pub magic : ℕ
  pub index : ℕ

abbrev pub read_header : Memory → ℕ → Header
read_header m u = record {
  magic = load_bytes 8 m (sub64 u header_size);
  index = load_bytes 8 m (sub64 u 8);
}

abbrev pub write_header : Memory → ℕ → Header → Memory
write_header m u h =
    store_bytes 8 (store_bytes 8 m (sub64 u header_size) h.magic) (sub64 u 8) h.index

-- The entry that a header points to, if the block starts at `u`.
abbrev claimed : List Block → ℕ → Header → Option (ℕ × Block)
claimed blocks u h =
    if not (h.magic == header_magic) || leb (length blocks) h.index
    then none
    else elim (get_elem? blocks h.index) [
      | none ↦ none
      | some b ↦ if b.user_addr == u then some (h.index, b) else none
    ]

unfoldable pub block_from_user_ptr : Heap → ℕ → Option (ℕ × Block)
block_from_user_ptr h u =
    if ltb u header_size
    then none
    else if not (shadow_load h.shadow (u - 8) == rz_poison)
    then none
    else claimed h.table.blocks u (read_header h.memory u)

-- __redzone_owns
unfoldable pub owns : Heap → ℕ → Bool
owns h ptr =
    if ptr == 0 then false else elim (block_from_user_ptr h ptr) [ none ↦ false | some _ ↦ true ]

-- __redzone_maybe_owns
unfoldable pub maybe_owns : Heap → ℕ → Bool
maybe_owns h u = if ltb u header_size then false else shadow_load h.shadow (u - 8) == rz_poison

-- __redzone_usable_size
unfoldable pub usable_size : Heap → ℕ → ℕ
usable_size h ptr =
    if ptr == 0
    then 0
    else elim (block_from_user_ptr h ptr) [ none ↦ 0 | some (k, b) ↦ b.user_size ]
