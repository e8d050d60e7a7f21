-- ===== src/Check/Program.antt =====
-- Runs of an instrumented program on the memory runtime (runtime/redzone_rt.c): each step is one
-- call that returns, or one store, of at most 16 bytes, that its check lets through. memcpy and memset
-- stay in a block; posix_memalign is given a place that meets no header of a block; frames and
-- globals lie in no allocation.
pub mod Keeps
pub mod Runs
use redzone.Prelude.{
  ℕ, ◌+◌, ◌-◌, ◌%◌, ◌≤◌, ◌<◌, ◌≡◌, ◌⊎◌, Bool, true, false, Option, some, none, [], get_elem?,
}
use redzone.Prelude.Bits.{u64_mod}
use redzone.Shadow.{shadow_limit, stack_enter, stack_leave, global_register}
use redzone.Shadow.Range.{within}
use redzone.Memory.{Memory}
use redzone.Report.{File, write, returns}
use redzone.Table.{Block}
use redzone.Heap.{Heap, System}
use redzone.Heap.Ops.{malloc, aligned_alloc, posix_memalign, Memalign, calloc, realloc, free}
use redzone.Heap.Calls.{Promises}
use redzone.Check.{check, checked_memmove, checked_memcpy, checked_memset}
use redzone.Check.Bulk.{Copies}
use redzone.Check.Exact.{in_bounds}

-- The heap as the program starts, over any memory
abbrev pub begin : Memory → Heap
begin m = record { shadow = λ _. 0; table = record { blocks = []; cap = 0 }; memory = m }

-- A region that meets no allocation
abbrev pub Elsewhere : Heap → (base total : ℕ) → Type 0
Elsewhere h base total =
    (k : ℕ) (b : Block)
    → get_elem? h.table.blocks k ≡ some b
    → (b.real_base + b.total_size ≤ base) ⊎ (base + total ≤ b.real_base)

-- Bytes that meet no header
abbrev pub OffHeaders : Heap → (a n : ℕ) → Type 0
OffHeaders h a n =
    (k : ℕ) (b : Block)
    → get_elem? h.table.blocks k ≡ some b
    → (a + n ≤ b.user_addr - 16) ⊎ (b.user_addr ≤ a)

pub data Next (h : Heap) : Heap → Type 0 where
  by_malloc :
      (sys : System) (size : ℕ) (file : File) (line : ℕ) {h' : Heap} {p : Option ℕ}
      → Promises sys h
      → malloc sys h size file line ≡ returns (h', p)
      → Next h h'
  by_aligned_alloc :
      (sys : System) (alignment size : ℕ) (file : File) (line : ℕ) {h' : Heap} {p : Option ℕ}
      → Promises sys h
      → alignment < u64_mod
      → aligned_alloc sys h alignment size file line ≡ returns (h', p)
      → Next h h'
  by_posix_memalign :
      (sys : System) (memptr alignment size : ℕ) (file : File) (line : ℕ) {h' : Heap} {r : Memalign}
      → Promises sys h
      → alignment < u64_mod
      → posix_memalign sys h memptr alignment size file line ≡ returns (h', r)
      → OffHeaders h' memptr 8
      → Next h h'
  by_calloc :
      (sys : System) (nmemb size : ℕ) (file : File) (line : ℕ) {h' : Heap} {p : Option ℕ}
      → Promises sys h
      → calloc sys h nmemb size file line ≡ returns (h', p)
      → Next h h'
  by_realloc :
      (sys : System) (ptr size : ℕ) (file : File) (line : ℕ) {h' : Heap} {p : Option ℕ}
      → Promises sys h
      → realloc sys h ptr size file line ≡ returns (h', p)
      → Next h h'
  by_free : (ptr : ℕ) {h' : Heap} → free h ptr ≡ returns h' → Next h h'
  by_store :
      (a size : ℕ) (m : Memory) (file : File) (line : ℕ)
      → 0 < size
      → size ≤ 16
      → check h a size write file line ≡ returns tt
      → ((x : ℕ) → within a size x ≡ false → m x ≡ h.memory x)
      → Next h (record h { memory = m })
  by_memmove :
      (dst src n k : ℕ) (b : Block) (file : File) (line : ℕ) {h' : Heap}
      → get_elem? h.table.blocks k ≡ some b
      → in_bounds b dst n ≡ true
      → checked_memmove h dst src n file line ≡ returns h'
      → Next h h'
  by_memcpy :
      (libc : Memory → (dst src n : ℕ) → Memory) (dst src n k : ℕ) (b : Block) (file : File)
      (line : ℕ) {h' : Heap}
      → Copies libc
      → (dst + n ≤ src) ⊎ (src + n ≤ dst)
      → get_elem? h.table.blocks k ≡ some b
      → in_bounds b dst n ≡ true
      → checked_memcpy libc h dst src n file line ≡ returns h'
      → Next h h'
  by_memset :
      (dst c n k : ℕ) (b : Block) (file : File) (line : ℕ) {h' : Heap}
      → get_elem? h.table.blocks k ≡ some b
      → in_bounds b dst n ≡ true
      → checked_memset h dst c n file line ≡ returns h'
      → Next h h'
  by_stack_enter :
      (base size : ℕ)
      → base % 8 ≡ 0
      → base + size + 40 ≤ shadow_limit
      → Elsewhere h base (size + 32)
      → Next h (record h { shadow = stack_enter h.shadow base size })
  by_stack_leave :
      (base size : ℕ)
      → base % 8 ≡ 0
      → base + size + 40 ≤ shadow_limit
      → Elsewhere h base (size + 32)
      → Next h (record h { shadow = stack_leave h.shadow base size })
  by_global_register :
      (at_data size : ℕ)
      → at_data % 8 ≡ 0
      → 16 ≤ at_data
      → at_data + size + 24 ≤ shadow_limit
      → Elsewhere h (at_data - 16) (size + 32)
      → Next h (record h { shadow = global_register h.shadow at_data size })

pub data Reaches (h : Heap) : Heap → Type 0 where
  here : Reaches h h
  later : {g k : Heap} → Reaches h g → Next g k → Reaches h k
