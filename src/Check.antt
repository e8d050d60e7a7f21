-- ===== src/Check.antt =====
-- runtime/redzone_rt.c, "The check" and "Bulk memory intrinsics": __redzone_check, and the wrappers
-- that check a range and then do the operation.
pub mod Exact
pub mod Clear
pub mod Program
pub mod Bulk
use redzone.Prelude.{
  ℕ, ◌+◌, ◌-◌, ◌%◌, Bool, true, false, not, ◌&&◌, Option, none, some, ltb, leb, ◌==◌, if◌then◌else◌,
}
use redzone.Prelude.Bits.{u64, sub64}
use redzone.Shadow.{Shadow, global_rz, stack_rz, shadow_load, byte_poisoned}
use redzone.Memory.{Memory, memcpy, memset}
use redzone.Report.{
  File, Kind, heap_buffer_overflow, use_after_free, stack_buffer_overflow, global_buffer_overflow,
  buffer_overflow, Access, read, write, Outcome, returns, ◌>>=◌, report_simple,
}
use redzone.Table.{Block, find_block, report}
use redzone.Heap.{Heap}

-- a + size - 1
abbrev pub last_of : ℕ → ℕ → ℕ
last_of a size = sub64 (u64 (a + size)) 1

-- The poison code of whichever checked byte carries one names the zone.
unfoldable pub zone_kind : Shadow → ℕ → ℕ → Kind
zone_kind s a last =
    let s1 = shadow_load s a in
    let s2 = shadow_load s last in
    let code = if leb 128 s1 then s1 else if leb 128 s2 then s2 else 0 in
    if code == global_rz
    then global_buffer_overflow
    else if code == stack_rz
    then stack_buffer_overflow
    else buffer_overflow

abbrev pub block_kind : Block → Kind
block_kind b = if b.freed then use_after_free else heap_buffer_overflow

-- __redzone_check
unfoldable pub check : Heap → ℕ → ℕ → Access → File → ℕ → Outcome (Unit {0})
check h a size is_write file line =
    if size == 0
    then returns tt
    else let last = last_of a size in
      if not (byte_poisoned h.shadow a) && not (byte_poisoned h.shadow last)
      then returns tt
      else elim (find_block h.table.blocks a) [
        | some (k, b) ↦ report (block_kind b) a size is_write file line b
        | none ↦ report_simple (zone_kind h.shadow a last) a size is_write file line
      ]

-- __redzone_memmove: both checks, then the copy of the bytes as they were
unfoldable pub checked_memmove : Heap → (dst src n : ℕ) → File → ℕ → Outcome Heap
checked_memmove h dst src n file line = check h dst n write file line >>= λ _.
    check h src n read file line >>= λ _. returns (record h { memory = memcpy h.memory dst src n })

-- __redzone_memcpy: both checks, then libc's memcpy, which is undefined for ranges that overlap
unfoldable pub checked_memcpy :
    (libc_memcpy : Memory → (dst src n : ℕ) → Memory)
    → Heap
    → (dst src n : ℕ) → File
    → ℕ
    → Outcome Heap
checked_memcpy libc_memcpy h dst src n file line = check h dst n write file line >>= λ _.
    check h src n read file line >>= λ _.
    returns (record h { memory = libc_memcpy h.memory dst src n })

-- __redzone_memset
unfoldable pub checked_memset : Heap → (dst c n : ℕ) → File → ℕ → Outcome Heap
checked_memset h dst c n file line =
    check h dst n write file line >>= λ _. returns (record h { memory = memset h.memory dst c n })
