-- ===== src/Tests/Heaps.antt =====
-- The allocator and the check on the sample heaps.
use redzone.Prelude.{
  inr, ℕ, ◌+◌, ◌-◌, ◌*◌, ◌%◌, ◌^◌, ◌<◌, ◌≡◌, ◌≢◌, refl, arith, inr, true, false, none, some, min,
  length, get_elem?, if◌then◌else◌,
}
use redzone.Shadow.{byte_poisoned}
use redzone.Shadow.Range.{within}
use redzone.Report.{returns, report_free_error, invalid_free, read, write}
use redzone.Table.{report}
use redzone.Heap.{Heap, System, owns}
use redzone.Heap.Ops.{user_of, rz_allocate, calloc, free, realloc}
use redzone.Heap.Valid.{IsValid}
use redzone.Heap.Lookup.{owns_iff}
use redzone.Heap.Alloc.{Extends, block_for, rz_allocate-Extends}
use redzone.Heap.Free.{free-live, free-interior}
use redzone.Heap.Entry.{calloc_overflow, calloc-zeroed}
use redzone.Heap.Realloc.{realloc-moves, realloc-Foreign}
use redzone.Check.{check, block_kind, checked_memmove, checked_memcpy}
use redzone.Check.Exact.{in_bounds, check-block}
use redzone.Check.Bulk.{checked_memmove-in_bounds, checked_memcpy-in_bounds, check_misses_gap}
use redzone.Memory.{Memory, memcpy}
use redzone.Tests.Samples.{
  block_a, heap_a, heap_a-IsValid, heap_a_entry, heap_a-Grants, heap_a_foreign, block_b, heap_b,
  heap_b-IsValid, heap_b_first, heap_b_second, generous,
}

check-block_example : check heap_a 0x10020 8 read none 7 ≡ (
    if in_bounds block_a 0x10020 8
    then returns tt
    else report (block_kind block_a) 0x10020 8 read none 7 block_a)
check-block_example =
    check-block heap_a 0 block_a 0x10020 8 read none 7 heap_a-IsValid heap_a_entry (omega arith)
      (omega arith) (omega arith)

realloc-moves_example :
    (h' : Heap) × (realloc generous heap_a 0x10010 40 none 3 ≡ returns (h', some (0x20000 + 16)))
    × IsValid h'
    × (get_elem? h'.table.blocks 0 ≡ some (record block_a { freed = true }))
    × (get_elem? h'.table.blocks (length heap_a.table.blocks)
        ≡ some (block_for 0x20000 16 40 none 3))
    × ((i : ℕ) → i < min 20 40 → h'.memory (0x20000 + 16 + i) ≡ heap_a.memory (0x10010 + i))
realloc-moves_example =
    realloc-moves generous heap_a 40 0x20000 none 3 heap_a-IsValid (omega arith) (omega arith) refl
      heap_a-Grants (λ n. refl) 0 heap_a_entry refl

realloc-Foreign_example :
    (h' : Heap) × (realloc generous heap_a 0x50000 40 none 3 ≡ returns (h', some (0x20000 + 16)))
    × IsValid h'
    × ((i : ℕ) → h'.memory (0x20000 + 16 + i) ≡ heap_a.memory (0x20000 + 16 + i))
realloc-Foreign_example =
    realloc-Foreign generous heap_a 0x50000 40 0x20000 none 3 heap_a-IsValid (omega arith)
      (omega arith) refl heap_a-Grants (λ n. refl) (omega arith) heap_a_foreign (inr (omega arith))

rz_allocate-Extends_example :
    (h' : Heap) × (rz_allocate generous heap_a 40 (2 ^ 4) none 3
      ≡ returns (h', some (user_of 0x20000 (2 ^ 4))))
    × Extends heap_a h' (block_for 0x20000 (2 ^ 4) 40 none 3)
    × (user_of 0x20000 (2 ^ 4) % 2 ^ 4 ≡ 0)
rz_allocate-Extends_example =
    rz_allocate-Extends generous heap_a 40 4 0x20000 none 3 heap_a-IsValid (omega arith)
      (omega arith) (omega arith) refl heap_a-Grants (λ n. refl)

calloc-zeroed_example :
    (h' : Heap) × (calloc generous heap_a 10 4 none 3 ≡ returns (h', some (0x20000 + 16)))
    × IsValid h'
    × (get_elem? h'.table.blocks (length heap_a.table.blocks)
        ≡ some (block_for 0x20000 16 (10 * 4) none 3))
    × ((x : ℕ) → within (0x20000 + 16) (10 * 4) x ≡ true → h'.memory x ≡ 0)
calloc-zeroed_example =
    calloc-zeroed generous heap_a 10 4 0x20000 none 3 heap_a-IsValid (omega arith) refl
      heap_a-Grants (λ n. refl)

calloc_overflow_example : calloc generous heap_a (2 ^ 62) 5 none 3 ≡ returns (heap_a, none)
calloc_overflow_example = calloc_overflow generous heap_a (2 ^ 62) 5 none 3 (omega arith)

abbrev exhausted : System
exhausted = record { sys_malloc = λ _. none; sys_grow = λ _. true }

free-live_example :
    (h' : Heap) × (free heap_a 0x10010 ≡ returns h')
    × IsValid h'
    × (get_elem? h'.table.blocks 0 ≡ some (record block_a { freed = true }))
    × ((j : ℕ) → j ≢ 0 → get_elem? h'.table.blocks j ≡ get_elem? heap_a.table.blocks j)
    × (h'.memory ≡ heap_a.memory)
free-live_example = free-live heap_a-IsValid 0 heap_a_entry refl

free-interior_example : free heap_a 0x10018 ≡ report_free_error invalid_free 0x10018
free-interior_example =
    free-interior heap_a heap_a-IsValid 0 block_a 0x10018 heap_a_entry (omega arith) (omega arith)
      (omega arith)

a_is_owned : owns heap_a 0x10010 ≡ true
a_is_owned = (owns_iff heap_a 0x10010 heap_a-IsValid).1 (0, block_a, heap_a_entry, refl)

-- A libc whose memcpy is its memmove
abbrev one_copy : Memory → (dst src n : ℕ) → Memory
one_copy m dst src n = memcpy m dst src n

checked_memcpy-in_bounds_example :
    (h' : Heap) × (checked_memcpy one_copy heap_b 0x20010 0x10010 8 none 3 ≡ returns h')
    × IsValid h'
    × ((i : ℕ) → i < 8 → h'.memory (0x20010 + i) ≡ heap_b.memory (0x10010 + i))
    × ((x : ℕ) → within 0x20010 8 x ≡ false → h'.memory x ≡ heap_b.memory x)
checked_memcpy-in_bounds_example =
    checked_memcpy-in_bounds one_copy heap_b 1 0 block_b block_a 0x20010 0x10010 8 none 3
      (λ m dst src n away. refl) heap_b-IsValid heap_b_second heap_b_first refl refl
      (inr (omega arith))

-- By one byte to the right, within a block
checked_memmove-in_bounds_example :
    (h' : Heap) × (checked_memmove heap_b 0x10011 0x10010 8 none 3 ≡ returns h')
    × IsValid h'
    × ((i : ℕ) → i < 8 → h'.memory (0x10011 + i) ≡ heap_b.memory (0x10010 + i))
    × ((x : ℕ) → within 0x10011 8 x ≡ false → h'.memory x ≡ heap_b.memory x)
checked_memmove-in_bounds_example =
    checked_memmove-in_bounds heap_b 0 0 block_a block_a 0x10011 0x10010 8 none 3 heap_b-IsValid
      heap_b_first heap_b_first refl refl

check_misses_gap_example :
    (check heap_b 0x10010 65537 write none 3 ≡ returns tt)
    × (byte_poisoned heap_b.shadow (0x20010 - 1) ≡ true)
    × (within 0x10010 65537 (0x20010 - 1) ≡ true)
check_misses_gap_example =
    check_misses_gap heap_b 0 1 block_a block_b 0x10010 65537 write none 3 heap_b-IsValid
      heap_b_first heap_b_second (omega arith) refl refl
