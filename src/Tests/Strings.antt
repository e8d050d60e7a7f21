-- ===== src/Tests/Strings.antt =====
-- The string wrappers on the heap with two blocks, the first of which holds "A".
use redzone.Prelude.{
  ltb, ◌^◌, ℕ, ◌+◌, ◌-◌, ◌<◌, ◌≡◌, refl, arith, false, none, some, min, ◌==◌, update,
}
use redzone.Shadow.Range.{within}
use redzone.Memory.{Memory, store_bytes}
use redzone.Report.{returns}
use redzone.Heap.{Heap}
use redzone.Heap.Valid.{IsValid}
use redzone.Heap.Writes.{write-IsValid}
use redzone.Strings.{strnlen, strlen}
use redzone.Strings.Formatted.{Expansion, snprintf, snprintf-in_bounds}
use redzone.Tests.Samples.{block_a, heap_b, heap_b-IsValid, heap_b_first}

abbrev letters : Memory
letters = update (update heap_b.memory 0x10010 65) 0x10011 0

abbrev heap_text : Heap
heap_text = record heap_b { memory = letters }

heap_text-IsValid : IsValid heap_text
heap_text-IsValid = write-IsValid heap_b letters 0 block_a heap_b-IsValid heap_b_first (λ x out.
    let one : (0x10010 == x) ≡ false = ground (arith, out) in
    let two : (0x10011 == x) ≡ false = ground (arith, out) in rw (two, one))

length_a : strlen letters 0x10010 ≡ 1
unfolding strlen strnlen
length_a = refl

length_b : strlen letters 0x20010 ≡ 0
unfolding strlen strnlen store_bytes
length_b = refl

-- The format expands to five letters, of which 4 bytes and a zero fit.
abbrev five_letters : Expansion
five_letters = record { len = some 5; text = λ i. 104; writes = λ n. ltb n (2 ^ 31) }

snprintf-in_bounds_example :
    (h' : Heap) × (snprintf heap_text 0x10010 5 none 3 five_letters ≡ returns h')
    × IsValid h'
    × ((i : ℕ) → i < min 5 (5 - 1) → h'.memory (0x10010 + i) ≡ 104)
    × (h'.memory (0x10010 + min 5 (5 - 1)) ≡ 0)
    × ((x : ℕ) → within 0x10010 (min (5 + 1) 5) x ≡ false → h'.memory x ≡ letters x)
snprintf-in_bounds_example =
    snprintf-in_bounds heap_text 0 block_a 0x10010 5 5 none 3 five_letters heap_text-IsValid
      heap_b_first refl (omega arith) (omega arith) (omega arith) (λ n small. ground (arith, small))
      refl
