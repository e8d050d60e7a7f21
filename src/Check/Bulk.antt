-- ===== src/Check/Bulk.antt =====
-- Bulk operations on heap blocks (runtime/redzone_rt.c, __redzone_memcpy and __redzone_memset), and
-- what a check of the first and the last byte does not see.
use redzone.Prelude.{
  ◌⊎◌, ℕ, ◌+◌, ◌-◌, ◌≤◌, ◌<◌, ◌≡◌, refl, arith, inl, inr, true, false, some, ◌==◌, get_elem?,
  Bool-cases,
}
use redzone.Shadow.{byte_poisoned}
use redzone.Shadow.Range.{within}
use redzone.Memory.{Memory, memcpy}
use redzone.Report.{File, Access, write, read, returns}
use redzone.Table.{Block}
use redzone.Heap.{Heap}
use redzone.Heap.Valid.{IsValid}
use redzone.Heap.Lookup.{block-byte}
use redzone.Heap.Writes.{write-IsValid}
use redzone.Check.{last_of, check, checked_memmove, checked_memcpy}
use redzone.Check.Exact.{in_bounds, check-block}

check_empty :
    (h : Heap) (a : ℕ) (w : Access) (file : File) (line : ℕ) → check h a 0 w file line ≡ returns tt
unfolding check
check_empty h a w file line = refl

-- An access inside a live block passes, an empty one too.
pub check-in_bounds :
    (h : Heap) (k : ℕ) (b : Block) (a size : ℕ) (mode : Access) (file : File) (line : ℕ)
    → IsValid h
    → get_elem? h.table.blocks k ≡ some b
    → in_bounds b a size ≡ true
    → check h a size mode file line ≡ returns tt
check-in_bounds h k b a size mode file line valid entry ok = elim (Bool-cases (size == 0)) [
  | inl e ↦ let z : size ≡ 0 = ground arith in rw z (check_empty h a mode file line)
  | inr e ↦
      let p = valid.placed k b entry in
      let passes =
        check-block h k b a size mode file line valid entry (ground arith) (ground (arith, p))
          (ground (arith, p)) in
      rw (passes, ok)
]

-- In a well-formed heap, a memmove between ranges in the user regions of two live blocks, or of
-- one, which may overlap: it returns, the destination holds the source's bytes as they were, all other bytes stay, and
-- the heap is well formed.
pub checked_memmove-in_bounds :
    (h : Heap) (j k : ℕ) (b c : Block) (dst src n : ℕ) (file : File) (line : ℕ)
    → IsValid h
    → get_elem? h.table.blocks j ≡ some b
    → get_elem? h.table.blocks k ≡ some c
    → in_bounds b dst n ≡ true
    → in_bounds c src n ≡ true
    → (h' : Heap) × (checked_memmove h dst src n file line ≡ returns h')
      × IsValid h'
      × ((i : ℕ) → i < n → h'.memory (dst + i) ≡ h.memory (src + i))
      × ((x : ℕ) → within dst n x ≡ false → h'.memory x ≡ h.memory x)
unfolding checked_memmove
checked_memmove-in_bounds h j k b c dst src n file line valid ej ek okb okc =
    let m = memcpy h.memory dst src n in
    (
      record h { memory = m },
      rw (
        check-in_bounds h j b dst n write file line valid ej okb,
        check-in_bounds h k c src n read file line valid ek okc,
      ),
      write-IsValid h m j b valid ej (λ x out. ground (arith, out, okb)),
      λ i lt. let e : dst + i - dst ≡ i = omega arith in rw e (ground arith),
      λ x out. ground (arith, out),
    )

-- What C says of memcpy: it copies between ranges that do not overlap.
abbrev pub Copies : (Memory → (dst src n : ℕ) → Memory) → Type 0
Copies libc =
    (m : Memory) (dst src n : ℕ)
    → (dst + n ≤ src) ⊎ (src + n ≤ dst)
    → libc m dst src n ≡ memcpy m dst src n

-- Between such ranges the two wrappers do the same.
pub checked_memcpy-checked_memmove :
    (libc : Memory → (dst src n : ℕ) → Memory) (h : Heap) (dst src n : ℕ) (file : File) (line : ℕ)
    → Copies libc
    → (dst + n ≤ src) ⊎ (src + n ≤ dst)
    → checked_memcpy libc h dst src n file line ≡ checked_memmove h dst src n file line
unfolding checked_memcpy checked_memmove
checked_memcpy-checked_memmove libc h dst src n file line copies away =
    rw (copies h.memory dst src n away) refl

-- In a well-formed heap, a memcpy between ranges in the user regions of two live blocks, or of one,
-- which do not overlap, with a libc whose memcpy copies between such ranges: it returns, the
-- destination holds the source's bytes as they were, all other bytes stay, and the heap is well formed.
pub checked_memcpy-in_bounds :
    (libc : Memory → (dst src n : ℕ) → Memory) (h : Heap) (j k : ℕ) (b c : Block) (dst src n : ℕ)
    (file : File) (line : ℕ)
    → Copies libc
    → IsValid h
    → get_elem? h.table.blocks j ≡ some b
    → get_elem? h.table.blocks k ≡ some c
    → in_bounds b dst n ≡ true
    → in_bounds c src n ≡ true
    → (dst + n ≤ src) ⊎ (src + n ≤ dst)
    → (h' : Heap) × (checked_memcpy libc h dst src n file line ≡ returns h')
      × IsValid h'
      × ((i : ℕ) → i < n → h'.memory (dst + i) ≡ h.memory (src + i))
      × ((x : ℕ) → within dst n x ≡ false → h'.memory x ≡ h.memory x)
checked_memcpy-in_bounds libc h j k b c dst src n file line copies valid ej ek okb okc away =
    rw (checked_memcpy-checked_memmove libc h dst src n file line copies away)
      (checked_memmove-in_bounds h j k b c dst src n file line valid ej ek okb okc)

-- In a well-formed heap, an access that begins in the user region of one live block and ends in
-- that of another, which lies above it, is let through, although it covers the byte below the
-- second block, which is off-limits.
pub check_misses_gap :
    (h : Heap) (j k : ℕ) (b c : Block) (a size : ℕ) (mode : Access) (file : File) (line : ℕ)
    → IsValid h
    → get_elem? h.table.blocks j ≡ some b
    → get_elem? h.table.blocks k ≡ some c
    → b.real_base + b.total_size ≤ c.real_base
    → in_bounds b a 1 ≡ true
    → in_bounds c (a + size - 1) 1 ≡ true
    → (check h a size mode file line ≡ returns tt)
      × (byte_poisoned h.shadow (c.user_addr - 1) ≡ true)
      × (within a size (c.user_addr - 1) ≡ true)
unfolding check
check_misses_gap h j k b c a size mode file line valid ej ek order first last =
    let p = valid.placed j b ej in
    let q = valid.placed k c ek in
    let end : last_of a size ≡ a + size - 1 = ground (arith, p, q, first, last) in
    let open_a : byte_poisoned h.shadow a ≡ false =
      rw (block-byte valid j ej a (ground (arith, p, first))) (ground (arith, first)) in
    let open_b : byte_poisoned h.shadow (a + size - 1) ≡ false =
      rw (block-byte valid k ek (a + size - 1) (ground (arith, q, last))) (ground (arith, last)) in
    (
      rw (end, open_a, open_b) (ground arith),
      rw (block-byte valid k ek (c.user_addr - 1) (ground (arith, q))) (ground (arith, q)),
      ground (arith, p, q, order, first, last),
    )
