-- ===== src/Heap/Entry.antt =====
-- What the public allocation entry points give (runtime/redzone_rt.c): malloc, aligned_alloc,
-- posix_memalign and calloc, their errors included.
use redzone.Prelude.{
  ℕ, ◌+◌, ◌*◌, ◌/◌, ◌≤◌, ◌<◌, ◌≡◌, arith, inl, inr, true, false, not, ◌&&◌, none, some, ltb, leb,
  ◌==◌, length, get_elem?, Bool-cases,
}
use redzone.Prelude.Bits.{u64, u64_mod}
use redzone.Shadow.{shadow_limit}
use redzone.Shadow.Range.{within}
use redzone.Memory.{memset}
use redzone.Report.{File, returns}
use redzone.Heap.{Heap, System, size_max}
use redzone.Heap.Ops.{user_of, total_of, malloc, calloc, zero_fill}
use redzone.Heap.Valid.{IsValid}
use redzone.Heap.Alloc.{Grants, Extends, block_for, rz_allocate-Extends, user_of_bounds}
use redzone.Heap.Writes.{write-IsValid}

quotient_lt : (m n s : ℕ) → 0 < s → m < n * s → m / s < n
quotient_lt m n s pos h = grind arith

le_quotient : (m n s : ℕ) → 0 < s → n * s ≤ m → n ≤ m / s
le_quotient m n s pos h = grind arith

-- The test of calloc is true exactly for the products that do not fit in 64 bits.
overflow_test :
    (nmemb size : ℕ) → (not (size == 0) && ltb (size_max / size) nmemb) ≡ leb u64_mod (nmemb * size)
overflow_test nmemb size = elim (Bool-cases (size == 0)) [
  | inl e ↦ let z : size ≡ 0 = ground arith in rw z (ground arith)
  | inr e ↦
      let pos : 0 < size = ground arith in
      elim (Bool-cases (leb u64_mod (nmemb * size))) [
        | inl big ↦
            let q = quotient_lt size_max nmemb size pos (ground arith) in rw big (ground arith)
        | inr fits ↦
            let q = le_quotient size_max nmemb size pos (ground arith) in rw fits (ground arith)
      ]
]

-- A calloc whose product does not fit in 64 bits returns NULL and leaves the heap as it was,
-- whatever the system would grant.
pub calloc_overflow :
    (sys : System) (h : Heap) (nmemb size : ℕ) (file : File) (line : ℕ)
    → u64_mod ≤ nmemb * size
    → calloc sys h nmemb size file line ≡ returns (h, none)
unfolding calloc
calloc_overflow sys h nmemb size file line big =
    let too_big : leb u64_mod (nmemb * size) ≡ true = ground arith in
    rw (overflow_test nmemb size, too_big)

module _ (sys : System) (h : Heap) (size base : ℕ) (file : File) (line : ℕ) (valid : IsValid h)
    (small : size ≤ shadow_limit) (got : sys.sys_malloc (total_of size 16) ≡ some base)
    (g : Grants h base (total_of size 16)) (can : (n : ℕ) → sys.sys_grow n ≡ true) where
  -- A malloc on a well-formed heap for at most 2 ^ 47 bytes, when the system grants a fresh
  -- region and room in the table: it returns a pointer 16 bytes past the granted base, the heap
  -- is well formed with the new live block last in the table, and the other blocks and all
  -- bytes outside the new left red zone stay.
  pub malloc-Extends :
      (h' : Heap) × (malloc sys h size file line ≡ returns (h', some (user_of base 16)))
      × Extends h h' (block_for base 16 size file line)
      × (user_of base 16 ≡ base + 16)
  unfolding malloc
  malloc-Extends =
      let (h', run, ext, al) =
        rz_allocate-Extends sys h size 4 base file line valid (omega arith) (omega arith) small got
          g can in
      let u = user_of_bounds 4 base (omega arith) (omega arith) g.aligned (omega (arith, g.fits)) in
      (h', run, ext, omega (arith, u.2, u.3))

-- A calloc on a well-formed heap whose product is at most 2 ^ 47, when the system grants a fresh
-- region and room in the table: it returns a pointer to that many zero bytes, and the heap is
-- well formed with the new live block.
pub calloc-zeroed :
    (sys : System) (h : Heap) (nmemb size base : ℕ) (file : File) (line : ℕ)
    → IsValid h
    → nmemb * size ≤ shadow_limit
    → sys.sys_malloc (total_of (nmemb * size) 16) ≡ some base
    → Grants h base (total_of (nmemb * size) 16)
    → ((n : ℕ) → sys.sys_grow n ≡ true)
    → (h' : Heap) × (calloc sys h nmemb size file line ≡ returns (h', some (base + 16)))
      × IsValid h'
      × (get_elem? h'.table.blocks (length h.table.blocks)
          ≡ some (block_for base 16 (nmemb * size) file line))
      × ((x : ℕ) → within (base + 16) (nmemb * size) x ≡ true → h'.memory x ≡ 0)
unfolding calloc zero_fill
calloc-zeroed sys h nmemb size base file line valid small got g can =
    let (h', run, ext, at) =
      malloc-Extends sys h (nmemb * size) base file line valid small got g can in
    let fits : leb u64_mod (nmemb * size) ≡ false = ground arith in
    let whole : u64 (nmemb * size) ≡ nmemb * size = omega arith in
    let run' : malloc sys h (nmemb * size) file line ≡ returns (h', some (base + 16)) =
      rw (← at) run in
    (
      record h' { memory = memset h'.memory (base + 16) 0 (nmemb * size) },
      rw (overflow_test nmemb size, fits, whole, run'),
      write-IsValid h' (memset h'.memory (base + 16) 0 (nmemb * size)) (length h.table.blocks)
          (block_for base 16 (nmemb * size) file line) ext.valid ext.entry
          (λ x out. ground (arith, out, at)),
      ext.entry,
      λ x inside. ground (arith, inside),
    )
