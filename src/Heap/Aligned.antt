-- ===== src/Heap/Aligned.antt =====
-- The aligned entry points (runtime/redzone_rt.c): aligned_alloc and posix_memalign.
use native.Mathlib.Nat.{pow-suc}
use redzone.Prelude.{
  false, ◌<◌, not, ℕ, zero, suc, ◌%◌, ◌^◌, ◌≤◌, ◌≡◌, refl, arith, inl, inr, true, ◌&&◌, none, some,
  max, ltb, ◌==◌, if◌then◌else◌, Bool-cases,
}
use redzone.Prelude.Bits.{pow_mono}
use redzone.Shadow.{shadow_limit}
use redzone.Report.{File, returns}
use redzone.Memory.{store_bytes}
use redzone.Heap.{Heap, System}
use redzone.Heap.Ops.{
  user_of, total_of, rz_allocate, aligned_alloc, posix_memalign, stored, einval, enomem, is_pow2,
}
use redzone.Heap.Valid.{IsValid}
use redzone.Heap.Pow2.{is_pow2_iff}
use redzone.Heap.Alloc.{Grants, Extends, block_for, rz_allocate-Extends}

-- The alignment in force is the one asked for, or 16 if that is more.
pub in_force : (k : ℕ) → (if ltb (2 ^ k) 16 then 16 else 2 ^ k) ≡ 2 ^ max 4 k
in_force k = elim (Bool-cases (ltb k 4)) [
  | inl low ↦
      let small : 2 ^ k ≤ 2 ^ 3 = pow_mono k 3 (ground arith) in
      let e : max 4 k ≡ 4 = ground arith in rw e (ground (arith, small))
  | inr high ↦
      let big : 16 ≤ 2 ^ k = pow_mono 4 k (ground arith) in
      let e : max 4 k ≡ k = ground arith in rw e (ground (arith, big))
]

-- What is aligned to the alignment in force is aligned as asked.
also_aligned : (k p : ℕ) → p % 2 ^ max 4 k ≡ 0 → p % 2 ^ k ≡ 0
also_aligned zero p h = omega arith
also_aligned (suc zero) p h = omega arith
also_aligned (suc (suc zero)) p h = omega arith
also_aligned (suc (suc (suc zero))) p h = omega arith
also_aligned (suc (suc (suc (suc j)))) p h =
    let e : max 4 (suc (suc (suc (suc j)))) ≡ suc (suc (suc (suc j))) = omega arith in rw (← e) h

pow_8 : (k : ℕ) → 3 ≤ k → 2 ^ k % 8 ≡ 0
pow_8 zero l = absurd (omega arith)
pow_8 (suc zero) l = absurd (omega arith)
pow_8 (suc (suc zero)) l = absurd (omega arith)
pow_8 (suc (suc (suc j))) l = omega (arith, pow-suc 2 j, pow-suc 2 (suc j), pow-suc 2 (suc (suc j)))

-- The block that an aligned request of alignment 2 ^ k is granted at `base`.
abbrev pub pointer_for : ℕ → ℕ → ℕ
pointer_for k base = user_of base (2 ^ max 4 k)

module _ (sys : System) (h : Heap) (size k base : ℕ) (file : File) (line : ℕ) (valid : IsValid h)
    (few : k ≤ 46) (small : size ≤ shadow_limit)
    (got : sys.sys_malloc (total_of size (2 ^ max 4 k)) ≡ some base)
    (g : Grants h base (total_of size (2 ^ max 4 k))) (can : (n : ℕ) → sys.sys_grow n ≡ true) where
  is_power : is_pow2 (2 ^ k) ≡ true
  is_power = (is_pow2_iff (2 ^ k) (omega (arith, pow_mono k 46 few))).1 (k, refl)

  -- An aligned_alloc on a well-formed heap for at most 2 ^ 47 bytes and an alignment that is a
  -- power of two up to 2 ^ 46, when the system grants a fresh region and room in the table: it
  -- returns a pointer aligned as asked, and the heap is well formed with the new live block,
  -- the other blocks as they were.
  pub aligned_alloc-Extends :
      (h' : Heap) × (aligned_alloc sys h (2 ^ k) size file line
        ≡ returns (h', some (pointer_for k base)))
      × Extends h h' (block_for base (2 ^ max 4 k) size file line)
      × (pointer_for k base % 2 ^ k ≡ 0)
  unfolding aligned_alloc
  aligned_alloc-Extends =
      let (h', run, ext, al) =
        rz_allocate-Extends sys h size (max 4 k) base file line valid (omega arith) (omega arith)
          small got g can in
      (h', rw (is_power, in_force k) run, ext, also_aligned k (pointer_for k base) al)

  -- A posix_memalign through a pointer that is not NULL, on a well-formed heap, for at most 2 ^
  -- 47 bytes and an alignment that is a power of two from 2 ^ 3 to 2 ^ 46, when the system
  -- grants a fresh region and room in the table: but for the store of the pointer, which is aligned
  -- as asked, the heap is well formed with the new live block, the other blocks as they were.
  pub posix_memalign-Extends :
      (memptr : ℕ)
      → 3 ≤ k
      → 0 < memptr
      → (h' : Heap) × (posix_memalign sys h memptr (2 ^ k) size file line
          ≡ returns (
            record h' { memory = store_bytes 8 h'.memory memptr (pointer_for k base) },
            stored (pointer_for k base),
          ))
        × Extends h h' (block_for base (2 ^ max 4 k) size file line)
        × (pointer_for k base % 2 ^ k ≡ 0)
  unfolding posix_memalign
  posix_memalign-Extends memptr wide there =
      let (h', run, ext, al) =
        rz_allocate-Extends sys h size (max 4 k) base file line valid (omega arith) (omega arith)
          small got g can in
      let multiple : 2 ^ k % 8 ≡ 0 = pow_8 k wide in
      let not_null : (memptr == 0) ≡ false = ground (arith, there) in
      (
        h',
        rw (not_null, is_power, multiple, in_force k, run),
        ext,
        also_aligned k (pointer_for k base) al,
      )

-- Without memory the common allocator returns NULL and leaves the heap alone.
rz_allocate-empty :
    (sys : System) (h : Heap) (size align : ℕ) (file : File) (line : ℕ)
    → ((n : ℕ) → sys.sys_malloc n ≡ none)
    → rz_allocate sys h size align file line ≡ returns (h, none)
unfolding rz_allocate
rz_allocate-empty sys h size align file line empty = ground (arith, empty (total_of size align))

-- When the system has no memory, posix_memalign leaves the heap as it was and answers EINVAL for
-- a NULL result pointer and for an alignment that is no power of two or no multiple of eight, and
-- ENOMEM otherwise.
pub posix_memalign_errors :
    (sys : System) (h : Heap) (memptr alignment size : ℕ) (file : File) (line : ℕ)
    → ((n : ℕ) → sys.sys_malloc n ≡ none)
    → posix_memalign sys h memptr alignment size file line
      ≡ returns (
        h,
        if not (memptr == 0) && is_pow2 alignment && alignment % 8 == 0 then enomem else einval,
      )
unfolding posix_memalign
posix_memalign_errors sys h memptr alignment size file line empty = ground (
  arith,
  rz_allocate-empty sys h size (if ltb alignment 16 then 16 else alignment) file line empty,
)
