-- ===== src/Heap/Calls.antt =====
-- Every call into the allocator of runtime/redzone_rt.c that returns, whatever its arguments and
-- whatever the system allocator answers.
pub mod Composed
use redzone.Prelude.{
  ℕ, ◌+◌, ◌-◌, ◌*◌, ◌/◌, ◌%◌, ◌^◌, ◌≤◌, ◌<◌, ◌≡◌, ◌⊎◌, refl, sym, ap, ◌∙◌, arith, inl, inr, Bool,
  true, false, not, ◌&&◌, ◌||◌, Option, none, some, ltb, leb, ◌==◌, if◌then◌else◌, max, Bool-cases,
  Option-cases,
}
use redzone.Prelude.Bits.{u64, u64_mod, sub64, pow_mono}
use redzone.Memory.{memset, memcpy}
use redzone.Report.{File, Outcome, returns}
use redzone.Table.{Block}
use redzone.Heap.{Heap, System, size_max}
use redzone.Heap.Ops.{
  slack_of, total_of, rz_allocate, malloc, aligned_alloc, posix_memalign, Memalign, zero_fill,
  calloc, carried, old_block, move_block, free, realloc, is_pow2,
}
use redzone.Heap.Valid.{IsValid}
use redzone.Heap.Pow2.{is_pow2_iff}
use redzone.Heap.Alloc.{Grants, Extends, block_for, rz_allocate-Extends}
use redzone.Heap.Aligned.{in_force}
use redzone.Heap.After.{
  After, returns-inj, bind-inv, After-refl, After-trans, After-Extends, free-After,
}

-- What the system's allocator promises while one operation runs: every region that it grants is
-- fresh, and the table can grow.
pub record Promises (sys : System) (h : Heap) : Type 0 where
  pub granted : (total base : ℕ) → sys.sys_malloc total ≡ some base → Grants h base total
  pub grows : (n : ℕ) → sys.sys_grow n ≡ true

-- A new live block of the size asked for, at the pointer returned
pub record Given (h h' : Heap) (size : ℕ) (p : Option ℕ) : Type 0 where
  pub block : Block
  pub extends : Extends h h' block
  pub sized : block.user_size ≡ size
  pub live : block.freed ≡ false
  pub pointer : p ≡ some block.user_addr

-- NULL and the heap as it was, or a new block
abbrev pub Allocated : (h h' : Heap) → ℕ → Option ℕ → Type 0
Allocated h h' size p = ((h' ≡ h) × (p ≡ none)) ⊎ Given h h' size p

pub Allocated-After :
    {h h' : Heap} {size : ℕ} {p : Option ℕ} → IsValid h → Allocated h h' size p → After h h'
Allocated-After valid (inl same) = rw (same.0) (After-refl valid)
Allocated-After {h} {h'} valid (inr given) =
    After-Extends h h' given.block h'.memory given.extends (λ x out. refl)

pub pair-inj :
    {h h' : Heap} {p q : Option ℕ}
    → ◌≡◌ {A = Outcome (Heap × Option ℕ)} (returns (h, p)) (returns (h', q))
    → (h ≡ h') × (p ≡ q)
pair-inj {h} {h'} {p} {q} e =
    let same : ◌≡◌ {A = Heap × Option ℕ} (h, p) (h', q) = returns-inj e in
    (ap (λ x. x.0) same, ap (λ x. x.1) same)

-- The guard of rz_allocate keeps the size computation from wrapping around.
no_wrap :
    (size d : ℕ)
    → d ≤ 2 ^ 63
    → ltb (sub64 (size_max - 32) (slack_of d)) size ≡ false
    → total_of size d ≡ size + 32 + slack_of d
no_wrap size d small guard = ground arith

-- The alignments that the aligned calls let through
pub force :
    (alignment : ℕ)
    → alignment < u64_mod
    → is_pow2 alignment ≡ true
    → (k : ℕ) × (4 ≤ k) × (k ≤ 63) × ((if ltb alignment 16 then 16 else alignment) ≡ 2 ^ k)
force alignment small power =
    let (j, is) = (is_pow2_iff alignment small).0 power in
    let few : j ≤ 63 = elim (Bool-cases (leb j 63)) [
      | inl below ↦ ground (arith, below)
      | inr more ↦
          let big : 2 ^ 64 ≤ 2 ^ j = pow_mono 64 j (ground (arith, more)) in
          absurd (omega (arith, big, is, small))
    ] in
    (max 4 j, omega arith, omega (arith, few), ap (λ a. if ltb a 16 then 16 else a) is ∙ in_force j)

module _ (sys : System) (h : Heap) (valid : IsValid h) (promises : Promises sys h) where
  pub rz_allocate-Allocated :
      (size k : ℕ) (file : File) (line : ℕ) {h' : Heap} {p : Option ℕ}
      → 4 ≤ k
      → k ≤ 63
      → rz_allocate sys h size (2 ^ k) file line ≡ returns (h', p)
      → Allocated h h' size p
  unfolding rz_allocate
  rz_allocate-Allocated size k file line {h'} {p} lo hi e =
      let d = 2 ^ k in
      elim (Bool-cases (ltb (sub64 (size_max - 32) (slack_of (2 ^ k))) size)) [
        | inl too_big ↦ let (same, null) = pair-inj (rw too_big at e) in inl (sym same, sym null)
        | inr guard ↦ elim (Option-cases (sys.sys_malloc (total_of size (2 ^ k)))) [
          | inl refused ↦
              let (same, null) = pair-inj (rw (guard, refused) at e) in inl (sym same, sym null)
          | inr (base, got) ↦
              let g = promises.granted (total_of size (2 ^ k)) base got in
              let power : 2 ^ k ≤ 2 ^ 63 = pow_mono k 63 hi in
              let total = no_wrap size (2 ^ k) power guard in
              let few : k ≤ 46 = elim (Bool-cases (leb k 46)) [
                | inl is ↦ ground (arith, is)
                | inr more ↦
                    let big : 2 ^ 47 ≤ 2 ^ k = pow_mono 47 k (ground (arith, more)) in
                    absurd (ground (arith, big, g.fits, total))
              ] in
              let (h1, run, ext, al) =
                rz_allocate-Extends sys h size k base file line valid lo few
                  (omega (arith, g.fits, total)) got g promises.grows in
              let (same, pointer) = pair-inj (sym run ∙ e) in
              rw (← same, ← pointer)
                (inr (record {
                  block = block_for base (2 ^ k) size file line;
                  extends = ext;
                  sized = refl;
                  live = refl;
                  pointer = refl;
                }))
        ]
      ]

  pub malloc-Allocated :
      (size : ℕ) (file : File) (line : ℕ) {h' : Heap} {p : Option ℕ}
      → malloc sys h size file line ≡ returns (h', p)
      → Allocated h h' size p
  unfolding malloc
  malloc-Allocated size file line e =
      rz_allocate-Allocated size 4 file line (omega arith) (omega arith) e

  pub aligned_alloc-Allocated :
      (alignment size : ℕ) (file : File) (line : ℕ) {h' : Heap} {p : Option ℕ}
      → alignment < u64_mod
      → aligned_alloc sys h alignment size file line ≡ returns (h', p)
      → Allocated h h' size p
  unfolding aligned_alloc
  aligned_alloc-Allocated alignment size file line small e = elim (Bool-cases (is_pow2 alignment)) [
    | inr refused ↦ let (same, null) = pair-inj (rw refused at e) in inl (sym same, sym null)
    | inl power ↦
        let (k, lo, hi, is) = force alignment small power in
        rz_allocate-Allocated size k file line lo hi (rw (power, is) at e)
  ]
