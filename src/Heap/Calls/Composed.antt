-- ===== src/Heap/Calls/Composed.antt =====
-- The calls of runtime/redzone_rt.c that are made of others, posix_memalign, calloc and realloc, as
-- they return.
use redzone.Memory.{store_bytes}
use redzone.Prelude.{
  refl, ◌⊎◌, sym, ℕ, ◌*◌, ◌/◌, ◌%◌, ◌≤◌, ◌<◌, ◌≡◌, ap, arith, inl, inr, not, ◌&&◌, ◌||◌, Option,
  none, some, ltb, ◌==◌, Bool-cases,
}
use redzone.Prelude.Bits.{u64, u64_mod}
use redzone.Memory.{memset, memcpy}
use redzone.Report.{File, Outcome, returns}
use redzone.Table.{Block}
use redzone.Heap.{Heap, System, size_max}
use redzone.Heap.Ops.{
  malloc, posix_memalign, Memalign, stored, enomem, zero_fill, calloc, carried, old_block,
  move_block, free, realloc, is_pow2,
}
use redzone.Heap.Valid.{IsValid}
use redzone.Heap.After.{
  After, returns-inj, bind-inv, After-refl, After-trans, After-Extends, free-After,
}
use redzone.Heap.Calls.{
  Promises, Allocated, Allocated-After, pair-inj, force, rz_allocate-Allocated, malloc-Allocated,
}

-- realloc carries over at most the new size.
carried_le : (o : Option (ℕ × Block)) (size : ℕ) → carried o size ≤ size
carried_le none size = ground arith
carried_le (some (k, b)) size = ground arith

-- The call, and the store of the pointer after it, if there is one
pub record Stores (h h' : Heap) (memptr : ℕ) : Type 0 where
  pub between : Heap
  pub after : After h between
  pub last :
      (h' ≡ between)
      ⊎ ((v : ℕ) × (h' ≡ record between { memory = store_bytes 8 between.memory memptr v }))

module _ (sys : System) (h : Heap) (valid : IsValid h) (promises : Promises sys h) where
  pub posix_memalign-After :
      (memptr alignment size : ℕ) (file : File) (line : ℕ) {h' : Heap} {r : Memalign}
      → alignment < u64_mod
      → posix_memalign sys h memptr alignment size file line ≡ returns (h', r)
      → Stores h h' memptr
  unfolding posix_memalign
  posix_memalign-After memptr alignment size file line {h'} {r} small e =
      elim (Bool-cases (memptr == 0)) [
        | inl no_result ↦
            let is : h ≡ h' = ap (λ (x : Heap × Memalign). x.0) (returns-inj (rw no_result at e)) in
            rw (← is) (record { between = h; after = After-refl valid; last = inl refl })
        | inr result ↦ elim (Bool-cases (not (is_pow2 alignment) || not (alignment % 8 == 0))) [
          | inl refused ↦
              let is : h ≡ h' =
                ap (λ (x : Heap × Memalign). x.0) (returns-inj (rw (result, refused) at e)) in
              rw (← is) (record { between = h; after = After-refl valid; last = inl refl })
          | inr fine ↦
              let (k, lo, hi, is_k) = force alignment small (ground (arith, fine)) in
              let ((h1, p), run, rest) = bind-inv _ _ (rw (result, fine, is_k) at e) in
              kept h1 p
                (Allocated-After valid
                  (rz_allocate-Allocated sys h valid promises size k file line lo hi run))
                rest
        ]
      ]
    where
      kept :
          (h1 : Heap) (p : Option ℕ)
          → After h h1
          → ◌≡◌ {A = Outcome (Heap × Memalign)}
              (returns (elim p [
                | none ↦ (h1, enomem)
                | some v ↦ (record h1 { memory = store_bytes 8 h1.memory memptr v }, stored v)
              ]))
              (returns (h', r))
          → Stores h h' memptr
      kept h1 none a rest =
          let is : h1 ≡ h' = ap (λ (x : Heap × Memalign). x.0) (returns-inj rest) in
          rw (← is) (record { between = h1; after = a; last = inl refl })
      kept h1 (some v) a rest =
          let is : record h1 { memory = store_bytes 8 h1.memory memptr v } ≡ h' =
            ap (λ (x : Heap × Memalign). x.0) (returns-inj rest) in
          record { between = h1; after = a; last = inr (v, sym is) }

  pub calloc-After :
      (nmemb size : ℕ) (file : File) (line : ℕ) {h' : Heap} {p : Option ℕ}
      → calloc sys h nmemb size file line ≡ returns (h', p)
      → After h h'
  unfolding calloc zero_fill
  calloc-After nmemb size file line {h'} {p} e =
      elim (Bool-cases (not (size == 0) && ltb (size_max / size) nmemb)) [
        | inl refused ↦
            let (same, null) = pair-inj (rw refused at e) in rw (← same) (After-refl valid)
        | inr fine ↦
            let ((h1, q), run, rest) = bind-inv _ _ (rw fine at e) in
            filled (u64 (nmemb * size)) h1 q
              (malloc-Allocated sys h valid promises (u64 (nmemb * size)) file line run) rest
      ]
    where
      filled :
          (total : ℕ) (h1 : Heap) (q : Option ℕ)
          → Allocated h h1 total q
          → ◌≡◌ {A = Outcome (Heap × Option ℕ)}
              (returns (zero_fill total (h1, q)))
              (returns (h', p))
          → After h h'
      filled total h1 none a rest =
          let (same, null) = pair-inj rest in rw (← same) (Allocated-After valid a)
      filled total h1 (some np) (inl same) rest = absurd (ground (arith, same.1))
      filled total h1 (some np) (inr given) rest =
          let at : np ≡ given.block.user_addr = ground (arith, given.pointer) in
          let (same, pointer) = pair-inj rest in
          rw (← same) (
            After-Extends h h1 given.block (memset h1.memory np 0 total) given.extends
              (λ x out. ground (arith, out, at, given.sized)))

  pub realloc-After :
      (ptr size : ℕ) (file : File) (line : ℕ) {h' : Heap} {p : Option ℕ}
      → realloc sys h ptr size file line ≡ returns (h', p)
      → After h h'
  unfolding realloc move_block
  realloc-After ptr size file line {h'} {p} e = elim (Bool-cases (ptr == 0)) [
    | inl null ↦
        Allocated-After valid (malloc-Allocated sys h valid promises size file line (rw null at e))
    | inr some_ptr ↦ elim (Bool-cases (size == 0)) [
      | inl empty ↦
          let (h1, run, rest) =
            bind-inv (free h ptr) (λ x. returns (x, none)) (rw (some_ptr, empty) at e) in
          let (same, pointer) = pair-inj rest in rw (← same) (free-After h h1 ptr valid run)
      | inr some_size ↦
          let (r, run, rest) =
            bind-inv (malloc sys h size file line)
              (λ r. elim r.1 [ none ↦ returns (r.0, none) | some np ↦ move_block r.0 ptr np size ])
              (rw (some_ptr, some_size) at e) in
          moved r.0 r.1 (malloc-Allocated sys h valid promises size file line run) rest
    ]
  ]
    where
      moved :
          (h1 : Heap) (q : Option ℕ)
          → Allocated h h1 size q
          → ◌≡◌ {A = Outcome (Heap × Option ℕ)}
              (elim q [ none ↦ returns (h1, none) | some np ↦ move_block h1 ptr np size ])
              (returns (h', p))
          → After h h'
      moved h1 none a rest =
          let (same, null) = pair-inj rest in rw (← same) (Allocated-After valid a)
      moved h1 (some np) (inl same) rest = absurd (ground (arith, same.1))
      moved h1 (some np) (inr given) rest =
          let at : np ≡ given.block.user_addr = ground (arith, given.pointer) in
          let copy = carried (old_block h1 ptr) size in
          let m = memcpy h1.memory np ptr copy in
          let grown =
            After-Extends h h1 given.block m given.extends
              (λ x out. ground (arith, out, at, given.sized, carried_le (old_block h1 ptr) size)) in
          let (h2, run, rest') =
            bind-inv (free (record h1 { memory = m }) ptr) (λ x. returns (x, some np)) rest in
          let (same, pointer) = pair-inj rest' in
          rw (← same)
            (After-trans grown (free-After (record h1 { memory = m }) h2 ptr grown.valid run))
