-- ===== src/Heap/Free.antt =====
-- What __redzone_free does on each branch (runtime/redzone_rt.c), in a well-formed heap.
use redzone.Prelude.{
  ℕ, ◌+◌, ◌-◌, ◌/◌, ◌%◌, ◌≤◌, ◌<◌, ◌≡◌, ◌≢◌, ◌⊎◌, refl, sym, ◌∙◌, arith, inl, inr, true, false,
  ◌&&◌, some, ltb, leb, ◌==◌, if◌then◌else◌, length-set, get_elem?, get_elem?-lt,
  get_elem?-set_self, get_elem?-set_ne, set, set-cases, Bool-cases,
}
use redzone.Prelude.Bits.{u64, clear_low3}
use redzone.Shadow.{freed_poison, set_shadow_range}
use redzone.Shadow.Range.{covers, set_shadow_range_lem, set_shadow_range_none}
use redzone.Report.{returns, report_free_error, double_free, invalid_free}
use redzone.Table.{Block}
use redzone.Table.Find.{find_block-none}
use redzone.Heap.{Heap}
use redzone.Heap.Ops.{free_block, free}
use redzone.Heap.Valid.{Placed, IsValid, shadow_of}
use redzone.Heap.Lookup.{
  block_from_user_ptr-entry, block_from_user_ptr-none, find_block-entry, holds_lem,
}

-- The heap after the free of a live block.
abbrev pub quarantine : Heap → ℕ → Block → Heap
quarantine h k b = record h {
  shadow = set_shadow_range h.shadow b.user_addr (clear_low3 (u64 (b.user_size + 7))) freed_poison;
  table = record (h.table) { blocks = set h.table.blocks k (record b { freed = true }) };
}

module _ {h : Heap} (valid : IsValid h) (k : ℕ) {b : Block}
    (entry : get_elem? h.table.blocks k ≡ some b) (live : b.freed ≡ false) where
  at : Placed b
  at = valid.placed k b entry

  abbrev dead : Block
  dead = record b { freed = true }

  quarantine-shadow :
      (i : ℕ)
      → (quarantine h k b).shadow i ≡ (
          if leb (b.user_addr / 8) i && ltb i ((b.user_addr + b.user_size + 7) / 8)
          then freed_poison
          else h.shadow i)
  quarantine-shadow i =
      let len : clear_low3 (u64 (b.user_size + 7)) ≡ b.user_size + 7 - (b.user_size + 7) % 8 =
        omega (arith, at.right, at.fits) in
      elim (Bool-cases (b.user_size == 0)) [
        | inl e ↦
            let nothing : clear_low3 (u64 (b.user_size + 7)) ≡ 0 = ground arith in
            rw (nothing, set_shadow_range_none h.shadow b.user_addr freed_poison)
              (ground (arith, at.user_aligned))
        | inr e ↦
            rw
              (
                len,
                set_shadow_range_lem h.shadow b.user_addr (b.user_size + 7 - (b.user_size + 7) % 8)
                    freed_poison i (ground arith) (omega (arith, at.right, at.fits)),
              )
              (ground (arith, at.user_aligned))
      ]

  quarantine-shadowed :
      (j : ℕ) (c : Block) (i : ℕ)
      → get_elem? (quarantine h k b).table.blocks j ≡ some c
      → covers c.real_base c.total_size i ≡ true
      → (quarantine h k b).shadow i ≡ shadow_of c i
  quarantine-shadowed j c i e cov = elim (set-cases h.table.blocks k dead j e) [
    | inl p ↦
        let cov' : covers b.real_base b.total_size i ≡ true = rw (p.1) at cov in
        let was = valid.shadowed k b i entry cov' in
        rw (quarantine-shadow i, p.1) (ground (arith, was, live))
    | inr p ↦
        let old = valid.apart j k c b p.1 entry p.0 in
        let was = valid.shadowed j c i p.1 cov in
        rw (quarantine-shadow i) (ground (arith, was, old, at, (valid.placed j c p.1).aligned))
  ]

  pub quarantine-IsValid : IsValid (quarantine h k b)
  quarantine-IsValid = record {
    placed = λ j c e. elim (set-cases h.table.blocks k dead j e) [
      | inl p ↦ rw p.1 (record {
        aligned = at.aligned;
        user_aligned = at.user_aligned;
        low = at.low;
        left = at.left;
        right = at.right;
        fits = at.fits;
      })
      | inr p ↦ valid.placed j c p.1
    ];
    apart = λ i j c d ei ej ne. elim (set-cases h.table.blocks k dead i ei) [
      | inl p ↦ elim (set-cases h.table.blocks k dead j ej) [
        | inl q ↦ absurd (ne (p.0 ∙ sym q.0))
        | inr q ↦ rw p.1 (valid.apart k j b d entry q.1 (λ e. q.0 (sym e)))
      ]
      | inr p ↦ elim (set-cases h.table.blocks k dead j ej) [
        | inl q ↦ rw q.1 (valid.apart i k c b p.1 entry p.0)
        | inr q ↦ valid.apart i j c d p.1 q.1 ne
      ]
    ];
    shadowed = quarantine-shadowed;
    headed = λ j c e. elim (set-cases h.table.blocks k dead j e) [
      | inl p ↦ rw (p.0, p.1) (valid.headed k b entry)
      | inr p ↦ valid.headed j c p.1
    ];
    few = rw (length-set h.table.blocks k dead) valid.few;
  }

  -- Freeing a live block of a well-formed heap by its user pointer returns; the block is then
  -- marked freed, every other block and all memory stay, and the heap is well formed.
  pub free-live :
      (h' : Heap) × (free h b.user_addr ≡ returns h')
      × IsValid h'
      × (get_elem? h'.table.blocks k ≡ some (record b { freed = true }))
      × ((j : ℕ) → j ≢ k → get_elem? h'.table.blocks j ≡ get_elem? h.table.blocks j)
      × (h'.memory ≡ h.memory)
  unfolding free free_block
  free-live =
      let some_ptr : (b.user_addr == 0) ≡ false = ground (arith, at.left) in
      (
        quarantine h k b,
        rw (some_ptr, block_from_user_ptr-entry valid k entry, live),
        quarantine-IsValid,
        get_elem?-set_self h.table.blocks k dead (get_elem?-lt h.table.blocks k entry),
        λ j ne. get_elem?-set_ne h.table.blocks k j dead (λ e. ne (sym e)),
        refl,
      )

module _ (h : Heap) (valid : IsValid h) where
  -- Freeing a block of a well-formed heap that is already freed, by its user pointer, is
  -- reported as a double free.
  pub free-freed :
      (k : ℕ) (b : Block)
      → get_elem? h.table.blocks k ≡ some b
      → b.freed ≡ true
      → free h b.user_addr ≡ report_free_error double_free b.user_addr
  unfolding free free_block
  free-freed k b entry dead =
      let some_ptr : (b.user_addr == 0) ≡ false = ground (arith, valid.placed k b entry) in
      rw (some_ptr, block_from_user_ptr-entry valid k entry, dead)

  -- In a well-formed heap, freeing an address that lies in the allocation of a block, live or
  -- freed, but is not its user pointer, is reported as an invalid free.
  pub free-interior :
      (k : ℕ) (b : Block) (ptr : ℕ)
      → get_elem? h.table.blocks k ≡ some b
      → b.real_base ≤ ptr
      → ptr < b.real_base + b.total_size
      → ptr ≢ b.user_addr
      → free h ptr ≡ report_free_error invalid_free ptr
  unfolding free
  free-interior k b ptr entry lo hi ne =
      let p = valid.placed k b entry in
      let some_ptr : (ptr == 0) ≡ false = ground (arith, p) in
      rw (some_ptr, block_from_user_ptr-none h ptr other, find_block-entry valid k entry ptr lo hi)
    where
      other : (j : ℕ) (c : Block) → get_elem? h.table.blocks j ≡ some c → c.user_addr ≢ ptr
      other j c e same = elim (Bool-cases (j == k)) [
        | inl eq ↦
            let jk : j ≡ k = ground arith in
            let here : get_elem? h.table.blocks k ≡ some c = rw jk at e in ne (ground (arith, here))
        | inr eq ↦ ground (arith, valid.apart j k c b e entry, valid.placed j c e)
      ]

  -- In a well-formed heap, freeing an address that lies in no block of the table returns, with
  -- the heap as it was.
  pub free-foreign :
      (ptr : ℕ)
      → ((k : ℕ) (b : Block)
          → get_elem? h.table.blocks k ≡ some b
          → (ptr < b.real_base) ⊎ (b.real_base + b.total_size ≤ ptr))
      → free h ptr ≡ returns h
  unfolding free
  free-foreign ptr out =
      rw
        (
          block_from_user_ptr-none h ptr
              (λ k b e same. ground (arith, out k b e, valid.placed k b e)),
          find_block-none h.table.blocks ptr
              (λ k b e. rw (holds_lem b ptr (valid.placed k b e)) (ground (arith, out k b e))),
        )
        (ground arith)
