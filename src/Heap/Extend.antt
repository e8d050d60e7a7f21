-- ===== src/Heap/Extend.antt =====
-- A new block in a well-formed heap (runtime/redzone_rt.c, rz_allocate): the heap stays well formed.
use redzone.Prelude.{
  ℕ, ◌+◌, ◌≤◌, ◌<◌, ◌≡◌, ◌≢◌, ◌⊎◌, sym, ◌∙◌, arith, inl, inr, true, false, some, [], ◌∷◌, ◌++◌,
  if◌then◌else◌, length, get_elem?, length-append, snoc-cases,
}
use redzone.Prelude.Bits.{u64_mod}
use redzone.Shadow.{rz_poison, set_shadow_range, carve}
use redzone.Shadow.Range.{carved, covers, guarded_lem}
use redzone.Table.{Block}
use redzone.Heap.{Heap, header_magic, read_header, write_header}
use redzone.Heap.Valid.{Placed, Apart, IsValid, shadow_of}
use redzone.Heap.Headers.{write_header_frame, read_header_congr, read_header-write_header}

-- The heap with the block recorded, poisoned, carved and given its header.
abbrev pub extend : Heap → Block → ℕ → Heap
extend h b cap = record {
  shadow =
      carve (set_shadow_range h.shadow b.real_base b.total_size rz_poison) b.user_addr b.user_size;
  table = record { blocks = h.table.blocks ++ b ∷ []; cap = cap };
  memory =
      write_header h.memory b.user_addr
        (record { magic = header_magic; index = length h.table.blocks });
}

module _ {h : Heap} (valid : IsValid h) {b : Block} (at : Placed b) (live : b.freed ≡ false)
    (fresh : (k : ℕ) (c : Block) → get_elem? h.table.blocks k ≡ some c → Apart c b)
    (room : length h.table.blocks + 1 < u64_mod) (cap : ℕ) where
  pub extend-shadow :
      (i : ℕ)
      → (extend h b cap).shadow i ≡ (
          if covers b.real_base b.total_size i
          then carved b.user_addr b.user_size rz_poison i
          else h.shadow i)
  extend-shadow i =
      guarded_lem h.shadow b.real_base b.total_size b.user_addr b.user_size rz_poison
        (omega (arith, at.aligned)) (omega (arith, at.user_aligned)) at.left at.right at.fits i

  extend-shadowed :
      (k : ℕ) (c : Block) (i : ℕ)
      → get_elem? (extend h b cap).table.blocks k ≡ some c
      → covers c.real_base c.total_size i ≡ true
      → (extend h b cap).shadow i ≡ shadow_of c i
  extend-shadowed k c i entry cov = elim (snoc-cases h.table.blocks b k entry) [
    | inl p ↦
        let cov' : covers b.real_base b.total_size i ≡ true = rw (← p.1) cov in
        rw (extend-shadow i, p.1, cov', live)
    | inr p ↦
        let old = fresh k c p.1 in
        let low = (valid.placed k c p.1).aligned in
        let off : covers b.real_base b.total_size i ≡ false =
          ground (arith, old, low, at.aligned) in
        rw (extend-shadow i, off) (valid.shadowed k c i p.1 cov)
  ]

  extend-Placed :
      (k : ℕ) (c : Block) → get_elem? (extend h b cap).table.blocks k ≡ some c → Placed c
  extend-Placed k c entry = elim (snoc-cases h.table.blocks b k entry) [
    | inl p ↦ rw p.1 at
    | inr p ↦ valid.placed k c p.1
  ]

  extend-Apart :
      (j k : ℕ) (c d : Block)
      → get_elem? (extend h b cap).table.blocks j ≡ some c
      → get_elem? (extend h b cap).table.blocks k ≡ some d
      → j ≢ k
      → Apart c d
  extend-Apart j k c d ej ek ne = elim (snoc-cases h.table.blocks b j ej) [
    | inl p ↦ elim (snoc-cases h.table.blocks b k ek) [
      | inl q ↦ absurd (ne (p.0 ∙ sym q.0))
      | inr q ↦ rw p.1 (elim (fresh k d q.1) [ inl e ↦ inr e | inr e ↦ inl e ])
    ]
    | inr p ↦ elim (snoc-cases h.table.blocks b k ek) [
      | inl q ↦ rw q.1 (fresh j c p.1)
      | inr q ↦ valid.apart j k c d p.1 q.1 ne
    ]
  ]

  -- A byte outside the new block keeps its value.
  pub extend-frame :
      (x : ℕ) → (x < b.real_base) ⊎ (b.user_addr ≤ x) → (extend h b cap).memory x ≡ h.memory x
  extend-frame x out =
      write_header_frame b.user_addr (omega (arith, at.left)) (omega (arith, at.right, at.fits))
        h.memory (record { magic = header_magic; index = length h.table.blocks }) x
        (omega (arith, at.left))

  extend-headed :
      (k : ℕ) (c : Block)
      → get_elem? (extend h b cap).table.blocks k ≡ some c
      → read_header (extend h b cap).memory c.user_addr ≡ record { magic = header_magic; index = k }
  extend-headed k c entry = elim (snoc-cases h.table.blocks b k entry) [
    | inl p ↦
        rw (p.0, p.1)
          (read_header-write_header b.user_addr (omega (arith, at.left))
            (omega (arith, at.right, at.fits)) h.memory
            (record { magic = header_magic; index = length h.table.blocks }) (omega arith)
            (omega arith))
    | inr p ↦
        let q = valid.placed k c p.1 in
        let old = fresh k c p.1 in
        read_header_congr c.user_addr (omega (arith, q.left)) (omega (arith, q.right, q.fits))
          (extend h b cap).memory h.memory
          (λ x lo hi. extend-frame x (omega (arith, old, q.left, q.right, at.left)))
        ∙ valid.headed k c p.1
  ]

  pub extend-IsValid : IsValid (extend h b cap)
  extend-IsValid = record {
    placed = extend-Placed;
    apart = extend-Apart;
    shadowed = extend-shadowed;
    headed = extend-headed;
    few = omega (arith, length-append h.table.blocks (b ∷ []));
  }
