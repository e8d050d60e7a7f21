-- ===== src/Interpose/Routing.antt =====
-- Which heap a pointer goes to under runtime/redzone_interpose.c.
use redzone.Prelude.{
  ℕ, ◌<◌, ◌≡◌, ◌≢◌, refl, arith, inl, inr, Bool, true, false, none, some, ◌==◌, if◌then◌else◌,
  get_elem?, Bool-cases,
}
use redzone.Report.{returns, ◌>>=◌}
use redzone.Table.{Block}
use redzone.Heap.{Heap, System, owns}
use redzone.Heap.Ops.{free}
use redzone.Heap.Valid.{IsValid}
use redzone.Heap.Lookup.{owns_iff, maybe_owns-owns, usable_size-entry}
use redzone.Interpose.{theirs, system_realloc, i_free, i_realloc, i_malloc_size}

-- No block of the table starts at the address.
abbrev pub NotStart : Heap → ℕ → Type 0
NotStart h ptr = (k : ℕ) (b : Block) → get_elem? h.table.blocks k ≡ some b → b.user_addr ≢ ptr

module _ (h : Heap) (valid : IsValid h) where
  start-owns : (k : ℕ) {b : Block} → get_elem? h.table.blocks k ≡ some b → owns h b.user_addr ≡ true
  start-owns k {b} entry = (owns_iff h b.user_addr valid).1 (k, b, entry, refl)

  other-owns : (ptr : ℕ) → NotStart h ptr → owns h ptr ≡ false
  other-owns ptr other = elim (Bool-cases (owns h ptr)) [
    | inl e ↦ let (k, b, entry, same) = (owns_iff h ptr valid).0 e in absurd (other k b entry same)
    | inr e ↦ e
  ]

  -- In a well-formed heap, the user pointer of a block of the table, live or freed, never goes to
  -- the system's free: it is freed by the runtime, or, while the thread holds the table lock, left
  -- as it is.
  pub i_free-block :
      (in_runtime : Bool) (k : ℕ) (b : Block)
      → get_elem? h.table.blocks k ≡ some b
      → i_free in_runtime h b.user_addr ≡ (
          if in_runtime then returns (h, none) else free h b.user_addr >>= λ h'. returns (h', none))
  unfolding i_free
  i_free-block in_runtime k b entry =
      let p = valid.placed k b entry in
      let real : (b.user_addr == 0) ≡ false = ground (arith, p) in
      let own = start-owns k entry in rw (real, own, maybe_owns-owns h b.user_addr own)

  -- In a well-formed heap, outside the runtime, an address that is not NULL and not the user
  -- pointer of a block goes to the system's free, also if it lies inside a block, and nothing is
  -- reported.
  pub i_free-other :
      (ptr : ℕ) → 0 < ptr → NotStart h ptr → i_free false h ptr ≡ returns (h, some ptr)
  unfolding i_free
  i_free-other ptr real other =
      let some_ptr : (ptr == 0) ≡ false = ground arith in rw (some_ptr, other-owns ptr other)

  -- In a well-formed heap, outside the runtime, realloc of an address that is not NULL and not the
  -- user pointer of a block is the system's, and the runtime allocates nothing for it.
  pub i_realloc-other :
      (sys : System) (ptr size : ℕ)
      → 0 < ptr
      → NotStart h ptr
      → i_realloc false sys h ptr size ≡ returns (theirs h (system_realloc ptr size))
  unfolding i_realloc
  i_realloc-other sys ptr size real other =
      let some_ptr : (ptr == 0) ≡ false = ground arith in rw (some_ptr, other-owns ptr other)

  -- In a well-formed heap, malloc_size of the user pointer of a block of the table is the block's
  -- user size, whatever the system's zone would say.
  pub i_malloc_size-block :
      (zone_size : ℕ → ℕ) (k : ℕ) (b : Block)
      → get_elem? h.table.blocks k ≡ some b
      → i_malloc_size zone_size h b.user_addr ≡ b.user_size
  unfolding i_malloc_size
  i_malloc_size-block zone_size k b entry =
      let p = valid.placed k b entry in
      let real : (b.user_addr == 0) ≡ false = ground (arith, p) in
      rw (real, start-owns k entry, usable_size-entry h k valid entry)
