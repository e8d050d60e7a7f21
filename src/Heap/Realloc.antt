-- ===== src/Heap/Realloc.antt =====
-- What __redzone_realloc does with the bytes (runtime/redzone_rt.c).
use redzone.Prelude.{
  ℕ, ◌+◌, ◌≤◌, ◌<◌, ◌≡◌, ◌⊎◌, ◌∙◌, arith, inl, inr, true, false, Option, none, some, ◌==◌, min,
  length, get_elem?, get_elem?-lt, snoc-cases, [], ◌∷◌, ◌++◌,
}
use redzone.Shadow.{shadow_limit}
use redzone.Memory.{memcpy}
use redzone.Report.{File, returns, ◌>>=◌, report_free_error, double_free}
use redzone.Table.{Block}
use redzone.Table.Find.{find_block-none}
use redzone.Heap.{Heap, System}
use redzone.Heap.Ops.{user_of, total_of, malloc, old_block, carried, move_block, realloc, free}
use redzone.Heap.Valid.{IsValid}
use redzone.Heap.Lookup.{block_from_user_ptr-entry, block_from_user_ptr-none, holds_lem}
use redzone.Heap.Alloc.{Grants, Extends, block_for, no_overflow}
use redzone.Heap.Writes.{write-IsValid}
use redzone.Heap.Free.{free-live, free-freed, free-foreign}
use redzone.Heap.Entry.{malloc-Extends}

-- The steps of realloc for a pointer and a size that are not zero, once malloc has given `np`.
realloc_step :
    (sys : System) (h h1 : Heap) (ptr np size : ℕ) (file : File) (line : ℕ) (o : Option (ℕ × Block))
    → 0 < ptr
    → 0 < size
    → malloc sys h size file line ≡ returns (h1, some np)
    → old_block h1 ptr ≡ o
    → realloc sys h ptr size file line ≡ (
        free (record h1 { memory = memcpy h1.memory np ptr (carried o size) }) ptr >>= λ h'.
        returns (h', some np))
unfolding realloc move_block
realloc_step sys h h1 ptr np size file line o real pos run old =
    let ptr_test : (ptr == 0) ≡ false = ground arith in
    let size_test : (size == 0) ≡ false = ground arith in rw (ptr_test, size_test, run, old)

old_block-entry :
    {h : Heap} (valid : IsValid h) (k : ℕ) {b : Block}
    → get_elem? h.table.blocks k ≡ some b
    → old_block h b.user_addr ≡ some (k, b)
unfolding old_block
old_block-entry valid k entry = rw (old_block, block_from_user_ptr-entry valid k entry)

module _ (sys : System) (h : Heap) (size base : ℕ) (file : File) (line : ℕ) (valid : IsValid h)
    (pos : 0 < size) (small : size ≤ shadow_limit)
    (got : sys.sys_malloc (total_of size 16) ≡ some base) (g : Grants h base (total_of size 16))
    (can : (n : ℕ) → sys.sys_grow n ≡ true) (k : ℕ) {b : Block}
    (entry : get_elem? h.table.blocks k ≡ some b) where
  abbrev new_entry : Block
  new_entry = block_for base 16 size file line

  -- realloc of a live block of a well-formed heap to a size from 1 to 2 ^ 47, when the system
  -- grants a fresh region and room in the table: it returns a new live block of the new size,
  -- the bytes up to the smaller size are carried over, the old block is marked freed, and the
  -- heap is well formed.
  pub realloc-moves :
      b.freed ≡ false
      → (h' : Heap) × (realloc sys h b.user_addr size file line ≡ returns (h', some (base + 16)))
        × IsValid h'
        × (get_elem? h'.table.blocks k ≡ some (record b { freed = true }))
        × (get_elem? h'.table.blocks (length h.table.blocks) ≡ some new_entry)
        × ((i : ℕ)
            → i < min b.user_size size
            → h'.memory (base + 16 + i) ≡ h.memory (b.user_addr + i))
  realloc-moves live =
      let (h1, run, ext, user) = malloc-Extends sys h size base file line valid small got g can in
      let run' : malloc sys h size file line ≡ returns (h1, some (base + 16)) = rw (← user) run in
      let entry' = ext.kept k b entry in
      let p = valid.placed k b entry in
      let n = min b.user_size size in
      let h2 = record h1 { memory = memcpy h1.memory (base + 16) b.user_addr n } in
      let valid2 : IsValid h2 =
        write-IsValid h1 h2.memory (length h.table.blocks) new_entry ext.valid ext.entry
          (λ x out. ground (arith, out, user)) in
      let (h3, done, valid3, dead, others, bytes) = free-live {h = h2} valid2 k entry' live in
      let carry : carried (some (k, b)) size ≡ n = ground (arith, live) in
      (
        h3,
        realloc_step sys h h1 b.user_addr (base + 16) size file line (some (k, b))
              (omega (arith, p.left)) pos run' (old_block-entry ext.valid k entry')
            ∙ rw (carry, done),
        valid3,
        dead,
        others (length h.table.blocks) (omega (arith, get_elem?-lt h.table.blocks k entry))
            ∙ ext.entry,
        λ i lt.
            let here : h3.memory (base + 16 + i) ≡ h2.memory (base + 16 + i) = rw bytes in
            let old = g.fresh k b entry in
            let size_total = (no_overflow size 16 small (omega arith)).1 in
            let kept : h1.memory (b.user_addr + i) ≡ h.memory (b.user_addr + i) =
              ext.frame (b.user_addr + i) (omega (arith, user, old, size_total, p.left, p.right)) in
            ground (arith, here, kept),
      )

  -- realloc of a freed block of a well-formed heap to a size from 1 to 2 ^ 47, when the system
  -- grants a fresh region and room in the table, ends in the report of a double free.
  pub realloc-freed :
      b.freed ≡ true
      → realloc sys h b.user_addr size file line ≡ report_free_error double_free b.user_addr
  unfolding report_free_error
  realloc-freed dead =
      let (h1, run, ext, user) = malloc-Extends sys h size base file line valid small got g can in
      let entry' = ext.kept k b entry in
      let p = valid.placed k b entry in
      let h2 = record h1 { memory = memcpy h1.memory (user_of base 16) b.user_addr 0 } in
      let valid2 : IsValid h2 =
        write-IsValid h1 h2.memory (length h.table.blocks) new_entry ext.valid ext.entry
          (λ x out. ground arith) in
      let carry : carried (some (k, b)) size ≡ 0 = ground (arith, dead) in
      realloc_step sys h h1 b.user_addr (user_of base 16) size file line (some (k, b))
        (omega (arith, p.left)) pos run (old_block-entry ext.valid k entry')
      ∙ rw (carry, free-freed h2 valid2 k b entry' dead)

-- An address in no block of the table, in the sense that free ignores it.
abbrev pub Foreign : Heap → ℕ → Type 0
Foreign h ptr =
    (k : ℕ) (b : Block)
    → get_elem? h.table.blocks k ≡ some b
    → (ptr < b.real_base) ⊎ (b.real_base + b.total_size ≤ ptr)

-- An address outside the new block too stays foreign.
Foreign-after :
    {h h1 : Heap} {c : Block} (ptr : ℕ)
    → Extends h h1 c
    → Foreign h ptr
    → (ptr < c.real_base) ⊎ (c.real_base + c.total_size ≤ ptr)
    → Foreign h1 ptr
Foreign-after {h} {h1} {c} ptr ext out away k b e =
    let e' : get_elem? (h.table.blocks ++ c ∷ []) k ≡ some b = rw ext.appended at e in
    elim (snoc-cases h.table.blocks c k e') [ inl p ↦ rw p.1 away | inr p ↦ out k b p.1 ]

old_block-Foreign : (h : Heap) (ptr : ℕ) → IsValid h → Foreign h ptr → old_block h ptr ≡ none
unfolding old_block
old_block-Foreign h ptr valid out = rw (
  old_block,
  block_from_user_ptr-none h ptr (λ k b e same. ground (arith, out k b e, valid.placed k b e)),
  find_block-none h.table.blocks ptr
      (λ k b e. rw (holds_lem b ptr (valid.placed k b e)) (ground (arith, out k b e))),
)

-- realloc, to a size from 1 to 2 ^ 47, of an address in no block of a well-formed heap's table,
-- when the system grants a fresh region that the address is not in and room in the table: it
-- returns a new block, the heap is well formed, and every byte from the new user pointer on is
-- what it was before, so nothing is carried over from the old memory.
pub realloc-Foreign :
    (sys : System) (h : Heap) (ptr size base : ℕ) (file : File) (line : ℕ)
    → IsValid h
    → 0 < size
    → size ≤ shadow_limit
    → sys.sys_malloc (total_of size 16) ≡ some base
    → Grants h base (total_of size 16)
    → ((n : ℕ) → sys.sys_grow n ≡ true)
    → 0 < ptr
    → Foreign h ptr
    → (ptr < base) ⊎ (base + total_of size 16 ≤ ptr)
    → (h' : Heap) × (realloc sys h ptr size file line ≡ returns (h', some (base + 16)))
      × IsValid h'
      × ((i : ℕ) → h'.memory (base + 16 + i) ≡ h.memory (base + 16 + i))
realloc-Foreign sys h ptr size base file line valid pos small got g can real foreign away =
    let (h1, run, ext, user) = malloc-Extends sys h size base file line valid small got g can in
    let run' : malloc sys h size file line ≡ returns (h1, some (base + 16)) = rw (← user) run in
    let out1 = Foreign-after ptr ext foreign away in
    let valid2 : IsValid (record h1 { memory = memcpy h1.memory (base + 16) ptr 0 }) =
      write-IsValid h1 (memcpy h1.memory (base + 16) ptr 0) (length h.table.blocks)
        (block_for base 16 size file line) ext.valid ext.entry (λ x out. ground arith) in
    (
      record h1 { memory = memcpy h1.memory (base + 16) ptr 0 },
      realloc_step sys h h1 ptr (base + 16) size file line none real pos run'
            (old_block-Foreign h1 ptr ext.valid out1)
          ∙ rw (
              free-foreign (record h1 { memory = memcpy h1.memory (base + 16) ptr 0 }) valid2 ptr
                out1),
      valid2,
      λ i. let kept = ext.frame (base + 16 + i) (omega (arith, user)) in ground (arith, kept),
    )
