-- ===== src/Check/Program/Runs.antt =====
-- What holds in every state that an instrumented program reaches (runtime/redzone_rt.c).
use redzone.Prelude.{
  ◌∙◌, sym, ℕ, ◌+◌, ◌≤◌, ◌<◌, ◌≡◌, ◌≢◌, refl, arith, inl, inr, true, false, some, get_elem?,
}
use redzone.Memory.{Memory}
use redzone.Report.{File, Access, use_after_free, double_free, returns, report_free_error}
use redzone.Table.{Block, report}
use redzone.Heap.{Heap}
use redzone.Heap.Ops.{free}
use redzone.Heap.Valid.{IsValid}
use redzone.Heap.Free.{free-freed}
use redzone.Heap.After.{After, Follows, Follows-trans, free-After}
use redzone.Heap.Calls.{Allocated-After, malloc-Allocated, aligned_alloc-Allocated}
use redzone.Heap.Calls.Composed.{Stores, posix_memalign-After, calloc-After, realloc-After}
use redzone.Check.{check}
use redzone.Memory.{store_bytes}
use redzone.Memory.Words.{store_bytes_frame}
use redzone.Check.Exact.{in_bounds, check-block}
use redzone.Check.Bulk.{checked_memcpy-checked_memmove, check-in_bounds}
use redzone.Check.Clear.{check-in_bounds_byte}
use redzone.Shadow.Range.{within}
use redzone.Check.Program.{
  OffHeaders, begin, Next, by_malloc, by_aligned_alloc, by_posix_memalign, by_calloc, by_realloc,
  by_free, by_store, by_memmove, by_memcpy, by_memset, by_stack_enter, by_stack_leave,
  by_global_register, Reaches, here, later,
}
use redzone.Check.Program.Keeps.{
  headers-IsValid, store-IsValid, memmove-IsValid, memset-IsValid, stack_enter-IsValid,
  stack_leave-IsValid, global_register-IsValid,
}

begin-IsValid : (m : Memory) → IsValid (begin m)
begin-IsValid m = record {
  placed = λ k b e. absurd (ground (arith, e));
  apart = λ j k b c e f ne. absurd (ground (arith, e));
  shadowed = λ k b i e c. absurd (ground (arith, e));
  headed = λ k b e. absurd (ground (arith, e));
  few = omega arith;
}

-- The heap is well formed, and each block keeps its place in the table; a freed one stays freed.
record Keeps (h h' : Heap) : Type 0 where
  valid : IsValid h'
  kept :
      (k : ℕ) (b : Block)
      → get_elem? h.table.blocks k ≡ some b
      → (c : Block) × (get_elem? h'.table.blocks k ≡ some c) × Follows b c

After-Keeps : {h h' : Heap} → After h h' → Keeps h h'
After-Keeps a = record { valid = a.valid; kept = a.kept }

-- The store of posix_memalign, outside the headers
Stores-Keeps : {h h' : Heap} (memptr : ℕ) → Stores h h' memptr → OffHeaders h' memptr 8 → Keeps h h'
Stores-Keeps memptr s off = elim s.last [
  | inl same ↦ rw same (After-Keeps s.after)
  | inr (v, same) ↦
      let m = store_bytes 8 s.between.memory memptr v in
      rw same (record {
        valid = headers-IsValid s.between m s.after.valid (λ k x b e lo hi.
            store_bytes_frame 8 s.between.memory memptr v x
              (ground (arith, off k b (rw same e), lo, hi)));
        kept = s.after.kept;
      })
]

-- A step that leaves the table
table-Keeps : {h h' : Heap} → IsValid h' → h'.table ≡ h.table → Keeps h h'
table-Keeps valid same = record { valid = valid; kept = λ k b e. (b, rw same e, inl refl) }

Next-Keeps : {h h' : Heap} → IsValid h → Next h h' → Keeps h h'
Next-Keeps {h} valid (by_malloc sys size file line promises e) =
    After-Keeps (Allocated-After valid (malloc-Allocated sys h valid promises size file line e))
Next-Keeps {h} valid (by_aligned_alloc sys alignment size file line promises small e) =
    After-Keeps (
      Allocated-After valid
        (aligned_alloc-Allocated sys h valid promises alignment size file line small e))
Next-Keeps {h} valid (by_posix_memalign sys memptr alignment size file line promises small e off) =
    Stores-Keeps memptr
      (posix_memalign-After sys h valid promises memptr alignment size file line small e) off
Next-Keeps {h} valid (by_calloc sys nmemb size file line promises e) =
    After-Keeps (calloc-After sys h valid promises nmemb size file line e)
Next-Keeps {h} valid (by_realloc sys ptr size file line promises e) =
    After-Keeps (realloc-After sys h valid promises ptr size file line e)
Next-Keeps {h} {h'} valid (by_free ptr e) = After-Keeps (free-After h h' ptr valid e)
Next-Keeps {h} valid (by_store a size m file line pos small passed same) =
    table-Keeps (store-IsValid h a size m file line valid pos small passed same) refl
Next-Keeps {h} {h'} valid (by_memmove dst src n k b file line entry inside e) =
    let (good, same) = memmove-IsValid h h' dst src n k b file line valid entry inside e in
    table-Keeps good same
Next-Keeps {h} {h'} valid (by_memcpy libc dst src n k b file line copies away entry inside e) =
    let same = checked_memcpy-checked_memmove libc h dst src n file line copies away in
    let (valid', table) =
      memmove-IsValid h h' dst src n k b file line valid entry inside (sym same ∙ e) in
    table-Keeps valid' table
Next-Keeps {h} {h'} valid (by_memset dst c n k b file line entry inside e) =
    let (good, same) = memset-IsValid h h' dst c n k b file line valid entry inside e in
    table-Keeps good same
Next-Keeps {h} valid (by_stack_enter base size aligned fits away) =
    table-Keeps (stack_enter-IsValid h base size valid aligned fits away) refl
Next-Keeps {h} valid (by_stack_leave base size aligned fits away) =
    table-Keeps (stack_leave-IsValid h base size valid aligned fits away) refl
Next-Keeps {h} valid (by_global_register at_data size aligned low fits away) =
    table-Keeps (global_register-IsValid h at_data size valid aligned low fits away) refl

Reaches-Keeps : {h h' : Heap} → IsValid h → Reaches h h' → Keeps h h'
Reaches-Keeps valid here = table-Keeps valid refl
Reaches-Keeps {h} {h'} valid (later r n) =
    let one = Reaches-Keeps valid r in
    let two = Next-Keeps one.valid n in
    record {
      valid = two.valid;
      kept = λ k b e.
          let (c, at, f) = one.kept k b e in
          let (d, at', g) = two.kept k c at in (d, at', Follows-trans f g);
    }

-- In every state that an instrumented program reaches from its start, over any memory and with a
-- system allocator that grants fresh regions, the heap is well formed, given that the program has
-- posix_memalign store its result in no header, keeps its bulk operations in live blocks, and its
-- frames and globals lie in no allocation.
pub Reaches-IsValid : (m : Memory) {h : Heap} → Reaches (begin m) h → IsValid h
Reaches-IsValid m r = (Reaches-Keeps (begin-IsValid m) r).valid

freed_stays : {b c : Block} → b.freed ≡ true → Follows b c → c ≡ b
freed_stays dead (inl same) = same
freed_stays dead (inr died) = absurd (ground (arith, dead, died.0))

-- An instrumented program reaches a state in which a block is freed, and from it any later state:
-- there every access within the allocation of the block is reported as use after free, with that
-- block, and its free as double free.
pub freed-reported :
    (m : Memory) (h h' : Heap) (k : ℕ) (b : Block) (a size : ℕ) (mode : Access) (file : File)
    (line : ℕ)
    → Reaches (begin m) h
    → get_elem? h.table.blocks k ≡ some b
    → b.freed ≡ true
    → Reaches h h'
    → 0 < size
    → b.real_base ≤ a
    → a + size ≤ b.real_base + b.total_size
    → (check h' a size mode file line ≡ report use_after_free a size mode file line b)
      × (free h' b.user_addr ≡ report_free_error double_free b.user_addr)
freed-reported m h h' k b a size mode file line before entry dead after pos lo hi =
    let run = Reaches-Keeps (Reaches-IsValid m before) after in
    let (c, at, f) = run.kept k b entry in
    let entry' : get_elem? h'.table.blocks k ≡ some b = rw (← freed_stays dead f) at in
    let exact = check-block h' k b a size mode file line run.valid entry' pos lo hi in
    (rw (exact, dead), free-freed h' run.valid k b entry' dead)

-- In every state that an instrumented program reaches, an access of any size that stays in the user
-- region of a live block passes its check.
pub Reaches-passes :
    (m : Memory) (h : Heap) (k : ℕ) (b : Block) (a size : ℕ) (mode : Access) (file : File)
    (line : ℕ)
    → Reaches (begin m) h
    → get_elem? h.table.blocks k ≡ some b
    → in_bounds b a size ≡ true
    → check h a size mode file line ≡ returns tt
Reaches-passes m h k b a size mode file line r entry inside =
    check-in_bounds h k b a size mode file line (Reaches-IsValid m r) entry inside

-- In every state that an instrumented program reaches, an access of 1 to 16 bytes at any address that
-- meets a red zone, or a block that is freed, is not let through.
pub Reaches-caught :
    (m : Memory) (h : Heap) (k : ℕ) (b : Block) (a size x : ℕ) (mode : Access) (file : File)
    (line : ℕ)
    → Reaches (begin m) h
    → get_elem? h.table.blocks k ≡ some b
    → 0 < size
    → size ≤ 16
    → within a size x ≡ true
    → within b.real_base b.total_size x ≡ true
    → in_bounds b x 1 ≡ false
    → check h a size mode file line ≢ returns tt
Reaches-caught m h k b a size x mode file line r entry pos small hit held bad passed =
    let clear =
      check-in_bounds_byte h a size mode file line k x b (Reaches-IsValid m r) pos small passed
        entry hit held in
    absurd (ground (arith, clear, bad))
