-- ===== src/Tests/Programs.antt =====
-- A program that allocates 20 bytes, frees them, and goes on.
use redzone.Prelude.{
  ℕ, ◌+◌, ◌≡◌, ◌≢◌, refl, arith, inl, inr, true, none, some, get_elem?, ◌==◌, if◌then◌else◌,
  Bool-cases,
}
use redzone.Prelude.Bits.{align_down}
use redzone.Memory.{Memory}
use redzone.Report.{returns, read, write, use_after_free, double_free, report_free_error}
use redzone.Table.{Block, report}
use redzone.Heap.{Heap, System}
use redzone.Heap.Ops.{user_of, malloc, realloc, free}
use redzone.Heap.Valid.{IsValid}
use redzone.Heap.Alloc.{Grants, Extends, block_for}
use redzone.Heap.Entry.{malloc-Extends}
use redzone.Heap.Free.{free-live}
use redzone.Heap.After.{After}
use redzone.Heap.Calls.{Promises}
use redzone.Heap.Calls.Composed.{realloc-After}
use redzone.Check.{check}
use redzone.Check.Program.{begin, by_malloc, by_free, Reaches, here, later}
use redzone.Check.Program.Runs.{Reaches-IsValid, freed-reported, Reaches-passes, Reaches-caught}

abbrev zeros : Memory
zeros = λ _. 0

-- The system grants one request, of 52 bytes.
abbrev once : System
once = record { sys_malloc = λ n. if n == 52 then some 0x10000 else none; sys_grow = λ _. true }

first_grant : Grants (begin zeros) 0x10000 52
first_grant = record {
  aligned = omega arith;
  low = omega arith;
  fits = omega arith;
  fresh = λ k c e. absurd (ground (arith, e));
  room = omega arith;
}

once-Promises : Promises once (begin zeros)
once-Promises = record {
  granted = λ total base got. elim (Bool-cases (total == 52)) [
    | inl is ↦
        let size : 52 ≡ total = ground (arith, is) in
        let at : 0x10000 ≡ base = ground (arith, got, is) in rw (← size, ← at) first_grant
    | inr other ↦ absurd (ground (arith, got, other))
  ];
  grows = λ n. refl;
}

abbrev block : Block
block = block_for 0x10000 16 20 none 3

allocation :
    (h : Heap) × (malloc once (begin zeros) 20 none 3 ≡ returns (h, some (user_of 0x10000 16)))
    × Extends (begin zeros) h block
    × (user_of 0x10000 16 ≡ 0x10000 + 16)
allocation =
    malloc-Extends once (begin zeros) 20 0x10000 none 3 begin_valid (omega arith) refl first_grant
      (λ n. refl)
  where
    begin_valid : IsValid (begin zeros)
    begin_valid = Reaches-IsValid zeros here

abbrev allocated : Heap
allocated = allocation.0

allocated_reached : Reaches (begin zeros) allocated
allocated_reached = later here (by_malloc once 20 none 3 once-Promises allocation.1)

Reaches-IsValid_example : IsValid allocated
Reaches-IsValid_example = Reaches-IsValid zeros allocated_reached

entry : get_elem? allocated.table.blocks 0 ≡ some block
entry = allocation.2.entry

Reaches-passes_example : check allocated 0x10010 20 read none 5 ≡ returns tt
unfolding align_down
Reaches-passes_example =
    Reaches-passes zeros allocated 0 block 0x10010 20 read none 5 allocated_reached entry refl

-- A store of 8 bytes at the last 4 bytes of the block
Reaches-caught_example : check allocated 0x10020 8 write none 5 ≢ returns tt
unfolding align_down
Reaches-caught_example =
    Reaches-caught zeros allocated 0 block 0x10020 8 0x10024 write none 5 allocated_reached entry
      (omega arith) (omega arith) refl refl refl

-- One that starts before the allocation
straddling : check allocated 0xfffc 8 write none 5 ≢ returns tt
unfolding align_down
straddling =
    Reaches-caught zeros allocated 0 block 0xfffc 8 0x10000 write none 5 allocated_reached entry
      (omega arith) (omega arith) refl refl refl

freeing :
    (h : Heap) × (free allocated 0x10010 ≡ returns h)
    × IsValid h
    × (get_elem? h.table.blocks 0 ≡ some (record block { freed = true }))
    × ((j : ℕ) → j ≢ 0 → get_elem? h.table.blocks j ≡ get_elem? allocated.table.blocks j)
    × (h.memory ≡ allocated.memory)
unfolding align_down
freeing = free-live {h = allocated} Reaches-IsValid_example 0 entry refl

abbrev freed : Heap
freed = freeing.0

freed_reached : Reaches (begin zeros) freed
freed_reached = later allocated_reached (by_free 0x10010 freeing.1)

free_null : free freed 0 ≡ returns freed
unfolding free
free_null = refl

freed-reported_example :
    (check freed 0x10018 4 read none 8
      ≡ report use_after_free 0x10018 4 read none 8 (record block { freed = true }))
    × (free freed 0x10010 ≡ report_free_error double_free 0x10010)
unfolding align_down
freed-reported_example =
    freed-reported zeros freed freed 0 (record block { freed = true }) 0x10018 4 read none 8
      freed_reached freeing.3 refl (later here (by_free 0 free_null)) (omega arith) (omega arith)
      (omega arith)

abbrev empty : System
empty = record { sys_malloc = λ _. none; sys_grow = λ _. true }

empty-Promises : Promises empty allocated
empty-Promises = record {
  granted = λ total base got. absurd (ground (arith, got));
  grows = λ n. refl;
}

shrunk : realloc empty allocated 0x10010 0 none 9 ≡ returns (freed, none)
unfolding realloc
shrunk = rw (freeing.1)

shrunk-After : After allocated freed
shrunk-After =
    realloc-After empty allocated Reaches-IsValid_example empty-Promises 0x10010 0 none 9 shrunk
