-- ===== src/Tests/Samples.antt =====
-- An empty heap, a heap with one block and one with two, and a system that grants what is asked.
use mathlib.Core.Path.{subst}
use redzone.Prelude.{
  ℕ, ◌+◌, ◌≤◌, ◌<◌, ◌≡◌, ◌≢◌, ◌⊎◌, refl, arith, inl, inr, true, false, none, some, [], ◌∷◌, length,
  get_elem?, get_elem?-append_last, get_elem?-append_left, get_elem?-set_self, length-append,
  length-set, snoc-cases, set-cases, ◌∙◌,
}
use redzone.Table.{Block}
use redzone.Heap.{Heap, System}
use redzone.Heap.Valid.{Placed, IsValid}
use redzone.Heap.Extend.{extend, extend-IsValid}
use redzone.Heap.Free.{quarantine, quarantine-IsValid}
use redzone.Heap.Alloc.{Grants}

abbrev pub empty_heap : Heap
empty_heap = record { shadow = λ _. 0; table = record { blocks = []; cap = 0 }; memory = λ _. 0 }

pub empty_heap-IsValid : IsValid empty_heap
empty_heap-IsValid = record {
  placed = λ k b e. absurd (ground (arith, e));
  apart = λ j k b c e f ne. absurd (ground (arith, e));
  shadowed = λ k b i e c. absurd (ground (arith, e));
  headed = λ k b e. absurd (ground (arith, e));
  few = omega arith;
}

-- 20 bytes at 0x10010
abbrev pub block_a : Block
block_a = record {
  real_base = 0x10000;
  total_size = 52;
  user_addr = 0x10010;
  user_size = 20;
  freed = false;
  alloc_file = none;
  alloc_line = 0;
}

pub block_a-Placed : Placed block_a
block_a-Placed = omega arith

abbrev pub heap_a : Heap
heap_a = extend empty_heap block_a 64

pub heap_a-IsValid : IsValid heap_a
heap_a-IsValid =
    extend-IsValid empty_heap-IsValid block_a-Placed refl (λ k c e. absurd (ground (arith, e)))
      (omega arith) 64

pub heap_a_entry : get_elem? heap_a.table.blocks 0 ≡ some block_a
heap_a_entry = get_elem?-append_last [] block_a

abbrev pub block_b : Block
block_b = record {
  real_base = 0x20000;
  total_size = 40;
  user_addr = 0x20010;
  user_size = 8;
  freed = false;
  alloc_file = none;
  alloc_line = 0;
}

pub block_b-Placed : Placed block_b
block_b-Placed = omega arith

heap_a_length : length heap_a.table.blocks ≡ 1
heap_a_length = omega (arith, length-append [] (block_a ∷ []))

-- The one block of heap_a is below any address from 0x11000 on.
only_a :
    (k : ℕ) (c : Block)
    → get_elem? heap_a.table.blocks k ≡ some c
    → c.real_base + c.total_size ≤ 0x11000
only_a k c e = elim (snoc-cases [] block_a k e) [
  | inl p ↦ rw p.1 (omega arith)
  | inr p ↦ absurd (ground (arith, p.1))
]

abbrev pub heap_b : Heap
heap_b = extend heap_a block_b 64

pub heap_b-IsValid : IsValid heap_b
heap_b-IsValid =
    extend-IsValid heap_a-IsValid block_b-Placed refl (λ k c e. inl (omega (arith, only_a k c e)))
      (omega (arith, heap_a_length)) 64

pub heap_b_first : get_elem? heap_b.table.blocks 0 ≡ some block_a
heap_b_first =
    get_elem?-append_left heap_a.table.blocks (block_b ∷ []) 0 (omega (arith, heap_a_length))
    ∙ heap_a_entry

pub heap_b_second : get_elem? heap_b.table.blocks 1 ≡ some block_b
heap_b_second =
    subst (λ n. get_elem? heap_b.table.blocks n ≡ some block_b) heap_a_length
      (get_elem?-append_last heap_a.table.blocks block_b)

-- heap_a after the free of its block
abbrev pub heap_dead : Heap
heap_dead = quarantine heap_a 0 block_a

pub heap_dead-IsValid : IsValid heap_dead
heap_dead-IsValid = quarantine-IsValid heap_a-IsValid 0 heap_a_entry refl

abbrev pub block_dead : Block
block_dead = record block_a { freed = true }

pub heap_dead_entry : get_elem? heap_dead.table.blocks 0 ≡ some block_dead
heap_dead_entry = get_elem?-set_self heap_a.table.blocks 0 block_dead (omega (arith, heap_a_length))

only_dead :
    (k : ℕ) (c : Block)
    → get_elem? heap_dead.table.blocks k ≡ some c
    → c.real_base + c.total_size ≤ 0x11000
only_dead k c e = elim (set-cases heap_a.table.blocks 0 block_dead k e) [
  | inl p ↦ rw p.1 (omega arith)
  | inr p ↦ only_a k c p.1
]

abbrev pub generous : System
generous = record { sys_malloc = λ _. some 0x20000; sys_grow = λ _. true }

pub empty_heap-Grants : Grants empty_heap 0x20000 72
empty_heap-Grants = record {
  aligned = refl;
  low = omega arith;
  fits = omega arith;
  fresh = λ k c e. absurd (ground (arith, e));
  room = omega arith;
}

pub heap_a-Grants : Grants heap_a 0x20000 72
heap_a-Grants = record {
  aligned = refl;
  low = omega arith;
  fits = omega arith;
  fresh = λ k c e. inl (omega (arith, only_a k c e));
  room = omega (arith, heap_a_length);
}

pub heap_dead-Grants : Grants heap_dead 0x20000 72
heap_dead-Grants = record {
  aligned = refl;
  low = omega arith;
  fits = omega arith;
  fresh = λ k c e. inl (omega (arith, only_dead k c e));
  room = omega (arith, heap_a_length, length-set heap_a.table.blocks 0 block_dead);
}

-- An address that lies in no block of heap_a
pub heap_a_foreign :
    (k : ℕ) (c : Block)
    → get_elem? heap_a.table.blocks k ≡ some c
    → (0x50000 < c.real_base) ⊎ (c.real_base + c.total_size ≤ 0x50000)
heap_a_foreign k c e = inr (omega (arith, only_a k c e))

-- No block of heap_a starts 8 bytes into the user region of its block.
pub heap_a_interior :
    (k : ℕ) (c : Block) → get_elem? heap_a.table.blocks k ≡ some c → c.user_addr ≢ 0x10018
heap_a_interior k c e = elim (snoc-cases [] block_a k e) [
  | inl p ↦ rw p.1 (ground arith)
  | inr p ↦ absurd (ground (arith, p.1))
]
