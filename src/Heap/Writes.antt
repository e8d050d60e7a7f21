-- ===== src/Heap/Writes.antt =====
-- Writes of the program, and of memcpy and memset, into user regions: no header of
-- runtime/redzone_rt.c is touched, so the heap stays well formed.
use redzone.Prelude.{
  ℕ, ◌+◌, ◌-◌, ◌≤◌, ◌<◌, ◌≡◌, ◌⊎◌, ◌∙◌, arith, inl, inr, some, ◌==◌, get_elem?, Bool-cases,
}
use redzone.Memory.{Memory}
use redzone.Table.{Block}
use redzone.Heap.{Heap}
use redzone.Heap.Valid.{IsValid}
use redzone.Heap.Headers.{read_header_congr}

-- A memory that differs only in the user region of one block.
pub write-IsValid :
    (h : Heap) (m : Memory) (k : ℕ) (b : Block)
    → IsValid h
    → get_elem? h.table.blocks k ≡ some b
    → ((x : ℕ) → (x < b.user_addr) ⊎ (b.user_addr + b.user_size ≤ x) → m x ≡ h.memory x)
    → IsValid (record h { memory = m })
write-IsValid h m k b valid entry same = record {
  placed = valid.placed;
  apart = valid.apart;
  shadowed = valid.shadowed;
  headed = λ j c e.
      let q = valid.placed j c e in
      let p = valid.placed k b entry in
      read_header_congr c.user_addr (omega (arith, q.left)) (omega (arith, q.right, q.fits)) m
        h.memory (λ x lo hi. same x (outside j c e x lo hi))
      ∙ valid.headed j c e;
  few = valid.few;
}
  where
    outside :
        (j : ℕ) (c : Block)
        → get_elem? h.table.blocks j ≡ some c
        → (x : ℕ) → c.user_addr - 16 ≤ x
        → x < c.user_addr
        → (x < b.user_addr) ⊎ (b.user_addr + b.user_size ≤ x)
    outside j c e x lo hi = elim (Bool-cases (j == k)) [
      | inl eq ↦
          let jk : j ≡ k = ground arith in
          let here : get_elem? h.table.blocks k ≡ some c = rw jk at e in inl (ground (arith, here))
      | inr ne ↦
          ground (arith, valid.apart j k c b e entry, valid.placed j c e, valid.placed k b entry)
    ]
