-- ===== src/Check/Clear.antt =====
-- What a passed check rules out (runtime/redzone_rt.c, __redzone_check), for an access at any address.
use redzone.Prelude.{
  ℕ, ◌+◌, ◌-◌, ◌/◌, ◌≤◌, ◌<◌, ◌≡◌, arith, inl, inr, true, false, not, ◌&&◌, some, leb, ◌==◌,
  get_elem?, Bool-cases, Option-cases,
}
use redzone.Shadow.{byte_poisoned}
use redzone.Shadow.Range.{within, covers}
use redzone.Report.{File, Access, returns, report_simple}
use redzone.Table.{Block, find_block, report}
use redzone.Heap.{Heap}
use redzone.Heap.Valid.{IsValid}
use redzone.Heap.Lookup.{block-byte}
use redzone.Check.{last_of, check}
use redzone.Check.Exact.{in_bounds}

-- A check passes only if the first and the last byte are not poisoned.
check_passed :
    (h : Heap) (a size : ℕ) (mode : Access) (file : File) (line : ℕ)
    → 0 < size
    → check h a size mode file line ≡ returns tt
    → (byte_poisoned h.shadow a ≡ false) × (byte_poisoned h.shadow (last_of a size) ≡ false)
unfolding check report report_simple
check_passed h a size mode file line pos passed =
    let some_size : (size == 0) ≡ false = ground arith in
    elim (Bool-cases
      (not (byte_poisoned h.shadow a) && not (byte_poisoned h.shadow (last_of a size)))) [
        | inl ok ↦ ground (arith, ok)
        | inr bad ↦ elim (Option-cases (find_block h.table.blocks a)) [
          | inl missing ↦ absurd (ground (arith, rw (some_size, bad, missing) at passed))
          | inr (kb, found) ↦ absurd (ground (arith, rw (some_size, bad, found) at passed))
        ]
      ]

-- The chunk of an address of an allocation
covered : (base total y : ℕ) → base ≤ y → y < base + total → covers base total (y / 8) ≡ true
covered base total y lo hi = ground arith

-- A check of 1 to 16 bytes, at any address, that passes in a well-formed heap: a byte of the access
-- that lies in the allocation of a block, red zones included, lies in the user region of that block,
-- and the block is live.
pub check-in_bounds_byte :
    (h : Heap) (a size : ℕ) (mode : Access) (file : File) (line k x : ℕ) (b : Block)
    → IsValid h
    → 0 < size
    → size ≤ 16
    → check h a size mode file line ≡ returns tt
    → get_elem? h.table.blocks k ≡ some b
    → within a size x ≡ true
    → within b.real_base b.total_size x ≡ true
    → in_bounds b x 1 ≡ true
check-in_bounds_byte h a size mode file line k x b valid pos small passed entry hit held =
    let p = valid.placed k b entry in
    let (first, last) = check_passed h a size mode file line pos passed in
    let reach : (a ≤ x) × (x < a + size) × (b.real_base ≤ x) × (x < b.real_base + b.total_size) =
      (ground arith, ground arith, ground arith, ground arith) in
    let is_last : last_of a size ≡ a + size - 1 = omega (arith, p.fits, reach.0, reach.3) in
    let last' : byte_poisoned h.shadow (a + size - 1) ≡ false = rw is_last at last in
    elim (Bool-cases (leb b.real_base a)) [
      | inl inside ↦
          let a_byte = block-byte valid k entry a (ground (arith, p.aligned)) in
          elim (Bool-cases (leb (x + 1) (b.user_addr + b.user_size))) [
            | inl before_end ↦ ground (arith, a_byte, first, before_end)
            | inr past ↦
                let live : a < b.user_addr + b.user_size = ground (arith, a_byte, first) in
                let chunk : covers b.real_base b.total_size ((a + size - 1) / 8) ≡ true =
                  covered b.real_base b.total_size (a + size - 1) (omega (arith, reach.0, reach.2))
                    (omega (arith, live, small, p.right)) in
                let last_byte = block-byte valid k entry (a + size - 1) chunk in
                absurd (ground (arith, a_byte, first, past, last_byte, last'))
          ]
      | inr outside ↦
          let early : a < b.real_base = ground (arith, outside) in
          let chunk : covers b.real_base b.total_size ((a + size - 1) / 8) ≡ true =
            covered b.real_base b.total_size (a + size - 1) (omega (arith, reach))
              (omega (arith, early, small, p.left, p.right)) in
          let last_byte = block-byte valid k entry (a + size - 1) chunk in
          absurd (ground (arith, last_byte, last', p.left, p.right))
    ]
