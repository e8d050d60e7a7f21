-- ===== src/Check/Exact.antt =====
-- What __redzone_check decides about a heap access (runtime/redzone_rt.c).
use redzone.Prelude.{
  ℕ, ◌+◌, ◌-◌, ◌≤◌, ◌<◌, ◌≡◌, arith, Bool, false, not, ◌&&◌, some, leb, ◌==◌, if◌then◌else◌,
  get_elem?,
}
use redzone.Report.{File, Access, returns}
use redzone.Table.{Block, report}
use redzone.Heap.{Heap}
use redzone.Heap.Valid.{IsValid}
use redzone.Heap.Lookup.{block-byte, find_block-entry}
use redzone.Check.{last_of, block_kind, check}

-- The access stays in the user region of a live block.
abbrev pub in_bounds : Block → ℕ → ℕ → Bool
in_bounds b a size = not b.freed && leb b.user_addr a && leb (a + size) (b.user_addr + b.user_size)

-- An access to a well-formed heap that stays within one allocation, red zones included: it is let
-- through exactly if the block is live and the access is in its user region; otherwise it is
-- reported with that block, as use after free if the block is freed, as an overflow if not.
pub check-block :
    (h : Heap) (k : ℕ) (b : Block) (a size : ℕ) (mode : Access) (file : File) (line : ℕ)
    → IsValid h
    → get_elem? h.table.blocks k ≡ some b
    → 0 < size
    → b.real_base ≤ a
    → a + size ≤ b.real_base + b.total_size
    → check h a size mode file line
      ≡ (if in_bounds b a size then returns tt else report (block_kind b) a size mode file line b)
unfolding check
check-block h k b a size mode file line valid entry pos lo hi =
    let p = valid.placed k b entry in
    let last : last_of a size ≡ a + size - 1 = omega (arith, p.fits) in
    let size_test : (size == 0) ≡ false = ground arith in
    let first_byte = block-byte valid k entry a (ground arith) in
    let last_byte = block-byte valid k entry (a + size - 1) (ground arith) in
    rw (size_test, last, first_byte, last_byte, find_block-entry valid k entry a lo (omega arith))
      (ground arith)
