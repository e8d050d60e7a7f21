-- ===== src/Pass/Inline/Exact.antt =====
-- The inlined fast path against __redzone_check (src/RedzonePass.cpp, runtime/redzone_rt.c).
use redzone.Prelude.{ℕ, ◌+◌, ◌-◌, ◌≤◌, ◌<◌, ◌≡◌, arith, true, false, some, get_elem?}
use redzone.Prelude.Bits.{u64}
use redzone.Shadow.{Shadow, shadow_limit, byte_poisoned}
use redzone.Shadow.Range.{byte_poisoned_lem}
use redzone.Report.{File, Access, returns}
use redzone.Table.{Block, report}
use redzone.Heap.{Heap}
use redzone.Heap.Valid.{IsValid}
use redzone.Check.{last_of, check}
use redzone.Check.Exact.{in_bounds, check-block}
use redzone.Check.Bulk.{check-in_bounds}
use redzone.Pass.Inline.{inline_poisoned, instrumented}

-- On the covered range, the inlined test is the runtime's.
inline_poisoned_lem :
    (s : Shadow) (a : ℕ) → a < shadow_limit → inline_poisoned s a ≡ byte_poisoned s a
unfolding inline_poisoned
inline_poisoned_lem s a h = rw (byte_poisoned_lem s a h) (ground arith)

check-open :
    (h : Heap) (a size : ℕ) (mode : Access) (file : File) (line : ℕ)
    → byte_poisoned h.shadow a ≡ false
    → byte_poisoned h.shadow (last_of a size) ≡ false
    → check h a size mode file line ≡ returns tt
unfolding check
check-open h a size mode file line first last = rw (first, last) (ground arith)

-- A load or a store of at least one byte that lies in the covered range: the emitted code, with the
-- test inlined, does what a call of __redzone_check at every access would do, whatever the shadow
-- and the table hold: it returns or it reports the same.
pub instrumented-check :
    (h : Heap) (a size : ℕ) (mode : Access) (file : File) (line : ℕ)
    → 0 < size
    → a + size ≤ shadow_limit
    → instrumented h a size mode file line ≡ check h a size mode file line
unfolding instrumented
instrumented-check h a size mode file line pos fits =
    let end : last_of a size ≡ u64 (a + (size - 1)) = omega arith in
    let first = inline_poisoned_lem h.shadow a (omega arith) in
    let last = inline_poisoned_lem h.shadow (u64 (a + (size - 1))) (omega arith) in
    let one : size ≡ 1 → u64 (a + (size - 1)) ≡ a = λ e. omega arith in
    let passes = check-open h a size mode file line in ground (arith, first, last, end, one, passes)

-- In a well-formed heap, a checked range that stays within one allocation: once it has passed, a
-- check of a shorter range at the same pointer passes too, so that the pass may leave it out as
-- redundant.
pub check_again :
    (h : Heap) (k : ℕ) (b : Block) (a size shorter : ℕ) (mode again : Access) (file file' : File)
    (line line' : ℕ)
    → IsValid h
    → get_elem? h.table.blocks k ≡ some b
    → 0 < size
    → shorter ≤ size
    → b.real_base ≤ a
    → a + size ≤ b.real_base + b.total_size
    → check h a size mode file line ≡ returns tt
    → check h a shorter again file' line' ≡ returns tt
unfolding report
check_again h k b a size shorter mode again file file' line line' valid entry pos less lo hi
      passed =
    let exact = check-block h k b a size mode file line valid entry pos lo hi in
    let inside : in_bounds b a size ≡ true = ground (arith, exact, passed) in
    check-in_bounds h k b a shorter again file' line' valid entry (ground (arith, inside))
