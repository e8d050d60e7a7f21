-- ===== src/Pass/Inline.antt =====
-- src/RedzonePass.cpp, the inlined fast path: the code that the pass emits before a load or a store,
-- which tests the shadow itself and calls __redzone_check only if a byte looks off-limits.
pub mod Exact
use redzone.Prelude.{
  ℕ, ◌+◌, ◌-◌, ◌/◌, ◌%◌, ◌^◌, Bool, true, false, not, ◌&&◌, ◌||◌, ltb, leb, ◌==◌, if◌then◌else◌,
}
use redzone.Prelude.Bits.{u64}
use redzone.Shadow.{Shadow}
use redzone.Report.{File, Access, Outcome, returns}
use redzone.Heap.{Heap}
use redzone.Check.{check}

-- ICmpSGE of two int8_t
abbrev pub signed_ge : ℕ → ℕ → Bool
signed_ge off sb =
    if leb 128 sb then leb 128 off && leb sb off || ltb off 128 else ltb off 128 && leb sb off

-- `poisoned`: the shadow is not tested against its end.
unfoldable pub inline_poisoned : Shadow → ℕ → Bool
inline_poisoned s a = let sb = s (a / 2 ^ 3) in not (sb == 0) && signed_ge (a % 8) sb

-- The emitted test and, behind it, the call of the slow path
unfoldable pub instrumented : Heap → ℕ → ℕ → Access → File → ℕ → Outcome (Unit {0})
instrumented h a size is_write file line =
    let first = inline_poisoned h.shadow a in
    let bad =
      if ltb 1 size then first || inline_poisoned h.shadow (u64 (a + (size - 1))) else first in
    if bad then check h a size is_write file line else returns tt
