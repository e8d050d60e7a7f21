-- ===== src/Pass/Layout/Stack.antt =====
-- The stack slots that the pass lays out (src/RedzonePass.cpp, runtime/redzone_rt.c).
use redzone.Prelude.{ℕ, ◌+◌, ◌%◌, ◌≤◌, ◌<◌, ◌≡◌, ◌∙◌, arith, true, false, not, some, if◌then◌else◌}
use redzone.Prelude.Bits.{clear_low3}
use redzone.Shadow.{Shadow, shadow_limit, byte_poisoned, stack_enter}
use redzone.Shadow.Range.{within}
use redzone.Shadow.Zone.{stack_enter-guards}
use redzone.Pass.{Alloca}
use redzone.Pass.Select.{of_alloca, provably_safe}
use redzone.Pass.Layout.{Slot, wrap_alloca}

-- What a wrapped alloca's slot looks like.
wrap_alloca-fields :
    (a : Alloca) (slot : Slot)
    → wrap_alloca a ≡ some slot
    → slot.slot_size < shadow_limit
    → (slot.user_offset ≡ 16) × (slot.slot_total ≡ 32 + clear_low3 (slot.slot_size + 7))
unfolding wrap_alloca
wrap_alloca-fields a slot is small = ground arith

-- An alloca that the pass wraps, at an address that is a multiple of 16 and with its slot below the
-- end of the covered range: for every address of the range, entering the function closes exactly
-- the bytes of the slot that are not the variable's own, opens those, and changes no byte outside
-- the slot.
pub stack_enter-wrap_alloca :
    (s : Shadow) (a : Alloca) (slot : Slot) (base x : ℕ)
    → wrap_alloca a ≡ some slot
    → slot.slot_size < shadow_limit
    → base % 16 ≡ 0
    → base + slot.slot_total + 8 ≤ shadow_limit
    → x < shadow_limit
    → byte_poisoned (stack_enter s base slot.slot_size) x ≡ (
        if within base slot.slot_total x
        then not (within (base + slot.user_offset) slot.slot_size x)
        else byte_poisoned s x)
stack_enter-wrap_alloca s a slot base x is small al fits hx =
    let f = wrap_alloca-fields a slot is small in
    stack_enter-guards s base slot.slot_size x (omega arith) (omega (arith, f)) hx
    ∙ ground (arith, f)

-- An access that the analysis finds provably safe, in the slot of its alloca: every byte of it is
-- open after the function has entered the slot, so that no check of it could report.
pub provably_safe-byte_poisoned :
    (s : Shadow) (a : Alloca) (slot : Slot) (base offset size x : ℕ)
    → wrap_alloca a ≡ some slot
    → slot.slot_size < shadow_limit
    → base % 16 ≡ 0
    → base + slot.slot_total + 8 ≤ shadow_limit
    → provably_safe (of_alloca a.is_static (some slot.slot_size) false offset) size ≡ true
    → within (base + slot.user_offset + offset) size x ≡ true
    → byte_poisoned (stack_enter s base slot.slot_size) x ≡ false
unfolding provably_safe
provably_safe-byte_poisoned s a slot base offset size x is small al fits safe inside =
    let f = wrap_alloca-fields a slot is small in
    stack_enter-wrap_alloca s a slot base x is small al fits (ground (arith, f, safe, inside))
    ∙ ground (arith, f)
