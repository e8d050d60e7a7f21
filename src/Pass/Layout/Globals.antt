-- ===== src/Pass/Layout/Globals.antt =====
-- A wrapped global, once its constructor has run (src/RedzonePass.cpp, runtime/redzone_rt.c).
use redzone.Prelude.{
  ℕ, ◌+◌, ◌%◌, ◌≤◌, ◌<◌, ◌≡◌, ◌∙◌, arith, Bool, true, false, not, Option, if◌then◌else◌, max,
}
use redzone.Shadow.{Shadow, shadow_limit, byte_poisoned}
use redzone.Shadow.Range.{within}
use redzone.Shadow.Zone.{global_register-guards, global_register_right-guards}
use redzone.Pass.Layout.{wrapper_of_global, register_global}

-- A wrapped global of either kind, of a type aligned to at most 16 bytes, whose wrapper lies at its alignment of 16 below the end of the
-- covered range: for every address of the range, the constructor's call closes exactly the bytes
-- of the wrapper that are not the global's own, opens those, and changes no byte outside the
-- wrapper, so none of another symbol.
pub register_global-wrapper_of_global :
    (s : Shadow) (is_external : Bool) (type_align size base x : ℕ) (align : Option ℕ)
    → type_align ≤ 16
    → base % 16 ≡ 0
    → base + size + 48 ≤ shadow_limit
    → x < shadow_limit
    → let w = wrapper_of_global is_external type_align size align in
      byte_poisoned (register_global s is_external (base + w.data_offset) size) x ≡ (
        if within base w.total x
        then not (within (base + w.data_offset) size x)
        else byte_poisoned s x)
unfolding register_global wrapper_of_global
register_global-wrapper_of_global s false type_align size base x align narrow al fits hx =
    let left : max 16 type_align ≡ 16 = omega (arith, narrow) in
    rw left (
      let same =
        global_register-guards s (base + 16) size x (omega arith) (omega arith) (omega arith) hx in
      same ∙ ground arith)
register_global-wrapper_of_global s true type_align size base x align narrow al fits hx =
    let same = global_register_right-guards s base size x (omega arith) (omega arith) hx in
    let start : base + 0 ≡ base = omega arith in rw start (same ∙ ground arith)
