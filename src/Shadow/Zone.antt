-- ===== src/Shadow/Zone.antt =====
-- The stack and global red zones (runtime/redzone_rt.c): which bytes they close, which they leave.
use redzone.Prelude.{
  ℕ, ◌+◌, ◌-◌, ◌/◌, ◌%◌, ◌≤◌, ◌<◌, ◌≡◌, fun_ext, arith, true, false, not, if◌then◌else◌,
}
use redzone.Prelude.Bits.{u64, u64_mod}
use redzone.Shadow.{
  Shadow, shadow_limit, set_shadow_range, carve, byte_poisoned, stack_rz, global_rz, stack_enter,
  stack_leave, global_register, global_register_right,
}
use redzone.Shadow.Range.{
  set_shadow_range_lem, carve_lem, byte_poisoned_lem, within, covers, guarded_lem,
  off_limits-carved,
}

-- One carved block, byte by byte.
guarded-byte :
    (s : Shadow) (base total user size val x : ℕ)
    → base % 8 ≡ 0
    → user % 8 ≡ 0
    → base + 16 ≤ user
    → user + size + 16 ≤ base + total
    → base + total + 8 ≤ shadow_limit
    → 128 ≤ val
    → x < shadow_limit
    → byte_poisoned (carve (set_shadow_range s base total val) user size) x
      ≡ (if covers base total (x / 8) then not (within user size x) else byte_poisoned s x)
guarded-byte s base total user size val x ab au left right fits neg hx =
    rw
      (
        byte_poisoned_lem (carve (set_shadow_range s base total val) user size) x hx,
        byte_poisoned_lem s x hx,
        guarded_lem s base total user size val ab au left right fits (x / 8),
        ← off_limits-carved user size val x au neg,
      )
      (ground arith)

-- A stack slot at a multiple of 8 that lies, with its guards, below the covered range: for every
-- address of the range, entering the slot closes every byte of its chunks except the variable's
-- own bytes, and changes no byte of any other chunk.
pub stack_enter-guards :
    (s : Shadow) (base user_size x : ℕ)
    → base % 8 ≡ 0
    → base + user_size + 40 ≤ shadow_limit
    → x < shadow_limit
    → byte_poisoned (stack_enter s base user_size) x ≡ (
        if covers base (user_size + 32) (x / 8)
        then not (within (base + 16) user_size x)
        else byte_poisoned s x)
unfolding stack_enter
stack_enter-guards s base user_size x al fits hx =
    let total : u64 (user_size + 32) ≡ user_size + 32 = omega arith in
    let user : u64 (base + 16) ≡ base + 16 = omega arith in
    rw (total, user)
      (guarded-byte s base (user_size + 32) (base + 16) user_size stack_rz x al (omega arith)
        (omega arith) (omega arith) (omega arith) (omega arith) hx)

-- A stack slot at a multiple of 8 that lies, with its guards, below the covered range: for every
-- address of the range, leaving the slot opens every byte of its chunks, for reuse, and changes
-- no byte of any other chunk.
pub stack_leave-opens :
    (s : Shadow) (base user_size x : ℕ)
    → base % 8 ≡ 0
    → base + user_size + 40 ≤ shadow_limit
    → x < shadow_limit
    → byte_poisoned (stack_leave s base user_size) x
      ≡ (if covers base (user_size + 32) (x / 8) then false else byte_poisoned s x)
unfolding stack_leave
stack_leave-opens s base user_size x al fits hx =
    let total : u64 (user_size + 32) ≡ user_size + 32 = omega arith in
    rw
      (
        total,
        byte_poisoned_lem (set_shadow_range s base (user_size + 32) 0) x hx,
        byte_poisoned_lem s x hx,
        set_shadow_range_lem s base (user_size + 32) 0 (x / 8) (omega arith) (omega arith),
      )
      (ground arith)

-- A frame that enters and leaves a slot, at a multiple of 8 and with its guards below the covered
-- range, whose chunks were open before: it gives the whole shadow back as it was.
pub stack_leave-stack_enter :
    (s : Shadow) (base user_size : ℕ)
    → base % 8 ≡ 0
    → base + user_size + 40 ≤ shadow_limit
    → ((i : ℕ) → covers base (user_size + 32) i ≡ true → s i ≡ 0)
    → stack_leave (stack_enter s base user_size) base user_size ≡ s
unfolding stack_leave stack_enter
stack_leave-stack_enter s base user_size al fits open_before = fun_ext λ i.
    let total : u64 (user_size + 32) ≡ user_size + 32 = omega arith in
    let user : u64 (base + 16) ≡ base + 16 = omega arith in
    rw
      (
        total,
        user,
        set_shadow_range_lem
            (carve (set_shadow_range s base (user_size + 32) stack_rz) (base + 16) user_size) base
            (user_size + 32) 0 i (omega arith) (omega arith),
        guarded_lem s base (user_size + 32) (base + 16) user_size stack_rz al (omega arith)
            (omega arith) (omega arith) (omega arith) i,
      )
      (ground (arith, open_before i))

-- An internal global at a multiple of 8 that lies, with its guards on both sides, in the covered
-- range: for every address of the range, its own bytes are open, the other bytes of the chunks of
-- its wrapper are closed, and no byte of any other chunk changes.
pub global_register-guards :
    (s : Shadow) (at_data size x : ℕ)
    → at_data % 8 ≡ 0
    → 16 ≤ at_data
    → at_data + size + 24 ≤ shadow_limit
    → x < shadow_limit
    → byte_poisoned (global_register s at_data size) x ≡ (
        if covers (at_data - 16) (size + 32) (x / 8)
        then not (within at_data size x)
        else byte_poisoned s x)
unfolding global_register
global_register-guards s at_data size x al low fits hx =
    let total : u64 (size + 32) ≡ size + 32 = omega arith in
    let base : (at_data + u64_mod - 16) % u64_mod ≡ at_data - 16 = omega arith in
    rw (total, base)
      (guarded-byte s (at_data - 16) (size + 32) at_data size global_rz x (omega arith) al
        (omega arith) (omega arith) (omega arith) (omega arith) hx)

-- An external global at a multiple of 8 that lies, with its guard on the right, in the covered
-- range: for every address of the range, its own bytes are open, the other bytes of its and the
-- guard's chunks are closed, and no byte of any other chunk changes.
pub global_register_right-guards :
    (s : Shadow) (at_data size x : ℕ)
    → at_data % 8 ≡ 0
    → at_data + size + 24 ≤ shadow_limit
    → x < shadow_limit
    → byte_poisoned (global_register_right s at_data size) x ≡ (
        if covers at_data (size + 16) (x / 8)
        then not (within at_data size x)
        else byte_poisoned s x)
unfolding global_register_right
global_register_right-guards s at_data size x al fits hx =
    let end : u64 (at_data + size) ≡ at_data + size = omega arith in
    let zone = set_shadow_range s (at_data + size) 16 global_rz in
    rw
      (
        end,
        byte_poisoned_lem (carve zone at_data size) x hx,
        byte_poisoned_lem s x hx,
        carve_lem zone at_data size (x / 8) al (omega arith),
        set_shadow_range_lem s (at_data + size) 16 global_rz (x / 8) (omega arith) (omega arith),
      )
      (ground arith)
