-- ===== src/Shadow.antt =====
-- runtime/redzone_rt.c, the shadow memory: one shadow byte for each aligned eight bytes of the
-- application. The shadow is a function from the index `app >> SHADOW_SCALE` to the byte there,
-- an `int8_t` written as its bit pattern, so that negative means at least 128. The model begins
-- after the shadow has been reserved, by the constructor of priority 101 or by the first write that
-- reserves it lazily: all its bytes are 0 then.
pub mod Range
pub mod Zone
use redzone.Prelude.{
  ℕ, ◌+◌, ◌-◌, ◌*◌, ◌/◌, ◌%◌, ◌^◌, Bool, true, false, ◌&&◌, Option, none, some, ltb, leb, ◌==◌,
  if◌then◌else◌, update,
}
use redzone.Prelude.Bits.{u64, u64_mod, clear_low3}

abbrev pub redzone_size : ℕ
redzone_size = 16

abbrev pub rz_poison : ℕ
rz_poison = 0xfa

abbrev pub stack_rz : ℕ
stack_rz = 0xf1

abbrev pub global_rz : ℕ
global_rz = 0xf9

abbrev pub freed_poison : ℕ
freed_poison = 0xfd

abbrev pub shadow_limit : ℕ
shadow_limit = 2 ^ 47

-- SHADOW_LIMIT >> SHADOW_SCALE
abbrev pub shadow_bytes : ℕ
shadow_bytes = shadow_limit / 2 ^ 3

abbrev pub Shadow : Type 0
Shadow = ℕ → ℕ

-- The pointer into the shadow is an index; `none` is NULL, beyond the covered range.
unfoldable pub shadow_ptr : ℕ → Option ℕ
shadow_ptr app = let idx = app / 2 ^ 3 in if leb shadow_bytes idx then none else some idx

unfoldable pub shadow_load : Shadow → ℕ → ℕ
unfolding shadow_ptr
shadow_load s app = elim (shadow_ptr app) [ none ↦ 0 | some p ↦ s p ]

unfoldable pub set_shadow_byte : Shadow → ℕ → ℕ → Shadow
unfolding shadow_ptr
set_shadow_byte s app val = elim (shadow_ptr app) [ none ↦ s | some p ↦ update s p val ]

-- memset over the shadow
unfoldable pub fill : Shadow → ℕ → ℕ → ℕ → Shadow
fill s lo n val i = if leb lo i && ltb i (lo + n) then val else s i

unfoldable pub set_shadow_range : Shadow → ℕ → ℕ → ℕ → Shadow
set_shadow_range s start len val =
    if len == 0
    then s
    else let lo = clear_low3 start / 2 ^ 3 in
      let hi = clear_low3 (u64 (start + len + 7)) / 2 ^ 3 in
      if leb shadow_bytes lo
      then s
      else let end = if ltb shadow_bytes hi then shadow_bytes else hi in
        fill s lo ((end + u64_mod - lo) % u64_mod) val

-- Is the byte at `app` off-limits?
unfoldable pub byte_poisoned : Shadow → ℕ → Bool
unfolding shadow_load
byte_poisoned s app =
    let sv = shadow_load s app in
    if sv == 0 then false else if leb 128 sv then true else leb sv (app % 8)

-- The part that all zones share: poison the guards, then carve out `size` bytes at `user`.
-- The aligned bulk is cleared, and a partial tail gets its count of valid bytes.
unfoldable pub carve : Shadow → ℕ → ℕ → Shadow
carve s user size =
    let aligned = clear_low3 size in
    let rem = size % 8 in
    let s' = if aligned == 0 then s else set_shadow_range s user aligned 0 in
    if rem == 0 then s' else set_shadow_byte s' (u64 (user + aligned)) rem

-- __redzone_stack_enter
unfoldable pub stack_enter : Shadow → ℕ → ℕ → Shadow
stack_enter s base user_size =
    let user = u64 (base + redzone_size) in
    let total = u64 (user_size + 2 * redzone_size) in
    carve (set_shadow_range s base total stack_rz) user user_size

-- __redzone_stack_leave
unfoldable pub stack_leave : Shadow → ℕ → ℕ → Shadow
stack_leave s base user_size =
    let total = u64 (user_size + 2 * redzone_size) in set_shadow_range s base total 0

-- __redzone_global_register
unfoldable pub global_register : Shadow → ℕ → ℕ → Shadow
global_register s at_data size =
    let base = (at_data + u64_mod - redzone_size) % u64_mod in
    let total = u64 (size + 2 * redzone_size) in
    carve (set_shadow_range s base total global_rz) at_data size

-- __redzone_global_register_right: a trailing guard only, before the data is marked.
unfoldable pub global_register_right : Shadow → ℕ → ℕ → Shadow
global_register_right s at_data size =
    carve (set_shadow_range s (u64 (at_data + size)) redzone_size global_rz) at_data size
