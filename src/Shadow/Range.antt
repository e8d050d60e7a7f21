-- ===== src/Shadow/Range.antt =====
-- What a poisoned range and a carved region are, chunk by chunk (runtime/redzone_rt.c).
use redzone.Prelude.{
  ℕ, ◌+◌, ◌-◌, ◌/◌, ◌%◌, ◌≤◌, ◌<◌, ◌≡◌, refl, arith, Bool, true, false, ◌&&◌, not, ltb, leb, ◌==◌,
  if◌then◌else◌,
}
use redzone.Shadow.{
  Shadow, shadow_limit, shadow_load, set_shadow_range, set_shadow_byte, fill, carve, byte_poisoned,
  shadow_ptr,
}

-- The chunks from `start` to the end of the chunk of the last byte get `val`, the others stay.
pub set_shadow_range_lem :
    (s : Shadow) (start len val i : ℕ)
    → 0 < len
    → start + len ≤ shadow_limit
    → set_shadow_range s start len val i
      ≡ (if leb (start / 8) i && ltb i ((start + len + 7) / 8) then val else s i)
unfolding set_shadow_range fill
set_shadow_range_lem s start len val i pos fits = ground arith

pub set_shadow_range_none : (s : Shadow) (start val : ℕ) → set_shadow_range s start 0 val ≡ s
unfolding set_shadow_range
set_shadow_range_none s start val = refl

-- The chunk `i` of a region of `size` bytes at `user`: whole, partial, or not of the region.
abbrev pub carved : ℕ → ℕ → ℕ → ℕ → ℕ
carved user size old i =
    if leb (user / 8) i && ltb i (user / 8 + size / 8)
    then 0
    else if i == user / 8 + size / 8 && not (size % 8 == 0)
    then size % 8
    else old

pub carve_lem :
    (s : Shadow) (user size i : ℕ)
    → user % 8 ≡ 0
    → user + size < shadow_limit
    → carve s user size i ≡ carved user size (s i) i
unfolding carve set_shadow_byte shadow_ptr
carve_lem s user size i al fits = ground (arith, set_shadow_range_lem s user (size - size % 8) 0 i)

-- A byte is off-limits by the shadow byte of its chunk.
abbrev pub off_limits : ℕ → ℕ → Bool
off_limits sv app = if sv == 0 then false else if leb 128 sv then true else leb sv (app % 8)

pub byte_poisoned_lem :
    (s : Shadow) (app : ℕ) → app < shadow_limit → byte_poisoned s app ≡ off_limits (s (app / 8)) app
unfolding byte_poisoned shadow_load shadow_ptr
byte_poisoned_lem s app h = ground arith

-- The bytes from `user` up to `user + size`.
abbrev pub within : ℕ → ℕ → ℕ → Bool
within user size x = leb user x && ltb x (user + size)

-- The chunks that `total` bytes at `base` meet.
abbrev pub covers : ℕ → ℕ → ℕ → Bool
covers base total i = leb (base / 8) i && ltb i ((base + total + 7) / 8)

module _ (s : Shadow) (base total user size val : ℕ) (base_aligned : base % 8 ≡ 0)
    (user_aligned : user % 8 ≡ 0) (left : base + 16 ≤ user)
    (right : user + size + 16 ≤ base + total) (fits : base + total + 8 ≤ shadow_limit) where
  -- Poison a block and carve its user region out: every chunk of the shadow afterwards.
  pub guarded_lem :
      (i : ℕ)
      → carve (set_shadow_range s base total val) user size i
        ≡ (if covers base total i then carved user size val i else s i)
  guarded_lem i =
      rw
        (
          carve_lem (set_shadow_range s base total val) user size i user_aligned (omega arith),
          set_shadow_range_lem s base total val i (omega arith) (omega arith),
        )
        (ground arith)

-- With a poison byte about it, a carved region is open and the rest of its chunks is closed.
pub off_limits-carved :
    (user size val x : ℕ)
    → user % 8 ≡ 0
    → 128 ≤ val
    → off_limits (carved user size val (x / 8)) x ≡ not (within user size x)
off_limits-carved user size val x al neg = ground arith
