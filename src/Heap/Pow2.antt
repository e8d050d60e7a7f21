-- ===== src/Heap/Pow2.antt =====
-- runtime/redzone_rt.c, is_pow2: the bit trick decides the powers of two.
use redzone.Prelude.{ℕ, ◌-◌, ◌^◌, ◌<◌, ◌≡◌, ◌↔◌, arith, true, bit_and}
use redzone.Prelude.Bits.{u64_mod, sub64, pow2_of_bits, bits_of_pow2, pow_pos}
use redzone.Heap.Ops.{is_pow2}

-- On a 64-bit size, is_pow2 answers yes exactly for the powers of two.
pub is_pow2_iff : (x : ℕ) → x < u64_mod → (is_pow2 x ≡ true) ↔ ((k : ℕ) × (x ≡ 2 ^ k))
unfolding is_pow2
is_pow2_iff x small = (forth, back)
  where
    forth : is_pow2 x ≡ true → (k : ℕ) × (x ≡ 2 ^ k)
    forth e =
        let pos : 0 < x = ground (arith, e) in
        let down : sub64 x 1 ≡ x - 1 = omega arith in
        pow2_of_bits x pos (rw (← down) (ground (arith, e)))

    back : (k : ℕ) × (x ≡ 2 ^ k) → is_pow2 x ≡ true
    back (k, e) =
        let pos : 0 < x = omega (arith, pow_pos k) in
        let down : sub64 x 1 ≡ x - 1 = omega arith in
        let bits : bit_and x (x - 1) ≡ 0 = rw e (bits_of_pow2 k) in rw (down, bits) (ground arith)
