-- ===== src/Prelude/Bits.antt =====
-- 64-bit words, and the masks that the runtime computes with.
use Prim.Native.Nat.{
  ℕ, zero, suc, ◌+◌, ◌-◌, ◌*◌, ◌/◌, ◌%◌, ◌^◌, ◌≤◌, ◌<◌, min, bit_and, digits, bit_and-bitwise,
}
use mathlib.Core.Logic.{inl, inr}
use mathlib.Core.Path.{◌≡◌, refl, sym, ◌∙◌}
use native.Mathlib.Omega.{arith}
use native.Mathlib.Nat.{pow-suc}
use redzone.Prelude.Tests.{◌==◌, Bool-cases}

abbrev pub u64_mod : ℕ
u64_mod = 2 ^ 64

-- A result of 64-bit arithmetic: the sum or the product wraps.
abbrev pub u64 : ℕ → ℕ
u64 n = n % u64_mod

-- a - b on 64 bits
abbrev pub sub64 : ℕ → ℕ → ℕ
sub64 a b = (a + u64_mod - b) % u64_mod

-- x & ~7
abbrev pub clear_low3 : ℕ → ℕ
clear_low3 x = x - x % 8

-- x & ~(align - 1), on 64 bits: ~(align - 1) is 2 ^ 64 - align.
unfoldable pub align_down : ℕ → ℕ → ℕ
align_down x align = bit_and x (u64_mod - align)

-- The digits of a conjunction, from the lowest on, in a number of rounds.
abbrev and_rounds : (rounds x y : ℕ) → ℕ
and_rounds rounds x y = digits (λ _. 0) min rounds x y

-- One round beyond the digits of the first number adds nothing.
one_round_more : (rounds x y : ℕ) → x ≤ rounds → and_rounds (suc rounds) x y ≡ and_rounds rounds x y
one_round_more zero zero y enough = refl
one_round_more (suc rounds) zero y enough = refl
one_round_more zero (suc x) y enough = absurd (omega arith)
one_round_more (suc rounds) (suc x) y enough =
    let lower = one_round_more rounds (suc x / 2) (y / 2) (omega arith) in omega (arith, lower)

enough_rounds : (rounds x y : ℕ) → x ≤ rounds → and_rounds rounds x y ≡ bit_and x y
enough_rounds zero x y enough =
    let none_left : 0 ≡ x = omega arith in rw (← none_left) (sym (bit_and-bitwise 0 y))
enough_rounds (suc rounds) x y enough = elim (Bool-cases (x == suc rounds)) [
  | inl exact ↦ let same : suc rounds ≡ x = ground arith in rw same (sym (bit_and-bitwise x y))
  | inr spare ↦
      let within : x ≤ rounds = ground arith in
      one_round_more rounds x y within ∙ enough_rounds rounds x y within
]

pub zero-bit_and : (mask : ℕ) → bit_and 0 mask ≡ 0
zero-bit_and = bit_and-bitwise 0

-- The lowest digit apart.
pub bit_and_step : (x y : ℕ) → bit_and x y ≡ min (x % 2) (y % 2) + 2 * bit_and (x / 2) (y / 2)
bit_and_step zero y = omega (arith, zero-bit_and y, zero-bit_and (y / 2))
bit_and_step (suc x) y =
    let rest = enough_rounds x (suc x / 2) (y / 2) (omega arith) in
    omega (arith, bit_and-bitwise (suc x) y, rest)

pub pow_pos : (n : ℕ) → 0 < 2 ^ n
pow_pos zero = omega arith
pow_pos (suc n) = omega (arith, pow-suc 2 n, pow_pos n)

-- A mask of `w` ones keeps a number of `w` bits.
bit_and_ones : (w x m : ℕ) → m + 1 ≡ 2 ^ w → x < 2 ^ w → bit_and x m ≡ x
bit_and_ones zero zero m e h = zero-bit_and m
bit_and_ones zero (suc x) m e h = absurd (omega arith)
bit_and_ones (suc w) x m e h = omega (
  arith,
  pow-suc 2 w,
  pow_pos w,
  bit_and_step x m,
  bit_and_ones w (x / 2) (m / 2) (omega (arith, pow-suc 2 w)) (omega (arith, pow-suc 2 w)),
)

-- The remainder by twice a number, its lowest digit apart.
pub mod_double : (x d : ℕ) → 0 < d → x % (d * 2) ≡ x / 2 % d * 2 + x % 2
mod_double x d h = grind arith

bit_and_le_fuel : (n a b : ℕ) → a ≤ n → bit_and a b ≤ b
bit_and_le_fuel n zero b h = omega (arith, zero-bit_and b)
bit_and_le_fuel zero (suc a) b h = absurd (omega arith)
bit_and_le_fuel (suc n) (suc a) b h =
    omega (arith, bit_and_step (suc a) b, bit_and_le_fuel n (suc a / 2) (b / 2) (omega arith))

pub bit_and-le : (a b : ℕ) → bit_and a b ≤ b
bit_and-le a b = bit_and_le_fuel a a b (omega arith)

-- A mask of ones takes the remainder.
pub bit_and-mask : (k x m : ℕ) → m + 1 ≡ 2 ^ k → bit_and x m ≡ x % 2 ^ k
bit_and-mask zero x m e = omega (arith, bit_and-le x m)
bit_and-mask (suc k) x m e =
    rw (pow-suc 2 k, mod_double x (2 ^ k) (pow_pos k))
      (omega (
        arith,
        pow-suc 2 k,
        pow_pos k,
        bit_and_step x m,
        bit_and-mask k (x / 2) (m / 2) (omega (arith, pow-suc 2 k)),
      ))

-- A mask of `k` zeros below ones, `n` bits in all, clears the low `k` bits.
bit_and_high : (k n x m : ℕ) → k ≤ n → m + 2 ^ k ≡ 2 ^ n → x < 2 ^ n → bit_and x m + x % 2 ^ k ≡ x
bit_and_high zero n x m l e h = omega (arith, bit_and_ones n x m e h)
bit_and_high (suc k) zero x m l e h = absurd (omega arith)
bit_and_high (suc k) (suc n) x m l e h =
    rw (pow-suc 2 k, mod_double x (2 ^ k) (pow_pos k))
      (omega (
        arith,
        pow-suc 2 k,
        pow-suc 2 n,
        bit_and_step x m,
        bit_and_high k n (x / 2) (m / 2) (omega arith) (omega (arith, pow-suc 2 k, pow-suc 2 n))
            (omega (arith, pow-suc 2 n)),
      ))

pub pow_mono : (k n : ℕ) → k ≤ n → 2 ^ k ≤ 2 ^ n
pow_mono zero n h = omega (arith, pow_pos n)
pow_mono (suc k) zero h = absurd (omega arith)
pow_mono (suc k) (suc n) h = omega (arith, pow-suc 2 k, pow-suc 2 n, pow_mono k n (omega arith))

-- Rounding down to a power of two.
pub align_down-pow : (k x : ℕ) → k ≤ 64 → x < u64_mod → align_down x (2 ^ k) + x % 2 ^ k ≡ x
unfolding align_down
align_down-pow k x l h = bit_and_high k 64 x (u64_mod - 2 ^ k) l (omega (arith, pow_mono k 64 l)) h

bit_and_self_fuel : (n a : ℕ) → a ≤ n → bit_and a a ≡ a
bit_and_self_fuel n zero h = zero-bit_and 0
bit_and_self_fuel zero (suc a) h = absurd (omega arith)
bit_and_self_fuel (suc n) (suc a) h =
    omega (arith, bit_and_step (suc a) (suc a), bit_and_self_fuel n (suc a / 2) (omega arith))

pow2_fuel : (n x : ℕ) → x ≤ n → 0 < x → bit_and x (x - 1) ≡ 0 → (k : ℕ) × (x ≡ 2 ^ k)
pow2_fuel zero x h p e = absurd (omega arith)
pow2_fuel (suc n) x h p e = elim (Bool-cases (x % 2 == 0)) [
  | inl even ↦
      let half : x / 2 - 1 ≡ (x - 1) / 2 = ground arith in
      let (k, q) =
        pow2_fuel n (x / 2) (ground arith) (ground arith)
          (rw half (omega (arith, bit_and_step x (x - 1)))) in
      (suc k, rw (pow-suc 2 k, ← q) (ground arith))
  | inr odd ↦
      let half : (x - 1) / 2 ≡ x / 2 = ground arith in
      let step : bit_and (x / 2) ((x - 1) / 2) ≡ 0 = omega (arith, bit_and_step x (x - 1)) in
      let low : bit_and (x / 2) (x / 2) ≡ 0 = rw half at step in
      (0, ground (arith, bit_and_self_fuel (x / 2) (x / 2)))
]

-- `x & (x - 1)` is zero only at a power of two.
pub pow2_of_bits : (x : ℕ) → 0 < x → bit_and x (x - 1) ≡ 0 → (k : ℕ) × (x ≡ 2 ^ k)
pow2_of_bits x = pow2_fuel x x (omega arith)

pub bits_of_pow2 : (k : ℕ) → bit_and (2 ^ k) (2 ^ k - 1) ≡ 0
bits_of_pow2 zero = refl
bits_of_pow2 (suc k) =
    let up : 2 ^ suc k / 2 ≡ 2 ^ k = omega (arith, pow-suc 2 k) in
    let down : (2 ^ suc k - 1) / 2 ≡ 2 ^ k - 1 = omega (arith, pow-suc 2 k) in
    rw (bit_and_step (2 ^ suc k) (2 ^ suc k - 1), up, down, bits_of_pow2 k)
      (omega (arith, pow-suc 2 k))
