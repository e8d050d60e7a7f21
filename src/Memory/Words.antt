-- ===== src/Memory/Words.antt =====
-- A stored word is read back, and no other byte changes.
use native.Mathlib.Nat.{pow-suc}
use redzone.Prelude.{ℕ, zero, suc, ◌+◌, ◌*◌, ◌/◌, ◌%◌, ◌^◌, ◌≤◌, ◌<◌, ◌≡◌, ◌⊎◌, refl, arith, update}
use redzone.Memory.{Memory, load_bytes, store_bytes}

pub store_bytes_frame :
    (n : ℕ) (m : Memory) (a v x : ℕ) → (x < a) ⊎ (a + n ≤ x) → store_bytes n m a v x ≡ m x
unfolding store_bytes
store_bytes_frame zero m a v x h = refl
store_bytes_frame (suc n) m a v x h =
    ground (arith, store_bytes_frame n (update m a (v % 256)) (a + 1) (v / 256) x)

-- Two memories that agree on the bytes of a word have the same word.
pub load_bytes_congr :
    (n : ℕ) (m m' : Memory) (a : ℕ)
    → ((x : ℕ) → a ≤ x → x < a + n → m x ≡ m' x)
    → load_bytes n m a ≡ load_bytes n m' a
unfolding load_bytes
load_bytes_congr zero m m' a h = refl
load_bytes_congr (suc n) m m' a h = omega (
  arith,
  h a (omega arith) (omega arith),
  load_bytes_congr n m m' (a + 1) (λ x lo hi. h x (omega arith) (omega arith)),
)

mod_split : (v d : ℕ) → 0 < d → v % (d * 256) ≡ v % 256 + 256 * (v / 256 % d)
mod_split v d h = grind arith

pow256_pos : (n : ℕ) → 0 < 256 ^ n
pow256_pos zero = omega arith
pow256_pos (suc n) = omega (arith, pow-suc 256 n, pow256_pos n)

-- What is stored in `n` bytes, the least significant first, is read back modulo 256 ^ n.
pub load_bytes-store_bytes :
    (n : ℕ) (m : Memory) (a v : ℕ) → load_bytes n (store_bytes n m a v) a ≡ v % 256 ^ n
unfolding load_bytes store_bytes
load_bytes-store_bytes zero m a v = omega arith
load_bytes-store_bytes (suc n) m a v =
    let m' = update m a (v % 256) in
    rw (pow-suc 256 n, mod_split v (256 ^ n) (pow256_pos n))
      (ground (
        arith,
        store_bytes_frame n m' (a + 1) (v / 256) a,
        load_bytes-store_bytes n m' (a + 1) (v / 256),
      ))
