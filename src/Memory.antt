-- ===== src/Memory.antt =====
-- The bytes of the address space, as the runtime reads and writes them: words of eight bytes in
-- little-endian order, and the libc calls memcpy and memset.
pub mod Words
use redzone.Prelude.{ℕ, zero, suc, ◌+◌, ◌-◌, ◌*◌, ◌/◌, ◌%◌, ◌&&◌, ltb, leb, if◌then◌else◌, update}

abbrev pub Memory : Type 0
Memory = ℕ → ℕ

unfoldable pub load_bytes : ℕ → Memory → ℕ → ℕ
load_bytes zero m a = 0
load_bytes (suc n) m a = m a + 256 * load_bytes n m (a + 1)

unfoldable pub store_bytes : ℕ → Memory → ℕ → ℕ → Memory
store_bytes zero m a v = m
store_bytes (suc n) m a v = store_bytes n (update m a (v % 256)) (a + 1) (v / 256)

abbrev pub memcpy : Memory → ℕ → ℕ → ℕ → Memory
memcpy m dst src n x = if leb dst x && ltb x (dst + n) then m (src + (x - dst)) else m x

abbrev pub memset : Memory → ℕ → ℕ → ℕ → Memory
memset m dst c n x = if leb dst x && ltb x (dst + n) then c % 256 else m x
