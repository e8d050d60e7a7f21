-- ===== src/Strings.antt =====
-- runtime/redzone_rt.c, "String copies": the wrappers of the string functions of libc, which work
-- out the ranges that a call reads and writes, check them, and then do the operation.
pub mod Bounds
pub mod Formatted
use redzone.Prelude.{
  ℕ, zero, suc, ◌+◌, ◌-◌, ◌^◌, Bool, true, false, ltb, leb, ◌==◌, if◌then◌else◌, update,
}
use redzone.Prelude.Bits.{u64, u64_mod}
use redzone.Memory.{Memory, memcpy, memset}
use redzone.Report.{File, read, write, Outcome, returns, ◌>>=◌}
use redzone.Heap.{Heap}
use redzone.Check.{check}

-- strnlen: the number of bytes before the first zero, `n` at most
unfoldable pub strnlen : ℕ → Memory → ℕ → ℕ
strnlen zero m a = 0
strnlen (suc n) m a = elim (m a == 0) [ true ↦ 0 | false ↦ suc (strnlen n m (a + 1)) ]

-- strlen: no string is longer than the address space.
unfoldable pub strlen : Memory → ℕ → ℕ
strlen m a = strnlen u64_mod m a

-- What the libc functions write: `len` bytes of the source, as they were, and a zero.
abbrev pub copy_text : Memory → (dst src len : ℕ) → Memory
copy_text m dst src len = update (memcpy m dst src len) (dst + len) 0

-- strcpy, strcat and strncat end the copy with a zero; strncpy fills up with zeros.
abbrev pub with_memory : Heap → Memory → Heap
with_memory h m = record h { memory = m }

-- __redzone_strcpy
unfoldable pub strcpy : Heap → (dst src : ℕ) → File → ℕ → Outcome Heap
strcpy h dst src file line =
    let n = u64 (strlen h.memory src + 1) in
    check h src n read file line >>= λ _. check h dst n write file line >>= λ _.
    returns (with_memory h (copy_text h.memory dst src (strlen h.memory src)))

-- __redzone_strcat
unfoldable pub strcat : Heap → (dst src : ℕ) → File → ℕ → Outcome Heap
strcat h dst src file line =
    let dl = strlen h.memory dst in
    let sl = u64 (strlen h.memory src + 1) in
    check h src sl read file line >>= λ _. check h dst (u64 (dl + sl)) write file line >>= λ _.
    returns (with_memory h (copy_text h.memory (dst + dl) src (strlen h.memory src)))

-- __redzone_strncpy
unfoldable pub strncpy : Heap → (dst src n : ℕ) → File → ℕ → Outcome Heap
strncpy h dst src n file line = check h dst n write file line >>= λ _.
    let sl = strnlen n h.memory src in
    check h src (if ltb sl n then sl + 1 else n) read file line >>= λ _.
    returns (with_memory h (memset (memcpy h.memory dst src sl) (dst + sl) 0 (n - sl)))

-- __redzone_strncat
unfoldable pub strncat : Heap → (dst src n : ℕ) → File → ℕ → Outcome Heap
strncat h dst src n file line =
    let dl = strlen h.memory dst in
    let sl = strnlen n h.memory src in
    check h src sl read file line >>= λ _. check h dst (u64 (dl + sl + 1)) write file line >>= λ _.
    returns (with_memory h (copy_text h.memory (dst + dl) src sl))

-- The bytes that a bounded copy writes, the zero included, when there is room for `n`.
abbrev pub bytes_written : (sl n : ℕ) → ℕ
bytes_written sl n = if n == 0 then 0 else if leb (u64 (sl + 1)) n then u64 (sl + 1) else n

-- The bytes that a bounded copy into `n` bytes leaves.
abbrev pub copy_bounded : Memory → (dst src wrote : ℕ) → Memory
copy_bounded m dst src wrote = if wrote == 0 then m else copy_text m dst src (wrote - 1)

-- __redzone_strlcpy, less its result, which is libc's
unfoldable pub strlcpy : Heap → (dst src n : ℕ) → File → ℕ → Outcome Heap
strlcpy h dst src n file line =
    let sl = strlen h.memory src in
    check h src (u64 (sl + 1)) read file line >>= λ _.
    let wrote = bytes_written sl n in
    (if wrote == 0 then returns tt else check h dst wrote write file line) >>= λ _.
    returns (with_memory h (copy_bounded h.memory dst src wrote))

-- __redzone_strlcat, less its result
unfoldable pub strlcat : Heap → (dst src n : ℕ) → File → ℕ → Outcome Heap
strlcat h dst src n file line =
    let sl = strlen h.memory src in
    check h src (u64 (sl + 1)) read file line >>= λ _.
    let dl = strnlen n h.memory dst in
    let avail = if ltb dl n then n - dl else 0 in
    let wrote = bytes_written sl avail in
    (if wrote == 0 then returns tt else check h (u64 (dst + dl)) wrote write file line) >>= λ _.
    returns (with_memory h (copy_bounded h.memory (dst + dl) src wrote))
