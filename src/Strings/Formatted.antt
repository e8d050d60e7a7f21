-- ===== src/Strings/Formatted.antt =====
-- runtime/redzone_rt.c, "Formatted output": __redzone_snprintf and __redzone_sprintf. What a format
-- expands to is libc's to say: its length, which vsnprintf gives or refuses to, and its bytes.
use redzone.Prelude.{
  Bool, ℕ, ◌+◌, ◌-◌, ◌^◌, ◌<◌, ◌≡◌, arith, true, false, ◌&&◌, Option, none, some, min, ltb, leb,
  ◌==◌, if◌then◌else◌, get_elem?,
}
use redzone.Prelude.Bits.{u64, u64_mod}
use redzone.Shadow.Range.{within}
use redzone.Memory.{Memory}
use redzone.Report.{File, write, Outcome, returns, ◌>>=◌}
use redzone.Table.{Block}
use redzone.Heap.{Heap}
use redzone.Heap.Valid.{IsValid}
use redzone.Heap.Writes.{write-IsValid}
use redzone.Check.{check}
use redzone.Check.Exact.{in_bounds}
use redzone.Check.Bulk.{check-in_bounds}

-- `writes n` says whether vsnprintf succeeds with the size `n`; POSIX lets it fail above INT_MAX.
pub record Expansion : Type 0 where
  pub len : Option ℕ
  pub text : ℕ → ℕ
  pub writes : ℕ → Bool

-- What vsnprintf writes when it writes `wrote` bytes: the text, and a zero at the end
abbrev pub put_text : Memory → (dst : ℕ) → (ℕ → ℕ) → (wrote : ℕ) → Memory
put_text m dst text wrote x =
    if leb dst x && ltb x (dst + wrote)
    then if x + 1 == dst + wrote then 0 else text (x - dst)
    else m x

-- vsnprintf with the size `n`; when it fails it writes nothing.
abbrev pub vsnprintf : Memory → (dst wrote n : ℕ) → Expansion → Memory
vsnprintf m dst wrote n fmt = if fmt.writes n then put_text m dst fmt.text wrote else m

-- The bytes that snprintf writes for a text of `len` bytes
abbrev pub snprintf_wrote : (len n : ℕ) → ℕ
snprintf_wrote len n = if n == 0 then 0 else if leb (u64 (len + 1)) n then u64 (len + 1) else n

-- __redzone_snprintf, less its result; a format that cannot be expanded leaves the memory as it is.
unfoldable pub snprintf : Heap → (dst n : ℕ) → File → ℕ → Expansion → Outcome Heap
snprintf h dst n file line fmt = elim fmt.len [
  | none ↦ returns h
  | some len ↦
      let wrote = snprintf_wrote len n in
      (if wrote == 0 then returns tt else check h dst wrote write file line) >>= λ _.
      returns (record h { memory = vsnprintf h.memory dst wrote n fmt })
]

-- __redzone_sprintf, less its result
unfoldable pub sprintf : Heap → (dst : ℕ) → File → ℕ → Expansion → Outcome Heap
sprintf h dst file line fmt = elim fmt.len [
  | none ↦ returns h
  | some len ↦ check h dst (u64 (len + 1)) write file line >>= λ _.
      returns (record h { memory = vsnprintf h.memory dst (u64 (len + 1)) (u64_mod - 1) fmt })
]

-- An snprintf into a live block of a well-formed heap that has room for the bytes to be written, which
-- are the text and a zero, cut to `n`, which is at most INT_MAX, with a vsnprintf that does not fail for
-- a size up to INT_MAX: it returns, the destination holds the text as far as it fits
-- and a zero behind it, all other bytes stay, and the heap is well formed.
pub snprintf-in_bounds :
    (h : Heap) (k : ℕ) (b : Block) (dst n len : ℕ) (file : File) (line : ℕ) (fmt : Expansion)
    → IsValid h
    → get_elem? h.table.blocks k ≡ some b
    → fmt.len ≡ some len
    → len < 2 ^ 31
    → 0 < n
    → n < 2 ^ 31
    → ((i : ℕ) → i < 2 ^ 31 → fmt.writes i ≡ true)
    → in_bounds b dst (min (len + 1) n) ≡ true
    → (h' : Heap) × (snprintf h dst n file line fmt ≡ returns h')
      × IsValid h'
      × ((i : ℕ) → i < min len (n - 1) → h'.memory (dst + i) ≡ fmt.text i)
      × (h'.memory (dst + min len (n - 1)) ≡ 0)
      × ((x : ℕ) → within dst (min (len + 1) n) x ≡ false → h'.memory x ≡ h.memory x)
unfolding snprintf
snprintf-in_bounds h k b dst n len file line fmt valid entry known small pos fits succeeds ok =
    let p = valid.placed k b entry in
    let wrote : snprintf_wrote len n ≡ min (len + 1) n = ground arith in
    let m = put_text h.memory dst fmt.text (min (len + 1) n) in
    let some_bytes : (min (len + 1) n == 0) ≡ false = ground arith in
    let outside : (x : ℕ) → within dst (min (len + 1) n) x ≡ false → m x ≡ h.memory x =
      λ x out. ground (arith, out) in
    (
      record h { memory = m },
      rw (
        known,
        snprintf,
        wrote,
        some_bytes,
        succeeds n fits,
        check-in_bounds h k b dst (min (len + 1) n) write file line valid entry ok,
      ),
      write-IsValid h m k b valid entry (λ x out. outside x (ground (arith, out, ok))),
      λ i lt. let e : dst + i - dst ≡ i = omega arith in rw e (ground arith),
      ground arith,
      outside,
    )
