-- ===== src/Strings/Bounds.antt =====
-- What the string wrappers of runtime/redzone_rt.c let through, and what they write.
use redzone.Prelude.{
  ℕ, ◌+◌, ◌-◌, ◌≤◌, ◌<◌, ◌≡◌, ◌∙◌, refl, arith, min, Bool, true, false, some, ◌==◌, if◌then◌else◌,
  get_elem?,
}
use redzone.Prelude.Bits.{u64}
use redzone.Shadow.Range.{within}
use redzone.Report.{File, read, write, Outcome, returns, ◌>>=◌}
use redzone.Table.{Block, report}
use redzone.Heap.{Heap}
use redzone.Heap.Valid.{IsValid}
use redzone.Heap.Writes.{write-IsValid}
use redzone.Check.{block_kind}
use redzone.Check.Exact.{in_bounds, check-block}
use redzone.Check.Bulk.{check-in_bounds}
use redzone.Strings.{strlen, copy_text, bytes_written, strcpy, strcat, strlcpy}

-- A check that either passes or reports, before a result.
checked_result :
    (ok : Bool) (b : Block) (a n : ℕ) (file : File) (line : ℕ) (h' : Heap)
    → (if◌then◌else◌ {A = Outcome (Unit {0})} ok
          (returns tt)
          (report (block_kind b) a n write file line b))
        >>= (λ _. returns h')
      ≡ (if ok then returns h' else report (block_kind b) a n write file line b)
unfolding report
checked_result true b a n file line h' = refl
checked_result false b a n file line h' = refl

-- A string copied from a live block of a well-formed heap, its zero included, to a range within
-- the allocation of a block, one that may be freed: it is copied if the range is in the user
-- region of the block and the block is live; otherwise the write is reported with that block.
pub strcpy_lem :
    (h : Heap) (j k : ℕ) (b c : Block) (dst src : ℕ) (file : File) (line : ℕ)
    → IsValid h
    → get_elem? h.table.blocks j ≡ some b
    → get_elem? h.table.blocks k ≡ some c
    → in_bounds c src (strlen h.memory src + 1) ≡ true
    → b.real_base ≤ dst
    → dst + strlen h.memory src + 1 ≤ b.real_base + b.total_size
    → strcpy h dst src file line ≡ (
        if in_bounds b dst (strlen h.memory src + 1)
        then returns (record h { memory = copy_text h.memory dst src (strlen h.memory src) })
        else report (block_kind b) dst (strlen h.memory src + 1) write file line b)
unfolding strcpy
strcpy_lem h j k b c dst src file line valid ej ek readable lo hi =
    let p = valid.placed j b ej in
    let n = strlen h.memory src + 1 in
    let fits : u64 n ≡ n = omega (arith, p.fits) in
    rw
      (
        fits,
        check-in_bounds h k c src n read file line valid ek readable,
        check-block h j b dst n write file line valid ej (omega arith) lo (omega arith),
      )
      (checked_result (in_bounds b dst n) b dst n file line
        (record h { memory = copy_text h.memory dst src (strlen h.memory src) }))

-- strlcpy from a live block of a well-formed heap, with room for `n` bytes, of which it writes at
-- least one, within the allocation of a block, one that may be freed: exactly the bytes that it
-- writes, not all `n`, have to be in the user region of a live block; if they are, it copies them,
-- and otherwise it reports that block.
pub strlcpy_lem :
    (h : Heap) (j k : ℕ) (b c : Block) (dst src n : ℕ) (file : File) (line : ℕ)
    → IsValid h
    → get_elem? h.table.blocks j ≡ some b
    → get_elem? h.table.blocks k ≡ some c
    → in_bounds c src (strlen h.memory src + 1) ≡ true
    → 0 < n
    → b.real_base ≤ dst
    → dst + min (strlen h.memory src + 1) n ≤ b.real_base + b.total_size
    → strlcpy h dst src n file line ≡ (
        let wrote = min (strlen h.memory src + 1) n in
        if in_bounds b dst wrote
        then returns (record h { memory = copy_text h.memory dst src (wrote - 1) })
        else report (block_kind b) dst wrote write file line b)
unfolding strlcpy
strlcpy_lem h j k b c dst src n file line valid ej ek readable room lo hi =
    let q = valid.placed k c ek in
    let sl = strlen h.memory src in
    let short : sl + 1 ≤ c.user_size = ground (arith, readable) in
    let fits : u64 (sl + 1) ≡ sl + 1 = omega (arith, q.fits, q.left, q.right) in
    let wrote : bytes_written sl n ≡ min (sl + 1) n = rw fits (ground arith) in
    let some_bytes : (min (sl + 1) n == 0) ≡ false = ground arith in
    rw
      (
        wrote,
        some_bytes,
        fits,
        check-in_bounds h k c src (sl + 1) read file line valid ek readable,
        check-block h j b dst (min (sl + 1) n) write file line valid ej (omega arith) lo hi,
      )
      (checked_result (in_bounds b dst (min (sl + 1) n)) b dst (min (sl + 1) n) file line
        (record h { memory = copy_text h.memory dst src (min (sl + 1) n - 1) }))

-- strcat onto the string at `dst`, from a live block of a well-formed heap, where the whole result
-- lies within the allocation of a block, one that may be freed: the result, its zero included, has
-- to be in the user region of the block and the block live; then the string is appended at the end
-- of the old one, and otherwise the block is reported.
pub strcat_lem :
    (h : Heap) (j k : ℕ) (b c : Block) (dst src : ℕ) (file : File) (line : ℕ)
    → IsValid h
    → get_elem? h.table.blocks j ≡ some b
    → get_elem? h.table.blocks k ≡ some c
    → in_bounds c src (strlen h.memory src + 1) ≡ true
    → b.real_base ≤ dst
    → dst + (strlen h.memory dst + (strlen h.memory src + 1)) ≤ b.real_base + b.total_size
    → strcat h dst src file line ≡ (
        let whole = strlen h.memory dst + (strlen h.memory src + 1) in
        if in_bounds b dst whole
        then returns (record h {
          memory = copy_text h.memory (dst + strlen h.memory dst) src (strlen h.memory src);
        })
        else report (block_kind b) dst whole write file line b)
unfolding strcat
strcat_lem h j k b c dst src file line valid ej ek readable lo hi =
    let p = valid.placed j b ej in
    let n = strlen h.memory src + 1 in
    let whole = strlen h.memory dst + n in
    let fits : u64 n ≡ n = omega (arith, p.fits) in
    let all_fits : u64 whole ≡ whole = omega (arith, p.fits) in
    rw
      (
        fits,
        all_fits,
        check-in_bounds h k c src n read file line valid ek readable,
        check-block h j b dst whole write file line valid ej (omega arith) lo hi,
      )
      (checked_result (in_bounds b dst whole) b dst whole file line (record h {
        memory = copy_text h.memory (dst + strlen h.memory dst) src (strlen h.memory src);
      }))

-- A strcpy between live blocks of a well-formed heap that both have room for the string: it
-- returns, the destination holds the string's bytes and a zero, all other bytes stay, and the heap
-- is well formed.
pub strcpy-in_bounds :
    (h : Heap) (j k : ℕ) (b c : Block) (dst src : ℕ) (file : File) (line : ℕ)
    → IsValid h
    → get_elem? h.table.blocks j ≡ some b
    → get_elem? h.table.blocks k ≡ some c
    → in_bounds c src (strlen h.memory src + 1) ≡ true
    → in_bounds b dst (strlen h.memory src + 1) ≡ true
    → (h' : Heap) × (strcpy h dst src file line ≡ returns h')
      × IsValid h'
      × ((i : ℕ) → i < strlen h.memory src → h'.memory (dst + i) ≡ h.memory (src + i))
      × (h'.memory (dst + strlen h.memory src) ≡ 0)
      × ((x : ℕ) → within dst (strlen h.memory src + 1) x ≡ false → h'.memory x ≡ h.memory x)
strcpy-in_bounds h j k b c dst src file line valid ej ek readable writable =
    let p = valid.placed j b ej in
    let len = strlen h.memory src in
    let m = copy_text h.memory dst src len in
    let outside : (x : ℕ) → within dst (len + 1) x ≡ false → m x ≡ h.memory x =
      λ x out. ground (arith, out) in
    (
      record h { memory = m },
      strcpy_lem h j k b c dst src file line valid ej ek readable (ground (arith, p, writable))
            (ground (arith, p, writable))
          ∙ rw writable,
      write-IsValid h m j b valid ej (λ x out. outside x (ground (arith, out, writable))),
      λ i lt. let e : dst + i - dst ≡ i = omega arith in rw e (ground arith),
      ground arith,
      outside,
    )
