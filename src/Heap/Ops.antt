-- ===== src/Heap/Ops.antt =====
-- runtime/redzone_rt.c, the allocator's operations: each function of the section "Allocation /
-- deallocation", its guards and early returns in the order of the source.
use redzone.Prelude.{
  ℕ, ◌+◌, ◌-◌, ◌*◌, ◌/◌, ◌%◌, Bool, true, false, not, ◌&&◌, ◌||◌, Option, none, some, ltb, ◌==◌,
  if◌then◌else◌, set, bit_and,
}
use redzone.Prelude.Bits.{u64, sub64, clear_low3, align_down}
use redzone.Shadow.{redzone_size, rz_poison, freed_poison, set_shadow_range, carve}
use redzone.Memory.{memcpy, memset, store_bytes}
use redzone.Report.{File, Outcome, returns, ◌>>=◌, report_free_error, double_free, invalid_free}
use redzone.Table.{Block, find_block, record_block}
use redzone.Heap.{Heap, System, size_max, header_magic, write_header, block_from_user_ptr}

unfoldable pub is_pow2 : ℕ → Bool
is_pow2 x = not (x == 0) && bit_and x (sub64 x 1) == 0

-- Bytes to ask for beyond the user's and the two red zones, so that the user pointer can be aligned.
abbrev pub slack_of : ℕ → ℕ
slack_of align = if ltb redzone_size align then align else 0

abbrev pub total_of : ℕ → ℕ → ℕ
total_of size align = u64 (size + 2 * redzone_size + slack_of align)

-- The first aligned address that leaves room for a left red zone.
abbrev pub user_of : ℕ → ℕ → ℕ
user_of base align = align_down (u64 (base + redzone_size + (align - 1))) align

-- The second half of rz_allocate, once the system has given `base`: record, poison, carve, header.
unfoldable pub install :
    System → Heap → (size align base : ℕ) → File → ℕ → Outcome (Heap × Option ℕ)
install sys h size align base file line = do
  let total = total_of size align
  let user = user_of base align
  (table, idx) ← record_block sys.sys_grow h.table (record {
    real_base = base;
    total_size = total;
    user_addr = user;
    user_size = size;
    freed = false;
    alloc_file = file;
    alloc_line = line;
  })
  returns (
    record {
      shadow = carve (set_shadow_range h.shadow base total rz_poison) user size;
      table = table;
      memory = write_header h.memory user (record { magic = header_magic; index = idx });
    },
    some user,
  )

unfoldable pub rz_allocate : System → Heap → (size align : ℕ) → File → ℕ → Outcome (Heap × Option ℕ)
rz_allocate sys h size align file line =
    if ltb (sub64 (size_max - 2 * redzone_size) (slack_of align)) size
    then returns (h, none)
    else elim (sys.sys_malloc (total_of size align)) [
      | none ↦ returns (h, none)
      | some base ↦ install sys h size align base file line
    ]

-- __redzone_malloc
unfoldable pub malloc : System → Heap → ℕ → File → ℕ → Outcome (Heap × Option ℕ)
malloc sys h size file line = rz_allocate sys h size redzone_size file line

-- __redzone_aligned_alloc
unfoldable pub aligned_alloc :
    System → Heap → (alignment size : ℕ) → File → ℕ → Outcome (Heap × Option ℕ)
aligned_alloc sys h alignment size file line =
    if not (is_pow2 alignment)
    then returns (h, none)
    else rz_allocate sys h size (if ltb alignment redzone_size then redzone_size else alignment)
        file line

-- The result of __redzone_posix_memalign, with what it stores in *memptr.
pub data Memalign : Type 0 where
  stored : ℕ → Memalign
  einval enomem : Memalign

-- __redzone_posix_memalign. The store to *memptr is not checked.
unfoldable pub posix_memalign :
    System → Heap → (memptr alignment size : ℕ) → File → ℕ → Outcome (Heap × Memalign)
posix_memalign sys h memptr alignment size file line =
    if memptr == 0
    then returns (h, einval)
    else if not (is_pow2 alignment) || not (alignment % 8 == 0)
    then returns (h, einval)
    else rz_allocate sys h size (if ltb alignment redzone_size then redzone_size else alignment)
        file line
      >>= λ r. returns (elim r.1 [
        | none ↦ (r.0, enomem)
        | some p ↦ (record (r.0) { memory = store_bytes 8 r.0.memory memptr p }, stored p)
      ])

-- The tail of calloc: memset over what malloc gave, if it gave anything.
unfoldable pub zero_fill : ℕ → Heap × Option ℕ → Heap × Option ℕ
zero_fill total (h, none) = (h, none)
zero_fill total (h, some p) = (record h { memory = memset h.memory p 0 total }, some p)

-- __redzone_calloc
unfoldable pub calloc : System → Heap → (nmemb size : ℕ) → File → ℕ → Outcome (Heap × Option ℕ)
calloc sys h nmemb size file line =
    if not (size == 0) && ltb (size_max / size) nmemb
    then returns (h, none)
    else malloc sys h (u64 (nmemb * size)) file line >>= λ r.
        returns (zero_fill (u64 (nmemb * size)) r)

-- The end of __redzone_free, with the block in hand: quarantine it and poison its user region.
unfoldable pub free_block : Heap → (ptr k : ℕ) → Block → Outcome Heap
free_block h ptr k b =
    if b.freed
    then report_free_error double_free ptr
    else returns (record h {
      shadow =
          set_shadow_range h.shadow b.user_addr (clear_low3 (u64 (b.user_size + 7))) freed_poison;
      table = record (h.table) { blocks = set h.table.blocks k (record b { freed = true }) };
    })

-- __redzone_free
unfoldable pub free : Heap → ℕ → Outcome Heap
free h ptr = if ptr == 0 then returns h else elim (block_from_user_ptr h ptr) [
  | some (k, b) ↦ free_block h ptr k b
  | none ↦ elim (find_block h.table.blocks ptr) [
    | none ↦ returns h
    | some _ ↦ report_free_error invalid_free ptr
  ]
]

-- How many bytes realloc carries over from a block.
abbrev pub carried : Option (ℕ × Block) → ℕ → ℕ
carried none size = 0
carried (some (k, b)) size =
    if b.freed then 0 else if ltb b.user_size size then b.user_size else size

-- The old block of realloc: by its header, or by the scan for an interior pointer.
unfoldable pub old_block : Heap → ℕ → Option (ℕ × Block)
old_block h ptr = elim (block_from_user_ptr h ptr) [
  | some r ↦ some r
  | none ↦ find_block h.table.blocks ptr
]

-- The part of realloc after a successful malloc: copy, then quarantine the old block.
unfoldable pub move_block : Heap → (ptr np size : ℕ) → Outcome (Heap × Option ℕ)
move_block h ptr np size = do
  let copy = carried (old_block h ptr) size
  h' ← free (record h { memory = memcpy h.memory np ptr copy }) ptr
  returns (h', some np)

-- __redzone_realloc
unfoldable pub realloc : System → Heap → (ptr size : ℕ) → File → ℕ → Outcome (Heap × Option ℕ)
realloc sys h ptr size file line =
    if ptr == 0
    then malloc sys h size file line
    else if size == 0
    then (free h ptr >>= λ h'. returns (h', none))
    else malloc sys h size file line >>= λ r. elim r.1 [
      | none ↦ returns (r.0, none)
      | some np ↦ move_block r.0 ptr np size
    ]
