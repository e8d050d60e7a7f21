-- ===== src/Interpose.antt =====
-- runtime/redzone_interpose.c, the functions that stand in for malloc, calloc, realloc, free and
-- malloc_size in the whole process. What they hand to the system's heap is returned as a request,
-- which the system answers; `in_runtime` says that the thread holds the table lock.
pub mod Routing
use redzone.Prelude.{ℕ, ◌*◌, Bool, true, false, not, ◌&&◌, Option, none, some, ◌==◌, if◌then◌else◌}
use redzone.Prelude.Bits.{u64}
use redzone.Report.{Outcome, returns, ◌>>=◌}
use redzone.Heap.{Heap, System, owns, maybe_owns, usable_size}
use redzone.Heap.Ops.{malloc, calloc, realloc, free}

-- rz_sys_malloc, the same with the memory cleared, and rz_sys_realloc
pub data Request : Type 0 where
  system_malloc : ℕ → Request
  system_zeroed : ℕ → Request
  system_realloc : (ptr size : ℕ) → Request

-- A pointer of the runtime's, or what the system answers.
pub data Answer : Type 0 where
  ours : Heap × Option ℕ → Answer
  theirs : Heap → Request → Answer

-- rz_i_malloc
unfoldable pub i_malloc : Bool → System → Heap → ℕ → Outcome Answer
i_malloc in_runtime sys h size =
    if in_runtime
    then returns (theirs h (system_malloc size))
    else malloc sys h size none 0 >>= λ r. returns (ours r)

-- rz_i_calloc
unfoldable pub i_calloc : Bool → System → Heap → (nmemb size : ℕ) → Outcome Answer
i_calloc in_runtime sys h nmemb size =
    if in_runtime
    then returns (theirs h (system_zeroed (u64 (nmemb * size))))
    else calloc sys h nmemb size none 0 >>= λ r. returns (ours r)

-- rz_i_realloc
unfoldable pub i_realloc : Bool → System → Heap → (ptr size : ℕ) → Outcome Answer
i_realloc in_runtime sys h ptr size =
    if in_runtime
    then returns (theirs h (system_realloc ptr size))
    else if ptr == 0
    then (malloc sys h size none 0 >>= λ r. returns (ours r))
    else if owns h ptr
    then (realloc sys h ptr size none 0 >>= λ r. returns (ours r))
    else returns (theirs h (system_realloc ptr size))

-- rz_i_free: the heap, and the pointer that goes to rz_sys_free if one does
unfoldable pub i_free : Bool → Heap → ℕ → Outcome (Heap × Option ℕ)
i_free in_runtime h ptr =
    if ptr == 0
    then returns (h, none)
    else if in_runtime
    then returns (h, if not (maybe_owns h ptr) then some ptr else none)
    else if owns h ptr
    then (free h ptr >>= λ h'. returns (h', none))
    else returns (h, some ptr)

-- rz_i_malloc_size; `zone_size` is the size function of the default zone.
unfoldable pub i_malloc_size : (ℕ → ℕ) → Heap → ℕ → ℕ
i_malloc_size zone_size h ptr =
    if not (ptr == 0) && owns h ptr
    then usable_size h ptr
    else if ptr == 0
    then 0
    else zone_size ptr

-- rz_zone_size
unfoldable pub zone_size_of : Heap → ℕ → ℕ
zone_size_of h ptr = usable_size h ptr

-- rz_zone_malloc and rz_zone_valloc
unfoldable pub zone_malloc : System → Heap → ℕ → Outcome (Heap × Option ℕ)
zone_malloc sys h size = malloc sys h size none 0

-- rz_zone_calloc
unfoldable pub zone_calloc : System → Heap → (nmemb size : ℕ) → Outcome (Heap × Option ℕ)
zone_calloc sys h nmemb size = calloc sys h nmemb size none 0

-- rz_zone_realloc
unfoldable pub zone_realloc : Bool → System → Heap → (ptr size : ℕ) → Outcome Answer
zone_realloc in_runtime sys h ptr size = i_realloc in_runtime sys h ptr size

-- rz_zone_free
unfoldable pub zone_free : Bool → Heap → ℕ → Outcome (Heap × Option ℕ)
zone_free in_runtime h ptr = i_free in_runtime h ptr

-- rz_i_zone_from_ptr: `none` is the zone of the runtime.
unfoldable pub i_zone_from_ptr : (ℕ → ℕ) → Heap → ℕ → Option ℕ
i_zone_from_ptr zone_from_ptr h ptr =
    if not (ptr == 0) && owns h ptr then none else some (zone_from_ptr ptr)
