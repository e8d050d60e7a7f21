-- ===== src/Registry.antt =====
-- runtime/redzone_race_rt.c, the tables of the race runtime: which races were printed, which
-- handle belongs to a thread that can be joined, and the clock of each lock. Each is guarded by a
-- lock of the runtime, so an operation is one step.
pub mod Reports
pub mod Runtime
pub mod World
use redzone.Prelude.{
  ℕ, ◌+◌, ◌-◌, ◌*◌, ◌/◌, ◌%◌, ◌^◌, Bool, true, false, not, ◌&&◌, Option, none, some, List, [], ◌∷◌,
  ◌++◌, leb, ◌==◌, if◌then◌else◌, length, get_elem?, set, replicate, bit_and,
}
use redzone.Prelude.Bits.{u64}
use redzone.Race.{VectorClock, vc_init}
use redzone.Race.Cells.{golden}

-- shard_of: 64 shards of the shadow. The quotient is cast to 32 bits, of which the mask takes 6.
unfoldable pub shard_of : ℕ → ℕ
shard_of word = bit_and (u64 (word * golden) / 2 ^ 40) 63

-- sync_shard_of: 16 shards of locks
unfoldable pub sync_shard_of : ℕ → ℕ
sync_shard_of key = bit_and (u64 (key * golden) / 2 ^ 36 % 2 ^ 32) 15

-- RZ_RACE_REPORT_CAP
abbrev pub report_cap : ℕ
report_cap = 16

-- Is the pair of lines in g_report_lines?
unfoldable pub was_reported : List (ℕ × ℕ) → ℕ → ℕ → Bool
was_reported [] line prev_line = false
was_reported ((l, p) ∷ pairs) line prev_line =
    let rest = was_reported pairs line prev_line in
    if l == line && p == prev_line then true else rest

-- should_report: the answer, and g_report_lines afterwards
unfoldable pub should_report : Bool → List (ℕ × ℕ) → ℕ → ℕ → List (ℕ × ℕ) × Bool
should_report verbose pairs line prev_line =
    if verbose
    then (pairs, true)
    else if was_reported pairs line prev_line
    then (pairs, false)
    else if leb report_cap (length pairs)
    then (pairs, false)
    else (pairs ++ (line, prev_line) ∷ [], true)

-- rz_thr_ent: a thread's pthread_t, its handle, and whether the slot is in use
pub record ThreadEntry : Type 0 where
  pub thr : ℕ
  pub handle : ℕ
  pub used : Bool

abbrev pub free_slot : ThreadEntry
free_slot = record { thr = 0; handle = 0; used = false }

unfoldable pub first_free : List ThreadEntry → ℕ → Option ℕ
first_free [] i = none
first_free (e ∷ es) i = let rest = first_free es (i + 1) in if not e.used then some i else rest

-- reg_thread; `grow` says whether the table can be reallocated.
unfoldable pub reg_thread : Bool → List ThreadEntry → (thr handle : ℕ) → List ThreadEntry
reg_thread grow es thr handle =
    let entry : ThreadEntry = record { thr = thr; handle = handle; used = true } in
    let old = length es in
    let cap = if old == 0 then 16 else u64 (old * 2) in
    elim (first_free es 0) [
      | some i ↦ set es i entry
      | none ↦ if grow then es ++ entry ∷ replicate (cap - old - 1) free_slot else es
    ]

-- take_thread, on the slots that are left
unfoldable pub take_thread : List ThreadEntry → ℕ → List ThreadEntry × Option ℕ
take_thread [] thr = ([], none)
take_thread (e ∷ es) thr =
    let rest = take_thread es thr in
    if e.used && e.thr == thr
    then (record e { used = false } ∷ es, some e.handle)
    else (e ∷ rest.0, rest.1)

-- rz_sync_ent, and a shard of them with its capacity
pub record SyncEntry : Type 0 where
  pub sync_key : ℕ
  pub sync_clock : VectorClock

pub record SyncShard : Type 0 where
  pub entries : List SyncEntry
  pub capacity : ℕ

unfoldable pub sync_index : List SyncEntry → ℕ → ℕ → Option ℕ
sync_index [] key i = none
sync_index (e ∷ es) key i =
    let rest = sync_index es key (i + 1) in if e.sync_key == key then some i else rest

-- sync_for_in: the shard, and the index of the entry for the key
unfoldable pub sync_for_in : Bool → SyncShard → ℕ → SyncShard × Option ℕ
sync_for_in grow sh key =
    let len = length sh.entries in
    let added = sh.entries ++ record { sync_key = key; sync_clock = vc_init } ∷ [] in
    let cap = if sh.capacity == 0 then 8 else u64 (sh.capacity * 2) in
    elim (sync_index sh.entries key 0) [
      | some i ↦ (sh, some i)
      | none ↦
          if not (len == sh.capacity)
          then (record sh { entries = added }, some len)
          else if grow
          then (record { entries = added; capacity = cap }, some len)
          else (sh, none)
    ]
