-- ===== src/Race.antt =====
-- runtime/redzone_race.h and runtime/redzone_race.c, the happens-before engine: vector clocks, the
-- race check, and the synchronization events. A clock is a function, of which only the first 64
-- entries are used. A thread id counts up from 0, so the tests for a negative id are never true.
pub mod Clock
pub mod Cells
pub mod Trace
pub mod Upper
pub mod Order
pub mod Recorded
pub mod Made
pub mod Sound
use redzone.Prelude.{
  ℕ, zero, suc, ◌+◌, Bool, true, false, not, ◌&&◌, ◌||◌, ltb, leb, ◌==◌, if◌then◌else◌, update,
}
use redzone.Prelude.Bits.{u64}
use redzone.Report.{File}

-- RZ_RACE_MAX_THREADS
abbrev pub max_threads : ℕ
max_threads = 64

-- rz_vc
abbrev pub VectorClock : Type 0
VectorClock = ℕ → ℕ

abbrev pub vc_init : VectorClock
vc_init = λ _. 0

unfoldable pub vc_tick : VectorClock → ℕ → VectorClock
vc_tick c tid = if ltb tid max_threads then update c tid (u64 (c tid + 1)) else c

-- The rounds from `i` on of the loop in rz_vc_join.
unfoldable pub join_from : ℕ → ℕ → VectorClock → VectorClock → VectorClock
join_from zero i dst src = dst
join_from (suc n) i dst src =
    join_from n (i + 1) (if ltb (dst i) (src i) then update dst i (src i) else dst) src

unfoldable pub vc_join : VectorClock → VectorClock → VectorClock
vc_join dst src = join_from max_threads 0 dst src

-- rz_access: one recorded access
pub record Cell : Type 0 where
  pub valid : Bool
  pub tid : ℕ
  pub epoch : ℕ
  pub is_write : Bool
  pub file : File
  pub line : ℕ

-- rz_race_check
unfoldable pub race_check : Cell → ℕ → VectorClock → Bool → Bool
race_check prev tid cur is_write =
    if not prev.valid
    then false
    else if prev.tid == tid
    then false
    else if not prev.is_write && not is_write
    then false
    else if leb max_threads prev.tid
    then false
    else ltb (cur prev.tid) prev.epoch

-- rz_thread
pub record Thread : Type 0 where
  pub tid : ℕ
  pub clock : VectorClock

-- rz_thread_init, given the id that it takes from next_tid, an int: fewer than 2 ^ 31 threads are made.
unfoldable pub thread_init : ℕ → Thread
thread_init next_tid = record { tid = next_tid; clock = vc_tick vc_init next_tid }

-- rz_mutex_release: the thread afterwards, and the lock's clock
unfoldable pub mutex_release : Thread → VectorClock → Thread × VectorClock
mutex_release t m = (record t { clock = vc_tick t.clock t.tid }, vc_join m t.clock)

-- rz_mutex_acquire
unfoldable pub mutex_acquire : Thread → VectorClock → Thread
mutex_acquire t m = record t { clock = vc_join t.clock m }

-- rz_thread_create: the parent afterwards, and the child
unfoldable pub thread_create : ℕ → Thread → Thread × Thread
thread_create next_tid parent = (
  record parent { clock = vc_tick parent.clock parent.tid },
  record { tid = next_tid; clock = vc_tick parent.clock next_tid },
)

-- rz_thread_join
unfoldable pub thread_join : Thread → Thread → Thread
thread_join parent child = record parent { clock = vc_join parent.clock child.clock }
