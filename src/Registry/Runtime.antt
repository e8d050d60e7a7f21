-- ===== src/Registry/Runtime.antt =====
-- runtime/redzone_race_rt.c, the state of the race runtime and its operations: the handle of the
-- calling thread, the lock wrappers and atomics. A thread of the system is
-- a number, and so is the address of an rz_thread; what calloc, malloc and realloc answer is an
-- argument, and so is each pthread call.
pub mod Access
pub mod Entries
pub mod Refine
pub mod Ranges
pub mod Words
pub mod Start
pub mod Threads
use redzone.Prelude.{
  ℕ, ◌+◌, ◌/◌, Bool, true, false, not, ◌&&◌, ◌||◌, Option, none, some, List, [], ◌∷◌, ltb, ◌==◌,
  if◌then◌else◌, get_elem?, set, update,
}
use redzone.Race.{
  VectorClock, Thread, thread_init, mutex_release, mutex_acquire, thread_create, thread_join,
}
use redzone.Race.Cells.{RaceState, race_buckets, race_state_init_n}
use redzone.Registry.{
  sync_shard_of, ThreadEntry, reg_thread, take_thread, SyncEntry, SyncShard, sync_for_in,
}

-- RZ_NSHARD
abbrev pub shard_count : ℕ
shard_count = 64

-- The static variables; `objects` is the rz_thread at an address, `selfs` the value of g_self_key.
pub record Runtime : Type 0 where
  pub shards : ℕ → RaceState
  pub syncs : ℕ → SyncShard
  pub next_tid : ℕ
  pub races : ℕ
  pub verbose : Bool
  pub report_lines : List (ℕ × ℕ)
  pub registry : List ThreadEntry
  pub objects : ℕ → Thread
  pub selfs : ℕ → Option ℕ

-- rz_thread_init on g_meta, for the rz_thread at `h`
unfoldable pub register_thread : Runtime → (os h : ℕ) → Runtime
register_thread rt os h = record rt {
  objects = update rt.objects h (thread_init rt.next_tid);
  next_tid = rt.next_tid + 1;
  selfs = update rt.selfs os (some h);
}

-- init_once: `room i` says whether calloc gives the table of shard `i`, `fresh` is what it gives for
-- the root thread, which is the calling one.
unfoldable pub init_once : (ℕ → Bool) → Bool → Option ℕ → Runtime → (os : ℕ) → Runtime
init_once room verbose fresh rt os =
    let started = record rt {
      shards = λ i.
          if ltb i shard_count
          then (race_state_init_n (room i) (rt.shards i).next_tid (race_buckets / shard_count)).0
          else rt.shards i;
      next_tid = 0;
      verbose = verbose;
    } in
    elim fresh [ none ↦ started | some h ↦ register_thread started os h ]

-- self, once rz_rt_init has run
unfoldable pub self : Option ℕ → Runtime → (os : ℕ) → Runtime × Option ℕ
self fresh rt os = elim (rt.selfs os) [
  | some h ↦ (rt, some h)
  | none ↦ elim fresh [ none ↦ (rt, none) | some h ↦ (register_thread rt os h, some h) ]
]

-- The lock's entry is found or made, and the thread takes its clock.
unfoldable pub acquire_key : Bool → Runtime → (h key : ℕ) → Runtime
acquire_key grow rt h key =
    let sh = sync_shard_of key in
    let found = sync_for_in grow (rt.syncs sh) key in
    let rt' = record rt { syncs = update rt.syncs sh found.0 } in
    elim found.1 [
      | none ↦ rt'
      | some i ↦ elim (get_elem? found.0.entries i) [
        | none ↦ rt'
        | some e ↦ record rt' {
          objects = update rt.objects h (mutex_acquire (rt.objects h) e.sync_clock);
        }
      ]
    ]

-- The lock's entry takes the thread's clock.
unfoldable pub release_key : Bool → Runtime → (h key : ℕ) → Runtime
release_key grow rt h key =
    let sh = sync_shard_of key in
    let found = sync_for_in grow (rt.syncs sh) key in
    elim found.1 [
      | none ↦ record rt { syncs = update rt.syncs sh found.0 }
      | some i ↦ elim (get_elem? found.0.entries i) [
        | none ↦ record rt { syncs = update rt.syncs sh found.0 }
        | some e ↦
            let r = mutex_release (rt.objects h) e.sync_clock in
            let entries = set found.0.entries i (record e { sync_clock = r.1 }) in
            record rt {
              syncs = update rt.syncs sh (record (found.0) { entries = entries });
              objects = update rt.objects h r.0;
            }
      ]
    ]

-- What the allocator answers during one operation
pub record Allocator : Type 0 where
  pub fresh : Option ℕ
  pub grow : Bool

-- rz_rt_mutex_lock
unfoldable pub mutex_lock : Allocator → Runtime → (os key : ℕ) → Runtime
mutex_lock al rt os key =
    let (rt', s) = self al.fresh rt os in
    elim s [ none ↦ rt' | some h ↦ acquire_key al.grow rt' h key ]

-- rz_rt_mutex_unlock
unfoldable pub mutex_unlock : Allocator → Runtime → (os key : ℕ) → Runtime
mutex_unlock al rt os key =
    let (rt', s) = self al.fresh rt os in
    elim s [ none ↦ rt' | some h ↦ release_key al.grow rt' h key ]

-- A pthread call: what it returns, and the state afterwards, since other threads run meanwhile.
abbrev pub PthreadCall : Type 0
PthreadCall = Runtime → Runtime × ℕ

-- rz_rt_pthread_mutex_lock
unfoldable pub pthread_lock : Allocator → PthreadCall → Runtime → (os key : ℕ) → Runtime × ℕ
pthread_lock al real rt os key = let (rt', rc) = real rt in (mutex_lock al rt' os key, rc)

-- rz_rt_pthread_mutex_unlock
unfoldable pub pthread_unlock : Allocator → PthreadCall → Runtime → (os key : ℕ) → Runtime × ℕ
pthread_unlock al real rt os key = real (mutex_unlock al rt os key)

-- rz_rt_pthread_mutex_trylock
unfoldable pub pthread_trylock : Allocator → PthreadCall → Runtime → (os key : ℕ) → Runtime × ℕ
pthread_trylock al real rt os key =
    let (rt', rc) = real rt in (if rc == 0 then mutex_lock al rt' os key else rt', rc)

-- rz_rt_pthread_rwlock_rdlock and _wrlock: the lock's clock is kept under the rwlock's address.
unfoldable pub pthread_rwlock_lock :
    Allocator → PthreadCall → Runtime → (os rwlock : ℕ) → Runtime × ℕ
pthread_rwlock_lock al real rt os rwlock =
    let (rt', rc) = real rt in (mutex_lock al rt' os rwlock, rc)

-- rz_rt_pthread_rwlock_tryrdlock and _trywrlock
unfoldable pub pthread_rwlock_trylock :
    Allocator → PthreadCall → Runtime → (os rwlock : ℕ) → Runtime × ℕ
pthread_rwlock_trylock al real rt os rwlock =
    let (rt', rc) = real rt in (if rc == 0 then mutex_lock al rt' os rwlock else rt', rc)

-- rz_rt_pthread_rwlock_unlock
unfoldable pub pthread_rwlock_unlock :
    Allocator → PthreadCall → Runtime → (os rwlock : ℕ) → Runtime × ℕ
pthread_rwlock_unlock al real rt os rwlock = real (mutex_unlock al rt os rwlock)

-- rz_rt_pthread_cond_wait and rz_rt_pthread_cond_timedwait
unfoldable pub pthread_cond_wait : Allocator → PthreadCall → Runtime → (os mutex : ℕ) → Runtime × ℕ
pthread_cond_wait al real rt os mutex =
    let (rt', rc) = real (mutex_unlock al rt os mutex) in (mutex_lock al rt' os mutex, rc)

-- rz_rt_atomic_acquire
unfoldable pub atomic_acquire : Allocator → Runtime → (os addr : ℕ) → Runtime
atomic_acquire al rt os addr = mutex_lock al rt os addr

-- rz_rt_atomic_release
unfoldable pub atomic_release : Allocator → Runtime → (os addr : ℕ) → Runtime
atomic_release al rt os addr = mutex_unlock al rt os addr
