-- ===== src/Registry/World.antt =====
-- Runs of a threaded program on the race runtime (runtime/redzone_race_rt.c): each step is one
-- operation of the runtime by some thread, or a part of one that its locks make atomic, in any order.
-- Beside the runtime stand the rz_threads that are allocated, those whose thread has not begun to run,
-- those whose pthread_create has not returned, the rz_thread of each pthread_t that can be joined, and,
-- with no clocks, what the program has done. No thread is detached.
pub mod Shards
pub mod Taken
pub mod Tracks
pub mod Handles
pub mod Sync
pub mod Life
pub mod Fork
pub mod Join
pub mod Steps
pub mod Accesses
pub mod Scans
pub mod Calls
use redzone.Prelude.{
  ℕ, ◌+◌, ◌*◌, ◌^◌, ◌<◌, ◌≡◌, ◌≢◌, Bool, true, false, Option, none, some, [], ◌∷◌, update,
}
use redzone.Prelude.Bits.{u64}
use redzone.Report.{File}
use redzone.Race.{Thread}
use redzone.Race.Trace.{Trace, start, access, acquire, release, create, join}
use redzone.Registry.Runtime.{
  Runtime, Allocator, register_thread, init_once, mutex_lock, mutex_unlock,
}
use redzone.Registry.Runtime.Access.{Scan, scan_word, count_hits}
use redzone.Registry.Runtime.Start.{zeroed}
use redzone.Registry.Runtime.Threads.{create_begin, create_end, join_end, trampoline}

pub record World : Type 0 where
  pub runtime : Runtime
  pub allocated : ℕ → Bool
  pub pending : ℕ → Bool
  pub unnamed : ℕ → Bool
  pub named : ℕ → Option ℕ
  pub trace : Trace

-- After init_once by the thread `os`, for which calloc gave the rz_thread at `h`
abbrev pub begin : (ℕ → Bool) → Bool → (ℕ → Thread) → (os h : ℕ) → World
begin room verbose objects os h = record {
  runtime = init_once room verbose (some h) (zeroed objects) os;
  allocated = update (λ _. false) h true;
  pending = λ _. false;
  unnamed = λ _. false;
  named = λ _. none;
  trace = start ∷ [];
}

-- One step of some thread `os`. The allocator gives memory, and gives an rz_thread where none is
-- allocated; pthread_join returns once the joined thread has ended.
pub data Next (w : World) : World → Type 0 where
  -- self, by a thread that has no handle yet
  attach :
      (os h : ℕ)
      → w.runtime.selfs os ≡ none
      → w.allocated h ≡ false
      → Next w (record {
        runtime = register_thread w.runtime os h;
        allocated = update w.allocated h true;
        pending = w.pending;
        unnamed = w.unnamed;
        named = w.named;
        trace = start ∷ w.trace;
      })
  -- a word of an access
  touch :
      (sc : Scan) (os h word : ℕ) (is_write : Bool) (f : File) (l : ℕ)
      → w.runtime.selfs os ≡ some h
      → word < 2 ^ 61
      → sc.shards ≡ w.runtime.shards
      → Next w (record w {
        runtime = record (w.runtime) {
          shards = (scan_word sc (w.runtime.objects h) word is_write f l).shards;
        };
        trace = access (w.runtime.objects h).tid (u64 (word * 2 ^ 3)) is_write f l ∷ w.trace;
      })
  -- what follows the words of an access
  count :
      (sc : Scan) (tid line : ℕ)
      → sc.shards ≡ w.runtime.shards
      → Next w (record w { runtime = (count_hits w.runtime sc tid line).0 })
  lock :
      (al : Allocator) (os h key : ℕ)
      → w.runtime.selfs os ≡ some h
      → al.grow ≡ true
      → Next w (record w {
        runtime = mutex_lock al w.runtime os key;
        trace = acquire (w.runtime.objects h).tid key ∷ w.trace;
      })
  unlock :
      (al : Allocator) (os h key : ℕ)
      → w.runtime.selfs os ≡ some h
      → al.grow ≡ true
      → Next w (record w {
        runtime = mutex_unlock al w.runtime os key;
        trace = release (w.runtime.objects h).tid key ∷ w.trace;
      })
  -- pthread_create before its pthread call, and after it
  fork :
      (os p c : ℕ)
      → w.runtime.selfs os ≡ some p
      → w.allocated c ≡ false
      → Next w (record {
        runtime = create_begin w.runtime p c;
        allocated = update w.allocated c true;
        pending = update w.pending c true;
        unnamed = update w.unnamed c true;
        named = w.named;
        trace = create (w.runtime.objects p).tid ∷ w.trace;
      })
  forked :
      (thr c : ℕ)
      → w.unnamed c ≡ true
      → w.named thr ≡ none
      → Next w (record w {
        runtime = create_end true thr c w.runtime 0;
        unnamed = update w.unnamed c false;
        named = update w.named thr (some c);
      })
  fork_failed :
      (thr c rc : ℕ)
      → w.pending c ≡ true
      → w.unnamed c ≡ true
      → rc ≢ 0
      → Next w (record w {
        runtime = create_end true thr c w.runtime rc;
        allocated = update w.allocated c false;
        pending = update w.pending c false;
        unnamed = update w.unnamed c false;
      })
  -- the new thread, before or after its pthread_create has returned
  started :
      (os c : ℕ)
      → w.pending c ≡ true
      → Next w
          (record w { runtime = trampoline w.runtime os c; pending = update w.pending c false })
  -- the end of a thread
  exit :
      (os : ℕ)
      → Next w
          (record w { runtime = record (w.runtime) { selfs = update w.runtime.selfs os none } })
  -- pthread_join after its pthread call, of the thread with the handle `c`, which has run and ended,
  -- and of a thread that has none
  joined :
      (thr os p c : ℕ) {rt : Runtime}
      → w.runtime.selfs os ≡ some p
      → w.named thr ≡ some c
      → w.pending c ≡ false
      → ((o : ℕ) → w.runtime.selfs o ≢ some c)
      → join_end thr w.runtime (some p) ≡ some rt
      → Next w (record w {
        runtime = rt;
        allocated = update w.allocated c false;
        named = update w.named thr none;
        trace = join (w.runtime.objects p).tid (w.runtime.objects c).tid ∷ w.trace;
      })
  joined_unknown :
      (thr os p : ℕ) {rt : Runtime}
      → w.runtime.selfs os ≡ some p
      → w.named thr ≡ none
      → join_end thr w.runtime (some p) ≡ some rt
      → Next w (record w { runtime = rt })

pub data Reaches (w : World) : World → Type 0 where
  here : Reaches w w
  later : {v u : World} → Reaches w v → Next v u → Reaches w u
