-- ===== src/Registry/World/Tracks.antt =====
-- What holds after every step of a run (runtime/redzone_race_rt.c): the runtime keeps, in each shard,
-- what the engine's detector has after the events that the shard sees.
use redzone.Prelude.{ℕ, ◌≤◌, ◌<◌, ◌≡◌, Bool, true, false, Option, none, some, if◌then◌else◌, ◌==◌}
use redzone.Race.Trace.{Detector, Trace}
use redzone.Registry.Runtime.{Runtime}
use redzone.Registry.Runtime.Refine.{Refines}
use redzone.Registry.Runtime.Start.{shard_trace}
use redzone.Registry.World.{World}
use redzone.Registry.World.Shards.{shard_events}
use redzone.Registry.World.Taken.{held, entered}

-- The detectors of the shards after a run
abbrev pub detectors : (ℕ → Bool) → Trace → ℕ → Detector
detectors room tr = shard_trace room (λ k. shard_events k tr)

-- Each allocated rz_thread as the handle of a thread of its own
abbrev pub own_thread : (ℕ → Bool) → ℕ → Option ℕ
own_thread allocated h = if allocated h then some h else none

abbrev pub apart : Runtime → (ℕ → Bool) → Runtime
apart rt allocated = record rt { selfs = own_thread allocated }

-- 1 if a pthread_t is the handle's, 0 if not
abbrev pub one_if : Option ℕ → ℕ → ℕ
one_if none h = 0
one_if (some c) h = if c == h then 1 else 0

-- The handles of running threads and of the table are allocated, those of running threads are not
-- waiting for their thread, and those of the table not for their name; the table has each at most
-- once, and has exactly one entry for each pthread_t that can be joined, with the handle of the thread.
pub record Tracks (room : ℕ → Bool) (w : World) : Type 0 where
  pub engine : Refines (apart w.runtime w.allocated) (detectors room w.trace)
  pub next : (k : ℕ) → (detectors room w.trace k).state.next_tid ≡ w.runtime.next_tid
  pub below : (h : ℕ) → w.allocated h ≡ true → (w.runtime.objects h).tid < w.runtime.next_tid
  pub installed :
      (os h : ℕ) → w.runtime.selfs os ≡ some h → (w.allocated h ≡ true) × (w.pending h ≡ false)
  pub listed :
      (h : ℕ) → 0 < held w.runtime.registry h → (w.allocated h ≡ true) × (w.unnamed h ≡ false)
  pub once : (h : ℕ) → held w.runtime.registry h ≤ 1
  pub waiting : (h : ℕ) → w.pending h ≡ true → w.allocated h ≡ true
  pub created : (h : ℕ) → w.unnamed h ≡ true → w.allocated h ≡ true
  pub names : (x h : ℕ) → entered w.runtime.registry x h ≡ one_if (w.named x) h
