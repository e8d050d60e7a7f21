-- ===== src/Registry/World/Steps.antt =====
-- Every run of a threaded program on the race runtime (runtime/redzone_race_rt.c) is a run of the
-- engine in each shard (runtime/redzone_race.c).
use redzone.Prelude.{ℕ, ◌*◌, ◌^◌, ◌<◌, ◌≡◌, sym, ◌∙◌, arith, Bool, some, length}
use redzone.Prelude.Bits.{u64, u64_mod}
use redzone.Report.{File}
use redzone.Race.{Cell, Thread}
use redzone.Race.Cells.{race_access_loc}
use redzone.Registry.{shard_of}
use redzone.Registry.Runtime.{Runtime}
use redzone.Registry.Runtime.Start.{race_access_loc-Race}
use redzone.Registry.World.{
  World, begin, Next, attach, touch, count, lock, unlock, fork, forked, fork_failed, started, exit,
  joined, joined_unknown, Reaches, here, later,
}
use redzone.Registry.World.Shards.{shard_events, shard_events-length, Race-lifted}
use redzone.Registry.World.Tracks.{Tracks, apart}
use redzone.Registry.World.Handles.{own_thread_lem}
use redzone.Registry.World.Sync.{lock-Tracks, unlock-Tracks, touch-Tracks, count-Tracks}
use redzone.Registry.World.Life.{begin-Tracks, attach-Tracks, exit-Tracks}
use redzone.Registry.World.Fork.{fork-Tracks, forked-Tracks, fork_failed-Tracks, started-Tracks}
use redzone.Registry.World.Join.{
  take_thread-named, joined-Tracks, unknown-Tracks, join_end_known, join_end_unknown,
}
use redzone.Race.Sound.{Race}

some-inj : {a b : Runtime} → some a ≡ some b → a ≡ b
some-inj e = ground (arith, e)

-- Each step of a run keeps it: every shard has what the engine's detector has after the events that
-- the shard sees, the next thread id is the detectors', and each handle in use is allocated.
pub Next-Tracks : (room : ℕ → Bool) {w u : World} → Next w u → Tracks room w → Tracks room u
Next-Tracks room {w} (attach os h new free) t = attach-Tracks room w t os h free
Next-Tracks room {w} (touch sc os h word is_write f l mine small same) t =
    touch-Tracks room w t os h mine sc word is_write f l small same
Next-Tracks room {w} (count sc tid line same) t = count-Tracks room w sc tid line t same
Next-Tracks room {w} (lock al os h key mine grow) t = lock-Tracks room w t os h mine al key grow
Next-Tracks room {w} (unlock al os h key mine grow) t = unlock-Tracks room w t os h mine al key grow
Next-Tracks room {w} (fork os p c mine free) t = fork-Tracks room w t os p c mine free
Next-Tracks room {w} (forked thr c is fresh) t = forked-Tracks room w t thr c is fresh
Next-Tracks room {w} (fork_failed thr c rc is no_name failed) t =
    fork_failed-Tracks room w t thr c rc is no_name failed
Next-Tracks room {w} (started os c is) t = started-Tracks room w t os c is
Next-Tracks room {w} (exit os) t = exit-Tracks room w t os
Next-Tracks room {w} (joined thr os p c mine named begun ended same) t =
    let taken = take_thread-named room w t thr ∙ named in
    rw (← some-inj (sym (join_end_known thr p c w.runtime taken) ∙ same))
      (joined-Tracks room w t thr os p c mine named begun ended)
Next-Tracks room {w} (joined_unknown thr os p mine nobody same) t =
    let missing = take_thread-named room w t thr ∙ nobody in
    rw (← some-inj (sym (join_end_unknown thr p w.runtime missing) ∙ same))
      (unknown-Tracks room w t thr nobody)

pub Reaches-Tracks : (room : ℕ → Bool) {w u : World} → Reaches w u → Tracks room w → Tracks room u
Reaches-Tracks room here t = t
Reaches-Tracks room (later r n) t = Next-Tracks room n (Reaches-Tracks room r t)

pub run-Tracks :
    (room : ℕ → Bool) (verbose : Bool) (objects : ℕ → Thread) (os h : ℕ) {w : World}
    → Reaches (begin room verbose objects os h) w
    → Tracks room w
run-Tracks room verbose objects os h r =
    Reaches-Tracks room r (begin-Tracks room verbose objects os h)

-- The word's shard reports an access only if it is a race of the run.
pub word-Race :
    (room : ℕ → Bool) (w : World) (os h word : ℕ) (is_write : Bool) (f : File) (l : ℕ) (prev : Cell)
    → Tracks room w
    → w.runtime.selfs os ≡ some h
    → length w.trace < u64_mod
    → (race_access_loc
        (w.runtime.shards (shard_of word))
        (w.runtime.objects h)
        (u64 (word * 2 ^ 3))
        is_write
        f
        l).1
      ≡ some prev
    → Race w.trace (w.runtime.objects h).tid (u64 (word * 2 ^ 3)) is_write prev
word-Race room w os h word is_write f l prev t mine small e =
    let k = shard_of word in
    let own = own_thread_lem w.allocated h (t.installed os h mine).0 in
    let seen =
      race_access_loc-Race room (λ i. shard_events i w.trace) (apart w.runtime w.allocated) h h word
        is_write f l prev t.engine own (omega (arith, shard_events-length k w.trace)) e in
    Race-lifted k w.trace (w.runtime.objects h).tid (u64 (word * 2 ^ 3)) is_write prev seen
