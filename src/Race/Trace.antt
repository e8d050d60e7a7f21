-- ===== src/Race/Trace.antt =====
-- Runs of the race detector of runtime/redzone_race.c: a program's events drive its operations one
-- after the other. Beside it, with no clock, what has happened before what.
use redzone.Prelude.{
  ℕ, ◌+◌, ◌≡◌, ◌⊎◌, Bool, Option, none, some, List, [], ◌∷◌, ◌==◌, if◌then◌else◌, update, length,
}
use redzone.Report.{File}
use redzone.Race.{
  VectorClock, vc_init, Cell, Thread, thread_init, mutex_release, mutex_acquire, thread_create,
  thread_join,
}
use redzone.Race.Cells.{RaceState, race_access_loc, cur_epoch}

-- What a program does, as far as the detector sees it; a thread is named by its id, a lock (or an
-- atomic object) by a number.
pub data Event : Type 0 where
  start : Event
  access : (t addr : ℕ) → Bool → File → ℕ → Event
  acquire : (t m : ℕ) → Event
  release : (t m : ℕ) → Event
  create : (parent : ℕ) → Event
  join : (parent child : ℕ) → Event

-- The detector: its shadow and next id, and the clocks of threads and locks.
pub record Detector : Type 0 where
  pub state : RaceState
  pub clocks : ℕ → VectorClock
  pub locks : ℕ → VectorClock

abbrev pub thread_of : Detector → ℕ → Thread
thread_of d t = record { tid = t; clock = d.clocks t }

abbrev pub put_thread : Detector → Thread → Detector
put_thread d t = record d { clocks = update d.clocks t.tid t.clock }

abbrev pub take_tid : Detector → Detector
take_tid d = record d { state = record (d.state) { next_tid = d.state.next_tid + 1 } }

-- One event, by the operation that the source performs for it.
unfoldable pub step : Detector → Event → Detector
step d start = put_thread (take_tid d) (thread_init d.state.next_tid)
step d (access t addr is_write file line) = record d {
  state = (race_access_loc d.state (thread_of d t) addr is_write file line).0;
}
step d (acquire t m) = put_thread d (mutex_acquire (thread_of d t) (d.locks m))
step d (release t m) =
    let r = mutex_release (thread_of d t) (d.locks m) in
    put_thread (record d { locks = update d.locks m r.1 }) r.0
step d (create p) =
    let r = thread_create d.state.next_tid (thread_of d p) in
    put_thread (put_thread (take_tid d) r.0) r.1
step d (join p c) = put_thread d (thread_join (thread_of d p) (thread_of d c))

-- A trace is the list of its events, the newest first.
abbrev pub Trace : Type 0
Trace = List Event

unfoldable pub run : RaceState → Trace → Detector
run s [] = record { state = s; clocks = λ _. vc_init; locks = λ _. vc_init }
run s (e ∷ tr) = step (run s tr) e

-- The race that an access is reported with after a trace.
abbrev pub reported : RaceState → Trace → (t addr : ℕ) → Bool → File → ℕ → Option Cell
reported s tr t addr is_write file line =
    let d = run s tr in (race_access_loc d.state (thread_of d t) addr is_write file line).1

-- The `n`-th event of a trace, counted from the oldest.
unfoldable pub event_at : Trace → ℕ → Option Event
event_at [] n = none
event_at (e ∷ tr) n = if n == length tr then some e else event_at tr n

-- The id that the next thread gets.
unfoldable pub spawned : Trace → ℕ
spawned [] = 0
spawned (start ∷ tr) = spawned tr + 1
spawned (create p ∷ tr) = spawned tr + 1
spawned (_ ∷ tr) = spawned tr

-- Who can know of an event: a thread, or a lock that carries what was published in it.
pub data Place : Type 0 where
  thread : ℕ → Place
  lock : ℕ → Place

-- The happens-before order: the `n`-th event happens before what `place` does next. A thread knows
-- its own accesses; a release hands all that it knows to the lock, an acquire takes what the lock
-- holds, a new thread begins with what its parent knows, and a join takes what the child knows.
abbrev pub Knows : Trace → Place → ℕ → Type 0
Knows [] p n = ⊥
Knows (start ∷ tr) (thread t) n = if t == spawned tr then ⊥ else Knows tr (thread t) n
Knows (start ∷ tr) (lock m) n = Knows tr (lock m) n
Knows (access u addr w f l ∷ tr) (thread t) n = ((t ≡ u) × (n ≡ length tr)) ⊎ Knows tr (thread t) n
Knows (access u addr w f l ∷ tr) (lock m) n = Knows tr (lock m) n
Knows (acquire u k ∷ tr) (thread t) n = Knows tr (thread t) n ⊎ ((t ≡ u) × Knows tr (lock k) n)
Knows (acquire u k ∷ tr) (lock m) n = Knows tr (lock m) n
Knows (release u k ∷ tr) (thread t) n = Knows tr (thread t) n
Knows (release u k ∷ tr) (lock m) n = Knows tr (lock m) n ⊎ ((m ≡ k) × Knows tr (thread u) n)
Knows (create p ∷ tr) (thread t) n =
    if t == spawned tr then Knows tr (thread p) n else Knows tr (thread t) n
Knows (create p ∷ tr) (lock m) n = Knows tr (lock m) n
Knows (join p c ∷ tr) (thread t) n = Knows tr (thread t) n ⊎ ((t ≡ p) × Knows tr (thread c) n)
Knows (join p c ∷ tr) (lock m) n = Knows tr (lock m) n

abbrev pub clock_of : Detector → Place → VectorClock
clock_of d (thread t) = d.clocks t
clock_of d (lock m) = d.locks m

-- The epoch of the actor when the `n`-th event happened.
abbrev pub stamp : Detector → Event → ℕ
stamp d (access t addr w f l) = cur_epoch (thread_of d t)
stamp d _ = 0

unfoldable pub epoch_at : RaceState → Trace → ℕ → ℕ
epoch_at s [] n = 0
epoch_at s (e ∷ tr) n = if n == length tr then stamp (run s tr) e else epoch_at s tr n
