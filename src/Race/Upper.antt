-- ===== src/Race/Upper.antt =====
-- No clock runs ahead of the trace (runtime/redzone_race.c): an entry is at most the number of
-- events.
use redzone.Prelude.{ℕ, ◌+◌, ◌≤◌, ◌<◌, arith, [], ◌∷◌, length}
use redzone.Prelude.Bits.{u64_mod}
use redzone.Race.{
  VectorClock, vc_init, vc_tick, vc_join, thread_init, mutex_release, mutex_acquire, thread_create,
  thread_join,
}
use redzone.Race.Clock.{vc_join_lem, vc_tick_lem}
use redzone.Race.Cells.{RaceState}
use redzone.Race.Trace.{
  Event, start, access, acquire, release, create, join, Detector, step, Trace, run,
}

tick_le :
    (c : VectorClock) (t u b : ℕ) → ((v : ℕ) → c v ≤ b) → b + 1 < u64_mod → vc_tick c t u ≤ b + 1
tick_le c t u b h small = ground (arith, vc_tick_lem c t u, h t, h u)

join_le : (c d : VectorClock) (u b : ℕ) → c u ≤ b → d u ≤ b → vc_join c d u ≤ b
join_le c d u b h k = ground (arith, vc_join_lem c d u)

module _ (d : Detector) (b : ℕ) (small : b + 1 < u64_mod) (threads : (t u : ℕ) → d.clocks t u ≤ b)
    (locks : (m u : ℕ) → d.locks m u ≤ b) where
  step_clocks : (e : Event) (t u : ℕ) → (step d e).clocks t u ≤ b + 1
  unfolding step thread_init mutex_release mutex_acquire thread_create thread_join
  step_clocks start t u =
      ground (arith, threads t u, tick_le vc_init d.state.next_tid u b (λ v. omega arith) small)
  step_clocks (access v addr w f l) t u = ground (arith, threads t u)
  step_clocks (acquire v m) t u =
      ground (arith, threads t u, join_le (d.clocks v) (d.locks m) u b (threads v u) (locks m u))
  step_clocks (release v m) t u =
      ground (arith, threads t u, tick_le (d.clocks v) v u b (threads v) small)
  step_clocks (create p) t u = ground (
    arith,
    threads t u,
    tick_le (d.clocks p) p u b (threads p) small,
    tick_le (d.clocks p) d.state.next_tid u b (threads p) small,
  )
  step_clocks (join p c) t u =
      ground (arith, threads t u, join_le (d.clocks p) (d.clocks c) u b (threads p u) (threads c u))

  step_locks : (e : Event) (m u : ℕ) → (step d e).locks m u ≤ b + 1
  unfolding step mutex_release
  step_locks (release v k) m u =
      ground (arith, locks m u, join_le (d.locks k) (d.clocks v) u b (locks k u) (threads v u))
  step_locks start m u = omega (arith, locks m u)
  step_locks (access v addr w f l) m u = omega (arith, locks m u)
  step_locks (acquire v k) m u = omega (arith, locks m u)
  step_locks (create p) m u = omega (arith, locks m u)
  step_locks (join p c) m u = omega (arith, locks m u)

-- No epoch exceeds the number of events, so none wraps in a trace of fewer than 2 ^ 64 events.
mutual
  unfolding run

  pub clock_le :
      (s : RaceState) (tr : Trace) (t u : ℕ)
      → length tr < u64_mod
      → (run s tr).clocks t u ≤ length tr
  clock_le s [] t u h = omega arith
  clock_le s (e ∷ tr) t u h =
      let r =
        step_clocks (run s tr) (length tr) (omega arith) (λ v w. clock_le s tr v w (omega arith))
          (λ v w. lock_le s tr v w (omega arith)) e t u in
      omega (arith, r)

  pub lock_le :
      (s : RaceState) (tr : Trace) (m u : ℕ)
      → length tr < u64_mod
      → (run s tr).locks m u ≤ length tr
  lock_le s [] m u h = omega arith
  lock_le s (e ∷ tr) m u h =
      let r =
        step_locks (run s tr) (length tr) (omega arith) (λ v w. clock_le s tr v w (omega arith))
          (λ v w. lock_le s tr v w (omega arith)) e m u in
      omega (arith, r)
