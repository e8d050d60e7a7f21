-- ===== src/Race/Order.antt =====
-- The clocks follow the happens-before order (runtime/redzone_race.c): what a thread knows of is
-- within its clock.
use redzone.Prelude.{
  ℕ, ◌+◌, ◌≤◌, ◌<◌, ◌≡◌, ◌≢◌, ◌∙◌, ap, arith, inl, inr, Bool, some, [], ◌∷◌, ◌==◌, length,
  Bool-cases,
}
use redzone.Prelude.Bits.{u64_mod}
use redzone.Report.{File}
use redzone.Race.{
  VectorClock, vc_tick, vc_join, thread_init, mutex_release, mutex_acquire, thread_create,
  thread_join,
}
use redzone.Race.Clock.{vc_join_lem, vc_tick_lem}
use redzone.Race.Cells.{RaceState, race_access_loc}
use redzone.Race.Trace.{
  Event, start, access, acquire, release, create, join, Detector, step, Trace, run, event_at,
  spawned, Place, thread, lock, Knows, clock_of, stamp, epoch_at,
}
use redzone.Race.Upper.{clock_le}

tick_ge : (c : VectorClock) (t u : ℕ) → c t + 1 < u64_mod → c u ≤ vc_tick c t u
tick_ge c t u small = ground (arith, vc_tick_lem c t u)

join_ge_left : (c d : VectorClock) (u : ℕ) → c u ≤ vc_join c d u
join_ge_left c d u = ground (arith, vc_join_lem c d u)

join_ge_right : (c d : VectorClock) (u : ℕ) → u < 64 → d u ≤ vc_join c d u
join_ge_right c d u h = ground (arith, vc_join_lem c d u)

-- One step, if no entry is at its last epoch and `epoch` is within the clock of all that know.
module _ (tr : Trace) (d : Detector) (n u epoch : ℕ) (tracked : u < 64)
    (small : (t v : ℕ) → d.clocks t v + 1 < u64_mod) (fresh : d.state.next_tid ≡ spawned tr)
    (ih : (p : Place) → Knows tr p n → epoch ≤ clock_of d p u) where
  Knows-step_lock : (e : Event) (m : ℕ) → Knows (e ∷ tr) (lock m) n → epoch ≤ (step d e).locks m u
  unfolding step mutex_release
  Knows-step_lock (release v k) m (inl h) =
      ground (arith, ih (lock m) h, join_ge_left (d.locks k) (d.clocks v) u)
  Knows-step_lock (release v k) m (inr (e, h)) =
      ground (arith, e, ih (thread v) h, join_ge_right (d.locks k) (d.clocks v) u tracked)
  Knows-step_lock start m h = ih (lock m) h
  Knows-step_lock (access v addr w f l) m h = ih (lock m) h
  Knows-step_lock (acquire v k) m h = ih (lock m) h
  Knows-step_lock (create p) m h = ih (lock m) h
  Knows-step_lock (join p c) m h = ih (lock m) h

  Knows-step_thread :
      (e : Event) (t : ℕ)
      → n ≢ length tr
      → Knows (e ∷ tr) (thread t) n
      → epoch ≤ (step d e).clocks t u
  unfolding step thread_init mutex_release mutex_acquire thread_create thread_join
  Knows-step_thread start t old h = elim (Bool-cases (t == spawned tr)) [
    | inl e ↦ absurd (rw e at h)
    | inr e ↦
        let h' : Knows tr (thread t) n = rw e at h in ground (arith, e, fresh, ih (thread t) h')
  ]
  Knows-step_thread (access v addr w f l) t old (inl (e, now)) = absurd (old now)
  Knows-step_thread (access v addr w f l) t old (inr h) = ih (thread t) h
  Knows-step_thread (acquire v k) t old (inl h) =
      ground (arith, ih (thread t) h, join_ge_left (d.clocks v) (d.locks k) u)
  Knows-step_thread (acquire v k) t old (inr (e, h)) =
      ground (arith, e, ih (lock k) h, join_ge_right (d.clocks v) (d.locks k) u tracked)
  Knows-step_thread (release v k) t old h =
      ground (arith, ih (thread t) h, tick_ge (d.clocks v) v u (small v v))
  Knows-step_thread (create p) t old h = elim (Bool-cases (t == spawned tr)) [
    | inl e ↦
        let h' : Knows tr (thread p) n = rw e at h in
        ground (
          arith,
          e,
          fresh,
          ih (thread p) h',
          tick_ge (d.clocks p) d.state.next_tid u (small p d.state.next_tid),
        )
    | inr e ↦
        let h' : Knows tr (thread t) n = rw e at h in
        ground (arith, e, fresh, ih (thread t) h', tick_ge (d.clocks p) p u (small p p))
  ]
  Knows-step_thread (join p c) t old (inl h) =
      ground (arith, ih (thread t) h, join_ge_left (d.clocks p) (d.clocks c) u)
  Knows-step_thread (join p c) t old (inr (e, h)) =
      ground (arith, e, ih (thread c) h, join_ge_right (d.clocks p) (d.clocks c) u tracked)

  Knows-step :
      (e : Event) (p : Place) → n ≢ length tr → Knows (e ∷ tr) p n → epoch ≤ clock_of (step d e) p u
  Knows-step e (thread t) old h = Knows-step_thread e t old h
  Knows-step e (lock m) old h = Knows-step_lock e m h

pub Knows-lt : (tr : Trace) (p : Place) (n : ℕ) → Knows tr p n → n < length tr
Knows-lt [] p n h = elim h [ ]
Knows-lt (start ∷ tr) (thread t) n h = elim (Bool-cases (t == spawned tr)) [
  | inl e ↦ absurd (rw e at h)
  | inr e ↦ let h' : Knows tr (thread t) n = rw e at h in omega (arith, Knows-lt tr (thread t) n h')
]
Knows-lt (create q ∷ tr) (thread t) n h = elim (Bool-cases (t == spawned tr)) [
  | inl e ↦ let h' : Knows tr (thread q) n = rw e at h in omega (arith, Knows-lt tr (thread q) n h')
  | inr e ↦ let h' : Knows tr (thread t) n = rw e at h in omega (arith, Knows-lt tr (thread t) n h')
]
Knows-lt (access v addr w f l ∷ tr) (thread t) n (inl e) = omega arith
Knows-lt (access v addr w f l ∷ tr) (thread t) n (inr h) = omega (arith, Knows-lt tr (thread t) n h)
Knows-lt (acquire v k ∷ tr) (thread t) n (inl h) = omega (arith, Knows-lt tr (thread t) n h)
Knows-lt (acquire v k ∷ tr) (thread t) n (inr h) = omega (arith, Knows-lt tr (lock k) n h.1)
Knows-lt (release v k ∷ tr) (thread t) n h = omega (arith, Knows-lt tr (thread t) n h)
Knows-lt (join q c ∷ tr) (thread t) n (inl h) = omega (arith, Knows-lt tr (thread t) n h)
Knows-lt (join q c ∷ tr) (thread t) n (inr h) = omega (arith, Knows-lt tr (thread c) n h.1)
Knows-lt (release v k ∷ tr) (lock m) n (inl h) = omega (arith, Knows-lt tr (lock m) n h)
Knows-lt (release v k ∷ tr) (lock m) n (inr h) = omega (arith, Knows-lt tr (thread v) n h.1)
Knows-lt (start ∷ tr) (lock m) n h = omega (arith, Knows-lt tr (lock m) n h)
Knows-lt (access v addr w f l ∷ tr) (lock m) n h = omega (arith, Knows-lt tr (lock m) n h)
Knows-lt (acquire v k ∷ tr) (lock m) n h = omega (arith, Knows-lt tr (lock m) n h)
Knows-lt (create q ∷ tr) (lock m) n h = omega (arith, Knows-lt tr (lock m) n h)
Knows-lt (join q c ∷ tr) (lock m) n h = omega (arith, Knows-lt tr (lock m) n h)

-- An access gives out no thread id.
pub access_next_tid :
    (s : RaceState) (t addr : ℕ) (c : VectorClock) (w : Bool) (f : File) (l : ℕ)
    → (race_access_loc s (record { tid = t; clock = c }) addr w f l).0.next_tid ≡ s.next_tid
unfolding race_access_loc
access_next_tid s t addr c w f l = ground arith

pub next_tid_lem :
    (s : RaceState) (tr : Trace) → s.next_tid ≡ 0 → (run s tr).state.next_tid ≡ spawned tr
unfolding run step spawned
next_tid_lem s [] z = z
next_tid_lem s (start ∷ tr) z = ap (λ (i : ℕ). i + 1) (next_tid_lem s tr z)
next_tid_lem s (create p ∷ tr) z = ap (λ (i : ℕ). i + 1) (next_tid_lem s tr z)
next_tid_lem s (access t addr w f l ∷ tr) z =
    access_next_tid (run s tr).state t addr ((run s tr).clocks t) w f l ∙ next_tid_lem s tr z
next_tid_lem s (acquire t m ∷ tr) z = next_tid_lem s tr z
next_tid_lem s (release t m ∷ tr) z = next_tid_lem s tr z
next_tid_lem s (join p c ∷ tr) z = next_tid_lem s tr z

-- The newest event is known only to its own actor, whose clock has its epoch.
Knows-now :
    (s : RaceState) (tr : Trace) (p : Place) (n u addr : ℕ) (w : Bool) (f : File) (l : ℕ)
    (x : Event)
    → n ≡ length tr
    → some x ≡ some (access u addr w f l)
    → Knows (x ∷ tr) p n
    → stamp (run s tr) x ≤ clock_of (step (run s tr) x) p u
unfolding step
Knows-now s tr (thread t) n u addr w f l (access v a w' f' l') now e (inl h) = ground arith
Knows-now s tr (thread t) n u addr w f l (access v a w' f' l') now e (inr h) =
    absurd (omega (arith, Knows-lt tr (thread t) n h))
Knows-now s tr (lock m) n u addr w f l (access v a w' f' l') now e h =
    absurd (omega (arith, Knows-lt tr (lock m) n h))
Knows-now s tr p n u addr w f l start now e h = cc
Knows-now s tr p n u addr w f l (acquire v k) now e h = cc
Knows-now s tr p n u addr w f l (release v k) now e h = cc
Knows-now s tr p n u addr w f l (create q) now e h = cc
Knows-now s tr p n u addr w f l (join q c) now e h = cc

-- When thread ids count from 0, after a trace of fewer than 2 ^ 64 events: an access of a thread
-- below 64 that a thread or a lock knows of, in the happens-before order, has an epoch that is at
-- most that thread's entry in the clock of the thread or lock.
pub Knows-le :
    (s : RaceState) (tr : Trace) (p : Place) (n u addr : ℕ) (w : Bool) (f : File) (l : ℕ)
    → s.next_tid ≡ 0
    → length tr < u64_mod
    → u < 64
    → event_at tr n ≡ some (access u addr w f l)
    → Knows tr p n
    → epoch_at s tr n ≤ clock_of (run s tr) p u
unfolding run event_at epoch_at
Knows-le s [] p n u addr w f l z small tracked e h = ground arith
Knows-le s (x ∷ tr) p n u addr w f l z small tracked e h = elim (Bool-cases (n == length tr)) [
  | inl now ↦
      let at : n ≡ length tr = ground arith in
      let e' : some x ≡ some (access u addr w f l) = rw now at e in
      rw now (Knows-now s tr p n u addr w f l x at e' h)
  | inr before ↦
      let e' : event_at tr n ≡ some (access u addr w f l) = rw before at e in
      rw before (
        Knows-step tr (run s tr) n u (epoch_at s tr n) tracked
          (λ t v. omega (arith, clock_le s tr t v (omega arith))) (next_tid_lem s tr z)
          (λ q k. Knows-le s tr q n u addr w f l z (omega arith) tracked e' k) x p (ground arith) h)
]
