-- ===== src/Registry/World/Sync.antt =====
-- The steps of a run that start no thread (runtime/redzone_race_rt.c): accesses and locks.
use redzone.Prelude.{
  ℕ, ◌*◌, ◌^◌, ◌<◌, ◌≡◌, refl, sym, ap, ◌∙◌, arith, inl, inr, Bool, true, some, ◌∷◌, ◌==◌, fun_ext,
  get_elem?, Bool-cases, Option-cases,
}
use mathlib.Core.Path.{subst}
use redzone.Prelude.Bits.{u64}
use redzone.Report.{File}
use redzone.Race.{mutex_acquire, mutex_release}
use redzone.Race.Cells.{word_of}
use redzone.Race.Order.{access_next_tid}
use redzone.Race.Trace.{Trace, step, run, access, acquire, release}
use redzone.Registry.{shard_of, sync_shard_of, sync_for_in}
use redzone.Registry.Runtime.{
  Runtime, Allocator, acquire_key, release_key, mutex_lock, mutex_unlock,
}
use redzone.Registry.Runtime.Access.{Scan, scan_word, count_hits}
use redzone.Registry.Runtime.Refine.{
  Refines, acquire_key_lem, release_key_lem, mutex_lock_lem, mutex_unlock_lem, mutex_lock-Refines,
  mutex_unlock-Refines,
}
use redzone.Registry.Runtime.Words.{step_shard, scan_word-Refines}
use redzone.Registry.World.{World}
use redzone.Registry.World.Shards.{shard_events}
use redzone.Registry.World.Tracks.{detectors, own_thread, apart, Tracks}

-- The locks know a thread's handle alone.
acquire_key-apart :
    (rt : Runtime) (allocated : ℕ → Bool) (h key : ℕ)
    → acquire_key true (apart rt allocated) h key ≡ apart (acquire_key true rt h key) allocated
acquire_key-apart rt allocated h key =
    rw (acquire_key_lem (apart rt allocated) h key, acquire_key_lem rt h key)

release_key-apart :
    (rt : Runtime) (allocated : ℕ → Bool) (h key : ℕ)
    → release_key true (apart rt allocated) h key ≡ apart (release_key true rt h key) allocated
unfolding release_key
release_key-apart rt allocated h key =
    let found = sync_for_in true (rt.syncs (sync_shard_of key)) key in
    elim (Option-cases found.1) [
      | inl e ↦ rw (e, release_key)
      | inr (i, e) ↦ elim (Option-cases (get_elem? found.0.entries i)) [
        | inl e' ↦ rw (e, release_key, e')
        | inr (x, e') ↦ rw (e, release_key, e')
      ]
    ]

-- What an operation on a lock leaves as it is
record Kept (rt rt' : Runtime) : Type 0 where
  selfs : rt'.selfs ≡ rt.selfs
  registry : rt'.registry ≡ rt.registry
  next : rt'.next_tid ≡ rt.next_tid
  tids : (h : ℕ) → (rt'.objects h).tid ≡ (rt.objects h).tid

acquire_key-Kept : (rt : Runtime) (h key : ℕ) → Kept rt (acquire_key true rt h key)
unfolding mutex_acquire
acquire_key-Kept rt h key = rw (acquire_key_lem rt h key) (record {
  selfs = refl;
  registry = refl;
  next = refl;
  tids = λ x. elim (Bool-cases (h == x)) [
    | inl same ↦ let e : h ≡ x = ground (arith, same) in rw same (ap (λ y. (rt.objects y).tid) e)
    | inr other ↦ rw other
  ];
})

release_key-Kept : (rt : Runtime) (h key : ℕ) → Kept rt (release_key true rt h key)
unfolding mutex_release
release_key-Kept rt h key = rw ((release_key_lem rt h key).1) (record {
  selfs = refl;
  registry = refl;
  next = refl;
  tids = λ x. elim (Bool-cases (h == x)) [
    | inl same ↦ let e : h ≡ x = ground (arith, same) in rw same (ap (λ y. (rt.objects y).tid) e)
    | inr other ↦ rw other
  ];
})

-- The rest follows from what the engine's side says.
module _ (room : ℕ → Bool) (w : World) (tr : Trace) (rt : Runtime) (t : Tracks room w)
    (kept : Kept w.runtime rt) where
  Tracks-Kept :
      Refines (apart rt w.allocated) (detectors room tr)
      → ((k : ℕ) → (detectors room tr k).state.next_tid ≡ (detectors room w.trace k).state.next_tid)
      → Tracks room (record w { runtime = rt; trace = tr })
  Tracks-Kept engine next = record {
    engine = engine;
    next = λ k. next k ∙ t.next k ∙ sym kept.next;
    below = λ h is. rw (kept.tids h, kept.next) (t.below h is);
    installed = λ os h is. t.installed os h (sym (ap (λ s. s os) kept.selfs) ∙ is);
    listed = λ h more. t.listed h (rw kept.registry at more);
    once = λ h. rw kept.registry (t.once h);
    waiting = t.waiting;
    created = t.created;
    names = λ x h. rw kept.registry (t.names x h);
  }

-- A thread's handle is its own.
pub own_thread_lem :
    (allocated : ℕ → Bool) (h : ℕ) → allocated h ≡ true → own_thread allocated h ≡ some h
own_thread_lem allocated h is = rw is

module _ (room : ℕ → Bool) (w : World) (t : Tracks room w) (os h : ℕ)
    (mine : w.runtime.selfs os ≡ some h) where
  own : (apart w.runtime w.allocated).selfs h ≡ some h
  own = own_thread_lem w.allocated h (t.installed os h mine).0

  pub lock-Tracks :
      (al : Allocator) (key : ℕ)
      → al.grow ≡ true
      → Tracks room (record w {
        runtime = mutex_lock al w.runtime os key;
        trace = acquire (w.runtime.objects h).tid key ∷ w.trace;
      })
  unfolding shard_events run step mutex_acquire
  lock-Tracks al key grow =
      let r =
        mutex_lock-Refines al (apart w.runtime w.allocated) (detectors room w.trace) h h key
          t.engine own grow in
      let r' : Refines (acquire_key true (apart w.runtime w.allocated) h key)
          (detectors room (acquire (w.runtime.objects h).tid key ∷ w.trace)) =
        rw (mutex_lock_lem al (apart w.runtime w.allocated) h h key own, grow) at r in
      rw (mutex_lock_lem al w.runtime os h key mine, grow)
        (Tracks-Kept room w (acquire (w.runtime.objects h).tid key ∷ w.trace)
          (acquire_key true w.runtime h key) t (acquire_key-Kept w.runtime h key)
          (rw (← acquire_key-apart w.runtime w.allocated h key) r') (λ k. refl))

  pub unlock-Tracks :
      (al : Allocator) (key : ℕ)
      → al.grow ≡ true
      → Tracks room (record w {
        runtime = mutex_unlock al w.runtime os key;
        trace = release (w.runtime.objects h).tid key ∷ w.trace;
      })
  unfolding shard_events run step mutex_release
  unlock-Tracks al key grow =
      let r =
        mutex_unlock-Refines al (apart w.runtime w.allocated) (detectors room w.trace) h h key
          t.engine own grow in
      let r' : Refines (release_key true (apart w.runtime w.allocated) h key)
          (detectors room (release (w.runtime.objects h).tid key ∷ w.trace)) =
        rw (mutex_unlock_lem al (apart w.runtime w.allocated) h h key own, grow) at r in
      rw (mutex_unlock_lem al w.runtime os h key mine, grow)
        (Tracks-Kept room w (release (w.runtime.objects h).tid key ∷ w.trace)
          (release_key true w.runtime h key) t (release_key-Kept w.runtime h key)
          (rw (← release_key-apart w.runtime w.allocated h key) r') (λ k. refl))

  step_shard_lem :
      (word : ℕ) (is_write : Bool) (f : File) (l : ℕ)
      → word < 2 ^ 61
      → step_shard (detectors room w.trace) (w.runtime.objects h).tid word is_write f l
        ≡ detectors room
            (access (w.runtime.objects h).tid (u64 (word * 2 ^ 3)) is_write f l ∷ w.trace)
  unfolding shard_events run
  step_shard_lem word is_write f l small =
      let is_word : word_of (u64 (word * 2 ^ 3)) ≡ word = omega arith in
      fun_ext (λ k. elim (Bool-cases (shard_of word == k)) [
        | inl here ↦ rw (is_word, here)
        | inr other ↦ rw (is_word, other)
      ])

  pub touch-Tracks :
      (sc : Scan) (word : ℕ) (is_write : Bool) (f : File) (l : ℕ)
      → word < 2 ^ 61
      → sc.shards ≡ w.runtime.shards
      → Tracks room (record w {
        runtime = record (w.runtime) {
          shards = (scan_word sc (w.runtime.objects h) word is_write f l).shards;
        };
        trace = access (w.runtime.objects h).tid (u64 (word * 2 ^ 3)) is_write f l ∷ w.trace;
      })
  unfolding shard_events run step
  touch-Tracks sc word is_write f l small same =
      let r =
        scan_word-Refines (apart w.runtime w.allocated) (detectors room w.trace) sc h h word
          is_write f l t.engine own same in
      let after = record (w.runtime) {
        shards = (scan_word sc (w.runtime.objects h) word is_write f l).shards;
      } in
      Tracks-Kept room w
        (access (w.runtime.objects h).tid (u64 (word * 2 ^ 3)) is_write f l ∷ w.trace) after t
        (record { selfs = refl; registry = refl; next = refl; tids = λ x. refl })
        (subst (λ ds. Refines (apart after w.allocated) ds) (step_shard_lem word is_write f l small)
          r.0)
        (λ k. elim (Bool-cases (shard_of (word_of (u64 (word * 2 ^ 3))) == k)) [
          | inl here ↦ rw here (
              access_next_tid (detectors room w.trace k).state (w.runtime.objects h).tid
                (u64 (word * 2 ^ 3)) ((detectors room w.trace k).clocks (w.runtime.objects h).tid)
                is_write f l)
          | inr other ↦ rw other
        ])

pub count-Tracks :
    (room : ℕ → Bool) (w : World) (sc : Scan) (tid line : ℕ)
    → Tracks room w
    → sc.shards ≡ w.runtime.shards
    → Tracks room (record w { runtime = (count_hits w.runtime sc tid line).0 })
unfolding count_hits
count-Tracks room w sc tid line t same = elim (Option-cases sc.first_hit) [
  | inl e ↦ rw (e, count_hits, same) t
  | inr (hit, e) ↦
      rw (e, count_hits, same)
        (record {
          engine = record {
            tables = t.engine.tables;
            sizes = t.engine.sizes;
            locks = t.engine.locks;
            clocks = t.engine.clocks;
            own = t.engine.own;
          };
          next = t.next;
          below = t.below;
          installed = t.installed;
          listed = t.listed;
          once = t.once;
          waiting = t.waiting;
          created = t.created;
          names = t.names;
        })
]
