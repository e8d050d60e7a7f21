-- ===== src/Registry/World/Join.antt =====
-- The steps of a run that join a thread (runtime/redzone_race_rt.c).
use redzone.Prelude.{
  ℕ, ◌<◌, ◌≡◌, ◌≢◌, refl, ap, ◌∙◌, arith, inl, inr, Bool, true, false, none, some, ◌∷◌, ◌==◌,
  update, Bool-cases, Option-cases, sym,
}
use redzone.Race.{thread_join}
use redzone.Race.Trace.{step, run, join}
use redzone.Registry.{take_thread}
use redzone.Registry.Runtime.{Runtime}
use redzone.Registry.Runtime.Refine.{changed, changed-Refines}
use redzone.Registry.Runtime.Threads.{join_end}
use redzone.Registry.World.{World}
use redzone.Registry.World.Shards.{shard_events}
use redzone.Registry.World.Taken.{
  held, with_handle, with_both, counted-take_thread, take_thread-none,
}
use redzone.Registry.World.Tracks.{detectors, apart, one_if, Tracks}
use redzone.Registry.World.Handles.{Refines-same, own_thread_lem, fewer-Refines}

module _ (room : ℕ → Bool) (w : World) (t : Tracks room w) where
  -- take_thread finds the thread that has the pthread_t, or nothing if none has it.
  pub take_thread-named : (thr : ℕ) → (take_thread w.runtime.registry thr).1 ≡ w.named thr
  take_thread-named thr =
      let es = w.runtime.registry in
      let left = λ (h : ℕ). counted-take_thread (with_both thr h) es thr in
      elim (Option-cases (take_thread es thr).1) [
        | inl missing ↦ elim (Option-cases (w.named thr)) [
          | inl nobody ↦ missing ∙ sym nobody
          | inr (c, is) ↦
              absurd (ground (arith, t.names thr c, is, take_thread-none es thr c missing))
        ]
        | inr (c, taken) ↦ elim (Option-cases (w.named thr)) [
          | inl nobody ↦ absurd (ground (arith, t.names thr c, nobody, left c, taken))
          | inr (d, is) ↦
              let same : c ≡ d = ground (arith, t.names thr c, is, left c, taken) in
              taken ∙ ap some same ∙ sym is
        ]
      ]

  -- After pthread_join of the thread with the entry for `c`
  pub joined-Tracks :
      (thr os p c : ℕ)
      → w.runtime.selfs os ≡ some p
      → w.named thr ≡ some c
      → w.pending c ≡ false
      → ((o : ℕ) → w.runtime.selfs o ≢ some c)
      → Tracks room (record w {
        runtime = record (w.runtime) {
          registry = (take_thread w.runtime.registry thr).0;
          objects =
              update w.runtime.objects p (thread_join (w.runtime.objects p) (w.runtime.objects c));
        };
        allocated = update w.allocated c false;
        named = update w.named thr none;
        trace = join (w.runtime.objects p).tid (w.runtime.objects c).tid ∷ w.trace;
      })
  unfolding thread_join run step shard_events changed
  joined-Tracks thr os p c mine is_named begun ended =
      let taken = take_thread-named thr ∙ is_named in
      let rt = w.runtime in
      let ds = detectors room w.trace in
      let ds' = detectors room (join (rt.objects p).tid (rt.objects c).tid ∷ w.trace) in
      let after = thread_join (rt.objects p) (rt.objects c) in
      let left = λ (x : ℕ). counted-take_thread (with_handle x) rt.registry thr in
      let c_listed : 0 < held rt.registry c = ground (arith, left c, taken) in
      let has_p = (t.installed os p mine).0 in
      let has_c = (t.listed c c_listed).0 in
      let own = own_thread_lem w.allocated p has_p in
      let clock_p = λ (k : ℕ). t.engine.clocks k p p own in
      let clock_c = λ (k : ℕ). t.engine.clocks k c c (own_thread_lem w.allocated c has_c) in
      let parent =
        changed-Refines (apart rt w.allocated) ds ds' p p after rt.syncs t.engine own refl
          (λ k. refl) (λ k. rw (clock_p k, clock_c k)) t.engine.locks in
      let fewer = update w.allocated c false in
      let rt' = record rt {
        registry = (take_thread rt.registry thr).0;
        objects = update rt.objects p after;
      } in
      record {
        engine =
            fewer-Refines rt' ds' w.allocated fewer (λ x. ground arith)
              (Refines-same _ _ _ refl refl refl refl parent);
        next = t.next;
        below = λ x has. ground (arith, has, t.below x, t.below p has_p);
        installed = λ o x is. elim (Bool-cases (c == x)) [
          | inl this ↦ let e : x ≡ c = ground (arith, this) in absurd (ended o (is ∙ ap some e))
          | inr other ↦ let (has, calm) = t.installed o x is in (ground (arith, has, other), calm)
        ];
        listed = λ x more. elim (Bool-cases (c == x)) [
          | inl this ↦
              let e : c ≡ x = ground (arith, this) in
              let more' : 0 < held (take_thread rt.registry thr).0 c = rw e more in
              absurd (ground (arith, more', left c, taken, t.once c))
          | inr other ↦
              let old : 0 < held rt.registry x = omega (arith, more, left x) in
              let (has, calm) = t.listed x old in (ground (arith, has, other), calm)
        ];
        once = λ x. ground (arith, left x, t.once x);
        waiting = λ x is. elim (Bool-cases (c == x)) [
          | inl this ↦
              let e : c ≡ x = ground (arith, this) in
              let busy : w.pending c ≡ true = rw e is in absurd (ground (arith, busy, begun))
          | inr other ↦ ground (arith, t.waiting x is, other)
        ];
        created = λ x is. elim (Bool-cases (c == x)) [
          | inl this ↦
              let e : c ≡ x = ground (arith, this) in
              let busy : w.unnamed c ≡ true = rw e is in
              absurd (ground (arith, busy, (t.listed c c_listed).1))
          | inr other ↦ ground (arith, t.created x is, other)
        ];
        names = λ x h.
            let entry = counted-take_thread (with_both x h) rt.registry thr in
            elim (Bool-cases (thr == x)) [
              | inl this ↦
                  let e : thr ≡ x = ground (arith, this) in
                  let was : one_if (w.named x) h ≡ one_if (some c) h =
                    rw (← e) (rw is_named refl) in
                  ground (arith, entry, taken, t.names x h ∙ was, this)
              | inr other ↦ rw other (ground (arith, entry, taken, t.names x h, other))
            ];
      }

  -- After pthread_join of a thread that has no entry
  pub unknown-Tracks :
      (thr : ℕ)
      → w.named thr ≡ none
      → Tracks room (record w {
        runtime = record (w.runtime) { registry = (take_thread w.runtime.registry thr).0 };
      })
  unknown-Tracks thr nobody =
      let missing = take_thread-named thr ∙ nobody in
      let left = λ (x : ℕ). counted-take_thread (with_handle x) w.runtime.registry thr in
      record {
        engine = Refines-same _ _ _ refl refl refl refl t.engine;
        next = t.next;
        below = t.below;
        installed = t.installed;
        listed = λ x more. t.listed x (omega (arith, more, left x));
        once = λ x. omega (arith, left x, t.once x);
        waiting = t.waiting;
        created = t.created;
        names = λ x h. ground (
          arith,
          counted-take_thread (with_both x h) w.runtime.registry thr,
          missing,
          t.names x h,
        );
      }

pub join_end_known :
    (thr p c : ℕ) (rt : Runtime)
    → (take_thread rt.registry thr).1 ≡ some c
    → join_end thr rt (some p)
      ≡ some (record rt {
        registry = (take_thread rt.registry thr).0;
        objects = update rt.objects p (thread_join (rt.objects p) (rt.objects c));
      })
unfolding join_end
join_end_known thr p c rt taken = rw (taken, join_end)

pub join_end_unknown :
    (thr p : ℕ) (rt : Runtime)
    → (take_thread rt.registry thr).1 ≡ none
    → join_end thr rt (some p) ≡ some (record rt { registry = (take_thread rt.registry thr).0 })
unfolding join_end
join_end_unknown thr p rt taken = rw (taken, join_end)
