-- ===== src/Registry/World/Fork.antt =====
-- The steps of a run that belong to the creation of a thread (runtime/redzone_race_rt.c).
use redzone.Prelude.{
  ℕ, ◌+◌, ◌<◌, ◌≡◌, ◌≢◌, refl, ap, ◌∙◌, arith, inl, inr, Bool, true, false, none, some, ◌∷◌, ◌==◌,
  update, Bool-cases,
}
use redzone.Race.{thread_create}
use redzone.Race.Trace.{step, run, create}
use redzone.Registry.Runtime.Refine.{changed, changed-Refines}
use redzone.Registry.Runtime.Threads.{trampoline, create_begin, create_end}
use redzone.Registry.World.{World}
use redzone.Registry.World.Shards.{shard_events}
use redzone.Registry.World.Taken.{held, entered, with_handle, with_both, counted-reg_thread}
use redzone.Registry.World.Tracks.{detectors, apart, Tracks}
use redzone.Registry.World.Handles.{Refines-same, own_thread_lem, fewer-Refines, added-Refines}
use redzone.Registry.World.Life.{installed-update}

module _ (room : ℕ → Bool) (w : World) (t : Tracks room w) where
  pub fork-Tracks :
      (os p c : ℕ)
      → w.runtime.selfs os ≡ some p
      → w.allocated c ≡ false
      → Tracks room (record {
        runtime = create_begin w.runtime p c;
        allocated = update w.allocated c true;
        pending = update w.pending c true;
        unnamed = update w.unnamed c true;
        named = w.named;
        trace = create (w.runtime.objects p).tid ∷ w.trace;
      })
  unfolding create_begin thread_create run step shard_events changed
  fork-Tracks os p c mine free =
      let rt = w.runtime in
      let ds = detectors room w.trace in
      let made = thread_create rt.next_tid (rt.objects p) in
      let ticked = λ (k : ℕ). record (ds k) {
        clocks = update (ds k).clocks (rt.objects p).tid made.0.clock;
      } in
      let has_p = (t.installed os p mine).0 in
      let own = own_thread_lem w.allocated p has_p in
      let parent =
        changed-Refines (apart rt w.allocated) ds ticked p p made.0 rt.syncs t.engine own refl
          (λ k. refl) (λ k. refl) t.engine.locks in
      let rt1 = record rt { objects = update rt.objects p made.0 } in
      record {
        engine = Refines-same _ _ _ refl refl refl refl (
            added-Refines rt1 ticked (detectors room (create (rt.objects p).tid ∷ w.trace))
              w.allocated c made.1 (Refines-same _ _ _ refl refl refl refl parent) free
              (λ x has. ground (arith, t.below x has, t.below p has_p)) (λ k. refl) (λ k. refl)
              (λ k. refl) (λ k. rw (t.engine.clocks k p p own, t.next k)));
        next = λ k. ap (λ (i : ℕ). i + 1) (t.next k);
        below = λ x has. ground (arith, has, t.below x, t.below p has_p);
        installed = λ o x is.
            let (has, calm) = t.installed o x is in
            (ground (arith, has), ground (arith, calm, has, free));
        listed = λ x more.
            let (has, calm) = t.listed x more in
            (ground (arith, has), ground (arith, calm, has, free));
        once = t.once;
        waiting = λ x is. ground (arith, is, t.waiting x);
        created = λ x is. ground (arith, is, t.created x);
        names = t.names;
      }

  pub forked-Tracks :
      (thr c : ℕ)
      → w.unnamed c ≡ true
      → w.named thr ≡ none
      → Tracks room (record w {
        runtime = create_end true thr c w.runtime 0;
        unnamed = update w.unnamed c false;
        named = update w.named thr (some c);
      })
  unfolding create_end
  forked-Tracks thr c is_waiting fresh =
      let has_c = t.created c is_waiting in
      let none_held : held w.runtime.registry c ≡ 0 = ground (arith, t.listed c, is_waiting) in
      let more_held = λ (x : ℕ). counted-reg_thread (with_handle x) w.runtime.registry thr c in
      record {
        engine = Refines-same _ _ _ refl refl refl refl t.engine;
        next = t.next;
        below = t.below;
        installed = t.installed;
        listed = λ x more. elim (Bool-cases (c == x)) [
          | inl this ↦ let e : c ≡ x = ground (arith, this) in rw (← e) (has_c, ground arith)
          | inr other ↦
              let old : 0 < held w.runtime.registry x = ground (arith, more, more_held x, other) in
              let (has, calm) = t.listed x old in (has, ground (arith, calm))
        ];
        once = λ x. ground (arith, more_held x, none_held, t.once x);
        waiting = t.waiting;
        created = λ x is. ground (arith, is, t.created x);
        names = λ x h.
            let entry = counted-reg_thread (with_both x h) w.runtime.registry thr c in
            elim (Bool-cases (thr == x)) [
              | inl this ↦
                  let e : thr ≡ x = ground (arith, this) in
                  let old : entered w.runtime.registry x h ≡ 0 =
                    t.names x h ∙ rw (← e) (rw fresh refl) in
                  ground (arith, entry, old, this)
              | inr other ↦ rw other (ground (arith, entry, t.names x h, other))
            ];
      }

  pub fork_failed-Tracks :
      (thr c rc : ℕ)
      → w.pending c ≡ true
      → w.unnamed c ≡ true
      → rc ≢ 0
      → Tracks room (record w {
        runtime = create_end true thr c w.runtime rc;
        allocated = update w.allocated c false;
        pending = update w.pending c false;
        unnamed = update w.unnamed c false;
      })
  unfolding create_end
  fork_failed-Tracks thr c rc is_waiting no_name failed =
      let fails : (rc == 0) ≡ false = ground (arith, failed) in
      rw fails (record {
        engine =
            fewer-Refines w.runtime (detectors room w.trace) w.allocated
              (update w.allocated c false) (λ x. ground arith) t.engine;
        next = t.next;
        below = λ x has. t.below x (ground (arith, has));
        installed =
            λ o x is. let (has, calm) = t.installed o x is in ground (arith, has, calm, is_waiting);
        listed = λ x more. let (has, calm) = t.listed x more in ground (arith, has, calm, no_name);
        once = t.once;
        waiting = λ x is. ground (arith, is, t.waiting x);
        created = λ x is. ground (arith, is, t.created x);
        names = t.names;
      })

  pub started-Tracks :
      (os c : ℕ)
      → w.pending c ≡ true
      → Tracks room
          (record w { runtime = trampoline w.runtime os c; pending = update w.pending c false })
  unfolding trampoline
  started-Tracks os c is_waiting =
      let has_c = t.waiting c is_waiting in
      record {
        engine = Refines-same _ _ _ refl refl refl refl t.engine;
        next = t.next;
        below = t.below;
        installed =
            installed-update (λ x. (w.allocated x ≡ true) × (update w.pending c false x ≡ false))
              w.runtime.selfs os c (has_c, ground arith)
              (λ o x is. let (has, calm) = t.installed o x is in (has, ground (arith, calm)));
        listed = t.listed;
        once = t.once;
        waiting = λ x is. ground (arith, is, t.waiting x);
        created = t.created;
        names = t.names;
      }
