-- ===== src/Registry/World/Life.antt =====
-- The first state of a run, and the steps with which a thread appears by itself and ends (runtime/redzone_race_rt.c).
use redzone.Prelude.{
  ℕ, ◌+◌, ◌≡◌, refl, sym, ap, ◌∙◌, arith, inl, inr, Bool, true, false, Option, none, some, ◌∷◌,
  ◌==◌, update, Bool-cases,
}
use redzone.Race.{Thread, thread_init}
use redzone.Race.Trace.{step, run, start}
use redzone.Race.Made.{initial_tid}
use redzone.Registry.Runtime.{register_thread, init_once}
use redzone.Registry.Runtime.Start.{init_once-Refines}
use redzone.Registry.World.{World, begin}
use redzone.Registry.World.Shards.{shard_events}
use redzone.Registry.World.Tracks.{detectors, own_thread, Tracks}
use redzone.Registry.World.Handles.{Refines-same, own_thread-inv, added-Refines}

one_allocated : (h o x : ℕ) → own_thread (update (λ _. false) h true) o ≡ some x → h ≡ x
one_allocated h o x is =
    let has = (own_thread-inv (update (λ _. false) h true) o x is).1 in ground (arith, has)

pub begin-Tracks :
    (room : ℕ → Bool) (verbose : Bool) (objects : ℕ → Thread) (os h : ℕ)
    → Tracks room (begin room verbose objects os h)
unfolding init_once register_thread run step shard_events thread_init
begin-Tracks room verbose objects os h =
    let r = init_once-Refines room verbose objects os h in
    record {
      engine = record {
        tables = r.tables;
        sizes = r.sizes;
        locks = r.locks;
        clocks =
            λ k o x is. let e = one_allocated h o x is in r.clocks k os x (rw e (ground arith));
        own = λ o o' x x' is is' same. sym (one_allocated h o x is) ∙ one_allocated h o' x' is';
      };
      next = λ k. ap (λ (i : ℕ). i + 1) (initial_tid _ 256);
      below = λ x has. ground (arith, has);
      installed = λ o x is. ground (arith, is);
      listed = λ x more. absurd (omega (arith, more));
      once = λ x. omega arith;
      waiting = λ x is. absurd (ground (arith, is));
      created = λ x is. absurd (ground (arith, is));
      names = λ x h. refl;
    }

-- What holds of the handles of threads holds after one more is installed.
pub installed-update :
    (P : ℕ → Type 0) (selfs : ℕ → Option ℕ) (os h : ℕ)
    → P h
    → ((o x : ℕ) → selfs o ≡ some x → P x)
    → (o x : ℕ) → update selfs os (some h) o ≡ some x
    → P x
installed-update P selfs os h new old o x is = elim (Bool-cases (os == o)) [
  | inl this ↦ let e : h ≡ x = ground (arith, is, this) in rw (← e) new
  | inr other ↦ old o x (rw other at is)
]

module _ (room : ℕ → Bool) (w : World) (t : Tracks room w) where
  -- A free handle is not given to a thread that is being created.
  not_waiting : (h : ℕ) → w.allocated h ≡ false → w.pending h ≡ false
  not_waiting h free = elim (Bool-cases (w.pending h)) [
    | inl is ↦ absurd (ground (arith, t.waiting h is, free))
    | inr calm ↦ calm
  ]

  pub attach-Tracks :
      (os h : ℕ)
      → w.allocated h ≡ false
      → Tracks room (record {
        runtime = register_thread w.runtime os h;
        allocated = update w.allocated h true;
        pending = w.pending;
        unnamed = w.unnamed;
        named = w.named;
        trace = start ∷ w.trace;
      })
  unfolding register_thread run step shard_events thread_init
  attach-Tracks os h free =
      let after = thread_init w.runtime.next_tid in
      record {
        engine = Refines-same _ _ _ refl refl refl refl (
            added-Refines w.runtime (detectors room w.trace) (detectors room (start ∷ w.trace))
              w.allocated h after t.engine free t.below (λ k. refl) (λ k. refl) (λ k. refl)
              (λ k. rw (t.next k)));
        next = λ k. ap (λ (i : ℕ). i + 1) (t.next k);
        below = λ x has. ground (arith, has, t.below x);
        installed =
            installed-update (λ x. (update w.allocated h true x ≡ true) × (w.pending x ≡ false))
              w.runtime.selfs os h (ground arith, not_waiting h free)
              (λ o x is. let (has, calm) = t.installed o x is in (ground (arith, has), calm));
        listed = λ x more. let (has, calm) = t.listed x more in (ground (arith, has), calm);
        once = t.once;
        waiting = λ x is. let has = t.waiting x is in ground (arith, has);
        created = λ x is. let has = t.created x is in ground (arith, has);
        names = t.names;
      }

  pub exit-Tracks :
      (os : ℕ)
      → Tracks room
          (record w { runtime = record (w.runtime) { selfs = update w.runtime.selfs os none } })
  exit-Tracks os = record {
    engine = Refines-same _ _ _ refl refl refl refl t.engine;
    next = t.next;
    below = t.below;
    installed = λ o x is. t.installed o x (ground (arith, is));
    listed = t.listed;
    once = t.once;
    waiting = t.waiting;
    created = t.created;
    names = t.names;
  }
