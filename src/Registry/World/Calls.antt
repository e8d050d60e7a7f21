-- ===== src/Registry/World/Calls.antt =====
-- Thread creation and join within a run (runtime/redzone_race_rt.c): the parts before and after the
-- pthread call are steps of the run, and other threads take steps in between.
use redzone.Prelude.{
  ℕ, ◌≡◌, ◌≢◌, ◌∙◌, arith, inl, inr, true, false, none, false, some, ◌∷◌, ◌==◌, update, Bool-cases,
}
use redzone.Race.Trace.{create}
use redzone.Registry.Runtime.{Runtime, Allocator, PthreadCall}
use redzone.Registry.Runtime.Refine.{self_lem}
use redzone.Registry.Runtime.Threads.{create_begin, create_end, pthread_create}
use redzone.Registry.World.{World, fork, forked, fork_failed, Reaches, here, later}

-- The state when a parent at `p` calls pthread_create with a child at `c`
abbrev pub forking : World → (p c : ℕ) → World
forking w p c = record {
  runtime = create_begin w.runtime p c;
  allocated = update w.allocated c true;
  pending = update w.pending c true;
  unnamed = update w.unnamed c true;
  named = w.named;
  trace = create (w.runtime.objects p).tid ∷ w.trace;
}

Reaches-trans : {w v u : World} → Reaches w v → Reaches v u → Reaches w u
Reaches-trans r here = r
Reaches-trans r (later s n) = later (Reaches-trans r s) n

pthread_create_lem :
    (al : Allocator) (real : PthreadCall) (thr : ℕ) (rt rt' : Runtime) (os p c rc : ℕ)
    → rt.selfs os ≡ some p
    → real (create_begin rt p c) ≡ (rt', rc)
    → pthread_create al (some c) real thr rt os ≡ some (create_end al.grow thr c rt' rc, rc)
unfolding pthread_create
pthread_create_lem al real thr rt rt' os p c rc mine returns =
    rw (self_lem al.fresh rt os p mine, pthread_create)
      (rw (self_lem al.fresh rt os p mine, returns))

-- In a run, a thread that has a handle creates a thread, with memory for the child and the table:
-- other threads, the new one among them, take any steps during the pthread call. It returns 0 and a
-- pthread_t that no other thread has, or an error, and then the new thread has not run. Then the operation returns that, and its result is reached by the run.
pub pthread_create-Reaches :
    (w v : World) (al : Allocator) (real : PthreadCall) (thr os p c rc : ℕ)
    → w.runtime.selfs os ≡ some p
    → w.allocated c ≡ false
    → al.grow ≡ true
    → Reaches (forking w p c) v
    → (rc ≡ 0 → v.named thr ≡ none)
    → (rc ≢ 0 → v.pending c ≡ true)
    → v.unnamed c ≡ true
    → real (create_begin w.runtime p c) ≡ (v.runtime, rc)
    → (u : World) × Reaches w u
      × (pthread_create al (some c) real thr w.runtime os ≡ some (u.runtime, rc))
pthread_create-Reaches w v al real thr os p c rc mine free grow others fresh waits no_name returns =
    let before : Reaches w v = Reaches-trans (later here (fork os p c mine free)) others in
    let lem = pthread_create_lem al real thr w.runtime v.runtime os p c rc mine returns in
    elim (Bool-cases (rc == 0)) [
      | inl ok ↦
          let is : rc ≡ 0 = ground (arith, ok) in
          (_, later before (forked thr c no_name (fresh is)), lem ∙ rw (grow, is))
      | inr failed ↦ (
        _,
        later before (
            fork_failed thr c rc (waits (ground (arith, failed))) no_name (ground (arith, failed))),
        lem ∙ rw grow,
      )
    ]
