-- ===== src/Registry/World/Handles.antt =====
-- The set of allocated handles grows and shrinks (runtime/redzone_race_rt.c): what the engine's side
-- knows of the others stays.
use redzone.Prelude.{
  ℕ, ◌<◌, ◌≡◌, ap, ◌∙◌, arith, inl, inr, Bool, true, false, some, ◌==◌, update, Bool-cases,
}
use redzone.Race.{Thread}
use redzone.Race.Trace.{Detector}
use redzone.Registry.Runtime.{Runtime}
use redzone.Registry.Runtime.Refine.{Refines}
use redzone.Registry.World.Tracks.{own_thread, apart}

-- The refinement reads four of the static variables.
pub Refines-same :
    (rt rt' : Runtime) (ds : ℕ → Detector)
    → rt'.shards ≡ rt.shards
    → rt'.syncs ≡ rt.syncs
    → rt'.objects ≡ rt.objects
    → rt'.selfs ≡ rt.selfs
    → Refines rt ds
    → Refines rt' ds
Refines-same rt rt' ds shards syncs objects selfs r = record {
  tables = λ k. rw shards (r.tables k);
  sizes = λ k. rw shards (r.sizes k);
  locks = λ k key. rw syncs (r.locks k key);
  clocks = λ k os h is. rw objects (r.clocks k os h (rw selfs at is));
  own = λ o o' h h' is is' same.
      r.own o o' h h' (rw selfs at is) (rw selfs at is') (rw objects at same);
}

pub own_thread_lem :
    (allocated : ℕ → Bool) (h : ℕ) → allocated h ≡ true → own_thread allocated h ≡ some h
own_thread_lem allocated h is = rw is

pub own_thread-inv :
    (allocated : ℕ → Bool) (o x : ℕ)
    → own_thread allocated o ≡ some x
    → (o ≡ x) × (allocated x ≡ true)
own_thread-inv allocated o x is = elim (Bool-cases (allocated o)) [
  | inl has ↦ let e : o ≡ x = ground (arith, is, has) in (e, rw (← e) has)
  | inr lacks ↦ absurd (ground (arith, is, lacks))
]

pub fewer-Refines :
    (rt : Runtime) (ds : ℕ → Detector) (more fewer : ℕ → Bool)
    → ((h : ℕ) → fewer h ≡ true → more h ≡ true)
    → Refines (apart rt more) ds
    → Refines (apart rt fewer) ds
fewer-Refines rt ds more fewer sub r =
    let lift : (o x : ℕ) → own_thread fewer o ≡ some x → own_thread more o ≡ some x =
      λ o x is. let (e, has) = own_thread-inv fewer o x is in rw (e, sub x has) in
    record {
      tables = r.tables;
      sizes = r.sizes;
      locks = r.locks;
      clocks = λ k o x is. r.clocks k o x (lift o x is);
      own = λ o o' x x' is is' same. r.own o o' x x' (lift o x is) (lift o' x' is') same;
    }

-- A handle `c` that was free gets a thread with a new id.
module _ (rt : Runtime) (ds ds' : ℕ → Detector) (allocated : ℕ → Bool) (c : ℕ) (after : Thread)
    (r : Refines (apart rt allocated) ds) (free : allocated c ≡ false)
    (below : (h : ℕ) → allocated h ≡ true → (rt.objects h).tid < after.tid)
    (tables : (k : ℕ) → (ds' k).state.buckets ≡ (ds k).state.buckets)
    (sizes : (k : ℕ) → (ds' k).state.nbuckets ≡ (ds k).state.nbuckets)
    (locks : (k : ℕ) → (ds' k).locks ≡ (ds k).locks)
    (clocks : (k : ℕ) → (ds' k).clocks ≡ update (ds k).clocks after.tid after.clock) where
  abbrev added : Runtime
  added = record rt { objects = update rt.objects c after }

  older : (x : ℕ) → update allocated c true x ≡ true → (c == x) ≡ false → allocated x ≡ true
  older x is other = ground (arith, is, other)

  added-clocks :
      (k x : ℕ)
      → update allocated c true x ≡ true
      → (ds' k).clocks (added.objects x).tid ≡ (added.objects x).clock
  added-clocks k x is = elim (Bool-cases (c == x)) [
    | inl new ↦ rw (clocks k, new) (ground arith)
    | inr other ↦
        let was = older x is other in
        let differs : (after.tid == (rt.objects x).tid) ≡ false = ground (arith, below x was) in
        rw (clocks k, other, differs) (r.clocks k x x (own_thread_lem allocated x was))
  ]

  added-own :
      (x x' : ℕ)
      → update allocated c true x ≡ true
      → update allocated c true x' ≡ true
      → (added.objects x).tid ≡ (added.objects x').tid
      → x ≡ x'
  added-own x x' is is' same = elim (Bool-cases (c == x)) [
    | inl new ↦ elim (Bool-cases (c == x')) [
      | inl new' ↦ ground (arith, new, new')
      | inr old' ↦ absurd (ground (arith, below x' (older x' is' old'), same, new, old'))
    ]
    | inr old ↦ elim (Bool-cases (c == x')) [
      | inl new' ↦ absurd (ground (arith, below x (older x is old), same, new', old))
      | inr old' ↦
          let same' : (rt.objects x).tid ≡ (rt.objects x').tid = rw (old, old') at same in
          r.own x x' x x' (own_thread_lem allocated x (older x is old))
            (own_thread_lem allocated x' (older x' is' old')) same'
    ]
  ]

  pub added-Refines :
      Refines
        (apart (record rt { objects = update rt.objects c after }) (update allocated c true))
        ds'
  added-Refines = record {
    tables = λ k. tables k ∙ r.tables k;
    sizes = λ k. sizes k ∙ r.sizes k;
    locks = λ k key. ap (λ l. l key) (locks k) ∙ r.locks k key;
    clocks = λ k o x is. added-clocks k x (own_thread-inv (update allocated c true) o x is).1;
    own = λ o o' x x' is is' same.
        added-own x x' (own_thread-inv (update allocated c true) o x is).1
          (own_thread-inv (update allocated c true) o' x' is').1 same;
  }
