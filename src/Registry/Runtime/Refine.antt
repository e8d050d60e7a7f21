-- ===== src/Registry/Runtime/Refine.antt =====
-- The sharded race runtime against the engine (runtime/redzone_race_rt.c, runtime/redzone_race.c):
-- each shard behaves as a detector of its own, which sees all synchronization.
use redzone.Prelude.{
  ℕ, ◌≡◌, refl, sym, ap, ◌∙◌, arith, inl, inr, true, Option, some, ◌==◌, if◌then◌else◌, set, update,
  Bool-cases,
}
use redzone.Race.{VectorClock, Thread, mutex_acquire, mutex_release}
use redzone.Race.Trace.{Detector, step, acquire, release}
use redzone.Registry.{sync_shard_of, SyncShard, sync_for_in}
use redzone.Registry.Runtime.{
  Runtime, Allocator, self, acquire_key, release_key, mutex_lock, mutex_unlock,
}
use redzone.Registry.Runtime.Entries.{clock_in, sync_for_in-Placed}

-- The clock that the runtime has for a key
abbrev pub lock_clock : Runtime → ℕ → VectorClock
lock_clock rt key = clock_in (rt.syncs (sync_shard_of key)).entries key

-- Each shard's detector has the shard's table, the clocks of the locks, and the clocks of the threads
-- that have a handle; no two handles have one thread id.
pub record Refines (rt : Runtime) (ds : ℕ → Detector) : Type 0 where
  pub tables : (k : ℕ) → (ds k).state.buckets ≡ (rt.shards k).buckets
  pub sizes : (k : ℕ) → (ds k).state.nbuckets ≡ (rt.shards k).nbuckets
  pub locks : (k key : ℕ) → (ds k).locks key ≡ lock_clock rt key
  pub clocks :
      (k os h : ℕ) → rt.selfs os ≡ some h → (ds k).clocks (rt.objects h).tid ≡ (rt.objects h).clock
  pub own :
      (os os' h h' : ℕ)
      → rt.selfs os ≡ some h
      → rt.selfs os' ≡ some h'
      → (rt.objects h).tid ≡ (rt.objects h').tid
      → h ≡ h'

pub acquire_key_lem :
    (rt : Runtime) (h key : ℕ)
    → acquire_key true rt h key ≡ record rt {
      syncs =
          update rt.syncs
            (sync_shard_of key)
            (sync_for_in true (rt.syncs (sync_shard_of key)) key).0;
      objects = update rt.objects h (mutex_acquire (rt.objects h) (lock_clock rt key));
    }
unfolding acquire_key
acquire_key_lem rt h key =
    let p = sync_for_in-Placed (rt.syncs (sync_shard_of key)) key in
    let clock : p.found.entry.sync_clock ≡ lock_clock rt key = p.found.clock ∙ p.same key in
    rw (p.answer, acquire_key, p.found.at, clock)

pub release_key_lem :
    (rt : Runtime) (h key : ℕ)
    → let sh = sync_shard_of key in
      let r = mutex_release (rt.objects h) (lock_clock rt key) in
      (shard : SyncShard) × (release_key true rt h key
        ≡ record rt { syncs = update rt.syncs sh shard; objects = update rt.objects h r.0 })
      × ((other : ℕ)
          → clock_in shard.entries other
            ≡ (if other == key then r.1 else clock_in (rt.syncs sh).entries other))
unfolding release_key
release_key_lem rt h key =
    let p = sync_for_in-Placed (rt.syncs (sync_shard_of key)) key in
    let r = mutex_release (rt.objects h) (lock_clock rt key) in
    let clock : p.found.entry.sync_clock ≡ lock_clock rt key = p.found.clock ∙ p.same key in
    let found = (sync_for_in true (rt.syncs (sync_shard_of key)) key).0 in
    (
      record found {
        entries = set found.entries p.index (record (p.found.entry) { sync_clock = r.1 });
      },
      rw (p.answer, release_key, p.found.at, clock),
      λ other. p.found.put r.1 other ∙ ground (arith, p.same other),
    )

-- The lock's new clock for other keys
lock_clock-update :
    (rt : Runtime) (objects : ℕ → Thread) (key other : ℕ) (shard : SyncShard) (c : VectorClock)
    → ((o : ℕ)
        → clock_in shard.entries o
          ≡ (if o == key then c else clock_in (rt.syncs (sync_shard_of key)).entries o))
    → lock_clock
        (record rt { syncs = update rt.syncs (sync_shard_of key) shard; objects = objects })
        other
      ≡ (if other == key then c else lock_clock rt other)
lock_clock-update rt objects key other shard c put =
    elim (Bool-cases (sync_shard_of other == sync_shard_of key)) [
      | inl one ↦
          let same : sync_shard_of other ≡ sync_shard_of key = ground (arith, one) in
          rw same (ground (arith, put other))
      | inr two ↦ ground (arith, two)
    ]

-- One thread's clock and the locks change, on both sides alike.
module _ (rt : Runtime) (ds ds' : ℕ → Detector) (os h : ℕ) (after : Thread) (syncs : ℕ → SyncShard)
    (r : Refines rt ds) (mine : rt.selfs os ≡ some h) (tid : after.tid ≡ (rt.objects h).tid)
    (state : (k : ℕ) → (ds' k).state ≡ (ds k).state)
    (clock : (k : ℕ) → (ds' k).clocks ≡ update (ds k).clocks (rt.objects h).tid after.clock) where
  unfoldable pub changed : Runtime
  changed = record rt { syncs = syncs; objects = update rt.objects h after }

  changed-tid : (x : ℕ) → (changed.objects x).tid ≡ (rt.objects x).tid
  unfolding changed
  changed-tid x = elim (Bool-cases (h == x)) [
    | inl same ↦
        let e : h ≡ x = ground (arith, same) in rw same (tid ∙ ap (λ y. (rt.objects y).tid) e)
    | inr other ↦ rw other
  ]

  changed-clocks :
      (k o x : ℕ)
      → rt.selfs o ≡ some x
      → (ds' k).clocks (changed.objects x).tid ≡ (changed.objects x).clock
  unfolding changed
  changed-clocks k o x is = elim (Bool-cases (h == x)) [
    | inl same ↦ rw (same, clock k, tid) (ground arith)
    | inr other ↦ elim (Bool-cases ((rt.objects h).tid == (rt.objects x).tid)) [
      | inl one ↦
          let e : h ≡ x = r.own os o h x mine is (ground (arith, one)) in
          absurd (ground (arith, e, other))
      | inr two ↦ rw (other, clock k, two) (r.clocks k o x is)
    ]
  ]

  pub changed-Refines :
      ((k key : ℕ) → (ds' k).locks key ≡ lock_clock changed key) → Refines changed ds'
  unfolding changed
  changed-Refines locks = record {
    tables = λ k. ap (λ s. s.buckets) (state k) ∙ r.tables k;
    sizes = λ k. ap (λ s. s.nbuckets) (state k) ∙ r.sizes k;
    locks = locks;
    clocks = changed-clocks;
    own = λ o o' x x' is is' same.
        r.own o o' x x' is is' (sym (changed-tid x) ∙ same ∙ changed-tid x');
  }

pub self_lem :
    (fresh : Option ℕ) (rt : Runtime) (os h : ℕ)
    → rt.selfs os ≡ some h
    → self fresh rt os ≡ (rt, some h)
unfolding self
self_lem fresh rt os h mine = rw (mine, self)

pub mutex_lock_lem :
    (al : Allocator) (rt : Runtime) (os h key : ℕ)
    → rt.selfs os ≡ some h
    → mutex_lock al rt os key ≡ acquire_key al.grow rt h key
unfolding mutex_lock
mutex_lock_lem al rt os h key mine =
    rw (self_lem al.fresh rt os h mine, mutex_lock) (rw (self_lem al.fresh rt os h mine))

pub mutex_unlock_lem :
    (al : Allocator) (rt : Runtime) (os h key : ℕ)
    → rt.selfs os ≡ some h
    → mutex_unlock al rt os key ≡ release_key al.grow rt h key
unfolding mutex_unlock
mutex_unlock_lem al rt os h key mine =
    rw (self_lem al.fresh rt os h mine, mutex_unlock) (rw (self_lem al.fresh rt os h mine))

-- A thread that has a handle takes a lock, with memory for the lock's entry, in a state that refines
-- the detectors of the shards: the new state refines each detector after the engine's acquire of
-- that lock by that thread.
pub mutex_lock-Refines :
    (al : Allocator) (rt : Runtime) (ds : ℕ → Detector) (os h key : ℕ)
    → Refines rt ds
    → rt.selfs os ≡ some h
    → al.grow ≡ true
    → Refines (mutex_lock al rt os key) (λ k. step (ds k) (acquire (rt.objects h).tid key))
unfolding step mutex_acquire changed
mutex_lock-Refines al rt ds os h key r mine room =
    let sh = sync_shard_of key in
    let after = mutex_acquire (rt.objects h) (lock_clock rt key) in
    let syncs = update rt.syncs sh (sync_for_in true (rt.syncs sh) key).0 in
    let p = sync_for_in-Placed (rt.syncs sh) key in
    let found = (sync_for_in true (rt.syncs sh) key).0 in
    let kept : (o : ℕ)
        → lock_clock (record rt { syncs = syncs; objects = update rt.objects h after }) o
          ≡ lock_clock rt o =
      λ o.
        lock_clock-update rt (update rt.objects h after) key o found (lock_clock rt key)
          (λ x. p.same x ∙ ground arith)
        ∙ ground arith in
    rw (mutex_lock_lem al rt os h key mine, room, acquire_key_lem rt h key)
      (changed-Refines rt ds (λ k. step (ds k) (acquire (rt.objects h).tid key)) os h after syncs r
        mine refl (λ k. refl) (λ k. rw (r.clocks k os h mine, r.locks k key))
        (λ k other. (r.locks k other ∙ sym (kept other))))

-- A thread that has a handle releases a lock, with memory for the lock's entry, in a state that
-- refines the detectors of the shards: the new state refines each detector after the engine's
-- release of that lock by that thread.
pub mutex_unlock-Refines :
    (al : Allocator) (rt : Runtime) (ds : ℕ → Detector) (os h key : ℕ)
    → Refines rt ds
    → rt.selfs os ≡ some h
    → al.grow ≡ true
    → Refines (mutex_unlock al rt os key) (λ k. step (ds k) (release (rt.objects h).tid key))
unfolding step mutex_release changed
mutex_unlock-Refines al rt ds os h key r mine room =
    let sh = sync_shard_of key in
    let after = (mutex_release (rt.objects h) (lock_clock rt key)).0 in
    let (shard, same, put) = release_key_lem rt h key in
    let lock_after : (k other : ℕ)
        → (step (ds k) (release (rt.objects h).tid key)).locks other ≡ (
            if other == key
            then (mutex_release (rt.objects h) (lock_clock rt key)).1
            else lock_clock rt other) =
      λ k other. rw (r.clocks k os h mine, r.locks k key) (ground (arith, r.locks k other)) in
    rw (mutex_unlock_lem al rt os h key mine, room, same)
      (changed-Refines rt ds (λ k. step (ds k) (release (rt.objects h).tid key)) os h after
        (update rt.syncs sh shard) r mine refl (λ k. refl) (λ k. rw (r.clocks k os h mine))
        (λ k other.
          (lock_after k other
            ∙ sym (
                lock_clock-update rt (update rt.objects h after) key other shard
                  (mutex_release (rt.objects h) (lock_clock rt key)).1 put))))
