-- ===== src/Registry/World/Shards.antt =====
-- What one shard of the race runtime sees of a run of the program (runtime/redzone_race_rt.c): all
-- synchronization, and the accesses to its own words. A race in that view is one of the whole run.
use redzone.Prelude.{
  ℕ, ◌≤◌, ◌≡◌, ◌≢◌, refl, arith, inl, inr, Bool, false, some, [], ◌∷◌, ◌==◌, if◌then◌else◌, length,
  Bool-cases,
}
use redzone.Report.{File}
use redzone.Race.{Cell}
use redzone.Race.Cells.{word_of}
use redzone.Race.Trace.{
  Event, start, access, acquire, release, create, join, Trace, event_at, spawned, Place, thread,
  lock, Knows,
}
use redzone.Race.Order.{Knows-lt}
use redzone.Race.Made.{event_at-lt}
use redzone.Race.Sound.{Race}
use redzone.Registry.{shard_of}

-- The events that shard `k` sees
unfoldable pub shard_events : ℕ → Trace → Trace
shard_events k [] = []
shard_events k (access t addr w f l ∷ tr) =
    let rest = shard_events k tr in
    if shard_of (word_of addr) == k then access t addr w f l ∷ rest else rest
shard_events k (start ∷ tr) = start ∷ shard_events k tr
shard_events k (acquire t m ∷ tr) = acquire t m ∷ shard_events k tr
shard_events k (release t m ∷ tr) = release t m ∷ shard_events k tr
shard_events k (create p ∷ tr) = create p ∷ shard_events k tr
shard_events k (join p c ∷ tr) = join p c ∷ shard_events k tr

pub shard_events-length : (k : ℕ) (tr : Trace) → length (shard_events k tr) ≤ length tr
unfolding shard_events
shard_events-length k [] = ground arith
shard_events-length k (access t addr w f l ∷ tr) = ground (arith, shard_events-length k tr)
shard_events-length k (start ∷ tr) = ground (arith, shard_events-length k tr)
shard_events-length k (acquire t m ∷ tr) = ground (arith, shard_events-length k tr)
shard_events-length k (release t m ∷ tr) = ground (arith, shard_events-length k tr)
shard_events-length k (create p ∷ tr) = ground (arith, shard_events-length k tr)
shard_events-length k (join p c ∷ tr) = ground (arith, shard_events-length k tr)

spawned-shard_events : (k : ℕ) (tr : Trace) → spawned (shard_events k tr) ≡ spawned tr
unfolding shard_events spawned
spawned-shard_events k [] = refl
spawned-shard_events k (access t addr w f l ∷ tr) = ground (arith, spawned-shard_events k tr)
spawned-shard_events k (start ∷ tr) = ground (arith, spawned-shard_events k tr)
spawned-shard_events k (acquire t m ∷ tr) = ground (arith, spawned-shard_events k tr)
spawned-shard_events k (release t m ∷ tr) = ground (arith, spawned-shard_events k tr)
spawned-shard_events k (create p ∷ tr) = ground (arith, spawned-shard_events k tr)
spawned-shard_events k (join p c ∷ tr) = ground (arith, spawned-shard_events k tr)

-- The `n`-th event of the shard's view is the one at `index` of the run, and whoever knows of it in
-- the run does so in the view.
record Lifted (k : ℕ) (tr : Trace) (n : ℕ) (e : Event) : Type 0 where
  index : ℕ
  event : event_at tr index ≡ some e
  known : (p : Place) → Knows tr p index → Knows (shard_events k tr) p n

Lifted-event :
    (k : ℕ) (tr : Trace) (n : ℕ) (x e : Event)
    → (m : Lifted k tr n e)
    → ((p : Place)
        → m.index ≢ length tr
        → Knows (x ∷ tr) p m.index
        → Knows (shard_events k (x ∷ tr)) p n)
    → Lifted k (x ∷ tr) n e
unfolding event_at
Lifted-event k tr n x e m known =
    let before = event_at-lt tr m.index m.event in
    let old : (m.index == length tr) ≡ false = ground (arith, before) in
    record {
      index = m.index;
      event = rw old m.event;
      known = λ p h. known p (omega (arith, before)) h;
    }

-- An access stands among the events before `x`, which is no access or one that the shard sees.
module _ (k i n : ℕ) (tr : Trace)
    (known : (p : Place) → Knows tr p i → Knows (shard_events k tr) p n) where
  known_sync :
      (x : Event) (p : Place)
      → (shard_events k (x ∷ tr) ≡ x ∷ shard_events k tr)
      → (i ≢ length tr)
      → Knows (x ∷ tr) p i
      → Knows (x ∷ shard_events k tr) p n
  known_sync start (thread u) same old h = elim (Bool-cases (u == spawned tr)) [
    | inl new ↦ absurd (rw new at h)
    | inr was ↦
        let h' : Knows tr (thread u) i = rw was at h in
        rw (spawned-shard_events k tr, was) (known (thread u) h')
  ]
  known_sync (create q) (thread u) same old h = elim (Bool-cases (u == spawned tr)) [
    | inl new ↦
        let h' : Knows tr (thread q) i = rw new at h in
        rw (spawned-shard_events k tr, new) (known (thread q) h')
    | inr was ↦
        let h' : Knows tr (thread u) i = rw was at h in
        rw (spawned-shard_events k tr, was) (known (thread u) h')
  ]
  known_sync (access v a w f l) (thread u) same old (inl g) = absurd (old g.1)
  known_sync (access v a w f l) (thread u) same old (inr g) = inr (known (thread u) g)
  known_sync (acquire v x) (thread u) same old (inl g) = inl (known (thread u) g)
  known_sync (acquire v x) (thread u) same old (inr g) = inr (g.0, known (lock x) g.1)
  known_sync (release v x) (thread u) same old h = known (thread u) h
  known_sync (join q c) (thread u) same old (inl g) = inl (known (thread u) g)
  known_sync (join q c) (thread u) same old (inr g) = inr (g.0, known (thread c) g.1)
  known_sync (release v x) (lock m) same old (inl g) = inl (known (lock m) g)
  known_sync (release v x) (lock m) same old (inr g) = inr (g.0, known (thread v) g.1)
  known_sync start (lock m) same old h = known (lock m) h
  known_sync (access v a w f l) (lock m) same old h = known (lock m) h
  known_sync (acquire v x) (lock m) same old h = known (lock m) h
  known_sync (create q) (lock m) same old h = known (lock m) h
  known_sync (join q c) (lock m) same old h = known (lock m) h

  known_hidden :
      (v a l : ℕ) (w : Bool) (f : File) (p : Place)
      → (i ≢ length tr)
      → Knows (access v a w f l ∷ tr) p i
      → Knows (shard_events k tr) p n
  known_hidden v a l w f (thread u) old (inl g) = absurd (old g.1)
  known_hidden v a l w f (thread u) old (inr g) = known (thread u) g
  known_hidden v a l w f (lock m) old h = known (lock m) h

Lifted-sync :
    (k : ℕ) (tr : Trace) (n : ℕ) (x e : Event)
    → shard_events k (x ∷ tr) ≡ x ∷ shard_events k tr
    → Lifted k tr n e
    → Lifted k (x ∷ tr) n e
Lifted-sync k tr n x e same m =
    Lifted-event k tr n x e m
      (λ p old h. rw same (known_sync k m.index n tr m.known x p same old h))

Lifted-hidden :
    (k : ℕ) (tr : Trace) (n v a l : ℕ) (w : Bool) (f : File) (e : Event)
    → shard_events k (access v a w f l ∷ tr) ≡ shard_events k tr
    → Lifted k tr n e
    → Lifted k (access v a w f l ∷ tr) n e
Lifted-hidden k tr n v a l w f e same m =
    Lifted-event k tr n (access v a w f l) e m
      (λ p old h. rw same (known_hidden k m.index n tr m.known v a l w f p old h))

-- The newest event of both
Lifted-newest :
    (k : ℕ) (tr : Trace) (v a l : ℕ) (w : Bool) (f : File)
    → shard_events k (access v a w f l ∷ tr) ≡ access v a w f l ∷ shard_events k tr
    → Lifted k (access v a w f l ∷ tr) (length (shard_events k tr)) (access v a w f l)
unfolding event_at
Lifted-newest k tr v a l w f same = record {
  index = length tr;
  event = ground arith;
  known = λ p h. rw same (newest p h);
}
  where
    newest :
        (p : Place)
        → Knows (access v a w f l ∷ tr) p (length tr)
        → Knows (access v a w f l ∷ shard_events k tr) p (length (shard_events k tr))
    newest (thread u) (inl g) = inl (g.0, refl)
    newest (thread u) (inr g) = absurd (omega (arith, Knows-lt tr (thread u) (length tr) g))
    newest (lock m) h = absurd (omega (arith, Knows-lt tr (lock m) (length tr) h))

-- An access in the shard's view, seen from the run.
module _ (k : ℕ) {t a l : ℕ} {w : Bool} {f : File} where
  lift_access :
      (tr : Trace) (n : ℕ)
      → event_at (shard_events k tr) n ≡ some (access t a w f l)
      → Lifted k tr n (access t a w f l)
  unfolding shard_events event_at
  lift_access [] n e = absurd (ground (arith, e))
  lift_access (start ∷ tr) n e =
      Lifted-sync k tr n start _ refl (lift_access tr n (ground (arith, e)))
  lift_access (create q ∷ tr) n e =
      Lifted-sync k tr n (create q) _ refl (lift_access tr n (ground (arith, e)))
  lift_access (acquire v x ∷ tr) n e =
      Lifted-sync k tr n (acquire v x) _ refl (lift_access tr n (ground (arith, e)))
  lift_access (release v x ∷ tr) n e =
      Lifted-sync k tr n (release v x) _ refl (lift_access tr n (ground (arith, e)))
  lift_access (join q c ∷ tr) n e =
      Lifted-sync k tr n (join q c) _ refl (lift_access tr n (ground (arith, e)))
  lift_access (access v b w' f' l' ∷ tr) n e = elim (Bool-cases (shard_of (word_of b) == k)) [
    | inr hidden ↦
        let e' : event_at (shard_events k tr) n ≡ some (access t a w f l) = rw hidden at e in
        Lifted-hidden k tr n v b l' w' f' _ (rw hidden) (lift_access tr n e')
    | inl seen ↦
        let e' : event_at (access v b w' f' l' ∷ shard_events k tr) n ≡ some (access t a w f l) =
          rw seen at e in
        elim (Bool-cases (n == length (shard_events k tr))) [
          | inr before ↦
              let e'' : event_at (shard_events k tr) n ≡ some (access t a w f l) =
                rw before at e' in
              Lifted-sync k tr n (access v b w' f' l') _ (rw seen) (lift_access tr n e'')
          | inl now ↦
              let is_last : n ≡ length (shard_events k tr) = ground (arith, now) in
              let is : access v b w' f' l' ≡ access t a w f l = ground (arith, e', now) in
              rw (is_last, ← is) (Lifted-newest k tr v b l' w' f' (rw seen))
        ]
  ]

-- A race in a shard's view is one in the run.
pub Race-lifted :
    (k : ℕ) (tr : Trace) (t addr : ℕ) (is_write : Bool) (prev : Cell)
    → Race (shard_events k tr) t addr is_write prev
    → Race tr t addr is_write prev
Race-lifted k tr t addr is_write prev r =
    let m = lift_access k tr r.index r.event in
    record {
      index = m.index;
      prev_addr = r.prev_addr;
      from_file = r.from_file;
      from_line = r.from_line;
      event = m.event;
      same_word = r.same_word;
      other_thread = r.other_thread;
      conflict = r.conflict;
      unordered = λ h. r.unordered (m.known (thread t) h);
    }
