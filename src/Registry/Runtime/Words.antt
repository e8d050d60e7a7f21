-- ===== src/Registry/Runtime/Words.antt =====
-- One word of an access, under its shard, against the engine (runtime/redzone_race_rt.c,
-- access_range; runtime/redzone_race.c, rz_race_access_loc).
use redzone.Prelude.{
  ℕ, ◌+◌, ◌*◌, ◌^◌, ◌≡◌, refl, ap, ◌∙◌, arith, inl, inr, Bool, true, Option, none, some, ◌==◌,
  if◌then◌else◌, get_elem?, update, Bool-cases, Option-cases,
}
use redzone.Prelude.Bits.{u64}
use redzone.Report.{File}
use redzone.Race.{Cell, Thread}
use redzone.Race.Cells.{RaceState, find_bucket, word_of, race_access_loc}
use redzone.Race.Trace.{Detector, thread_of, step, access}
use redzone.Registry.{shard_of}
use redzone.Registry.Runtime.{Runtime}
use redzone.Registry.Runtime.Access.{Scan, scan_word}
use redzone.Registry.Runtime.Refine.{Refines}

-- An access depends on the table alone.
pub record Agree (a b : RaceState × Option Cell) : Type 0 where
  pub tables : a.0.buckets ≡ b.0.buckets
  pub sizes : a.0.nbuckets ≡ b.0.nbuckets
  pub answers : a.1 ≡ b.1

find_bucket_same :
    (s s' : RaceState) (word : ℕ)
    → s.buckets ≡ s'.buckets
    → s.nbuckets ≡ s'.nbuckets
    → find_bucket s word true ≡ find_bucket s' word true
unfolding find_bucket
find_bucket_same s s' word e n = elim (Option-cases s'.buckets) [
  | inl m ↦ ground (arith, m, e)
  | inr (bs, m) ↦ ground (arith, m, e, n)
]

race_access_loc-Agree :
    (s s' : RaceState) (t : Thread) (addr : ℕ) (w : Bool) (f : File) (l : ℕ)
    → s.buckets ≡ s'.buckets
    → s.nbuckets ≡ s'.nbuckets
    → Agree (race_access_loc s t addr w f l) (race_access_loc s' t addr w f l)
unfolding race_access_loc
race_access_loc-Agree s s' t addr w f l e n =
    let same = find_bucket_same s s' (word_of addr) e n in
    elim (Option-cases (find_bucket s' (word_of addr) true)) [
      | inl full ↦
          rw (race_access_loc, same, full) (record { tables = e; sizes = n; answers = refl })
      | inr ((bs, j), found) ↦ elim (Option-cases (get_elem? bs j)) [
        | inl missing ↦
            rw (race_access_loc, same, found, missing)
              (record { tables = e; sizes = n; answers = refl })
        | inr (b, at) ↦
            rw (race_access_loc, same, found, at)
              (record { tables = refl; sizes = n; answers = refl })
      ]
    ]

-- The shards and the race of one word
scan_word-shards :
    (sc : Scan) (t : Thread) (w : ℕ) (is_write : Bool) (f : File) (l : ℕ)
    → (scan_word sc t w is_write f l).shards
      ≡ update sc.shards
          (shard_of w)
          (race_access_loc (sc.shards (shard_of w)) t (u64 (w * 2 ^ 3)) is_write f l).0
unfolding scan_word
scan_word-shards sc t w is_write f l =
    elim (Option-cases
      (race_access_loc (sc.shards (shard_of w)) t (u64 (w * 2 ^ 3)) is_write f l).1) [
        | inl e ↦ rw (e, scan_word)
        | inr (c, e) ↦ rw (e, scan_word)
      ]

scan_word-hits :
    (sc : Scan) (t : Thread) (w : ℕ) (is_write : Bool) (f : File) (l : ℕ)
    → (scan_word sc t w is_write f l).hits
      ≡ (elim (race_access_loc (sc.shards (shard_of w)) t (u64 (w * 2 ^ 3)) is_write f l).1 [
        | none ↦ sc.hits
        | some prev ↦ u64 (sc.hits + 1)
      ])
unfolding scan_word
scan_word-hits sc t w is_write f l =
    elim (Option-cases
      (race_access_loc (sc.shards (shard_of w)) t (u64 (w * 2 ^ 3)) is_write f l).1) [
        | inl e ↦ rw (e, scan_word)
        | inr (c, e) ↦ rw (e, scan_word)
      ]

-- The detectors after an access: the one of the word's shard sees it, the others do not.
abbrev pub step_shard : (ℕ → Detector) → (t w : ℕ) → Bool → File → ℕ → ℕ → Detector
step_shard ds t w is_write f l k =
    if shard_of w == k then step (ds k) (access t (u64 (w * 2 ^ 3)) is_write f l) else ds k

module _ (rt : Runtime) (ds : ℕ → Detector) (sc : Scan) (os h w : ℕ) (is_write : Bool) (f : File)
    (l : ℕ) (r : Refines rt ds) (mine : rt.selfs os ≡ some h) (same : sc.shards ≡ rt.shards) where
  -- The detector of the word's shard does what the shard does.
  pub word-Agree :
      Agree
        (race_access_loc
          (ds (shard_of w)).state
          (thread_of (ds (shard_of w)) (rt.objects h).tid)
          (u64 (w * 2 ^ 3))
          is_write
          f
          l)
        (race_access_loc (sc.shards (shard_of w)) (rt.objects h) (u64 (w * 2 ^ 3)) is_write f l)
  word-Agree =
      rw (r.clocks (shard_of w) os h mine, same)
        (race_access_loc-Agree (ds (shard_of w)).state (rt.shards (shard_of w)) (rt.objects h)
          (u64 (w * 2 ^ 3)) is_write f l (r.tables (shard_of w)) (r.sizes (shard_of w)))

  word_table :
      (k : ℕ)
      → ((step_shard ds (rt.objects h).tid w is_write f l k).state.buckets
          ≡ ((scan_word sc (rt.objects h) w is_write f l).shards k).buckets)
        × ((step_shard ds (rt.objects h).tid w is_write f l k).state.nbuckets
            ≡ ((scan_word sc (rt.objects h) w is_write f l).shards k).nbuckets)
  unfolding step
  word_table k = elim (Bool-cases (shard_of w == k)) [
    | inl here ↦
        let e : shard_of w ≡ k = ground (arith, here) in
        let a = word-Agree in
        rw (scan_word-shards sc (rt.objects h) w is_write f l, here, ← e) (a.tables, a.sizes)
    | inr other ↦
        rw (scan_word-shards sc (rt.objects h) w is_write f l, other, same) (r.tables k, r.sizes k)
  ]

  word_rest :
      (k : ℕ)
      → ((step_shard ds (rt.objects h).tid w is_write f l k).clocks ≡ (ds k).clocks)
        × ((step_shard ds (rt.objects h).tid w is_write f l k).locks ≡ (ds k).locks)
  unfolding step
  word_rest k = elim (Bool-cases (shard_of w == k)) [
    | inl here ↦ rw here (refl, refl)
    | inr other ↦ rw other (refl, refl)
  ]

  -- A thread that has a handle accesses a word, in a state that refines the detectors of the shards:
  -- the new state refines the detectors after the one of the word's shard has taken the engine's
  -- step for the access, and the count of races goes up exactly if that detector reports one.
  pub scan_word-Refines :
      (Refines
        (record rt { shards = (scan_word sc (rt.objects h) w is_write f l).shards })
        (step_shard ds (rt.objects h).tid w is_write f l))
      × ((scan_word sc (rt.objects h) w is_write f l).hits
          ≡ (elim (race_access_loc
              (ds (shard_of w)).state
              (thread_of (ds (shard_of w)) (rt.objects h).tid)
              (u64 (w * 2 ^ 3))
              is_write
              f
              l).1 [ none ↦ sc.hits | some prev ↦ u64 (sc.hits + 1) ]))
  scan_word-Refines = (
    record {
      tables = λ k. (word_table k).0;
      sizes = λ k. (word_table k).1;
      locks = λ k key. ap (λ x. x key) (word_rest k).1 ∙ r.locks k key;
      clocks = λ k o x is. ap (λ c. c (rt.objects x).tid) (word_rest k).0 ∙ r.clocks k o x is;
      own = r.own;
    },
    rw (word-Agree.answers) (scan_word-hits sc (rt.objects h) w is_write f l),
  )
