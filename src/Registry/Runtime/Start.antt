-- ===== src/Registry/Runtime/Start.antt =====
-- The race runtime after init_once, and what a reported race is (runtime/redzone_race_rt.c).
use redzone.Prelude.{
  ℕ, ◌*◌, ◌^◌, ◌<◌, ◌≡◌, refl, sym, ◌∙◌, arith, inl, inr, Bool, false, ◌&&◌, none, some, [], ◌∷◌,
  ltb, length, update, Bool-cases,
}
use redzone.Prelude.Bits.{u64, u64_mod}
use redzone.Report.{File}
use redzone.Race.{Cell, Thread, thread_init}
use redzone.Race.Cells.{race_state_init_n, race_access_loc}
use redzone.Race.Trace.{Detector, Trace, start, step, run}
use redzone.Race.Made.{initial, initial_tid}
use redzone.Race.Sound.{Race, no_false_report}
use redzone.Registry.{shard_of}
use redzone.Registry.Runtime.{Runtime, register_thread, init_once}
use redzone.Registry.Runtime.Access.{Scan}
use redzone.Registry.Runtime.Refine.{Refines}
use redzone.Registry.Runtime.Words.{word-Agree}

-- The static variables as the program starts; what stands at the address of an rz_thread that is not
-- allocated yet is arbitrary.
abbrev pub zeroed : (ℕ → Thread) → Runtime
zeroed objects = record {
  shards = λ _. record { buckets = none; nbuckets = 0; next_tid = 0 };
  syncs = λ _. record { entries = []; capacity = 0 };
  next_tid = 0;
  races = 0;
  verbose = false;
  report_lines = [];
  registry = [];
  objects = objects;
  selfs = λ _. none;
}

-- The detector of a shard: 256 buckets, if calloc gives them
abbrev pub shard_trace : (ℕ → Bool) → (ℕ → Trace) → ℕ → Detector
shard_trace room traces k = run (initial (room k && ltb k 64) 256) (traces k)

one_handle : (os h o x : ℕ) → update (λ _. none) os (some h) o ≡ some x → h ≡ x
one_handle os h o x is = ground (arith, is)

-- After init_once, with memory for the root thread: the runtime refines the detectors of the shards
-- after the start of one thread, whichever of the shards got their tables.
pub init_once-Refines :
    (room : ℕ → Bool) (verbose : Bool) (objects : ℕ → Thread) (os h : ℕ)
    → Refines
        (init_once room verbose (some h) (zeroed objects) os)
        (shard_trace room (λ _. start ∷ []))
unfolding init_once register_thread run step race_state_init_n thread_init
init_once-Refines room verbose objects os h = record {
  tables =
      λ k. elim (Bool-cases (ltb k 64)) [ inl c ↦ ground (arith, c) | inr c ↦ ground (arith, c) ];
  sizes =
      λ k. elim (Bool-cases (ltb k 64)) [ inl c ↦ ground (arith, c) | inr c ↦ ground (arith, c) ];
  locks = λ k key. refl;
  clocks = λ k o x is.
      let e = one_handle os h o x is in
      let z = initial_tid (room k && ltb k 64) 256 in rw (← e, z) (ground arith);
  own = λ o o' x x' is is' same. sym (one_handle os h o x is) ∙ one_handle os h o' x' is';
}

-- A thread that has a handle accesses a word, in a state that refines the detectors of the shards
-- after any traces of fewer than 2 ^ 64 events each: if the word's shard reports the access with a
-- recorded one, then that one is in the shard's trace, is on the same word, by another thread, one of
-- the two is a write, and it does not happen before the new access.
pub race_access_loc-Race :
    (room : ℕ → Bool) (traces : ℕ → Trace) (rt : Runtime) (os h w : ℕ) (is_write : Bool) (f : File)
    (l : ℕ) (prev : Cell)
    → Refines rt (shard_trace room traces)
    → rt.selfs os ≡ some h
    → length (traces (shard_of w)) < u64_mod
    → (race_access_loc (rt.shards (shard_of w)) (rt.objects h) (u64 (w * 2 ^ 3)) is_write f l).1
      ≡ some prev
    → Race (traces (shard_of w)) (rt.objects h).tid (u64 (w * 2 ^ 3)) is_write prev
race_access_loc-Race room traces rt os h w is_write f l prev r mine small e =
    let sh = shard_of w in
    let sc : Scan = record { shards = rt.shards; hits = 0; first_hit = none } in
    let a = word-Agree rt (shard_trace room traces) sc os h w is_write f l r mine refl in
    no_false_report (room sh && ltb sh 64) 256 (traces sh) (rt.objects h).tid (u64 (w * 2 ^ 3))
      is_write f l prev small (a.answers ∙ e)
