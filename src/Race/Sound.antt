-- ===== src/Race/Sound.antt =====
-- The race detector of runtime/redzone_race.c reports only races: each report names an earlier
-- conflicting access of another thread that nothing orders before the new one.
use redzone.Prelude.{
  ℕ, suc, ◌+◌, ◌<◌, ◌≡◌, ◌≢◌, ap, arith, inl, inr, Bool, true, ◌||◌, some, List, [], ◌∷◌, length,
  get_elem?, Bool-cases, Option-cases,
}
use redzone.Prelude.Bits.{u64, u64_mod}
use redzone.Report.{File}
use redzone.Race.{Cell, Thread, VectorClock, race_check}
use redzone.Race.Cells.{first_race, word_of}
use redzone.Race.Trace.{access, thread_of, Trace, run, reported, event_at, Knows, thread}
use redzone.Race.Order.{Knows-le}
use redzone.Race.Recorded.{access-cases, access_null, Found-key, Found-holds}
use redzone.Race.Made.{Made, initial, initial_tid, all_made}

first_race_sound :
    (cells : List Cell) (t : Thread) (w : Bool) {c : Cell}
    → first_race cells t w ≡ some c
    → (i : ℕ) × (get_elem? cells i ≡ some c) × (race_check c t.tid t.clock w ≡ true)
unfolding first_race
first_race_sound [] t w e = absurd (ground (arith, e))
first_race_sound (x ∷ xs) t w {c} e = elim (Bool-cases (race_check x t.tid t.clock w)) [
  | inl yes_here ↦
      let is : x ≡ c = ground (arith, e, yes_here) in (0, ap some is, rw (← is) yes_here)
  | inr not_here ↦
      let (i, at, raced) = first_race_sound xs t w (rw not_here at e) in (suc i, at, raced)
]

race_check_facts :
    (c : Cell) (t : ℕ) (cur : VectorClock) (w : Bool)
    → race_check c t cur w ≡ true
    → (c.valid ≡ true)
      × (c.tid ≢ t)
      × ((c.is_write || w) ≡ true)
      × (c.tid < 64)
      × (cur c.tid < c.epoch)
unfolding race_check
race_check_facts c t cur w e =
    (ground arith, ground arith, ground arith, ground arith, ground arith)

-- An access of the trace that races with a new access by `t`: of another thread, to the same word,
-- one of the two a write, and not ordered before what `t` does next.
pub record Race (tr : Trace) (t addr : ℕ) (is_write : Bool) (prev : Cell) : Type 0 where
  pub index : ℕ
  pub prev_addr : ℕ
  pub from_file : File
  pub from_line : ℕ
  pub event : event_at tr index ≡ some (access prev.tid prev_addr prev.is_write from_file from_line)
  pub same_word : word_of prev_addr ≡ word_of addr
  pub other_thread : prev.tid ≢ t
  pub conflict : (prev.is_write || is_write) ≡ true
  pub unordered : ¬ Knows tr (thread t) index

-- From the initial state of any table size, or of a failed initialization, after any trace of
-- fewer than 2 ^ 64 events: if an access is reported with a recorded access, then that access is
-- an event of the trace on the same 8-byte word by another thread, one of the two is a write, and
-- it does not happen before the new one.
pub no_false_report :
    (room : Bool) (nbuckets : ℕ) (tr : Trace) (t addr : ℕ) (w : Bool) (f : File) (l : ℕ)
    (prev : Cell)
    → length tr < u64_mod
    → reported (initial room nbuckets) tr t addr w f l ≡ some prev
    → Race tr t addr w prev
no_false_report room nbuckets tr t addr w f l prev small e =
    let s = initial room nbuckets in
    let d = run s tr in
    elim (Option-cases d.state.buckets) [
      | inl missing ↦
          absurd (ground (arith, e, access_null d.state (thread_of d t) addr w f l missing))
      | inr (bs, has) ↦ elim (access-cases d.state (thread_of d t) addr w f l bs has) [
        | inl same ↦ absurd (ground (arith, e, same))
        | inr hit ↦
            let first : first_race hit.bucket.cells (thread_of d t) w ≡ some prev =
              ground (arith, e, hit.result) in
            let (i, at, raced) = first_race_sound hit.bucket.cells (thread_of d t) w first in
            let facts = race_check_facts prev t (d.clocks t) w raced in
            let key = Found-key bs (u64 (word_of addr + 1)) hit.table hit.index hit.found hit.at in
            let cells =
              Found-holds (Made s tr) bs (u64 (word_of addr + 1)) hit.table hit.index hit.found
                (all_made room nbuckets tr bs has) in
            let made = (cells hit.index hit.bucket hit.at i prev at facts.0).1 in
            record {
              index = made.index;
              prev_addr = made.addr;
              from_file = made.from_file;
              from_line = made.from_line;
              event = made.event;
              same_word = omega (arith, made.word, key);
              other_thread = facts.1;
              conflict = facts.2;
              unordered = λ k. omega (
                arith,
                facts.4,
                made.stamped,
                Knows-le s tr (thread t) made.index prev.tid made.addr prev.is_write made.from_file
                    made.from_line (initial_tid room nbuckets) small facts.3 made.event k,
              );
            }
      ]
    ]
