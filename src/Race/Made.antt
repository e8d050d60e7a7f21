-- ===== src/Race/Made.antt =====
-- What the cells of the race detector record (runtime/redzone_race.c): every valid cell stands for
-- an access of the trace.
use redzone.Prelude.{
  ℕ, zero, suc, ◌+◌, ◌<◌, ◌≡◌, refl, arith, inl, inr, Bool, true, false, ◌&&◌, some, List, [], ◌∷◌,
  ◌==◌, length, get_elem?, replicate, Bool-cases, Option-cases,
}
use redzone.Prelude.Bits.{u64}
use redzone.Report.{File}
use redzone.Race.{Cell}
use redzone.Race.Cells.{
  Bucket, RaceState, empty_cell, empty_bucket, race_state_init_n, cur_epoch, recorded, word_of,
}
use redzone.Race.Trace.{
  Event, start, access, acquire, release, create, join, thread_of, step, Trace, run, event_at,
  epoch_at,
}
use redzone.Race.Recorded.{CellsHold, access_holds, access_null, cells_later}

-- A cell stands for an access of the trace to the word of its bucket, at its epoch.
pub record Made (s : RaceState) (tr : Trace) (key : ℕ) (c : Cell) : Type 0 where
  pub index : ℕ
  pub addr : ℕ
  pub from_file : File
  pub from_line : ℕ
  pub event : event_at tr index ≡ some (access c.tid addr c.is_write from_file from_line)
  pub word : u64 (word_of addr + 1) ≡ key
  pub stamped : epoch_at s tr index ≡ c.epoch

pub event_at-lt : (tr : Trace) (n : ℕ) {x : Event} → event_at tr n ≡ some x → n < length tr
unfolding event_at
event_at-lt [] n e = ground arith
event_at-lt (y ∷ tr) n {x} e = elim (Bool-cases (n == length tr)) [
  | inl now ↦ ground (arith, now)
  | inr before ↦
      let e' : event_at tr n ≡ some x = rw before at e in omega (arith, event_at-lt tr n e')
]

Made-later :
    (s : RaceState) (tr : Trace) (x : Event) (key : ℕ) (c : Cell)
    → Made s tr key c
    → Made s (x ∷ tr) key c
unfolding event_at epoch_at
Made-later s tr x key c m =
    let old : (m.index == length tr) ≡ false = ground (arith, event_at-lt tr m.index m.event) in
    record {
      index = m.index;
      addr = m.addr;
      from_file = m.from_file;
      from_line = m.from_line;
      event = rw old m.event;
      word = m.word;
      stamped = rw old m.stamped;
    }

Made-same :
    (s : RaceState) (tr : Trace) (key : ℕ) (old c : Cell)
    → Made s tr key old
    → c.tid ≡ old.tid
    → c.is_write ≡ old.is_write
    → c.epoch ≡ old.epoch
    → Made s tr key c
Made-same s tr key old c m same_tid same_write same_epoch = record {
  index = m.index;
  addr = m.addr;
  from_file = m.from_file;
  from_line = m.from_line;
  event = rw (same_tid, same_write) m.event;
  word = m.word;
  stamped = rw same_epoch m.stamped;
}

Made-now :
    (s : RaceState) (tr : Trace) (t addr : ℕ) (w : Bool) (f : File) (l : ℕ) (c : Cell)
    → c.tid ≡ t
    → c.is_write ≡ w
    → c.epoch ≡ cur_epoch (thread_of (run s tr) t)
    → Made s (access t addr w f l ∷ tr) (u64 (word_of addr + 1)) c
unfolding event_at epoch_at
Made-now s tr t addr w f l c same_tid same_write same_epoch =
    let newest : (length tr == length tr) ≡ true = ground arith in
    record {
      index = length tr;
      addr = addr;
      from_file = f;
      from_line = l;
      event = rw (newest, same_tid, same_write);
      word = refl;
      stamped = rw (newest, same_epoch);
    }

-- What an access writes into a cell is made: by the access itself, or, if a write at the same epoch
-- stood there, by that write.
recorded-Made :
    (s : RaceState) (tr : Trace) (t addr : ℕ) (w : Bool) (f : File) (l : ℕ) (old : Cell)
    → (old.valid ≡ true → Made s tr (u64 (word_of addr + 1)) old)
    → Made s
        (access t addr w f l ∷ tr)
        (u64 (word_of addr + 1))
        (recorded old (thread_of (run s tr) t) w f l)
unfolding recorded
recorded-Made s tr t addr w f l old was =
    let now = cur_epoch (thread_of (run s tr) t) in
    let c = recorded old (thread_of (run s tr) t) w f l in
    elim (Bool-cases (old.valid && old.tid == t && old.epoch == now && old.is_write)) [
      | inl merged ↦ Made-later s tr (access t addr w f l) (u64 (word_of addr + 1)) c (
          Made-same s tr (u64 (word_of addr + 1)) old c (was (ground (arith, merged)))
            (ground (arith, merged)) (ground (arith, merged)) (ground (arith, merged)))
      | inr fresh ↦ Made-now s tr t addr w f l c refl (ground (arith, fresh)) refl
    ]

-- After every trace all cells are made.
abbrev pub AllMade : RaceState → Trace → Type 0
AllMade s tr = (bs : List Bucket) → (run s tr).state.buckets ≡ some bs → CellsHold (Made s tr) bs

older :
    (s : RaceState) (tr : Trace) (x : Event) (bs : List Bucket)
    → CellsHold (Made s tr) bs
    → CellsHold (Made s (x ∷ tr)) bs
older s tr x = cells_later (Made s tr) (Made s (x ∷ tr)) (Made-later s tr x)

made_step : (s : RaceState) (tr : Trace) (x : Event) → AllMade s tr → AllMade s (x ∷ tr)
unfolding run step
made_step s tr (access t addr w f l) all bs'' e = elim (Option-cases (run s tr).state.buckets) [
  | inl missing ↦ absurd (
      ground (
        arith,
        missing,
        e,
        access_null (run s tr).state (thread_of (run s tr) t) addr w f l missing,
      ))
  | inr (bs, has) ↦
      access_holds (Made s tr) (Made s (access t addr w f l ∷ tr))
        (Made-later s tr (access t addr w f l)) (thread_of (run s tr) t) addr w f l
        (recorded-Made s tr t addr w f l) (run s tr).state bs bs'' has (all bs has) e
]
made_step s tr start all bs e = older s tr start bs (all bs e)
made_step s tr (acquire t m) all bs e = older s tr (acquire t m) bs (all bs e)
made_step s tr (release t m) all bs e = older s tr (release t m) bs (all bs e)
made_step s tr (create p) all bs e = older s tr (create p) bs (all bs e)
made_step s tr (join p q) all bs e = older s tr (join p q) bs (all bs e)

get_elem?-replicate {ℓ} :
    {A : Type ℓ} (n i : ℕ) (a : A) {b : A} → get_elem? (replicate n a) i ≡ some b → b ≡ a
get_elem?-replicate zero i a e = ground (arith, e)
get_elem?-replicate (suc n) zero a e = ground (arith, e)
get_elem?-replicate (suc n) (suc i) a e = get_elem?-replicate n i a e

-- The state that rz_race_state_init_n leaves: no cell is valid.
abbrev pub initial : Bool → ℕ → RaceState
initial room nbuckets = (race_state_init_n room 0 nbuckets).0

pub initial_tid : (room : Bool) (nbuckets : ℕ) → (initial room nbuckets).next_tid ≡ 0
unfolding race_state_init_n
initial_tid true nbuckets = refl
initial_tid false nbuckets = refl

pub all_made : (room : Bool) (nbuckets : ℕ) (tr : Trace) → AllMade (initial room nbuckets) tr
unfolding run race_state_init_n
all_made true nbuckets [] = λ bs e j b at i c g v.
    let at' : get_elem? (replicate nbuckets empty_bucket) j ≡ some b = ground (arith, e, at) in
    let is_b = get_elem?-replicate nbuckets j empty_bucket at' in
    let g' : get_elem? (replicate 4 empty_cell) i ≡ some c = rw is_b at g in
    let is_c = get_elem?-replicate 4 i empty_cell g' in absurd (ground (arith, is_c, v))
all_made false nbuckets [] = λ bs e. absurd (ground (arith, e))
all_made room nbuckets (x ∷ tr) = made_step (initial room nbuckets) tr x (all_made room nbuckets tr)
