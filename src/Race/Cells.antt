-- ===== src/Race/Cells.antt =====
-- runtime/redzone_race.c, the shadow of the race detector: an open-addressing table from words to
-- the recent accesses, and rz_race_access_loc.
use redzone.Prelude.{
  ℕ, zero, suc, ◌+◌, ◌*◌, ◌/◌, Bool, true, false, ◌&&◌, ◌||◌, Option, none, some, List, [], ◌∷◌,
  ltb, ◌==◌, if◌then◌else◌, bit_and, get_elem?, set, replicate,
}
use redzone.Prelude.Bits.{u64, sub64}
use redzone.Report.{File}
use redzone.Race.{max_threads, Cell, race_check, Thread}

-- RZ_RACE_BUCKETS
abbrev pub race_buckets : ℕ
race_buckets = 16384

-- RZ_RACE_CELLS
abbrev pub race_cells : ℕ
race_cells = 4

-- rz_bucket; `key` is the word plus one, and 0 if the bucket is empty
pub record Bucket : Type 0 where
  pub key : ℕ
  pub cells : List Cell

-- rz_race_state; `none` is the NULL table of a failed initialization
pub record RaceState : Type 0 where
  pub buckets : Option (List Bucket)
  pub nbuckets : ℕ
  pub next_tid : ℕ

abbrev pub empty_cell : Cell
empty_cell = record { valid = false; tid = 0; epoch = 0; is_write = false; file = none; line = 0 }

abbrev pub empty_bucket : Bucket
empty_bucket = record { key = 0; cells = replicate race_cells empty_cell }

-- rz_race_state_init_n; `room` says whether calloc gives the table. The Bool is true for 0, not -1.
unfoldable pub race_state_init_n : Bool → ℕ → ℕ → RaceState × Bool
race_state_init_n room old_next nbuckets =
    if room
    then (
      record {
        buckets = some (replicate nbuckets empty_bucket);
        nbuckets = nbuckets;
        next_tid = 0;
      },
      true,
    )
    else (record { buckets = none; nbuckets = 0; next_tid = old_next }, false)

-- The rounds of find_bucket from `i` on. The result is the table and the index of the bucket.
unfoldable pub probe :
    (rounds i : ℕ) → List Bucket → (hash mask key : ℕ) → Bool → Option (List Bucket × ℕ)
probe zero i bs hash mask key create = none
probe (suc n) i bs hash mask key create =
    let rest = probe n (i + 1) bs hash mask key create in
    let j = bit_and (hash + i) mask in
    elim (get_elem? bs j) [
      | none ↦ none
      | some b ↦
          if b.key == key
          then some (bs, j)
          else if b.key == 0
          then if create then some (set bs j (record b { key = key }), j) else none
          else rest
    ]

abbrev pub golden : ℕ
golden = 0x9e3779b97f4a7c15

unfoldable pub find_bucket : RaceState → ℕ → Bool → Option (List Bucket × ℕ)
find_bucket s word create = elim s.buckets [
  | none ↦ none
  | some bs ↦
      let mask = sub64 s.nbuckets 1 in
      probe s.nbuckets 0 bs (bit_and (u64 (word * golden)) mask) mask (u64 (word + 1)) create
]

-- The first recorded access that the new one races with.
unfoldable pub first_race : List Cell → Thread → Bool → Option Cell
first_race [] t is_write = none
first_race (c ∷ cs) t is_write =
    if race_check c t.tid t.clock is_write then some c else first_race cs t is_write

-- The slot to record in: one of this thread, else the first free one, else slot 0.
unfoldable pub slot_from : List Cell → ℕ → Option ℕ → ℕ → ℕ
slot_from [] i none tid = 0
slot_from [] i (some f) tid = f
slot_from (c ∷ cs) i free tid =
    if c.valid && c.tid == tid
    then i
    else slot_from cs (i + 1)
        (elim free [ none ↦ if c.valid then none else some i | some f ↦ some f ]) tid

-- The epoch that the access is stamped with.
abbrev pub cur_epoch : Thread → ℕ
cur_epoch t = if ltb t.tid max_threads then t.clock t.tid else 0

-- What is written over the cell `c`: two accesses at one epoch are combined.
unfoldable pub recorded : Cell → Thread → Bool → File → ℕ → Cell
recorded c t is_write file line = record {
  valid = true;
  tid = t.tid;
  epoch = cur_epoch t;
  is_write =
      if c.valid && c.tid == t.tid && c.epoch == cur_epoch t
      then c.is_write || is_write
      else is_write;
  file = file;
  line = line;
}

-- The second half of rz_race_access_loc, on the cells of the bucket.
unfoldable pub record_access : List Cell → Thread → Bool → File → ℕ → List Cell
record_access cells t is_write file line =
    let slot = slot_from cells 0 none t.tid in
    elim (get_elem? cells slot) [
      | none ↦ cells
      | some c ↦ set cells slot (recorded c t is_write file line)
    ]

-- The word that an access is recorded under; the address is a uintptr_t.
abbrev pub word_of : ℕ → ℕ
word_of addr = u64 addr / 8

-- rz_race_access_loc: the state, and the first access that it races with
unfoldable pub race_access_loc :
    RaceState → Thread → (addr : ℕ) → Bool → File → ℕ → RaceState × Option Cell
race_access_loc s t addr is_write file line = elim (find_bucket s (word_of addr) true) [
  | none ↦ (s, none)
  | some (bs, j) ↦ elim (get_elem? bs j) [
    | none ↦ (s, none)
    | some b ↦ (
      record s {
        buckets = some (set bs j (record b { cells = record_access b.cells t is_write file line }));
      },
      first_race b.cells t is_write,
    )
  ]
]
