-- ===== src/Race/Recorded.antt =====
-- What the cells of the race detector's shadow hold (runtime/redzone_race.c): accesses that
-- the program made, under the word that it made them to.
use redzone.Prelude.{
  ℕ, zero, suc, ◌+◌, ◌*◌, ◌≡◌, ◌≢◌, ◌⊎◌, arith, inl, inr, Bool, true, none, some, List, ◌==◌,
  bit_and, get_elem?, set, get_elem?-set_self, get_elem?-lt, set-cases, Bool-cases, Option-cases,
}
use redzone.Prelude.Bits.{u64, sub64}
use redzone.Report.{File}
use redzone.Race.{Cell, Thread}
use redzone.Race.Cells.{
  Bucket, RaceState, probe, find_bucket, first_race, golden, slot_from, recorded, record_access,
  word_of, race_access_loc,
}

-- What find_bucket comes back with: a bucket of the key, or an empty one that now has the key.
abbrev pub Found : List Bucket → ℕ → List Bucket → ℕ → Type 0
Found bs key bs' j =
    ((b : Bucket) × (get_elem? bs j ≡ some b) × (b.key ≡ key) × (bs' ≡ bs))
    ⊎ ((b : Bucket) × (get_elem? bs j ≡ some b)
        × (b.key ≡ 0)
        × (bs' ≡ set bs j (record b { key = key })))

probe-Found :
    (rounds i : ℕ) (bs : List Bucket) (hash mask key : ℕ) (create : Bool) {bs' : List Bucket}
    {j : ℕ}
    → probe rounds i bs hash mask key create ≡ some (bs', j)
    → Found bs key bs' j
unfolding probe
probe-Found zero i bs hash mask key create e = cc
probe-Found (suc n) i bs hash mask key create {bs'} {j} e =
    elim (Option-cases (get_elem? bs (bit_and (hash + i) mask))) [
      | inl missing ↦ absurd (ground (arith, missing, e))
      | inr (b, at) ↦ elim (Bool-cases (b.key == key)) [
        | inl same ↦
            inl (b, ground (arith, at, same, e), ground (arith, same), ground (arith, at, same, e))
        | inr other ↦ elim (Bool-cases (b.key == 0)) [
          | inl empty ↦ inr (
            b,
            ground (arith, at, other, empty, e),
            ground (arith, empty),
            ground (arith, at, other, empty, e),
          )
          | inr taken ↦
              probe-Found n (i + 1) bs hash mask key create (ground (arith, at, other, taken, e))
        ]
      ]
    ]

module _ {ℓ} (Q : ℕ → Cell → Type ℓ) where
  -- Every valid cell lies in a bucket with a key, and satisfies `Q` under that key.
  abbrev pub CellsHold : List Bucket → Type ℓ
  CellsHold bs =
      (j : ℕ) (b : Bucket)
      → get_elem? bs j ≡ some b
      → (i : ℕ) (c : Cell) → get_elem? b.cells i ≡ some c
      → c.valid ≡ true
      → (b.key ≢ 0) × Q b.key c

  claim_holds :
      (bs : List Bucket) (j : ℕ) (b : Bucket) (key : ℕ)
      → CellsHold bs
      → get_elem? bs j ≡ some b
      → b.key ≡ 0
      → CellsHold (set bs j (record b { key = key }))
  claim_holds bs j b key hold at empty k d e i c g v =
      elim (set-cases bs j (record b { key = key }) k e) [
        | inl p ↦
            let g' : get_elem? b.cells i ≡ some c = rw p.1 at g in
            absurd ((hold j b at i c g' v).0 empty)
        | inr p ↦ hold k d p.1 i c g v
      ]

  pub Found-holds :
      (bs : List Bucket) (key : ℕ) (bs' : List Bucket) (j : ℕ)
      → Found bs key bs' j
      → CellsHold bs
      → CellsHold bs'
  Found-holds bs key bs' j (inl (b, at, same, e)) hold = rw e hold
  Found-holds bs key bs' j (inr (b, at, empty, e)) hold =
      rw e (claim_holds bs j b key hold at empty)

pub Found-key :
    (bs : List Bucket) (key : ℕ) (bs' : List Bucket) (j : ℕ) {b : Bucket}
    → Found bs key bs' j
    → get_elem? bs' j ≡ some b
    → b.key ≡ key
Found-key bs key bs' j (inl (c, at, same, e)) g = ground (arith, at, same, e, g)
Found-key bs key bs' j (inr (c, at, empty, e)) g =
    let here = get_elem?-set_self bs j (record c { key = key }) (get_elem?-lt bs j at) in
    ground (arith, e, g, here)

find-Found :
    (s : RaceState) (word : ℕ) (bs : List Bucket) {bs' : List Bucket} {j : ℕ}
    → s.buckets ≡ some bs
    → find_bucket s word true ≡ some (bs', j)
    → Found bs (u64 (word + 1)) bs' j
unfolding find_bucket
find-Found s word bs has e =
    let mask = sub64 s.nbuckets 1 in
    probe-Found s.nbuckets 0 bs (bit_and (u64 (word * golden)) mask) mask (u64 (word + 1)) true
      (ground (arith, has, e))

-- An access that finds its bucket: what it leaves behind and what it reports.
pub record Hit (s : RaceState) (t : Thread) (addr : ℕ) (w : Bool) (f : File) (l : ℕ)
    (bs : List Bucket) : Type 0 where
  pub table : List Bucket
  pub index : ℕ
  pub bucket : Bucket
  pub found : Found bs (u64 (word_of addr + 1)) table index
  pub at : get_elem? table index ≡ some bucket
  pub result : race_access_loc s t addr w f l ≡ (
    record s {
      buckets =
          some (set table index (record bucket { cells = record_access bucket.cells t w f l }));
    },
    first_race bucket.cells t w,
  )

-- An access either finds no bucket, and changes and reports nothing, or hits one.
pub access-cases :
    (s : RaceState) (t : Thread) (addr : ℕ) (w : Bool) (f : File) (l : ℕ) (bs : List Bucket)
    → s.buckets ≡ some bs
    → (race_access_loc s t addr w f l ≡ (s, none)) ⊎ Hit s t addr w f l bs
unfolding race_access_loc
access-cases s t addr w f l bs has = elim (Option-cases (find_bucket s (word_of addr) true)) [
  | inl full ↦ inl (rw (race_access_loc, full))
  | inr ((bs', j), e) ↦ elim (Option-cases (get_elem? bs' j)) [
    | inl missing ↦ inl (rw (race_access_loc, e, missing))
    | inr (b, at) ↦ inr (record {
      table = bs';
      index = j;
      bucket = b;
      found = find-Found s (word_of addr) bs has e;
      at = at;
      result = rw (race_access_loc, e, at);
    })
  ]
]

-- Without a table an access changes and reports nothing.
pub access_null :
    (s : RaceState) (t : Thread) (addr : ℕ) (w : Bool) (f : File) (l : ℕ)
    → s.buckets ≡ none
    → race_access_loc s t addr w f l ≡ (s, none)
unfolding race_access_loc find_bucket
access_null s t addr w f l null = ground arith

-- A cell of the bucket afterwards: an old one, or the new access written over an old one.
record_access-cases :
    (cells : List Cell) (t : Thread) (w : Bool) (f : File) (l i : ℕ) {c : Cell}
    → get_elem? (record_access cells t w f l) i ≡ some c
    → (get_elem? cells i ≡ some c)
      ⊎ ((k : ℕ) × (old : Cell) × (get_elem? cells k ≡ some old) × (c ≡ recorded old t w f l))
unfolding record_access
record_access-cases cells t w f l i {c} g =
    let slot = slot_from cells 0 none t.tid in
    elim (Option-cases (get_elem? cells slot)) [
      | inl missing ↦ inl (ground (arith, missing, g))
      | inr (old, at) ↦
          let g' : get_elem? (set cells slot (recorded old t w f l)) i ≡ some c =
            ground (arith, at, g) in
          elim (set-cases cells slot (recorded old t w f l) i g') [
            | inl p ↦ inr (slot, old, at, p.1)
            | inr p ↦ inl p.1
          ]
    ]

module _ {ℓ κ} (Q : ℕ → Cell → Type ℓ) (R : ℕ → Cell → Type κ)
    (later : (key : ℕ) (c : Cell) → Q key c → R key c) where
  pub cells_later : (bs : List Bucket) → CellsHold Q bs → CellsHold R bs
  cells_later bs hold j b e i c g v = let r = hold j b e i c g v in (r.0, later b.key c r.1)

  module _ (t : Thread) (addr : ℕ) (w : Bool) (f : File) (l : ℕ)
      (new : (old : Cell)
        → (old.valid ≡ true → Q (u64 (word_of addr + 1)) old)
        → R (u64 (word_of addr + 1)) (recorded old t w f l)) where
    write_holds :
        (bs : List Bucket) (j : ℕ) (b : Bucket)
        → CellsHold Q bs
        → get_elem? bs j ≡ some b
        → b.key ≡ u64 (word_of addr + 1)
        → CellsHold R (set bs j (record b { cells = record_access b.cells t w f l }))
    write_holds bs j b hold at same k d e i c g v =
        elim (set-cases bs j (record b { cells = record_access b.cells t w f l }) k e) [
          | inr p ↦ cells_later bs hold k d p.1 i c g v
          | inl p ↦
              let nonzero : b.key ≢ 0 = omega (arith, same) in
              let g' : get_elem? (record_access b.cells t w f l) i ≡ some c = rw p.1 at g in
              rw p.1 (elim (record_access-cases b.cells t w f l i g') [
                | inl old ↦ cells_later bs hold j b at i c old v
                | inr (m, old, here, is) ↦ (
                  nonzero,
                  rw (same, is) (new old (λ was. rw (← same) (hold j b at m old here was).1)),
                )
              ])
        ]

    -- An access keeps the cells sound, if what it records is.
    pub access_holds :
        (s : RaceState) (bs bs'' : List Bucket)
        → s.buckets ≡ some bs
        → CellsHold Q bs
        → (race_access_loc s t addr w f l).0.buckets ≡ some bs''
        → CellsHold R bs''
    access_holds s bs bs'' has hold e = elim (access-cases s t addr w f l bs has) [
      | inl same ↦
          let e' : bs ≡ bs'' = ground (arith, same, has, e) in rw (← e') (cells_later bs hold)
      | inr hit ↦
          let key = Found-key bs (u64 (word_of addr + 1)) hit.table hit.index hit.found hit.at in
          let cells =
            Found-holds Q bs (u64 (word_of addr + 1)) hit.table hit.index hit.found hold in
          let e' : set hit.table hit.index
                (record (hit.bucket) { cells = record_access hit.bucket.cells t w f l })
              ≡ bs'' =
            ground (arith, hit.result, e) in
          rw (← e') (write_holds hit.table hit.index hit.bucket cells hit.at key)
    ]
