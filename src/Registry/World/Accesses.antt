-- ===== src/Registry/World/Accesses.antt =====
-- An access of any size within a run (runtime/redzone_race_rt.c, access_range): its words are steps of
-- the run, and what it prints is a race of the run.
use redzone.Prelude.{
  ℕ, zero, suc, ◌+◌, ◌*◌, ◌/◌, ◌^◌, ◌<◌, ◌≡◌, refl, sym, ap, ◌∙◌, arith, inl, inr, Bool, Option,
  none, some, ◌∷◌, leb, ◌==◌, if◌then◌else◌, length, Bool-cases, Option-cases,
}
use redzone.Prelude.Bits.{u64, u64_mod, sub64}
use redzone.Report.{File}
use redzone.Race.{Cell, Thread}
use redzone.Race.Cells.{race_access_loc}
use redzone.Race.Sound.{Race}
use redzone.Race.Trace.{access}
use redzone.Registry.{shard_of}
use redzone.Registry.Runtime.{Runtime, Allocator}
use redzone.Registry.Runtime.Access.{
  Scan, scan_word, scan_words, Printed, count_hits, access_range, access_range_total,
}
use redzone.Registry.Runtime.Ranges.{access_range_lem, count_hits-printed, count_hits-shards}
use redzone.Registry.World.{World, begin, Next, touch, count, Reaches, here, later}
use redzone.Registry.World.Tracks.{Tracks}
use redzone.Registry.World.Steps.{Next-Tracks, word-Race, run-Tracks}

-- A state on the way from `w` in which the new access of thread `t` to `addr` races with `prev`
pub record Witnessed (w : World) (t addr : ℕ) (is_write : Bool) (prev : Cell) : Type 0 where
  pub at : World
  pub reached : Reaches w at
  pub race : Race at.trace t addr is_write prev

module _ (room : ℕ → Bool) (w : World) (os h : ℕ) (is_write : Bool) (f : File) (l : ℕ) where
  -- The first hit of a scan is a race on the way.
  Hits : Scan → ℕ → Type 0
  Hits sc t =
      (addr : ℕ) (prev : Cell) → sc.first_hit ≡ some (addr, prev) → Witnessed w t addr is_write prev

  -- One word
  word-Hits :
      (v : World) (sc : Scan) (word : ℕ)
      → Reaches w v
      → Tracks room v
      → v.runtime.selfs os ≡ some h
      → length v.trace < u64_mod
      → sc.shards ≡ v.runtime.shards
      → Hits sc (v.runtime.objects h).tid
      → Hits (scan_word sc (v.runtime.objects h) word is_write f l) (v.runtime.objects h).tid
  unfolding scan_word Hits
  word-Hits v sc word reached t mine small same hits addr prev e =
      let r =
        race_access_loc (sc.shards (shard_of word)) (v.runtime.objects h) (u64 (word * 2 ^ 3))
          is_write f l in
      elim (Option-cases r.1) [
        | inl calm ↦ hits addr prev (rw (calm, scan_word) at e)
        | inr (p, raced) ↦ elim (Bool-cases (sc.hits == 0)) [
          | inr more ↦ hits addr prev (ground (arith, e, raced, more))
          | inl first ↦
              let is_addr : u64 (word * 2 ^ 3) ≡ addr = ground (arith, e, raced, first) in
              let is_prev : p ≡ prev = ground (arith, e, raced, first) in
              rw (← is_addr, ← is_prev)
                (record {
                  at = v;
                  reached = reached;
                  race = word-Race room v os h word is_write f l p t mine small (rw same at raced);
                })
        ]
      ]

  -- What a scan from the state `v` leaves
  record Scanned (v : World) (sc : Scan) (t : ℕ) : Type 0 where
    after : World
    reached : Reaches w after
    same : after.runtime ≡ record (v.runtime) { shards = sc.shards }
    hits : Hits sc t

  scan_words-Scanned :
      (fuel : ℕ) (v : World) (sc sc' : Scan) (word last : ℕ)
      → Reaches w v
      → Tracks room v
      → v.runtime.selfs os ≡ some h
      → length v.trace + fuel < u64_mod
      → last < 2 ^ 61
      → sc.shards ≡ v.runtime.shards
      → Hits sc (v.runtime.objects h).tid
      → scan_words fuel sc (v.runtime.objects h) word last is_write f l ≡ some sc'
      → Scanned v sc' (v.runtime.objects h).tid
  unfolding scan_words
  scan_words-Scanned zero v sc sc' word last reached t mine small bound same hits e =
      absurd (ground (arith, e))
  scan_words-Scanned (suc fuel) v sc sc' word last reached t mine small bound same hits e =
      elim (Bool-cases (leb word last)) [
        | inr done ↦
            let is : sc ≡ sc' = ground (arith, e, done) in
            rw (← is) (record { after = v; reached = reached; same = rw same; hits = hits })
        | inl more ↦
            let step : Next v (record v {
              runtime = record (v.runtime) {
                shards = (scan_word sc (v.runtime.objects h) word is_write f l).shards;
              };
              trace = access (v.runtime.objects h).tid (u64 (word * 2 ^ 3)) is_write f l ∷ v.trace;
            }) =
              touch sc os h word is_write f l mine (ground arith) same in
            let next : u64 (word + 1) ≡ word + 1 = ground arith in
            let r =
              scan_words-Scanned fuel _ (scan_word sc (v.runtime.objects h) word is_write f l) sc'
                (u64 (word + 1)) last (later reached step) (Next-Tracks room step t) mine
                (omega (arith, small)) bound refl
                (word-Hits v sc word reached t mine (omega (arith, small)) same hits)
                (rw more at e) in
            record { after = r.after; reached = r.reached; same = r.same; hits = r.hits }
      ]

-- In every state that a run reaches, a thread that has a handle accesses memory of any size, with
-- fuel for three words more than an eighth of the size and fewer than 2 ^ 64 events in all: the
-- operation returns, a state with the resulting runtime is reached by further steps of the run, and
-- if a race is printed, then it is of this thread and, in a state on the way, its access to the
-- printed word races with the printed access.
pub access_range-Race :
    (room : ℕ → Bool) (verbose : Bool) (objects : ℕ → Thread) (root root_h : ℕ) (w : World)
    (fuel : ℕ) (al : Allocator) (os h addr size : ℕ) (is_write : Bool) (f : File) (l : ℕ)
    → Reaches (begin room verbose objects root root_h) w
    → w.runtime.selfs os ≡ some h
    → addr < u64_mod
    → size < u64_mod
    → size / 8 + 3 < fuel
    → length w.trace + fuel < u64_mod
    → (r : Runtime × Option Printed) × (access_range fuel al w.runtime os addr size is_write f l
        ≡ some r)
      × ((u : World) × Reaches w u × (u.runtime ≡ r.0))
      × ((p : Printed)
          → r.1 ≡ some p
          → (p.tid ≡ (w.runtime.objects h).tid) × Witnessed w p.tid p.hit_word is_write p.prev)
unfolding Hits
access_range-Race room verbose objects root root_h w fuel al os h addr size is_write f l r mine
      small_addr small_size enough small =
    let t = run-Tracks room verbose objects root root_h r in
    let bytes = if size == 0 then 1 else size in
    let last = sub64 (u64 (addr + bytes)) 1 / 2 ^ 3 in
    let start : Scan = record { shards = w.runtime.shards; hits = 0; first_hit = none } in
    let thr = w.runtime.objects h in
    let lem = access_range_lem fuel al w.runtime os h addr size is_write f l mine in
    elim (Option-cases (scan_words fuel start thr (addr / 2 ^ 3) last is_write f l)) [
      | inl stuck ↦
          let total =
            access_range_total fuel al w.runtime os addr size is_write f l small_addr small_size
              enough in
          let never : access_range fuel al w.runtime os addr size is_write f l ≡ none =
            lem ∙ rw stuck in
          absurd (ground (arith, total.1, never))
      | inr (sc, ends) ↦
          let s =
            scan_words-Scanned room w os h is_write f l fuel w start sc (addr / 2 ^ 3) last here t
              mine small (omega arith) refl (λ a p no_hit. absurd (ground (arith, no_hit))) ends in
          let counted = count sc thr.tid l (sym (ap (λ x. x.shards) s.same)) in
          (
            count_hits w.runtime sc thr.tid l,
            lem ∙ rw ends,
            (
              record (s.after) { runtime = (count_hits s.after.runtime sc thr.tid l).0 },
              later s.reached counted,
              ap (λ x. (count_hits x sc thr.tid l).0) s.same
                  ∙ count_hits-shards w.runtime sc thr.tid l,
            ),
            λ p is.
                let (is_tid, first) = count_hits-printed w.runtime sc thr.tid l p is in
                (is_tid, rw is_tid (s.hits p.hit_word p.prev first)),
          )
    ]
