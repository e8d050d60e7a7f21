-- ===== src/Registry/Runtime/Access.antt =====
-- runtime/redzone_race_rt.c, accesses: access_range checks each word of the range under its shard,
-- and counts and reports the races.
use redzone.Prelude.{
  ℕ, zero, suc, ◌+◌, ◌*◌, ◌/◌, ◌^◌, ◌<◌, ◌≡◌, arith, inl, inr, Bool, Option, none, some, leb, ◌==◌,
  if◌then◌else◌, update, Bool-cases, Option-cases,
}
use redzone.Prelude.Bits.{u64, u64_mod, sub64}
use redzone.Report.{File}
use redzone.Race.{Cell, Thread}
use redzone.Race.Cells.{RaceState, race_access_loc}
use redzone.Registry.{shard_of, should_report}
use redzone.Registry.Runtime.{Runtime, Allocator, self}

-- What the loop carries: the shards, `hits`, and the first hit with its word's address
pub record Scan : Type 0 where
  pub shards : ℕ → RaceState
  pub hits : ℕ
  pub first_hit : Option (ℕ × Cell)

-- One word, under its shard's lock
unfoldable pub scan_word : Scan → Thread → (w : ℕ) → Bool → File → ℕ → Scan
scan_word sc t w is_write file line =
    let sh = shard_of w in
    let addr = u64 (w * 2 ^ 3) in
    let r = race_access_loc (sc.shards sh) t addr is_write file line in
    let shards = update sc.shards sh r.0 in
    elim r.1 [
      | none ↦ record sc { shards = shards }
      | some p ↦ record {
        shards = shards;
        hits = u64 (sc.hits + 1);
        first_hit = if sc.hits == 0 then some (addr, p) else sc.first_hit;
      }
    ]

-- The loop over the words from `w` to `last`; `none` means that the fuel ran out.
unfoldable pub scan_words :
    (fuel : ℕ) → Scan → Thread → (w last : ℕ) → Bool → File → ℕ → Option Scan
scan_words zero sc t w last is_write file line = none
scan_words (suc fuel) sc t w last is_write file line =
    let rest =
      scan_words fuel (scan_word sc t w is_write file line) t (u64 (w + 1)) last is_write file
        line in
    if leb w last then rest else some sc

-- A race that is printed: the thread, the word's address, and the access before
pub record Printed : Type 0 where
  pub tid : ℕ
  pub hit_word : ℕ
  pub prev : Cell

-- After the loop: the count, and whether to print
unfoldable pub count_hits : Runtime → Scan → (tid line : ℕ) → Runtime × Option Printed
count_hits rt sc tid line =
    let rt' = record rt { shards = sc.shards } in
    elim sc.first_hit [
      | none ↦ (rt', none)
      | some (word, prev) ↦
          let (lines, print) = should_report rt.verbose rt.report_lines line prev.line in
          (
            record rt' { races = u64 (rt.races + sc.hits); report_lines = lines },
            if print then some (record { tid = tid; hit_word = word; prev = prev }) else none,
          )
    ]

-- access_range: rz_rt_read and rz_rt_write with `is_write`, where no other thread runs between two
-- words. Registry/World/Scans has the scan of one word as a step, between which others run.
unfoldable pub access_range :
    (fuel : ℕ)
    → Allocator
    → Runtime
    → (os addr size : ℕ) → Bool
    → File
    → ℕ
    → Option (Runtime × Option Printed)
access_range fuel al rt os addr size is_write file line =
    let (rt', s) = self al.fresh rt os in
    elim s [
      | none ↦ some (rt', none)
      | some h ↦
          let bytes = if size == 0 then 1 else size in
          let first = addr / 2 ^ 3 in
          let last = sub64 (u64 (addr + bytes)) 1 / 2 ^ 3 in
          let t = rt'.objects h in
          let start : Scan = record { shards = rt'.shards; hits = 0; first_hit = none } in
          elim (scan_words fuel start t first last is_write file line) [
            | none ↦ none
            | some sc ↦ some (count_hits rt' sc t.tid line)
          ]
    ]

-- rz_rt_race_count
unfoldable pub race_count : Runtime → ℕ
race_count rt = rt.races

-- rz_rt_report_atexit of runtime/redzone_race_main.c: nothing, or the count that is printed, with the
-- status that the process ends with unless it is to keep its own.
unfoldable pub report_atexit : (no_exit : Bool) → Runtime → Option (ℕ × Option ℕ)
report_atexit no_exit rt =
    let n = race_count rt in if n == 0 then none else some (n, if no_exit then none else some 66)

scan_words_total :
    (fuel : ℕ) (sc : Scan) (t : Thread) (w last : ℕ) (is_write : Bool) (file : File) (line : ℕ)
    → last + 1 < u64_mod
    → last + 1 < w + fuel
    → 0 < fuel
    → (sc' : Scan) × (scan_words fuel sc t w last is_write file line ≡ some sc')
unfolding scan_words
scan_words_total zero sc t w last is_write file line small enough some_fuel = absurd (omega arith)
scan_words_total (suc fuel) sc t w last is_write file line small enough some_fuel =
    elim (Bool-cases (leb w last)) [
      | inl more ↦
          let next : u64 (w + 1) ≡ w + 1 = ground arith in
          rw (more, next)
            (scan_words_total fuel (scan_word sc t w is_write file line) t (w + 1) last is_write
              file line small (ground arith) (ground arith))
      | inr done ↦ (sc, rw done)
    ]

-- An access of any size at any address, also one that wraps around: with fuel for three words more
-- than an eighth of its size, the loop over its words ends and the operation returns.
pub access_range_total :
    (fuel : ℕ) (al : Allocator) (rt : Runtime) (os addr size : ℕ) (is_write : Bool) (file : File)
    (line : ℕ)
    → addr < u64_mod
    → size < u64_mod
    → size / 8 + 3 < fuel
    → (r : Runtime × Option Printed) × (access_range fuel al rt os addr size is_write file line
        ≡ some r)
unfolding access_range
access_range_total fuel al rt os addr size is_write file line ha hs enough =
    elim (Option-cases (self al.fresh rt os).1) [
      | inl e ↦ (((self al.fresh rt os).0, none), rw (e, access_range))
      | inr (h, e) ↦
          let bytes = if size == 0 then 1 else size in
          let last = sub64 (u64 (addr + bytes)) 1 / 2 ^ 3 in
          let t = (self al.fresh rt os).0.objects h in
          let start : Scan = record {
            shards = (self al.fresh rt os).0.shards;
            hits = 0;
            first_hit = none;
          } in
          let (sc, ends) =
            scan_words_total fuel start t (addr / 2 ^ 3) last is_write file line (omega arith)
              (ground arith) (omega arith) in
          (count_hits (self al.fresh rt os).0 sc t.tid line, rw (e, access_range, ends))
    ]
