-- ===== src/Registry/Runtime/Ranges.antt =====
-- What access_range of runtime/redzone_race_rt.c makes of its scan: the count of the hits, and the
-- print of the first one.
use redzone.Prelude.{
  ℕ, ◌+◌, ◌/◌, ◌^◌, ◌≡◌, refl, ap, arith, inl, inr, Bool, none, some, ◌==◌, if◌then◌else◌,
  Bool-cases, Option-cases,
}
use redzone.Prelude.Bits.{u64, sub64}
use redzone.Report.{File}
use redzone.Registry.{should_report}
use redzone.Registry.Runtime.{Runtime, Allocator}
use redzone.Registry.Runtime.Access.{Scan, scan_words, Printed, count_hits, access_range}
use redzone.Registry.Runtime.Refine.{self_lem}

some-inj : {A : Type 0} {a b : A} → some a ≡ some b → a ≡ b
some-inj {A} {a} {b} e = ap (λ o. elim o [ none ↦ a | some x ↦ x ]) e

-- What access_range does for a thread that has a handle
pub access_range_lem :
    (fuel : ℕ) (al : Allocator) (rt : Runtime) (os h addr size : ℕ) (is_write : Bool) (f : File)
    (l : ℕ)
    → rt.selfs os ≡ some h
    → access_range fuel al rt os addr size is_write f l
      ≡ (elim (scan_words fuel
          (record { shards = rt.shards; hits = 0; first_hit = none })
          (rt.objects h)
          (addr / 2 ^ 3)
          (sub64 (u64 (addr + (if size == 0 then 1 else size))) 1 / 2 ^ 3)
          is_write
          f
          l) [ none ↦ none | some sc ↦ some (count_hits rt sc (rt.objects h).tid l) ])
unfolding access_range
access_range_lem fuel al rt os h addr size is_write f l mine =
    let start : Scan = record { shards = rt.shards; hits = 0; first_hit = none } in
    let last = sub64 (u64 (addr + (if size == 0 then 1 else size))) 1 / 2 ^ 3 in
    rw (self_lem al.fresh rt os h mine, access_range)
      (elim (Option-cases (scan_words fuel start (rt.objects h) (addr / 2 ^ 3) last is_write f l)) [
        | inl e ↦ rw (self_lem al.fresh rt os h mine, e)
        | inr (sc, e) ↦ rw (self_lem al.fresh rt os h mine, e) (rw (self_lem al.fresh rt os h mine))
      ])

-- The print is the first hit.
pub count_hits-printed :
    (rt : Runtime) (sc : Scan) (tid line : ℕ) (p : Printed)
    → (count_hits rt sc tid line).1 ≡ some p
    → (p.tid ≡ tid) × (sc.first_hit ≡ some (p.hit_word, p.prev))
unfolding count_hits
count_hits-printed rt sc tid line p e = elim (Option-cases sc.first_hit) [
  | inl calm ↦ absurd (ground (arith, rw (calm, count_hits) at e))
  | inr ((word, prev), is) ↦
      let verdict = should_report rt.verbose rt.report_lines line prev.line in
      let e' : (if verdict.1
            then some (record { tid = tid; hit_word = word; prev = prev })
            else none)
          ≡ some p =
        rw (is, count_hits) at e in
      elim (Bool-cases verdict.1) [
        | inl print ↦
            let is_p : record { tid = tid; hit_word = word; prev = prev } ≡ p =
              some-inj (rw print at e') in
            rw (← is_p) (refl, is)
        | inr quiet ↦ absurd (ground (arith, e', quiet))
      ]
]

-- The count writes the shards of the scan.
pub count_hits-shards :
    (rt : Runtime) (sc : Scan) (tid line : ℕ)
    → (count_hits (record rt { shards = sc.shards }) sc tid line).0 ≡ (count_hits rt sc tid line).0
unfolding count_hits
count_hits-shards rt sc tid line = elim (Option-cases sc.first_hit) [
  | inl calm ↦ rw (calm, count_hits)
  | inr (hit, is) ↦ rw (is, count_hits)
]
