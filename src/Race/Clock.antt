-- ===== src/Race/Clock.antt =====
-- The clock operations of runtime/redzone_race.c, entry by entry.
use redzone.Prelude.{
  ℕ, zero, suc, ◌+◌, ◌<◌, ◌≡◌, arith, ◌&&◌, max, ltb, leb, ◌==◌, if◌then◌else◌, update,
}
use redzone.Prelude.Bits.{u64_mod}
use redzone.Race.{max_threads, VectorClock, vc_tick, join_from, vc_join}

join_from_lem :
    (n i : ℕ) (dst src : VectorClock) (u : ℕ)
    → join_from n i dst src u ≡ (if leb i u && ltb u (i + n) then max (dst u) (src u) else dst u)
unfolding join_from
join_from_lem zero i dst src u = ground arith
join_from_lem (suc n) i dst src u = ground (
  arith,
  join_from_lem n (i + 1) (if ltb (dst i) (src i) then update dst i (src i) else dst) src u,
)

join_upto :
    (n : ℕ) (dst src : VectorClock) (u : ℕ)
    → join_from n 0 dst src u ≡ (if ltb u n then max (dst u) (src u) else dst u)
join_upto n dst src u = ground (arith, join_from_lem n 0 dst src u)

-- The loop of the join takes the larger epoch for every thread below 64, and leaves every other
-- entry as it was.
pub vc_join_lem :
    (dst src : VectorClock) (u : ℕ)
    → vc_join dst src u ≡ (if ltb u max_threads then max (dst u) (src u) else dst u)
unfolding vc_join
vc_join_lem dst src u = join_upto max_threads dst src u

-- Below the last epoch a tick adds one to the thread's own entry, if it is tracked.
pub vc_tick_lem :
    (c : VectorClock) (tid u : ℕ)
    → c tid + 1 < u64_mod
    → vc_tick c tid u ≡ (if u == tid && ltb tid max_threads then c u + 1 else c u)
unfolding vc_tick
vc_tick_lem c tid u small = ground arith
