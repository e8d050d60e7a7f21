-- ===== src/Registry/World/Scans.antt =====
-- An access of several words while other threads run (runtime/redzone_race_rt.c, access_range, which
-- takes the lock of each word's shard by itself): what it prints is a race of the run.
use redzone.Prelude.{ℕ, ◌*◌, ◌^◌, ◌<◌, ◌≡◌, Bool, none, some, ◌∷◌}
use redzone.Prelude.Bits.{u64}
use redzone.Report.{File}
use redzone.Race.{Cell}
use redzone.Race.Sound.{Race}
use redzone.Race.Trace.{access}
use redzone.Registry.Runtime.Access.{Scan, scan_word}
use redzone.Registry.World.{World, Next, Reaches}
use redzone.Registry.World.Tracks.{Tracks}

-- An access by the thread `os` begins in `w`. In the state that is reached, it has the given scan. It
-- scans a word in one step, and any thread takes steps between two words; the scan reads the shards as
-- they are then.
pub data Scanning (w : World) (os h : ℕ) (is_write : Bool) (f : File) (l : ℕ)
    : World → Scan → Type 0 where
  begun :
      Scanning w os h is_write f l w
        (record { shards = w.runtime.shards; hits = 0; first_hit = none })
  word_scanned :
      {v : World} {sc : Scan} (word : ℕ)
      → Scanning w os h is_write f l v sc
      → v.runtime.selfs os ≡ some h
      → word < 2 ^ 61
      → Scanning w os h is_write f l
          (record v {
            runtime = record (v.runtime) {
              shards = (scan_word sc (v.runtime.objects h) word is_write f l).shards;
            };
            trace = access (v.runtime.objects h).tid (u64 (word * 2 ^ 3)) is_write f l ∷ v.trace;
          })
          (scan_word sc (v.runtime.objects h) word is_write f l)
  between :
      {v u : World} {sc : Scan}
      → Scanning w os h is_write f l v sc
      → Next v u
      → Scanning w os h is_write f l u (record sc { shards = u.runtime.shards })

-- A state on the way from `w` in which the new access of the thread `os` to `addr` races with `prev`
pub record Raced (w : World) (os h addr : ℕ) (is_write : Bool) (prev : Cell) : Type 0 where
  pub at : World
  pub reached : Reaches w at
  pub self_at : at.runtime.selfs os ≡ some h
  pub race : Race at.trace (at.runtime.objects h).tid addr is_write prev

module _ (room : ℕ → Bool) (w : World) (os h : ℕ) (is_write : Bool) (f : File) (l : ℕ)
    (t : Tracks room w) where
  -- What holds of a scan on the way
  record Sees (v : World) (sc : Scan) : Type 0 where
    way : Reaches w v
    tracks : Tracks room v
    same : sc.shards ≡ v.runtime.shards
    hits :
        (addr : ℕ) (prev : Cell)
        → sc.first_hit ≡ some (addr, prev)
        → Raced w os h addr is_write prev
