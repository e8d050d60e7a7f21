-- ===== src/Tests/Runtimes.antt =====
-- The race runtime with two threads.
use redzone.Prelude.{
  ℕ, ◌*◌, ◌^◌, ◌≡◌, refl, arith, Bool, true, false, Option, none, some, ◌∷◌, update,
}
use redzone.Prelude.Bits.{u64}
use redzone.Race.{Thread, vc_init, vc_tick, race_check, thread_init, thread_create}
use redzone.Race.Cells.{
  race_access_loc, race_state_init_n, probe, find_bucket, first_race, slot_from, recorded,
  record_access,
}
use redzone.Race.Trace.{access, acquire}
use redzone.Registry.{shard_of, reg_thread, take_thread, first_free, should_report, was_reported}
use redzone.Registry.Runtime.{
  Runtime, Allocator, PthreadCall, register_thread, init_once, self, mutex_lock,
}
use redzone.Registry.Runtime.Access.{
  Scan, Printed, scan_word, scan_words, count_hits, access_range, access_range_total,
}
use redzone.Registry.Runtime.Threads.{create_begin, create_end, trampoline}
use redzone.Registry.World.{World, begin}
use redzone.Registry.World.Tracks.{Tracks}
use redzone.Registry.World.Calls.{forking}

abbrev unused : ℕ → Thread
unused h = record { tid = 99; clock = vc_init }

abbrev all_room : ℕ → Bool
all_room k = true

abbrev roomy : Allocator
roomy = record { fresh = none; grow = true }

-- Thread 0, with the handle 7, has created thread 1, with the handle 8, which runs.
abbrev root : World
root = begin all_room false unused 0 7

abbrev creating : World
creating = forking root 7 8

abbrev returned : PthreadCall
returned rt = (rt, 0)

-- The child runs before pthread_create has returned.
abbrev running : World
running = record creating {
  runtime = trampoline creating.runtime 1 8;
  pending = update creating.pending 8 false;
}

abbrev created : World
created = record running {
  runtime = create_end true 500 8 running.runtime 0;
  unnamed = update running.unnamed 8 false;
  named = update running.named 500 (some 8);
}

-- Thread 1 has written the word 0x800.
abbrev no_hits : Scan
no_hits = record { shards = created.runtime.shards; hits = 0; first_hit = none }

abbrev written : World
written = record created {
  runtime = record (created.runtime) {
    shards = (scan_word no_hits (created.runtime.objects 8) 0x800 true none 5).shards;
  };
  trace = access (created.runtime.objects 8).tid (u64 (0x800 * 2 ^ 3)) true none 5 ∷ created.trace;
}

-- Thread 0 writes it too, and the word after it, and thread 1 locks a mutex in between.
abbrev found : Scan
found =
    scan_word (record { shards = written.runtime.shards; hits = 0; first_hit = none })
      (written.runtime.objects 7) 0x800 true none 9

abbrev half : World
half = record written {
  runtime = record (written.runtime) { shards = found.shards };
  trace = access (written.runtime.objects 7).tid (u64 (0x800 * 2 ^ 3)) true none 9 ∷ written.trace;
}

abbrev locked : World
locked = record half {
  runtime = mutex_lock roomy half.runtime 1 0x9000;
  trace = acquire (half.runtime.objects 8).tid 0x9000 ∷ half.trace;
}

abbrev printed_at : Option (Runtime × Option Printed) → ℕ × ℕ
printed_at none = (0, 0)
printed_at (some (rt, none)) = (1, 0)
printed_at (some (rt, some p)) = (2, p.prev.line)

access_range-prints :
    printed_at (access_range 5 roomy written.runtime 0 0x4000 8 true none 9) ≡ (2, 5)
unfolding init_once register_thread create_begin create_end trampoline thread_init thread_create
    vc_tick scan_word scan_words count_hits access_range self shard_of race_check race_state_init_n
    probe find_bucket first_race slot_from recorded record_access race_access_loc should_report
    was_reported
access_range-prints = refl

access_range_total_example :
    (r : Runtime × Option Printed) × (access_range 5 roomy root.runtime 0 0x4006 4 true none 5
      ≡ some r)
access_range_total_example =
    access_range_total 5 roomy root.runtime 0 0x4006 4 true none 5 (omega arith) (omega arith)
      (omega arith)

-- Thread 1 has ended, and thread 0 joins it.
abbrev ended : World
ended = record written {
  runtime = record (written.runtime) { selfs = update written.runtime.selfs 1 none };
}

abbrev ending : PthreadCall
ending rt = (ended.runtime, 0)
