-- ===== src/Tests/Races.antt =====
-- Two threads, and what the detector says of them.
use redzone.Prelude.{◌≡◌, refl, arith, inl, inr, true, none, some, [], ◌∷◌}
use redzone.Race.{
  Cell, join_from, race_check, vc_tick, vc_join, thread_init, mutex_release, mutex_acquire,
  thread_create, thread_join,
}
use redzone.Race.Cells.{
  race_state_init_n, probe, find_bucket, first_race, slot_from, recorded, record_access,
  race_access_loc,
}
use redzone.Race.Trace.{
  start, access, acquire, release, create, Trace, run, step, reported, event_at, spawned, Knows,
  thread, epoch_at,
}
use redzone.Race.Made.{initial}
use redzone.Race.Sound.{Race, no_false_report}

-- Thread 0 starts thread 1 and writes the word at 0x4000.
abbrev unsynchronized : Trace
unsynchronized = access 0 0x4000 true none 5 ∷ create 0 ∷ start ∷ []

abbrev write_by_0 : Cell
write_by_0 = record { valid = true; tid = 0; epoch = 2; is_write = true; file = none; line = 5 }

program : Unit {0}
unfolding join_from race_check vc_tick vc_join thread_init mutex_release mutex_acquire thread_create
    thread_join race_state_init_n probe find_bucket first_race slot_from recorded record_access
    race_access_loc run step event_at spawned epoch_at
program = tt

-- A write of thread 1 to that word is reported, with the write of thread 0.
write_reported : reported (initial true 16) unsynchronized 1 0x4004 true none 9 ≡ some write_by_0
unfolding program
write_reported = refl

no_false_report_example : Race unsynchronized 1 0x4004 true write_by_0
no_false_report_example =
    no_false_report true 16 unsynchronized 1 0x4004 true none 9 write_by_0 (omega arith)
      write_reported

-- With a lock between them it is not.
abbrev synchronized : Trace
synchronized = acquire 1 7 ∷ release 0 7 ∷ unsynchronized

write_ordered : reported (initial true 16) synchronized 1 0x4004 true none 9 ≡ none
unfolding program
write_ordered = refl

first_write : event_at synchronized 2 ≡ some (access 0 0x4000 true none 5)
unfolding program
first_write = refl

known : Knows synchronized (thread 1) 2
known = inr (refl, inr (refl, inl (refl, refl)))
