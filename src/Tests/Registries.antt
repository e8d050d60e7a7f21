-- ===== src/Tests/Registries.antt =====
-- The tables of the race runtime at concrete calls.
use redzone.Prelude.{ℕ, ◌≡◌, refl, true, false, none, some, List, [], ◌∷◌}
use redzone.Registry.{
  was_reported, should_report, first_free, reg_thread, take_thread, sync_index, SyncShard,
  sync_for_in,
}
use redzone.Registry.Reports.{run_reports, Limited, run_reports-Limited}

registry_program : Unit {0}
unfolding was_reported should_report first_free reg_thread take_thread sync_index sync_for_in
    run_reports
registry_program = tt

abbrev three_calls : List (ℕ × ℕ)
three_calls = (9, 5) ∷ (7, 5) ∷ (9, 5) ∷ []

two_printed : run_reports three_calls ≡ ((9, 5) ∷ (7, 5) ∷ [], 2)
unfolding registry_program
two_printed = refl

run_reports-Limited_example : Limited three_calls
run_reports-Limited_example = run_reports-Limited three_calls

-- A thread that is registered can be joined once.
joined : (take_thread (reg_thread true [] 8 80) 8).1 ≡ some 80
unfolding registry_program
joined = refl

joined_again : (take_thread (take_thread (reg_thread true [] 8 80) 8).0 8).1 ≡ none
unfolding registry_program
joined_again = refl

abbrev no_locks : SyncShard
no_locks = record { entries = []; capacity = 0 }

-- A lock is found again.
found_again : (sync_for_in false (sync_for_in true no_locks 5).0 5).1 ≡ some 0
unfolding registry_program
found_again = refl
