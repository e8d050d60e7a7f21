-- ===== src/Tests/Passes.antt =====
-- The instrumentation pass on a small function.
use redzone.Prelude.{
  ℕ, ◌+◌, ◌≤◌, ◌<◌, ◌≡◌, refl, sym, ap, ◌∙◌, arith, Bool, true, false, not, none, some, List, [],
  ◌∷◌, if◌then◌else◌, get_elem?,
}
use mathlib.Core.Path.{subst}
use redzone.Shadow.{Shadow, byte_poisoned, stack_enter}
use redzone.Shadow.Range.{within}
use redzone.Report.{Outcome, read, returns}
use redzone.Table.{Block as Allocation}
use redzone.Heap.{Heap}
use redzone.Heap.Valid.{IsValid}
use redzone.Check.{check}
use redzone.Pass.{
  original, runtime_call, checked_access, padded_alloca, slot_base, file_name, Operand, value,
  constant, function, Alloca, Instr, load, store, call, invoke, alloca, ret, other, Node, Block, Fn,
  Emitted,
}
use redzone.Pass.Ignore.{Rules, Bytes, skips}
use redzone.Pass.Select.{
  Base, elsewhere, of_alloca, provably_safe, access_info, Decision, no_access, redundant, check_it,
  decisions,
}
use redzone.Pass.Select.Runs.{run_emitted, run_checking_all, Placed}
use redzone.Pass.Select.Outcome.{run_emitted-run_checking_all}
use redzone.Pass.Layout.{
  wrapper_of_global, register_global, Slot, wrap_alloca, Frame, enter_all, leave_all,
}
use redzone.Pass.Layout.Globals.{register_global-wrapper_of_global}
use redzone.Pass.Layout.Stack.{stack_enter-wrap_alloca, provably_safe-byte_poisoned}
use redzone.Pass.Layout.Unwind.{leave_all-enter_all}
use redzone.Pass.Inline.{instrumented}
use redzone.Pass.Inline.Exact.{instrumented-check}
use redzone.Pass.Emit.{emit_fn}
use redzone.Pass.Sync.{race_block}
use redzone.Pass.Sync.Hooks.{erase_hooks, erase_hooks-race_block}
use redzone.Tests.Samples.{block_a, heap_a, heap_a-IsValid, heap_a_entry}

abbrev node : Instr → Node
node i = record { instr = i; loc = some (97 ∷ [], 4) }

-- Two loads and a store through one pointer, the second load within the first
abbrev accesses : Block
accesses =
    node (load 1 (some 8) false)
    ∷ node (load 1 (some 4) false)
    ∷ node (store 1 (some 16) false)
    ∷ []

abbrev nothing_safe : ℕ → ℕ → Bool
nothing_safe ptr size = false

abbrev no_effect : Instr → Heap → Outcome Heap
no_effect i h = returns h

abbrev at_block_a : ℕ → ℕ
at_block_a p = 0x10010

same_heap : (h h' : Heap) → returns h ≡ returns h' → h ≡ h'
same_heap h h' e = cc

accesses-Placed : Placed no_effect at_block_a nothing_safe heap_a accesses
unfolding access_info
accesses-Placed = (here (omega arith), (here (omega arith), (here (omega arith), tt)))
  where
    here :
        {size : ℕ}
        → (0 < size) × (0x10010 + size ≤ block_a.real_base + block_a.total_size)
        → (0 < size)
          × ((k : ℕ) × ((b : Allocation) × (get_elem? heap_a.table.blocks k ≡ some b)
                × (b.real_base ≤ 0x10010)
                × (0x10010 + size ≤ b.real_base + b.total_size)))
    here (pos, fits) = (pos, (0, (block_a, heap_a_entry, omega arith, fits)))

run_emitted-run_checking_all_example :
    run_emitted no_effect at_block_a nothing_safe heap_a
      (decisions nothing_safe (λ _. 0) accesses)
      accesses
    ≡ run_checking_all no_effect at_block_a nothing_safe heap_a accesses
run_emitted-run_checking_all_example =
    run_emitted-run_checking_all no_effect at_block_a nothing_safe (λ h. h ≡ heap_a)
      (λ h e. subst IsValid (sym e) heap_a-IsValid) (λ i h h' e inv. sym (same_heap h h' e) ∙ inv)
      (λ i h h' quiet e. ap (λ x. x.table.blocks) (sym (same_heap h h' e))) heap_a accesses refl
      (λ h e.
        subst (λ x. Placed no_effect at_block_a nothing_safe x accesses) (sym e) accesses-Placed)

accesses-decisions : decisions nothing_safe (λ _. 0) accesses ≡ check_it ∷ redundant ∷ check_it ∷ []
unfolding decisions redzone.Pass.Select.decide access_info
accesses-decisions = refl

second_access : access_info (node (load 1 (some 4) false)).instr ≡ some (1, 4)
unfolding access_info
second_access = refl

second_redundant : get_elem? (decisions nothing_safe (λ _. 0) accesses) 1 ≡ some redundant
second_redundant = rw accesses-decisions

instrumented-check_example :
    instrumented heap_a 0x10020 8 read none 7 ≡ check heap_a 0x10020 8 read none 7
instrumented-check_example =
    instrumented-check heap_a 0x10020 8 read none 7 (omega arith) (omega arith)

abbrev open_shadow : Shadow
open_shadow i = 0

register_global-wrapper_of_global_example :
    let w = wrapper_of_global false 4 13 (some 4) in
    byte_poisoned (register_global open_shadow false (0x4000 + w.data_offset) 13) 0x4020 ≡ (
      if within 0x4000 w.total 0x4020
      then not (within (0x4000 + w.data_offset) 13 0x4020)
      else byte_poisoned open_shadow 0x4020)
register_global-wrapper_of_global_example =
    register_global-wrapper_of_global open_shadow false 4 13 0x4000 0x4020 (some 4) (omega arith)
      (omega arith) (omega arith) (omega arith)

abbrev local_var : Alloca
local_var = record { slot = 5; is_static = true; alloc_size = some 13; align = 4 }

abbrev local_slot : Slot
local_slot = record { slot_total = 48; slot_size = 13; user_offset = 16 }

local_var_wrapped : wrap_alloca local_var ≡ some local_slot
unfolding wrap_alloca
local_var_wrapped = refl

stack_enter-wrap_alloca_example : byte_poisoned (stack_enter open_shadow 0x4000 13) 0x401d ≡ (
    if within 0x4000 48 0x401d
    then not (within (0x4000 + 16) 13 0x401d)
    else byte_poisoned open_shadow 0x401d)
stack_enter-wrap_alloca_example =
    stack_enter-wrap_alloca open_shadow local_var local_slot 0x4000 0x401d local_var_wrapped
      (omega arith) (omega arith) (omega arith) (omega arith)

four_of_thirteen : provably_safe (of_alloca true (some 13) false 9) 4 ≡ true
unfolding provably_safe
four_of_thirteen = refl

provably_safe-byte_poisoned_example :
    byte_poisoned (stack_enter open_shadow 0x4000 13) 0x401c ≡ false
provably_safe-byte_poisoned_example =
    provably_safe-byte_poisoned open_shadow local_var local_slot 0x4000 9 4 0x401c local_var_wrapped
      (omega arith) (omega arith) (omega arith) four_of_thirteen refl

abbrev frames : List Frame
frames =
    record { frame_base = 0x4000; frame_size = 13 }
    ∷ record { frame_base = 0x4040; frame_size = 8 }
    ∷ []

leave_all-enter_all_example : leave_all (enter_all open_shadow frames) frames ≡ open_shadow
leave_all-enter_all_example =
    leave_all-enter_all open_shadow frames
      (omega arith, omega arith, (omega arith, omega arith, tt)) (λ i e. refl)

-- `p = malloc(8); memcpy-free body; free(p)` in a function that opts out
abbrev sample_fn : Fn
sample_fn = record {
  name = "main";
  is_declaration = false;
  opts_out = true;
  blocks =
      (node (call (some "malloc") (constant 8 ∷ []))
        ∷ node (load 1 (some 8) false)
        ∷ node (call (some "memcpy") (value 1 ∷ value 2 ∷ constant 8 ∷ []))
        ∷ node (invoke (some "free") (value 1 ∷ []))
        ∷ node ret
        ∷ [])
      ∷ [];
}

abbrev no_match : Bytes → Bytes → Bool
no_match p s = false

abbrev no_rules : Rules
no_rules = record { fun_patterns = []; src_patterns = [] }

abbrev race_sample : Block
race_sample =
    node (call (some "pthread_mutex_lock") (value 3 ∷ []))
    ∷ node (store 1 (some 4) false)
    ∷ node (load 2 (some 4) true)
    ∷ []

erase_hooks-race_block_example :
    erase_hooks (race_block false race_sample) ≡ race_block true race_sample
erase_hooks-race_block_example = erase_hooks-race_block race_sample

-- `char x[13]; p = malloc(8); *p; return`, with no debug location
abbrev bare : Instr → Node
bare i = record { instr = i; loc = none }

abbrev small_fn : Fn
small_fn = record {
  name = "main";
  is_declaration = false;
  opts_out = false;
  blocks =
      (bare (alloca local_var)
        ∷ bare (call (some "malloc") (constant 8 ∷ []))
        ∷ bare (load 1 (some 8) false)
        ∷ bare (load 1 (some 4) false)
        ∷ bare ret
        ∷ [])
      ∷ [];
}

small_fn_emitted :
    emit_fn no_match no_rules [] (λ p. elsewhere) small_fn
    ≡ (padded_alloca 5 48 16
        ∷ runtime_call "__redzone_stack_enter" (slot_base 5 ∷ constant 13 ∷ [])
        ∷ runtime_call "__redzone_malloc" (constant 8 ∷ file_name none ∷ constant 0 ∷ [])
        ∷ checked_access 1 8 false none
        ∷ original (bare (load 1 (some 8) false))
        ∷ original (bare (load 1 (some 4) false))
        ∷ runtime_call "__redzone_stack_leave" (slot_base 5 ∷ constant 13 ∷ [])
        ∷ original (bare ret)
        ∷ [])
      ∷ []
unfolding emit_fn redzone.Pass.Emit.emit_blocks redzone.Pass.Emit.emit_block
    redzone.Pass.Emit.emit_nodes redzone.Pass.Emit.emit redzone.Pass.Emit.emit_access
    redzone.Pass.Emit.emit_alloca redzone.Pass.Emit.emit_call redzone.Pass.Emit.leaves
    redzone.Pass.Emit.slots_of redzone.Pass.Emit.slots_of_block wrap_alloca
    redzone.Pass.Calls.category redzone.Pass.Calls.find_name redzone.Pass.Calls.redirect
    redzone.Pass.Calls.arg redzone.Pass.Select.decide decisions access_info provably_safe skips
    redzone.Pass.Ignore.glob_match_any
small_fn_emitted = refl
