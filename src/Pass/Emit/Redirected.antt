-- ===== src/Pass/Emit/Redirected.antt =====
-- What is left of the program's own calls in an instrumented function (src/RedzonePass.cpp).
use redzone.Prelude.{Bool, true, false, not, ◌&&◌, ◌||◌, none, some, List, [], ◌∷◌}
use redzone.Pass.{Instr, mem_copy, mem_move, mem_set, call, alloca, Emitted, original}
use redzone.Pass.Calls.{category, is_allocator}
use redzone.Pass.Layout.{wrap_alloca}

-- May the program's instruction stand in the output? A direct call of a function of the table only
-- if it is no allocator and the function opts out, a memory intrinsic only if the function opts
-- out, an alloca only if it opts out or the alloca is not one to wrap.
abbrev pub may_stay : Bool → Instr → Bool
may_stay opts_out (call none args) = true
may_stay opts_out (call (some callee) args) = elim (category callee) [
  | none ↦ true
  | some c ↦ not (is_allocator c) && opts_out
]
may_stay opts_out (mem_copy dst src len) = opts_out
may_stay opts_out (mem_move dst src len) = opts_out
may_stay opts_out (mem_set dst byte len) = opts_out
may_stay opts_out (alloca a) = opts_out || elim (wrap_alloca a) [ none ↦ true | some slot ↦ false ]
may_stay opts_out _ = true

abbrev pub allowed : Bool → Emitted → Bool
allowed opts_out (original n) = may_stay opts_out n.instr
allowed opts_out _ = true

abbrev pub all_allowed : Bool → List Emitted → Bool
all_allowed opts_out [] = true
all_allowed opts_out (e ∷ es) = allowed opts_out e && all_allowed opts_out es

abbrev pub blocks_allowed : Bool → List (List Emitted) → Bool
blocks_allowed opts_out [] = true
blocks_allowed opts_out (b ∷ bs) = all_allowed opts_out b && blocks_allowed opts_out bs
