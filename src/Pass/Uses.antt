-- ===== src/Pass/Uses.antt =====
-- src/RedzonePass.cpp, the uses of an allocator that are left after the loop over the functions: its
-- address is taken, or it is the callee of an invoke. Those in the initializers of globals and in
-- instructions that are no calls are replaced in the same way, but are not part of the model.
pub mod Gone
use redzone.Prelude.{
  ℕ, ◌≡◌, refl, arith, Bool, true, false, not, ◌&&◌, ◌||◌, Option, none, some, List, [], ◌∷◌,
  if◌then◌else◌, String, str_eq, inl, inr, Option-cases, Bool-cases,
}
use redzone.Pass.{
  Operand, value, constant, file_name, as_i64, as_i32, slot_base, function, Instr, load, store,
  atomic_rmw, cmpxchg, mem_copy, mem_move, mem_set, call, invoke, alloca, ret, other, Node, Fn,
  Emitted, original, runtime_call, checked_access, padded_alloca,
}
use redzone.Pass.Calls.{replace_address}
use redzone.Pass.Ignore.{Rules, Bytes}
use redzone.Pass.Select.{Base}
use redzone.Pass.Emit.{emit_fn}

unfoldable pub replace_operand : Operand → Operand
replace_operand (function f) = function (replace_address f)
replace_operand (as_i64 a) = as_i64 (replace_operand a)
replace_operand (as_i32 a) = as_i32 (replace_operand a)
replace_operand a = a

unfoldable pub replace_operands : List Operand → List Operand
replace_operands [] = []
replace_operands (a ∷ args) = replace_operand a ∷ replace_operands args

abbrev replace_callee : Option String → Option String
replace_callee none = none
replace_callee (some f) = some (replace_address f)

unfoldable pub replace_instr : Instr → Instr
replace_instr (call callee args) = call (replace_callee callee) (replace_operands args)
replace_instr (invoke callee args) = invoke (replace_callee callee) (replace_operands args)
replace_instr (mem_copy dst src len) =
    mem_copy (replace_operand dst) (replace_operand src) (replace_operand len)
replace_instr (mem_move dst src len) =
    mem_move (replace_operand dst) (replace_operand src) (replace_operand len)
replace_instr (mem_set dst byte len) =
    mem_set (replace_operand dst) (replace_operand byte) (replace_operand len)
replace_instr i = i

-- replaceAllUsesWith, for all four names
unfoldable pub replace_uses : Emitted → Emitted
replace_uses (original n) = original (record n { instr = replace_instr n.instr })
replace_uses (runtime_call callee args) = runtime_call callee (replace_operands args)
replace_uses e = e

unfoldable pub replace_block : List Emitted → List Emitted
replace_block [] = []
replace_block (e ∷ es) = replace_uses e ∷ replace_block es

unfoldable pub replace_blocks : List (List Emitted) → List (List Emitted)
replace_blocks [] = []
replace_blocks (b ∷ bs) = replace_block b ∷ replace_blocks bs

-- All functions of the module; the pointers of each have their own bases.
unfoldable pub emit_module :
    (Bytes → Bytes → Bool) → Rules → Bytes → List (Fn × (ℕ → Base)) → List (List (List Emitted))
emit_module fnmatch rules source [] = []
emit_module fnmatch rules source ((f, base_of) ∷ fs) =
    replace_blocks (emit_fn fnmatch rules source base_of f) ∷ emit_module fnmatch rules source fs
