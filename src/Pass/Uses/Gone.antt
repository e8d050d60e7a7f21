-- ===== src/Pass/Uses/Gone.antt =====
-- No use of malloc, calloc, realloc or free is left (src/RedzonePass.cpp).
use redzone.Prelude.{Bool, true, ◌&&◌, Option, none, some, List, [], ◌∷◌, String}
use redzone.Pass.{
  Operand, as_i64, as_i32, function, Instr, mem_copy, mem_move, mem_set, call, invoke, Emitted,
  original, runtime_call,
}
use redzone.Pass.Emit.Callees.{unnamed}

abbrev pub operand_free : Operand → Bool
operand_free (function f) = unnamed f
operand_free (as_i64 a) = operand_free a
operand_free (as_i32 a) = operand_free a
operand_free _ = true

abbrev pub operands_free : List Operand → Bool
operands_free [] = true
operands_free (a ∷ args) = operand_free a && operands_free args

abbrev callee_free : Option String → Bool
callee_free none = true
callee_free (some f) = unnamed f

-- Neither a callee nor an argument is one of the four functions.
abbrev pub instr_free : Instr → Bool
instr_free (call callee args) = callee_free callee && operands_free args
instr_free (invoke callee args) = callee_free callee && operands_free args
instr_free (mem_copy dst src len) = operand_free dst && operand_free src && operand_free len
instr_free (mem_move dst src len) = operand_free dst && operand_free src && operand_free len
instr_free (mem_set dst byte len) = operand_free dst && operand_free byte && operand_free len
instr_free _ = true

abbrev pub emitted_free : Emitted → Bool
emitted_free (original n) = instr_free n.instr
emitted_free (runtime_call callee args) = unnamed callee && operands_free args
emitted_free _ = true

abbrev pub block_free : List Emitted → Bool
block_free [] = true
block_free (e ∷ es) = emitted_free e && block_free es

abbrev pub blocks_free : List (List Emitted) → Bool
blocks_free [] = true
blocks_free (b ∷ bs) = block_free b && blocks_free bs

abbrev pub module_free : List (List (List Emitted)) → Bool
module_free [] = true
module_free (f ∷ fs) = blocks_free f && module_free fs

wrappers_unnamed : List (String × String) → Bool
wrappers_unnamed [] = true
wrappers_unnamed ((k, w) ∷ names) = unnamed w && wrappers_unnamed names
