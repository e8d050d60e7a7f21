-- ===== src/Pass.antt =====
-- src/RedzonePass.cpp, the program that the pass reads: what it looks at of an LLVM module. The
-- API of LLVM is not the repository's; what the pass asks it about an instruction, a global or a
-- function is a field here, and an SSA value is a number.
pub mod Ignore
pub mod Calls
pub mod Prototypes
pub mod Select
pub mod Layout
pub mod Inline
pub mod Emit
pub mod Sync
pub mod Uses
use redzone.Prelude.{ℕ, Bool, Option, none, some, List, [], ◌∷◌, String}
use redzone.Report.{File}

-- An argument of a call: a value of the program, a constant, a file name (NULL if there is none),
-- a value that CreateZExtOrTrunc makes 64 or 32 bits wide, an enlarged alloca itself, whose `value`
-- is the variable in it, or the address of a function.
pub data Operand : Type 0 where
  value : ℕ → Operand
  constant : ℕ → Operand
  file_name : File → Operand
  as_i64 as_i32 : Operand → Operand
  slot_base : ℕ → Operand
  function : String → Operand

-- What the pass asks about an alloca: whether it is static, its size (`none` if LLVM does not know
-- it or it is scalable), and its alignment.
pub record Alloca : Type 0 where
  pub slot : ℕ
  pub is_static : Bool
  pub alloc_size : Option ℕ
  pub align : ℕ

-- The callee of a call is `none` if it is not a function but a pointer. A size is `none` if it is
-- scalable. Invoke stands for every other CallBase that is no CallInst.
pub data Instr : Type 0 where
  load store : (ptr : ℕ) → (size : Option ℕ) → (atomic : Bool) → Instr
  atomic_rmw cmpxchg : (ptr : ℕ) → Instr
  mem_copy mem_move : (dst src len : Operand) → Instr
  mem_set : (dst byte len : Operand) → Instr
  call invoke : (callee : Option String) → (args : List Operand) → Instr
  alloca : Alloca → Instr
  ret other : Instr

-- The debug location of an instruction, if it has one
abbrev pub Loc : Type 0
Loc = Option (List ℕ × ℕ)

pub record Node : Type 0 where
  pub instr : Instr
  pub loc : Loc

abbrev pub Block : Type 0
Block = List Node

pub record Fn : Type 0 where
  pub name : String
  pub is_declaration : Bool
  pub opts_out : Bool
  pub blocks : List Block

-- What the pass makes of a function: an instruction of the program, a call that it adds or puts in
-- the place of one, the inlined fast path with the call of __redzone_check behind it, or the
-- enlarged alloca.
pub data Emitted : Type 0 where
  original : Node → Emitted
  runtime_call : (callee : String) → (args : List Operand) → Emitted
  checked_access : (ptr size : ℕ) → (is_write : Bool) → Loc → Emitted
  padded_alloca : (slot total user_offset : ℕ) → Emitted

-- getLoc: (file, line), or (null, 0)
abbrev pub location : Loc → List Operand
location none = file_name none ∷ constant 0 ∷ []
location (some (file, line)) = file_name (some file) ∷ constant line ∷ []
