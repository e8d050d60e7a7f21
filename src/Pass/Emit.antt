-- ===== src/Pass/Emit.antt =====
-- src/RedzonePass.cpp, the loop over the functions: the code that the pass leaves of a function. An
-- access of a scalable size, which C and C++ do not produce, is left as it is.
pub mod Redirected
pub mod Callees
use redzone.Prelude.{
  codes, ℕ, Bool, true, false, not, ◌&&◌, ◌||◌, Option, none, some, List, [], ◌∷◌, ◌++◌,
  if◌then◌else◌, String, starts_with,
}
use redzone.Pass.{
  Operand, value, constant, as_i64, as_i32, slot_base, Alloca, Instr, load, store, mem_copy,
  mem_move, mem_set, call, alloca, ret, Loc, location, Node, Block, Fn, Emitted, original,
  runtime_call, checked_access, padded_alloca,
}
use redzone.Pass.Calls.{category, is_allocator, redirect}
use redzone.Pass.Ignore.{Rules, Bytes, skips}
use redzone.Pass.Select.{access_info, Base, provably_safe, Decision, check_it, decisions}
use redzone.Pass.Layout.{Slot, wrap_alloca}

-- The allocas of a block that are wrapped, in the order of `allocas`
unfoldable pub slots_of_block : Block → List (ℕ × Slot)
slots_of_block [] = []
slots_of_block (n ∷ ns) =
    let rest = slots_of_block ns in
    elim n.instr [
      | alloca a ↦ elim (wrap_alloca a) [ none ↦ rest | some slot ↦ (a.slot, slot) ∷ rest ]
      | _ ↦ rest
    ]

unfoldable pub slots_of : List Block → List (ℕ × Slot)
slots_of [] = []
slots_of (b ∷ bs) = slots_of_block b ++ slots_of bs

-- The calls before a return
unfoldable pub leaves : List (ℕ × Slot) → List Emitted
leaves [] = []
leaves ((id, slot) ∷ slots) =
    runtime_call "__redzone_stack_leave" (slot_base id ∷ constant slot.slot_size ∷ [])
    ∷ leaves slots

-- An alloca and, if it is wrapped, the call behind the enlarged one
unfoldable pub emit_alloca : Node → Alloca → List Emitted
emit_alloca n a = elim (wrap_alloca a) [
  | none ↦ original n ∷ []
  | some slot ↦
      padded_alloca a.slot slot.slot_total slot.user_offset
      ∷ runtime_call "__redzone_stack_enter" (slot_base a.slot ∷ constant slot.slot_size ∷ [])
      ∷ []
]

abbrev pub is_store : Instr → Bool
is_store (store ptr size atomic) = true
is_store _ = false

-- A load or a store: the check is emitted in front of it, or it is not.
unfoldable pub emit_access : Decision → Node → List Emitted
emit_access check_it n = elim (access_info n.instr) [
  | none ↦ original n ∷ []
  | some (ptr, size) ↦ checked_access ptr size (is_store n.instr) n.loc ∷ original n ∷ []
]
emit_access _ n = original n ∷ []

-- A direct call: the allocator's calls are redirected wherever they stand.
unfoldable pub emit_call : Bool → Node → Option String → List Operand → List Emitted
emit_call skip_instr n none args = original n ∷ []
emit_call skip_instr n (some callee) args = elim (category callee) [
  | none ↦ original n ∷ []
  | some c ↦
      if is_allocator c || not skip_instr
      then (let (wrapper, actual) = redirect c args n.loc in runtime_call wrapper actual ∷ [])
      else original n ∷ []
]

-- What the pass leaves of an instruction, in a function whose wrapped allocas are `slots`
unfoldable pub emit : Bool → List (ℕ × Slot) → Decision → Node → List Emitted
emit skip_instr slots d n = elim n.instr [
  | call callee args ↦ emit_call skip_instr n callee args
  | mem_copy dst src len ↦
      if skip_instr
      then original n ∷ []
      else runtime_call "__redzone_memcpy" (dst ∷ src ∷ as_i64 len ∷ location n.loc) ∷ []
  | mem_move dst src len ↦
      if skip_instr
      then original n ∷ []
      else runtime_call "__redzone_memmove" (dst ∷ src ∷ as_i64 len ∷ location n.loc) ∷ []
  | mem_set dst byte len ↦
      if skip_instr
      then original n ∷ []
      else runtime_call "__redzone_memset" (dst ∷ as_i32 byte ∷ as_i64 len ∷ location n.loc) ∷ []
  | alloca a ↦ if skip_instr then original n ∷ [] else emit_alloca n a
  | ret ↦ if skip_instr then original n ∷ [] else leaves slots ++ original n ∷ []
  | _ ↦ if skip_instr then original n ∷ [] else emit_access d n
]

unfoldable pub emit_nodes : Bool → List (ℕ × Slot) → List Decision → Block → List Emitted
emit_nodes skip_instr slots (d ∷ ds) (n ∷ ns) =
    emit skip_instr slots d n ++ emit_nodes skip_instr slots ds ns
emit_nodes skip_instr slots _ _ = []

-- `base_of` is what LLVM finds below a pointer.
unfoldable pub emit_block : (ℕ → Base) → Bool → List (ℕ × Slot) → Block → List Emitted
emit_block base_of skip_instr slots ns =
    emit_nodes skip_instr slots
      (decisions (λ ptr size. provably_safe (base_of ptr) size) (λ _. 0) ns) ns

unfoldable pub emit_blocks : (ℕ → Base) → Bool → List (ℕ × Slot) → List Block → List (List Emitted)
emit_blocks base_of skip_instr slots [] = []
emit_blocks base_of skip_instr slots (b ∷ bs) =
    emit_block base_of skip_instr slots b ∷ emit_blocks base_of skip_instr slots bs

abbrev pub untouched : Block → List Emitted
untouched [] = []
untouched (n ∷ ns) = original n ∷ untouched ns

abbrev pub all_untouched : List Block → List (List Emitted)
all_untouched [] = []
all_untouched (b ∷ bs) = untouched b ∷ all_untouched bs

-- A function of the module, whose source file is `source`
unfoldable pub emit_fn :
    (Bytes → Bytes → Bool) → Rules → Bytes → (ℕ → Base) → Fn → List (List Emitted)
emit_fn fnmatch rules source base_of f =
    if f.is_declaration || starts_with f.name "__redzone"
    then all_untouched f.blocks
    else emit_blocks base_of (skips fnmatch rules source (codes f.name) f.opts_out)
        (slots_of f.blocks) f.blocks
