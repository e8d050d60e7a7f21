-- ===== src/Pass/Select.antt =====
-- src/RedzonePass.cpp, selective instrumentation: which loads and stores need no check.
pub mod Covered
pub mod Outcome
pub mod Runs
use redzone.Prelude.{
  ℕ, ◌-◌, Bool, true, false, not, ◌&&◌, Option, none, some, List, [], ◌∷◌, ltb, leb, ◌==◌,
  if◌then◌else◌,
}
use redzone.Pass.{Instr, load, store, mem_copy, mem_move, mem_set, call, invoke, Node, Block}

-- accessInfo: the pointer and the size of a load or a store of a fixed size
unfoldable pub access_info : Instr → Option (ℕ × ℕ)
access_info (load ptr (some size) atomic) = some (ptr, size)
access_info (store ptr (some size) atomic) = some (ptr, size)
access_info _ = none

-- isa<CallBase>: the memory intrinsics are calls too.
abbrev pub is_call : Instr → Bool
is_call (call callee args) = true
is_call (invoke callee args) = true
is_call (mem_copy dst src len) = true
is_call (mem_move dst src len) = true
is_call (mem_set dst byte len) = true
is_call _ = false

-- What stripAndAccumulateConstantOffsets finds below a pointer: an alloca with its size, if that
-- is known and fixed, and the offset into it, or something else.
pub data Base : Type 0 where
  of_alloca : (is_static : Bool) (obj_size : Option ℕ) (negative : Bool) (offset : ℕ) → Base
  elsewhere : Base

-- provablySafeAlloca
unfoldable pub provably_safe : Base → ℕ → Bool
provably_safe elsewhere size = false
provably_safe (of_alloca is_static none negative offset) size = false
provably_safe (of_alloca is_static (some obj_size) negative offset) size =
    is_static && not negative && leb offset obj_size && leb size (obj_size - offset)

-- `checked`: for each pointer the largest size that was checked; 0 if it is not there
abbrev pub Checked : Type 0
Checked = ℕ → ℕ

pub data Decision : Type 0 where
  no_access safe redundant check_it : Decision

-- The decision for one instruction, and `checked` afterwards. `safe_at ptr size` is the answer of
-- the analysis of allocas.
unfoldable pub decide : (ℕ → ℕ → Bool) → Checked → Instr → Decision × Checked
decide safe_at checked i = if is_call i then (no_access, λ _. 0) else elim (access_info i) [
  | none ↦ (no_access, checked)
  | some (ptr, size) ↦
      if safe_at ptr size
      then (safe, checked)
      else if leb size (checked ptr) && not (checked ptr == 0)
      then (redundant, checked)
      else (check_it, λ p. if ptr == p && ltb (checked ptr) size then size else checked p)
]

-- The decisions for a basic block
unfoldable pub decisions : (ℕ → ℕ → Bool) → Checked → Block → List Decision
decisions safe_at checked [] = []
decisions safe_at checked (n ∷ ns) =
    let (d, after) = decide safe_at checked n.instr in d ∷ decisions safe_at after ns
