-- ===== src/Pass/Layout.antt =====
-- src/RedzonePass.cpp, the red zones that the pass lays out: which globals and allocas it wraps, and
-- how large the wrapper is.
pub mod Globals
pub mod Stack
pub mod Unwind
use redzone.Prelude.{
  ℕ, ◌+◌, ◌-◌, ◌%◌, max, Bool, true, false, not, ◌||◌, Option, none, some, List, [], ◌∷◌, ltb, leb,
  ◌==◌, if◌then◌else◌, String, starts_with,
}
use redzone.Prelude.Bits.{u64, clear_low3}
use redzone.Shadow.{Shadow, stack_enter, stack_leave, global_register, global_register_right}
use redzone.Pass.{Alloca}

-- kRedzone
abbrev pub pass_redzone : ℕ
pass_redzone = 16

pub data Linkage : Type 0 where
  local_linkage external_linkage other_linkage : Linkage

-- What the pass asks about a global; `alloc_size` is `none` if the type has no size or a scalable
-- one, and `align` is `none` if it is not given.
pub record Global : Type 0 where
  pub name : String
  pub is_declaration : Bool
  pub is_constant : Bool
  pub is_thread_local : Bool
  pub has_initializer : Bool
  pub has_section : Bool
  pub has_comdat : Bool
  pub externally_initialized : Bool
  pub linkage : Linkage
  pub alloc_size : Option ℕ
  pub align : Option ℕ

abbrev pub align_or : ℕ → Option ℕ → ℕ
align_or d none = d
align_or d (some a) = a

-- Is the global wrapped, and as an external one?
unfoldable pub target_of : Global → Option Bool
target_of g =
    if g.is_declaration || g.is_constant || g.is_thread_local
    then none
    else if not g.has_initializer || g.has_section || g.has_comdat || g.externally_initialized
    then none
    else if starts_with g.name "llvm." || starts_with g.name "__redzone"
    then none
    else elim g.linkage [
      | other_linkage ↦ none
      | local_linkage ↦ sized g false
      | external_linkage ↦ sized g true
    ]
  where
    sized : Global → Bool → Option Bool
    sized g is_external = elim g.alloc_size [
      | none ↦ none
      | some size ↦ if ltb pass_redzone (align_or 0 g.align) then none else some is_external
    ]

-- The bytes that keep the end of the trailing zone a multiple of 8
abbrev pub pad_of : ℕ → ℕ
pad_of size = (8 - size % 8) % 8

-- The wrapper of a global: where the data lies in it, its size and its alignment
pub record Wrapper : Type 0 where
  pub data_offset : ℕ
  pub total : ℕ
  pub alignment : ℕ

-- `type_align` is the alignment of the global's type, at which a field of that type is laid out, and
-- `align` the alignment that the global states. Padding of LLVM after the last field is not counted.
unfoldable pub wrapper_of_global : Bool → (type_align size : ℕ) → (align : Option ℕ) → Wrapper
wrapper_of_global is_external type_align size align =
    let right_zone = pass_redzone + pad_of size in
    let left_zone = if is_external then 0 else max pass_redzone type_align in
    record {
      data_offset = left_zone;
      total = left_zone + size + right_zone;
      alignment = max pass_redzone (align_or 1 align);
    }

-- The call that the constructor makes for one global
unfoldable pub register_global : Shadow → Bool → (address size : ℕ) → Shadow
register_global s is_external address size =
    if is_external then global_register_right s address size else global_register s address size

-- __redzone_global_ctor: all the globals that were wrapped, with their addresses
unfoldable pub global_ctor : Shadow → List (Bool × ℕ × ℕ) → Shadow
global_ctor s [] = s
global_ctor s ((is_external, address, size) ∷ globals) =
    global_ctor (register_global s is_external address size) globals

-- The alloca that takes the place of one that is wrapped: its size, the user's part of it, and
-- where that begins.
pub record Slot : Type 0 where
  pub slot_total : ℕ
  pub slot_size : ℕ
  pub user_offset : ℕ

unfoldable pub wrap_alloca : Alloca → Option Slot
wrap_alloca a = if not a.is_static then none else elim a.alloc_size [
  | none ↦ none
  | some size ↦
      if size == 0 || ltb pass_redzone a.align
      then none
      else some (record {
        slot_total = pass_redzone + clear_low3 (u64 (size + 7)) + pass_redzone;
        slot_size = size;
        user_offset = pass_redzone;
      })
]

-- A slot of a running function, at the address of its enlarged alloca
pub record Frame : Type 0 where
  pub frame_base : ℕ
  pub frame_size : ℕ

-- At the entry all slots are entered, before a return all are left, in the same order.
unfoldable pub enter_all : Shadow → List Frame → Shadow
enter_all s [] = s
enter_all s (f ∷ fs) = enter_all (stack_enter s f.frame_base f.frame_size) fs

unfoldable pub leave_all : Shadow → List Frame → Shadow
leave_all s [] = s
leave_all s (f ∷ fs) = leave_all (stack_leave s f.frame_base f.frame_size) fs
