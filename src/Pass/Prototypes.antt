-- ===== src/Pass/Prototypes.antt =====
-- src/RedzonePass.cpp, the functions of the runtime as the pass declares them, against the calls that
-- it builds. A variadic function takes any further arguments.
pub mod Redirected
use redzone.Prelude.{
  not, ℕ, zero, suc, ◌<◌, ◌≡◌, refl, arith, Bool, true, false, ◌&&◌, Option, none, some, List, [],
  ◌∷◌, ltb, ◌==◌, String, str_eq, if◌then◌else◌, length,
}
use redzone.Report.{File}
use redzone.Pass.{
  Operand, value, constant, file_name, as_i64, as_i32, slot_base, function, Loc, location,
}
use redzone.Pass.Calls.{
  Category, malloc_call, calloc_call, realloc_call, aligned_alloc_call, posix_memalign_call,
  new_call, aligned_new_call, free_call, delete_call, mem_cpy_call, mem_move_call, mem_set_call,
  str_cpy_call, str_cat_call, str_n_cpy_call, str_n_cat_call, str_l_cpy_call, str_l_cat_call,
  snprintf_call, snprintf_chk_call, sprintf_call, sprintf_chk_call, arg, args_from, redirect_mem,
  redirect_str, redirect_printf, redirect,
}

-- PtrTy, I64, I32
pub data ParamType : Type 0 where
  ptr i64 i32 : ParamType

pub record Prototype : Type 0 where
  pub params : List ParamType
  pub variadic : Bool

-- The declarations of address mode
unfoldable pub declared : String → Option Prototype
declared name =
    if str_eq name "__redzone_malloc"
    then some (record { params = i64 ∷ ptr ∷ i32 ∷ []; variadic = false })
    else if str_eq name "__redzone_free"
    then some (record { params = ptr ∷ []; variadic = false })
    else if str_eq name "__redzone_calloc"
    then some (record { params = i64 ∷ i64 ∷ ptr ∷ i32 ∷ []; variadic = false })
    else if str_eq name "__redzone_realloc"
    then some (record { params = ptr ∷ i64 ∷ ptr ∷ i32 ∷ []; variadic = false })
    else if str_eq name "__redzone_aligned_alloc"
    then some (record { params = i64 ∷ i64 ∷ ptr ∷ i32 ∷ []; variadic = false })
    else if str_eq name "__redzone_posix_memalign"
    then some (record { params = ptr ∷ i64 ∷ i64 ∷ ptr ∷ i32 ∷ []; variadic = false })
    else if str_eq name "__redzone_memcpy"
    then some (record { params = ptr ∷ ptr ∷ i64 ∷ ptr ∷ i32 ∷ []; variadic = false })
    else if str_eq name "__redzone_memmove"
    then some (record { params = ptr ∷ ptr ∷ i64 ∷ ptr ∷ i32 ∷ []; variadic = false })
    else if str_eq name "__redzone_memset"
    then some (record { params = ptr ∷ i32 ∷ i64 ∷ ptr ∷ i32 ∷ []; variadic = false })
    else if str_eq name "__redzone_strcpy"
    then some (record { params = ptr ∷ ptr ∷ ptr ∷ i32 ∷ []; variadic = false })
    else if str_eq name "__redzone_strcat"
    then some (record { params = ptr ∷ ptr ∷ ptr ∷ i32 ∷ []; variadic = false })
    else if str_eq name "__redzone_strncpy"
    then some (record { params = ptr ∷ ptr ∷ i64 ∷ ptr ∷ i32 ∷ []; variadic = false })
    else if str_eq name "__redzone_strncat"
    then some (record { params = ptr ∷ ptr ∷ i64 ∷ ptr ∷ i32 ∷ []; variadic = false })
    else if str_eq name "__redzone_strlcpy"
    then some (record { params = ptr ∷ ptr ∷ i64 ∷ ptr ∷ i32 ∷ []; variadic = false })
    else if str_eq name "__redzone_strlcat"
    then some (record { params = ptr ∷ ptr ∷ i64 ∷ ptr ∷ i32 ∷ []; variadic = false })
    else if str_eq name "__redzone_snprintf"
    then some (record { params = ptr ∷ i64 ∷ ptr ∷ i32 ∷ ptr ∷ []; variadic = true })
    else if str_eq name "__redzone_sprintf"
    then some (record { params = ptr ∷ ptr ∷ i32 ∷ ptr ∷ []; variadic = true })
    else if str_eq name "__redzone_check"
    then some (record { params = ptr ∷ i64 ∷ i32 ∷ ptr ∷ i32 ∷ []; variadic = false })
    else if str_eq name "__redzone_stack_enter"
    then some (record { params = ptr ∷ i64 ∷ []; variadic = false })
    else if str_eq name "__redzone_stack_leave"
    then some (record { params = ptr ∷ i64 ∷ []; variadic = false })
    else if str_eq name "__redzone_global_register"
    then some (record { params = ptr ∷ i64 ∷ []; variadic = false })
    else if str_eq name "__redzone_global_register_right"
    then some (record { params = ptr ∷ i64 ∷ []; variadic = false })
    else none

unfoldable pub same_type : ParamType → ParamType → Bool
same_type ptr ptr = true
same_type i64 i64 = true
same_type i32 i32 = true
same_type _ _ = false

-- What a function of the table expects in a place: a type, or an integer of any width, which the pass
-- brings to the width that it wants
pub data Expected : Type 0 where
  exactly : ParamType → Expected
  integer : Expected

-- The C prototypes, without the variadic arguments
abbrev pub signature : Category → List Expected
signature malloc_call = exactly i64 ∷ []
signature calloc_call = exactly i64 ∷ exactly i64 ∷ []
signature realloc_call = exactly ptr ∷ exactly i64 ∷ []
signature aligned_alloc_call = exactly i64 ∷ exactly i64 ∷ []
signature posix_memalign_call = exactly ptr ∷ exactly i64 ∷ exactly i64 ∷ []
signature new_call = exactly i64 ∷ []
signature aligned_new_call = exactly i64 ∷ exactly i64 ∷ []
signature free_call = exactly ptr ∷ []
signature delete_call = exactly ptr ∷ []
signature mem_cpy_call = exactly ptr ∷ exactly ptr ∷ integer ∷ []
signature mem_move_call = exactly ptr ∷ exactly ptr ∷ integer ∷ []
signature mem_set_call = exactly ptr ∷ integer ∷ integer ∷ []
signature str_cpy_call = exactly ptr ∷ exactly ptr ∷ []
signature str_cat_call = exactly ptr ∷ exactly ptr ∷ []
signature str_n_cpy_call = exactly ptr ∷ exactly ptr ∷ integer ∷ []
signature str_n_cat_call = exactly ptr ∷ exactly ptr ∷ integer ∷ []
signature str_l_cpy_call = exactly ptr ∷ exactly ptr ∷ integer ∷ []
signature str_l_cat_call = exactly ptr ∷ exactly ptr ∷ integer ∷ []
signature snprintf_call = exactly ptr ∷ integer ∷ exactly ptr ∷ []
signature snprintf_chk_call = exactly ptr ∷ integer ∷ integer ∷ integer ∷ exactly ptr ∷ []
signature sprintf_call = exactly ptr ∷ exactly ptr ∷ []
signature sprintf_chk_call = exactly ptr ∷ integer ∷ integer ∷ exactly ptr ∷ []

-- `type_of` is the type of a value of the program.
module _ (type_of : ℕ → ParamType) where
  abbrev pub is_integer : Operand → Bool
  is_integer (value v) = not (same_type ptr (type_of v))
  is_integer _ = false

  -- A constant that the pass passes on is a line, and a widened or narrowed integer has its new width.
  abbrev pub fits : ParamType → Operand → Bool
  fits t (value v) = same_type t (type_of v)
  fits t (constant c) = same_type t i32
  fits t (file_name f) = same_type t ptr
  fits t (as_i64 o) = same_type t i64 && is_integer o
  fits t (as_i32 o) = same_type t i32 && is_integer o
  fits t (slot_base s) = same_type t ptr
  fits t (function f) = same_type t ptr

  abbrev pub matches : List ParamType → Bool → List Operand → Bool
  matches [] variadic [] = true
  matches [] variadic (o ∷ os) = variadic
  matches (t ∷ ts) variadic [] = false
  matches (t ∷ ts) variadic (o ∷ os) = fits t o && matches ts variadic os

  -- The call is to a function that is declared, with arguments of its types in their places.
  abbrev pub Declares : String × List Operand → Type 0
  Declares (name, args) =
      (p : Prototype) × (declared name ≡ some p) × (matches p.params p.variadic args ≡ true)

  abbrev pub is_expected : Expected → Operand → Bool
  is_expected (exactly t) (value v) = same_type t (type_of v)
  is_expected integer (value v) = is_integer (value v)
  is_expected _ _ = false

  abbrev pub begins_with : List Expected → List Operand → Bool
  begins_with [] args = true
  begins_with (k ∷ ks) [] = false
  begins_with (k ∷ ks) (o ∷ os) = is_expected k o && begins_with ks os

  -- The call of the program has values of the prototype's types for arguments, a call of free just one.
  abbrev pub well_typed : Category → List Operand → Bool
  well_typed free_call args = begins_with (signature free_call) args && length args == 1
  well_typed c args = begins_with (signature c) args
