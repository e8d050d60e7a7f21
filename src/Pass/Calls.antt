-- ===== src/Pass/Calls.antt =====
-- src/RedzonePass.cpp, the calls that the pass redirects: which function is called, and the call of
-- the runtime that takes its place.
use redzone.Prelude.{
  ℕ, zero, suc, Bool, true, false, Option, none, some, List, [], ◌∷◌, ◌++◌, String, str_eq,
  if◌then◌else◌,
}
use redzone.Pass.{Operand, constant, as_i64, as_i32, Loc, location}

-- The lists that the pass collects calls in.
pub data Category : Type 0 where
  malloc_call calloc_call realloc_call aligned_alloc_call posix_memalign_call : Category
  new_call aligned_new_call free_call delete_call : Category
  mem_cpy_call mem_move_call mem_set_call : Category
  str_cpy_call str_cat_call str_n_cpy_call str_n_cat_call str_l_cpy_call str_l_cat_call : Category
  snprintf_call snprintf_chk_call sprintf_call sprintf_chk_call : Category

-- The chain of tests on the callee's name
abbrev call_names : List (String × Category)
call_names =
    ("malloc", malloc_call)
    ∷ ("memcpy", mem_cpy_call)
    ∷ ("__memcpy_chk", mem_cpy_call)
    ∷ ("memmove", mem_move_call)
    ∷ ("__memmove_chk", mem_move_call)
    ∷ ("memset", mem_set_call)
    ∷ ("__memset_chk", mem_set_call)
    ∷ ("strcpy", str_cpy_call)
    ∷ ("__strcpy_chk", str_cpy_call)
    ∷ ("strcat", str_cat_call)
    ∷ ("__strcat_chk", str_cat_call)
    ∷ ("strncpy", str_n_cpy_call)
    ∷ ("__strncpy_chk", str_n_cpy_call)
    ∷ ("strncat", str_n_cat_call)
    ∷ ("__strncat_chk", str_n_cat_call)
    ∷ ("strlcpy", str_l_cpy_call)
    ∷ ("__strlcpy_chk", str_l_cpy_call)
    ∷ ("strlcat", str_l_cat_call)
    ∷ ("__strlcat_chk", str_l_cat_call)
    ∷ ("snprintf", snprintf_call)
    ∷ ("__snprintf_chk", snprintf_chk_call)
    ∷ ("sprintf", sprintf_call)
    ∷ ("__sprintf_chk", sprintf_chk_call)
    ∷ ("calloc", calloc_call)
    ∷ ("realloc", realloc_call)
    ∷ ("free", free_call)
    ∷ ("aligned_alloc", aligned_alloc_call)
    ∷ ("posix_memalign", posix_memalign_call)
    ∷ ("_Znwm", new_call)
    ∷ ("_Znam", new_call)
    ∷ ("_ZnwmSt11align_val_t", aligned_new_call)
    ∷ ("_ZnamSt11align_val_t", aligned_new_call)
    ∷ ("_ZdlPv", delete_call)
    ∷ ("_ZdaPv", delete_call)
    ∷ ("_ZdlPvm", delete_call)
    ∷ ("_ZdaPvm", delete_call)
    ∷ ("_ZdlPvSt11align_val_t", delete_call)
    ∷ ("_ZdaPvSt11align_val_t", delete_call)
    ∷ ("_ZdlPvmSt11align_val_t", delete_call)
    ∷ ("_ZdaPvmSt11align_val_t", delete_call)
    ∷ []

unfoldable pub find_name : List (String × Category) → String → Option Category
find_name [] n = none
find_name ((k, c) ∷ names) n = let rest = find_name names n in if str_eq n k then some c else rest

unfoldable pub category : String → Option Category
category n = find_name call_names n

-- The calls that are redirected in every function, opted out or not
abbrev pub is_allocator : Category → Bool
is_allocator malloc_call = true
is_allocator calloc_call = true
is_allocator realloc_call = true
is_allocator aligned_alloc_call = true
is_allocator posix_memalign_call = true
is_allocator new_call = true
is_allocator aligned_new_call = true
is_allocator free_call = true
is_allocator delete_call = true
is_allocator _ = false

-- getArgOperand; LLVM asserts that the argument is there.
unfoldable pub arg : List Operand → ℕ → Operand
arg [] i = constant 0
arg (a ∷ args) zero = a
arg (a ∷ args) (suc i) = arg args i

-- The arguments from index `i` on
unfoldable pub args_from : ℕ → List Operand → List Operand
args_from zero args = args
args_from (suc i) [] = []
args_from (suc i) (a ∷ args) = args_from i args

-- redirectMemCall
unfoldable pub redirect_mem : List Operand → Bool → Loc → List Operand
redirect_mem args is_set loc =
    arg args 0
    ∷ (if is_set then as_i32 (arg args 1) else arg args 1)
    ∷ as_i64 (arg args 2)
    ∷ location loc

-- redirectStr
unfoldable pub redirect_str : List Operand → Bool → Loc → List Operand
redirect_str args has_n loc =
    arg args 0 ∷ arg args 1 ∷ ((if has_n then as_i64 (arg args 2) ∷ [] else []) ++ location loc)

-- redirectPrintf
unfoldable pub redirect_printf : List Operand → Bool → ℕ → Loc → List Operand
redirect_printf args has_n tail_start loc =
    arg args 0
    ∷ ((if has_n then as_i64 (arg args 1) ∷ [] else [])
        ++ (location loc ++ args_from tail_start args))

-- The call that takes the place of one of a category
unfoldable pub redirect : Category → List Operand → Loc → String × List Operand
redirect malloc_call args loc = ("__redzone_malloc", arg args 0 ∷ location loc)
redirect calloc_call args loc = ("__redzone_calloc", arg args 0 ∷ arg args 1 ∷ location loc)
redirect realloc_call args loc = ("__redzone_realloc", arg args 0 ∷ arg args 1 ∷ location loc)
redirect aligned_alloc_call args loc =
    ("__redzone_aligned_alloc", arg args 0 ∷ arg args 1 ∷ location loc)
redirect posix_memalign_call args loc =
    ("__redzone_posix_memalign", arg args 0 ∷ arg args 1 ∷ arg args 2 ∷ location loc)
redirect new_call args loc = ("__redzone_malloc", arg args 0 ∷ location loc)
redirect aligned_new_call args loc =
    ("__redzone_aligned_alloc", arg args 1 ∷ arg args 0 ∷ location loc)
redirect free_call args loc = ("__redzone_free", args)
redirect delete_call args loc = ("__redzone_free", arg args 0 ∷ [])
redirect mem_cpy_call args loc = ("__redzone_memcpy", redirect_mem args false loc)
redirect mem_move_call args loc = ("__redzone_memmove", redirect_mem args false loc)
redirect mem_set_call args loc = ("__redzone_memset", redirect_mem args true loc)
redirect str_cpy_call args loc = ("__redzone_strcpy", redirect_str args false loc)
redirect str_cat_call args loc = ("__redzone_strcat", redirect_str args false loc)
redirect str_n_cpy_call args loc = ("__redzone_strncpy", redirect_str args true loc)
redirect str_n_cat_call args loc = ("__redzone_strncat", redirect_str args true loc)
redirect str_l_cpy_call args loc = ("__redzone_strlcpy", redirect_str args true loc)
redirect str_l_cat_call args loc = ("__redzone_strlcat", redirect_str args true loc)
redirect snprintf_call args loc = ("__redzone_snprintf", redirect_printf args true 2 loc)
redirect snprintf_chk_call args loc = ("__redzone_snprintf", redirect_printf args true 4 loc)
redirect sprintf_call args loc = ("__redzone_sprintf", redirect_printf args false 1 loc)
redirect sprintf_chk_call args loc = ("__redzone_sprintf", redirect_printf args false 3 loc)

-- The names whose address is replaced where it is taken, and what replaces it
abbrev pub pointer_wrappers : List (String × String)
pointer_wrappers =
    ("malloc", "__redzone_malloc_plain")
    ∷ ("calloc", "__redzone_calloc_plain")
    ∷ ("realloc", "__redzone_realloc_plain")
    ∷ ("free", "__redzone_free")
    ∷ []

unfoldable pub wrapper_of : List (String × String) → String → Option String
wrapper_of [] n = none
wrapper_of ((k, w) ∷ names) n = let rest = wrapper_of names n in if str_eq n k then some w else rest

-- A use of a function's address that is left after the calls are rewritten
unfoldable pub replace_address : String → String
replace_address n = elim (wrapper_of pointer_wrappers n) [ some w ↦ w | none ↦ n ]
