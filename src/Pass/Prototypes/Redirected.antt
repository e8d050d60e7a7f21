-- ===== src/Pass/Prototypes/Redirected.antt =====
-- src/RedzonePass.cpp, the calls that are redirected, against the declarations of their targets.
use redzone.Prelude.{
  get_elem?, ap, sym, ◌∙◌, ℕ, zero, suc, ◌≡◌, refl, arith, true, false, none, some, List, [], ◌∷◌,
}
use redzone.Report.{File}
use redzone.Pass.{
  Operand, value, constant, file_name, as_i64, as_i32, slot_base, function, Loc, location,
}
use redzone.Pass.Calls.{
  Category, malloc_call, calloc_call, realloc_call, aligned_alloc_call, posix_memalign_call,
  new_call, aligned_new_call, free_call, delete_call, mem_cpy_call, mem_move_call, mem_set_call,
  str_cpy_call, str_cat_call, str_n_cpy_call, str_n_cat_call, str_l_cpy_call, str_l_cat_call,
  snprintf_call, snprintf_chk_call, sprintf_call, sprintf_chk_call, arg, args_from, redirect_mem,
  redirect_str, redirect_printf, redirect,
}
use redzone.Pass.Prototypes.{
  ParamType, ptr, i64, declared, fits, matches, Declares, Expected, exactly, integer, signature,
  is_integer, is_expected, begins_with, well_typed, same_type,
}

-- A location is a file name and a line.
location_lem : (loc : Loc) → (f : File) × (l : ℕ) × (location loc ≡ file_name f ∷ constant l ∷ [])
location_lem none = (none, 0, refl)
location_lem (some (f, l)) = (some f, l, refl)

module _ (type_of : ℕ → ParamType) where
  -- What the prototype expects at a place stands there.
  begins_with-arg :
      (ks : List Expected) (args : List Operand) (i : ℕ) (k : Expected)
      → begins_with type_of ks args ≡ true
      → get_elem? ks i ≡ some k
      → is_expected type_of k (arg args i) ≡ true
  unfolding arg
  begins_with-arg [] args i k h at = absurd (ground (arith, at))
  begins_with-arg (e ∷ ks) [] i k h at = absurd (ground (arith, h))
  begins_with-arg (e ∷ ks) (o ∷ os) zero k h at =
      let is : is_expected type_of e o ≡ is_expected type_of k o =
        ap (λ x. is_expected type_of (elim x [ none ↦ k | some y ↦ y ]) o) at in
      sym is ∙ ground (arith, h)
  begins_with-arg (e ∷ ks) (o ∷ os) (suc i) k h at =
      begins_with-arg ks os i k (ground (arith, h)) at

  is_expected-fits :
      (t : ParamType) (o : Operand)
      → is_expected type_of (exactly t) o ≡ true
      → fits type_of t o ≡ true
  is_expected-fits t (value v) h = h
  is_expected-fits t (constant c) h = absurd (ground (arith, h))
  is_expected-fits t (file_name f) h = absurd (ground (arith, h))
  is_expected-fits t (as_i64 o) h = absurd (ground (arith, h))
  is_expected-fits t (as_i32 o) h = absurd (ground (arith, h))
  is_expected-fits t (slot_base s) h = absurd (ground (arith, h))
  is_expected-fits t (function f) h = absurd (ground (arith, h))

  is_expected-is_integer :
      (o : Operand) → is_expected type_of integer o ≡ true → is_integer type_of o ≡ true
  is_expected-is_integer (value v) h = h
  is_expected-is_integer (constant c) h = absurd (ground (arith, h))
  is_expected-is_integer (file_name f) h = absurd (ground (arith, h))
  is_expected-is_integer (as_i64 o) h = absurd (ground (arith, h))
  is_expected-is_integer (as_i32 o) h = absurd (ground (arith, h))
  is_expected-is_integer (slot_base s) h = absurd (ground (arith, h))
  is_expected-is_integer (function f) h = absurd (ground (arith, h))

  -- A format, and what follows it
  matches-args_from :
      (ks : List Expected) (args : List Operand) (i : ℕ)
      → begins_with type_of ks args ≡ true
      → get_elem? ks i ≡ some (exactly ptr)
      → matches type_of (ptr ∷ []) true (args_from i args) ≡ true
  unfolding args_from arg
  matches-args_from [] args i h at = absurd (ground (arith, at))
  matches-args_from (e ∷ ks) [] i h at = absurd (ground (arith, h))
  matches-args_from (e ∷ ks) (o ∷ []) zero h at =
      ground
        (arith, is_expected-fits ptr o (begins_with-arg (e ∷ ks) (o ∷ []) 0 (exactly ptr) h at))
  matches-args_from (e ∷ ks) (o ∷ q ∷ os) zero h at =
      ground
        (arith, is_expected-fits ptr o (begins_with-arg (e ∷ ks) (o ∷ q ∷ os) 0 (exactly ptr) h at))
  matches-args_from (e ∷ ks) (o ∷ os) (suc i) h at =
      matches-args_from ks os i (ground (arith, h)) at

  -- The one argument of free
  one :
      (args : List Operand)
      → well_typed type_of free_call args ≡ true
      → matches type_of (ptr ∷ []) false args ≡ true
  unfolding arg
  one [] h = absurd (ground (arith, h))
  one (o ∷ []) h = ground (
    arith,
    is_expected-fits ptr o
        (begins_with-arg (signature free_call) (o ∷ []) 0 (exactly ptr) (ground (arith, h)) refl),
  )
  one (o ∷ q ∷ os) h = absurd (ground (arith, h))

  module _ (args : List Operand) (c : Category)
      (typed : begins_with type_of (signature c) args ≡ true) where
    at :
        (t : ParamType) (i : ℕ)
        → get_elem? (signature c) i ≡ some (exactly t)
        → fits type_of t (arg args i) ≡ true
    at t i is =
        is_expected-fits t (arg args i) (begins_with-arg (signature c) args i (exactly t) typed is)

    int_at :
        (i : ℕ) → get_elem? (signature c) i ≡ some integer → is_integer type_of (arg args i) ≡ true
    int_at i is =
        is_expected-is_integer (arg args i) (begins_with-arg (signature c) args i integer typed is)

  -- A call of the program to a function that the pass redirects, whose arguments are values of the types
  -- that the function's C prototype says: the call that takes its place is to a function that the pass
  -- declares, and has its arguments, as many as the declaration says and each of the declared type.
  pub redirect-Declares :
      (c : Category) (args : List Operand) (loc : Loc)
      → well_typed type_of c args ≡ true
      → Declares type_of (redirect c args loc)
  unfolding redirect declared redirect_mem redirect_str redirect_printf same_type
  redirect-Declares malloc_call args loc e =
      (_, refl, rw ((location_lem loc).2, at args malloc_call e i64 0 refl))
  redirect-Declares calloc_call args loc e = (
    _,
    refl,
    rw ((location_lem loc).2, at args calloc_call e i64 0 refl, at args calloc_call e i64 1 refl),
  )
  redirect-Declares realloc_call args loc e = (
    _,
    refl,
    rw ((location_lem loc).2, at args realloc_call e ptr 0 refl, at args realloc_call e i64 1 refl),
  )
  redirect-Declares aligned_alloc_call args loc e = (
    _,
    refl,
    rw (
      (location_lem loc).2,
      at args aligned_alloc_call e i64 0 refl,
      at args aligned_alloc_call e i64 1 refl,
    ),
  )
  redirect-Declares posix_memalign_call args loc e = (
    _,
    refl,
    rw (
      (location_lem loc).2,
      at args posix_memalign_call e ptr 0 refl,
      at args posix_memalign_call e i64 1 refl,
      at args posix_memalign_call e i64 2 refl,
    ),
  )
  redirect-Declares new_call args loc e =
      (_, refl, rw ((location_lem loc).2, at args new_call e i64 0 refl))
  redirect-Declares aligned_new_call args loc e = (
    _,
    refl,
    rw (
      (location_lem loc).2,
      at args aligned_new_call e i64 0 refl,
      at args aligned_new_call e i64 1 refl,
    ),
  )
  redirect-Declares delete_call args loc e = (_, refl, rw (at args delete_call e ptr 0 refl))
  redirect-Declares mem_cpy_call args loc e = (
    _,
    refl,
    rw (
      (location_lem loc).2,
      at args mem_cpy_call e ptr 0 refl,
      at args mem_cpy_call e ptr 1 refl,
      int_at args mem_cpy_call e 2 refl,
    ),
  )
  redirect-Declares mem_move_call args loc e = (
    _,
    refl,
    rw (
      (location_lem loc).2,
      at args mem_move_call e ptr 0 refl,
      at args mem_move_call e ptr 1 refl,
      int_at args mem_move_call e 2 refl,
    ),
  )
  redirect-Declares mem_set_call args loc e = (
    _,
    refl,
    rw (
      (location_lem loc).2,
      at args mem_set_call e ptr 0 refl,
      int_at args mem_set_call e 1 refl,
      int_at args mem_set_call e 2 refl,
    ),
  )
  redirect-Declares str_cpy_call args loc e = (
    _,
    refl,
    rw ((location_lem loc).2, at args str_cpy_call e ptr 0 refl, at args str_cpy_call e ptr 1 refl),
  )
  redirect-Declares str_cat_call args loc e = (
    _,
    refl,
    rw ((location_lem loc).2, at args str_cat_call e ptr 0 refl, at args str_cat_call e ptr 1 refl),
  )
  redirect-Declares str_n_cpy_call args loc e = (
    _,
    refl,
    rw (
      (location_lem loc).2,
      at args str_n_cpy_call e ptr 0 refl,
      at args str_n_cpy_call e ptr 1 refl,
      int_at args str_n_cpy_call e 2 refl,
    ),
  )
  redirect-Declares str_n_cat_call args loc e = (
    _,
    refl,
    rw (
      (location_lem loc).2,
      at args str_n_cat_call e ptr 0 refl,
      at args str_n_cat_call e ptr 1 refl,
      int_at args str_n_cat_call e 2 refl,
    ),
  )
  redirect-Declares str_l_cpy_call args loc e = (
    _,
    refl,
    rw (
      (location_lem loc).2,
      at args str_l_cpy_call e ptr 0 refl,
      at args str_l_cpy_call e ptr 1 refl,
      int_at args str_l_cpy_call e 2 refl,
    ),
  )
  redirect-Declares str_l_cat_call args loc e = (
    _,
    refl,
    rw (
      (location_lem loc).2,
      at args str_l_cat_call e ptr 0 refl,
      at args str_l_cat_call e ptr 1 refl,
      int_at args str_l_cat_call e 2 refl,
    ),
  )
  redirect-Declares free_call args loc e = (_, refl, one args e)
  redirect-Declares snprintf_call args loc e = (
    _,
    refl,
    rw
        (
          (location_lem loc).2,
          at args snprintf_call e ptr 0 refl,
          int_at args snprintf_call e 1 refl,
        )
        (matches-args_from (signature snprintf_call) args 2 e refl),
  )
  redirect-Declares snprintf_chk_call args loc e = (
    _,
    refl,
    rw
        (
          (location_lem loc).2,
          at args snprintf_chk_call e ptr 0 refl,
          int_at args snprintf_chk_call e 1 refl,
        )
        (matches-args_from (signature snprintf_chk_call) args 4 e refl),
  )
  redirect-Declares sprintf_call args loc e = (
    _,
    refl,
    rw ((location_lem loc).2, at args sprintf_call e ptr 0 refl)
        (matches-args_from (signature sprintf_call) args 1 e refl),
  )
  redirect-Declares sprintf_chk_call args loc e = (
    _,
    refl,
    rw ((location_lem loc).2, at args sprintf_chk_call e ptr 0 refl)
        (matches-args_from (signature sprintf_chk_call) args 3 e refl),
  )
