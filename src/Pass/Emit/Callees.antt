-- ===== src/Pass/Emit/Callees.antt =====
-- The functions that the calls which the pass emits are to (src/RedzonePass.cpp).
use redzone.Prelude.{
  codes, ℕ, ◌≡◌, refl, arith, Bool, true, false, ◌&&◌, ◌||◌, Option, none, some, List, [], ◌∷◌,
  ◌++◌, String, starts_with, inl, inr, Option-cases, Bool-cases,
}
use redzone.Pass.{
  Operand, Alloca, Instr, load, store, atomic_rmw, cmpxchg, mem_copy, mem_move, mem_set, call,
  invoke, alloca, ret, other, Loc, Node, Block, Fn, Emitted, original, runtime_call,
}
use redzone.Pass.Calls.{
  Category, malloc_call, calloc_call, realloc_call, aligned_alloc_call, posix_memalign_call,
  new_call, aligned_new_call, free_call, delete_call, mem_cpy_call, mem_move_call, mem_set_call,
  str_cpy_call, str_cat_call, str_n_cpy_call, str_n_cat_call, str_l_cpy_call, str_l_cat_call,
  snprintf_call, snprintf_chk_call, sprintf_call, sprintf_chk_call, find_name, category, redirect,
  pointer_wrappers, wrapper_of,
}
use redzone.Pass.Ignore.{Rules, Bytes, skips}
use redzone.Pass.Select.{
  Base, Decision, no_access, safe, redundant, check_it, access_info, provably_safe, decisions,
}
use redzone.Pass.Layout.{Slot, wrap_alloca}
use redzone.Pass.Emit.{
  slots_of, leaves, emit_alloca, emit_access, emit_call, emit, emit_nodes, emit_block, emit_blocks,
  untouched, all_untouched, emit_fn,
}

-- None of malloc, calloc, realloc and free
unfoldable pub unnamed : String → Bool
unnamed n = elim (wrapper_of pointer_wrappers n) [ none ↦ true | some w ↦ false ]

-- Not in the table of redirected calls, and none of the four
unfoldable pub is_wrapper : String → Bool
is_wrapper n = elim (category n) [ none ↦ unnamed n | some c ↦ false ]

abbrev pub to_wrapper : Emitted → Bool
to_wrapper (runtime_call callee args) = is_wrapper callee
to_wrapper _ = true

-- Every call that the pass has built is to such a function.
abbrev pub to_wrappers : List Emitted → Bool
to_wrappers [] = true
to_wrappers (e ∷ es) = to_wrapper e && to_wrappers es

abbrev pub all_to_wrappers : List (List Emitted) → Bool
all_to_wrappers [] = true
all_to_wrappers (b ∷ bs) = to_wrappers b && all_to_wrappers bs

pub is_wrapper-unnamed : (n : String) → is_wrapper n ≡ true → unnamed n ≡ true
unfolding is_wrapper
is_wrapper-unnamed n is = elim (Option-cases (category n)) [
  | inl e ↦ rw (e, is_wrapper) at is
  | inr (c, e) ↦ absurd (ground (arith, is, e))
]

to_wrappers-append :
    (xs ys : List Emitted)
    → to_wrappers xs ≡ true
    → to_wrappers ys ≡ true
    → to_wrappers (xs ++ ys) ≡ true
to_wrappers-append [] ys hx hy = hy
to_wrappers-append (x ∷ xs) ys hx hy =
    ground (arith, hx, to_wrappers-append xs ys (ground (arith, hx)) hy)

leaves_lem : (slots : List (ℕ × Slot)) → to_wrappers (leaves slots) ≡ true
unfolding leaves is_wrapper category find_name unnamed wrapper_of
leaves_lem [] = refl
leaves_lem (s ∷ slots) = leaves_lem slots

redirect-is_wrapper :
    (c : Category) (args : List Operand) (loc : Loc) → is_wrapper (redirect c args loc).0 ≡ true
unfolding redirect is_wrapper category find_name unnamed wrapper_of
redirect-is_wrapper malloc_call args loc = refl
redirect-is_wrapper calloc_call args loc = refl
redirect-is_wrapper realloc_call args loc = refl
redirect-is_wrapper aligned_alloc_call args loc = refl
redirect-is_wrapper posix_memalign_call args loc = refl
redirect-is_wrapper new_call args loc = refl
redirect-is_wrapper aligned_new_call args loc = refl
redirect-is_wrapper free_call args loc = refl
redirect-is_wrapper delete_call args loc = refl
redirect-is_wrapper mem_cpy_call args loc = refl
redirect-is_wrapper mem_move_call args loc = refl
redirect-is_wrapper mem_set_call args loc = refl
redirect-is_wrapper str_cpy_call args loc = refl
redirect-is_wrapper str_cat_call args loc = refl
redirect-is_wrapper str_n_cpy_call args loc = refl
redirect-is_wrapper str_n_cat_call args loc = refl
redirect-is_wrapper str_l_cpy_call args loc = refl
redirect-is_wrapper str_l_cat_call args loc = refl
redirect-is_wrapper snprintf_call args loc = refl
redirect-is_wrapper snprintf_chk_call args loc = refl
redirect-is_wrapper sprintf_call args loc = refl
redirect-is_wrapper sprintf_chk_call args loc = refl

emit_call_lem :
    (o : Bool) (n : Node) (callee : Option String) (args : List Operand)
    → to_wrappers (emit_call o n callee args) ≡ true
unfolding emit_call
emit_call_lem o n none args = refl
emit_call_lem o n (some callee) args = elim (Option-cases (category callee)) [
  | inl e ↦ ground (arith, e)
  | inr (c, e) ↦ ground (arith, e, redirect-is_wrapper c args n.loc)
]

emit_alloca_lem : (n : Node) (a : Alloca) → to_wrappers (emit_alloca n a) ≡ true
unfolding emit_alloca is_wrapper category find_name unnamed wrapper_of
emit_alloca_lem n a = elim (Option-cases (wrap_alloca a)) [
  | inr (slot, e) ↦ rw (e, emit_alloca) refl
  | inl e ↦ rw (e, emit_alloca) refl
]

emit_access_lem : (d : Decision) (n : Node) → to_wrappers (emit_access d n) ≡ true
unfolding emit_access
emit_access_lem no_access n = refl
emit_access_lem safe n = refl
emit_access_lem redundant n = refl
emit_access_lem check_it n = elim (Option-cases (access_info n.instr)) [
  | inr (p, e) ↦ ground (arith, e)
  | inl e ↦ ground (arith, e)
]

emit_lem :
    (o : Bool) (slots : List (ℕ × Slot)) (d : Decision) (n : Node) (i : Instr)
    → n.instr ≡ i
    → to_wrappers (emit o slots d n) ≡ true
unfolding emit is_wrapper category find_name unnamed wrapper_of
emit_lem o slots d n (call callee args) is = rw (is, emit) (emit_call_lem o n callee args)
emit_lem true slots d n (mem_copy dst src len) is = rw (is, emit) refl
emit_lem false slots d n (mem_copy dst src len) is = rw (is, emit) refl
emit_lem true slots d n (mem_move dst src len) is = rw (is, emit) refl
emit_lem false slots d n (mem_move dst src len) is = rw (is, emit) refl
emit_lem true slots d n (mem_set dst byte len) is = rw (is, emit) refl
emit_lem false slots d n (mem_set dst byte len) is = rw (is, emit) refl
emit_lem true slots d n (alloca a) is = rw (is, emit) refl
emit_lem false slots d n (alloca a) is = rw (is, emit) (emit_alloca_lem n a)
emit_lem true slots d n ret is = rw (is, emit) refl
emit_lem false slots d n ret is =
    rw (is, emit) (to_wrappers-append (leaves slots) (original n ∷ []) (leaves_lem slots) refl)
emit_lem true slots d n (load p s a) is = rw (is, emit) refl
emit_lem false slots d n (load p s a) is = rw (is, emit) (emit_access_lem d n)
emit_lem true slots d n (store p s a) is = rw (is, emit) refl
emit_lem false slots d n (store p s a) is = rw (is, emit) (emit_access_lem d n)
emit_lem true slots d n (atomic_rmw p) is = rw (is, emit) refl
emit_lem false slots d n (atomic_rmw p) is = rw (is, emit) (emit_access_lem d n)
emit_lem true slots d n (cmpxchg p) is = rw (is, emit) refl
emit_lem false slots d n (cmpxchg p) is = rw (is, emit) (emit_access_lem d n)
emit_lem true slots d n (invoke f args) is = rw (is, emit) refl
emit_lem false slots d n (invoke f args) is = rw (is, emit) (emit_access_lem d n)
emit_lem true slots d n other is = rw (is, emit) refl
emit_lem false slots d n other is = rw (is, emit) (emit_access_lem d n)

emit_nodes_lem :
    (o : Bool) (slots : List (ℕ × Slot)) (ds : List Decision) (ns : Block)
    → to_wrappers (emit_nodes o slots ds ns) ≡ true
unfolding emit_nodes
emit_nodes_lem o slots [] ns = refl
emit_nodes_lem o slots (d ∷ ds) [] = refl
emit_nodes_lem o slots (d ∷ ds) (n ∷ ns) =
    to_wrappers-append (emit o slots d n) (emit_nodes o slots ds ns)
      (emit_lem o slots d n n.instr refl) (emit_nodes_lem o slots ds ns)

emit_blocks_lem :
    (base_of : ℕ → Base) (o : Bool) (slots : List (ℕ × Slot)) (bs : List Block)
    → all_to_wrappers (emit_blocks base_of o slots bs) ≡ true
unfolding emit_blocks emit_block
emit_blocks_lem base_of o slots [] = refl
emit_blocks_lem base_of o slots (b ∷ bs) = ground (
  arith,
  emit_nodes_lem o slots (decisions (λ ptr size. provably_safe (base_of ptr) size) (λ _. 0) b) b,
  emit_blocks_lem base_of o slots bs,
)

untouched_lem : (b : Block) → to_wrappers (untouched b) ≡ true
untouched_lem [] = refl
untouched_lem (n ∷ ns) = untouched_lem ns

all_untouched_lem : (bs : List Block) → all_to_wrappers (all_untouched bs) ≡ true
all_untouched_lem [] = refl
all_untouched_lem (b ∷ bs) = ground (arith, untouched_lem b, all_untouched_lem bs)

-- Every call that the pass builds in a function is to one that stands neither in the table nor among
-- malloc, calloc, realloc and free.
pub emit_fn-all_to_wrappers :
    (fnmatch : Bytes → Bytes → Bool) (rules : Rules) (source : Bytes) (base_of : ℕ → Base) (f : Fn)
    → all_to_wrappers (emit_fn fnmatch rules source base_of f) ≡ true
unfolding emit_fn
emit_fn-all_to_wrappers fnmatch rules source base_of f =
    elim (Bool-cases (f.is_declaration || starts_with f.name "__redzone")) [
      | inl outside ↦ rw (outside, emit_fn) (all_untouched_lem f.blocks)
      | inr inside ↦
          rw (inside, emit_fn)
            (emit_blocks_lem base_of (skips fnmatch rules source (codes f.name) f.opts_out)
              (slots_of f.blocks) f.blocks)
    ]
