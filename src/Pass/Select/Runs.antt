-- ===== src/Pass/Select/Runs.antt =====
-- The runs of a basic block that are compared: with a call of __redzone_check before each access
-- (runtime/redzone_rt.c), and with the code that the pass of src/RedzonePass.cpp emits.
use redzone.Prelude.{
  ℕ, ◌+◌, ◌≤◌, ◌<◌, ◌≡◌, refl, Bool, false, Option, none, some, List, [], ◌∷◌, if◌then◌else◌,
  get_elem?,
}
use redzone.Report.{File, read, write, Outcome, returns, reports, out_of_memory, ◌>>=◌}
use redzone.Table.{Block as Allocation}
use redzone.Heap.{Heap}
use redzone.Check.{check}
use redzone.Pass.{Instr, load, store, atomic_rmw, cmpxchg, alloca, ret, other, Node, Block, Loc}
use redzone.Pass.Select.{access_info, is_call, Decision, check_it}
use redzone.Pass.Inline.{instrumented}
use redzone.Pass.Emit.{is_store}

abbrev pub file_of : Loc → File
file_of none = none
file_of (some (file, line)) = some file

abbrev pub line_of : Loc → ℕ
line_of none = 0
line_of (some (file, line)) = line

pub access_info-is_call : (i : Instr) (a : ℕ × ℕ) → access_info i ≡ some a → is_call i ≡ false
unfolding access_info
access_info-is_call (load p s o) a e = refl
access_info-is_call (store p s o) a e = refl
access_info-is_call (atomic_rmw p) a e = refl
access_info-is_call (cmpxchg p) a e = refl
access_info-is_call (alloca x) a e = refl
access_info-is_call ret a e = refl
access_info-is_call other a e = refl
access_info-is_call _ a e = cc

pub bind_same :
    {A B : Type 0} (m : Outcome A) (f g : A → Outcome B)
    → ((a : A) → m ≡ returns a → f a ≡ g a)
    → (m >>= f) ≡ (m >>= g)
bind_same (returns a) f g same = same a refl
bind_same (reports fd) f g same = refl
bind_same out_of_memory f g same = refl

-- `effect` is what an instruction of the program does to the heap, which may end the run, and `env`
-- gives the address that a pointer holds in this run of the block.
module _ (effect : Instr → Heap → Outcome Heap) (env : ℕ → ℕ) (safe_at : ℕ → ℕ → Bool) where
  -- __redzone_check is called before every access but those that are safe for sure.
  unfoldable pub check_of : Heap → Node → Outcome (Unit {0})
  check_of h n = elim (access_info n.instr) [
    | none ↦ returns tt
    | some (ptr, size) ↦
        if safe_at ptr size
        then returns tt
        else check h (env ptr) size (if is_store n.instr then write else read) (file_of n.loc)
            (line_of n.loc)
  ]

  unfoldable pub run_checking_all : Heap → Block → Outcome Heap
  run_checking_all h [] = returns h
  run_checking_all h (n ∷ ns) =
      check_of h n >>= λ _. effect n.instr h >>= λ h'. run_checking_all h' ns

  -- The pass's code: the inlined test before the accesses that its decisions leave
  unfoldable pub inline_of : Heap → Decision → Node → Outcome (Unit {0})
  inline_of h check_it n = elim (access_info n.instr) [
    | none ↦ returns tt
    | some (ptr, size) ↦
        instrumented h (env ptr) size (if is_store n.instr then write else read) (file_of n.loc)
          (line_of n.loc)
  ]
  inline_of h _ n = returns tt

  unfoldable pub run_emitted : Heap → List Decision → Block → Outcome Heap
  run_emitted h (d ∷ ds) (n ∷ ns) =
      inline_of h d n >>= λ _. effect n.instr h >>= λ h'. run_emitted h' ds ns
  run_emitted h _ _ = returns h

  -- An access has at least one byte, and its bytes lie in one allocation, red zones included.
  abbrev pub PlacedAccess : Heap → Option (ℕ × ℕ) → Type 0
  PlacedAccess h none = Unit {0}
  PlacedAccess h (some (ptr, size)) =
      (0 < size)
      × ((k : ℕ) × ((b : Allocation) × (get_elem? h.table.blocks k ≡ some b)
            × (b.real_base ≤ env ptr)
            × (env ptr + size ≤ b.real_base + b.total_size)))

  -- Every access of the block is such a one.
  abbrev pub Placed : Heap → Block → Type 0
  Placed h [] = Unit {0}
  Placed h (n ∷ ns) = PlacedAccess h (access_info n.instr) × Placed h ns
