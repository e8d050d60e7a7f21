-- ===== src/Pass/Layout/Unwind.antt =====
-- A whole function: the slots that it enters first and leaves before each return
-- (src/RedzonePass.cpp, runtime/redzone_rt.c).
use redzone.Prelude.{
  ℕ, ◌+◌, ◌%◌, ◌≤◌, ◌≡◌, ◌∙◌, fun_ext, refl, arith, Bool, true, false, ◌||◌, List, [], ◌∷◌, inl,
  inr, if◌then◌else◌, Bool-cases,
}
use redzone.Prelude.Bits.{u64}
use redzone.Shadow.{Shadow, shadow_limit, stack_rz, stack_enter, stack_leave}
use redzone.Shadow.Range.{covers, set_shadow_range_lem, guarded_lem}
use redzone.Pass.Layout.{Frame, enter_all, leave_all}

-- Every slot begins at a multiple of 8 and ends below the covered range.
abbrev pub Placed : List Frame → Type 0
Placed [] = Unit {0}
Placed (f ∷ fs) =
    (f.frame_base % 8 ≡ 0) × (f.frame_base + f.frame_size + 40 ≤ shadow_limit) × Placed fs

-- A slot of the list covers the chunk.
abbrev pub any_covers : List Frame → ℕ → Bool
any_covers [] i = false
any_covers (f ∷ fs) i = covers f.frame_base (f.frame_size + 32) i || any_covers fs i

-- The slot's chunks are the only ones that its entry changes.
stack_enter_elsewhere :
    (s : Shadow) (f : Frame) (i : ℕ)
    → f.frame_base % 8 ≡ 0
    → f.frame_base + f.frame_size + 40 ≤ shadow_limit
    → covers f.frame_base (f.frame_size + 32) i ≡ false
    → stack_enter s f.frame_base f.frame_size i ≡ s i
unfolding stack_enter
stack_enter_elsewhere s f i al fits out =
    let total : u64 (f.frame_size + 32) ≡ f.frame_size + 32 = omega arith in
    let user : u64 (f.frame_base + 16) ≡ f.frame_base + 16 = omega arith in
    rw (
      total,
      user,
      guarded_lem s f.frame_base (f.frame_size + 32) (f.frame_base + 16) f.frame_size stack_rz al
          (omega arith) (omega arith) (omega arith) (omega arith) i,
      out,
    )

stack_leave-chunk :
    (s : Shadow) (f : Frame) (i : ℕ)
    → f.frame_base + f.frame_size + 40 ≤ shadow_limit
    → stack_leave s f.frame_base f.frame_size i
      ≡ (if covers f.frame_base (f.frame_size + 32) i then 0 else s i)
unfolding stack_leave
stack_leave-chunk s f i fits =
    let total : u64 (f.frame_size + 32) ≡ f.frame_size + 32 = omega arith in
    rw total
      (set_shadow_range_lem s f.frame_base (f.frame_size + 32) 0 i (omega arith) (omega arith))

enter_all_elsewhere :
    (s : Shadow) (fs : List Frame) (i : ℕ)
    → Placed fs
    → any_covers fs i ≡ false
    → enter_all s fs i ≡ s i
unfolding enter_all
enter_all_elsewhere s [] i p out = refl
enter_all_elsewhere s (f ∷ fs) i p out =
    enter_all_elsewhere (stack_enter s f.frame_base f.frame_size) fs i p.2 (ground (arith, out))
    ∙ stack_enter_elsewhere s f i p.0 p.1 (ground (arith, out))

leave_all-chunk :
    (s : Shadow) (fs : List Frame) (i : ℕ)
    → Placed fs
    → leave_all s fs i ≡ (if any_covers fs i then 0 else s i)
unfolding leave_all
leave_all-chunk s [] i p = refl
leave_all-chunk s (f ∷ fs) i p =
    leave_all-chunk (stack_leave s f.frame_base f.frame_size) fs i p.2
    ∙ ground (arith, stack_leave-chunk s f i p.1)

-- A function whose slots begin at multiples of 8 and end below the covered range, in a shadow
-- where the chunks of all the slots were open: entering all of them and then leaving all of them,
-- as the pass does at the allocas and before a return, gives the whole shadow back as it was.
pub leave_all-enter_all :
    (s : Shadow) (fs : List Frame)
    → Placed fs
    → ((i : ℕ) → any_covers fs i ≡ true → s i ≡ 0)
    → leave_all (enter_all s fs) fs ≡ s
leave_all-enter_all s fs p open_before = fun_ext λ i.
    leave_all-chunk (enter_all s fs) fs i p ∙ elim (Bool-cases (any_covers fs i)) [
      | inl e ↦ rw (e, open_before i e)
      | inr e ↦ rw (e, enter_all_elsewhere s fs i p e)
    ]
