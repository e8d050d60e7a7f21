-- ===== src/Check/Program/Keeps.antt =====
-- What the steps of a run that are no call of the allocator leave (runtime/redzone_rt.c): stores,
-- bulk operations, frames and globals.
use redzone.Prelude.{
  ℕ, ◌+◌, ◌-◌, ◌%◌, ◌≤◌, ◌<◌, ◌≡◌, refl, ◌∙◌, arith, inl, inr, true, false, some, get_elem?,
  Bool-cases,
}
use redzone.Prelude.Bits.{u64, u64_mod}
use redzone.Shadow.{
  Shadow, shadow_limit, stack_rz, global_rz, stack_enter, stack_leave, global_register,
}
use redzone.Shadow.Range.{within, covers, guarded_lem, set_shadow_range_lem}
use redzone.Memory.{Memory, memcpy, memset}
use redzone.Report.{File, read, write, returns}
use redzone.Table.{Block}
use redzone.Heap.{Heap}
use redzone.Heap.Valid.{IsValid}
use redzone.Heap.Headers.{read_header_congr}
use redzone.Heap.Writes.{write-IsValid}
use redzone.Heap.After.{bind-inv, returns-inj}
use redzone.Check.{check, checked_memmove, checked_memset}
use redzone.Check.Exact.{in_bounds}
use redzone.Check.Clear.{check-in_bounds_byte}
use redzone.Check.Program.{Elsewhere}

-- A memory that agrees on the headers
pub headers-IsValid :
    (h : Heap) (m : Memory)
    → IsValid h
    → ((k x : ℕ) (b : Block)
        → get_elem? h.table.blocks k ≡ some b
        → b.user_addr - 16 ≤ x
        → x < b.user_addr
        → m x ≡ h.memory x)
    → IsValid (record h { memory = m })
headers-IsValid h m valid same = record {
  placed = valid.placed;
  apart = valid.apart;
  shadowed = valid.shadowed;
  headed = λ k b e.
      let p = valid.placed k b e in
      read_header_congr b.user_addr (omega (arith, p.left)) (omega (arith, p.right, p.fits)) m
        h.memory (λ x lo hi. same k x b e lo hi)
      ∙ valid.headed k b e;
  few = valid.few;
}

pub store-IsValid :
    (h : Heap) (a size : ℕ) (m : Memory) (file : File) (line : ℕ)
    → IsValid h
    → 0 < size
    → size ≤ 16
    → check h a size write file line ≡ returns tt
    → ((x : ℕ) → within a size x ≡ false → m x ≡ h.memory x)
    → IsValid (record h { memory = m })
store-IsValid h a size m file line valid pos small passed same =
    headers-IsValid h m valid (λ k x b e lo hi. elim (Bool-cases (within a size x)) [
      | inr out ↦ same x out
      | inl hit ↦
          let p = valid.placed k b e in
          let held : within b.real_base b.total_size x ≡ true =
            ground (arith, lo, hi, p.left, p.right) in
          let clear =
            check-in_bounds_byte h a size write file line k x b valid pos small passed e hit held in
          absurd (ground (arith, clear, hi))
    ])

pub memmove-IsValid :
    (h h' : Heap) (dst src n k : ℕ) (b : Block) (file : File) (line : ℕ)
    → IsValid h
    → get_elem? h.table.blocks k ≡ some b
    → in_bounds b dst n ≡ true
    → checked_memmove h dst src n file line ≡ returns h'
    → (IsValid h') × (h'.table ≡ h.table)
unfolding checked_memmove
memmove-IsValid h h' dst src n k b file line valid entry inside e =
    let (u, first, rest) = bind-inv (check h dst n write file line) _ e in
    let (v, second, last) = bind-inv (check h src n read file line) _ rest in
    let is : record h { memory = memcpy h.memory dst src n } ≡ h' = returns-inj last in
    rw (← is) (
      write-IsValid h (memcpy h.memory dst src n) k b valid entry
          (λ x out. ground (arith, out, inside)),
      refl,
    )

pub memset-IsValid :
    (h h' : Heap) (dst c n k : ℕ) (b : Block) (file : File) (line : ℕ)
    → IsValid h
    → get_elem? h.table.blocks k ≡ some b
    → in_bounds b dst n ≡ true
    → checked_memset h dst c n file line ≡ returns h'
    → (IsValid h') × (h'.table ≡ h.table)
unfolding checked_memset
memset-IsValid h h' dst c n k b file line valid entry inside e =
    let (u, first, last) = bind-inv (check h dst n write file line) _ e in
    let is : record h { memory = memset h.memory dst c n } ≡ h' = returns-inj last in
    rw (← is) (
      write-IsValid h (memset h.memory dst c n) k b valid entry
          (λ x out. ground (arith, out, inside)),
      refl,
    )

-- A shadow that differs only in the chunks of a region that meets no allocation
module _ (h : Heap) (s : Shadow) (base total : ℕ) (valid : IsValid h) (aligned : base % 8 ≡ 0)
    (away : Elsewhere h base total)
    (same : (i : ℕ) → covers base total i ≡ false → s i ≡ h.shadow i) where
  shadow-IsValid : IsValid (record h { shadow = s })
  shadow-IsValid = record {
    placed = valid.placed;
    apart = valid.apart;
    shadowed = λ k b i e c.
        let out : covers base total i ≡ false =
          ground (arith, c, away k b e, aligned, (valid.placed k b e).aligned) in
        same i out ∙ valid.shadowed k b i e c;
    headed = valid.headed;
    few = valid.few;
  }

pub stack_enter-IsValid :
    (h : Heap) (base size : ℕ)
    → IsValid h
    → base % 8 ≡ 0
    → base + size + 40 ≤ shadow_limit
    → Elsewhere h base (size + 32)
    → IsValid (record h { shadow = stack_enter h.shadow base size })
unfolding stack_enter
stack_enter-IsValid h base size valid aligned fits away =
    let total : u64 (size + 32) ≡ size + 32 = omega arith in
    let user : u64 (base + 16) ≡ base + 16 = omega arith in
    shadow-IsValid h (stack_enter h.shadow base size) base (size + 32) valid aligned away (λ i out.
      rw (
        total,
        user,
        guarded_lem h.shadow base (size + 32) (base + 16) size stack_rz aligned (omega arith)
            (omega arith) (omega arith) (omega arith) i,
        out,
      ))

pub stack_leave-IsValid :
    (h : Heap) (base size : ℕ)
    → IsValid h
    → base % 8 ≡ 0
    → base + size + 40 ≤ shadow_limit
    → Elsewhere h base (size + 32)
    → IsValid (record h { shadow = stack_leave h.shadow base size })
unfolding stack_leave
stack_leave-IsValid h base size valid aligned fits away =
    let total : u64 (size + 32) ≡ size + 32 = omega arith in
    shadow-IsValid h (stack_leave h.shadow base size) base (size + 32) valid aligned away (λ i out.
      rw (total, set_shadow_range_lem h.shadow base (size + 32) 0 i (omega arith) (omega arith))
        (ground (arith, out)))

pub global_register-IsValid :
    (h : Heap) (at_data size : ℕ)
    → IsValid h
    → at_data % 8 ≡ 0
    → 16 ≤ at_data
    → at_data + size + 24 ≤ shadow_limit
    → Elsewhere h (at_data - 16) (size + 32)
    → IsValid (record h { shadow = global_register h.shadow at_data size })
unfolding global_register
global_register-IsValid h at_data size valid aligned low fits away =
    let total : u64 (size + 32) ≡ size + 32 = omega arith in
    let base : (at_data + u64_mod - 16) % u64_mod ≡ at_data - 16 = omega arith in
    shadow-IsValid h (global_register h.shadow at_data size) (at_data - 16) (size + 32) valid
      (omega arith) away
      (λ i out. rw (
        total,
        base,
        guarded_lem h.shadow (at_data - 16) (size + 32) at_data size global_rz (omega arith) aligned
            (omega arith) (omega arith) (omega arith) i,
        out,
      ))
