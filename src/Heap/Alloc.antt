-- ===== src/Heap/Alloc.antt =====
-- What the common allocator gives (runtime/redzone_rt.c, rz_allocate), for every power-of-two
-- alignment that its callers pass.
use native.Mathlib.Nat.{pow-suc}
use redzone.Prelude.{
  ℕ, zero, suc, ◌+◌, ◌-◌, ◌*◌, ◌%◌, ◌^◌, ◌≤◌, ◌<◌, ◌≡◌, ◌⊎◌, refl, ◌∙◌, arith, inl, inr, Bool, true,
  false, some, [], ◌∷◌, ◌++◌, ltb, ◌==◌, length, get_elem?, get_elem?-lt, get_elem?-append_left,
  get_elem?-append_last, Bool-cases,
}
use redzone.Prelude.Bits.{u64, u64_mod, sub64, align_down, align_down-pow, pow_mono, pow_pos}
use redzone.Shadow.{shadow_limit}
use redzone.Report.{File, returns}
use redzone.Table.{Block, Table, record_block, grown_cap}
use redzone.Heap.{Heap, System, size_max}
use redzone.Heap.Ops.{slack_of, total_of, user_of, install, rz_allocate}
use redzone.Heap.Valid.{Placed, IsValid}
use redzone.Heap.Extend.{extend, extend-IsValid, extend-frame}

-- What malloc promises of a region that it grants: it is aligned, below the end of the covered
-- range, and meets no region that it granted before, none of which the runtime ever gives back.
pub record Grants (h : Heap) (base total : ℕ) : Type 0 where
  pub aligned : base % 16 ≡ 0
  pub low : 0 < base
  pub fits : base + total + 8 ≤ shadow_limit
  pub fresh :
      (k : ℕ) (c : Block)
      → get_elem? h.table.blocks k ≡ some c
      → (c.real_base + c.total_size ≤ base) ⊎ (base + total ≤ c.real_base)
  pub room : length h.table.blocks + 1 < u64_mod

aligned_sub : (x d : ℕ) → 0 < d → (x - x % d) % d ≡ 0
aligned_sub x d h = grind arith

aligned_16 : (x d : ℕ) → 0 < d → x % (d * 16) ≡ 0 → x % 16 ≡ 0
aligned_16 x d p h = grind arith

pow_16 : (k : ℕ) → 4 ≤ k → 2 ^ k ≡ 2 ^ (k - 4) * 16
pow_16 zero h = absurd (omega arith)
pow_16 (suc zero) h = absurd (omega arith)
pow_16 (suc (suc zero)) h = absurd (omega arith)
pow_16 (suc (suc (suc zero))) h = absurd (omega arith)
pow_16 (suc (suc (suc (suc j)))) h =
    let e : suc (suc (suc (suc j))) - 4 ≡ j = omega arith in
    rw e (
      omega (
        arith,
        pow-suc 2 j,
        pow-suc 2 (suc j),
        pow-suc 2 (suc (suc j)),
        pow-suc 2 (suc (suc (suc j))),
      ))

-- The bounds of an address rounded down.
rounded :
    (base d u : ℕ)
    → 16 ≤ d
    → base % 16 ≡ 0
    → u % 16 ≡ 0
    → u + (base + 16 + (d - 1)) % d ≡ base + 16 + (d - 1)
    → (base + 16 ≤ u) × (u ≤ base + 16 + slack_of d)
rounded base d u big al al' e =
    let low : (base + 16 + (d - 1)) % d < d = omega arith in ground (arith, low)

-- The user pointer: aligned as asked, past a left red zone, and within the slack.
pub user_of_bounds :
    (k base : ℕ)
    → 4 ≤ k
    → k ≤ 46
    → base % 16 ≡ 0
    → base + 8 ≤ shadow_limit
    → (user_of base (2 ^ k) % 2 ^ k ≡ 0)
      × (user_of base (2 ^ k) % 16 ≡ 0)
      × (base + 16 ≤ user_of base (2 ^ k))
      × (user_of base (2 ^ k) ≤ base + 16 + slack_of (2 ^ k))
user_of_bounds k base lo hi al fits =
    let d = 2 ^ k in
    let big : 16 ≤ 2 ^ k = pow_mono 4 k lo in
    let small : 2 ^ k ≤ 2 ^ 46 = pow_mono k 46 hi in
    let x = base + 16 + (2 ^ k - 1) in
    let whole : u64 x ≡ x = omega (arith, small) in
    let split : align_down x (2 ^ k) + x % 2 ^ k ≡ x =
      align_down-pow k x (omega arith) (omega (arith, small)) in
    let user : align_down x (2 ^ k) ≡ x - x % 2 ^ k = omega (arith, split) in
    let on_d : align_down x (2 ^ k) % 2 ^ k ≡ 0 = rw user (aligned_sub x (2 ^ k) (omega arith)) in
    let on_16 : align_down x (2 ^ k) % 16 ≡ 0 =
      aligned_16 _ (2 ^ (k - 4)) (pow_pos (k - 4)) (rw (← pow_16 k lo) on_d) in
    let b = rounded base (2 ^ k) (align_down x (2 ^ k)) big al on_16 split in
    rw whole (on_d, on_16, b.0, b.1)

-- Within the covered range no size computation overflows.
pub no_overflow :
    (size d : ℕ)
    → size ≤ shadow_limit
    → d ≤ 2 ^ 46
    → (ltb (sub64 (size_max - 32) (slack_of d)) size ≡ false)
      × (total_of size d ≡ size + 32 + slack_of d)
no_overflow size d small pow = (ground arith, ground arith)

-- The block that an allocation records.
abbrev pub block_for : (base align size : ℕ) → File → ℕ → Block
block_for base align size file line = record {
  real_base = base;
  total_size = total_of size align;
  user_addr = user_of base align;
  user_size = size;
  freed = false;
  alloc_file = file;
  alloc_line = line;
}

-- The table grows whenever the system lets it.
record_block_lem :
    (grow : ℕ → Bool) (t : Table) (b : Block)
    → ((n : ℕ) → grow n ≡ true)
    → (cap : ℕ) × (record_block grow t b
        ≡ returns (record { blocks = t.blocks ++ b ∷ []; cap = cap }, length t.blocks))
unfolding record_block
record_block_lem grow t b can = elim (Bool-cases (length t.blocks == t.cap)) [
  | inl e ↦ (grown_cap t.cap, rw (e, can))
  | inr e ↦ (t.cap, rw e)
]

-- The heap after an allocation that recorded `b`.
pub record Extends (h h' : Heap) (b : Block) : Type 0 where
  pub valid : IsValid h'
  pub appended : h'.table.blocks ≡ h.table.blocks ++ b ∷ []
  pub entry : get_elem? h'.table.blocks (length h.table.blocks) ≡ some b
  pub kept :
      (k : ℕ) (c : Block)
      → get_elem? h.table.blocks k ≡ some c
      → get_elem? h'.table.blocks k ≡ some c
  pub frame : (x : ℕ) → (x < b.real_base) ⊎ (b.user_addr ≤ x) → h'.memory x ≡ h.memory x

-- A request on a well-formed heap for at most 2 ^ 47 bytes, aligned to a power of two from 2 ^ 4
-- to 2 ^ 46, when the system grants a fresh region and room in the table: the call returns an
-- aligned user pointer, the heap is well formed with the new live block last in the table, and
-- the other blocks and all bytes outside the new left red zone stay.
pub rz_allocate-Extends :
    (sys : System) (h : Heap) (size k base : ℕ) (file : File) (line : ℕ)
    → IsValid h
    → 4 ≤ k
    → k ≤ 46
    → size ≤ shadow_limit
    → sys.sys_malloc (total_of size (2 ^ k)) ≡ some base
    → Grants h base (total_of size (2 ^ k))
    → ((n : ℕ) → sys.sys_grow n ≡ true)
    → (h' : Heap) × (rz_allocate sys h size (2 ^ k) file line
        ≡ returns (h', some (user_of base (2 ^ k))))
      × Extends h h' (block_for base (2 ^ k) size file line)
      × (user_of base (2 ^ k) % 2 ^ k ≡ 0)
unfolding rz_allocate install
rz_allocate-Extends sys h size k base file line valid lo hi small got g can =
    let b = block_for base (2 ^ k) size file line in
    let u = user_of_bounds k base lo hi g.aligned (omega (arith, g.fits)) in
    let pow : 2 ^ k ≤ 2 ^ 46 = pow_mono k 46 hi in
    let sizes = no_overflow size (2 ^ k) small pow in
    let guard : ltb (sub64 (size_max - 32) (slack_of (2 ^ k))) size ≡ false = sizes.0 in
    let total : total_of size (2 ^ k) ≡ size + 32 + slack_of (2 ^ k) = sizes.1 in
    let at : Placed b = record {
      aligned = g.aligned;
      user_aligned = u.1;
      low = g.low;
      left = u.2;
      right = omega (arith, total, u.3);
      fits = g.fits;
    } in
    let (cap, grew) = record_block_lem sys.sys_grow h.table b can in
    (
      extend h b cap,
      rw (guard, got, grew),
      record {
        valid = extend-IsValid valid at refl g.fresh g.room cap;
        appended = refl;
        entry = get_elem?-append_last h.table.blocks b;
        kept = λ j c e. get_elem?-append_left h.table.blocks (b ∷ []) j (get_elem?-lt _ j e) ∙ e;
        frame = extend-frame valid at refl g.fresh g.room cap;
      },
      u.0,
    )
