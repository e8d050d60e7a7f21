-- ===== src/Heap/After.antt =====
-- What every call into the allocator of runtime/redzone_rt.c that returns leaves of the heap it
-- found.
use redzone.Prelude.{
  ℕ, ◌+◌, ◌≤◌, ◌<◌, ◌≡◌, ◌≢◌, ◌⊎◌, refl, sym, ap, ◌∙◌, arith, inl, inr, true, false, none, some,
  ◌==◌, length, get_elem?, get_elem?-lt, Bool-cases, Option-cases,
}
use redzone.Shadow.Range.{within}
use redzone.Memory.{Memory}
use redzone.Report.{Outcome, returns, ◌>>=◌, reports, out_of_memory, report_free_error}
use redzone.Table.{Block, find_block}
use redzone.Heap.{Heap, block_from_user_ptr}
use redzone.Heap.Ops.{free, free_block}
use redzone.Heap.Valid.{IsValid}
use redzone.Heap.Lookup.{block_from_user_ptr_sound}
use redzone.Heap.Alloc.{Extends}
use redzone.Heap.Writes.{write-IsValid}
use redzone.Heap.Free.{free-live}

-- A block of the table stays as it is, or a live one is marked freed.
abbrev pub Follows : Block → Block → Type 0
Follows b c = (c ≡ b) ⊎ ((b.freed ≡ false) × (c ≡ record b { freed = true }))

-- The heap is well formed again, each block keeps its place in the table, a freed one stays freed,
-- and the bytes of the blocks that were live are as they were.
pub record After (h h' : Heap) : Type 0 where
  pub valid : IsValid h'
  pub kept :
      (k : ℕ) (b : Block)
      → get_elem? h.table.blocks k ≡ some b
      → (c : Block) × (get_elem? h'.table.blocks k ≡ some c) × Follows b c
  pub bytes :
      (k x : ℕ) (b : Block)
      → get_elem? h.table.blocks k ≡ some b
      → within b.user_addr b.user_size x ≡ true
      → h'.memory x ≡ h.memory x

pub returns-inj {ℓ} : {A : Type ℓ} {a b : A} → returns a ≡ returns b → a ≡ b
returns-inj {A} {a} {b} e = ap (λ o. elim o [ returns x ↦ x | reports f ↦ a | out_of_memory ↦ a ]) e

-- A call that returns was made of calls that return.
pub bind-inv {ℓ κ} :
    {A : Type ℓ} {B : Type κ} (o : Outcome A) (f : A → Outcome B) {b : B}
    → (o >>= f) ≡ returns b
    → (a : A) × (o ≡ returns a) × (f a ≡ returns b)
bind-inv (returns a) f e = (a, refl, e)
bind-inv (reports fd) f e = absurd (ground (arith, e))
bind-inv out_of_memory f e = absurd (ground (arith, e))

some-inj : {b c : Block} → some b ≡ some c → b ≡ c
some-inj {b} {c} e = ap (λ o. elim o [ none ↦ b | some x ↦ x ]) e

pub After-refl : {h : Heap} → IsValid h → After h h
After-refl valid = record {
  valid = valid;
  kept = λ k b e. (b, e, inl refl);
  bytes = λ k x b e inside. refl;
}

pub Follows-trans : {b c d : Block} → Follows b c → Follows c d → Follows b d
Follows-trans {b} {c} {d} (inl p) q = rw (← p) q
Follows-trans {b} {c} {d} (inr p) (inl q) = inr (p.0, q ∙ p.1)
Follows-trans {b} {c} {d} (inr p) (inr q) =
    inr (p.0, q.1 ∙ ap (λ (x : Block). record x { freed = true }) p.1)

pub Follows-region :
    {b c : Block} → Follows b c → (c.user_addr ≡ b.user_addr) × (c.user_size ≡ b.user_size)
Follows-region (inl p) = rw p (refl, refl)
Follows-region (inr p) = rw (p.1) (refl, refl)

pub After-trans : {h h1 h2 : Heap} → After h h1 → After h1 h2 → After h h2
After-trans {h} {h1} {h2} one two = record {
  valid = two.valid;
  kept = λ k b e.
      let (c, at, f) = one.kept k b e in
      let (d, at', g) = two.kept k c at in (d, at', Follows-trans f g);
  bytes = λ k x b e inside.
      let (c, at, f) = one.kept k b e in
      let (start, size) = Follows-region f in
      two.bytes k x c at (rw (start, size) inside) ∙ one.bytes k x b e inside;
}

-- A new block, of which the program's bytes are then written
pub After-Extends :
    (h h1 : Heap) (b : Block) (m : Memory)
    → Extends h h1 b
    → ((x : ℕ) → (x < b.user_addr) ⊎ (b.user_addr + b.user_size ≤ x) → m x ≡ h1.memory x)
    → After h (record h1 { memory = m })
After-Extends h h1 b m ext same =
    let p = ext.valid.placed (length h.table.blocks) b ext.entry in
    record {
      valid = write-IsValid h1 m (length h.table.blocks) b ext.valid ext.entry same;
      kept = λ k c e. (c, ext.kept k c e, inl refl);
      bytes = λ k x c e inside.
          let differs : k ≢ length h.table.blocks =
            λ is. ground (arith, is, get_elem?-lt h.table.blocks k e) in
          let away =
            ext.valid.apart k (length h.table.blocks) c b (ext.kept k c e) ext.entry differs in
          let q = ext.valid.placed k c (ext.kept k c e) in
          let out : (x < b.real_base) ⊎ (b.real_base + b.total_size ≤ x) =
            ground (arith, away, inside, q.left, q.right) in
          same x (ground (arith, out, p.left, p.right))
          ∙ ext.frame x (ground (arith, out, p.left, p.right));
    }

-- free of a live block
free_live-After :
    (h h' : Heap) (ptr k : ℕ) (b : Block)
    → IsValid h
    → get_elem? h.table.blocks k ≡ some b
    → b.freed ≡ false
    → b.user_addr ≡ ptr
    → free h ptr ≡ returns h'
    → After h h'
free_live-After h h' ptr k b valid entry live start e =
    let (h1, run, valid1, marked, others, memory) = free-live valid k entry live in
    let is : h1 ≡ h' = returns-inj (sym run ∙ ap (λ u. free h u) start ∙ e) in
    rw (← is) (record {
      valid = valid1;
      kept = λ j c at. elim (Bool-cases (j == k)) [
        | inl this ↦
            let jk : j ≡ k = ground (arith, this) in
            let at' : get_elem? h.table.blocks k ≡ some c = rw jk at at in
            let is_b : b ≡ c = some-inj (sym entry ∙ at') in
            rw (jk, ← is_b) (record b { freed = true }, marked, inr (live, refl))
        | inr other ↦ (c, others j (λ jk. ground (arith, jk, other)) ∙ at, inl refl)
      ];
      bytes = λ j x c at inside. ap (λ (m : Memory). m x) memory;
    })

-- free, whenever it returns
pub free-After : (h h' : Heap) (ptr : ℕ) → IsValid h → free h ptr ≡ returns h' → After h h'
unfolding free free_block report_free_error
free-After h h' ptr valid e = elim (Bool-cases (ptr == 0)) [
  | inl null ↦ let is : h ≡ h' = returns-inj (rw null at e) in rw (← is) (After-refl valid)
  | inr some_ptr ↦ elim (Option-cases (block_from_user_ptr h ptr)) [
    | inl missing ↦ elim (Option-cases (find_block h.table.blocks ptr)) [
      | inl foreign ↦
          let is : h ≡ h' = returns-inj (rw (some_ptr, missing, foreign) at e) in
          rw (← is) (After-refl valid)
      | inr (kb, interior) ↦ absurd (ground (arith, rw (some_ptr, missing, interior) at e))
    ]
    | inr ((k, b), found) ↦
        let (entry, start) = block_from_user_ptr_sound h ptr found in
        elim (Bool-cases b.freed) [
          | inl dead ↦ absurd (ground (arith, rw (some_ptr, found, dead) at e))
          | inr live ↦ free_live-After h h' ptr k b valid entry live start e
        ]
  ]
]
