-- ===== src/Pass/Select/Covered.antt =====
-- Why the pass may skip an access as redundant (src/RedzonePass.cpp): a check of the same pointer,
-- of at least that size, stands before it in the block, with no call in between.
use redzone.Prelude.{
  ℕ, zero, suc, ◌≤◌, ◌<◌, ◌≡◌, ◌≢◌, ◌⊎◌, refl, arith, inl, inr, Bool, false, not, ◌&&◌, some, [],
  ◌∷◌, leb, ltb, ◌==◌, if◌then◌else◌, get_elem?, Bool-cases, Option-cases,
}
use redzone.Pass.{Instr, Node, Block}
use redzone.Pass.Select.{
  access_info, is_call, Checked, Decision, no_access, safe, redundant, check_it, decide, decisions,
}

-- The check that a later access of the block relies on.
pub record Covering (safe_at : ℕ → ℕ → Bool) (checked : Checked) (ns : Block) (i ptr size : ℕ)
    : Type 0 where
  pub index : ℕ
  pub earlier : index < i
  pub node : Node
  pub there : get_elem? ns index ≡ some node
  pub checked_size : ℕ
  pub same_pointer : access_info node.instr ≡ some (ptr, checked_size)
  pub large : size ≤ checked_size
  pub emits : get_elem? (decisions safe_at checked ns) index ≡ some check_it
  pub quiet :
      (k : ℕ) (m : Node) → index < k → k < i → get_elem? ns k ≡ some m → is_call m.instr ≡ false

-- The decision relies on `checked` as it was at the head of the block.
record FromBefore (checked : Checked) (ns : Block) (i ptr size : ℕ) : Type 0 where
  no_call : (k : ℕ) (m : Node) → k < i → get_elem? ns k ≡ some m → is_call m.instr ≡ false
  small : size ≤ checked ptr
  known : checked ptr ≢ 0

-- What one decision does, if it does not forget everything.
data Step (safe_at : ℕ → ℕ → Bool) (checked : Checked) (i : Instr) : Type 0 where
  forgets : decide safe_at checked i ≡ (no_access, λ _. 0) → Step safe_at checked i
  keeps :
      (d : Decision)
      → is_call i ≡ false
      → d ≢ redundant
      → decide safe_at checked i ≡ (d, checked)
      → Step safe_at checked i
  relies :
      (ptr size : ℕ)
      → is_call i ≡ false
      → access_info i ≡ some (ptr, size)
      → size ≤ checked ptr
      → checked ptr ≢ 0
      → decide safe_at checked i ≡ (redundant, checked)
      → Step safe_at checked i
  checks :
      (ptr size : ℕ)
      → is_call i ≡ false
      → access_info i ≡ some (ptr, size)
      → decide safe_at checked i
        ≡ (check_it, λ p. if ptr == p && ltb (checked ptr) size then size else checked p)
      → Step safe_at checked i

decide-Step : (safe_at : ℕ → ℕ → Bool) (checked : Checked) (i : Instr) → Step safe_at checked i
unfolding decide
decide-Step safe_at checked i = elim (Bool-cases (is_call i)) [
  | inl called ↦ forgets (rw called)
  | inr quiet ↦ elim (Option-cases (access_info i)) [
    | inl neither ↦ keeps no_access quiet (cc) (rw (quiet, neither))
    | inr ((ptr, size), is) ↦ elim (Bool-cases (safe_at ptr size)) [
      | inl ok ↦ keeps safe quiet (cc) (rw (quiet, is, ok))
      | inr open_ ↦ elim (Bool-cases (leb size (checked ptr) && not (checked ptr == 0))) [
        | inl seen ↦
            relies ptr size quiet is (ground (arith, seen)) (ground (arith, seen))
              (rw (quiet, is, open_, seen))
        | inr new ↦ checks ptr size quiet is (rw (quiet, is, open_, new))
      ]
    ]
  ]
]

-- A covering check in the rest of the block is one in the block.
shift :
    (safe_at : ℕ → ℕ → Bool) (checked : Checked) (n : Node) (ns : Block) (i ptr size : ℕ)
    → Covering safe_at (decide safe_at checked n.instr).1 ns i ptr size
    → Covering safe_at checked (n ∷ ns) (suc i) ptr size
unfolding decisions
shift safe_at checked n ns i ptr size c = record {
  index = suc c.index;
  earlier = omega (arith, c.earlier);
  node = c.node;
  there = c.there;
  checked_size = c.checked_size;
  same_pointer = c.same_pointer;
  large = c.large;
  emits = c.emits;
  quiet = quiet_between;
}
  where
    quiet_between :
        (k : ℕ) (m : Node)
        → suc c.index < k
        → k < suc i
        → get_elem? (n ∷ ns) k ≡ some m
        → is_call m.instr ≡ false
    quiet_between zero m lo hi e = absurd (omega (arith, lo))
    quiet_between (suc k) m lo hi e = c.quiet k m (omega (arith, lo)) (omega (arith, hi)) e

-- If no call stands at the head either, the decision relies on what was known there.
keep_known :
    (checked : Checked) (n : Node) (ns : Block) (i ptr size : ℕ)
    → is_call n.instr ≡ false
    → FromBefore checked ns i ptr size
    → FromBefore checked (n ∷ ns) (suc i) ptr size
keep_known checked n ns i ptr size quiet b = record {
  no_call = quiet_before;
  small = b.small;
  known = b.known;
}
  where
    quiet_before :
        (k : ℕ) (m : Node) → k < suc i → get_elem? (n ∷ ns) k ≡ some m → is_call m.instr ≡ false
    quiet_before zero m lt e = ground (arith, e, quiet)
    quiet_before (suc k) m lt e = b.no_call k m (omega (arith, lt)) e

-- The check at the head covers what relied on it.
head_covers :
    (safe_at : ℕ → ℕ → Bool) (checked : Checked) (m : Node) (ns : Block) (i ptr size v : ℕ)
    → (decide safe_at checked m.instr).0 ≡ check_it
    → access_info m.instr ≡ some (ptr, v)
    → size ≤ v
    → ((k : ℕ) (x : Node) → k < i → get_elem? ns k ≡ some x → is_call x.instr ≡ false)
    → Covering safe_at checked (m ∷ ns) (suc i) ptr size
unfolding decisions
head_covers safe_at checked m ns i ptr size v emitted acc large no_call = record {
  index = 0;
  earlier = omega arith;
  node = m;
  there = refl;
  checked_size = v;
  same_pointer = acc;
  large = large;
  emits = rw emitted;
  quiet = quiet_after;
}
  where
    quiet_after :
        (k : ℕ) (x : Node)
        → 0 < k
        → k < suc i
        → get_elem? (m ∷ ns) k ≡ some x
        → is_call x.instr ≡ false
    quiet_after zero x lo hi e = absurd (omega (arith, lo))
    quiet_after (suc k) x lo hi e = no_call k x (omega (arith, hi)) e

Covering-or_before :
    (safe_at : ℕ → ℕ → Bool) (checked : Checked) (ns : Block) (i ptr size : ℕ) (n : Node)
    → get_elem? ns i ≡ some n
    → access_info n.instr ≡ some (ptr, size)
    → get_elem? (decisions safe_at checked ns) i ≡ some redundant
    → Covering safe_at checked ns i ptr size ⊎ FromBefore checked ns i ptr size
unfolding decisions
Covering-or_before safe_at checked [] i ptr size n at is e = ground (arith, at)
Covering-or_before safe_at checked (m ∷ ns) zero ptr size n at is e =
    elim (decide-Step safe_at checked m.instr) [
      | forgets d ↦ absurd (ground (arith, d, e))
      | keeps d quiet other same ↦ absurd (other (ground (arith, same, e)))
      | checks p v quiet acc same ↦ absurd (ground (arith, same, e))
      | relies p v quiet acc small known same ↦ inr (record {
        no_call = λ k x lt. absurd (omega (arith, lt));
        small = ground (arith, small, acc, at, is);
        known = ground (arith, known, acc, at, is);
      })
    ]
Covering-or_before safe_at checked (m ∷ ns) (suc i) ptr size n at is e =
    elim (Covering-or_before safe_at (decide safe_at checked m.instr).1 ns i ptr size n at is e) [
      | inl c ↦ inl (shift safe_at checked m ns i ptr size c)
      | inr b ↦ elim (decide-Step safe_at checked m.instr) [
        | forgets d ↦ absurd (b.known (rw d))
        | keeps d quiet other same ↦ inr (keep_known checked m ns i ptr size quiet (rw same at b))
        | relies p v quiet acc small known same ↦
            inr (keep_known checked m ns i ptr size quiet (rw same at b))
        | checks p v quiet acc same ↦ elim (Bool-cases (p == ptr && ltb (checked p) v)) [
          | inl raised ↦
              let is_ptr : p ≡ ptr = ground (arith, raised) in
              let now : (decide safe_at checked m.instr).1 ptr ≡ v =
                rw same (ground (arith, raised)) in
              inl (
                head_covers safe_at checked m ns i ptr size v (rw same) (rw is_ptr at acc)
                  (omega (arith, b.small, now)) b.no_call)
          | inr kept ↦
              let now : (decide safe_at checked m.instr).1 ptr ≡ checked ptr =
                rw same (ground (arith, kept)) in
              inr (
                keep_known checked m ns i ptr size quiet (record {
                  no_call = b.no_call;
                  small = omega (arith, b.small, now);
                  known = omega (arith, b.known, now);
                }))
        ]
      ]
    ]

-- Where the pass leaves the check of a load or a store out as redundant: an access of the same
-- pointer, of at least its size, stands before it in the block and is checked, and no call stands
-- between the two.
pub redundant-Covering :
    (safe_at : ℕ → ℕ → Bool) (ns : Block) (i ptr size : ℕ) (n : Node)
    → get_elem? ns i ≡ some n
    → access_info n.instr ≡ some (ptr, size)
    → get_elem? (decisions safe_at (λ _. 0) ns) i ≡ some redundant
    → Covering safe_at (λ _. 0) ns i ptr size
redundant-Covering safe_at ns i ptr size n at is e =
    elim (Covering-or_before safe_at (λ _. 0) ns i ptr size n at is e) [
      | inl c ↦ c
      | inr b ↦ absurd (b.known refl)
    ]
