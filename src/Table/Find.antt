-- ===== src/Table/Find.antt =====
-- The scan of the allocation table finds the first block that holds an address.
use redzone.Prelude.{
  ℕ, zero, suc, ◌+◌, ◌≡◌, refl, arith, true, false, none, some, List, [], ◌∷◌, get_elem?,
  Bool-cases, inl, inr,
}
use redzone.Table.{Block, holds, find_from, find_block}

-- Some block of the list holds the address, and no other does: the scan returns it.
find_from_unique :
    (bs : List Block) (i k addr : ℕ) {b : Block}
    → get_elem? bs k ≡ some b
    → holds b addr ≡ true
    → ((j : ℕ) (c : Block) → get_elem? bs j ≡ some c → holds c addr ≡ true → j ≡ k)
    → find_from bs i addr ≡ some (i + k, b)
unfolding find_from
find_from_unique [] i k addr h held only = ground arith
find_from_unique (c ∷ bs) i zero addr h held only = ground arith
find_from_unique (c ∷ bs) i (suc k) addr h held only = elim (Bool-cases (holds c addr)) [
  | inl e ↦ absurd (omega (arith, only 0 c refl e))
  | inr e ↦
      let e' : i + suc k ≡ i + 1 + k = omega arith in
      rw (e, e')
        (find_from_unique bs (i + 1) k addr h held (λ j d g hd. omega (arith, only (suc j) d g hd)))
]

pub find_block_unique :
    (bs : List Block) (k addr : ℕ) {b : Block}
    → get_elem? bs k ≡ some b
    → holds b addr ≡ true
    → ((j : ℕ) (c : Block) → get_elem? bs j ≡ some c → holds c addr ≡ true → j ≡ k)
    → find_block bs addr ≡ some (k, b)
unfolding find_block
find_block_unique bs k addr h held only =
    let e : 0 + k ≡ k = omega arith in rw e at (find_from_unique bs 0 k addr h held only)

find_from-none :
    (bs : List Block) (i addr : ℕ)
    → ((j : ℕ) (c : Block) → get_elem? bs j ≡ some c → holds c addr ≡ false)
    → find_from bs i addr ≡ none
unfolding find_from
find_from-none [] i addr h = refl
find_from-none (c ∷ bs) i addr h =
    rw (h 0 c refl) (find_from-none bs (i + 1) addr (λ j d g. h (suc j) d g))

pub find_block-none :
    (bs : List Block) (addr : ℕ)
    → ((j : ℕ) (c : Block) → get_elem? bs j ≡ some c → holds c addr ≡ false)
    → find_block bs addr ≡ none
unfolding find_block
find_block-none bs addr h = find_from-none bs 0 addr h
