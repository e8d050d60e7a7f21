-- ===== src/Heap/Lookup.antt =====
-- How the runtime finds a block of a well-formed heap: by its header, and by the scan
-- (runtime/redzone_rt.c, block_from_user_ptr and find_block).
use redzone.Prelude.{
  ℕ, ◌+◌, ◌-◌, ◌/◌, ◌≤◌, ◌<◌, ◌≡◌, ◌≢◌, ◌↔◌, ap, arith, inl, inr, true, not, none, some, ◌==◌,
  if◌then◌else◌, get_elem?, get_elem?-lt, Bool-cases, Option-cases,
}
use redzone.Shadow.{Shadow, shadow_limit, shadow_load, shadow_ptr, byte_poisoned, rz_poison}
use redzone.Shadow.Range.{covers, within, off_limits, byte_poisoned_lem, off_limits-carved}
use redzone.Table.{Block, holds, find_block}
use redzone.Table.Find.{find_block_unique}
use redzone.Heap.{Heap, Header, block_from_user_ptr, owns, maybe_owns, usable_size}
use redzone.Heap.Valid.{Placed, IsValid, shadow_of}

pub shadow_load_lem : (s : Shadow) (app : ℕ) → app < shadow_limit → shadow_load s app ≡ s (app / 8)
unfolding shadow_load shadow_ptr
shadow_load_lem s app h = ground arith

pub holds_lem : (b : Block) (x : ℕ) → Placed b → holds b x ≡ within b.real_base b.total_size x
unfolding holds
holds_lem b x p = ground arith

off_limits-shadow_of :
    (b : Block) (x : ℕ)
    → Placed b
    → off_limits (shadow_of b (x / 8)) x
      ≡ (if b.freed then true else not (within b.user_addr b.user_size x))
off_limits-shadow_of b x p = elim (Bool-cases b.freed) [
  | inl e ↦ rw e (ground arith)
  | inr e ↦ rw e (off_limits-carved b.user_addr b.user_size rz_poison x (omega arith) (omega arith))
]

module _ {h : Heap} (valid : IsValid h) (k : ℕ) {b : Block}
    (entry : get_elem? h.table.blocks k ≡ some b) where
  at : Placed b
  at = valid.placed k b entry

  -- The byte at an address of the block's chunks.
  pub block-byte :
      (x : ℕ)
      → covers b.real_base b.total_size (x / 8) ≡ true
      → byte_poisoned h.shadow x
        ≡ (if b.freed then true else not (within b.user_addr b.user_size x))
  block-byte x c =
      rw (byte_poisoned_lem h.shadow x (ground (arith, at)), valid.shadowed k b (x / 8) entry c)
        (off_limits-shadow_of b x at)

  -- No other block holds an address of the block, so the scan finds it.
  pub find_block-entry :
      (x : ℕ)
      → b.real_base ≤ x
      → x < b.real_base + b.total_size
      → find_block h.table.blocks x ≡ some (k, b)
  find_block-entry x lo hi =
      find_block_unique h.table.blocks k x entry (rw (holds_lem b x at) (ground arith)) only
    where
      only : (j : ℕ) (c : Block) → get_elem? h.table.blocks j ≡ some c → holds c x ≡ true → j ≡ k
      only j c other held = elim (Bool-cases (j == k)) [
        | inl e ↦ ground arith
        | inr e ↦
            ground (arith, valid.apart j k c b other entry, holds_lem c x (valid.placed j c other))
      ]

  pub left_guard : shadow_load h.shadow (b.user_addr - 8) ≡ rz_poison
  left_guard =
      rw
        (
          shadow_load_lem h.shadow (b.user_addr - 8) (omega (arith, at.right, at.fits)),
          valid.shadowed k b ((b.user_addr - 8) / 8) entry (ground (arith, at)),
        )
        (ground (arith, at))

  -- The header below the user region leads to the block.
  pub block_from_user_ptr-entry : block_from_user_ptr h b.user_addr ≡ some (k, b)
  unfolding block_from_user_ptr
  block_from_user_ptr-entry =
      let magic = ap (λ (r : Header). r.magic) (valid.headed k b entry) in
      let index = ap (λ (r : Header). r.index) (valid.headed k b entry) in
      ground (arith, at, left_guard, magic, index, get_elem?-lt h.table.blocks k entry)

-- Whatever the memory holds: a block that a header leads to is in the table and starts there.
pub block_from_user_ptr_sound :
    (h : Heap) (u : ℕ) {k : ℕ} {b : Block}
    → block_from_user_ptr h u ≡ some (k, b)
    → (get_elem? h.table.blocks k ≡ some b) × (b.user_addr ≡ u)
unfolding block_from_user_ptr
block_from_user_ptr_sound h u e = ground arith

-- In a well-formed heap __redzone_owns answers yes exactly for the start of a block of the table,
-- live or quarantined.
pub owns_iff :
    (h : Heap) (u : ℕ)
    → IsValid h
    → (owns h u ≡ true)
      ↔ ((k : ℕ) × (b : Block) × (get_elem? h.table.blocks k ≡ some b) × (b.user_addr ≡ u))
unfolding owns
owns_iff h u valid = (forth, back)
  where
    forth :
        owns h u ≡ true
        → (k : ℕ) × (b : Block) × (get_elem? h.table.blocks k ≡ some b) × (b.user_addr ≡ u)
    forth e = elim (Option-cases (block_from_user_ptr h u)) [
      | inl n ↦ absurd (ground (arith, e, n))
      | inr ((k, b), s) ↦ let r = block_from_user_ptr_sound h u s in (k, b, r.0, r.1)
    ]

    back :
        (k : ℕ) × (b : Block) × (get_elem? h.table.blocks k ≡ some b) × (b.user_addr ≡ u)
        → owns h u ≡ true
    back (k, b, entry, e) =
        let found = block_from_user_ptr-entry valid k entry in
        let p = valid.placed k b entry in ground (arith, found, e, p.left)

-- The lock-free test answers yes for every address that __redzone_owns answers yes for.
pub maybe_owns-owns : (h : Heap) (u : ℕ) → owns h u ≡ true → maybe_owns h u ≡ true
unfolding owns maybe_owns block_from_user_ptr
maybe_owns-owns h u e = ground arith

-- In a well-formed heap, the usable size at the user pointer of a block of the table, live or
-- freed, is the user size of that block.
pub usable_size-entry :
    (h : Heap) (k : ℕ) {b : Block}
    → IsValid h
    → get_elem? h.table.blocks k ≡ some b
    → usable_size h b.user_addr ≡ b.user_size
unfolding usable_size
usable_size-entry h k valid entry =
    let p = valid.placed k _ entry in
    ground (arith, block_from_user_ptr-entry valid k entry, p.left)

-- No block starts at the address: no header is believed.
pub block_from_user_ptr-none :
    (h : Heap) (u : ℕ)
    → ((k : ℕ) (b : Block) → get_elem? h.table.blocks k ≡ some b → b.user_addr ≢ u)
    → block_from_user_ptr h u ≡ none
block_from_user_ptr-none h u none_at = elim (Option-cases (block_from_user_ptr h u)) [
  | inl e ↦ e
  | inr ((k, b), e) ↦ let r = block_from_user_ptr_sound h u e in absurd (none_at k b r.0 r.1)
]
