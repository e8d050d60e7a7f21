-- ===== src/Heap/Valid.antt =====
-- When the heap of runtime/redzone_rt.c is well formed: its blocks, shadow and headers agree.
use redzone.Prelude.{
  ℕ, ◌+◌, ◌/◌, ◌%◌, ◌≤◌, ◌<◌, ◌≡◌, ◌≢◌, ◌⊎◌, true, ◌&&◌, some, ltb, leb, if◌then◌else◌, length,
  get_elem?,
}
use redzone.Prelude.Bits.{u64_mod}
use redzone.Shadow.{shadow_limit, rz_poison, freed_poison}
use redzone.Shadow.Range.{carved, covers}
use redzone.Table.{Block}
use redzone.Heap.{Heap, header_magic, read_header}

-- Where a block may lie: aligned, both red zones inside, below the end of the covered range.
pub record Placed (b : Block) : Type 0 where
  pub aligned : b.real_base % 16 ≡ 0
  pub user_aligned : b.user_addr % 16 ≡ 0
  pub low : 0 < b.real_base
  pub left : b.real_base + 16 ≤ b.user_addr
  pub right : b.user_addr + b.user_size + 16 ≤ b.real_base + b.total_size
  pub fits : b.real_base + b.total_size + 8 ≤ shadow_limit

-- Two allocations do not meet.
abbrev pub Apart : Block → Block → Type 0
Apart b c = (b.real_base + b.total_size ≤ c.real_base) ⊎ (c.real_base + c.total_size ≤ b.real_base)

-- The shadow byte that a chunk of the block should have: its user region is open while it lives
-- and closed as freed afterwards, and the rest is red zone.
abbrev pub shadow_of : Block → ℕ → ℕ
shadow_of b i =
    if b.freed
    then if leb (b.user_addr / 8) i && ltb i ((b.user_addr + b.user_size + 7) / 8)
      then freed_poison
      else rz_poison
    else carved b.user_addr b.user_size rz_poison i

pub record IsValid (h : Heap) : Type 0 where
  pub placed : (k : ℕ) (b : Block) → get_elem? h.table.blocks k ≡ some b → Placed b
  pub apart :
      (j k : ℕ) (b c : Block)
      → get_elem? h.table.blocks j ≡ some b
      → get_elem? h.table.blocks k ≡ some c
      → j ≢ k
      → Apart b c
  pub shadowed :
      (k : ℕ) (b : Block) (i : ℕ)
      → get_elem? h.table.blocks k ≡ some b
      → covers b.real_base b.total_size i ≡ true
      → h.shadow i ≡ shadow_of b i
  pub headed :
      (k : ℕ) (b : Block)
      → get_elem? h.table.blocks k ≡ some b
      → read_header h.memory b.user_addr ≡ record { magic = header_magic; index = k }
  pub few : length h.table.blocks < u64_mod
