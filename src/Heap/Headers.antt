-- ===== src/Heap/Headers.antt =====
-- The header below a user region (runtime/redzone_rt.c): written, read back, left alone.
use redzone.Prelude.{ℕ, ◌-◌, ◌≤◌, ◌<◌, ◌≡◌, ◌⊎◌, arith, ◌∙◌}
use redzone.Prelude.Bits.{u64_mod, sub64}
use redzone.Memory.{Memory, load_bytes, store_bytes}
use redzone.Memory.Words.{store_bytes_frame, load_bytes_congr, load_bytes-store_bytes}
use redzone.Heap.{Header, read_header, write_header}

module _ (u : ℕ) (low : 16 ≤ u) (high : u < u64_mod) where
  magic_at : sub64 u 16 ≡ u - 16
  magic_at = omega arith

  index_at : sub64 u 8 ≡ u - 8
  index_at = omega arith

  pub write_header_frame :
      (m : Memory) (hd : Header) (x : ℕ) → (x < u - 16) ⊎ (u ≤ x) → write_header m u hd x ≡ m x
  write_header_frame m hd x out =
      rw (magic_at, index_at)
        (store_bytes_frame 8 (store_bytes 8 m (u - 16) hd.magic) (u - 8) hd.index x (omega arith)
          ∙ store_bytes_frame 8 m (u - 16) hd.magic x (omega arith))

  pub read_header_congr :
      (m m' : Memory)
      → ((x : ℕ) → u - 16 ≤ x → x < u → m x ≡ m' x)
      → read_header m u ≡ read_header m' u
  read_header_congr m m' same =
      let magic = load_bytes_congr 8 m m' (u - 16) (λ x lo hi. same x lo (omega arith)) in
      let index = load_bytes_congr 8 m m' (u - 8) (λ x lo hi. same x (omega arith) (omega arith)) in
      rw (magic_at, index_at, magic, index)

  pub read_header-write_header :
      (m : Memory) (hd : Header)
      → hd.magic < u64_mod
      → hd.index < u64_mod
      → read_header (write_header m u hd) u ≡ hd
  read_header-write_header m hd small small' =
      let below = store_bytes 8 m (u - 16) hd.magic in
      let untouched : load_bytes 8 (store_bytes 8 below (u - 8) hd.index) (u - 16)
          ≡ load_bytes 8 below (u - 16) =
        load_bytes_congr 8 (store_bytes 8 below (u - 8) hd.index) below (u - 16)
          (λ x lo hi. store_bytes_frame 8 below (u - 8) hd.index x (omega arith)) in
      rw
        (
          magic_at,
          index_at,
          untouched,
          load_bytes-store_bytes 8 m (u - 16) hd.magic,
          load_bytes-store_bytes 8 below (u - 8) hd.index,
        )
        (ground arith)
