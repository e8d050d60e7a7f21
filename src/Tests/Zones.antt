-- ===== src/Tests/Zones.antt =====
-- The zones and the byte-level helpers at concrete addresses.
use redzone.Prelude.{◌%◌, ◌^◌, ◌≡◌}
use redzone.Shadow.{Shadow}
use redzone.Memory.{load_bytes, store_bytes}
use redzone.Memory.Words.{load_bytes-store_bytes}

abbrev clear : Shadow
clear = λ _. 0

load_bytes-store_bytes_example : load_bytes 8 (store_bytes 8 (λ _. 0) 0x30 77) 0x30 ≡ 77 % 256 ^ 8
load_bytes-store_bytes_example = load_bytes-store_bytes 8 (λ _. 0) 0x30 77
