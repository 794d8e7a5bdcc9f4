-- ===== src/Journal/Crc.antt =====
-- `crc32_compute` of src/fs/versioned/journal.rs, on u32. `crc & 1` is `crc % 2`.
pub mod Detects
use embeddenator_fs.Prelude.{
  ℕ, zero, suc, ◌-◌, ◌/◌, ◌%◌, ◌^◌, bit_xor, List, [], ◌∷◌, ◌++◌, ◌==◌, if◌then◌else◌,
}

abbrev pub polynomial : ℕ
polynomial = 0xEDB88320

unfoldable pub crc_bit : ℕ → ℕ
crc_bit crc = if crc % 2 == 0 then crc / 2 else bit_xor (crc / 2) polynomial

-- The rounds of the inner loop.
unfoldable pub crc_rounds : ℕ → ℕ → ℕ
unfolding crc_bit
crc_rounds zero crc = crc
crc_rounds (suc n) crc = crc_rounds n (crc_bit crc)

unfoldable pub crc_byte : ℕ → ℕ → ℕ
unfolding crc_rounds
crc_byte crc byte = crc_rounds 8 (bit_xor crc byte)

unfoldable pub crc_loop : ℕ → List ℕ → ℕ
unfolding crc_byte
crc_loop crc [] = crc
crc_loop crc (byte ∷ bytes) = crc_loop (crc_byte crc byte) bytes

-- `!crc` on u32
unfoldable pub crc32_compute : List ℕ → List ℕ → ℕ
unfolding crc_loop
crc32_compute header payload = 2 ^ 32 - 1 - crc_loop 0xFFFFFFFF (header ++ payload)
