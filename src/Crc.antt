-- ===== src/Crc.antt =====
-- src/modbus.c: the CRC of a Modbus RTU frame, from two tables of bytes.
pub mod Reference
pub mod Frame
mod Tests
use stm32_automation_board.Common.{
  ℕ, zero, suc, ◌/◌, ◌^◌, bit_and, bit_xor, List, [], ◌∷◌, if◌then◌else◌, ◌==◌,
}
use stm32_automation_board.Common.Word.{be16}

-- One round of the inner loop of `modbus_crc_init_tables`.
unfoldable pub crc_shift : ℕ → ℕ
crc_shift crc = if bit_and crc 1 == 1 then bit_xor (crc / 2) 0xa001 else crc / 2

-- The inner loop: `n` rounds.
unfoldable pub crc_rounds : ℕ → ℕ → ℕ
unfolding crc_shift
crc_rounds zero crc = crc
crc_rounds (suc n) crc = crc_rounds n (crc_shift crc)

-- `low_crc_table[i]` and `high_crc_table[i]`. The tables are filled before the first use.
unfoldable pub low_crc_table : ℕ → ℕ
unfolding crc_rounds
low_crc_table i = bit_and (crc_rounds 8 i) 0xff

unfoldable pub high_crc_table : ℕ → ℕ
unfolding crc_rounds
high_crc_table i = crc_rounds 8 i / 2 ^ 8

-- The loop of `modbus_crc16` over the bytes left, with `crc_hi` and `crc_lo`.
unfoldable pub crc_loop : ℕ → ℕ → List ℕ → ℕ
crc_loop crc_hi crc_lo [] = be16 crc_hi crc_lo
crc_loop crc_hi crc_lo (b ∷ bytes) =
    let idx = bit_xor crc_lo b in
    crc_loop (low_crc_table idx) (bit_xor crc_hi (high_crc_table idx)) bytes

-- `modbus_crc16(buf, len)` over the `len` bytes of the list.
unfoldable pub crc16 : List ℕ → ℕ
crc16 bytes = crc_loop 0xff 0xff bytes
