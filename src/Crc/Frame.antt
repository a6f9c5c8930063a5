-- ===== src/Crc/Frame.antt =====
-- src/modbus.c: the bounds of the CRC tables and of modbus_crc16.
use stm32_automation_board.Common.{ℕ, bit_xor, List, [], ◌∷◌, true, ◌≡◌, refl, arith, ltb, ltb→lt}
use stm32_automation_board.Common.Bits.{all_below, all_below_sound, bit_xor-bound}
use stm32_automation_board.Common.Word.{IsByte, IsBytes, IsWord, be16-IsWord}
use stm32_automation_board.Crc.{low_crc_table, high_crc_table, crc_loop, crc16}

low_table : all_below 256 (λ i. ltb (low_crc_table i) 256) ≡ true
unfolding all_below low_crc_table
low_table = refl

high_table : all_below 256 (λ i. ltb (high_crc_table i) 256) ≡ true
unfolding all_below high_crc_table
high_table = refl

pub low_crc_table-IsByte : (i : ℕ) → IsByte i → IsByte (low_crc_table i)
low_crc_table-IsByte i h = ltb→lt _ _ (all_below_sound 256 _ i low_table h)

pub high_crc_table-IsByte : (i : ℕ) → IsByte i → IsByte (high_crc_table i)
high_crc_table-IsByte i h = ltb→lt _ _ (all_below_sound 256 _ i high_table h)

pub crc_loop-IsWord :
    (bytes : List ℕ) (crc_hi crc_lo : ℕ)
    → IsByte crc_hi
    → IsByte crc_lo
    → IsBytes bytes
    → IsWord (crc_loop crc_hi crc_lo bytes)
unfolding crc_loop
crc_loop-IsWord [] hi lo p q h = be16-IsWord hi lo p q
crc_loop-IsWord (b ∷ bytes) hi lo p q h =
    let idx : IsByte (bit_xor lo b) = bit_xor-bound 8 lo b q h.0 in
    crc_loop-IsWord bytes _ _ (low_crc_table-IsByte _ idx)
      (bit_xor-bound 8 hi _ p (high_crc_table-IsByte _ idx)) h.1

-- The CRC of a list of bytes fits 16 bits.
pub crc16-IsWord : (bytes : List ℕ) → IsBytes bytes → IsWord (crc16 bytes)
unfolding crc16
crc16-IsWord bytes h = crc_loop-IsWord bytes 0xff 0xff (omega arith) (omega arith) h
