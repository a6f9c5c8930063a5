-- ===== src/Crc/Reference.antt =====
-- `modbus_crc16` against the bitwise definition of CRC-16/MODBUS (polynomial 0xA001, start 0xFFFF).
use stm32_automation_board.Common.{
  ℕ, bit_and, bit_xor, List, [], ◌∷◌, true, ◌≡◌, ◌≢◌, refl, sym, ap, ◌∙◌, arith, ◌==◌, ==_iff,
}
use stm32_automation_board.Common.Bits.{all_below, all_below_sound, bit_xor-bound}
use stm32_automation_board.Common.Word.{IsByte, IsBytes, hi8, hi8-be16}
use stm32_automation_board.Crc.{low_crc_table, crc_rounds, crc_loop, crc16}
use stm32_automation_board.Crc.Frame.{low_crc_table-IsByte, high_crc_table-IsByte}

-- The standard: each byte is added into the low end of the register, then eight rounds are made.
unfoldable pub crc16_modbus_from : ℕ → List ℕ → ℕ
unfolding crc_rounds
crc16_modbus_from crc [] = crc
crc16_modbus_from crc (b ∷ bytes) = crc16_modbus_from (crc_rounds 8 (bit_xor crc b)) bytes

unfoldable pub crc16_modbus : List ℕ → ℕ
unfolding crc16_modbus_from
crc16_modbus bytes = crc16_modbus_from 0xffff bytes

-- The bits 1 to 5 of a byte.
abbrev pub middle_bits : ℕ → ℕ
middle_bits b = bit_and b 0x3e

low_middle_table : all_below 256 (λ i. middle_bits (low_crc_table i) == 0) ≡ true
unfolding all_below low_crc_table
low_middle_table = refl

low_crc_table_middle : (i : ℕ) → IsByte i → middle_bits (low_crc_table i) ≡ 0
low_crc_table_middle i h = (==_iff _ _).0 (all_below_sound 256 _ i low_middle_table h)

crc_loop_middle :
    (bytes : List ℕ) (crc_hi crc_lo : ℕ)
    → IsByte crc_hi
    → IsByte crc_lo
    → middle_bits crc_hi ≡ 0
    → IsBytes bytes
    → middle_bits (hi8 (crc_loop crc_hi crc_lo bytes)) ≡ 0
unfolding crc_loop
crc_loop_middle [] hi lo p q m h = ap middle_bits (hi8-be16 hi lo p q) ∙ m
crc_loop_middle (b ∷ bytes) hi lo p q m h =
    let idx : IsByte (bit_xor lo b) = bit_xor-bound 8 lo b q h.0 in
    crc_loop_middle bytes _ _ (low_crc_table-IsByte _ idx)
      (bit_xor-bound 8 hi _ p (high_crc_table-IsByte _ idx)) (low_crc_table_middle _ idx) h.1

-- Over at least one byte, the upper byte of `modbus_crc16` takes 8 values only: its bits 1 to 5
-- are 0.
pub crc16_middle :
    (b : ℕ) (bytes : List ℕ) → IsBytes (b ∷ bytes) → middle_bits (hi8 (crc16 (b ∷ bytes))) ≡ 0
unfolding crc16 crc_loop
crc16_middle b bytes h =
    let idx : IsByte (bit_xor 0xff b) = bit_xor-bound 8 0xff b (omega arith) h.0 in
    crc_loop_middle bytes _ _ (low_crc_table-IsByte _ idx)
      (bit_xor-bound 8 0xff _ (omega arith) (high_crc_table-IsByte _ idx))
      (low_crc_table_middle _ idx) h.1

-- On every frame of at least one byte whose CRC-16/MODBUS has one of the bits 9 to 13 set,
-- `modbus_crc16` computes another value.
pub crc16-ne-modbus :
    (b : ℕ) (bytes : List ℕ)
    → IsBytes (b ∷ bytes)
    → middle_bits (hi8 (crc16_modbus (b ∷ bytes))) ≢ 0
    → crc16 (b ∷ bytes) ≢ crc16_modbus (b ∷ bytes)
crc16-ne-modbus b bytes h m e = m (ap (λ c. middle_bits (hi8 c)) (sym e) ∙ crc16_middle b bytes h)
