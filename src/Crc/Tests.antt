-- ===== src/Crc/Tests.antt =====
-- The CRC on known frames.
use stm32_automation_board.Common.{◌≡◌, refl, ◌∷◌, []}
use stm32_automation_board.Common.Word.{be16}
use stm32_automation_board.Crc.{crc16, crc_loop, low_crc_table, high_crc_table}

-- The request `01 03 00 00 00 0A`, whose CRC-16/MODBUS is 0xcdc5.
crc16_of_request : crc16 (0x01 ∷ 0x03 ∷ 0x00 ∷ 0x00 ∷ 0x00 ∷ 0x0a ∷ []) ≡ 0x40ed
unfolding crc16 crc_loop low_crc_table high_crc_table be16
crc16_of_request = refl
