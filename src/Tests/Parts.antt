-- ===== src/Tests/Parts.antt =====
-- The CRC, the event log, the diagnostics, the tables and the sync.
use stm32_automation_board.Common.{
  ℕ, ◌+◌, List, [], ◌∷◌, true, false, ◌≡◌, ◌≢◌, ◌⊎◌, refl, arith, take,
}
use stm32_automation_board.Common.Word.{hi8, are_bytes-IsBytes}
use stm32_automation_board.Crc.{crc16, crc_rounds}
use stm32_automation_board.Crc.Reference.{crc16_modbus, crc16_modbus_from, crc16-ne-modbus}
use stm32_automation_board.Event.{power_up, log_size}
use stm32_automation_board.Event.Log.{events, push_all, power_up-IsValid, events-push_all}
use stm32_automation_board.Diag.{Diag, diag_process}
use stm32_automation_board.Diag.ListenOnly.{listen_only_exit}
use stm32_automation_board.Diag.Broadcast.{sub_of, value_of}
use stm32_automation_board.Store.{bit_read}
use stm32_automation_board.Server.{app_sync_registers}
use stm32_automation_board.Server.Sync.{Follows, app_sync_registers-Follows}
use stm32_automation_board.Tests.{blank, blank_diag}

abbrev request : List ℕ
request = 0x01 ∷ 0x03 ∷ 0x00 ∷ 0x00 ∷ 0x00 ∷ 0x0a ∷ []

crc16-ne-modbus_example : crc16 request ≢ crc16_modbus request
unfolding crc16_modbus crc16_modbus_from crc_rounds hi8
crc16-ne-modbus_example =
    crc16-ne-modbus 0x01 (0x03 ∷ 0x00 ∷ 0x00 ∷ 0x00 ∷ 0x0a ∷ []) (are_bytes-IsBytes request refl)
      (omega arith)

events-push_all_example :
    events (push_all (0x40 ∷ 0x80 ∷ []) power_up) ≡ take log_size (0x80 ∷ 0x40 ∷ events power_up)
events-push_all_example =
    events-push_all (0x40 ∷ 0x80 ∷ []) power_up (omega arith, (omega arith, tt)) power_up-IsValid

abbrev restart : List ℕ
restart = 0x08 ∷ 0x00 ∷ 0x01 ∷ 0xff ∷ 0x00 ∷ []

abbrev listening_diag : Diag
listening_diag = record blank_diag { listen_only = true }

listen_only_exit_example :
    let (d', reply) = diag_process listening_diag restart false in
    (d'.listen_only ≡ true)
    ⊎ ((sub_of restart ≡ 0x01)
        × ((value_of restart ≡ 0x0000) ⊎ (value_of restart ≡ 0xff00))
        × (reply ≡ []))
listen_only_exit_example = listen_only_exit listening_diag restart false refl

app_sync_registers-Follows_example :
    let b = (app_sync_registers blank).board in
    Follows (bit_read blank.coil_bits) 8 b.digital_output_states
    × Follows (λ i. bit_read blank.coil_bits (8 + i)) 4 b.relay_states
app_sync_registers-Follows_example = app_sync_registers-Follows blank (omega arith) (omega arith)
