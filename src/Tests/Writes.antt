-- ===== src/Tests/Writes.antt =====
-- The writing function codes.
use stm32_automation_board.Common.{ℕ, List, [], ◌∷◌, ◌≡◌, refl, arith}
use stm32_automation_board.Common.Word.{be16, are_bytes-IsBytes}
use stm32_automation_board.Server.{no_hooks, sync_registers}
use stm32_automation_board.Server.Valid.{no_hooks-IsSafe}
use stm32_automation_board.Fc.{start_of, quantity_of}
use stm32_automation_board.Fc.Reads.Regs.{IsRegsAnswer}
use stm32_automation_board.Fc.Writes.{
  echo_five, write_coils, write_multiple_coils, write_regs, read_write_registers,
}
use stm32_automation_board.Fc.Writes.Coils.{IsCoilsWritten, write_multiple_coils_lem}
use stm32_automation_board.Fc.Writes.Regs.{IsRegsWritten, read_write_registers_lem}
use stm32_automation_board.Tests.{station, station-IsValid}

-- Ten coils from number 19 on.
abbrev ten_coils : List ℕ
ten_coils = 0x0f ∷ 0x00 ∷ 0x13 ∷ 0x00 ∷ 0x0a ∷ 0x02 ∷ 0xcd ∷ 0x01 ∷ []

write_multiple_coils_lem_example :
    (write_multiple_coils no_hooks station 0x0f ten_coils ≡ (
      sync_registers no_hooks
          (record station { coil_bits = write_coils ten_coils 19 10 0 station.coil_bits }),
      echo_five 0x0f ten_coils,
    ))
    × IsCoilsWritten ten_coils 19 10 station.coil_bits
        (write_coils ten_coils 19 10 0 station.coil_bits)
unfolding start_of quantity_of be16
write_multiple_coils_lem_example =
    write_multiple_coils_lem no_hooks station 0x0f ten_coils 19 10 station-IsValid.coils (record {
      start_word = refl;
      quantity_word = refl;
      some_coil = omega arith;
      in_table = omega arith;
      byte_count = refl;
      size = refl;
    })

-- Reads two registers from number 3 on, and writes the register 4.
abbrev read_write : List ℕ
read_write = 0x17 ∷ 0x00 ∷ 0x03 ∷ 0x00 ∷ 0x02 ∷ 0x00 ∷ 0x04 ∷ 0x00 ∷ 0x01 ∷ 0x02 ∷ 0x00 ∷ 0xff ∷ []

read_write_registers_lem_example :
    let regs = write_regs read_write 10 4 1 0 station.holding_regs in
    let (s', answer) = read_write_registers no_hooks station 0x17 read_write in
    (s' ≡ sync_registers no_hooks (record station { holding_regs = regs }))
    × IsRegsWritten read_write 10 4 1 station.holding_regs regs
    × IsRegsAnswer s'.holding_regs 3 2 answer
unfolding be16
read_write_registers_lem_example =
    read_write_registers_lem no_hooks station 0x17 read_write 3 2 4 1 no_hooks-IsSafe
      station-IsValid
      (record {
        bytes = are_bytes-IsBytes read_write refl;
        read_start_word = refl;
        read_qty_word = refl;
        write_start_word = refl;
        write_qty_word = refl;
        reads = (omega arith, omega arith, omega arith);
        writes = (omega arith, omega arith, omega arith);
        byte_count = refl;
        size = refl;
      })
