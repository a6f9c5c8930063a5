-- ===== src/Fc/Reads.antt =====
-- The function codes 0x01 to 0x04 and 0x07, which read bits and registers.
pub mod Bits
pub mod Regs
pub mod Valid
use stm32_automation_board.Common.{
  ℕ, zero, suc, ◌+◌, ◌*◌, ◌/◌, ◌%◌, ◌^◌, bit_or, List, [], ◌∷◌, if◌then◌else◌, ◌==◌, ◌!=◌, ltb, leb,
  ◌||◌, not, length, get_or,
}
use stm32_automation_board.Common.Loops.{for_range}
use stm32_automation_board.Common.Word.{u8, u16, hi8, lo8}
use stm32_automation_board.Board.{digital_inputs_read_all}
use stm32_automation_board.Store.{max_coils, max_registers, bit_read, address_range_valid}
use stm32_automation_board.Server.{Server, mirror_inputs, mirror_analog}
use stm32_automation_board.Fc.{Step, exception_response, start_of, quantity_of}

-- The loop over the bits of one answer byte: `n` rounds from bit `b` on.
unfoldable pub read_byte : List ℕ → ℕ → ℕ → ℕ → ℕ → ℕ → ℕ → ℕ
read_byte table start quantity i zero b val = val
read_byte table start quantity i (suc n) b val =
    let addr = u16 (start + i * 8 + b) in
    let rest =
      read_byte table start quantity i n (b + 1) (u8 (bit_or val (bit_read table addr * 2 ^ b))) in
    if leb quantity (b + i * 8) then val else rest

-- The loop over the answer bytes: `n` of them from byte `i` on.
unfoldable pub read_bytes : List ℕ → ℕ → ℕ → ℕ → ℕ → List ℕ
unfolding read_byte
read_bytes table start quantity zero i = []
read_bytes table start quantity (suc n) i =
    read_byte table start quantity i 8 0 0 ∷ read_bytes table start quantity n (i + 1)

-- The discrete bits as they are refreshed before 0x02 and 0x07 read them.
unfoldable pub refresh_discrete : Server → Server
refresh_discrete s = record s {
  discrete_bits = mirror_inputs (digital_inputs_read_all s.board) s.discrete_bits;
}

unfoldable pub read_bits : Server → ℕ → List ℕ → Step
unfolding exception_response address_range_valid refresh_discrete
read_bits s fc rx_pdu =
    let start = start_of rx_pdu in
    let quantity = quantity_of rx_pdu in
    if length rx_pdu != 5
    then (s, exception_response fc 0x03)
    else if ltb quantity 1 || ltb 2000 quantity
    then (s, exception_response fc 0x03)
    else if not (address_range_valid start quantity max_coils)
    then (s, exception_response fc 0x02)
    else let r = if fc == 0x02 then refresh_discrete s else s in
      let byte_count = u8 ((quantity + 7) / 8) in
      let table = if fc == 0x01 then r.coil_bits else r.discrete_bits in
      (r, fc ∷ byte_count ∷ read_bytes table start quantity byte_count 0)

-- The loop that puts `n` registers into the answer, from register `addr` on.
unfoldable pub read_regs : List ℕ → ℕ → ℕ → List ℕ
read_regs regs zero addr = []
read_regs regs (suc n) addr =
    hi8 (get_or regs addr 0) ∷ lo8 (get_or regs addr 0) ∷ read_regs regs n (addr + 1)

unfoldable pub read_registers : Server → ℕ → List ℕ → Step
unfolding exception_response address_range_valid
read_registers s fc rx_pdu =
    let start = start_of rx_pdu in
    let quantity = quantity_of rx_pdu in
    if length rx_pdu != 5
    then (s, exception_response fc 0x03)
    else if ltb quantity 1 || ltb 125 quantity
    then (s, exception_response fc 0x03)
    else if not (address_range_valid start quantity max_registers)
    then (s, exception_response fc 0x02)
    else let r =
        if fc == 0x04
        then record s { input_regs = mirror_analog s.holding_regs s.input_regs }
        else s in
      let regs = if fc == 0x03 then r.holding_regs else r.input_regs in
      (r, fc ∷ u8 (quantity * 2) ∷ read_regs regs quantity start)

-- FC 0x07: bit i of the status is discrete input i.
unfoldable pub exception_status : List ℕ → ℕ
exception_status bits =
    for_range 8 0 (λ i status. if bit_read bits i != 0 then bit_or status (u8 (2 ^ i)) else status)
      0

unfoldable pub read_exception_status : Server → ℕ → List ℕ → Step
unfolding exception_response refresh_discrete
read_exception_status s fc rx_pdu =
    if length rx_pdu != 1
    then (s, exception_response fc 0x03)
    else let r = refresh_discrete s in (r, fc ∷ exception_status r.discrete_bits ∷ [])
