-- ===== src/Pdu/Errors.antt =====
-- Exceptions and broadcasts in the dispatcher.
use stm32_automation_board.Common.{
  ℕ, ◌+◌, ◌<◌, bit_or, List, [], ◌∷◌, Bool, ◌≡◌, ◌≢◌, refl, ◌∙◌, arith, get_or, take, some,
}
use stm32_automation_board.Common.Bits.{bit_or_sum, bit_or_comm}
use stm32_automation_board.Server.{Server, Hooks}
use stm32_automation_board.Fc.{Step, exception_response}
use stm32_automation_board.Fc.Reads.{read_bits, read_registers, read_exception_status}
use stm32_automation_board.Fc.Writes.{
  write_single_coil, write_single_register, write_multiple_coils, write_multiple_registers,
  mask_write_register, read_write_registers,
}
use stm32_automation_board.Fc.Files.{read_file_record}
use stm32_automation_board.Fc.Info.{read_fifo_queue, read_device_id}
use stm32_automation_board.Pdu.{pdu_switch, Answer, pdu_process}

-- An answer that does not begin with the function code comes with the state unchanged.
abbrev IsClean : Server → ℕ → Step → Type 0
IsClean s fc step = get_or step.1 0 0 ≢ fc → step.0 ≡ s

module _ (s : Server) (fc : ℕ) (rx_pdu : List ℕ) where
  read_bits-IsClean : IsClean s fc (read_bits s fc rx_pdu)
  unfolding read_bits
  read_bits-IsClean h = ground (arith, h)

  read_registers-IsClean : IsClean s fc (read_registers s fc rx_pdu)
  unfolding read_registers
  read_registers-IsClean h = ground (arith, h)

  read_exception_status-IsClean : IsClean s fc (read_exception_status s fc rx_pdu)
  unfolding read_exception_status
  read_exception_status-IsClean h = ground (arith, h)

  read_file_record-clean : (read_file_record s fc rx_pdu).0 ≡ s
  unfolding read_file_record
  read_file_record-clean = ground arith

  read_fifo_queue-clean : (read_fifo_queue s fc rx_pdu).0 ≡ s
  unfolding read_fifo_queue
  read_fifo_queue-clean = ground arith

  read_device_id-clean : (read_device_id s fc rx_pdu).0 ≡ s
  unfolding read_device_id
  read_device_id-clean = ground arith

  module _ (hooks : Hooks) where
    write_single_coil-IsClean : IsClean s fc (write_single_coil hooks s fc rx_pdu)
    unfolding write_single_coil
    write_single_coil-IsClean h = ground (arith, h)

    write_single_register-IsClean : IsClean s fc (write_single_register hooks s fc rx_pdu)
    unfolding write_single_register
    write_single_register-IsClean h = ground (arith, h)

    write_multiple_coils-IsClean : IsClean s fc (write_multiple_coils hooks s fc rx_pdu)
    unfolding write_multiple_coils
    write_multiple_coils-IsClean h = ground (arith, h)

    write_multiple_registers-IsClean : IsClean s fc (write_multiple_registers hooks s fc rx_pdu)
    unfolding write_multiple_registers
    write_multiple_registers-IsClean h = ground (arith, h)

    read_write_registers-IsClean : IsClean s fc (read_write_registers hooks s fc rx_pdu)
    unfolding read_write_registers
    read_write_registers-IsClean h = ground (arith, h)

head_of_seven : (xs : List ℕ) → get_or (take 7 xs) 0 0 ≡ get_or xs 0 0
head_of_seven [] = refl
head_of_seven (x ∷ xs) = refl

mask_write_register-IsClean :
    (hooks : Hooks) (s : Server) (rx_pdu : List ℕ)
    → IsClean s (get_or rx_pdu 0 0) (mask_write_register hooks s (get_or rx_pdu 0 0) rx_pdu)
unfolding mask_write_register
mask_write_register-IsClean hooks s rx_pdu h = ground (arith, head_of_seven rx_pdu, h)

pdu_switch-IsClean :
    (hooks : Hooks) (s : Server) (rx_pdu : List ℕ)
    → let fc = get_or rx_pdu 0 0 in fc ≢ 0x15 → IsClean s fc (pdu_switch hooks s fc rx_pdu)
unfolding pdu_switch
pdu_switch-IsClean hooks s rx_pdu ne h =
    let fc = get_or rx_pdu 0 0 in
    ground (
      arith,
      ne,
      h,
      read_bits-IsClean s fc rx_pdu,
      read_registers-IsClean s fc rx_pdu,
      read_exception_status-IsClean s fc rx_pdu,
      read_file_record-clean s fc rx_pdu,
      read_fifo_queue-clean s fc rx_pdu,
      read_device_id-clean s fc rx_pdu,
      write_single_coil-IsClean s fc rx_pdu hooks,
      write_single_register-IsClean s fc rx_pdu hooks,
      write_multiple_coils-IsClean s fc rx_pdu hooks,
      write_multiple_registers-IsClean s fc rx_pdu hooks,
      read_write_registers-IsClean s fc rx_pdu hooks,
      mask_write_register-IsClean hooks s rx_pdu,
    )

-- The exception bit changes a function code.
pub exception_bit : (fc : ℕ) → fc < 128 → bit_or fc 0x80 ≡ fc + 128
exception_bit fc h = bit_or_comm fc 0x80 ∙ bit_or_sum 7 1 fc h ∙ omega arith

-- A request that is answered by an exception leaves the state as it was, except Write File
-- Record, whose earlier sub-requests stay written: for every function code below 0x80, code of
-- exception and broadcast flag.
pub pdu_process-exception_untouched :
    (hooks : Hooks) (s : Server) (rx_pdu : List ℕ) (is_broadcast : Bool) (a : Answer) (code : ℕ)
    → let fc = get_or rx_pdu 0 0 in
      fc < 0x80
      → fc ≢ 0x15
      → pdu_process hooks s rx_pdu is_broadcast ≡ some a
      → a.built ≡ exception_response fc code
      → a.server ≡ s
unfolding pdu_process exception_response
pdu_process-exception_untouched hooks s rx_pdu bc a code small ne e x =
    let fc = get_or rx_pdu 0 0 in
    ground (arith, exception_bit fc small, pdu_switch-IsClean hooks s rx_pdu ne, e, x)
