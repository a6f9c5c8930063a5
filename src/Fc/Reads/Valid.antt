-- ===== src/Fc/Reads/Valid.antt =====
-- The reading function codes keep the state valid and answer 1 to 253 bytes.
use stm32_automation_board.Common.{ℕ, ◌+◌, ◌*◌, ◌/◌, ◌^◌, ◌≤◌, List, ◌∷◌, arith}
use stm32_automation_board.Common.Loops.{for_range_inv}
use stm32_automation_board.Common.Bits.{bit_or-bound}
use stm32_automation_board.Common.Word.{u8, IsByte}
use stm32_automation_board.Board.{digital_inputs_read_all}
use stm32_automation_board.Server.{Server, mirror_inputs, mirror_analog}
use stm32_automation_board.Server.Valid
use stm32_automation_board.Server.Valid.{with_discrete-IsValid, with_input-IsValid}
use stm32_automation_board.Fc.{start_of, quantity_of}
use stm32_automation_board.Fc.Good.{IsAnswer, IsGood, exception-IsAnswer}
use stm32_automation_board.Fc.Reads.{
  read_bytes, read_bits, read_regs, read_registers, exception_status, read_exception_status,
}
use stm32_automation_board.Fc.Reads.Bits.{length-read_bytes, read_bytes-IsBytes}
use stm32_automation_board.Fc.Reads.Regs.{length-read_regs, read_regs-IsBytes}

exception_status-IsByte : (bits : List ℕ) → IsByte (exception_status bits)
unfolding exception_status
exception_status-IsByte bits =
    for_range_inv (λ i status. IsByte status) _ 8
      (λ i status lt h. ground (arith, bit_or-bound 8 status (u8 (2 ^ i)) h (omega arith))) 8 0 0
      (omega arith) (omega arith)

module _ (s : Server) (v : Valid.IsValid s) (fc : ℕ) (h : IsByte fc) (rx_pdu : List ℕ) where
  bits-IsAnswer :
      (table : List ℕ)
      → let n = u8 ((quantity_of rx_pdu + 7) / 8) in
        quantity_of rx_pdu ≤ 2000
        → IsAnswer (fc ∷ n ∷ read_bytes table (start_of rx_pdu) (quantity_of rx_pdu) n 0)
  bits-IsAnswer table q =
      let n = u8 ((quantity_of rx_pdu + 7) / 8) in
      let len = length-read_bytes table (start_of rx_pdu) (quantity_of rx_pdu) n 0 in
      record {
        bytes =
            (h, (omega arith, read_bytes-IsBytes table (start_of rx_pdu) (quantity_of rx_pdu) n 0));
        some_byte = omega arith;
        fits = omega (arith, len);
      }

  pub read_bits-IsGood : IsGood (read_bits s fc rx_pdu)
  unfolding read_bits
  read_bits-IsGood = ground (
    arith,
    exception-IsAnswer fc 2 h (omega arith),
    exception-IsAnswer fc 3 h (omega arith),
    with_discrete-IsValid s (digital_inputs_read_all s.board) v,
    bits-IsAnswer s.coil_bits,
    bits-IsAnswer s.discrete_bits,
    bits-IsAnswer (mirror_inputs (digital_inputs_read_all s.board) s.discrete_bits),
  )

  regs-IsAnswer :
      (regs : List ℕ)
      → quantity_of rx_pdu ≤ 125
      → IsAnswer
          (fc ∷ u8 (quantity_of rx_pdu * 2) ∷ read_regs regs (quantity_of rx_pdu) (start_of rx_pdu))
  regs-IsAnswer regs q = record {
    bytes = (h, (omega arith, read_regs-IsBytes regs (quantity_of rx_pdu) (start_of rx_pdu)));
    some_byte = omega arith;
    fits = omega (arith, length-read_regs regs (quantity_of rx_pdu) (start_of rx_pdu));
  }

  pub read_registers-IsGood : IsGood (read_registers s fc rx_pdu)
  unfolding read_registers
  read_registers-IsGood = ground (
    arith,
    exception-IsAnswer fc 2 h (omega arith),
    exception-IsAnswer fc 3 h (omega arith),
    with_input-IsValid s v,
    regs-IsAnswer s.holding_regs,
    regs-IsAnswer s.input_regs,
    regs-IsAnswer (mirror_analog s.holding_regs s.input_regs),
  )

  pub read_exception_status-IsGood : IsGood (read_exception_status s fc rx_pdu)
  unfolding read_exception_status
  read_exception_status-IsGood = ground (
    arith,
    exception-IsAnswer fc 3 h (omega arith),
    with_discrete-IsValid s (digital_inputs_read_all s.board) v,
    exception_status-IsByte (mirror_inputs (digital_inputs_read_all s.board) s.discrete_bits),
  )
