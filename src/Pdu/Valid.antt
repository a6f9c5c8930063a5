-- ===== src/Pdu/Valid.antt =====
-- The dispatcher keeps the state valid, and answers within a PDU.
use stm32_automation_board.Common.{
  ℕ, ◌≤◌, List, [], Bool, true, false, ltb, not, ◌≡◌, refl, arith, length, get_or, some, Bool-cases,
  inl, inr,
}
use stm32_automation_board.Common.Word.{IsByte, IsBytes}
use stm32_automation_board.Server.{Server, Hooks}
use stm32_automation_board.Server.Valid
use stm32_automation_board.Fc.{Step, broadcast_function_supported}
use stm32_automation_board.Fc.Good.{IsGood, exception-IsAnswer, IsByte-at}
use stm32_automation_board.Fc.Reads.Valid.{
  read_bits-IsGood, read_registers-IsGood, read_exception_status-IsGood,
}
use stm32_automation_board.Fc.Writes.Valid.{
  write_single_coil-IsGood, write_single_register-IsGood, write_multiple_coils-IsGood,
  write_multiple_registers-IsGood, mask_write_register-IsGood, read_write_registers-IsGood,
}
use stm32_automation_board.Fc.Files.Read.{read_file_record-IsGood}
use stm32_automation_board.Fc.Files.Write.{write_file_record-IsGood}
use stm32_automation_board.Fc.Info.Fifo.{read_fifo_queue-IsGood}
use stm32_automation_board.Fc.Info.Identity.{read_device_id-IsGood}
use stm32_automation_board.Pdu.{pdu_switch, Answer, pdu_process}

module _ (hooks : Hooks) (safe : Valid.IsSafe hooks) (s : Server) (v : Valid.IsValid s) where
  module _ (rx_pdu : List ℕ) (b : IsBytes rx_pdu) (big : length rx_pdu ≤ 253) where
    pub pdu_switch-IsGood : (fc : ℕ) → IsByte fc → IsGood (pdu_switch hooks s fc rx_pdu)
    unfolding pdu_switch
    pdu_switch-IsGood fc h = ground (
      arith,
      v,
      exception-IsAnswer fc 1 h (omega arith),
      read_bits-IsGood s v fc h rx_pdu,
      read_registers-IsGood s v fc h rx_pdu,
      read_exception_status-IsGood s v fc h rx_pdu,
      write_single_coil-IsGood hooks safe s v fc h rx_pdu b,
      write_single_register-IsGood hooks safe s v fc h rx_pdu b,
      write_multiple_coils-IsGood hooks safe s v fc h rx_pdu b,
      write_multiple_registers-IsGood hooks safe s v fc h rx_pdu b,
      mask_write_register-IsGood hooks safe s v fc h rx_pdu b,
      read_write_registers-IsGood hooks safe s v fc h rx_pdu b,
      read_file_record-IsGood s fc rx_pdu v h,
      write_file_record-IsGood s fc rx_pdu v h b big,
      read_fifo_queue-IsGood s fc rx_pdu v h,
      read_device_id-IsGood s fc rx_pdu v h b,
    )

-- What a call owes: a valid state, bytes in the buffer, a length that the buffer and a PDU have
-- room for, and an answer of one byte and more unless the request is a broadcast.
pub record IsServed (is_broadcast : Bool) (a : Answer) : Type 0 where
  pub valid : Valid.IsValid a.server
  pub bytes : IsBytes a.built
  pub in_buffer : a.tx_pdu_len ≤ length a.built
  pub fits : a.tx_pdu_len ≤ 253
  pub replied : ltb 0 a.tx_pdu_len ≡ not is_broadcast

served :
    (step : Step)
    → IsGood step
    → IsServed false (record { server = step.0; built = step.1; tx_pdu_len = length step.1 })
served step g = record {
  valid = g.valid;
  bytes = g.answer.bytes;
  in_buffer = omega arith;
  fits = g.answer.fits;
  replied = ground (arith, g.answer.some_byte);
}

silent :
    (s : Server) (built : List ℕ)
    → Valid.IsValid s
    → IsBytes built
    → IsServed true (record { server = s; built = built; tx_pdu_len = 0 })
silent s built v b = record {
  valid = v;
  bytes = b;
  in_buffer = omega arith;
  fits = omega arith;
  replied = refl;
}

-- `modbus_pdu_process` never fails on a PDU of 1 to 253 bytes: it leaves a valid state valid, and
-- answers 1 to 253 bytes, or none to a broadcast. The application's callback keeps the state
-- valid.
pub pdu_process-IsServed :
    (hooks : Hooks) (s : Server) (rx_pdu : List ℕ) (is_broadcast : Bool)
    → Valid.IsSafe hooks
    → Valid.IsValid s
    → IsBytes rx_pdu
    → 1 ≤ length rx_pdu
    → length rx_pdu ≤ 253
    → (a : Answer) × (pdu_process hooks s rx_pdu is_broadcast ≡ some a) × IsServed is_broadcast a
unfolding pdu_process
pdu_process-IsServed hooks s rx_pdu false safe v b some_byte big =
    let fc = get_or rx_pdu 0 0 in
    let step = pdu_switch hooks s fc rx_pdu in
    let good = pdu_switch-IsGood hooks safe s v rx_pdu b big fc (IsByte-at rx_pdu 0 b) in
    (
      record { server = step.0; built = step.1; tx_pdu_len = length step.1 },
      ground arith,
      served step good,
    )
pdu_process-IsServed hooks s rx_pdu true safe v b some_byte big =
    let fc = get_or rx_pdu 0 0 in
    let step = pdu_switch hooks s fc rx_pdu in
    let good = pdu_switch-IsGood hooks safe s v rx_pdu b big fc (IsByte-at rx_pdu 0 b) in
    elim (Bool-cases (broadcast_function_supported fc)) [
      | inl e ↦ (
        record { server = step.0; built = step.1; tx_pdu_len = 0 },
        ground (arith, e),
        silent step.0 step.1 good.valid good.answer.bytes,
      )
      | inr e ↦
          (record { server = s; built = []; tx_pdu_len = 0 }, ground (arith, e), silent s [] v tt)
    ]
