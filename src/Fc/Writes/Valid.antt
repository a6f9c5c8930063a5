-- ===== src/Fc/Writes/Valid.antt =====
-- The writing function codes keep the state valid and answer 1 to 253 bytes.
use stm32_automation_board.Common.{
  ℕ, ◌+◌, ◌*◌, ◌≤◌, List, ◌∷◌, ◌≡◌, arith, length, get_or, take, length-take, All-take,
}
use stm32_automation_board.Common.Word.{u8, be16, IsByte, IsBytes, IsWord}
use stm32_automation_board.Store.{max_coils, max_registers, bit_write, regs_write}
use stm32_automation_board.Store.Bits.{IsBitTable, bit_write-IsBitTable}
use stm32_automation_board.Store.Regs.{IsRegTable, regs_write-IsRegTable}
use stm32_automation_board.Server.{Server, Hooks, sync_registers}
use stm32_automation_board.Server.Valid
use stm32_automation_board.Server.Valid.{with_coils-IsValid, with_holding-IsValid}
use stm32_automation_board.Fc.{start_of, quantity_of}
use stm32_automation_board.Fc.Good.{
  IsAnswer, IsGood, exception-IsAnswer, IsByte-at, quantity_of-IsWord,
}
use stm32_automation_board.Fc.Reads.{read_regs}
use stm32_automation_board.Fc.Reads.Regs.{length-read_regs, read_regs-IsBytes}
use stm32_automation_board.Fc.Writes.{
  echo_five, write_single_coil, write_single_register, write_multiple_coils, write_regs,
  write_multiple_registers, mask_result, mask_write_register, read_write_registers,
}
use stm32_automation_board.Fc.Writes.Coils.{write_coils_lem}
use stm32_automation_board.Fc.Writes.Regs.{write_regs_lem}

module _ (hooks : Hooks) (safe : Valid.IsSafe hooks) (s : Server) (v : Valid.IsValid s) where
  coils_synced :
      (bits : List ℕ)
      → IsBitTable bits
      → Valid.IsValid (sync_registers hooks (record s { coil_bits = bits }))
  coils_synced bits k = safe (record s { coil_bits = bits }) (with_coils-IsValid s bits v k)

  regs_synced :
      (regs : List ℕ)
      → IsRegTable regs
      → Valid.IsValid (sync_registers hooks (record s { holding_regs = regs }))
  regs_synced regs k = safe (record s { holding_regs = regs }) (with_holding-IsValid s regs v k)

  module _ (fc : ℕ) (h : IsByte fc) (rx_pdu : List ℕ) (b : IsBytes rx_pdu) where
    echo-IsAnswer : IsAnswer (echo_five fc rx_pdu)
    echo-IsAnswer = record {
      bytes = (
        h,
        (
          IsByte-at rx_pdu 1 b,
          (IsByte-at rx_pdu 2 b, (IsByte-at rx_pdu 3 b, (IsByte-at rx_pdu 4 b, tt))),
        ),
      );
      some_byte = omega arith;
      fits = omega arith;
    }

    pub write_single_coil-IsGood : IsGood (write_single_coil hooks s fc rx_pdu)
    unfolding write_single_coil
    write_single_coil-IsGood = ground (
      arith,
      exception-IsAnswer fc 2 h (omega arith),
      exception-IsAnswer fc 3 h (omega arith),
      echo-IsAnswer,
      coils_synced (bit_write s.coil_bits (start_of rx_pdu) 0)
          (bit_write-IsBitTable s.coil_bits (start_of rx_pdu) 0 v.coils),
      coils_synced (bit_write s.coil_bits (start_of rx_pdu) 1)
          (bit_write-IsBitTable s.coil_bits (start_of rx_pdu) 1 v.coils),
    )

    pub write_single_register-IsGood : IsGood (write_single_register hooks s fc rx_pdu)
    unfolding write_single_register
    write_single_register-IsGood = ground (
      arith,
      exception-IsAnswer fc 2 h (omega arith),
      exception-IsAnswer fc 3 h (omega arith),
      echo-IsAnswer,
      regs_synced (regs_write s.holding_regs (start_of rx_pdu) (quantity_of rx_pdu)) (
          regs_write-IsRegTable s.holding_regs (start_of rx_pdu) (quantity_of rx_pdu)
            (quantity_of-IsWord rx_pdu b) v.holding),
    )

    pub write_multiple_coils-IsGood : IsGood (write_multiple_coils hooks s fc rx_pdu)
    unfolding write_multiple_coils
    write_multiple_coils-IsGood =
        let start = start_of rx_pdu in
        let n = quantity_of rx_pdu in
        let written = λ (fits : start + n ≤ max_coils).
          coils_synced _ (write_coils_lem rx_pdu start s.coil_bits n fits v.coils).table in
        ground (
          arith,
          exception-IsAnswer fc 2 h (omega arith),
          exception-IsAnswer fc 3 h (omega arith),
          echo-IsAnswer,
          written,
        )

    pub write_multiple_registers-IsGood : IsGood (write_multiple_registers hooks s fc rx_pdu)
    unfolding write_multiple_registers
    write_multiple_registers-IsGood =
        let start = start_of rx_pdu in
        let n = quantity_of rx_pdu in
        let written = λ (fits : start + n ≤ max_registers).
          regs_synced _ (write_regs_lem rx_pdu b 6 start s.holding_regs n fits v.holding).table in
        ground (
          arith,
          exception-IsAnswer fc 2 h (omega arith),
          exception-IsAnswer fc 3 h (omega arith),
          echo-IsAnswer,
          written,
        )

    seven_bytes : length rx_pdu ≡ 7 → IsAnswer (take 7 rx_pdu)
    seven_bytes e = record {
      bytes = All-take IsByte 7 rx_pdu b;
      some_byte = omega (arith, length-take 7 rx_pdu);
      fits = omega (arith, length-take 7 rx_pdu);
    }

    mask_result-IsWord : (x y z : ℕ) → IsWord (mask_result x y z)
    unfolding mask_result
    mask_result-IsWord x y z = omega arith

    pub mask_write_register-IsGood : IsGood (mask_write_register hooks s fc rx_pdu)
    unfolding mask_write_register
    mask_write_register-IsGood =
        let m =
          mask_result (get_or s.holding_regs (start_of rx_pdu) 0)
            (be16 (get_or rx_pdu 3 0) (get_or rx_pdu 4 0))
            (be16 (get_or rx_pdu 5 0) (get_or rx_pdu 6 0)) in
        ground (
          arith,
          exception-IsAnswer fc 2 h (omega arith),
          exception-IsAnswer fc 3 h (omega arith),
          seven_bytes,
          regs_synced (regs_write s.holding_regs (start_of rx_pdu) m) (
              regs_write-IsRegTable s.holding_regs (start_of rx_pdu) m (mask_result-IsWord _ _ _)
                v.holding),
        )

    regs-IsAnswer :
        (regs : List ℕ) (n start : ℕ)
        → n ≤ 125
        → IsAnswer (fc ∷ u8 (n * 2) ∷ read_regs regs n start)
    regs-IsAnswer regs n start q = record {
      bytes = (h, (omega arith, read_regs-IsBytes regs n start));
      some_byte = omega arith;
      fits = omega (arith, length-read_regs regs n start);
    }

    pub read_write_registers-IsGood : IsGood (read_write_registers hooks s fc rx_pdu)
    unfolding read_write_registers
    read_write_registers-IsGood =
        let rs = be16 (get_or rx_pdu 1 0) (get_or rx_pdu 2 0) in
        let rq = be16 (get_or rx_pdu 3 0) (get_or rx_pdu 4 0) in
        let ws = be16 (get_or rx_pdu 5 0) (get_or rx_pdu 6 0) in
        let wq = be16 (get_or rx_pdu 7 0) (get_or rx_pdu 8 0) in
        let regs = write_regs rx_pdu 10 ws wq 0 s.holding_regs in
        let written = λ (fits : ws + wq ≤ max_registers).
          regs_synced regs (write_regs_lem rx_pdu b 10 ws s.holding_regs wq fits v.holding).table in
        ground (
          arith,
          exception-IsAnswer fc 2 h (omega arith),
          exception-IsAnswer fc 3 h (omega arith),
          regs-IsAnswer (sync_registers hooks (record s { holding_regs = regs })).holding_regs rq
              rs,
          written,
        )
