-- ===== src/Fc/Info/Identity.antt =====
-- The function codes 0x2B and 0x11 answer within a PDU.
use stm32_automation_board.Common.{
  true, ℕ, zero, suc, ◌+◌, ◌≤◌, List, [], ◌∷◌, ◌++◌, ◌≡◌, refl, arith, length, get_or,
}
use stm32_automation_board.Common.Word.{are_bytes, are_bytes-IsBytes, u8, IsByte, IsBytes}
use stm32_automation_board.Server.{Server}
use stm32_automation_board.Server.Valid
use stm32_automation_board.Fc.Good.{IsAnswer, IsGood, exception-IsAnswer, IsByte-at}
use stm32_automation_board.Fc.Info.{
  devid_answer, devid_object, add_object, add_objects, read_device_id, report_server_id, server_id,
}

fixed :
    (fc r : ℕ) (xs : List ℕ)
    → IsByte fc
    → IsByte r
    → are_bytes xs ≡ true
    → length xs ≤ 250
    → IsAnswer (fc ∷ 0x0e ∷ r ∷ xs)
fixed fc r xs h k e size = record {
  bytes = (h, (omega arith, (k, are_bytes-IsBytes xs e)));
  some_byte = omega arith;
  fits = omega arith;
}

module _ (fc r : ℕ) (h : IsByte fc) (k : IsByte r) where
  stream : (first : ℕ) → first ≤ 2 → IsAnswer (devid_answer fc r first 2)
  unfolding devid_answer add_objects add_object devid_object
  stream zero lt = fixed fc r _ h k refl (omega arith)
  stream (suc zero) lt = fixed fc r _ h k refl (omega arith)
  stream (suc (suc zero)) lt = fixed fc r _ h k refl (omega arith)
  stream (suc (suc (suc n))) lt = absurd (omega arith)

  individual : (object_id : ℕ) → object_id ≤ 2 → IsAnswer (devid_answer fc r object_id object_id)
  unfolding devid_answer add_objects add_object devid_object
  individual zero lt = fixed fc r _ h k refl (omega arith)
  individual (suc zero) lt = fixed fc r _ h k refl (omega arith)
  individual (suc (suc zero)) lt = fixed fc r _ h k refl (omega arith)
  individual (suc (suc (suc n))) lt = absurd (omega arith)

pub read_device_id-IsGood :
    (s : Server) (fc : ℕ) (rx_pdu : List ℕ)
    → Valid.IsValid s
    → IsByte fc
    → IsBytes rx_pdu
    → IsGood (read_device_id s fc rx_pdu)
unfolding read_device_id
read_device_id-IsGood s fc rx_pdu v h b = ground (
  arith,
  v,
  exception-IsAnswer fc 1 h (omega arith),
  exception-IsAnswer fc 2 h (omega arith),
  exception-IsAnswer fc 3 h (omega arith),
  individual fc (get_or rx_pdu 2 0) h (IsByte-at rx_pdu 2 b) (get_or rx_pdu 3 0),
  stream fc (get_or rx_pdu 2 0) h (IsByte-at rx_pdu 2 b) (get_or rx_pdu 3 0),
  stream fc (get_or rx_pdu 2 0) h (IsByte-at rx_pdu 2 b) 0,
)

pub report_server_id-IsAnswer : (rx_pdu : List ℕ) → IsAnswer (report_server_id rx_pdu)
unfolding report_server_id
report_server_id-IsAnswer rx_pdu =
    let answer = 0x11 ∷ u8 (u8 (length server_id) + 1) ∷ (server_id ++ 0xff ∷ []) in
    let full : IsAnswer answer = record {
      bytes = are_bytes-IsBytes answer refl;
      some_byte = omega arith;
      fits = omega arith;
    } in
    ground (arith, full, exception-IsAnswer 0x11 3 (omega arith) (omega arith))
