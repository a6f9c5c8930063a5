-- ===== src/Tcp/Mbap.antt =====
-- Modbus TCP: a framed request is answered by a framed response with the same identifiers.
use stm32_automation_board.Common.{
  ℕ, ◌+◌, ◌-◌, ◌≤◌, ◌<◌, List, [], false, ◌≡◌, ◌≢◌, ◌⊎◌, refl, ap, ◌∙◌, arith, length, get_or, take,
  drop, some, take_all,
}
use stm32_automation_board.Common.Word.{u16, be16-hi8-lo8, IsBytes, IsWord}
use stm32_automation_board.Server.{Server, Hooks}
use stm32_automation_board.Server.Valid
use stm32_automation_board.Fc.{Step, exception_response}
use stm32_automation_board.Fc.Good.{IsByte-at}
use stm32_automation_board.Pdu.{pdu_switch, pdu_process}
use stm32_automation_board.Pdu.Valid.{pdu_switch-IsGood}
use stm32_automation_board.Rtu.{status_ok}
use stm32_automation_board.Tcp.{
  mbap_size, max_pdu, get_uint16, set_uint16, tcp_frame, tcp_finish, tcp_process,
}

-- What the header of a frame says, and what stands behind it.
pub record IsMbap (transaction_id unit_id : ℕ) (pdu adu : List ℕ) : Type 0 where
  pub transaction : get_uint16 adu 0 ≡ transaction_id
  pub protocol : get_uint16 adu 2 ≡ 0
  pub announced : get_uint16 adu 4 ≡ 1 + length pdu
  pub unit : get_or adu 6 0 ≡ unit_id
  pub payload : drop mbap_size adu ≡ pdu
  pub size : length adu ≡ 7 + length pdu

pub tcp_frame-IsMbap :
    (transaction_id unit_id : ℕ) (pdu : List ℕ)
    → IsWord transaction_id
    → length pdu ≤ max_pdu
    → IsMbap transaction_id unit_id pdu (tcp_frame transaction_id unit_id pdu)
unfolding tcp_frame get_uint16 set_uint16
tcp_frame-IsMbap t u pdu h small =
    let announced : u16 (1 + length pdu) ≡ 1 + length pdu = omega arith in
    record {
      transaction = be16-hi8-lo8 t h;
      protocol = be16-hi8-lo8 0 (omega arith);
      announced = be16-hi8-lo8 (u16 (1 + length pdu)) (omega arith) ∙ announced;
      unit = refl;
      payload = refl;
      size = omega arith;
    }

pdu_answer :
    (hooks : Hooks) (s : Server) (rx_pdu : List ℕ)
    → 1 ≤ length rx_pdu
    → let (s', built) = pdu_switch hooks s (get_or rx_pdu 0 0) rx_pdu in
      pdu_process hooks s rx_pdu false
      ≡ some (record { server = s'; built = built; tx_pdu_len = length built })
unfolding pdu_process
pdu_answer hooks s rx_pdu h = ground (arith, h)

finish_answer :
    (s s' : Server) (t u : ℕ) (built : List ℕ)
    → 1 ≤ length built
    → length built ≤ 253
    → tcp_finish s t u (some (record { server = s'; built = built; tx_pdu_len = length built }))
      ≡ record { status = status_ok; server = s'; tx = tcp_frame t u built }
unfolding tcp_finish
finish_answer s s' t u built one big =
    ground (arith, one, big, take_all (length built) built (omega arith))

tcp_accepts :
    (hooks : Hooks) (uid : ℕ) (s : Server) (t u : ℕ) (pdu rx : List ℕ)
    → IsMbap t u pdu rx
    → 1 ≤ length pdu
    → length pdu ≤ 253
    → (u ≡ uid) ⊎ (u ≡ 0)
    → tcp_process hooks uid s rx ≡ tcp_finish s t u (pdu_process hooks s pdu false)
unfolding tcp_process
tcp_accepts hooks uid s t u pdu rx m one big unit =
    let inner : take (1 + length pdu - 1) (drop 7 rx) ≡ pdu =
      ap (take (1 + length pdu - 1)) m.payload ∙ take_all _ pdu (omega arith) in
    rw (m.announced, inner, m.transaction, m.protocol, m.unit)
      (ground (arith, m.size, one, big, unit))

-- A request in an MBAP frame for this unit, or for unit 0, is answered by the frame that carries
-- the dispatcher's answer under the transaction and the unit of the request. The application's
-- callback keeps the state valid.
pub tcp_process_lem :
    (hooks : Hooks) (tcp_unit_id : ℕ) (s : Server) (transaction_id unit_id : ℕ) (pdu : List ℕ)
    → Valid.IsSafe hooks
    → Valid.IsValid s
    → IsWord transaction_id
    → IsBytes pdu
    → 1 ≤ length pdu
    → length pdu ≤ 253
    → (unit_id ≡ tcp_unit_id) ⊎ (unit_id ≡ 0)
    → let (s', answer) = pdu_switch hooks s (get_or pdu 0 0) pdu in
      let r = tcp_process hooks tcp_unit_id s (tcp_frame transaction_id unit_id pdu) in
      (r ≡ record { status = status_ok; server = s'; tx = tcp_frame transaction_id unit_id answer })
      × IsMbap transaction_id unit_id answer r.tx
tcp_process_lem hooks uid s t u pdu safe v h b one big unit =
    let (s', answer) = pdu_switch hooks s (get_or pdu 0 0) pdu in
    let good =
      (pdu_switch-IsGood hooks safe s v pdu b big (get_or pdu 0 0) (IsByte-at pdu 0 b)).answer in
    let m = tcp_frame-IsMbap t u pdu h big in
    let done = finish_answer s s' t u answer good.some_byte good.fits in
    rw (tcp_accepts hooks uid s t u pdu _ m one big unit, pdu_answer hooks s pdu one, done)
      (refl, tcp_frame-IsMbap t u answer h good.fits)

-- A message that is too short, too long, of another protocol, of a wrong length, or for another
-- unit is not answered, and changes nothing.
pub tcp_process-rejected :
    (hooks : Hooks) (tcp_unit_id : ℕ) (s : Server) (rx : List ℕ)
    → ((length rx < 8) ⊎ (260 < length rx))
      ⊎ ((get_uint16 rx 2 ≢ 0)
          ⊎ ((length rx ≢ 6 + get_uint16 rx 4)
              ⊎ ((get_or rx 6 0 ≢ tcp_unit_id) × (get_or rx 6 0 ≢ 0))))
    → let r = tcp_process hooks tcp_unit_id s rx in (r.tx ≡ []) × (r.server ≡ s)
unfolding tcp_process
tcp_process-rejected hooks uid s rx h = ground (arith, h)

-- The diagnostics of the serial line, 0x08, 0x0B, 0x0C and 0x11, are answered over TCP by the
-- exception 01, and change nothing.
pub tcp_process-serial_only :
    (hooks : Hooks) (tcp_unit_id : ℕ) (s : Server) (transaction_id unit_id : ℕ) (pdu : List ℕ)
    → Valid.IsSafe hooks
    → Valid.IsValid s
    → IsWord transaction_id
    → IsBytes pdu
    → 1 ≤ length pdu
    → length pdu ≤ 253
    → (unit_id ≡ tcp_unit_id) ⊎ (unit_id ≡ 0)
    → let fc = get_or pdu 0 0 in
      ((fc ≡ 0x08) ⊎ (fc ≡ 0x0b)) ⊎ ((fc ≡ 0x0c) ⊎ (fc ≡ 0x11))
      → tcp_process hooks tcp_unit_id s (tcp_frame transaction_id unit_id pdu) ≡ record {
        status = status_ok;
        server = s;
        tx = tcp_frame transaction_id unit_id (exception_response fc 0x01);
      }
tcp_process-serial_only hooks uid s t u pdu safe v h b one big unit fc =
    (tcp_process_lem hooks uid s t u pdu safe v h b one big unit).0
    ∙ ap
        (λ (step : Step). record { status = status_ok; server = step.0; tx = tcp_frame t u step.1 })
        (refused fc)
  where
    refused :
        let fc = get_or pdu 0 0 in
        ((fc ≡ 0x08) ⊎ (fc ≡ 0x0b)) ⊎ ((fc ≡ 0x0c) ⊎ (fc ≡ 0x11))
        → pdu_switch hooks s fc pdu ≡ (s, exception_response fc 0x01)
    refused f = unfold pdu_switch in ground (arith, f)
