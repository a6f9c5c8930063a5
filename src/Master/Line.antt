-- ===== src/Master/Line.antt =====
-- A master and a station on one serial line: a whole transaction, from the request PDU through the
-- frames, the station's dispatcher and the frame of the answer back to the master.
use stm32_automation_board.Common.{
  ℕ, ◌+◌, ◌≤◌, ◌<◌, bit_and, List, [], true, false, if◌then◌else◌, ◌==◌, ltb, ◌&&◌, ◌||◌, ◌≡◌, ◌≢◌,
  refl, ap, ◌∙◌, arith, length, get_or, take, Option, some, length-take, All-take,
}
use stm32_automation_board.Common.Bits.{all_below, all_below_sound}
use stm32_automation_board.Common.Word.{IsByte, IsBytes}
use stm32_automation_board.Diag.Counters.{note_bus_message-IsValid, note_slave_message-IsValid}
use stm32_automation_board.Server.{Server, Hooks}
use stm32_automation_board.Server.Valid
use stm32_automation_board.Fc.{exception_response}
use stm32_automation_board.Pdu.{Answer}
use stm32_automation_board.Pdu.Errors.{exception_bit}
use stm32_automation_board.Rtu.{
  Status, status_ok, status_exception, status_timeout, rtu_frame, rtu_frame_max, rtu_process,
  rtu_serve, rtu_dispatch, rtu_finish, with_diag, bookkeeping,
}
use stm32_automation_board.Rtu.Valid.{with_diag-IsValid, IsSendable, rtu_dispatch-IsSendable}
use stm32_automation_board.Master.{
  Master, Wired, wired, ended, transaction, exchange, check_response,
}
use stm32_automation_board.Master.Build.{master_rtu_frame}
use stm32_automation_board.Master.Wire.{
  master_rtu_frame_lem, length-rtu_frame, rtu_validate_response-rtu_frame, addressed,
  rtu_process-rtu_frame,
}

-- The bus behind `flush_rx`, `delay_t35` and `send`.
abbrev pub put_on : {Bus : Type 0} → Wired Bus → List ℕ → Bus → Status × Bus
put_on w adu bus = w.send adu (w.delay_t35 (w.flush_rx bus))

-- A transport whose bus leads to one station: what is sent reaches the station unchanged, its
-- answer is what `recv` gives, a timeout if there is none, and `end` leaves the station alone.
pub record IsLine {Bus : Type 0} (hooks : Hooks) (w : Wired Bus) (station : Bus → Server)
    : Type 0 where
  pub sends : (adu : List ℕ) (bus : Bus) → (put_on w adu bus).0 ≡ status_ok
  pub reaches :
      (adu : List ℕ) (bus : Bus)
      → station (put_on w adu bus).1 ≡ (rtu_process hooks (station bus) adu).server
  pub answers :
      (adu : List ℕ) (bus : Bus) (most timeout_ms : ℕ)
      → let tx = (rtu_process hooks (station bus) adu).tx in
        let (heard, adu_rx, _) = w.recv most timeout_ms (put_on w adu bus).1 in
        (heard ≡ (if length tx == 0 then status_timeout else status_ok)) × (adu_rx ≡ tx)
  pub listens :
      (most timeout_ms : ℕ) (bus : Bus) → station (w.recv most timeout_ms bus).2 ≡ station bus
  pub ends : (bus : Bus) → station (ended w bus) ≡ station bus

-- What the station serves is an answer that fits a frame.
module _ (hooks : Hooks) (s : Server) (req : List ℕ) (a : Answer) (safe : Valid.IsSafe hooks)
    (v : Valid.IsValid s) (b : IsBytes req) (one : 1 ≤ length req) (most : length req ≤ 253) where
  pub answer-IsSendable : rtu_dispatch hooks s req false ≡ some a → IsSendable a
  answer-IsSendable e =
      let (a', e', g) = rtu_dispatch-IsSendable hooks s req false safe v b one most in
      let same : a' ≡ a = cc in rw (← same) g

  -- An answer that is sent goes out under the station's address.
  served_frame :
      rtu_dispatch hooks s req false ≡ some a
      → 1 ≤ a.tx_pdu_len
      → let r = rtu_serve hooks s req false in
        (r.tx ≡ rtu_frame a.server.slave_id (take a.tx_pdu_len a.built))
        × (r.server ≡ with_diag a.server (bookkeeping req false a))
  unfolding rtu_serve rtu_finish
  served_frame e some_byte =
      let g = answer-IsSendable e in
      let fits : (ltb 253 a.tx_pdu_len || ltb 256 (1 + a.tx_pdu_len + 2)) ≡ false =
        ground (arith, g.fits) in
      let sent : (a.tx_pdu_len == 0) ≡ false = ground (arith, some_byte) in
      rw (rtu_serve, e, sent, fits) (refl, refl)

pub addressed-IsValid : (s : Server) → Valid.IsValid s → Valid.IsValid (addressed s)
addressed-IsValid s v =
    with_diag-IsValid s _ v (note_slave_message-IsValid _ (note_bus_message-IsValid s.diag v.diag))

module _ {Bus : Type 0} (hooks : Hooks) (m : Master Bus) (w : Wired Bus) (station : Bus → Server)
    (bound : wired m.transport ≡ some w) (line : IsLine hooks w station)
    (safe : Valid.IsSafe hooks) where
  -- The exchange with a station that answers.
  module _ (bus : Bus) (req : List ℕ) (a : Answer) (v : Valid.IsValid (station bus))
      (unicast : (station bus).slave_id ≢ 0) (b : IsBytes req) (one : 1 ≤ length req)
      (most : length req ≤ 253)
      (served : rtu_dispatch hooks (addressed (station bus)) req false ≡ some a)
      (some_byte : 1 ≤ a.tx_pdu_len) (same_id : a.server.slave_id ≡ (station bus).slave_id) where
    -- What the station does with the frame of the request.
    station_answers :
        let s = station bus in
        let r = rtu_process hooks s (master_rtu_frame s.slave_id req rtu_frame_max) in
        (r.tx ≡ rtu_frame s.slave_id (take a.tx_pdu_len a.built))
        × (r.server ≡ with_diag a.server (bookkeeping req false a))
    station_answers =
        let s = station bus in
        let (tx, server) =
          served_frame hooks (addressed s) req a safe (addressed-IsValid s v) b one most served
            some_byte in
        rw
          (
            master_rtu_frame_lem s.slave_id req one most,
            rtu_process-rtu_frame hooks s req v.id unicast b one most,
          )
          (tx ∙ ap (λ (i : ℕ). rtu_frame i (take a.tx_pdu_len a.built)) same_id, server)

    -- A transaction with a station that answers: the master's verdict is that on the PDU which the
    -- station's dispatcher built, and the station is left in the state behind its own bookkeeping.
    pub transaction-served :
        (resp_max : Option ℕ) (timeout_ms : ℕ)
        → let s = station bus in
          let r = transaction m s.slave_id req resp_max timeout_ms bus in
          let (st, code, resp) = check_response req resp_max (take a.tx_pdu_len a.built) in
          (r.status ≡ st)
          × (r.exception_code ≡ code)
          × (r.resp ≡ resp)
          × (station r.bus ≡ with_diag a.server (bookkeeping req false a))
    unfolding transaction exchange
    transaction-served resp_max timeout_ms =
        let s = station bus in
        let pdu = take a.tx_pdu_len a.built in
        let g =
          answer-IsSendable hooks (addressed s) req a safe (addressed-IsValid s v) b one most
            served in
        let size : length pdu ≡ a.tx_pdu_len =
          omega (arith, length-take a.tx_pdu_len a.built, g.in_buffer) in
        let adu = master_rtu_frame s.slave_id req rtu_frame_max in
        let (tx, server) = station_answers in
        let some_req : (length req == 0) ≡ false = ground arith in
        let some_adu : (length adu == 0) ≡ false =
          rw (master_rtu_frame_lem s.slave_id req one most)
            (ground (arith, length-rtu_frame s.slave_id req)) in
        let uni : (s.slave_id == 0) ≡ false = ground (arith, unicast) in
        let (heard, got) = line.answers adu bus rtu_frame_max timeout_ms in
        let some_tx : (length (rtu_frame s.slave_id pdu) == 0) ≡ false =
          ground (arith, length-rtu_frame s.slave_id pdu) in
        let framed =
          rtu_validate_response-rtu_frame s.slave_id pdu v.id
            (All-take IsByte a.tx_pdu_len a.built g.bytes) (omega (arith, size, some_byte))
            (omega (arith, size, g.fits)) in
        rw
          (
            transaction,
            bound,
            some_req,
            exchange,
            some_adu,
            line.sends adu bus,
            uni,
            heard,
            got,
            tx,
            some_tx,
            framed,
          )
          (
            refl,
            refl,
            refl,
            line.ends _ ∙ line.listens rtu_frame_max timeout_ms _ ∙ line.reaches adu bus ∙ server,
          )

-- A normal answer, and an exception, as the master judges them.
pub check_response-normal :
    (req pdu : List ℕ)
    → bit_and (get_or pdu 0 0) 0x80 ≡ 0
    → get_or pdu 0 0 ≡ get_or req 0 0
    → 1 ≤ length pdu
    → length pdu ≤ 256
    → check_response req (some 256) pdu ≡ (status_ok, 0, pdu)
unfolding check_response
check_response-normal req pdu bit same one most = ground (arith, bit)

exception_bits :
    all_below 128 (λ fc. bit_and (fc + 128) 0x80 == 128 && bit_and (fc + 128) 0x7f == fc) ≡ true
unfolding all_below
exception_bits = refl

pub check_response-exception_response :
    (req : List ℕ) (resp_max : Option ℕ) (code : ℕ)
    → get_or req 0 0 < 128
    → check_response req resp_max (exception_response (get_or req 0 0) code)
      ≡ (status_exception, code, [])
unfolding check_response exception_response
check_response-exception_response req resp_max code h =
    let fc = get_or req 0 0 in
    let bits = all_below_sound 128 _ fc exception_bits h in
    rw (exception_bit fc h) (ground (arith, bits))
