-- ===== src/Master/Outcomes.antt =====
-- What a transaction of the master can end with, whatever the transport does, and broadcasts.
use stm32_automation_board.Common.{
  ℕ, ◌-◌, ◌≤◌, List, [], true, false, if◌then◌else◌, ◌==◌, ◌!=◌, ◌&&◌, ◌≡◌, ◌≢◌, inl, inr, refl, ap,
  ◌∙◌, arith, length, get_or, take, drop, Option, none, some, Bool-cases,
}
use stm32_automation_board.Rtu.{status_ok, status_error, rtu_frame_max, crc_ok}
use stm32_automation_board.Master.{
  Master, Wired, wired, ended, is_ok, rtu_validate_response, check_response, exchange, transaction,
  request,
}
use stm32_automation_board.Master.Build.{
  build_mask_write_register, build_diagnostics, put_u16_be, master_rtu_frame,
}
use stm32_automation_board.Master.Parse.{Done}
use stm32_automation_board.Master.Api.{
  check_written, master_write_single_coil, master_write_single_register,
  master_write_multiple_coils, master_write_multiple_registers, master_mask_write_register,
  diag_restart_comm, diag_clear_counters,
}
use stm32_automation_board.Master.Wire.{master_rtu_frame_lem, length-rtu_frame}
use stm32_automation_board.Master.Line.{put_on}

some_adu :
    (id : ℕ) (req : List ℕ)
    → 1 ≤ length req
    → length req ≤ 253
    → (length (master_rtu_frame id req rtu_frame_max) == 0) ≡ false
some_adu id req one most =
    rw (master_rtu_frame_lem id req one most) (ground (arith, length-rtu_frame id req))

-- The frame of a response: intact, 4 to 256 bytes, from the slave that was asked, with the function
-- code that was asked; the response is its PDU.
pub record IsAccepted (slave_id : ℕ) (req adu_rx resp : List ℕ) : Type 0 where
  pub at_least : 4 ≤ length adu_rx
  pub at_most : length adu_rx ≤ 256
  pub intact : crc_ok adu_rx ≡ true
  pub sender : get_or adu_rx 0 0 ≡ slave_id
  pub pdu : resp ≡ take (length adu_rx - 3) (drop 1 adu_rx)
  pub function_code : get_or resp 0 0 ≡ get_or req 0 0

validated :
    (slave_id : ℕ) (adu : List ℕ)
    → (rtu_validate_response slave_id adu).0 ≡ status_ok
    → (4 ≤ length adu)
      × (length adu ≤ 256)
      × (crc_ok adu ≡ true)
      × (get_or adu 0 0 ≡ slave_id)
      × ((rtu_validate_response slave_id adu).1 ≡ take (length adu - 3) (drop 1 adu))
unfolding rtu_validate_response
validated slave_id adu ok = ground (arith, ok)

checked :
    (req pdu : List ℕ) (most : ℕ)
    → (check_response req (some most) pdu).0 ≡ status_ok
    → ((check_response req (some most) pdu).2 ≡ pdu) × (get_or pdu 0 0 ≡ get_or req 0 0)
unfolding check_response
checked req pdu most ok = ground (arith, ok)

module _ {Bus : Type 0} (m : Master Bus) (bus : Bus) where
  -- A broadcast has no response.
  no_response :
      (req : List ℕ) (resp_max : Option ℕ) (timeout_ms : ℕ)
      → (transaction m 0 req resp_max timeout_ms bus).resp ≡ []
  unfolding transaction exchange
  no_response req resp_max timeout_ms = ground arith

  needs_response :
      {A : Type 0} (req : List ℕ) (parse : List ℕ → Option A)
      → parse [] ≡ none
      → (request m 0 req parse bus).status ≢ status_ok
  unfolding request
  needs_response req parse e =
      let empty = no_response req (some rtu_frame_max) m.timeout_ms in
      rw (request, empty, e) (ground arith)

  -- A broadcast through a writing function of the API that waits for an echo is never MODBUS_OK,
  -- though the frame may have been sent: Write Single Coil, Write Single Register, Write Multiple
  -- Coils, Write Multiple Registers, for any arguments, transport and bus.
  pub master_write-broadcast :
      (addr value quantity : ℕ) (data_out : List ℕ)
      → ((master_write_single_coil m 0 addr value bus).status ≢ status_ok)
        × ((master_write_single_register m 0 addr value bus).status ≢ status_ok)
        × ((master_write_multiple_coils m 0 addr quantity data_out bus).status ≢ status_ok)
        × ((master_write_multiple_registers m 0 addr quantity data_out bus).status ≢ status_ok)
  unfolding master_write_single_coil master_write_single_register master_write_multiple_coils
      master_write_multiple_registers
  master_write-broadcast addr value quantity data_out = (
    needs_response _ (check_written 0x05) refl,
    needs_response _ (check_written 0x06) refl,
    needs_response _ (check_written 0x0f) refl,
    needs_response _ (check_written 0x10) refl,
  )

  module _ (w : Wired Bus) (bound : wired m.transport ≡ some w) where
    executes :
        {A : Type 0} (req : List ℕ) (parse : List ℕ → Option A) (x : A)
        → 1 ≤ length req
        → length req ≤ 253
        → parse [] ≡ some x
        → let (sent, bus_sent) = put_on w (master_rtu_frame 0 req rtu_frame_max) bus in
          let r = request m 0 req parse bus in
          sent ≡ status_ok → (r.status ≡ status_ok) × (r.bus ≡ ended w bus_sent)
    unfolding request transaction exchange
    executes req parse x one most e sent =
        let some_req : (length req == 0) ≡ false = ground arith in
        rw
          (
            request,
            some_req,
            transaction,
            bound,
            some_req,
            exchange,
            some_adu 0 req one most,
            sent,
            e,
          )
          (refl, refl)

    -- A broadcast of Mask Write Register, Restart Communications Option or Clear Counters that the
    -- transport sends is MODBUS_OK without waiting for an answer, and the bus is released.
    pub master_mask_write_register-broadcast :
        (addr and_mask or_mask clear_event_log : ℕ)
        → let mask = build_mask_write_register addr and_mask or_mask 7 in
          let word : ℕ = if clear_event_log != 0 then 0xff00 else 0x0000 in
          let restart = build_diagnostics 0x0001 word 5 in
          let clear = build_diagnostics 0x000a 0x0000 5 in
          let masked = put_on w (master_rtu_frame 0 mask rtu_frame_max) bus in
          let restarted = put_on w (master_rtu_frame 0 restart rtu_frame_max) bus in
          let cleared = put_on w (master_rtu_frame 0 clear rtu_frame_max) bus in
          let r_mask = master_mask_write_register m 0 addr and_mask or_mask bus in
          let r_restart = diag_restart_comm m 0 clear_event_log bus in
          let r_clear = diag_clear_counters m 0 bus in
          masked.0 ≡ status_ok
          → restarted.0 ≡ status_ok
          → cleared.0 ≡ status_ok
          → (r_mask.status ≡ status_ok)
            × (r_mask.bus ≡ ended w masked.1)
            × (r_restart.status ≡ status_ok)
            × (r_restart.bus ≡ ended w restarted.1)
            × (r_clear.status ≡ status_ok)
            × (r_clear.bus ≡ ended w cleared.1)
    unfolding master_mask_write_register diag_restart_comm diag_clear_counters
    master_mask_write_register-broadcast addr and_mask or_mask clear_event_log s1 s2 s3 =
        let mask = build_mask_write_register addr and_mask or_mask 7 in
        let word : ℕ = if clear_event_log != 0 then 0xff00 else 0x0000 in
        let restart = build_diagnostics 0x0001 word 5 in
        let clear = build_diagnostics 0x000a 0x0000 5 in
        let seven : length mask ≡ 7 = unfold build_mask_write_register put_u16_be in refl in
        let five : (length restart ≡ 5) × (length clear ≡ 5) =
          unfold build_diagnostics put_u16_be in (refl, refl) in
        let (n, k) = five in
        let acted : List ℕ → Option Done = λ resp. some tt in
        let m1 = executes mask acted tt (omega (arith, seven)) (omega (arith, seven)) refl s1 in
        let m2 = executes restart acted tt (omega (arith, n)) (omega (arith, n)) refl s2 in
        let m3 = executes clear acted tt (omega (arith, k)) (omega (arith, k)) refl s3 in
        (m1.0, m1.1, m2.0, m2.1, m3.0, m3.1)

    exchange-accepted :
        (slave_id : ℕ) (req : List ℕ) (most timeout_ms : ℕ)
        → let (_, bus_sent) = put_on w (master_rtu_frame slave_id req rtu_frame_max) bus in
          let (_, adu_rx, _) = w.recv rtu_frame_max timeout_ms bus_sent in
          let r = exchange w slave_id req (some most) timeout_ms bus in
          slave_id ≢ 0
          → r.status ≡ status_ok
          → let (framed, pdu) = rtu_validate_response slave_id adu_rx in
            let (st, _, resp) = check_response req (some most) pdu in
            (framed ≡ status_ok) × (st ≡ status_ok) × (r.resp ≡ resp)
    unfolding exchange
    exchange-accepted slave_id req most timeout_ms unicast ok = ground (arith, unicast, ok)

    exchange-IsAccepted :
        (slave_id : ℕ) (req : List ℕ) (most timeout_ms : ℕ)
        → let (_, bus_sent) = put_on w (master_rtu_frame slave_id req rtu_frame_max) bus in
          let (_, adu_rx, _) = w.recv rtu_frame_max timeout_ms bus_sent in
          let r = exchange w slave_id req (some most) timeout_ms bus in
          slave_id ≢ 0 → r.status ≡ status_ok → IsAccepted slave_id req adu_rx r.resp
    exchange-IsAccepted slave_id req most timeout_ms unicast ok =
        let bus_sent = (put_on w (master_rtu_frame slave_id req rtu_frame_max) bus).1 in
        let adu_rx = (w.recv rtu_frame_max timeout_ms bus_sent).1 in
        let (framed, st, same) = exchange-accepted slave_id req most timeout_ms unicast ok in
        let (at_least, at_most, intact, sender, pdu) = validated slave_id adu_rx framed in
        let (whole, code) = checked req _ most st in
        record {
          at_least = at_least;
          at_most = at_most;
          intact = intact;
          sender = sender;
          pdu = same ∙ whole ∙ pdu;
          function_code = ap (λ (xs : List ℕ). get_or xs 0 0) (same ∙ whole) ∙ code;
        }

    -- A transaction that is MODBUS_OK with a response was answered by an intact frame of 4 to 256
    -- bytes from the slave that was asked, and its PDU, which begins with the function code of the
    -- request, is the response.
    pub transaction-IsAccepted :
        (slave_id : ℕ) (req : List ℕ) (most timeout_ms : ℕ)
        → let (_, bus_sent) = put_on w (master_rtu_frame slave_id req rtu_frame_max) bus in
          let (_, adu_rx, _) = w.recv rtu_frame_max timeout_ms bus_sent in
          let r = transaction m slave_id req (some most) timeout_ms bus in
          slave_id ≢ 0 → r.status ≡ status_ok → IsAccepted slave_id req adu_rx r.resp
    unfolding transaction
    transaction-IsAccepted slave_id req most timeout_ms unicast ok =
        elim (Bool-cases (length req == 0)) [
          | inl empty ↦
              let never : status_error ≡ status_ok = rw (transaction, bound, empty) at ok in
              absurd (ground arith)
          | inr some_req ↦
              let on_bus = rw (transaction, bound, some_req) at ok in
              rw (transaction, bound, some_req)
                (exchange-IsAccepted slave_id req most timeout_ms unicast on_bus)
        ]

    -- Every transaction with a request of 1 to 253 bytes releases the bus once, at its end: behind
    -- the answer, or behind the sending if that failed or was a broadcast.
    pub transaction-released :
        (slave_id : ℕ) (req : List ℕ) (resp_max : Option ℕ) (timeout_ms : ℕ)
        → let (sent, bus_sent) = put_on w (master_rtu_frame slave_id req rtu_frame_max) bus in
          let (_, _, bus_heard) = w.recv rtu_frame_max timeout_ms bus_sent in
          let r = transaction m slave_id req resp_max timeout_ms bus in
          1 ≤ length req
          → length req ≤ 253
          → r.bus ≡ ended w (if is_ok sent && slave_id != 0 then bus_heard else bus_sent)
    unfolding transaction exchange
    transaction-released slave_id req resp_max timeout_ms one most =
        let some_req : (length req == 0) ≡ false = ground arith in
        rw (transaction, bound, some_req, exchange, some_adu slave_id req one most) (ground arith)
