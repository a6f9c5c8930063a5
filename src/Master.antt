-- ===== src/Master.antt =====
-- src/modbus_master.c: the Modbus RTU master. The transport is a record of functions that the
-- application binds; its `ctx` is the state `Bus` that they pass on.
pub mod Build
pub mod Parse
pub mod Api
pub mod Wire
pub mod Broadcast
pub mod Line
pub mod Answers
pub mod Request
pub mod Registers
pub mod ReadBack
pub mod Outcomes
use stm32_automation_board.Common.{
  ℕ, ◌+◌, ◌-◌, ◌%◌, ◌^◌, bit_and, List, [], ◌∷◌, Bool, true, false, if◌then◌else◌, ◌==◌, ◌!=◌, ltb,
  ◌||◌, not, length, get_or, take, drop, Option, none, some, ◌>>=◌,
}
use stm32_automation_board.Common.Word.{u16, u32}
use stm32_automation_board.Rtu.{
  Status, status_ok, status_error, status_exception, status_crc_error, crc_ok, rtu_frame_max,
}
use stm32_automation_board.Master.Build.{master_rtu_frame}

-- `modbus_master_transport_t`: none is a null pointer. `send` takes the ADU; `recv` takes the room
-- of the buffer and the timeout in ms, and gives the bytes `adu[0 .. *adu_len)`.
pub record Transport (Bus : Type 0) : Type 0 where
  pub send : Option (List ℕ → Bus → Status × Bus)
  pub recv : Option (ℕ → ℕ → Bus → Status × List ℕ × Bus)
  pub delay_t35 : Option (Bus → Bus)
  pub flush_rx : Option (Bus → Bus)
  pub end : Option (Bus → Bus)

-- The functions of a transport that a transaction needs, none of them null.
pub record Wired (Bus : Type 0) : Type 0 where
  pub send : List ℕ → Bus → Status × Bus
  pub recv : ℕ → ℕ → Bus → Status × List ℕ × Bus
  pub delay_t35 : Bus → Bus
  pub flush_rx : Bus → Bus
  pub end : Option (Bus → Bus)

-- `s_transport` and `s_timeout_ms`
pub record Master (Bus : Type 0) : Type 0 where
  pub transport : Option (Transport Bus)
  pub timeout_ms : ℕ

-- `*exception_code`, the bytes `resp_pdu[0 .. *resp_pdu_len)`, and the bus behind the transaction.
pub record Reply (Bus : Type 0) : Type 0 where
  pub status : Status
  pub exception_code : ℕ
  pub resp : List ℕ
  pub bus : Bus

-- What an API function returns and writes: none for an output that it does not write.
pub record Outcome (A : Type 0) (Bus : Type 0) : Type 0 where
  pub status : Status
  pub value : Option A
  pub exception_code : Option ℕ
  pub bus : Bus

-- The statics before `modbus_master_init`.
abbrev pub unbound : {Bus : Type 0} → Master Bus
unbound = record { transport = none; timeout_ms = 500 }

abbrev pub is_ok : Status → Bool
is_ok status_ok = true
is_ok _ = false

-- `modbus_master_rtu_validate_response`: the status, and the PDU in the frame.
unfoldable pub rtu_validate_response : ℕ → List ℕ → Status × List ℕ
rtu_validate_response slave_id adu =
    if ltb (length adu) 4 || ltb rtu_frame_max (length adu)
    then (status_error, [])
    else if not (crc_ok adu)
    then (status_crc_error, [])
    else if get_or adu 0 0 != slave_id
    then (status_error, [])
    else (status_ok, take (length adu - 3) (drop 1 adu))

-- The part of `modbus_master_transaction` behind a valid frame: the status, the exception code and
-- the response. `resp_max` is none where `resp_pdu` is null.
unfoldable pub check_response : List ℕ → Option ℕ → List ℕ → Status × ℕ × List ℕ
check_response req resp_max pdu =
    let too_long : Bool = elim resp_max [ none ↦ false | some most ↦ ltb most (length pdu) ] in
    let copied : List ℕ = elim resp_max [ none ↦ [] | some most ↦ pdu ] in
    if ltb (length pdu) 1
    then (status_error, 0, [])
    else if bit_and (get_or pdu 0 0) 0x80 != 0
    then (if ltb (length pdu) 2 || bit_and (get_or pdu 0 0) 0x7f != get_or req 0 0
        then (status_error, 0, [])
        else (status_exception, get_or pdu 1 0, []))
    else if get_or pdu 0 0 != get_or req 0 0
    then (status_error, 0, [])
    else if too_long
    then (status_error, 0, [])
    else (status_ok, 0, copied)

module _ {Bus : Type 0} where
  unfoldable pub master_init : Option (Transport Bus) → Master Bus → Master Bus
  master_init transport m = record m { transport = transport }

  unfoldable pub set_timeout_ms : ℕ → Master Bus → Master Bus
  set_timeout_ms timeout_ms m = record m {
    timeout_ms = if ltb timeout_ms 50 then 50 else timeout_ms;
  }

  unfoldable pub get_timeout_ms : Master Bus → ℕ
  get_timeout_ms m = m.timeout_ms

  unfoldable pub wired : Option (Transport Bus) → Option (Wired Bus)
  wired transport = do
    t ← transport
    send ← t.send
    recv ← t.recv
    delay_t35 ← t.delay_t35
    flush_rx ← t.flush_rx
    some (record {
      send = send;
      recv = recv;
      delay_t35 = delay_t35;
      flush_rx = flush_rx;
      end = t.end;
    })

  -- `if (s_transport->end) s_transport->end(s_transport->ctx)`
  abbrev pub ended : Wired Bus → Bus → Bus
  ended w bus = elim w.end [ none ↦ bus | some end ↦ end bus ]

  abbrev pub refused : Bus → Reply Bus
  refused bus = record { status = status_error; exception_code = 0; resp = []; bus = bus }

  -- From `modbus_master_rtu_frame` to the end.
  unfoldable pub exchange : Wired Bus → ℕ → List ℕ → Option ℕ → ℕ → Bus → Reply Bus
  exchange w slave_id req resp_max timeout_ms bus =
      let adu_tx = master_rtu_frame slave_id req rtu_frame_max in
      let (sent, bus_sent) = w.send adu_tx (w.delay_t35 (w.flush_rx bus)) in
      let (heard, adu_rx, bus_heard) = w.recv rtu_frame_max timeout_ms bus_sent in
      let (framed, pdu) = rtu_validate_response slave_id adu_rx in
      let (st, code, resp) = check_response req resp_max pdu in
      let quit : Status → Bus → Reply Bus =
        λ st bus. record { status = st; exception_code = 0; resp = []; bus = ended w bus } in
      if length adu_tx == 0
      then refused bus
      else if not (is_ok sent)
      then quit sent bus_sent
      else if slave_id == 0
      then quit status_ok bus_sent
      else if not (is_ok heard)
      then quit heard bus_heard
      else if not (is_ok framed)
      then quit framed bus_heard
      else record { status = st; exception_code = code; resp = resp; bus = ended w bus_heard }

  unfoldable pub transaction : Master Bus → ℕ → List ℕ → Option ℕ → ℕ → Bus → Reply Bus
  transaction m slave_id req resp_max timeout_ms bus = elim (wired m.transport) [
    | none ↦ refused bus
    | some w ↦
        if length req == 0 then refused bus else exchange w slave_id req resp_max timeout_ms bus
  ]

  -- MODBUS_ERROR before the transaction.
  abbrev pub failed : {A : Type 0} → Bus → Outcome A Bus
  failed bus = record { status = status_error; value = none; exception_code = none; bus = bus }

  -- The frame of every API function: a request that was not built is MODBUS_ERROR,
  -- `master_xact_and_check_echo_addr` runs the transaction with the response buffer of 256 bytes,
  -- a status other than MODBUS_OK is returned, and otherwise the response is parsed (none:
  -- MODBUS_ERROR).
  unfoldable pub request :
      {A : Type 0} → Master Bus → ℕ → List ℕ → (List ℕ → Option A) → Bus → Outcome A Bus
  request m slave req parse bus =
      let r = transaction m slave req (some rtu_frame_max) m.timeout_ms bus in
      let parsed = parse r.resp in
      if length req == 0
      then failed bus
      else if not (is_ok r.status)
      then record {
        status = r.status;
        value = none;
        exception_code = some r.exception_code;
        bus = r.bus;
      }
      else record {
        status = elim parsed [ none ↦ status_error | some _ ↦ status_ok ];
        value = parsed;
        exception_code = some r.exception_code;
        bus = r.bus;
      }
