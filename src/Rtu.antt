-- ===== src/Rtu.antt =====
-- src/modbus.c, `modbus_rtu_process`: one RTU frame on the serial line.
pub mod Valid
pub mod Frame
pub mod Reject
pub mod Broadcast
pub mod Counter
use stm32_automation_board.Common.{
  ℕ, ◌+◌, ◌-◌, bit_and, List, [], ◌∷◌, ◌++◌, Bool, true, false, if◌then◌else◌, ◌==◌, ◌!=◌, ltb, leb,
  ◌&&◌, ◌||◌, not, length, get_or, take, drop, Option, none, some,
}
use stm32_automation_board.Common.Word.{be16, hi8, lo8}
use stm32_automation_board.Crc.{crc16}
use stm32_automation_board.Event.{event_process, event_note_tx, event_note_success}
use stm32_automation_board.Diag.{
  Diag, diag_process, counter_read, note_bus_message, note_comm_error, note_slave_message,
  note_result,
}
use stm32_automation_board.Server.{Server, Hooks}
use stm32_automation_board.Fc.Info.{report_server_id}
use stm32_automation_board.Pdu.{Answer, pdu_process}

-- `modbus_status_t`
pub data Status : Type 0 where
  status_ok status_error status_exception status_crc_error status_timeout : Status

abbrev pub rtu_frame_max : ℕ
rtu_frame_max = 256

-- The status, the new state, and the bytes `tx_buf[0 .. *tx_len)`.
pub record Result : Type 0 where
  pub status : Status
  pub server : Server
  pub tx : List ℕ

abbrev pub with_diag : Server → Diag → Server
with_diag s d = record s { diag = d }

-- An answer that is sent as built.
abbrev pub sent : Server → List ℕ → Option Answer
sent s built = some (record { server = s; built = built; tx_pdu_len = length built })

-- `is_fetch`: Get Comm Event Counter and Get Comm Event Log.
abbrev pub is_fetch : List ℕ → Bool
is_fetch rx_pdu = get_or rx_pdu 0 0 == 0x0b || get_or rx_pdu 0 0 == 0x0c

-- `resets_events`: a diagnostic request that resets the event counter.
abbrev pub resets_events : List ℕ → Bool
resets_events rx_pdu =
    let sub = be16 (get_or rx_pdu 1 0) (get_or rx_pdu 2 0) in
    get_or rx_pdu 0 0 == 0x08 && leb 3 (length rx_pdu) && (sub == 0x01 || sub == 0x0a)

-- The functions of the serial line are intercepted before the shared dispatcher.
unfoldable pub rtu_dispatch : Hooks → Server → List ℕ → Bool → Option Answer
rtu_dispatch hooks s rx_pdu is_broadcast =
    let fc = get_or rx_pdu 0 0 in
    if fc == 0x08
    then (let (d, built) = diag_process s.diag rx_pdu is_broadcast in sent (with_diag s d) built)
    else if is_fetch rx_pdu
    then (if s.diag.listen_only
        then sent s []
        else sent s (event_process (counter_read 0x0e s.diag) s.diag.event rx_pdu is_broadcast))
    else if fc == 0x11
    then (if s.diag.listen_only || is_broadcast
        then sent s []
        else sent s (report_server_id rx_pdu))
    else if s.diag.listen_only
    then sent s []
    else pdu_process hooks s rx_pdu is_broadcast

-- Bit 7 of `tx_pdu[0]`, a buffer that starts as zeros.
abbrev pub exception_raised : List ℕ → Bool
exception_raised built = bit_and (get_or built 0 0) 0x80 != 0

-- The diagnostic and event bookkeeping for an answer.
unfoldable pub bookkeeping : List ℕ → Bool → Answer → Diag
unfolding note_result event_note_tx event_note_success
bookkeeping rx_pdu is_broadcast a =
    let responded = ltb 0 a.tx_pdu_len in
    let raised = exception_raised a.built in
    let executed = is_broadcast && get_or a.built 0 0 != 0 in
    let d = note_result responded (responded && raised) a.server.diag in
    let d1 =
      if not (is_fetch rx_pdu) && responded
      then record d { event = event_note_tx (if raised then get_or a.built 1 0 else 0) d.event }
      else d in
    if not (is_fetch rx_pdu)
      && not raised
      && not (resets_events rx_pdu)
      && not d1.listen_only
      && (responded || executed)
    then record d1 { event = event_note_success d1.event }
    else d1

-- The frame that carries an answer: address, PDU, and the CRC, low byte first.
unfoldable pub rtu_frame : ℕ → List ℕ → List ℕ
unfolding hi8 lo8
rtu_frame slave_id pdu =
    let body = slave_id ∷ pdu in body ++ lo8 (crc16 body) ∷ hi8 (crc16 body) ∷ []

-- From `modbus_diag_note_result` to the end.
unfoldable pub rtu_finish : List ℕ → Bool → Answer → Result
unfolding rtu_frame bookkeeping
rtu_finish rx_pdu is_broadcast a =
    let s = with_diag a.server (bookkeeping rx_pdu is_broadcast a) in
    if a.tx_pdu_len == 0
    then record { status = status_ok; server = s; tx = [] }
    else if ltb 253 a.tx_pdu_len || ltb rtu_frame_max (1 + a.tx_pdu_len + 2)
    then record { status = status_error; server = s; tx = [] }
    else record {
      status = status_ok;
      server = s;
      tx = rtu_frame s.slave_id (take a.tx_pdu_len a.built);
    }

-- A frame for this device, its PDU taken out of `rx_buf`.
unfoldable pub rtu_serve : Hooks → Server → List ℕ → Bool → Result
unfolding rtu_dispatch rtu_finish
rtu_serve hooks s rx_pdu is_broadcast = elim (rtu_dispatch hooks s rx_pdu is_broadcast) [
  | none ↦ record { status = status_error; server = s; tx = [] }
  | some a ↦ rtu_finish rx_pdu is_broadcast a
]

-- The CRC at the end of the frame.
unfoldable pub crc_ok : List ℕ → Bool
crc_ok rx =
    be16 (get_or rx (length rx - 1) 0) (get_or rx (length rx - 2) 0)
    == crc16 (take (length rx - 2) rx)

unfoldable pub rtu_process : Hooks → Server → List ℕ → Result
unfolding rtu_serve crc_ok
rtu_process hooks s rx =
    let slave_addr = get_or rx 0 0 in
    let heard = with_diag s (note_bus_message s.diag) in
    let addressed = with_diag heard (note_slave_message heard.diag) in
    let rx_pdu = take (length rx - 3) (drop 1 rx) in
    if ltb (length rx) 4 || ltb rtu_frame_max (length rx)
    then record { status = status_error; server = s; tx = [] }
    else if not (crc_ok rx)
    then record {
      status = status_crc_error;
      server = with_diag s (note_comm_error s.diag);
      tx = [];
    }
    else if slave_addr != s.slave_id && slave_addr != 0
    then record { status = status_ok; server = heard; tx = [] }
    else rtu_serve hooks addressed rx_pdu (slave_addr == 0)
