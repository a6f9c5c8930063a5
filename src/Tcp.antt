-- ===== src/Tcp.antt =====
-- src/modbus_tcp.c: one Modbus TCP message, an MBAP header and a PDU.
pub mod Mbap
use stm32_automation_board.Common.{
  ℕ, ◌+◌, ◌-◌, List, [], ◌∷◌, ◌++◌, Bool, true, false, if◌then◌else◌, ◌==◌, ◌!=◌, ltb, ◌&&◌, ◌||◌,
  length, get_or, take, drop, Option, none, some,
}
use stm32_automation_board.Common.Word.{u16, be16, hi8, lo8}
use stm32_automation_board.Server.{Server, Hooks}
use stm32_automation_board.Pdu.{Answer, pdu_process}
use stm32_automation_board.Rtu.{Status, status_ok, status_error, Result}

abbrev pub mbap_size : ℕ
mbap_size = 7

abbrev pub max_pdu : ℕ
max_pdu = 253

abbrev pub max_adu : ℕ
max_adu = 260

-- `mb_tcp_get_uint16` and `mb_tcp_set_uint16`
unfoldable pub get_uint16 : List ℕ → ℕ → ℕ
get_uint16 buf offset = be16 (get_or buf offset 0) (get_or buf (offset + 1) 0)

unfoldable pub set_uint16 : ℕ → List ℕ
set_uint16 value = hi8 value ∷ lo8 value ∷ []

-- The header and the PDU of an answer.
unfoldable pub tcp_frame : ℕ → ℕ → List ℕ → List ℕ
unfolding set_uint16
tcp_frame transaction_id unit_id pdu =
    set_uint16 transaction_id
    ++ set_uint16 0x0000
    ++ set_uint16 (u16 (1 + length pdu))
    ++ (unit_id ∷ pdu)

-- What is done with the answer of `modbus_pdu_process`; `s` is the state before the call.
unfoldable pub tcp_finish : Server → ℕ → ℕ → Option Answer → Result
unfolding tcp_frame
tcp_finish s transaction_id unit_id none = record { status = status_error; server = s; tx = [] }
tcp_finish s transaction_id unit_id (some a) =
    if a.tx_pdu_len == 0
    then record { status = status_ok; server = a.server; tx = [] }
    else if ltb max_pdu a.tx_pdu_len || ltb max_adu (mbap_size + a.tx_pdu_len)
    then record { status = status_error; server = a.server; tx = [] }
    else record {
      status = status_ok;
      server = a.server;
      tx = tcp_frame transaction_id unit_id (take a.tx_pdu_len a.built);
    }

-- `modbus_tcp_build_response`, which `modbus_tcp_process` calls; `tcp_unit_id` is the static that
-- `modbus_tcp_init` sets.
unfoldable pub tcp_process : Hooks → ℕ → Server → List ℕ → Result
unfolding tcp_finish get_uint16
tcp_process hooks tcp_unit_id s rx =
    let transaction_id = get_uint16 rx 0 in
    let protocol_id = get_uint16 rx 2 in
    let len = get_uint16 rx 4 in
    let unit_id = get_or rx 6 0 in
    let rx_pdu = take (len - 1) (drop mbap_size rx) in
    if ltb (length rx) (mbap_size + 1) || ltb max_adu (length rx)
    then record { status = status_error; server = s; tx = [] }
    else if protocol_id != 0 || ltb len 2 || ltb (1 + max_pdu) len || length rx != u16 (6 + len)
    then record { status = status_error; server = s; tx = [] }
    else if unit_id != tcp_unit_id && unit_id != 0
    then record { status = status_ok; server = s; tx = [] }
    else tcp_finish s transaction_id unit_id (pdu_process hooks s rx_pdu false)
