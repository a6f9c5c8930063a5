-- ===== src/Diag.antt =====
-- src/modbus_diag.c: the diagnostic counters, listen-only mode and function code 0x08.
pub mod Broadcast
pub mod ListenOnly
pub mod Counters
use stm32_automation_board.Common.{
  ℕ, zero, suc, ◌+◌, bit_or, List, [], ◌∷◌, Bool, true, false, if◌then◌else◌, ◌==◌, ◌!=◌, ltb, ◌&&◌,
  ◌||◌, not, length, get_or, take,
}
use stm32_automation_board.Common.Word.{u16, hi8, lo8, be16}
use stm32_automation_board.Event.{
  Event, event_push, event_note_restart, event_clear_counter, event_enter_listen_only, event_rx,
  event_rx_comm_error, event_rx_char_overrun, event_rx_listen_only,
}

-- The statics of modbus_diag.c, and those of modbus_event.c that its functions change.
pub record Diag : Type 0 where
  pub bus_message_count : ℕ
  pub comm_error_count : ℕ
  pub exception_error_count : ℕ
  pub slave_message_count : ℕ
  pub slave_no_response_count : ℕ
  pub char_overrun_count : ℕ
  pub diag_register : ℕ
  pub listen_only : Bool
  pub event : Event

unfoldable pub clear_counters : Diag → Diag
clear_counters d = record d {
  bus_message_count = 0;
  comm_error_count = 0;
  exception_error_count = 0;
  slave_message_count = 0;
  slave_no_response_count = 0;
  char_overrun_count = 0;
  diag_register = 0;
}

unfoldable pub diag_reset : Diag → Diag
unfolding clear_counters
diag_reset d = record (clear_counters d) { listen_only = false }

abbrev pub exc_illegal_function : ℕ
exc_illegal_function = 0x01

abbrev pub exc_illegal_data_address : ℕ
exc_illegal_data_address = 0x02

abbrev pub exc_illegal_data_value : ℕ
exc_illegal_data_value = 0x03

unfoldable pub diag_exception : ℕ → List ℕ
diag_exception code = bit_or 0x08 0x80 ∷ code ∷ []

-- The first five bytes of the request.
unfoldable pub diag_echo : List ℕ → List ℕ
diag_echo rx_pdu = take 5 rx_pdu

unfoldable pub diag_broadcast_eligible : ℕ → Bool
diag_broadcast_eligible sub = sub == 0x01 || sub == 0x04 || sub == 0x0a

unfoldable pub counter_read : ℕ → Diag → ℕ
counter_read sub d =
    if sub == 0x0b
    then d.bus_message_count
    else if sub == 0x0c
    then d.comm_error_count
    else if sub == 0x0d
    then d.exception_error_count
    else if sub == 0x0e
    then d.slave_message_count
    else if sub == 0x0f
    then d.slave_no_response_count
    else if sub == 0x10
    then 0
    else if sub == 0x11
    then 0
    else if sub == 0x12
    then d.char_overrun_count
    else 0

-- The new state, and the bytes of `tx_pdu` (none where the function returns 0).
abbrev pub Step : Type 0
Step = Diag × List ℕ

-- case MODBUS_DIAG_SUB_RESTART_COMM
unfoldable pub restart_comm : Diag → List ℕ → ℕ → Bool → Step
unfolding diag_exception diag_echo clear_counters
restart_comm d rx_pdu value is_broadcast =
    if value != 0x0000 && value != 0xff00
    then (d, diag_exception exc_illegal_data_value)
    else let c = clear_counters d in
      let r = record c { event = event_note_restart (value == 0xff00) c.event } in
      if d.listen_only
      then (record r { listen_only = false }, [])
      else if is_broadcast
      then (r, [])
      else (r, diag_echo rx_pdu)

-- The answer of the cases that read a register or a counter.
unfoldable pub diag_value : List ℕ → ℕ → List ℕ
unfolding hi8 lo8
diag_value rx_pdu value = 0x08 ∷ get_or rx_pdu 1 0 ∷ get_or rx_pdu 2 0 ∷ hi8 value ∷ lo8 value ∷ []

-- case MODBUS_DIAG_SUB_FORCE_LISTEN_ONLY
unfoldable pub force_listen_only : Diag → ℕ → Step
unfolding diag_exception
force_listen_only d value =
    if value != 0x0000
    then (d, diag_exception exc_illegal_data_value)
    else (record d { listen_only = true; event = event_push event_enter_listen_only d.event }, [])

-- case MODBUS_DIAG_SUB_CLEAR_COUNTERS
unfoldable pub clear_counters_sub : Diag → List ℕ → ℕ → Bool → Step
unfolding diag_exception diag_echo clear_counters
clear_counters_sub d rx_pdu value is_broadcast =
    if value != 0x0000
    then (d, diag_exception exc_illegal_data_value)
    else let c = clear_counters d in
      let r = record c { event = event_clear_counter c.event } in
      if is_broadcast then (r, []) else (r, diag_echo rx_pdu)

-- The sub-functions 0x0B to 0x12, which read a counter.
abbrev pub reads_counter : ℕ → Bool
reads_counter sub =
    sub == 0x0b
    || sub == 0x0c
    || sub == 0x0d
    || sub == 0x0e
    || sub == 0x0f
    || sub == 0x10
    || sub == 0x11
    || sub == 0x12

-- `switch (sub_function)` of `modbus_diag_process`.
unfoldable pub diag_switch : Diag → List ℕ → ℕ → ℕ → Bool → Step
unfolding diag_exception diag_echo diag_value
diag_switch d rx_pdu sub value is_broadcast =
    if sub == 0x00
    then (d, diag_echo rx_pdu)
    else if sub == 0x01
    then restart_comm d rx_pdu value is_broadcast
    else if sub == 0x02
    then (if value != 0x0000
        then (d, diag_exception exc_illegal_data_value)
        else (d, diag_value rx_pdu d.diag_register))
    else if sub == 0x03
    then (d, diag_echo rx_pdu)
    else if sub == 0x04
    then force_listen_only d value
    else if sub == 0x0a
    then clear_counters_sub d rx_pdu value is_broadcast
    else if reads_counter sub
    then (if value != 0x0000
        then (d, diag_exception exc_illegal_data_value)
        else (d, diag_value rx_pdu (counter_read sub d)))
    else if sub == 0x14
    then (if value != 0x0000
        then (d, diag_exception exc_illegal_data_value)
        else (record d { char_overrun_count = 0 }, diag_echo rx_pdu))
    else (d, diag_exception exc_illegal_function)

-- `modbus_diag_process`, on a request of `length rx_pdu` bytes.
unfoldable pub diag_process : Diag → List ℕ → Bool → Step
unfolding diag_exception diag_broadcast_eligible
diag_process d rx_pdu is_broadcast =
    if ltb (length rx_pdu) 5
    then (if d.listen_only then (d, []) else (d, diag_exception exc_illegal_data_value))
    else let sub = be16 (get_or rx_pdu 1 0) (get_or rx_pdu 2 0) in
      let value = be16 (get_or rx_pdu 3 0) (get_or rx_pdu 4 0) in
      if d.listen_only && sub != 0x01
      then (d, [])
      else if is_broadcast && not (diag_broadcast_eligible sub)
      then (d, [])
      else diag_switch d rx_pdu sub value is_broadcast

unfoldable pub note_bus_message : Diag → Diag
note_bus_message d = record d { bus_message_count = u16 (d.bus_message_count + 1) }

-- The log's listen-only bit.
abbrev pub listen_only_bit : Diag → ℕ
listen_only_bit d = if d.listen_only then event_rx_listen_only else 0

unfoldable pub note_comm_error : Diag → Diag
note_comm_error d = record d {
  comm_error_count = u16 (d.comm_error_count + 1);
  event = event_push (bit_or (bit_or event_rx event_rx_comm_error) (listen_only_bit d)) d.event;
}

unfoldable pub note_slave_message : Diag → Diag
note_slave_message d = record d { slave_message_count = u16 (d.slave_message_count + 1) }

unfoldable pub note_char_overrun : Diag → Diag
note_char_overrun d = record d {
  char_overrun_count = u16 (d.char_overrun_count + 1);
  comm_error_count = u16 (d.comm_error_count + 1);
  event =
      event_push
        (bit_or (bit_or (bit_or event_rx event_rx_comm_error) event_rx_char_overrun)
          (listen_only_bit d))
        d.event;
}

unfoldable pub note_result : Bool → Bool → Diag → Diag
note_result responded is_exception d =
    if is_exception
    then record d { exception_error_count = u16 (d.exception_error_count + 1) }
    else if not responded
    then record d { slave_no_response_count = u16 (d.slave_no_response_count + 1) }
    else d
