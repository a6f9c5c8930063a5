-- ===== src/Event.antt =====
-- src/modbus_event.c: the comm event counter and the event log (function codes 0x0B and 0x0C).
pub mod Log
pub mod Fetch
use stm32_automation_board.Common.{
  ℕ, zero, suc, ◌+◌, ◌-◌, bit_or, List, [], ◌∷◌, ◌++◌, Bool, true, false, if◌then◌else◌, ◌==◌, ◌!=◌,
  ltb, leb, ◌||◌, length, get_or, set, take, replicate,
}
use stm32_automation_board.Common.Word.{u8, u16, hi8, lo8}

abbrev pub log_size : ℕ
log_size = 64

abbrev pub event_restart : ℕ
event_restart = 0x00

abbrev pub event_enter_listen_only : ℕ
event_enter_listen_only = 0x04

abbrev pub event_rx : ℕ
event_rx = 0x80

abbrev pub event_rx_comm_error : ℕ
event_rx_comm_error = 0x02

abbrev pub event_rx_char_overrun : ℕ
event_rx_char_overrun = 0x10

abbrev pub event_rx_listen_only : ℕ
event_rx_listen_only = 0x20

abbrev pub event_tx : ℕ
event_tx = 0x40

-- `s_event_counter`, `s_log` and `s_log_count`. `s_log[0]` is the most recent event.
pub record Event : Type 0 where
  pub counter : ℕ
  pub log : List ℕ
  pub log_count : ℕ

-- The loop of `modbus_event_push`: `s_log[i] = s_log[i - 1]` for i = n down to 1.
unfoldable pub shift_log : ℕ → List ℕ → List ℕ
shift_log zero log = log
shift_log (suc i) log = shift_log i (set log (suc i) (get_or log i 0))

unfoldable pub event_push : ℕ → Event → Event
event_push event_byte e =
    let n = if leb log_size e.log_count then log_size - 1 else e.log_count in
    record e {
      log = set (shift_log n e.log) 0 event_byte;
      log_count = if ltb e.log_count log_size then u8 (e.log_count + 1) else e.log_count;
    }

abbrev pub cleared : Event → Event
cleared e = record e { log = replicate log_size 0; log_count = 0 }

-- The three statics before `modbus_event_reset`.
abbrev pub power_up : Event
power_up = record { counter = 0; log = replicate log_size 0; log_count = 0 }

unfoldable pub event_reset : Event → Event
event_reset e = event_push event_restart (record (cleared e) { counter = 0 })

unfoldable pub event_note_restart : Bool → Event → Event
event_note_restart clear_log e =
    event_push event_restart
      (if clear_log then record (cleared e) { counter = 0 } else record e { counter = 0 })

unfoldable pub event_clear_counter : Event → Event
event_clear_counter e = record e { counter = 0 }

unfoldable pub event_note_success : Event → Event
event_note_success e = record e { counter = u16 (e.counter + 1) }

-- The event byte of `modbus_event_note_tx`.
unfoldable pub tx_event : ℕ → ℕ
tx_event code =
    if code == 0
    then event_tx
    else if code == 1 || code == 2 || code == 3
    then bit_or event_tx 0x01
    else if code == 4
    then bit_or event_tx 0x02
    else if code == 5 || code == 6
    then bit_or event_tx 0x04
    else if code == 7
    then bit_or event_tx 0x08
    else event_tx

unfoldable pub event_note_tx : ℕ → Event → Event
event_note_tx code e = event_push (tx_event code) e

unfoldable pub event_counter : Event → ℕ
event_counter e = e.counter

unfoldable pub event_log_count : Event → ℕ
event_log_count e = e.log_count

-- The bytes that `modbus_event_log_read` copies to `out`; their number is its result.
unfoldable pub event_log_read : ℕ → Event → List ℕ
event_log_read max_events e =
    take (if ltb max_events e.log_count then max_events else e.log_count) e.log

-- `modbus_event_process`: the bytes of `tx_pdu`, none where it returns 0. `message_count` is
-- what `modbus_diag_counter_read` gives for the slave message counter.
unfoldable pub event_process : ℕ → Event → List ℕ → Bool → List ℕ
unfolding hi8 lo8
event_process message_count e rx_pdu is_broadcast =
    let fc = get_or rx_pdu 0 0 in
    if ltb (length rx_pdu) 1
    then []
    else if is_broadcast
    then []
    else if length rx_pdu != 1
    then bit_or fc 0x80 ∷ 0x03 ∷ []
    else if fc == 0x0b
    then fc ∷ 0x00 ∷ 0x00 ∷ hi8 e.counter ∷ lo8 e.counter ∷ []
    else fc
      ∷ u8 (6 + e.log_count)
      ∷ 0x00
      ∷ 0x00
      ∷ hi8 e.counter
      ∷ lo8 e.counter
      ∷ hi8 message_count
      ∷ lo8 message_count
      ∷ take e.log_count e.log
