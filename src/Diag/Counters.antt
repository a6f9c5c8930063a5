-- ===== src/Diag/Counters.antt =====
-- The diagnostic counters: bounds, reading, and clearing.
use stm32_automation_board.Common.{
  ℕ, ◌≤◌, List, [], ◌∷◌, Bool, false, if◌then◌else◌, ◌==◌, ◌≡◌, ◌⊎◌, arith, length, take, All-take,
  All-get_or, length-take,
}
use stm32_automation_board.Common.Word.{hi8-IsByte, lo8-IsByte, IsByte, IsBytes, IsWord}
use stm32_automation_board.Event.{log_size}
use stm32_automation_board.Event.Log
use stm32_automation_board.Event.Log.{
  events, event_push-IsValid, event_note_restart-IsValid, event_clear_counter-IsValid,
  events-event_note_restart, counter-event_note_restart,
}
use stm32_automation_board.Diag.{
  Diag, Step, diag_process, diag_switch, restart_comm, force_listen_only, clear_counters_sub,
  clear_counters, counter_read, diag_value, diag_echo, diag_reset, note_bus_message,
  note_comm_error, note_slave_message, note_char_overrun, note_result,
}
use stm32_automation_board.Diag.Broadcast.{sub_of, value_of}

-- Every counter is a 16-bit word, and the event log is valid.
pub record IsValid (d : Diag) : Type 0 where
  pub bus : IsWord d.bus_message_count
  pub comm : IsWord d.comm_error_count
  pub exceptions : IsWord d.exception_error_count
  pub slave : IsWord d.slave_message_count
  pub silent : IsWord d.slave_no_response_count
  pub overrun : IsWord d.char_overrun_count
  pub register : IsWord d.diag_register
  pub event : Log.IsValid d.event

counter_read-IsWord : (sub : ℕ) (d : Diag) → IsValid d → IsWord (counter_read sub d)
unfolding counter_read
counter_read-IsWord sub d v = ground arith

-- A step of function code 0x08 keeps the counters in range, and answers at most five bytes.
abbrev pub IsGoodStep : Step → Type 0
IsGoodStep s = IsValid s.0 × IsBytes s.1 × (length s.1 ≤ 5)

clear_counters-IsValid : (d : Diag) → IsValid d → IsValid (clear_counters d)
unfolding clear_counters
clear_counters-IsValid d v = record {
  bus = omega arith;
  comm = omega arith;
  exceptions = omega arith;
  slave = omega arith;
  silent = omega arith;
  overrun = omega arith;
  register = omega arith;
  event = v.event;
}

with_event-IsValid :
    (d : Diag) (l : Bool) (e : _)
    → IsValid d
    → Log.IsValid e
    → IsValid (record d { listen_only = l; event = e })
with_event-IsValid d l e v w = record {
  bus = v.bus;
  comm = v.comm;
  exceptions = v.exceptions;
  slave = v.slave;
  silent = v.silent;
  overrun = v.overrun;
  register = v.register;
  event = w;
}

module _ (d : Diag) (rx_pdu : List ℕ) (v : IsValid d) (h : IsBytes rx_pdu) where
  echo_good : IsBytes (diag_echo rx_pdu) × (length (diag_echo rx_pdu) ≤ 5)
  unfolding diag_echo
  echo_good = (All-take IsByte 5 rx_pdu h, omega (arith, length-take 5 rx_pdu))

  value_good : (w : ℕ) → IsBytes (diag_value rx_pdu w) × (length (diag_value rx_pdu w) ≤ 5)
  unfolding diag_value
  value_good w = (
    (
      omega arith,
      (
        All-get_or IsByte rx_pdu 1 0 h (omega arith),
        (All-get_or IsByte rx_pdu 2 0 h (omega arith), (hi8-IsByte w, (lo8-IsByte w, tt))),
      ),
    ),
    omega arith,
  )

  restart_good : (value : ℕ) (b : Bool) → IsGoodStep (restart_comm d rx_pdu value b)
  unfolding restart_comm
  restart_good value b =
      ground (arith, echo_good, event_note_restart-IsValid (value == 0xff00) d.event v.event)

  force_good : (value : ℕ) → IsGoodStep (force_listen_only d value)
  unfolding force_listen_only
  force_good value = ground (arith, event_push-IsValid 4 d.event (omega arith) v.event)

  clear_good : (value : ℕ) (b : Bool) → IsGoodStep (clear_counters_sub d rx_pdu value b)
  unfolding clear_counters_sub
  clear_good value b = ground (arith, echo_good, event_clear_counter-IsValid d.event v.event)

  switch_good : (sub value : ℕ) (b : Bool) → IsGoodStep (diag_switch d rx_pdu sub value b)
  unfolding diag_switch
  switch_good sub value b = ground (
    arith,
    echo_good,
    restart_good value b,
    force_good value,
    clear_good value b,
    value_good d.diag_register,
    value_good (counter_read sub d),
  )

-- A request of function code 0x08 keeps the counters and the log in range, and its answer is at
-- most five bytes.
pub diag_process-IsValid :
    (d : Diag) (rx_pdu : List ℕ) (is_broadcast : Bool)
    → IsBytes rx_pdu
    → IsValid d
    → let (d', reply) = diag_process d rx_pdu is_broadcast in
      IsValid d' × IsBytes reply × (length reply ≤ 5)
unfolding diag_process
diag_process-IsValid d rx_pdu b h v =
    ground (arith, switch_good d rx_pdu v h (sub_of rx_pdu) (value_of rx_pdu) b)

pub diag_reset-IsValid : (d : Diag) → IsValid d → IsValid (diag_reset d)
unfolding diag_reset
diag_reset-IsValid d v = with_event-IsValid _ false d.event (clear_counters-IsValid d v) v.event

pub note_bus_message-IsValid : (d : Diag) → IsValid d → IsValid (note_bus_message d)
unfolding note_bus_message
note_bus_message-IsValid d v = ground (arith, v.event)

pub note_slave_message-IsValid : (d : Diag) → IsValid d → IsValid (note_slave_message d)
unfolding note_slave_message
note_slave_message-IsValid d v = ground (arith, v.event)

pub note_result-IsValid :
    (responded is_exception : Bool) (d : Diag)
    → IsValid d
    → IsValid (note_result responded is_exception d)
unfolding note_result
note_result-IsValid responded is_exception d v = ground (arith, v.event)

pub note_comm_error-IsValid : (d : Diag) → IsValid d → IsValid (note_comm_error d)
unfolding note_comm_error
note_comm_error-IsValid d v = ground (
  arith,
  event_push-IsValid 0x82 d.event (omega arith) v.event,
  event_push-IsValid 0xa2 d.event (omega arith) v.event,
)

pub note_char_overrun-IsValid : (d : Diag) → IsValid d → IsValid (note_char_overrun d)
unfolding note_char_overrun
note_char_overrun-IsValid d v = ground (
  arith,
  event_push-IsValid 0x92 d.event (omega arith) v.event,
  event_push-IsValid 0xb2 d.event (omega arith) v.event,
)

-- What a restart leaves.
pub record IsRestarted (d : Diag) (clear_log : Bool) (d' : Diag) : Type 0 where
  pub counters : (sub : ℕ) → counter_read sub d' ≡ 0
  pub register : d'.diag_register ≡ 0
  pub event_counter : d'.event.counter ≡ 0
  pub listening : d'.listen_only ≡ false
  pub logged : events d'.event ≡ (if clear_log then 0 ∷ [] else take log_size (0 ∷ events d.event))

counter_read-clear_counters : (sub : ℕ) (d : Diag) → counter_read sub (clear_counters d) ≡ 0
unfolding counter_read clear_counters
counter_read-clear_counters sub d = ground arith

restart_state :
    (d : Diag) (rx_pdu : List ℕ) (sub value : ℕ) (is_broadcast : Bool)
    → IsValid d
    → sub ≡ 0x01
    → (value ≡ 0x0000) ⊎ (value ≡ 0xff00)
    → IsRestarted d (value == 0xff00) (diag_switch d rx_pdu sub value is_broadcast).0
unfolding diag_switch restart_comm counter_read
restart_state d rx_pdu sub value b v s ok = record {
  counters = λ k. ground (arith, counter_read-clear_counters k d);
  register = ground arith;
  event_counter = ground (arith, counter-event_note_restart (value == 0xff00) d.event);
  listening = ground arith;
  logged = ground (arith, events-event_note_restart (value == 0xff00) d.event v.event);
}

-- A Restart Communications Option that is accepted sets every counter, the diagnostic register and
-- the event counter to 0, ends listen-only mode, and logs a restart event: alone when the data
-- word is 0xFF00, before the older events when it is 0.
pub restart_clears :
    (d : Diag) (rx_pdu : List ℕ) (is_broadcast : Bool)
    → IsValid d
    → 5 ≤ length rx_pdu
    → sub_of rx_pdu ≡ 0x01
    → (value_of rx_pdu ≡ 0x0000) ⊎ (value_of rx_pdu ≡ 0xff00)
    → IsRestarted d (value_of rx_pdu == 0xff00) (diag_process d rx_pdu is_broadcast).0
unfolding diag_process
restart_clears d rx_pdu b v h s ok =
    ground (arith, restart_state d rx_pdu (sub_of rx_pdu) (value_of rx_pdu) b v s ok)
