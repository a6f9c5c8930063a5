-- ===== src/Event/Fetch.antt =====
-- What the function codes 0x0B and 0x0C report.
use stm32_automation_board.Common.{
  ℕ, ◌+◌, ◌≤◌, bit_or, List, [], ◌∷◌, Bool, true, false, ◌≡◌, refl, arith, length, get_or, drop,
  length-take, All-take,
}
use stm32_automation_board.Common.Word.{
  be16, be16-hi8-lo8, hi8-IsByte, lo8-IsByte, IsByte, IsBytes, IsWord,
}
use stm32_automation_board.Common.Bits.{bit_or-bound}
use stm32_automation_board.Event.{Event, event_process}
use stm32_automation_board.Event.Log.{IsValid, events}

-- A request for the log (0x0C), alone in its PDU and not broadcast, is answered by the event
-- counter, the message count and the events in the log, under a byte count that fits.
pub event_process_log :
    (message_count : ℕ) (e : Event)
    → IsWord message_count
    → IsValid e
    → let r = event_process message_count e (0x0c ∷ []) false in
      (be16 (get_or r 4 0) (get_or r 5 0) ≡ e.counter)
      × (be16 (get_or r 6 0) (get_or r 7 0) ≡ message_count)
      × (drop 8 r ≡ events e)
      × (get_or r 1 0 + 2 ≡ length r)
unfolding event_process
event_process_log m e h v = (
  be16-hi8-lo8 e.counter v.word,
  be16-hi8-lo8 m h,
  refl,
  omega (arith, length-take e.log_count e.log, v.size, v.used),
)

-- The answer to 0x0B carries the same event counter.
pub event_process_counter :
    (m : ℕ) (e : Event)
    → IsValid e
    → let r = event_process m e (0x0b ∷ []) false in be16 (get_or r 3 0) (get_or r 4 0) ≡ e.counter
unfolding event_process
event_process_counter m e v = be16-hi8-lo8 e.counter v.word

-- Every answer is made of bytes and fits a PDU.
pub event_process-IsBytes :
    (m : ℕ) (e : Event) (rx_pdu : List ℕ) (is_broadcast : Bool)
    → IsBytes rx_pdu
    → IsValid e
    → IsBytes (event_process m e rx_pdu is_broadcast)
      × (length (event_process m e rx_pdu is_broadcast) ≤ 72)
unfolding event_process
event_process-IsBytes m e [] is_broadcast h v = (tt, omega arith)
event_process-IsBytes m e (fc ∷ rx) true h v = ground arith
event_process-IsBytes m e (fc ∷ x ∷ rx) false h v =
    let b : IsByte (bit_or fc 0x80) = bit_or-bound 8 fc 0x80 h.0 (omega arith) in ground (arith, b)
event_process-IsBytes m e (fc ∷ []) false h v = ground (
  arith,
  hi8-IsByte e.counter,
  lo8-IsByte e.counter,
  hi8-IsByte m,
  lo8-IsByte m,
  h.0,
  All-take IsByte e.log_count e.log v.bytes,
  length-take e.log_count e.log,
)
