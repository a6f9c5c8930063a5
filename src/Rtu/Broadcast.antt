-- ===== src/Rtu/Broadcast.antt =====
-- Frames for the address 0: which are not answered, and which change no table.
use stm32_automation_board.Common.{
  ℕ, Bool, ◌==◌, ◌||◌, ◌-◌, ◌≤◌, ◌<◌, List, [], true, false, ◌≡◌, ◌⊎◌, inl, inr, refl, sym, ap, ◌∙◌,
  arith, length, get_or, take, drop, Option, none, some, Option-cases,
}
use stm32_automation_board.Diag.{
  Diag, diag_process, note_bus_message, note_slave_message, counter_read,
}
use stm32_automation_board.Diag.Broadcast.{
  sub_of, value_of, value_allowed, diag_process-broadcast_silent,
}
use stm32_automation_board.Event.{event_process}
use stm32_automation_board.Server.{Server, Hooks}
use stm32_automation_board.Fc.{broadcast_function_supported}
use stm32_automation_board.Pdu.{Answer, pdu_process}
use stm32_automation_board.Rtu.{with_diag, rtu_dispatch, rtu_serve, rtu_process}
use stm32_automation_board.Rtu.Reject.{
  IsUntouched, finish-IsUntouched, frame_code, rtu_process_cases, finish_silent,
}

-- A diagnostic request that is shorter than five bytes, or that restarts (0x0001) with a data word
-- other than 0x0000 and 0xFF00, or forces listen-only mode (0x0004) or clears the counters (0x000A)
-- with one other than 0x0000.
abbrev pub IsMalformed : List ℕ → Type 0
IsMalformed rx_pdu =
    (get_or rx_pdu 0 0 ≡ 0x08)
    × ((length rx_pdu < 5) ⊎ (value_allowed (sub_of rx_pdu) (value_of rx_pdu) ≡ false))

-- The length of the answer, 0 where there is none.
abbrev sent_bytes : Option Answer → ℕ
sent_bytes none = 0
sent_bytes (some a) = a.tx_pdu_len

event_process_silent :
    (m : ℕ) (s : Server) (rx_pdu : List ℕ) → event_process m s.diag.event rx_pdu true ≡ []
unfolding event_process
event_process_silent m s rx_pdu = ground arith

pdu_process_silent :
    (hooks : Hooks) (s : Server) (rx_pdu : List ℕ)
    → sent_bytes (pdu_process hooks s rx_pdu true) ≡ 0
unfolding pdu_process
pdu_process_silent hooks s rx_pdu = ground arith

diag_silent :
    (d : Diag) (rx_pdu : List ℕ)
    → (length rx_pdu < 5)
      ⊎ (value_allowed (sub_of rx_pdu) (value_of rx_pdu) ≡ false)
      ⊎ (length (diag_process d rx_pdu true).1 ≡ 0)
diag_silent d rx_pdu = ground (
  arith,
  λ (h : 5 ≤ length rx_pdu) (ok : value_allowed (sub_of rx_pdu) (value_of rx_pdu) ≡ true).
      ap length (diag_process-broadcast_silent d rx_pdu h ok),
)

dispatch_silent :
    (hooks : Hooks) (s : Server) (rx_pdu : List ℕ)
    → (sent_bytes (rtu_dispatch hooks s rx_pdu true) ≡ 0) ⊎ IsMalformed rx_pdu
unfolding rtu_dispatch
dispatch_silent hooks s rx_pdu = ground (
  arith,
  diag_silent s.diag rx_pdu,
  event_process_silent (counter_read 0x0e s.diag) s rx_pdu,
  pdu_process_silent hooks s rx_pdu,
)

serve_silent :
    (hooks : Hooks) (s : Server) (rx_pdu : List ℕ)
    → sent_bytes (rtu_dispatch hooks s rx_pdu true) ≡ 0
    → (rtu_serve hooks s rx_pdu true).tx ≡ []
unfolding rtu_serve
serve_silent hooks s rx_pdu h = elim (Option-cases (rtu_dispatch hooks s rx_pdu true)) [
  | inl e ↦ rw (rtu_serve, e) refl
  | inr (a, e) ↦ rw (rtu_serve, e) (finish_silent rx_pdu true a (sym (ap sent_bytes e) ∙ h))
]

-- A frame for the address 0 is not answered, unless it is a diagnostic request that is shorter than
-- five bytes, or a restart, a change to listen-only mode or a clearing of the counters with a data
-- word that this sub-function does not take.
pub rtu_process-broadcast :
    (hooks : Hooks) (s : Server) (rx : List ℕ)
    → get_or rx 0 0 ≡ 0
    → ((rtu_process hooks s rx).tx ≡ []) ⊎ IsMalformed (take (length rx - 3) (drop 1 rx))
rtu_process-broadcast hooks s rx z =
    let d = note_slave_message (note_bus_message s.diag) in
    let rx_pdu = take (length rx - 3) (drop 1 rx) in
    let served =
      elim (dispatch_silent hooks (with_diag s d) rx_pdu)
        as (λ _. ((rtu_serve hooks (with_diag s d) rx_pdu true).tx ≡ []) ⊎ IsMalformed rx_pdu) [
          | inl quiet ↦ inl (serve_silent hooks (with_diag s d) rx_pdu quiet)
          | inr bad ↦ inr bad
        ] in
    rtu_process_cases (λ r. (r.tx ≡ []) ⊎ IsMalformed rx_pdu) hooks s rx (λ st d. inl refl)
      (λ h. rw z served)

-- The function codes that a broadcast may write with: 0x05, 0x06, 0x0F, 0x10, 0x15, 0x16 and 0x17.
abbrev pub is_writing : ℕ → Bool
is_writing fc =
    fc == 0x05 || fc == 0x06 || fc == 0x0f || fc == 0x10 || fc == 0x15 || fc == 0x16 || fc == 0x17

dispatch-IsUntouched :
    (hooks : Hooks) (s : Server) (rx_pdu : List ℕ) (a : Answer)
    → is_writing (get_or rx_pdu 0 0) ≡ false
    → rtu_dispatch hooks s rx_pdu true ≡ some a
    → a.server ≡ with_diag s a.server.diag
unfolding rtu_dispatch pdu_process broadcast_function_supported
dispatch-IsUntouched hooks s rx_pdu a reads e = ground (arith, reads, e)

serve-IsUntouched :
    (hooks : Hooks) (s : Server) (rx_pdu : List ℕ)
    → is_writing (get_or rx_pdu 0 0) ≡ false
    → IsUntouched s (rtu_serve hooks s rx_pdu true)
unfolding rtu_serve
serve-IsUntouched hooks s rx_pdu reads = elim (Option-cases (rtu_dispatch hooks s rx_pdu true)) [
  | inl e ↦ rw (rtu_serve, e) refl
  | inr (a, e) ↦
      rw (rtu_serve, e)
        (finish-IsUntouched s rx_pdu true a (dispatch-IsUntouched hooks s rx_pdu a reads e))
]

-- A frame for the address 0 whose function code is not one of the seven that write, 0x05, 0x06,
-- 0x0F, 0x10, 0x15, 0x16 and 0x17, leaves every table as it was.
pub rtu_process-broadcast-IsUntouched :
    (hooks : Hooks) (s : Server) (rx : List ℕ)
    → get_or rx 0 0 ≡ 0
    → is_writing (get_or rx 1 0) ≡ false
    → IsUntouched s (rtu_process hooks s rx)
rtu_process-broadcast-IsUntouched hooks s rx z reads =
    let d = note_slave_message (note_bus_message s.diag) in
    let rx_pdu = take (length rx - 3) (drop 1 rx) in
    rtu_process_cases (IsUntouched s) hooks s rx (λ st d. refl)
      (λ h.
        let code = ap is_writing (frame_code rx h) ∙ reads in
        rw z (serve-IsUntouched hooks (with_diag s d) rx_pdu code))
