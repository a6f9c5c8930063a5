-- ===== src/Rtu/Valid.antt =====
-- The dispatcher of the serial line keeps the state valid, and its answers fit a frame.
use stm32_automation_board.Common.{
  ℕ, ◌≤◌, List, [], Bool, if◌then◌else◌, ltb, ◌&&◌, ◌≡◌, refl, arith, length, get_or, Option, none,
  some,
}
use stm32_automation_board.Common.Word.{IsByte, IsBytes, IsWord}
use stm32_automation_board.Event.{Event, tx_event, event_note_tx, event_note_success, event_process}
use stm32_automation_board.Event.Log
use stm32_automation_board.Event.Log.{event_push-IsValid, event_note_success-IsValid}
use stm32_automation_board.Event.Fetch.{event_process-IsBytes}
use stm32_automation_board.Diag.{Diag, diag_process, counter_read, note_result}
use stm32_automation_board.Diag.Counters
use stm32_automation_board.Diag.Counters.{diag_process-IsValid, note_result-IsValid}
use stm32_automation_board.Server.{Server, Hooks}
use stm32_automation_board.Server.Valid
use stm32_automation_board.Fc.Info.{report_server_id}
use stm32_automation_board.Fc.Info.Identity.{report_server_id-IsAnswer}
use stm32_automation_board.Pdu.{Answer, pdu_process}
use stm32_automation_board.Pdu.Valid.{IsServed, pdu_process-IsServed}
use stm32_automation_board.Rtu.{with_diag, rtu_dispatch, bookkeeping, exception_raised}

pub with_diag-IsValid :
    (s : Server) (d : Diag) → Valid.IsValid s → Counters.IsValid d → Valid.IsValid (with_diag s d)
with_diag-IsValid s d v h = record {
  id = v.id;
  holding = v.holding;
  input = v.input;
  coils = v.coils;
  discrete = v.discrete;
  files = v.files;
  queues = v.queues;
  depths = v.depths;
  diag = h;
}

with_event-IsValid :
    (d : Diag) (e : Event)
    → Counters.IsValid d
    → Log.IsValid e
    → Counters.IsValid (record d { event = e })
with_event-IsValid d e v h = record {
  bus = v.bus;
  comm = v.comm;
  exceptions = v.exceptions;
  slave = v.slave;
  silent = v.silent;
  overrun = v.overrun;
  register = v.register;
  event = h;
}

event_note_tx-IsValid : (code : ℕ) (e : Event) → Log.IsValid e → Log.IsValid (event_note_tx code e)
unfolding event_note_tx
event_note_tx-IsValid code e v = event_push-IsValid (tx_event code) e tx_event-IsByte v
  where
    tx_event-IsByte : IsByte (tx_event code)
    tx_event-IsByte = unfold tx_event in ground arith

-- What the bookkeeping and the frame need of an answer.
pub record IsSendable (a : Answer) : Type 0 where
  pub valid : Valid.IsValid a.server
  pub bytes : IsBytes a.built
  pub in_buffer : a.tx_pdu_len ≤ length a.built
  pub fits : a.tx_pdu_len ≤ 253

pub bookkeeping-IsValid :
    (rx_pdu : List ℕ) (is_broadcast : Bool) (a : Answer)
    → IsSendable a
    → Counters.IsValid (bookkeeping rx_pdu is_broadcast a)
unfolding bookkeeping
bookkeeping-IsValid rx_pdu is_broadcast a g =
    let responded = ltb 0 a.tx_pdu_len in
    let raised = exception_raised a.built in
    let d = note_result responded (responded && raised) a.server.diag in
    let dv = note_result-IsValid responded (responded && raised) a.server.diag g.valid.diag in
    let code = if raised then get_or a.built 1 0 else 0 in
    let e1 = event_note_tx code d.event in
    let e1v = event_note_tx-IsValid code d.event dv.event in
    ground (
      arith,
      dv,
      with_event-IsValid d e1 dv e1v,
      with_event-IsValid d (event_note_success d.event) dv
          (event_note_success-IsValid d.event dv.event),
      with_event-IsValid d (event_note_success e1) dv (event_note_success-IsValid e1 e1v),
    )

sent-IsSendable :
    (s : Server) (built : List ℕ)
    → Valid.IsValid s
    → IsBytes built
    → length built ≤ 253
    → IsSendable (record { server = s; built = built; tx_pdu_len = length built })
sent-IsSendable s built v b h = record { valid = v; bytes = b; in_buffer = omega arith; fits = h }

slave_count-IsWord : (d : Diag) → Counters.IsValid d → IsWord (counter_read 0x0e d)
unfolding counter_read
slave_count-IsWord d v = v.slave

-- An answer is given, and one that fits.
abbrev IsGiven : Option Answer → Type 0
IsGiven none = ⊥
IsGiven (some a) = IsSendable a

given : (o : Option Answer) → IsGiven o → (a : Answer) × (o ≡ some a) × IsSendable a
given none h = absurd h
given (some a) h = (a, refl, h)

pdu-IsGiven :
    (hooks : Hooks) (s : Server) (rx_pdu : List ℕ) (bc : Bool)
    → ((a : Answer) × (pdu_process hooks s rx_pdu bc ≡ some a) × IsServed bc a)
    → IsGiven (pdu_process hooks s rx_pdu bc)
pdu-IsGiven hooks s rx_pdu bc (a, e, g) =
    rw e (record { valid = g.valid; bytes = g.bytes; in_buffer = g.in_buffer; fits = g.fits })

module _ (hooks : Hooks) (s : Server) (rx_pdu : List ℕ) (bc : Bool) (safe : Valid.IsSafe hooks)
    (v : Valid.IsValid s) (b : IsBytes rx_pdu) (one : 1 ≤ length rx_pdu)
    (big : length rx_pdu ≤ 253) where
  dispatch-IsGiven : IsGiven (rtu_dispatch hooks s rx_pdu bc)
  unfolding rtu_dispatch
  dispatch-IsGiven =
      let (d, built) = diag_process s.diag rx_pdu bc in
      let (dv, db, dn) = diag_process-IsValid s.diag rx_pdu bc b v.diag in
      let m = counter_read 0x0e s.diag in
      let (eb, en) = event_process-IsBytes m s.diag.event rx_pdu bc b v.diag.event in
      let id = report_server_id-IsAnswer rx_pdu in
      ground (
        arith,
        sent-IsSendable (with_diag s d) built (with_diag-IsValid s d v dv) db (omega (arith, dn)),
        sent-IsSendable s [] v tt (omega arith),
        sent-IsSendable s (event_process m s.diag.event rx_pdu bc) v eb (omega (arith, en)),
        sent-IsSendable s (report_server_id rx_pdu) v id.bytes id.fits,
        pdu-IsGiven hooks s rx_pdu bc (pdu_process-IsServed hooks s rx_pdu bc safe v b one big),
      )

  -- The dispatcher always gives an answer, and one that fits.
  pub rtu_dispatch-IsSendable :
      (a : Answer) × (rtu_dispatch hooks s rx_pdu bc ≡ some a) × IsSendable a
  rtu_dispatch-IsSendable = given (rtu_dispatch hooks s rx_pdu bc) dispatch-IsGiven
