-- ===== src/Master/Request.antt =====
-- An API function of the master against a station: what the station's dispatcher answers is what
-- the application gets.
use stm32_automation_board.Common.{
  ℕ, ◌≤◌, ◌<◌, bit_and, List, [], Bool, true, false, ◌==◌, ◌||◌, not, ◌≡◌, ◌≢◌, refl, ap, ◌∙◌,
  arith, length, get_or, take, take_all, Option, none, some,
}
use stm32_automation_board.Common.Word.{IsBytes}
use stm32_automation_board.Diag.{note_bus_message, note_slave_message, note_result}
use stm32_automation_board.Server.{Server, Hooks}
use stm32_automation_board.Server.Valid
use stm32_automation_board.Fc.{exception_response}
use stm32_automation_board.Pdu.Valid.{pdu_process-IsServed}
use stm32_automation_board.Pdu.{Answer, pdu_switch, pdu_process}
use stm32_automation_board.Rtu.{
  Status, status_ok, status_exception, rtu_frame_max, rtu_dispatch, with_diag, bookkeeping,
}
use stm32_automation_board.Rtu.Valid.{with_diag-IsValid, bookkeeping-IsValid}
use stm32_automation_board.Master.{check_response, Master, Wired, wired, request, transaction}
use stm32_automation_board.Master.Wire.{addressed}
use stm32_automation_board.Master.Line.{
  IsLine, addressed-IsValid, answer-IsSendable, transaction-served, check_response-normal,
  check_response-exception_response,
}

-- The function codes that the serial line does not intercept.
abbrev pub is_shared : ℕ → Bool
is_shared fc = not (fc == 0x08 || fc == 0x0b || fc == 0x0c || fc == 0x11)

pub listen_only-addressed : (s : Server) → (addressed s).diag.listen_only ≡ s.diag.listen_only
unfolding note_bus_message note_slave_message
listen_only-addressed s = ground arith

-- What the shared dispatcher makes of a request to this station.
abbrev pub answer_of : Hooks → Server → List ℕ → Answer
answer_of hooks s req =
    let (s', built) = pdu_switch hooks s (get_or req 0 0) req in
    record { server = s'; built = built; tx_pdu_len = length built }

pub dispatch_shared :
    (hooks : Hooks) (s : Server) (req : List ℕ)
    → is_shared (get_or req 0 0) ≡ true
    → s.diag.listen_only ≡ false
    → 1 ≤ length req
    → rtu_dispatch hooks s req false ≡ some (answer_of hooks s req)
unfolding rtu_dispatch pdu_process
dispatch_shared hooks s req shared talks one = ground (arith, shared, talks)

-- A unicast request is answered by at least one byte.
answer_of-some_byte :
    (hooks : Hooks) (s : Server) (req : List ℕ)
    → Valid.IsSafe hooks
    → Valid.IsValid s
    → IsBytes req
    → 1 ≤ length req
    → length req ≤ 253
    → 1 ≤ length (answer_of hooks s req).built
answer_of-some_byte hooks s req safe v b one most =
    let (a, e, g) = pdu_process-IsServed hooks s req false safe v b one most in
    let known : pdu_process hooks s req false ≡ some (answer_of hooks s req) =
      unfold pdu_process in ground arith in
    let same : a ≡ answer_of hooks s req = cc in
    let replied : 1 ≤ a.tx_pdu_len = ground (arith, g.replied) in rw same at replied

-- The bookkeeping leaves the mode of the station.
pub listen_only-bookkeeping :
    (req : List ℕ) (is_broadcast : Bool) (a : Answer)
    → (bookkeeping req is_broadcast a).listen_only ≡ a.server.diag.listen_only
unfolding bookkeeping note_result
listen_only-bookkeeping req is_broadcast a = ground arith

module _ {Bus : Type 0} (hooks : Hooks) (m : Master Bus) (w : Wired Bus) (station : Bus → Server)
    (bound : wired m.transport ≡ some w) (line : IsLine hooks w station)
    (safe : Valid.IsSafe hooks) where
  module _ (bus : Bus) (req : List ℕ) (v : Valid.IsValid (station bus))
      (unicast : (station bus).slave_id ≢ 0) (talks : (station bus).diag.listen_only ≡ false)
      (b : IsBytes req) (one : 1 ≤ length req) (most : length req ≤ 253)
      (shared : is_shared (get_or req 0 0) ≡ true)
      (same_id : (answer_of hooks (addressed (station bus)) req).server.slave_id
        ≡ (station bus).slave_id) where
    -- The transaction ends with the master's verdict on the whole answer.
    transaction_shared :
        let s = station bus in
        let a = answer_of hooks (addressed s) req in
        let r = transaction m s.slave_id req (some rtu_frame_max) m.timeout_ms bus in
        let (st, code, resp) = check_response req (some rtu_frame_max) a.built in
        (r.status ≡ st)
        × (r.exception_code ≡ code)
        × (r.resp ≡ resp)
        × (station r.bus ≡ with_diag a.server (bookkeeping req false a))
    transaction_shared =
        let s = station bus in
        let a = answer_of hooks (addressed s) req in
        let served =
          dispatch_shared hooks (addressed s) req shared (listen_only-addressed s ∙ talks) one in
        let whole : take (length a.built) a.built ≡ a.built =
          take_all (length a.built) a.built (omega arith) in
        let some_byte =
          answer_of-some_byte hooks (addressed s) req safe (addressed-IsValid s v) b one most in
        let t =
          transaction-served hooks m w station bound line safe bus req a v unicast b one most served
            some_byte same_id (some rtu_frame_max) m.timeout_ms in
        rw whole at t

    -- The station behind the exchange is in a valid state.
    pub served-IsValid :
        let a = answer_of hooks (addressed (station bus)) req in
        Valid.IsValid (with_diag a.server (bookkeeping req false a))
    served-IsValid =
        let s = station bus in
        let a = answer_of hooks (addressed s) req in
        let served =
          dispatch_shared hooks (addressed s) req shared (listen_only-addressed s ∙ talks) one in
        let g =
          answer-IsSendable hooks (addressed s) req a safe (addressed-IsValid s v) b one most
            served in
        with_diag-IsValid a.server _ g.valid (bookkeeping-IsValid req false a g)

    -- An API function whose request is answered normally gives the parsed answer.
    pub request-answered :
        {A : Type 0} (parse : List ℕ → Option A) (x : A)
        → let s = station bus in
          let a = answer_of hooks (addressed s) req in
          let r = request m s.slave_id req parse bus in
          bit_and (get_or a.built 0 0) 0x80 ≡ 0
          → get_or a.built 0 0 ≡ get_or req 0 0
          → length a.built ≤ 256
          → parse a.built ≡ some x
          → (r.status ≡ status_ok)
            × (r.value ≡ some x)
            × (r.exception_code ≡ some 0)
            × (station r.bus ≡ with_diag a.server (bookkeeping req false a))
    unfolding request
    request-answered parse x bit same fits parsed =
        let s = station bus in
        let a = answer_of hooks (addressed s) req in
        let some_byte =
          answer_of-some_byte hooks (addressed s) req safe (addressed-IsValid s v) b one most in
        let verdict = check_response-normal req a.built bit same some_byte fits in
        let r = transaction m s.slave_id req (some rtu_frame_max) m.timeout_ms bus in
        let (status, code, resp, after) = transaction_shared in
        let sent : (length req == 0) ≡ false = ground arith in
        let ok : r.status ≡ status_ok = status ∙ ap (λ (t : Status × ℕ × List ℕ). t.0) verdict in
        let none_raised : r.exception_code ≡ 0 =
          code ∙ ap (λ (t : Status × ℕ × List ℕ). t.1) verdict in
        let got : r.resp ≡ a.built = resp ∙ ap (λ (t : Status × ℕ × List ℕ). t.2) verdict in
        rw (request, sent, ok, none_raised, got, parsed) (refl, refl, refl, after)

    -- An API function whose request is answered by an exception reports it, with its code.
    pub request-refused :
        {A : Type 0} (parse : List ℕ → Option A) (code : ℕ)
        → let s = station bus in
          let a = answer_of hooks (addressed s) req in
          let r = request m s.slave_id req parse bus in
          get_or req 0 0 < 128
          → a.built ≡ exception_response (get_or req 0 0) code
          → (r.status ≡ status_exception)
            × (r.value ≡ none)
            × (r.exception_code ≡ some code)
            × (station r.bus ≡ with_diag a.server (bookkeeping req false a))
    unfolding request
    request-refused parse code small refusal =
        let s = station bus in
        let a = answer_of hooks (addressed s) req in
        let r = transaction m s.slave_id req (some rtu_frame_max) m.timeout_ms bus in
        let verdict : check_response req (some rtu_frame_max) a.built
            ≡ (status_exception, code, []) =
          rw refusal (check_response-exception_response req (some rtu_frame_max) code small) in
        let (status, raised, resp, after) = transaction_shared in
        let sent : (length req == 0) ≡ false = ground arith in
        let exc : r.status ≡ status_exception =
          status ∙ ap (λ (t : Status × ℕ × List ℕ). t.0) verdict in
        let its_code : r.exception_code ≡ code =
          raised ∙ ap (λ (t : Status × ℕ × List ℕ). t.1) verdict in
        rw (request, sent, exc, its_code) (refl, refl, refl, after)
