-- ===== src/Fc/Files/Read.antt =====
-- The function code 0x14: the sub-responses that an answer carries.
use stm32_automation_board.Common.{
  ℕ, zero, suc, ◌+◌, ◌-◌, ◌*◌, ◌/◌, ◌≤◌, List, [], ◌∷◌, ◌++◌, ◌≡◌, arith, length, get_or,
  length-append, All-append, append-nil, append_assoc, sym, ap,
}
use stm32_automation_board.Common.Word.{u8, u16, IsByte, IsBytes}
use stm32_automation_board.Server.{Server}
use stm32_automation_board.Server.Valid
use stm32_automation_board.Fc.{Step, exception_response}
use stm32_automation_board.Fc.Good.{IsGood, exception-IsAnswer}
use stm32_automation_board.Fc.Reads.Regs.{length-read_regs, read_regs-IsBytes}
use stm32_automation_board.Fc.Files.{
  Outcome, refused, finished, SubRequest, sub_request, sub_request_error, sub_response,
  read_records, read_file_record,
}

pub length-sub_response :
    (files : List (List ℕ)) (q : SubRequest)
    → length (sub_response files q) ≡ 2 + q.record_length * 2
unfolding sub_response
length-sub_response files q = omega (
  arith,
  length-read_regs (get_or files (u8 (q.file_number - 1)) []) q.record_length q.record_number,
)

sub_response-IsBytes : (files : List (List ℕ)) (q : SubRequest) → IsBytes (sub_response files q)
unfolding sub_response
sub_response-IsBytes files q = (
  omega arith,
  (
    omega arith,
    read_regs-IsBytes (get_or files (u8 (q.file_number - 1)) []) q.record_length q.record_number,
  ),
)

-- What the loop gathers fits the PDU, and its exceptions are bytes.
abbrev IsGathered : Outcome (List ℕ) → Type 0
IsGathered (refused code) = IsByte code
IsGathered (finished g) = (2 + length g ≤ 253) × IsBytes g

sub_request_error-IsByte : (q : SubRequest) → IsByte (sub_request_error q)
unfolding sub_request_error
sub_request_error-IsByte q = ground arith

read_records-IsGathered :
    (files : List (List ℕ)) (rx_pdu : List ℕ) (n i : ℕ) (gathered : List ℕ)
    → 2 + length gathered ≤ 253
    → IsBytes gathered
    → IsGathered (read_records files rx_pdu n i gathered)
unfolding read_records
read_records-IsGathered files rx_pdu zero i gathered fits b = (fits, b)
read_records-IsGathered files rx_pdu (suc n) i gathered fits b =
    let q = sub_request rx_pdu (u16 (2 + i * 7)) in
    let more = gathered ++ sub_response files q in
    let size = length-append gathered (sub_response files q) in
    let ih = read_records-IsGathered files rx_pdu n (i + 1) more in
    let bs = All-append IsByte gathered (sub_response files q) b (sub_response-IsBytes files q) in
    ground (arith, size, length-sub_response files q, sub_request_error-IsByte q, bs, ih)

answered :
    (s : Server) (fc : ℕ) (outcome : Outcome (List ℕ))
    → Valid.IsValid s
    → IsByte fc
    → IsGathered outcome
    → IsGood (elim outcome as (λ _. Step) [
      | refused code ↦ (s, exception_response fc code)
      | finished gathered ↦ (s, fc ∷ u8 (length gathered) ∷ gathered)
    ])
answered s fc (refused code) v h g = record { valid = v; answer = exception-IsAnswer fc code h g }
answered s fc (finished gathered) v h (fits, b) = record {
  valid = v;
  answer = record { bytes = (h, (omega arith, b)); some_byte = omega arith; fits = omega arith };
}

pub read_file_record-IsGood :
    (s : Server) (fc : ℕ) (rx_pdu : List ℕ)
    → Valid.IsValid s
    → IsByte fc
    → IsGood (read_file_record s fc rx_pdu)
unfolding read_file_record
read_file_record-IsGood s fc rx_pdu v h =
    let n = u8 (get_or rx_pdu 1 0 / 7) in
    let outcome = read_records s.file_store rx_pdu n 0 [] in
    let g = read_records-IsGathered s.file_store rx_pdu n 0 [] (omega arith) tt in
    ground (arith, exception-IsAnswer fc 3 h (omega arith), answered s fc outcome v h g, v)

-- The sub-responses to `n` sub-requests from number `i` on, in the order of the request.
abbrev pub sub_responses : List (List ℕ) → List ℕ → ℕ → ℕ → List ℕ
sub_responses files rx_pdu zero i = []
sub_responses files rx_pdu (suc n) i =
    sub_response files (sub_request rx_pdu (2 + i * 7)) ++ sub_responses files rx_pdu n (i + 1)

-- The sub-requests from number `i` on pass the checks.
abbrev pub AllAccepted : List ℕ → ℕ → ℕ → Type 0
AllAccepted rx_pdu zero i = Unit
AllAccepted rx_pdu (suc n) i =
    (sub_request_error (sub_request rx_pdu (2 + i * 7)) ≡ 0) × AllAccepted rx_pdu n (i + 1)

read_records_lem :
    (files : List (List ℕ)) (rx_pdu : List ℕ) (n i : ℕ) (gathered : List ℕ)
    → i + n ≤ 35
    → AllAccepted rx_pdu n i
    → 2 + length gathered + length (sub_responses files rx_pdu n i) ≤ 253
    → read_records files rx_pdu n i gathered ≡ finished (gathered ++ sub_responses files rx_pdu n i)
unfolding read_records
read_records_lem files rx_pdu zero i gathered small a fits = ap finished (sym (append-nil gathered))
read_records_lem files rx_pdu (suc n) i gathered small a fits =
    let at : u16 (2 + i * 7) ≡ 2 + i * 7 = omega arith in
    let q = sub_request rx_pdu (2 + i * 7) in
    let one = sub_response files q in
    let rest = sub_responses files rx_pdu n (i + 1) in
    let ih =
      read_records_lem files rx_pdu n (i + 1) (gathered ++ one) (omega arith) a.1
        (omega (arith, length-append gathered one, length-append one rest)) in
    rw at (
      ground (
        arith,
        a.0,
        ih,
        append_assoc gathered one rest,
        length-append one rest,
        length-sub_response files q,
      ))

-- Read File Record: a request for `n` records, each of which passes the checks, whose
-- sub-responses fit a PDU together, is answered by all of them in the order of the request, and
-- changes nothing.
pub read_file_record_lem :
    (s : Server) (fc : ℕ) (rx_pdu : List ℕ) (n : ℕ)
    → 1 ≤ n
    → n ≤ 35
    → length rx_pdu ≡ 2 + n * 7
    → get_or rx_pdu 1 0 ≡ n * 7
    → AllAccepted rx_pdu n 0
    → length (sub_responses s.file_store rx_pdu n 0) ≤ 251
    → let answers = sub_responses s.file_store rx_pdu n 0 in
      read_file_record s fc rx_pdu ≡ (s, fc ∷ length answers ∷ answers)
unfolding read_file_record
read_file_record_lem s fc rx_pdu n one many size count a fits =
    let number : u8 (get_or rx_pdu 1 0 / 7) ≡ n = omega arith in
    let all = read_records_lem s.file_store rx_pdu n 0 [] (omega arith) a (omega arith) in
    let byte : u8 (length (sub_responses s.file_store rx_pdu n 0))
        ≡ length (sub_responses s.file_store rx_pdu n 0) =
      omega arith in
    rw (number, all) (ground (arith, byte))
