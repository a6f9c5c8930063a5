-- ===== src/Fc/Files/Write.antt =====
-- The function code 0x15: its loop ends within its fuel, and what it stores.
use stm32_automation_board.Common.{
  ℕ, zero, suc, ◌+◌, ◌-◌, ◌*◌, ◌≤◌, ◌<◌, List, [], ◌≡◌, ◌≢◌, refl, ◌∙◌, arith, length, get_or,
  Option, none, some, length-set, All-set, All-get_in,
}
use stm32_automation_board.Common.Loops.{for_range_inv}
use stm32_automation_board.Common.Word.{u8, u16, IsByte, IsBytes, IsWord}
use stm32_automation_board.Server.{Server, file_count, file_size_regs}
use stm32_automation_board.Server.Valid.{IsWordArray, IsFiles, with_files-IsValid}
use stm32_automation_board.Server.Valid
use stm32_automation_board.Fc.Good.{IsAnswer, IsGood, exception-IsAnswer, IsWord-at}
use stm32_automation_board.Fc.Files.{
  Outcome, refused, finished, SubRequest, sub_request, sub_request_error, file_index_valid,
  file_range_valid, write_record, store_record, write_records, write_answer, write_file_record,
}

-- Where the shared checks pass, the file exists and the record lies in it.
pub record IsRecord (q : SubRequest) : Type 0 where
  pub first_file : 1 ≤ q.file_number
  pub last_file : q.file_number ≤ file_count
  pub some_reg : 1 ≤ q.record_length
  pub in_file : q.record_number + q.record_length ≤ file_size_regs

pub sub_request-IsRecord : (q : SubRequest) → sub_request_error q ≡ 0 → IsRecord q
unfolding sub_request_error file_index_valid file_range_valid
sub_request-IsRecord q h = record {
  first_file = ground arith;
  last_file = ground arith;
  some_reg = ground arith;
  in_file = ground arith;
}

-- The loop ends within its fuel: each round that goes on moves `pos` forward, and never beyond
-- `limit`.
pub write_records_total :
    (fuel : ℕ) (rx_pdu : List ℕ) (limit pos : ℕ) (files : List (List ℕ))
    → limit ≤ 65000
    → limit - pos < fuel
    → (write_records fuel rx_pdu limit pos files).1 ≢ none
unfolding write_records
write_records_total zero rx_pdu limit pos files small h = absurd (omega arith)
write_records_total (suc fuel) rx_pdu limit pos files small h =
    let q = sub_request rx_pdu pos in
    let next = u16 (pos + 7 + u16 (q.record_length * 2)) in
    let moves : sub_request_error q ≡ 0 → pos < limit → pos < next =
      λ ok inside. omega (arith, (sub_request-IsRecord q ok).in_file) in
    ground (
      arith,
      moves,
      write_records_total fuel rx_pdu limit next (store_record files rx_pdu pos q) small,
    )

-- Storing the registers of a record keeps the files' sizes, and their entries words.
write_record-IsWordArray :
    (rx_pdu : List ℕ) (off record_number n : ℕ) (file : List ℕ)
    → IsBytes rx_pdu
    → IsWordArray file_size_regs file
    → IsWordArray file_size_regs (write_record rx_pdu off record_number n 0 file)
unfolding write_record
write_record-IsWordArray rx_pdu off record_number n file b v =
    for_range_inv (λ r file. IsWordArray file_size_regs file) _ n
      (λ r file lt w. (
        length-set file (record_number + r) _ ∙ w.0,
        All-set IsWord file (record_number + r) _ w.1
            (IsWord-at rx_pdu (off + r * 2) (off + r * 2 + 1) b),
      ))
      n 0 file (omega arith) v

store_record-IsFiles :
    (files : List (List ℕ)) (rx_pdu : List ℕ) (pos : ℕ) (q : SubRequest)
    → IsBytes rx_pdu
    → IsRecord q
    → IsFiles files
    → IsFiles (store_record files rx_pdu pos q)
unfolding store_record
store_record-IsFiles files rx_pdu pos q b r v =
    let i = u8 (q.file_number - 1) in
    let f = get_or files i [] in
    let known =
      All-get_in (IsWordArray file_size_regs) files i [] v.1
        (omega (arith, v.0, r.first_file, r.last_file)) in
    (
      length-set files i _ ∙ v.0,
      All-set (IsWordArray file_size_regs) files i _ v.1
          (write_record-IsWordArray rx_pdu (pos + 7) q.record_number q.record_length f b known),
    )

pub write_records-IsFiles :
    (fuel : ℕ) (rx_pdu : List ℕ) (limit pos : ℕ) (files : List (List ℕ))
    → IsBytes rx_pdu
    → IsFiles files
    → IsFiles (write_records fuel rx_pdu limit pos files).0
unfolding write_records
write_records-IsFiles zero rx_pdu limit pos files b v = v
write_records-IsFiles (suc fuel) rx_pdu limit pos files b v =
    let q = sub_request rx_pdu pos in
    let next = u16 (pos + 7 + u16 (q.record_length * 2)) in
    ground (
      arith,
      sub_request-IsRecord q,
      store_record-IsFiles files rx_pdu pos q b,
      write_records-IsFiles fuel rx_pdu limit next (store_record files rx_pdu pos q) b,
      v,
    )

write_answer-IsAnswer :
    (fc : ℕ) (rx_pdu : List ℕ) (outcome : Option (Outcome (Unit {0})))
    → IsByte fc
    → IsBytes rx_pdu
    → 1 ≤ length rx_pdu
    → length rx_pdu ≤ 253
    → outcome ≢ none
    → ((code : ℕ) → outcome ≡ some (refused code) → IsByte code)
    → IsAnswer (write_answer fc rx_pdu outcome)
unfolding write_answer
write_answer-IsAnswer fc rx_pdu none h b small big total code = absurd (total refl)
write_answer-IsAnswer fc rx_pdu (some (refused c)) h b small big total code =
    exception-IsAnswer fc c h (code c refl)
write_answer-IsAnswer fc rx_pdu (some (finished _)) h b small big total code = record {
  bytes = b;
  some_byte = small;
  fits = big;
}

write_records_code :
    (fuel : ℕ) (rx_pdu : List ℕ) (limit pos : ℕ) (files : List (List ℕ)) (code : ℕ)
    → (write_records fuel rx_pdu limit pos files).1 ≡ some (refused code)
    → IsByte code
unfolding write_records sub_request_error
write_records_code zero rx_pdu limit pos files code e = ground arith
write_records_code (suc fuel) rx_pdu limit pos files code e =
    let q = sub_request rx_pdu pos in
    let next = u16 (pos + 7 + u16 (q.record_length * 2)) in
    ground
      (arith, write_records_code fuel rx_pdu limit next (store_record files rx_pdu pos q) code, e)

pub write_file_record-IsGood :
    (s : Server) (fc : ℕ) (rx_pdu : List ℕ)
    → Valid.IsValid s
    → IsByte fc
    → IsBytes rx_pdu
    → length rx_pdu ≤ 253
    → IsGood (write_file_record s fc rx_pdu)
unfolding write_file_record
write_file_record-IsGood s fc rx_pdu v h b big =
    let bc = get_or rx_pdu 1 0 in
    let n = length rx_pdu in
    let limit = u16 (2 + bc) in
    let (files, outcome) = write_records n rx_pdu limit 2 s.file_store in
    let stored =
      with_files-IsValid s files v
        (write_records-IsFiles n rx_pdu limit 2 s.file_store b v.files) in
    let answer : n ≡ limit → 2 ≤ n → IsAnswer (write_answer fc rx_pdu outcome) = λ e two.
      write_answer-IsAnswer fc rx_pdu outcome h b (omega arith) big
        (write_records_total n rx_pdu limit 2 s.file_store (omega arith) (omega arith))
        (λ code. write_records_code n rx_pdu limit 2 s.file_store code) in
    ground (arith, exception-IsAnswer fc 3 h (omega arith), stored, answer, v)
