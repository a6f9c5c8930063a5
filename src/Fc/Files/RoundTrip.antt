-- ===== src/Fc/Files/RoundTrip.antt =====
-- A record written by 0x15 is what 0x14 reads.
use stm32_automation_board.Common.{
  some, ℕ, zero, suc, ◌+◌, ◌-◌, ◌*◌, ◌≤◌, ◌<◌, List, [], ◌∷◌, if◌then◌else◌, ltb, leb, ◌&&◌, ◌≡◌,
  refl, ◌∙◌, arith, length, get_or, set, length-set, get_or-set_self, get_or-set_ne, All-get_in,
  append-nil, ap, get_or_two,
}
use stm32_automation_board.Common.Loops.{for_range_inv}
use stm32_automation_board.Common.Word.{u8, u16, be16, be16-hi8-lo8, IsBytes, IsWord}
use stm32_automation_board.Server.{Server, file_size_regs}
use stm32_automation_board.Server.Valid.{IsWordArray, IsFiles}
use stm32_automation_board.Server.Valid
use stm32_automation_board.Fc.Good.{IsWord-at}
use stm32_automation_board.Fc.Reads.{read_regs}
use stm32_automation_board.Fc.Reads.Regs.{get_or-read_regs}
use stm32_automation_board.Fc.Files.{
  SubRequest, sub_request, sub_request_error, sub_response, write_record, store_record,
  write_records, write_file_record, write_answer, finished,
}
use stm32_automation_board.Fc.Files.{read_file_record}
use stm32_automation_board.Fc.Files.Read.{sub_responses, read_file_record_lem, length-sub_response}
use stm32_automation_board.Fc.Files.Write.{IsRecord, sub_request-IsRecord}

-- The `j`-th register of the record that stands at `pos` of a request.
abbrev pub record_reg : List ℕ → ℕ → ℕ → ℕ
record_reg rx_pdu pos j =
    be16 (get_or rx_pdu (pos + 7 + j * 2) 0) (get_or rx_pdu (pos + 7 + j * 2 + 1) 0)

-- The registers `start` to `start + n - 1` of the file hold the record, the others what they held.
pub record IsRecordStored (rx_pdu : List ℕ) (pos start n : ℕ) (old new : List ℕ) : Type 0 where
  pub size : length new ≡ length old
  pub reg_at :
      (b : ℕ)
      → get_or new b 0 ≡ (
          if leb start b && ltb b (start + n)
          then record_reg rx_pdu pos (b - start)
          else get_or old b 0)

module _ (rx_pdu : List ℕ) (pos start : ℕ) (old : List ℕ) where
  record_round :
      (k : ℕ) (file : List ℕ)
      → start + k < length old
      → IsRecordStored rx_pdu pos start k old file
      → IsRecordStored rx_pdu pos start (k + 1) old (set file (start + k) (record_reg rx_pdu pos k))
  record_round k file lt w = record {
    size = length-set file (start + k) _ ∙ w.size;
    reg_at = λ b.
        let shift : start + k - start ≡ k = omega arith in
        ground (
          arith,
          shift,
          get_or-set_self file (start + k) (record_reg rx_pdu pos k) 0 (omega (arith, w.size)),
          get_or-set_ne file (start + k) b (record_reg rx_pdu pos k) 0,
          w.reg_at b,
        );
  }

  write_record_lem :
      (n : ℕ)
      → start + n ≤ length old
      → IsRecordStored rx_pdu pos start n old (write_record rx_pdu (pos + 7) start n 0 old)
  unfolding write_record
  write_record_lem n fits =
      for_range_inv (λ k file. IsRecordStored rx_pdu pos start k old file) _ n
        (λ k file lt w. record_round k file (omega arith) w) n 0 old (omega arith)
        (record { size = refl; reg_at = λ b. ground arith })

-- A request to write one record that fits its file.
pub record WritesRecord (rx_pdu : List ℕ) (q : SubRequest) : Type 0 where
  pub bytes : IsBytes rx_pdu
  pub accepted : sub_request_error q ≡ 0
  pub size : length rx_pdu ≡ 9 + q.record_length * 2
  pub count : get_or rx_pdu 1 0 ≡ 7 + q.record_length * 2
  pub at_most : q.record_length ≤ 122

loop_ends :
    (fuel : ℕ) (rx_pdu : List ℕ) (limit pos : ℕ) (files : List (List ℕ))
    → 1 ≤ fuel
    → limit ≤ pos
    → write_records fuel rx_pdu limit pos files ≡ (files, some (finished tt))
unfolding write_records
loop_ends zero rx_pdu limit pos files one h = absurd (omega arith)
loop_ends (suc fuel) rx_pdu limit pos files one h = ground arith

loop_once :
    (fuel : ℕ) (rx_pdu : List ℕ) (files : List (List ℕ))
    → let q = sub_request rx_pdu 2 in
      2 ≤ fuel
      → sub_request_error q ≡ 0
      → write_records fuel rx_pdu (9 + q.record_length * 2) 2 files
        ≡ (store_record files rx_pdu 2 q, some (finished tt))
unfolding write_records
loop_once zero rx_pdu files two h = absurd (omega arith)
loop_once (suc fuel) rx_pdu files two h =
    let q = sub_request rx_pdu 2 in
    let r = (sub_request-IsRecord q h).in_file in
    let next : u16 (2 + 7 + u16 (q.record_length * 2)) ≡ 9 + q.record_length * 2 =
      omega (arith, r) in
    rw next (
      ground (
        arith,
        loop_ends fuel rx_pdu (9 + q.record_length * 2) (9 + q.record_length * 2)
            (store_record files rx_pdu 2 q) (omega arith) (omega arith),
      ))

write_one_record :
    (s : Server) (fc : ℕ) (rx_pdu : List ℕ)
    → let q = sub_request rx_pdu 2 in
      WritesRecord rx_pdu q
      → write_file_record s fc rx_pdu
        ≡ (record s { file_store = store_record s.file_store rx_pdu 2 q }, rx_pdu)
unfolding write_file_record write_answer
write_one_record s fc rx_pdu w =
    let q = sub_request rx_pdu 2 in
    let r = sub_request-IsRecord q w.accepted in
    let limit : u16 (2 + get_or rx_pdu 1 0) ≡ 9 + q.record_length * 2 =
      omega (arith, w.count, r.in_file) in
    rw (limit, loop_once (length rx_pdu) rx_pdu s.file_store (omega (arith, w.size)) w.accepted)
      (ground (arith, w.size, w.count, w.at_most, r.some_reg))

-- The file that a record names, before and after it is stored.
stored_file :
    (s : Server) (rx_pdu : List ℕ)
    → Valid.IsValid s
    → let q = sub_request rx_pdu 2 in
      let i = u8 (q.file_number - 1) in
      IsRecord q
      → IsRecordStored rx_pdu 2 q.record_number q.record_length
          (get_or s.file_store i [])
          (get_or (store_record s.file_store rx_pdu 2 q) i [])
unfolding store_record
stored_file s rx_pdu v r =
    let q = sub_request rx_pdu 2 in
    let i = u8 (q.file_number - 1) in
    let old = get_or s.file_store i [] in
    let there : i < length s.file_store = omega (arith, v.files.0, r.first_file, r.last_file) in
    let known = All-get_in (IsWordArray file_size_regs) s.file_store i [] v.files.1 there in
    rw
      (get_or-set_self s.file_store i
        (write_record rx_pdu (2 + 7) q.record_number q.record_length 0 old) [] there)
      (write_record_lem rx_pdu 2 q.record_number old q.record_length
        (omega (arith, known.0, r.in_file)))

-- What a read of one record answers, register by register.
response_reg :
    (files : List (List ℕ)) (q : SubRequest) (fc len k : ℕ)
    → k < q.record_length
    → IsWord (get_or (get_or files (u8 (q.file_number - 1)) []) (q.record_number + k) 0)
    → let answer = fc ∷ len ∷ sub_response files q in
      be16 (get_or answer (4 + k * 2) 0) (get_or answer (4 + k * 2 + 1) 0)
      ≡ get_or (get_or files (u8 (q.file_number - 1)) []) (q.record_number + k) 0
unfolding sub_response
response_reg files q fc len k h w =
    let regs = get_or files (u8 (q.file_number - 1)) [] in
    let even : 4 + k * 2 ≡ 2 + (2 + k * 2) = omega arith in
    let odd : 4 + k * 2 + 1 ≡ 2 + (2 + (k * 2 + 1)) = omega arith in
    let rest = read_regs regs q.record_length q.record_number in
    let size = u8 (1 + q.record_length * 2) in
    let (hi, lo) = get_or-read_regs regs q.record_length q.record_number k h in
    rw
      (
        odd,
        even,
        get_or_two fc len (size ∷ 6 ∷ rest) (2 + k * 2) 0,
        get_or_two fc len (size ∷ 6 ∷ rest) (2 + (k * 2 + 1)) 0,
        get_or_two size 6 rest (k * 2) 0,
        get_or_two size 6 rest (k * 2 + 1) 0,
        hi,
        lo,
      )
      (be16-hi8-lo8 _ w)

-- A request to read one record, the one that `q` describes.
pub record ReadsRecord (rx_pdu : List ℕ) (q : SubRequest) : Type 0 where
  pub asked : sub_request rx_pdu 2 ≡ q
  pub size : length rx_pdu ≡ 9
  pub count : get_or rx_pdu 1 0 ≡ 7

read_one_record :
    (s : Server) (fc : ℕ) (rd : List ℕ) (q : SubRequest)
    → ReadsRecord rd q
    → sub_request_error q ≡ 0
    → q.record_length ≤ 122
    → let answer = sub_response s.file_store q in
      read_file_record s fc rd ≡ (s, fc ∷ length answer ∷ answer)
read_one_record s fc rd q r ok most =
    let answer = sub_response s.file_store q in
    let one : sub_responses s.file_store rd 1 0 ≡ answer = rw r.asked (append-nil answer) in
    let small : length (sub_responses s.file_store rd 1 0) ≤ 251 =
      omega (arith, ap length one, length-sub_response s.file_store q) in
    rw (← one) (
      read_file_record_lem s fc rd 1 (omega arith) (omega arith) r.size r.count
        (ap sub_request_error r.asked ∙ ok, tt) small)

-- Write File Record, then Read File Record: a request to write one record that fits its file is
-- echoed, and a request to read the same record is then answered by exactly the registers
-- written, high byte first.
pub read_file_record-write_file_record :
    (s : Server) (write_fc read_fc : ℕ) (wr rd : List ℕ) (k : ℕ)
    → Valid.IsValid s
    → WritesRecord wr (sub_request wr 2)
    → ReadsRecord rd (sub_request wr 2)
    → k < (sub_request wr 2).record_length
    → let (s', echo) = write_file_record s write_fc wr in
      let answer = (read_file_record s' read_fc rd).1 in
      (echo ≡ wr)
      × (be16 (get_or answer (4 + k * 2) 0) (get_or answer (4 + k * 2 + 1) 0) ≡ record_reg wr 2 k)
read_file_record-write_file_record s write_fc read_fc wr rd k v w r h =
    let q = sub_request wr 2 in
    let inside = sub_request-IsRecord q w.accepted in
    let files = store_record s.file_store wr 2 q in
    let s' = record s { file_store = files } in
    let shift : q.record_number + k - q.record_number ≡ k = omega arith in
    let stored : get_or (get_or files (u8 (q.file_number - 1)) []) (q.record_number + k) 0
        ≡ record_reg wr 2 k =
      ground (arith, (stored_file s wr v inside).reg_at (q.record_number + k), shift) in
    rw (write_one_record s write_fc wr w, read_one_record s' read_fc rd q r w.accepted w.at_most)
      (refl, response_reg files q read_fc _ k h (rw stored (IsWord-at wr _ _ w.bytes)) ∙ stored)
