-- ===== src/Fc/Files.antt =====
-- The function codes 0x14 and 0x15, on the virtual file store.
pub mod Write
pub mod Read
pub mod RoundTrip
use stm32_automation_board.Common.{
  ℕ, zero, suc, ◌+◌, ◌-◌, ◌*◌, ◌%◌, ◌/◌, List, [], ◌∷◌, ◌++◌, Bool, true, false, if◌then◌else◌,
  ◌==◌, ◌!=◌, ltb, leb, ◌&&◌, ◌||◌, not, length, get_or, set, Option, none, some,
}
use stm32_automation_board.Common.Loops.{for_range}
use stm32_automation_board.Common.Word.{u8, u16, be16}
use stm32_automation_board.Server.{Server, file_count, file_size_regs}
use stm32_automation_board.Fc.{Step, exception_response}
use stm32_automation_board.Fc.Reads.{read_regs}

abbrev pub file_ref_type : ℕ
file_ref_type = 0x06

unfoldable pub file_index_valid : ℕ → Bool
file_index_valid file_number = leb 1 file_number && leb file_number file_count

unfoldable pub file_range_valid : ℕ → ℕ → Bool
file_range_valid record_number record_length =
    if ltb record_length 1
    then false
    else if leb file_size_regs record_number
    then false
    else leb record_length (file_size_regs - record_number)

-- The seven bytes that a sub-request begins with.
pub record SubRequest : Type 0 where
  pub ref_type : ℕ
  pub file_number : ℕ
  pub record_number : ℕ
  pub record_length : ℕ

unfoldable pub sub_request : List ℕ → ℕ → SubRequest
sub_request rx_pdu off = record {
  ref_type = get_or rx_pdu off 0;
  file_number = be16 (get_or rx_pdu (off + 1) 0) (get_or rx_pdu (off + 2) 0);
  record_number = be16 (get_or rx_pdu (off + 3) 0) (get_or rx_pdu (off + 4) 0);
  record_length = be16 (get_or rx_pdu (off + 5) 0) (get_or rx_pdu (off + 6) 0);
}

-- The checks that 0x14 and 0x15 share: the exception code, or 0 where they pass.
unfoldable pub sub_request_error : SubRequest → ℕ
unfolding file_index_valid file_range_valid
sub_request_error q =
    if q.ref_type != file_ref_type || ltb q.record_length 1
    then 0x03
    else if ltb 0x270f q.record_number
        || not (file_index_valid q.file_number)
        || not (file_range_valid q.record_number q.record_length)
    then 0x02
    else 0

-- What a loop over sub-requests ends with: the exception code of the first one refused, or what it
-- gathered.
pub data Outcome {ℓ} (A : Type ℓ) : Type ℓ where
  refused : ℕ → Outcome A
  finished : A → Outcome A

-- One sub-response: its length, the reference type and the registers.
unfoldable pub sub_response : List (List ℕ) → SubRequest → List ℕ
sub_response files q =
    u8 (1 + q.record_length * 2)
    ∷ file_ref_type
    ∷ read_regs (get_or files (u8 (q.file_number - 1)) []) q.record_length q.record_number

-- The loop of 0x14 over `n` sub-requests from number `i` on; `gathered` is `tx_pdu[2 .. out)`.
unfoldable pub read_records : List (List ℕ) → List ℕ → ℕ → ℕ → List ℕ → Outcome (List ℕ)
unfolding sub_request sub_request_error sub_response
read_records files rx_pdu zero i gathered = finished gathered
read_records files rx_pdu (suc n) i gathered =
    let q = sub_request rx_pdu (u16 (2 + i * 7)) in
    let need = u16 (1 + 1 + q.record_length * 2) in
    let rest = read_records files rx_pdu n (i + 1) (gathered ++ sub_response files q) in
    if sub_request_error q != 0
    then refused (sub_request_error q)
    else if ltb 253 (2 + length gathered + need)
    then refused 0x03
    else rest

unfoldable pub read_file_record : Server → ℕ → List ℕ → Step
unfolding exception_response
read_file_record s fc rx_pdu =
    let bc = get_or rx_pdu 1 0 in
    if ltb (length rx_pdu) 2
    then (s, exception_response fc 0x03)
    else if ltb bc 0x07 || ltb 0xf5 bc || bc % 7 != 0 || length rx_pdu != u16 (2 + bc)
    then (s, exception_response fc 0x03)
    else elim (read_records s.file_store rx_pdu (u8 (bc / 7)) 0 []) [
      | refused code ↦ (s, exception_response fc code)
      | finished gathered ↦ (s, fc ∷ u8 (length gathered) ∷ gathered)
    ]

-- The inner loop of 0x15: the registers of one record, whose bytes begin at `off`.
unfoldable pub write_record : List ℕ → ℕ → ℕ → ℕ → ℕ → List ℕ → List ℕ
write_record rx_pdu off record_number n r file =
    for_range n r
      (λ r file.
        set file (record_number + r)
          (be16 (get_or rx_pdu (off + r * 2) 0) (get_or rx_pdu (off + r * 2 + 1) 0)))
      file

-- The files after the sub-request `q`, which stands at `pos`.
unfoldable pub store_record : List (List ℕ) → List ℕ → ℕ → SubRequest → List (List ℕ)
unfolding write_record
store_record files rx_pdu pos q =
    let file_idx = u8 (q.file_number - 1) in
    set files file_idx
      (write_record rx_pdu (pos + 7) q.record_number q.record_length 0 (get_or files file_idx []))

-- The `while` loop of 0x15 on `fuel` rounds; `limit` is `2 + req_byte_count`. The first part of the
-- result is the file store, also where a later sub-request is refused. `none` means that the fuel
-- ran out.
unfoldable pub write_records :
    ℕ → List ℕ → ℕ → ℕ → List (List ℕ) → List (List ℕ) × Option (Outcome (Unit {0}))
unfolding sub_request sub_request_error store_record
write_records zero rx_pdu limit pos files = (files, none)
write_records (suc fuel) rx_pdu limit pos files =
    let q = sub_request rx_pdu pos in
    let data_bytes = u16 (q.record_length * 2) in
    let rest =
      write_records fuel rx_pdu limit (u16 (pos + 7 + data_bytes))
        (store_record files rx_pdu pos q) in
    if leb limit pos
    then (files, some (finished tt))
    else if ltb (limit - pos) 7
    then (files, some (refused 0x03))
    else if sub_request_error q != 0
    then (files, some (refused (sub_request_error q)))
    else if ltb limit (u16 (pos + 7 + data_bytes))
    then (files, some (refused 0x03))
    else rest

-- The answer of 0x15 to what its loop ended with. The first case is not reached: see
-- `write_records` in `Fc.Files.Write`.
unfoldable pub write_answer : ℕ → List ℕ → Option (Outcome (Unit {0})) → List ℕ
unfolding exception_response
write_answer fc rx_pdu none = []
write_answer fc rx_pdu (some (refused code)) = exception_response fc code
write_answer fc rx_pdu (some (finished _)) = rx_pdu

unfoldable pub write_file_record : Server → ℕ → List ℕ → Step
unfolding exception_response write_answer
write_file_record s fc rx_pdu =
    let bc = get_or rx_pdu 1 0 in
    if ltb (length rx_pdu) 2
    then (s, exception_response fc 0x03)
    else if ltb bc 0x09 || ltb 0xfb bc || length rx_pdu != u16 (2 + bc)
    then (s, exception_response fc 0x03)
    else let (files, outcome) =
        write_records (length rx_pdu) rx_pdu (u16 (2 + bc)) 2 s.file_store in
      (record s { file_store = files }, write_answer fc rx_pdu outcome)
