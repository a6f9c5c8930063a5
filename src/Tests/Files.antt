-- ===== src/Tests/Files.antt =====
-- Files and queues.
use stm32_automation_board.Common.{
  ℕ, List, [], ◌∷◌, ◌++◌, ◌≡◌, ◌≢◌, ◌==◌, if◌then◌else◌, refl, arith, length, get_or, ltb, none,
}
use stm32_automation_board.Common.Word.{be16, are_bytes-IsBytes}
use stm32_automation_board.Server.{fifo_push, fifo_depth}
use stm32_automation_board.Fc.Files.{
  sub_request, sub_request_error, write_records, write_file_record, read_file_record,
}
use stm32_automation_board.Fc.Files.Write.{write_records_total}
use stm32_automation_board.Fc.Files.RoundTrip.{record_reg, read_file_record-write_file_record}
use stm32_automation_board.Fc.Info.Fifo.{queue, queue-fifo_push}
use stm32_automation_board.Tests.{station, station-IsValid}

-- Two registers of file 4, from record 7 on.
abbrev write_file : List ℕ
write_file =
    0x15 ∷ 0x0b ∷ 0x06 ∷ 0x00 ∷ 0x04 ∷ 0x00 ∷ 0x07 ∷ 0x00 ∷ 0x02 ∷ 0x06 ∷ 0xaf ∷ 0x04 ∷ 0xbe ∷ []

abbrev read_file : List ℕ
read_file = 0x14 ∷ 0x07 ∷ 0x06 ∷ 0x00 ∷ 0x04 ∷ 0x00 ∷ 0x07 ∷ 0x00 ∷ 0x02 ∷ []

write_records_total_example : (write_records 13 write_file 13 2 station.file_store).1 ≢ none
write_records_total_example =
    write_records_total 13 write_file 13 2 station.file_store (omega arith) (omega arith)

read_file_record-write_file_record_example :
    let (s', echo) = write_file_record station 0x15 write_file in
    let answer = (read_file_record s' 0x14 read_file).1 in
    (echo ≡ write_file) × (be16 (get_or answer 6 0) (get_or answer 7 0) ≡ record_reg write_file 2 1)
unfolding be16 sub_request sub_request_error
read_file_record-write_file_record_example =
    read_file_record-write_file_record station 0x15 0x14 write_file read_file 1 station-IsValid
      (record {
        bytes = are_bytes-IsBytes write_file refl;
        accepted = refl;
        size = refl;
        count = refl;
        at_most = omega arith;
      })
      (record { asked = refl; size = refl; count = refl }) (omega arith)

queue-fifo_push_example :
    let (s', result) = fifo_push 1 0x1234 station in
    let room = ltb (length (queue station 1)) fifo_depth in
    (result ≡ (if room then 1 else 0))
    × (queue s' 1 ≡ (
        if room
        then (if 1 == 1 then queue station 1 ++ 0x1234 ∷ [] else queue station 1)
        else queue station 1))
queue-fifo_push_example = queue-fifo_push 1 0x1234 1 station station-IsValid (omega arith)
