-- ===== src/Tests/Master.antt =====
-- The Modbus master: a cable to one station, and a transport that fails.
use stm32_automation_board.Common.{
  ℕ, List, [], ◌∷◌, false, if◌then◌else◌, ◌==◌, ◌≡◌, ◌≢◌, refl, arith, length, get_or, none, some,
}
use stm32_automation_board.Common.Loops.{for_range}
use stm32_automation_board.Common.Word.{be16, hi8, lo8, are_bytes-IsBytes}
use stm32_automation_board.Crc.{
  crc16, crc_loop, low_crc_table, high_crc_table, crc_rounds, crc_shift,
}
use stm32_automation_board.Diag.{diag_reset}
use stm32_automation_board.Store.{address_range_valid}
use stm32_automation_board.Server.{Server, no_hooks, sync_registers, app_sync_registers, rtu_init}
use stm32_automation_board.Server.Valid.{no_hooks-IsSafe}
use stm32_automation_board.Fc.{start_of, quantity_of, exception_response}
use stm32_automation_board.Fc.Reads.{read_registers}
use stm32_automation_board.Fc.Info.{read_fifo_queue}
use stm32_automation_board.Fc.Info.Fifo.{queue}
use stm32_automation_board.Pdu.{pdu_switch}
use stm32_automation_board.Rtu.{
  Status, status_ok, status_exception, status_timeout, rtu_frame_max, rtu_process, rtu_frame,
  crc_ok, with_diag, bookkeeping,
}
use stm32_automation_board.Master.{
  Master, Transport, Wired, wired, request, transaction, exchange, rtu_validate_response,
  check_response,
}
use stm32_automation_board.Master.Build.{build_write_multiple_registers, master_rtu_frame}
use stm32_automation_board.Master.Parse.{parse_read_registers, parse_read_fifo_queue}
use stm32_automation_board.Master.Api.{
  master_read_holding_registers, master_write_single_coil, master_write_single_register,
  master_write_multiple_coils, master_write_multiple_registers,
}
use stm32_automation_board.Master.Wire.{addressed}
use stm32_automation_board.Master.Broadcast.{rtu_process-broadcast_write}
use stm32_automation_board.Fc.Writes.{write_regs}
use stm32_automation_board.Rtu.Reject.{IsUntouched}
use stm32_automation_board.Master.Line.{IsLine, put_on}
use stm32_automation_board.Master.Request.{answer_of, request-refused}
use stm32_automation_board.Master.ReadBack.{
  IsQuiet, master_read_holding_registers-write_multiple_registers,
}
use stm32_automation_board.Master.Answers.{parse_read_fifo_queue-read_fifo_queue}
use stm32_automation_board.Master.Outcomes.{
  IsAccepted, transaction-IsAccepted, transaction-released, master_write-broadcast,
}
use stm32_automation_board.Tests.{station, station-IsValid}

-- The station at the other end, and the bytes on their way back.
record Cable : Type 0 where
  far : Server
  pending : List ℕ

abbrev transmit : List ℕ → Cable → Status × Cable
transmit adu c =
    let r = rtu_process no_hooks c.far adu in (status_ok, record { far = r.server; pending = r.tx })

abbrev receive : ℕ → ℕ → Cable → Status × List ℕ × Cable
receive most timeout_ms c = (
  (if length c.pending == 0 then status_timeout else status_ok),
  c.pending,
  record c { pending = [] },
)

abbrev same_cable : Cable → Cable
same_cable c = c

abbrev cable_transport : Transport Cable
cable_transport = record {
  send = some transmit;
  recv = some receive;
  delay_t35 = some same_cable;
  flush_rx = some same_cable;
  end = none;
}

abbrev cable_wired : Wired Cable
cable_wired = record {
  send = transmit;
  recv = receive;
  delay_t35 = same_cable;
  flush_rx = same_cable;
  end = none;
}

abbrev cable_master : Master Cable
cable_master = record { transport = some cable_transport; timeout_ms = 500 }

abbrev cable : Cable
cable = record { far = station; pending = [] }

abbrev far_end : Cable → Server
far_end c = c.far

cable-IsLine : IsLine no_hooks cable_wired far_end
cable-IsLine = record {
  sends = λ adu bus. refl;
  reaches = λ adu bus. refl;
  answers = λ adu bus most timeout_ms. (refl, refl);
  listens = λ most timeout_ms bus. refl;
  ends = λ bus. refl;
}

no_hooks-IsQuiet : IsQuiet no_hooks
unfolding sync_registers app_sync_registers
no_hooks-IsQuiet = record { address = λ s. refl; registers = λ s. refl; mode = λ s. refl }

abbrev three_regs : List ℕ
three_regs = 0x1234 ∷ 0xffff ∷ 0x0001 ∷ []

master_read_holding_registers-write_multiple_registers_example :
    let written = master_write_multiple_registers cable_master 17 5 3 three_regs cable in
    let r = master_read_holding_registers cable_master 17 5 3 written.bus in
    (written.status ≡ status_ok) × (r.status ≡ status_ok) × (r.value ≡ some three_regs)
unfolding wired rtu_init diag_reset
master_read_holding_registers-write_multiple_registers_example =
    master_read_holding_registers-write_multiple_registers no_hooks cable_master cable_wired far_end
      refl cable-IsLine no_hooks-IsSafe cable 5 three_regs no_hooks-IsQuiet station-IsValid
      (ground arith) refl (omega arith, (omega arith, (omega arith, tt))) (omega arith)
      (omega arith) (omega arith)

rtu_process-broadcast_write_example :
    let req = build_write_multiple_registers 5 3 three_regs 256 in
    let r = rtu_process no_hooks station (master_rtu_frame 0 req rtu_frame_max) in
    let table = write_regs req 6 5 3 0 station.holding_regs in
    (r.tx ≡ [])
    × IsUntouched (sync_registers no_hooks (record (addressed station) { holding_regs = table })) r
    × (get_or table 6 0 ≡ get_or three_regs 1 0)
unfolding rtu_init diag_reset
rtu_process-broadcast_write_example =
    rtu_process-broadcast_write no_hooks station 5 3 three_regs 6 station-IsValid.holding refl
      (omega arith, (omega arith, (omega arith, tt))) (omega arith) (omega arith) (omega arith)

-- Two registers beyond the table.
abbrev beyond : List ℕ
beyond = 0x03 ∷ 0x0f ∷ 0xff ∷ 0x00 ∷ 0x02 ∷ []

request-refused_example :
    let a = answer_of no_hooks (addressed station) beyond in
    let r = request cable_master 17 beyond (parse_read_registers 2) cable in
    (r.status ≡ status_exception)
    × (r.value ≡ none)
    × (r.exception_code ≡ some 0x02)
    × (r.bus.far ≡ with_diag a.server (bookkeeping beyond false a))
unfolding wired rtu_init diag_reset pdu_switch read_registers start_of quantity_of be16
    address_range_valid exception_response
request-refused_example =
    request-refused no_hooks cable_master cable_wired far_end refl cable-IsLine no_hooks-IsSafe
      cable beyond station-IsValid (ground arith) refl (are_bytes-IsBytes beyond refl) (omega arith)
      (omega arith) refl refl (parse_read_registers 2) 0x02 (omega arith) refl

-- A transport that always receives the same frame.
abbrev canned : Transport Cable
canned = record cable_transport {
  recv = some (λ most timeout_ms c. (status_ok, rtu_frame 17 (0x07 ∷ 0x6d ∷ []), c));
}

abbrev canned_wired : Wired Cable
canned_wired = record cable_wired {
  recv = λ most timeout_ms c. (status_ok, rtu_frame 17 (0x07 ∷ 0x6d ∷ []), c);
}

abbrev canned_master : Master Cable
canned_master = record { transport = some canned; timeout_ms = 500 }

transaction-IsAccepted_example :
    let r = transaction canned_master 17 (0x07 ∷ []) (some 256) 500 cable in
    IsAccepted 17 (0x07 ∷ []) (rtu_frame 17 (0x07 ∷ 0x6d ∷ [])) r.resp
unfolding wired transaction exchange master_rtu_frame rtu_validate_response check_response crc_ok
    rtu_frame crc16 crc_loop low_crc_table high_crc_table crc_rounds crc_shift for_range be16 hi8
    lo8
transaction-IsAccepted_example =
    transaction-IsAccepted canned_master cable canned_wired refl 17 (0x07 ∷ []) 256 500
      (ground arith) refl

transaction-released_example :
    let adu = master_rtu_frame 17 (0x07 ∷ []) 256 in
    (transaction cable_master 17 (0x07 ∷ []) none 500 cable).bus
    ≡ (receive 256 500 (put_on cable_wired adu cable).1).2
unfolding wired
transaction-released_example =
    transaction-released cable_master cable cable_wired refl 17 (0x07 ∷ []) none 500 (omega arith)
      (omega arith)

master_write-broadcast_example :
    ((master_write_single_coil cable_master 0 3 1 cable).status ≢ status_ok)
    × ((master_write_single_register cable_master 0 3 1 cable).status ≢ status_ok)
    × ((master_write_multiple_coils cable_master 0 3 3 three_regs cable).status ≢ status_ok)
    × ((master_write_multiple_registers cable_master 0 3 3 three_regs cable).status ≢ status_ok)
master_write-broadcast_example = master_write-broadcast cable_master cable 3 1 3 three_regs

parse_read_fifo_queue-read_fifo_queue_example :
    parse_read_fifo_queue 31 (read_fifo_queue station 0x18 (0x18 ∷ 0x00 ∷ 0x01 ∷ [])).1
    ≡ some (queue station 1)
unfolding be16
parse_read_fifo_queue-read_fifo_queue_example =
    parse_read_fifo_queue-read_fifo_queue station (0x18 ∷ 0x00 ∷ 0x01 ∷ []) station-IsValid refl
      (omega arith)
