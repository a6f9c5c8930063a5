-- ===== src/Master/Build.antt =====
-- src/modbus_master.c: the builders of request PDUs and of the RTU frame. A request is the list of
-- the bytes written; `[]` is the result 0, for a buffer of `pdu_max` bytes that is too small and for
-- an argument out of range.
use stm32_automation_board.Common.{
  ℕ, zero, suc, ◌+◌, ◌-◌, ◌*◌, ◌/◌, List, [], ◌∷◌, ◌++◌, if◌then◌else◌, ◌==◌, ◌!=◌, ltb, ◌||◌,
  length, get_or,
}
use stm32_automation_board.Common.Word.{u8, u16, hi8, lo8}
use stm32_automation_board.Crc.{crc16}
use stm32_automation_board.Rtu.{rtu_frame_max}

-- The two bytes that it writes.
unfoldable pub put_u16_be : ℕ → List ℕ
unfolding hi8 lo8
put_u16_be v = hi8 v ∷ lo8 v ∷ []

-- The loops that append `n` registers or bytes from number `i` on.
unfoldable pub put_regs : List ℕ → ℕ → ℕ → List ℕ
unfolding put_u16_be
put_regs regs zero i = []
put_regs regs (suc n) i = put_u16_be (get_or regs i 0) ++ put_regs regs n (i + 1)

unfoldable pub put_bytes : List ℕ → ℕ → ℕ → List ℕ
put_bytes bytes zero i = []
put_bytes bytes (suc n) i = get_or bytes i 0 ∷ put_bytes bytes n (i + 1)

unfoldable pub build_read : ℕ → ℕ → ℕ → ℕ → List ℕ
unfolding put_u16_be
build_read fc start quantity pdu_max =
    if ltb pdu_max 5 then [] else fc ∷ put_u16_be start ++ put_u16_be quantity

unfoldable pub build_write_single_coil : ℕ → ℕ → ℕ → List ℕ
unfolding put_u16_be
build_write_single_coil addr on pdu_max =
    if ltb pdu_max 5
    then []
    else 0x05 ∷ put_u16_be addr ++ put_u16_be (if on != 0 then 0xff00 else 0x0000)

unfoldable pub build_write_single_register : ℕ → ℕ → ℕ → List ℕ
unfolding put_u16_be
build_write_single_register addr value pdu_max =
    if ltb pdu_max 5 then [] else 0x06 ∷ put_u16_be addr ++ put_u16_be value

unfoldable pub build_write_multiple_coils : ℕ → ℕ → List ℕ → ℕ → List ℕ
unfolding put_u16_be put_bytes
build_write_multiple_coils start quantity bits pdu_max =
    let byte_count = u8 ((quantity + 7) / 8) in
    if ltb quantity 1 || ltb 1968 quantity
    then []
    else if ltb pdu_max (u16 (6 + byte_count))
    then []
    else 0x0f ∷ put_u16_be start ++ put_u16_be quantity ++ byte_count ∷ put_bytes bits byte_count 0

unfoldable pub build_write_multiple_registers : ℕ → ℕ → List ℕ → ℕ → List ℕ
unfolding put_u16_be put_regs
build_write_multiple_registers start quantity regs pdu_max =
    let byte_count = u8 (quantity * 2) in
    if ltb quantity 1 || ltb 123 quantity
    then []
    else if ltb pdu_max (u16 (6 + byte_count))
    then []
    else 0x10 ∷ put_u16_be start ++ put_u16_be quantity ++ byte_count ∷ put_regs regs quantity 0

unfoldable pub build_read_exception_status : ℕ → List ℕ
build_read_exception_status pdu_max = if ltb pdu_max 1 then [] else 0x07 ∷ []

unfoldable pub build_get_comm_event_counter : ℕ → List ℕ
build_get_comm_event_counter pdu_max = if ltb pdu_max 1 then [] else 0x0b ∷ []

unfoldable pub build_get_comm_event_log : ℕ → List ℕ
build_get_comm_event_log pdu_max = if ltb pdu_max 1 then [] else 0x0c ∷ []

unfoldable pub build_report_server_id : ℕ → List ℕ
build_report_server_id pdu_max = if ltb pdu_max 1 then [] else 0x11 ∷ []

unfoldable pub build_mask_write_register : ℕ → ℕ → ℕ → ℕ → List ℕ
unfolding put_u16_be
build_mask_write_register addr and_mask or_mask pdu_max =
    if ltb pdu_max 7
    then []
    else 0x16 ∷ put_u16_be addr ++ put_u16_be and_mask ++ put_u16_be or_mask

unfoldable pub build_read_fifo_queue : ℕ → ℕ → List ℕ
unfolding put_u16_be
build_read_fifo_queue fifo_addr pdu_max = if ltb pdu_max 3 then [] else 0x18 ∷ put_u16_be fifo_addr

unfoldable pub build_diagnostics : ℕ → ℕ → ℕ → List ℕ
unfolding put_u16_be
build_diagnostics sub_function word pdu_max =
    if ltb pdu_max 5 then [] else 0x08 ∷ put_u16_be sub_function ++ put_u16_be word

unfoldable pub build_read_file_record : ℕ → ℕ → ℕ → ℕ → List ℕ
unfolding put_u16_be
build_read_file_record file_number record_number record_length pdu_max =
    if ltb pdu_max 9 || ltb record_length 1
    then []
    else 0x14 ∷ 0x07 ∷ 0x06 ∷ put_u16_be file_number
      ++ put_u16_be record_number
      ++ put_u16_be record_length

unfoldable pub build_write_file_record : ℕ → ℕ → ℕ → List ℕ → ℕ → List ℕ
unfolding put_u16_be put_regs
build_write_file_record file_number record_number record_length regs pdu_max =
    let data_bytes = u16 (record_length * 2) in
    let req_data_len = u8 (7 + data_bytes) in
    if ltb record_length 1
    then []
    else if ltb ((0xfb - 7) / 2) record_length
    then []
    else if ltb pdu_max (u16 (2 + req_data_len)) || ltb req_data_len 0x09
    then []
    else 0x15 ∷ req_data_len ∷ 0x06 ∷ put_u16_be file_number
      ++ put_u16_be record_number
      ++ put_u16_be record_length
      ++ put_regs regs record_length 0

unfoldable pub build_read_write_multiple_registers : ℕ → ℕ → ℕ → ℕ → List ℕ → ℕ → List ℕ
unfolding put_u16_be put_regs
build_read_write_multiple_registers read_start read_qty write_start write_qty write_regs pdu_max =
    let write_bc = u8 (write_qty * 2) in
    if ltb read_qty 1 || ltb 0x7d read_qty || ltb write_qty 1 || ltb 0x79 write_qty
    then []
    else if ltb pdu_max (u16 (10 + write_bc))
    then []
    else 0x17 ∷ put_u16_be read_start
      ++ put_u16_be read_qty
      ++ put_u16_be write_start
      ++ put_u16_be write_qty
      ++ write_bc ∷ put_regs write_regs write_qty 0

unfoldable pub build_read_device_id : ℕ → ℕ → ℕ → List ℕ
build_read_device_id read_device_id object_id pdu_max =
    if ltb pdu_max 4 then [] else 0x2b ∷ 0x0e ∷ read_device_id ∷ object_id ∷ []

-- `modbus_master_rtu_frame`: address, PDU, and the CRC, low byte first.
unfoldable pub master_rtu_frame : ℕ → List ℕ → ℕ → List ℕ
unfolding hi8 lo8
master_rtu_frame slave_id pdu adu_max =
    let total = u16 (1 + length pdu + 2) in
    let body = slave_id ∷ pdu in
    if length pdu == 0 || ltb 253 (length pdu)
    then []
    else if ltb adu_max total || ltb rtu_frame_max total
    then []
    else body ++ lo8 (crc16 body) ∷ hi8 (crc16 body) ∷ []
