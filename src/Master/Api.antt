-- ===== src/Master/Api.antt =====
-- src/modbus_master.c: the API functions of the master. Each builds a request, runs the transaction
-- and parses the response; null output pointers are left out.
use stm32_automation_board.Common.{
  ℕ, List, Bool, if◌then◌else◌, ◌==◌, ◌!=◌, ltb, ◌||◌, length, get_or, Option, none, some,
}
use stm32_automation_board.Rtu.{rtu_frame_max}
use stm32_automation_board.Master.{Master, Outcome, failed, request}
use stm32_automation_board.Master.Build.{
  build_read, build_write_single_coil, build_write_single_register, build_write_multiple_coils,
  build_write_multiple_registers, build_read_exception_status, build_get_comm_event_counter,
  build_get_comm_event_log, build_report_server_id, build_mask_write_register,
  build_read_fifo_queue, build_diagnostics, build_read_file_record, build_write_file_record,
  build_read_write_multiple_registers, build_read_device_id,
}
use stm32_automation_board.Master.Parse.{
  Done, CommLog, Devid, ServerId, parse_read_bits, parse_read_registers, parse_exception_status,
  parse_diagnostics, parse_get_comm_event_counter, parse_get_comm_event_log, parse_read_file_record,
  parse_device_id, parse_echo, parse_report_server_id, parse_read_fifo_queue,
}

-- The check of the writing functions: five bytes that begin with the function code.
abbrev pub check_written : ℕ → List ℕ → Option Done
check_written fc resp = if length resp != 5 || get_or resp 0 0 != fc then none else some tt

-- A response that nothing is read from.
abbrev pub accepted : {A : Type 0} → Option A → Option Done
accepted none = none
accepted (some a) = some tt

module _ {Bus : Type 0} (m : Master Bus) where
  unfoldable pub master_read_coils : ℕ → ℕ → ℕ → ℕ → Bus → Outcome (List ℕ) Bus
  master_read_coils slave start quantity bits_out_max =
      request m slave (build_read 0x01 start quantity 5) (parse_read_bits quantity bits_out_max)

  unfoldable pub master_read_discrete_inputs : ℕ → ℕ → ℕ → ℕ → Bus → Outcome (List ℕ) Bus
  master_read_discrete_inputs slave start quantity bits_out_max =
      request m slave (build_read 0x02 start quantity 5) (parse_read_bits quantity bits_out_max)

  unfoldable pub master_read_holding_registers : ℕ → ℕ → ℕ → Bus → Outcome (List ℕ) Bus
  master_read_holding_registers slave start quantity bus =
      if ltb quantity 1 || ltb 125 quantity
      then failed bus
      else request m slave (build_read 0x03 start quantity 5) (parse_read_registers quantity) bus

  unfoldable pub master_read_input_registers : ℕ → ℕ → ℕ → Bus → Outcome (List ℕ) Bus
  master_read_input_registers slave start quantity bus =
      if ltb quantity 1 || ltb 125 quantity
      then failed bus
      else request m slave (build_read 0x04 start quantity 5) (parse_read_registers quantity) bus

  unfoldable pub master_write_single_coil : ℕ → ℕ → ℕ → Bus → Outcome Done Bus
  master_write_single_coil slave addr on =
      request m slave (build_write_single_coil addr on 5) (check_written 0x05)

  unfoldable pub master_write_single_register : ℕ → ℕ → ℕ → Bus → Outcome Done Bus
  master_write_single_register slave addr value =
      request m slave (build_write_single_register addr value 5) (check_written 0x06)

  unfoldable pub master_write_multiple_coils : ℕ → ℕ → ℕ → List ℕ → Bus → Outcome Done Bus
  master_write_multiple_coils slave start quantity bits =
      request m slave (build_write_multiple_coils start quantity bits rtu_frame_max)
        (check_written 0x0f)

  unfoldable pub master_write_multiple_registers : ℕ → ℕ → ℕ → List ℕ → Bus → Outcome Done Bus
  master_write_multiple_registers slave start quantity regs =
      request m slave (build_write_multiple_registers start quantity regs rtu_frame_max)
        (check_written 0x10)

  unfoldable pub master_read_exception_status : ℕ → Bus → Outcome ℕ Bus
  master_read_exception_status slave =
      request m slave (build_read_exception_status 1) parse_exception_status

  unfoldable pub diag_query_data : ℕ → ℕ → Bus → Outcome ℕ Bus
  diag_query_data slave word =
      request m slave (build_diagnostics 0x0000 word 5) (parse_diagnostics 0x0000)

  -- A broadcast is acted on without a response.
  unfoldable pub diag_restart_comm : ℕ → ℕ → Bus → Outcome Done Bus
  diag_restart_comm slave clear_event_log =
      request m slave (build_diagnostics 0x0001 (if clear_event_log != 0 then 0xff00 else 0x0000) 5)
        (λ resp. if slave == 0 then some tt else accepted (parse_diagnostics 0x0001 resp))

  unfoldable pub diag_clear_counters : ℕ → Bus → Outcome Done Bus
  diag_clear_counters slave =
      request m slave (build_diagnostics 0x000a 0x0000 5)
        (λ resp. if slave == 0 then some tt else accepted (parse_diagnostics 0x000a resp))

  unfoldable pub diag_read_counter : ℕ → ℕ → Bus → Outcome ℕ Bus
  diag_read_counter slave sub_function bus =
      if ltb sub_function 0x000b || ltb 0x0012 sub_function
      then failed bus
      else request m slave (build_diagnostics sub_function 0x0000 5)
          (parse_diagnostics sub_function) bus

  unfoldable pub master_get_comm_event_counter : ℕ → Bus → Outcome (ℕ × ℕ) Bus
  master_get_comm_event_counter slave bus =
      if slave == 0
      then failed bus
      else request m slave (build_get_comm_event_counter 1) parse_get_comm_event_counter bus

  unfoldable pub master_get_comm_event_log : ℕ → Option ℕ → Bool → Bus → Outcome CommLog Bus
  master_get_comm_event_log slave events_out events_len_out bus =
      if slave == 0
      then failed bus
      else request m slave (build_get_comm_event_log 1)
          (parse_get_comm_event_log events_out events_len_out) bus

  unfoldable pub master_read_file_record : ℕ → ℕ → ℕ → ℕ → Bus → Outcome (List ℕ) Bus
  master_read_file_record slave file_number record_number record_length =
      request m slave (build_read_file_record file_number record_number record_length 16)
        (parse_read_file_record record_length)

  unfoldable pub master_write_file_record : ℕ → ℕ → ℕ → ℕ → List ℕ → Bus → Outcome Done Bus
  master_write_file_record slave file_number record_number record_length regs =
      let req =
        build_write_file_record file_number record_number record_length regs rtu_frame_max in
      request m slave req (parse_echo req)

  unfoldable pub master_read_write_multiple_registers :
      ℕ → ℕ → ℕ → ℕ → ℕ → List ℕ → Bus → Outcome (List ℕ) Bus
  master_read_write_multiple_registers slave read_start read_qty write_start write_qty regs =
      request m slave
        (build_read_write_multiple_registers read_start read_qty write_start write_qty regs
          rtu_frame_max)
        (parse_read_registers read_qty)

  unfoldable pub master_read_device_identification : ℕ → ℕ → ℕ → Bus → Outcome Devid Bus
  master_read_device_identification slave read_device_id object_id =
      request m slave (build_read_device_id read_device_id object_id 4) parse_device_id

  unfoldable pub master_report_server_id : ℕ → Option ℕ → Bool → Bus → Outcome ServerId Bus
  master_report_server_id slave id_out id_len_out bus =
      if slave == 0
      then failed bus
      else request m slave (build_report_server_id 1) (parse_report_server_id id_out id_len_out) bus

  -- A broadcast is executed without a response; otherwise the response echoes the request.
  unfoldable pub master_mask_write_register : ℕ → ℕ → ℕ → ℕ → Bus → Outcome Done Bus
  master_mask_write_register slave addr and_mask or_mask =
      let req = build_mask_write_register addr and_mask or_mask 7 in
      request m slave req (λ resp. if slave == 0 then some tt else parse_echo req resp)

  unfoldable pub master_read_fifo_queue : ℕ → ℕ → ℕ → Bus → Outcome (List ℕ) Bus
  master_read_fifo_queue slave fifo_addr regs_max bus =
      if slave == 0
      then failed bus
      else request m slave (build_read_fifo_queue fifo_addr 3) (parse_read_fifo_queue regs_max) bus
