-- ===== src/Pdu.antt =====
-- src/modbus.c, `modbus_pdu_process`: the dispatcher of function codes.
pub mod Valid
pub mod Errors
use stm32_automation_board.Common.{
  ℕ, List, [], ◌∷◌, Bool, true, false, if◌then◌else◌, ◌==◌, ltb, ◌&&◌, ◌||◌, not, length, get_or,
  Option, none, some,
}
use stm32_automation_board.Server.{Server, Hooks}
use stm32_automation_board.Fc.{Step, exception_response, broadcast_function_supported}
use stm32_automation_board.Fc.Reads.{read_bits, read_registers, read_exception_status}
use stm32_automation_board.Fc.Writes.{
  write_single_coil, write_single_register, write_multiple_coils, write_multiple_registers,
  mask_write_register, read_write_registers,
}
use stm32_automation_board.Fc.Files.{read_file_record, write_file_record}
use stm32_automation_board.Fc.Info.{read_fifo_queue, read_device_id}

-- `switch (func_code)`
unfoldable pub pdu_switch : Hooks → Server → ℕ → List ℕ → Step
unfolding exception_response
pdu_switch hooks s fc rx_pdu =
    if fc == 0x01 || fc == 0x02
    then read_bits s fc rx_pdu
    else if fc == 0x03 || fc == 0x04
    then read_registers s fc rx_pdu
    else if fc == 0x05
    then write_single_coil hooks s fc rx_pdu
    else if fc == 0x06
    then write_single_register hooks s fc rx_pdu
    else if fc == 0x0f
    then write_multiple_coils hooks s fc rx_pdu
    else if fc == 0x10
    then write_multiple_registers hooks s fc rx_pdu
    else if fc == 0x07
    then read_exception_status s fc rx_pdu
    else if fc == 0x14
    then read_file_record s fc rx_pdu
    else if fc == 0x15
    then write_file_record s fc rx_pdu
    else if fc == 0x16
    then mask_write_register hooks s fc rx_pdu
    else if fc == 0x18
    then read_fifo_queue s fc rx_pdu
    else if fc == 0x17
    then read_write_registers hooks s fc rx_pdu
    else if fc == 0x2b
    then read_device_id s fc rx_pdu
    else (s, exception_response fc 0x01)

-- What the caller of `modbus_pdu_process` sees of its buffers: `built` is what was written to
-- `tx_pdu`, also for a broadcast, and `tx_pdu_len` bytes of it are the answer.
pub record Answer : Type 0 where
  pub server : Server
  pub built : List ℕ
  pub tx_pdu_len : ℕ

-- `none` is MODBUS_ERROR, for an empty PDU; every other call returns MODBUS_OK.
unfoldable pub pdu_process : Hooks → Server → List ℕ → Bool → Option Answer
unfolding broadcast_function_supported
pdu_process hooks s rx_pdu is_broadcast =
    let fc = get_or rx_pdu 0 0 in
    let (s', built) = pdu_switch hooks s fc rx_pdu in
    if ltb (length rx_pdu) 1
    then none
    else if is_broadcast && not (broadcast_function_supported fc)
    then some (record { server = s; built = []; tx_pdu_len = 0 })
    else some (record {
      server = s';
      built = built;
      tx_pdu_len = if is_broadcast then 0 else length built;
    })
