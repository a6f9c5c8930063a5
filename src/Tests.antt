-- ===== src/Tests.antt =====
-- A device after `modbus_rtu_init`, on which the theorems are run.
mod Serial
mod Shared
mod Writes
mod Files
mod Framing
mod Parts
mod Master
mod Canopen
mod Port
mod App
use stm32_automation_board.Common.{
  ℕ, List, [], false, arith, refl, replicate, All-replicate, length-replicate,
}
use stm32_automation_board.Common.Word.{IsWord}
use stm32_automation_board.Board.{Board}
use stm32_automation_board.Event.{power_up}
use stm32_automation_board.Event.Log.{power_up-IsValid}
use stm32_automation_board.Diag.{Diag}
use stm32_automation_board.Diag.Counters
use stm32_automation_board.Server.{Server, rtu_init}
use stm32_automation_board.Server.Valid
use stm32_automation_board.Server.Valid.{rtu_init-IsValid}

abbrev blank_diag : Diag
blank_diag = record {
  bus_message_count = 0;
  comm_error_count = 0;
  exception_error_count = 0;
  slave_message_count = 0;
  slave_no_response_count = 0;
  char_overrun_count = 0;
  diag_register = 0;
  listen_only = false;
  event = power_up;
}

abbrev pub blank_board : Board
blank_board = record {
  digital_input_states = 0x05;
  digital_output_states = 0;
  relay_states = 0;
  dac = replicate 2 0;
}

-- The statics before the first call.
abbrev blank : Server
blank = record {
  slave_id = 1;
  holding_regs = [];
  input_regs = [];
  coil_bits = [];
  discrete_bits = [];
  file_store = [];
  fifo_store = replicate 2 (replicate 31 0);
  fifo_len = [];
  diag = blank_diag;
  board = blank_board;
}

abbrev station : Server
station = rtu_init 17 blank

blank_diag-IsValid : Counters.IsValid blank_diag
blank_diag-IsValid = record {
  bus = omega arith;
  comm = omega arith;
  exceptions = omega arith;
  slave = omega arith;
  silent = omega arith;
  overrun = omega arith;
  register = omega arith;
  event = power_up-IsValid;
}

blank-IsQueues : Valid.IsQueues blank.fifo_store
blank-IsQueues = (
  refl,
  All-replicate (Valid.IsWordArray 31) 2 (replicate 31 0)
      (length-replicate {A = ℕ} 31 0, All-replicate IsWord 31 0 (omega arith)),
)

station-IsValid : Valid.IsValid station
station-IsValid = rtu_init-IsValid 17 blank (omega arith) blank-IsQueues blank_diag-IsValid
