-- ===== src/Server.antt =====
-- src/modbus.c: the state of the Modbus server, its sync hooks and its register API.
pub mod Valid
pub mod Sync
use stm32_automation_board.Common.{
  ℕ, ◌+◌, ◌/◌, ◌^◌, bit_and, List, [], ◌∷◌, Option, none, some, if◌then◌else◌, ◌!=◌, leb, get_or,
  set, replicate,
}
use stm32_automation_board.Common.Loops.{for_range}
use stm32_automation_board.Common.Word.{u8, u16}
use stm32_automation_board.Board.{
  Board, di_count, do_count, relay_count, ai_count, ao_count, digital_inputs_read_all,
  digital_output_write, relay_set, analog_output_write_raw,
}
use stm32_automation_board.Diag.{Diag, diag_reset}
use stm32_automation_board.Event.{event_reset}
use stm32_automation_board.Store.{max_registers, max_coils, bit_read, bit_write, regs_write}

abbrev pub file_count : ℕ
file_count = 4

abbrev pub file_size_regs : ℕ
file_size_regs = 128

abbrev pub fifo_count : ℕ
fifo_count = 2

abbrev pub fifo_depth : ℕ
fifo_depth = 31

-- The statics of modbus.c, with those of the modules that it calls.
pub record Server : Type 0 where
  pub slave_id : ℕ
  pub holding_regs : List ℕ
  pub input_regs : List ℕ
  pub coil_bits : List ℕ
  pub discrete_bits : List ℕ
  pub file_store : List (List ℕ)
  pub fifo_store : List (List ℕ)
  pub fifo_len : List ℕ
  pub diag : Diag
  pub board : Board

-- `modbus_sync_hooks_t`: what the application registered. A callback may call back into this API.
pub record Hooks : Type 0 where
  pub on_registers_written : Option (Server → Server)
  pub on_inputs_refresh : Option (Server → Server)

-- `memset(&s_sync_hooks, 0, …)`
abbrev pub no_hooks : Hooks
no_hooks = record { on_registers_written = none; on_inputs_refresh = none }

-- `modbus_register_sync_hooks`: none is the null pointer. The result is `s_sync_hooks`.
unfoldable pub register_sync_hooks : Option Hooks → Hooks
register_sync_hooks none = no_hooks
register_sync_hooks (some hooks) = hooks

-- The loop that copies the debounced inputs into the discrete bits.
unfoldable pub mirror_inputs : ℕ → List ℕ → List ℕ
mirror_inputs di bits =
    for_range di_count 0 (λ i bits. bit_write bits i (bit_and (di / 2 ^ i) 1)) bits

-- The loop that copies the analog input cache, from holding register 100 on.
unfoldable pub mirror_analog : List ℕ → List ℕ → List ℕ
mirror_analog holding input =
    for_range ai_count 0 (λ i input. set input i (get_or holding (100 + i) 0)) input

unfoldable pub app_sync_inputs : Server → Server
app_sync_inputs s = record s {
  discrete_bits = mirror_inputs (digital_inputs_read_all s.board) s.discrete_bits;
  input_regs = mirror_analog s.holding_regs s.input_regs;
}

-- The two loops that drive the digital outputs and the relays from the coils.
unfoldable pub drive_outputs : List ℕ → Board → Board
drive_outputs coils b =
    for_range relay_count 0 (λ i b. relay_set i (bit_read coils (8 + i)) b)
      (for_range do_count 0 (λ i b. digital_output_write i (bit_read coils i) b) b)

unfoldable pub drive_analog : List ℕ → Board → Board
drive_analog holding b =
    for_range ao_count 0 (λ i b. analog_output_write_raw i (get_or holding i 0) b) b

unfoldable pub app_sync_registers : Server → Server
app_sync_registers s =
    let b = drive_outputs s.coil_bits s.board in
    record s {
      discrete_bits = mirror_inputs (digital_inputs_read_all b) s.discrete_bits;
      input_regs = mirror_analog s.holding_regs s.input_regs;
      board = drive_analog s.holding_regs b;
    }

unfoldable pub sync_registers : Hooks → Server → Server
sync_registers hooks s = elim hooks.on_registers_written [
  | none ↦ app_sync_registers s
  | some callback ↦ callback s
]

unfoldable pub sync_inputs : Hooks → Server → Server
sync_inputs hooks s = elim hooks.on_inputs_refresh [
  | none ↦ app_sync_inputs s
  | some callback ↦ callback s
]

-- `modbus_rtu_init`. The FIFO entries stay, since their lengths are set to 0.
unfoldable pub rtu_init : ℕ → Server → Server
rtu_init slave_id s =
    let d = diag_reset s.diag in
    record s {
      slave_id = slave_id;
      diag = record d { event = event_reset d.event };
      holding_regs = replicate max_registers 0;
      input_regs = replicate max_registers 0;
      coil_bits = replicate 16 0;
      discrete_bits = replicate 16 0;
      file_store = replicate file_count (replicate file_size_regs 0);
      fifo_len = replicate fifo_count 0;
    }

-- `modbus_fifo_push`: the new state, and the result 1 or 0.
unfoldable pub fifo_push : ℕ → ℕ → Server → Server × ℕ
fifo_push fifo_addr value s =
    let len = get_or s.fifo_len fifo_addr 0 in
    if leb fifo_count fifo_addr then (s, 0) else if leb fifo_depth len then (s, 0) else (
      record s {
        fifo_store = set s.fifo_store fifo_addr (set (get_or s.fifo_store fifo_addr []) len value);
        fifo_len = set s.fifo_len fifo_addr (u8 (len + 1));
      },
      1,
    )

unfoldable pub read_coil : ℕ → Server → ℕ
read_coil addr s = bit_read s.coil_bits addr

unfoldable pub write_coil : ℕ → ℕ → Server → Server
write_coil addr value s = record s {
  coil_bits = bit_write s.coil_bits addr (if value != 0 then 1 else 0);
}

unfoldable pub read_discrete_input : ℕ → Server → ℕ
read_discrete_input addr s = bit_read s.discrete_bits addr

unfoldable pub read_holding_register : ℕ → Server → ℕ
read_holding_register addr s = if leb max_registers addr then 0 else get_or s.holding_regs addr 0

unfoldable pub write_holding_register : ℕ → ℕ → Server → Server
write_holding_register addr value s = record s {
  holding_regs = regs_write s.holding_regs addr value;
}

unfoldable pub read_input_register : ℕ → Server → ℕ
read_input_register addr s = if leb max_registers addr then 0 else get_or s.input_regs addr 0
