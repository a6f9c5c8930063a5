-- ===== src/Board.antt =====
-- src/digital_io.c, src/relay.c and src/analog_io.c: the functions that src/modbus.c calls. The
-- port and DAC registers follow these states; the HAL calls that write them are not modelled.
pub mod Inputs
use stm32_automation_board.Common.{
  ℕ, ◌-◌, ◌/◌, ◌^◌, bit_and, bit_or, bit_xor, List, if◌then◌else◌, ◌!=◌, leb, set,
}
use stm32_automation_board.Common.Word.{u8}

abbrev pub di_count : ℕ
di_count = 8

abbrev pub do_count : ℕ
do_count = 8

abbrev pub relay_count : ℕ
relay_count = 4

abbrev pub ai_count : ℕ
ai_count = 4

abbrev pub ao_count : ℕ
ao_count = 2

-- `digital_input_states`, `digital_output_states`, `relay_states`, and the value last handed to
-- `HAL_DAC_SetValue` for each channel.
pub record Board : Type 0 where
  pub digital_input_states : ℕ
  pub digital_output_states : ℕ
  pub relay_states : ℕ
  pub dac : List ℕ

unfoldable pub digital_inputs_read_all : Board → ℕ
digital_inputs_read_all b = b.digital_input_states

-- `states |= (1 << channel)` or `states &= ~(1 << channel)`
unfoldable pub with_channel : ℕ → ℕ → ℕ → ℕ
with_channel states channel state =
    if state != 0
    then u8 (bit_or states (2 ^ channel))
    else u8 (bit_and states (2 ^ 32 - 1 - 2 ^ channel))

unfoldable pub digital_output_write : ℕ → ℕ → Board → Board
unfolding with_channel
digital_output_write channel state b =
    if leb do_count channel
    then b
    else record b { digital_output_states = with_channel b.digital_output_states channel state }

unfoldable pub relay_set : ℕ → ℕ → Board → Board
unfolding with_channel
relay_set channel state b =
    if leb relay_count channel
    then b
    else record b { relay_states = with_channel b.relay_states channel state }

unfoldable pub analog_output_write_raw : ℕ → ℕ → Board → Board
analog_output_write_raw channel value b =
    if leb ao_count channel then b else record b { dac = set b.dac channel value }

unfoldable pub digital_outputs_write_all : ℕ → Board → Board
digital_outputs_write_all value b = record b { digital_output_states = value }

unfoldable pub digital_output_read : ℕ → Board → ℕ
digital_output_read channel b =
    if leb do_count channel then 0 else bit_and (b.digital_output_states / 2 ^ channel) 0x01

unfoldable pub digital_outputs_read_all : Board → ℕ
digital_outputs_read_all b = b.digital_output_states

unfoldable pub relay_get : ℕ → Board → ℕ
relay_get channel b =
    if leb relay_count channel then 0 else bit_and (b.relay_states / 2 ^ channel) 0x01

unfoldable pub relays_set_all : ℕ → Board → Board
relays_set_all mask b = record b { relay_states = bit_and mask 0x0f }

unfoldable pub relays_get_all : Board → ℕ
relays_get_all b = b.relay_states

unfoldable pub relay_toggle : ℕ → Board → Board
relay_toggle channel b =
    if leb relay_count channel then b else relay_set channel (bit_xor (relay_get channel b) 0x01) b
