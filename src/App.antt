-- ===== src/App.antt =====
-- src/main.c: the application's side of CANopen, which carries inputs and outputs between the object
-- dictionary and the board; with `analog_inputs_scan_all` of src/analog_io.c.
pub mod Driven
use stm32_automation_board.Common.{
  ℕ, ◌+◌, List, [], ◌∷◌, Bool, if◌then◌else◌, ◌==◌, ◌!=◌, ltb, leb, ◌&&◌, get_or, set, Option, none,
  some,
}
use stm32_automation_board.Common.Loops.{for_range}
use stm32_automation_board.Board.{
  Board, ai_count, ao_count, digital_inputs_read_all, digital_outputs_write_all,
  analog_output_write_raw,
}
use stm32_automation_board.Canopen.Types.{Frame, World, Callbacks}
use stm32_automation_board.Canopen.{
  set_digital_inputs, get_digital_outputs, set_analog_input, get_analog_output,
}

-- The board, the statics `s_last_do` and `s_last_ao` of `canopen_app_sync_outputs`, the latter as bit
-- patterns of int16_t, and the state of the CAN driver and the ADC.
pub record App (Bus : Type 0) : Type 0 where
  pub board : Board
  pub last_do : ℕ
  pub last_ao : List ℕ
  pub bus : Bus

-- `can_driver_transmit`, true for 0; the ADC calls of the HAL for a channel, none where no conversion
-- is ready in time; and what the stack holds where `ai_buf` lies, which is not initialised.
pub record Periphery (Bus : Type 0) : Type 0 where
  pub can_transmit : Frame → Bus → Bool × Bus
  pub convert : ℕ → Bus → Option ℕ × Bus
  pub ai_buf : List ℕ

abbrev pub dac_resolution : ℕ
dac_resolution = 4095

abbrev pub converted : ℕ → List ℕ → Option ℕ → List ℕ
converted i buffer none = buffer
converted i buffer (some value) = set buffer i value

module _ {Bus : Type 0} (periphery : Periphery Bus) where
  -- `analog_inputs_scan_all` into a buffer.
  unfoldable pub analog_inputs_scan_all : List ℕ → Bus → List ℕ × Bus
  analog_inputs_scan_all buffer bus =
      for_range ai_count 0
        (λ i (s : List ℕ × Bus).
          let (value, after) = periphery.convert i s.1 in (converted i s.0 value, after))
        (buffer, bus)

  unfoldable pub canopen_app_sync_inputs : World (App Bus) → World (App Bus)
  canopen_app_sync_inputs w =
      let inputs = set_digital_inputs (digital_inputs_read_all w.app.board) w in
      let (ai_buf, bus) = analog_inputs_scan_all periphery.ai_buf w.app.bus in
      let scanned = record inputs { app = record inputs.app { bus = bus } } in
      for_range ai_count 0 (λ i w. set_analog_input i (get_or ai_buf i 0) w) scanned

  -- The digital outputs, where they differ from those written last.
  unfoldable pub sync_digital : ℕ → App Bus → App Bus
  sync_digital do_val a =
      if do_val != a.last_do
      then record a { last_do = do_val; board = digital_outputs_write_all do_val a.board }
      else a

  -- The body of the loop over the analog outputs: a value that the DAC cannot give is not written.
  unfoldable pub sync_analog : ℕ → ℕ → App Bus → App Bus
  sync_analog i ao_val a =
      let kept = record a { last_ao = set a.last_ao i ao_val } in
      if ao_val != get_or a.last_ao i 0
      then (if ltb ao_val 0x8000 && leb ao_val dac_resolution
          then record kept { board = analog_output_write_raw i ao_val a.board }
          else kept)
      else a

  unfoldable pub canopen_app_sync_outputs : World (App Bus) → World (App Bus)
  canopen_app_sync_outputs w =
      let driven = sync_digital (get_digital_outputs w) w.app in
      record w {
        app = for_range ao_count 0 (λ i a. sync_analog i (get_analog_output i w) a) driven;
      }

  -- What `canopen_init` and the linker bind: no write callback is registered.
  abbrev pub board_callbacks : Callbacks (App Bus)
  board_callbacks = record {
    tx_func = λ frame a.
        let (sent, bus) = periphery.can_transmit frame a.bus in (sent, record a { bus = bus });
    post_write_cb = none;
    app_sync_inputs = canopen_app_sync_inputs;
    app_sync_outputs = canopen_app_sync_outputs;
  }
