-- ===== src/Tests/App.antt =====
-- The inputs of the board, and the application on a node of the board that CANopen and Modbus share.
use stm32_automation_board.Common.{
  ℕ, List, [], ◌∷◌, Bool, true, false, ◌≡◌, refl, arith, none, ◌==◌, if◌then◌else◌,
}
use stm32_automation_board.Board.Inputs.{
  no_inputs, scans, digital_input_read, digital_input_read-scans,
}
use stm32_automation_board.Canopen.Types.{Frame, World, operational}
use stm32_automation_board.Canopen.Dictionary.{locate, find_index}
use stm32_automation_board.Canopen.Board.{default_od, u8_object, rw_access}
use stm32_automation_board.Canopen.Process.{pdo_init}
use stm32_automation_board.Canopen.{canopen_rx_frame}
use stm32_automation_board.App.{App, Periphery, board_callbacks}
use stm32_automation_board.App.Driven.{IsDriven, canopen_rx_frame-IsDriven}
use stm32_automation_board.Tests.{blank_board}
use stm32_automation_board.Tests.Canopen.{node_in}

-- Only the pin of channel 2 is low.
abbrev pressed : ℕ → Bool
pressed i = if i == 2 then false else true

abbrev history : List (ℕ → Bool)
history = pressed ∷ pressed ∷ pressed ∷ pressed ∷ pressed ∷ pressed ∷ []

digital_input_read-scans_example : digital_input_read 2 (scans history no_inputs) ≡ 1
digital_input_read-scans_example = digital_input_read-scans history 2

abbrev periphery : Periphery (List Frame)
periphery = record {
  can_transmit = λ frame bus. (true, frame ∷ bus);
  convert = λ channel bus. (none, bus);
  ai_buf = 0 ∷ 0 ∷ 0 ∷ 0 ∷ [];
}

abbrev world : World (App (List Frame))
world = record {
  board_objdict = default_od;
  custom_od = none;
  app = record { board = blank_board; last_do = 0; last_ao = 0 ∷ 0 ∷ []; bus = [] };
}

canopen_rx_frame-IsDriven_example :
    let node = node_in operational in
    let (handled, node', w') =
      canopen_rx_frame (board_callbacks periphery) 0x20a (0xa5 ∷ []) node world in
    (handled ≡ true) × (node' ≡ node) × IsDriven 0xa5 world.app w'.app
unfolding locate find_index pdo_init
canopen_rx_frame-IsDriven_example =
    canopen_rx_frame-IsDriven periphery (0xa5 ∷ []) (node_in operational) world
      (u8_object rw_access 0) 0 refl refl (omega arith) (omega arith) (omega arith) refl
