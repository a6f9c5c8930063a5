-- ===== src/App/Driven.antt =====
-- src/main.c: what a receive PDO does to the outputs of the board.
use stm32_automation_board.Common.{
  ℕ, ◌+◌, ◌≤◌, List, [], ◌∷◌, true, if◌then◌else◌, ◌==◌, ◌≡◌, refl, ◌∙◌, arith, length, get_or, inl,
}
use stm32_automation_board.Common.Loops.{for_range}
use stm32_automation_board.Board.{digital_outputs_write_all, analog_output_write_raw}
use stm32_automation_board.Canopen.Types.{World, operational, Subindex}
use stm32_automation_board.Canopen.Dictionary.{locate, found, store_object}
use stm32_automation_board.Canopen.{Node, canopen_rx_frame, get_digital_outputs}
use stm32_automation_board.Canopen.Outputs.{canopen_rx_frame-rpdo1}
use stm32_automation_board.App.{
  App, Periphery, sync_digital, sync_analog, canopen_app_sync_outputs, board_callbacks,
}

-- The digital outputs and the relays stay.
record SameOutputs {Bus : Type 0} (a b : App Bus) : Type 0 where
  outputs : b.board.digital_output_states ≡ a.board.digital_output_states
  relays : b.board.relay_states ≡ a.board.relay_states
  last : b.last_do ≡ a.last_do

-- The outputs follow the value, unless it is the one written last: then they stay.
pub record IsDriven {Bus : Type 0} (do_val : ℕ) (a b : App Bus) : Type 0 where
  pub outputs :
      b.board.digital_output_states
      ≡ (if do_val == a.last_do then a.board.digital_output_states else do_val)
  pub relays : b.board.relay_states ≡ a.board.relay_states
  pub last : b.last_do ≡ do_val

module _ {Bus : Type 0} (periphery : Periphery Bus) where
  sync_analog-SameOutputs :
      (i ao_val : ℕ) (a : App Bus) → SameOutputs a (sync_analog periphery i ao_val a)
  unfolding sync_analog analog_output_write_raw
  sync_analog-SameOutputs i ao_val a = record {
    outputs = ground arith;
    relays = ground arith;
    last = ground arith;
  }

  sync_digital-IsDriven :
      (do_val : ℕ) (a : App Bus) → IsDriven do_val a (sync_digital periphery do_val a)
  unfolding sync_digital digital_outputs_write_all
  sync_digital-IsDriven do_val a = record {
    outputs = ground arith;
    relays = ground arith;
    last = ground arith;
  }

  canopen_app_sync_outputs-IsDriven :
      (w : World (App Bus))
      → IsDriven (get_digital_outputs w) w.app (canopen_app_sync_outputs periphery w).app
  unfolding canopen_app_sync_outputs for_range
  canopen_app_sync_outputs-IsDriven w =
      let d = sync_digital-IsDriven (get_digital_outputs w) w.app in
      let one =
        sync_analog-SameOutputs 0 _ (sync_digital periphery (get_digital_outputs w) w.app) in
      let two = sync_analog-SameOutputs 1 _ _ in
      record {
        outputs = two.outputs ∙ one.outputs ∙ d.outputs;
        relays = two.relays ∙ one.relays ∙ d.relays;
        last = two.last ∙ one.last ∙ d.last;
      }

  -- RPDO1 on an operational node of the board drives the digital outputs by its first byte, unless
  -- CANopen wrote this value last: then they stay as they are, and also if Modbus has changed them
  -- since. The relays stay, and the value is remembered.
  pub canopen_rx_frame-IsDriven :
      (payload : List ℕ) (node : Node) (w : World (App Bus)) (sub : Subindex) (v : ℕ)
      → node.nmt.state ≡ operational
      → node.pdo.node_id ≡ node.node_id
      → 1 ≤ node.node_id
      → node.node_id ≤ 127
      → 1 ≤ length payload
      → locate w.board_objdict 0x6200 1 ≡ found sub (v ∷ [])
      → let (handled, node', w') =
          canopen_rx_frame (board_callbacks periphery) (0x200 + node.node_id) payload node w in
        (handled ≡ true) × (node' ≡ node) × IsDriven (get_or payload 0 0) w.app w'.app
  canopen_rx_frame-IsDriven payload node w sub v op same one most some_byte there =
      let (mapped, reads, _) =
        canopen_rx_frame-rpdo1 (board_callbacks periphery) payload node w sub v 0x6411 2 op same one
          most some_byte there (inl (omega arith)) in
      let written : World (App Bus) = record w {
        board_objdict = store_object w.board_objdict 0x6200 1 (get_or payload 0 0 ∷ []);
      } in
      let driven = canopen_app_sync_outputs-IsDriven written in
      let by_byte = rw reads at driven in rw mapped (refl, refl, by_byte)
