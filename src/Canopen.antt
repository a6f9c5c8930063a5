-- ===== src/Canopen.antt =====
-- src/canopen/canopen.c: the CANopen node, which dispatches to NMT, SDO and PDO.
pub mod Types
pub mod Dictionary
pub mod Board
pub mod Network
pub mod Process
pub mod Service
pub mod Objects
pub mod Transfers
pub mod Segments
pub mod Pulled
pub mod Counters
pub mod States
pub mod Timing
pub mod Outputs
use stm32_automation_board.Common.{
  ℕ, ◌+◌, List, [], ◌∷◌, ◌++◌, Bool, true, false, if◌then◌else◌, ◌==◌, ◌!=◌, ltb, leb, ◌&&◌, ◌||◌,
  not, length, get_or, drop, Option, none, some,
}
use stm32_automation_board.Common.Word.{u32}
use stm32_automation_board.Canopen.Types.{
  le16, put_le16, Indextable, World, Callbacks, od_of, NmtState, stopped, operational,
}
use stm32_automation_board.Canopen.Dictionary.{od_read}
use stm32_automation_board.Canopen.Board.{var_u8, var_i16, default_od_update_node_id}
use stm32_automation_board.Canopen.Network.{
  Nmt, nmt_init, nmt_process, nmt_rx_command, nmt_get_state, nmt_set_state,
}
use stm32_automation_board.Canopen.Process.{
  Pdo, pdo_init, pdo_process, rx_rpdo, rx_sync, send_tpdo1, send_tpdo2, with_var,
}
use stm32_automation_board.Canopen.Service.{Sdo, sdo_init, sdo_rx_frame}

-- `canopen_node_t`; its dictionary is the one in use of the `World`, its `tx_func` that of the
-- callbacks, and its `vars` point into the default dictionary.
pub record Node : Type 0 where
  pub node_id : ℕ
  pub nmt : Nmt
  pub sdo : Sdo
  pub pdo : Pdo

abbrev pub is_stopped : NmtState → Bool
is_stopped stopped = true
is_stopped _ = false

abbrev pub is_operational : NmtState → Bool
is_operational operational = true
is_operational _ = false

-- The two bytes of `hb_ms`, 1000 at first, behind the read of 0x1017.
abbrev pub heartbeat_ms : List Indextable → ℕ
heartbeat_ms od =
    let (_, copied, _) = od_read od 0x1017 0 2 in
    let hb = copied ++ drop (length copied) (put_le16 1000) in le16 (get_or hb 0 0) (get_or hb 1 0)

module _ {App : Type 0} (cb : Callbacks App) where
  -- None is the result false; `od` is none for a null pointer.
  unfoldable pub canopen_init : ℕ → Option (List Indextable) → World App → Option (Node × World App)
  canopen_init node_id od w =
      let board : List Indextable = elim od [
        | none ↦ default_od_update_node_id node_id w.board_objdict
        | some _ ↦ w.board_objdict
      ] in
      let started = record w { custom_od = od; board_objdict = board } in
      let (nmt, running) = nmt_init cb node_id (heartbeat_ms (od_of started)) started in
      let node : Node = record {
        node_id = node_id;
        nmt = nmt;
        sdo = sdo_init node_id;
        pdo = pdo_init node_id;
      } in
      if ltb node_id 1 || ltb 127 node_id then none else some (node, running)

  unfoldable pub canopen_process : ℕ → Node → World App → Node × World App
  canopen_process delta_ms node w =
      let (nmt, w1) = nmt_process cb delta_ms node.nmt w in
      let (pdo, w2) = pdo_process cb delta_ms (is_operational nmt.state) node.pdo w1 in
      (record node { nmt = nmt; pdo = pdo }, w2)

  -- `canopen_rx_frame`: whether the frame was handled.
  unfoldable pub canopen_rx_frame : ℕ → List ℕ → Node → World App → Bool × Node × World App
  canopen_rx_frame cob_id payload node w =
      let is_op = is_operational node.nmt.state in
      let (known, nmt, nmt_w) = nmt_rx_command cb payload node.nmt w in
      let (synced, sync_w) = rx_sync cb is_op node.pdo w in
      let (handled, sdo, sdo_w) = sdo_rx_frame cb payload node.sdo w in
      let (mapped, rpdo_w) = rx_rpdo cb cob_id payload is_op node.pdo w in
      if cob_id == 0x000
      then (known, record node { nmt = nmt }, nmt_w)
      else if cob_id == 0x080
      then (true, record node { pdo = synced }, sync_w)
      else if cob_id == u32 (0x600 + node.node_id)
      then (if is_stopped node.nmt.state
          then (false, node, w)
          else (handled, record node { sdo = sdo }, sdo_w))
      else if cob_id == u32 (0x200 + node.node_id) || cob_id == u32 (0x300 + node.node_id)
      then (mapped, node, rpdo_w)
      else (false, node, w)

  unfoldable pub trigger_tpdo1 : Node → World App → Node × World App
  trigger_tpdo1 node w =
      let (_, pdo, after) = send_tpdo1 cb node.pdo w in
      if is_operational node.nmt.state then (record node { pdo = pdo }, after) else (node, w)

  unfoldable pub trigger_tpdo2 : Node → World App → Node × World App
  trigger_tpdo2 node w =
      let (_, pdo, after) = send_tpdo2 cb node.pdo w in
      if is_operational node.nmt.state then (record node { pdo = pdo }, after) else (node, w)

module _ {App : Type 0} where
  unfoldable pub set_digital_inputs : ℕ → World App → World App
  set_digital_inputs inputs w = with_var 0x6000 1 (inputs ∷ []) w

  unfoldable pub get_digital_outputs : World App → ℕ
  get_digital_outputs w = var_u8 w.board_objdict 0x6200 1

  -- The value is the bit pattern of the int16_t.
  unfoldable pub set_analog_input : ℕ → ℕ → World App → World App
  set_analog_input channel value w =
      if ltb channel 4 then with_var 0x6401 (channel + 1) (put_le16 value) w else w

  unfoldable pub get_analog_output : ℕ → World App → ℕ
  get_analog_output channel w =
      if ltb channel 2 then var_i16 w.board_objdict 0x6411 (channel + 1) else 0

unfoldable pub canopen_get_nmt_state : Node → NmtState
canopen_get_nmt_state node = nmt_get_state node.nmt

unfoldable pub canopen_set_nmt_state : NmtState → Node → Node
canopen_set_nmt_state state node = record node { nmt = nmt_set_state state node.nmt }
