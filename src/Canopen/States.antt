-- ===== src/Canopen/States.antt =====
-- What the NMT state of the node lets through, and the invariant of the node.
use stm32_automation_board.Common.{
  ℕ, zero, suc, ◌+◌, ◌≤◌, ◌<◌, bit_xor, List, false, ◌==◌, ◌≡◌, ◌≢◌, ◌⊎◌, inl, inr, refl, arith,
  Option, some,
}
use stm32_automation_board.Common.Word.{u32}
use stm32_automation_board.Canopen.Types.{
  Indextable, World, Callbacks, od_of, initialisation, stopped, pre_operational,
}
use stm32_automation_board.Canopen.Dictionary.{locate}
use stm32_automation_board.Canopen.Objects.{Found-cases}
use stm32_automation_board.Canopen.Network.{Nmt, nmt_process, nmt_rx_command, nmt_init}
use stm32_automation_board.Canopen.Process.{Pdo, pdo_init, rx_sync, rx_rpdo}
use stm32_automation_board.Canopen.Service.{
  Sdo, index_of, subindex_of, sdo_init, sdo_rx_frame, upload, upload_object, upload_segment,
}
use stm32_automation_board.Canopen.Counters.{
  IsTpdo, IsPdo, send_tpdo1-IsPdo, send_tpdo2-IsPdo, pdo_process-IsPdo, rx_sync-IsPdo,
}
use stm32_automation_board.Canopen.{
  Node, is_operational, canopen_init, canopen_process, canopen_rx_frame, trigger_tpdo1,
  trigger_tpdo2,
}

-- A node under one ID, in one of the three NMT states, whose timers have not passed their periods.
pub record IsNode (id : ℕ) (n : Node) : Type 0 where
  pub node_id : n.node_id ≡ id
  pub nmt_id : n.nmt.node_id ≡ id
  pub sdo_id : n.sdo.node_id ≡ id
  pub pdo_id : n.pdo.node_id ≡ id
  pub started : n.nmt.state ≢ initialisation
  pub heartbeat : n.nmt.heartbeat_timer_ms ≤ n.nmt.heartbeat_period_ms
  pub toggle : n.sdo.seg_toggle < 2
  pub tpdo1 : IsTpdo (u32 (0x180 + id)) n.pdo.tpdo1
  pub tpdo2 : IsTpdo (u32 (0x280 + id)) n.pdo.tpdo2

flip-lt : (t : ℕ) → t < 2 → bit_xor t 1 < 2
flip-lt zero h = omega arith
flip-lt (suc zero) h = omega arith
flip-lt (suc (suc t)) h = absurd (omega arith)

module _ {App : Type 0} (cb : Callbacks App) where
  sync_ignored : (p : Pdo) (w : World App) → rx_sync cb false p w ≡ (p, w)
  unfolding rx_sync
  sync_ignored p w = refl

  rpdo_ignored :
      (cob_id : ℕ) (payload : List ℕ) (p : Pdo) (w : World App)
      → rx_rpdo cb cob_id payload false p w ≡ (false, w)
  unfolding rx_rpdo
  rpdo_ignored cob_id payload p w = refl

  -- A node that is not operational takes nothing from SYNC, RPDO1 and RPDO2, and in the state STOPPED
  -- it takes no SDO request either: it, the dictionary, the application and the bus stay as they
  -- are. Only NMT commands (COB-ID 0) and, unless it is stopped, SDO requests reach it.
  pub canopen_rx_frame-ignored :
      (cob_id : ℕ) (payload : List ℕ) (node : Node) (w : World App)
      → is_operational node.nmt.state ≡ false
      → cob_id ≢ 0x000
      → (cob_id ≢ u32 (0x600 + node.node_id)) ⊎ (node.nmt.state ≡ stopped)
      → let (handled, node', w') = canopen_rx_frame cb cob_id payload node w in
        (node' ≡ node) × (w' ≡ w) × (handled ≡ (cob_id == 0x080))
  unfolding canopen_rx_frame
  canopen_rx_frame-ignored cob_id payload node w idle other sdo =
      rw (canopen_rx_frame, idle, sync_ignored node.pdo w, rpdo_ignored cob_id payload node.pdo w)
        (ground (arith, other, sdo))

  -- The calls of the application and of the CAN driver, as steps: each runs in any world.
  pub data Step : Node → Node → Type 0 where
    tick : (delta_ms : ℕ) (n : Node) (w : World App) → Step n (canopen_process cb delta_ms n w).0
    frame :
        (cob_id : ℕ) (payload : List ℕ) (n : Node) (w : World App)
        → Step n (canopen_rx_frame cb cob_id payload n w).1
    trigger1 : (n : Node) (w : World App) → Step n (trigger_tpdo1 cb n w).0
    trigger2 : (n : Node) (w : World App) → Step n (trigger_tpdo2 cb n w).0

  pub data Steps : Node → Node → Type 0 where
    here : (n : Node) → Steps n n
    then_step : (n m k : Node) → Steps n m → Step m k → Steps n k

  nmt_process-kept :
      (delta_ms : ℕ) (n : Nmt) (w : World App)
      → n.heartbeat_timer_ms ≤ n.heartbeat_period_ms
      → let m = (nmt_process cb delta_ms n w).0 in
        (m.node_id ≡ n.node_id)
        × (m.state ≡ n.state)
        × (m.heartbeat_timer_ms ≤ m.heartbeat_period_ms)
  unfolding nmt_process
  nmt_process-kept delta_ms n w h = ground (arith, h)

  nmt_rx_command-kept :
      (payload : List ℕ) (n : Nmt) (w : World App)
      → n.heartbeat_timer_ms ≤ n.heartbeat_period_ms
      → n.state ≢ initialisation
      → let m = (nmt_rx_command cb payload n w).1 in
        (m.node_id ≡ n.node_id)
        × (m.state ≢ initialisation)
        × (m.heartbeat_timer_ms ≤ m.heartbeat_period_ms)
  unfolding nmt_rx_command
  nmt_rx_command-kept payload n w h started = ground (arith, h, started)

  upload-kept :
      (payload : List ℕ) (sdo : Sdo) (w : World App)
      → sdo.seg_toggle < 2
      → let sdo' = (upload cb payload sdo w).0 in
        (sdo'.node_id ≡ sdo.node_id) × (sdo'.seg_toggle < 2)
  unfolding upload upload_object
  upload-kept payload sdo w h =
      elim (Found-cases (locate (od_of w) (index_of payload) (subindex_of payload))) [
        | inl (code, e) ↦ rw (upload, e) (refl, h)
        | inr (sub, object, e) ↦ rw (upload, e) (ground (arith, h))
      ]

  upload_segment-kept :
      (payload : List ℕ) (sdo : Sdo) (w : World App)
      → sdo.seg_toggle < 2
      → let sdo' = (upload_segment cb payload sdo w).0 in
        (sdo'.node_id ≡ sdo.node_id) × (sdo'.seg_toggle < 2)
  unfolding upload_segment
  upload_segment-kept payload sdo w h = ground (arith, h, flip-lt sdo.seg_toggle h)

  sdo_rx_frame-kept :
      (payload : List ℕ) (sdo : Sdo) (w : World App)
      → sdo.seg_toggle < 2
      → let sdo' = (sdo_rx_frame cb payload sdo w).1 in
        (sdo'.node_id ≡ sdo.node_id) × (sdo'.seg_toggle < 2)
  unfolding sdo_rx_frame
  sdo_rx_frame-kept payload sdo w h =
      ground (arith, h, upload-kept payload sdo w h, upload_segment-kept payload sdo w h)

  -- `IsNode` with its PDO part taken apart.
  with_pdo :
      (id : ℕ) (n : Node) (p : Pdo) → IsNode id n → IsPdo id p → IsNode id (record n { pdo = p })
  with_pdo id n p v k = record {
    node_id = v.node_id;
    nmt_id = v.nmt_id;
    sdo_id = v.sdo_id;
    pdo_id = k.pdo_id;
    started = v.started;
    heartbeat = v.heartbeat;
    toggle = v.toggle;
    tpdo1 = k.first;
    tpdo2 = k.second;
  }

  pdo_of : (id : ℕ) (n : Node) → IsNode id n → IsPdo id n.pdo
  pdo_of id n v = record { pdo_id = v.pdo_id; first = v.tpdo1; second = v.tpdo2 }

  step-IsNode : (id : ℕ) (n m : Node) → Step n m → IsNode id n → IsNode id m
  unfolding canopen_process canopen_rx_frame trigger_tpdo1 trigger_tpdo2
  step-IsNode id _ _ (tick delta_ms n w) v =
      let (nmt, w1) = nmt_process cb delta_ms n.nmt w in
      let (ids, state, timer) = nmt_process-kept delta_ms n.nmt w v.heartbeat in
      let op = is_operational nmt.state in
      let p = pdo_process-IsPdo cb delta_ms op id n.pdo w1 (pdo_of id n v) in
      ground (arith, v, ids, state, timer, p)
  step-IsNode id _ _ (frame cob_id payload n w) v =
      let op = is_operational n.nmt.state in
      ground (
        arith,
        v,
        nmt_rx_command-kept payload n.nmt w v.heartbeat v.started,
        sdo_rx_frame-kept payload n.sdo w v.toggle,
        with_pdo id n (rx_sync cb op n.pdo w).0 v (rx_sync-IsPdo cb op id n.pdo w (pdo_of id n v)),
      )
  step-IsNode id _ _ (trigger1 n w) v =
      ground (arith, v, with_pdo id n _ v (send_tpdo1-IsPdo cb id n.pdo w (pdo_of id n v)))
  step-IsNode id _ _ (trigger2 n w) v =
      ground (arith, v, with_pdo id n _ v (send_tpdo2-IsPdo cb id n.pdo w (pdo_of id n v)))

  -- Any sequence of ticks, received frames and triggers, whatever the application and the bus do in
  -- between, keeps the node in order: its parts keep its ID, its NMT state is never
  -- INITIALISATION again, the heartbeat timer does not pass its period, and the COB-IDs and timers
  -- of the transmit PDOs stay as they were set.
  pub Steps-IsNode : (id : ℕ) (n m : Node) → Steps n m → IsNode id n → IsNode id m
  Steps-IsNode id _ _ (here n) v = v
  Steps-IsNode id _ _ (then_step n m k s r) v = step-IsNode id m k r (Steps-IsNode id n m s v)

  -- `canopen_init` refuses exactly the IDs outside of 1 to 127, and starts a node in order, in the
  -- state PRE-OPERATIONAL.
  pub canopen_init-IsNode :
      (id : ℕ) (od : Option (List Indextable)) (w : World App) (n : Node) (w' : World App)
      → canopen_init cb id od w ≡ some (n, w')
      → IsNode id n × (n.nmt.state ≡ pre_operational) × (1 ≤ id) × (id ≤ 127)
  unfolding canopen_init nmt_init pdo_init sdo_init
  canopen_init-IsNode id od w n w' e = ground (arith, e)
