-- ===== src/Canopen/Network.antt =====
-- src/canopen/canopen_nmt.c: the NMT slave and the heartbeat producer.
use stm32_automation_board.Common.{
  ℕ, ◌+◌, ◌-◌, List, [], ◌∷◌, Bool, true, false, if◌then◌else◌, ◌==◌, ◌!=◌, ltb, leb, ◌&&◌, ◌||◌,
  length, get_or,
}
use stm32_automation_board.Common.Word.{u16, u32}
use stm32_automation_board.Canopen.Types.{
  Frame, World, Callbacks, transmit, NmtState, stopped, operational, pre_operational, nmt_code,
}

-- `canopen_nmt_t`; its `tx_func` is that of the callbacks, which is not null.
pub record Nmt : Type 0 where
  pub node_id : ℕ
  pub state : NmtState
  pub heartbeat_period_ms : ℕ
  pub heartbeat_timer_ms : ℕ

abbrev pub heartbeat_base : ℕ
heartbeat_base = 0x700

abbrev pub heartbeat_frame : Nmt → ℕ → Frame
heartbeat_frame n state = record { cob_id = u32 (heartbeat_base + n.node_id); payload = state ∷ [] }

module _ {App : Type 0} (cb : Callbacks App) where
  unfoldable pub nmt_send_bootup : Nmt → World App → World App
  nmt_send_bootup n w = (transmit cb (heartbeat_frame n 0x00) w).1

  unfoldable pub nmt_init : ℕ → ℕ → World App → Nmt × World App
  nmt_init node_id heartbeat_period_ms w =
      let n : Nmt = record {
        node_id = node_id;
        state = pre_operational;
        heartbeat_period_ms = heartbeat_period_ms;
        heartbeat_timer_ms = heartbeat_period_ms;
      } in
      (n, nmt_send_bootup n w)

  unfoldable pub nmt_process : ℕ → Nmt → World App → Nmt × World App
  nmt_process delta_ms n w =
      if n.heartbeat_period_ms == 0
      then (n, w)
      else if leb n.heartbeat_timer_ms delta_ms
      then (
        record n { heartbeat_timer_ms = n.heartbeat_period_ms },
        (transmit cb (heartbeat_frame n (nmt_code n.state)) w).1,
      )
      else (record n { heartbeat_timer_ms = n.heartbeat_timer_ms - u16 delta_ms }, w)

  -- The result tells whether the command was for this node and known.
  unfoldable pub nmt_rx_command : List ℕ → Nmt → World App → Bool × Nmt × World App
  nmt_rx_command payload n w =
      let cs = get_or payload 0 0 in
      let target_node = get_or payload 1 0 in
      let reset = record n {
        state = pre_operational;
        heartbeat_timer_ms = n.heartbeat_period_ms;
      } in
      if ltb (length payload) 2
      then (false, n, w)
      else if target_node != 0 && target_node != n.node_id
      then (false, n, w)
      else if cs == 0x01
      then (true, record n { state = operational }, w)
      else if cs == 0x02
      then (true, record n { state = stopped }, w)
      else if cs == 0x80
      then (true, record n { state = pre_operational }, w)
      else if cs == 0x81 || cs == 0x82
      then (true, reset, nmt_send_bootup reset w)
      else (false, n, w)

unfoldable pub nmt_set_state : NmtState → Nmt → Nmt
nmt_set_state new_state n = record n { state = new_state }

unfoldable pub nmt_get_state : Nmt → NmtState
nmt_get_state n = n.state
