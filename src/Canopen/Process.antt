-- ===== src/Canopen/Process.antt =====
-- src/canopen/canopen_pdo.c: the PDO engine.
use stm32_automation_board.Common.{
  ℕ, ◌+◌, ◌-◌, List, [], ◌∷◌, ◌++◌, Bool, true, false, if◌then◌else◌, ◌==◌, ltb, leb, ◌&&◌, not,
  length, get_or,
}
use stm32_automation_board.Common.Word.{u16, u32}
use stm32_automation_board.Canopen.Types.{le16, put_le16, Frame, Od, World, Callbacks, transmit}
use stm32_automation_board.Canopen.Dictionary.{store_object}
use stm32_automation_board.Canopen.Board.{var_u8, var_i16}

-- `canopen_tpdo_state_t`
pub record Tpdo : Type 0 where
  pub cob_id : ℕ
  pub event_timer_ms : ℕ
  pub event_counter_ms : ℕ
  pub inhibit_timer_ms : ℕ
  pub inhibit_counter_ms : ℕ

-- `canopen_pdo_t`; its `vars` point into the default dictionary.
pub record Pdo : Type 0 where
  pub node_id : ℕ
  pub tpdo1 : Tpdo
  pub tpdo2 : Tpdo

abbrev pub new_tpdo : ℕ → Tpdo
new_tpdo cob_id = record {
  cob_id = cob_id;
  event_timer_ms = 1000;
  event_counter_ms = 1000;
  inhibit_timer_ms = 100;
  inhibit_counter_ms = 0;
}

unfoldable pub pdo_init : ℕ → Pdo
pdo_init node_id = record {
  node_id = node_id;
  tpdo1 = new_tpdo (u32 (0x180 + node_id));
  tpdo2 = new_tpdo (u32 (0x280 + node_id));
}

-- The payloads: the digital inputs, and the four analog inputs, low byte first.
abbrev pub inputs_payload : Od → List ℕ
inputs_payload od = var_u8 od 0x6000 1 ∷ []

abbrev pub analog_payload : Od → List ℕ
analog_payload od =
    put_le16 (var_i16 od 0x6401 1)
    ++ put_le16 (var_i16 od 0x6401 2)
    ++ put_le16 (var_i16 od 0x6401 3)
    ++ put_le16 (var_i16 od 0x6401 4)

-- `Board_objdict` after a write of a variable.
abbrev pub with_var : {App : Type 0} → ℕ → ℕ → List ℕ → World App → World App
with_var index b_subindex src w = record w {
  board_objdict = store_object w.board_objdict index b_subindex src;
}

-- The inhibit cooldown of `canopen_pdo_process`.
unfoldable pub cooled : ℕ → Tpdo → Tpdo
cooled delta_ms t =
    if ltb 0 t.inhibit_counter_ms
    then (if leb t.inhibit_counter_ms delta_ms
        then record t { inhibit_counter_ms = 0 }
        else record t { inhibit_counter_ms = t.inhibit_counter_ms - u16 delta_ms })
    else t

abbrev pub uninhibited : Tpdo → Tpdo
uninhibited t = record t { inhibit_counter_ms = 0 }

module _ {App : Type 0} (cb : Callbacks App) where
  -- The body that `canopen_pdo_send_tpdo1` and `canopen_pdo_send_tpdo2` share.
  unfoldable pub send_tpdo : (Od → List ℕ) → Tpdo → World App → Bool × Tpdo × World App
  send_tpdo payload t w =
      let fresh = cb.app_sync_inputs w in
      let frame : Frame = record { cob_id = t.cob_id; payload = payload fresh.board_objdict } in
      let (sent, after) = transmit cb frame fresh in
      if ltb 0 t.inhibit_counter_ms
      then (false, t, w)
      else if sent
      then (true, record t { inhibit_counter_ms = t.inhibit_timer_ms }, after)
      else (false, t, after)

  unfoldable pub send_tpdo1 : Pdo → World App → Bool × Pdo × World App
  send_tpdo1 p w =
      let (sent, t, after) = send_tpdo inputs_payload p.tpdo1 w in
      (sent, record p { tpdo1 = t }, after)

  unfoldable pub send_tpdo2 : Pdo → World App → Bool × Pdo × World App
  send_tpdo2 p w =
      let (sent, t, after) = send_tpdo analog_payload p.tpdo2 w in
      (sent, record p { tpdo2 = t }, after)

  -- The two event timers of `canopen_pdo_process`.
  unfoldable pub run_tpdo1 : ℕ → Pdo → World App → Pdo × World App
  run_tpdo1 delta_ms p w =
      let (_, q, after) = send_tpdo1 p w in
      if not (ltb 0 p.tpdo1.event_timer_ms)
      then (p, w)
      else if leb p.tpdo1.event_counter_ms delta_ms
      then (
        record q { tpdo1 = record q.tpdo1 { event_counter_ms = q.tpdo1.event_timer_ms } },
        after,
      )
      else (
        record p {
          tpdo1 = record p.tpdo1 { event_counter_ms = p.tpdo1.event_counter_ms - u16 delta_ms };
        },
        w,
      )

  unfoldable pub run_tpdo2 : ℕ → Pdo → World App → Pdo × World App
  run_tpdo2 delta_ms p w =
      let (_, q, after) = send_tpdo2 p w in
      if not (ltb 0 p.tpdo2.event_timer_ms)
      then (p, w)
      else if leb p.tpdo2.event_counter_ms delta_ms
      then (
        record q { tpdo2 = record q.tpdo2 { event_counter_ms = q.tpdo2.event_timer_ms } },
        after,
      )
      else (
        record p {
          tpdo2 = record p.tpdo2 { event_counter_ms = p.tpdo2.event_counter_ms - u16 delta_ms };
        },
        w,
      )

  unfoldable pub pdo_process : ℕ → Bool → Pdo → World App → Pdo × World App
  pdo_process delta_ms is_operational p w =
      let cool = record p { tpdo1 = cooled delta_ms p.tpdo1; tpdo2 = cooled delta_ms p.tpdo2 } in
      let (p1, w1) = run_tpdo1 delta_ms cool w in
      if not is_operational then (cool, w) else run_tpdo2 delta_ms p1 w1

  unfoldable pub rx_rpdo : ℕ → List ℕ → Bool → Pdo → World App → Bool × World App
  rx_rpdo cob_id payload is_operational p w =
      let rpdo1_cob = u32 (0x200 + p.node_id) in
      let rpdo2_cob = u32 (0x300 + p.node_id) in
      let ao1 = put_le16 (le16 (get_or payload 0 0) (get_or payload 1 0)) in
      let ao2 = put_le16 (le16 (get_or payload 2 0) (get_or payload 3 0)) in
      if not is_operational
      then (false, w)
      else if cob_id == rpdo1_cob && leb 1 (length payload)
      then (true, cb.app_sync_outputs (with_var 0x6200 1 (get_or payload 0 0 ∷ []) w))
      else if cob_id == rpdo2_cob && leb 4 (length payload)
      then (true, cb.app_sync_outputs (with_var 0x6411 2 ao2 (with_var 0x6411 1 ao1 w)))
      else (false, w)

  unfoldable pub rx_sync : Bool → Pdo → World App → Pdo × World App
  rx_sync is_operational p w =
      let q = record p { tpdo1 = uninhibited p.tpdo1; tpdo2 = uninhibited p.tpdo2 } in
      let (_, q1, w1) = send_tpdo1 q w in
      let (_, q2, w2) = send_tpdo2 q1 w1 in if not is_operational then (p, w) else (q2, w2)
