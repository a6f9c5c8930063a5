-- ===== src/Canopen/Counters.antt =====
-- What the PDO engine keeps: COB-IDs and timers.
use stm32_automation_board.Common.{ℕ, ◌+◌, ◌≤◌, List, Bool, ◌≡◌, inl, inr, arith, Bool-cases}
use stm32_automation_board.Common.Word.{u32}
use stm32_automation_board.Canopen.Types.{Indextable, World, Callbacks}
use stm32_automation_board.Canopen.Process.{
  inputs_payload, analog_payload, uninhibited, Tpdo, Pdo, pdo_process, send_tpdo, send_tpdo1,
  send_tpdo2, run_tpdo1, run_tpdo2, cooled, rx_sync,
}

-- A transmit PDO: its COB-ID and its timers are those of `canopen_pdo_init`, and its counters have not
-- passed them.
pub record IsTpdo (cob_id : ℕ) (t : Tpdo) : Type 0 where
  pub id : t.cob_id ≡ cob_id
  pub event_time : t.event_timer_ms ≡ 1000
  pub event_left : t.event_counter_ms ≤ 1000
  pub inhibit_time : t.inhibit_timer_ms ≡ 100
  pub inhibit_left : t.inhibit_counter_ms ≤ 100

-- The engine of a node under one ID.
pub record IsPdo (id : ℕ) (p : Pdo) : Type 0 where
  pub pdo_id : p.node_id ≡ id
  pub first : IsTpdo (u32 (0x180 + id)) p.tpdo1
  pub second : IsTpdo (u32 (0x280 + id)) p.tpdo2

module _ {App : Type 0} (cb : Callbacks App) where
  cooled-IsTpdo :
      (cob_id delta_ms : ℕ) (t : Tpdo) → IsTpdo cob_id t → IsTpdo cob_id (cooled delta_ms t)
  unfolding cooled
  cooled-IsTpdo cob_id delta_ms t v = ground (arith, v)

  sent-IsTpdo :
      (payload : List Indextable → List ℕ) (cob_id : ℕ) (t : Tpdo) (w : World App)
      → IsTpdo cob_id t
      → IsTpdo cob_id (send_tpdo cb payload t w).1
  unfolding send_tpdo
  sent-IsTpdo payload cob_id t w v = ground (arith, v)

  pub send_tpdo1-IsPdo :
      (id : ℕ) (p : Pdo) (w : World App) → IsPdo id p → IsPdo id (send_tpdo1 cb p w).1
  unfolding send_tpdo1
  send_tpdo1-IsPdo id p w v = record {
    pdo_id = v.pdo_id;
    first = sent-IsTpdo inputs_payload (u32 (0x180 + id)) p.tpdo1 w v.first;
    second = v.second;
  }

  pub send_tpdo2-IsPdo :
      (id : ℕ) (p : Pdo) (w : World App) → IsPdo id p → IsPdo id (send_tpdo2 cb p w).1
  unfolding send_tpdo2
  send_tpdo2-IsPdo id p w v = record {
    pdo_id = v.pdo_id;
    first = v.first;
    second = sent-IsTpdo analog_payload (u32 (0x280 + id)) p.tpdo2 w v.second;
  }

  run_tpdo1-IsPdo :
      (delta_ms id : ℕ) (p : Pdo) (w : World App)
      → IsPdo id p
      → IsPdo id (run_tpdo1 cb delta_ms p w).0
  unfolding run_tpdo1
  run_tpdo1-IsPdo delta_ms id p w v = ground (arith, v, send_tpdo1-IsPdo id p w v)

  run_tpdo2-IsPdo :
      (delta_ms id : ℕ) (p : Pdo) (w : World App)
      → IsPdo id p
      → IsPdo id (run_tpdo2 cb delta_ms p w).0
  unfolding run_tpdo2
  run_tpdo2-IsPdo delta_ms id p w v = ground (arith, v, send_tpdo2-IsPdo id p w v)

  pub pdo_process-IsPdo :
      (delta_ms : ℕ) (is_op : Bool) (id : ℕ) (p : Pdo) (w : World App)
      → IsPdo id p
      → IsPdo id (pdo_process cb delta_ms is_op p w).0
  unfolding pdo_process
  pdo_process-IsPdo delta_ms is_op id p w v =
      let cool : Pdo = record p {
        tpdo1 = cooled delta_ms p.tpdo1;
        tpdo2 = cooled delta_ms p.tpdo2;
      } in
      let cool_v : IsPdo id cool = record {
        pdo_id = v.pdo_id;
        first = cooled-IsTpdo (u32 (0x180 + id)) delta_ms p.tpdo1 v.first;
        second = cooled-IsTpdo (u32 (0x280 + id)) delta_ms p.tpdo2 v.second;
      } in
      let one = run_tpdo1 cb delta_ms cool w in
      let one_v = run_tpdo1-IsPdo delta_ms id cool w cool_v in
      elim (Bool-cases is_op) [
        | inl e ↦ rw (pdo_process, e) (run_tpdo2-IsPdo delta_ms id one.0 one.1 one_v)
        | inr e ↦ rw (pdo_process, e) cool_v
      ]

  pub rx_sync-IsPdo :
      (is_op : Bool) (id : ℕ) (p : Pdo) (w : World App)
      → IsPdo id p
      → IsPdo id (rx_sync cb is_op p w).0
  unfolding rx_sync
  rx_sync-IsPdo is_op id p w v =
      let q : Pdo = record p { tpdo1 = uninhibited p.tpdo1; tpdo2 = uninhibited p.tpdo2 } in
      let q_v : IsPdo id q = ground (arith, v) in
      let one = send_tpdo1 cb q w in
      let one_v = send_tpdo1-IsPdo id q w q_v in
      elim (Bool-cases is_op) [
        | inl e ↦ rw (rx_sync, e) (send_tpdo2-IsPdo id one.1 one.2 one_v)
        | inr e ↦ rw (rx_sync, e) v
      ]
