-- ===== src/Canopen/Timing.antt =====
-- The rates of the node: heartbeats and transmit PDOs.
use stm32_automation_board.Common.{
  ℕ, suc, ◌+◌, ◌*◌, ◌≤◌, ◌<◌, List, [], ◌∷◌, Bool, true, false, ltb, leb, ◌≡◌, ◌≢◌, refl, sym,
  arith, none, Bool-cases, inl, inr,
}
use mathlib.Core.Path.{subst}
use stm32_automation_board.Common.Word.{IsWord}
use stm32_automation_board.Canopen.Types.{Frame, World, Callbacks, transmit}
use stm32_automation_board.Canopen.Network.{Nmt, nmt_process}
use stm32_automation_board.Canopen.Process.{
  Pdo, cooled, send_tpdo, send_tpdo1, run_tpdo1, run_tpdo2, send_tpdo2, pdo_process, analog_payload,
}

-- A bus that counts the frames that are handed to it.
abbrev pub count_frame : Frame → ℕ → Bool × ℕ
count_frame frame n = (true, suc n)

abbrev pub counting : Callbacks ℕ
counting = record {
  tx_func = count_frame;
  post_write_cb = none;
  app_sync_inputs = λ w. w;
  app_sync_outputs = λ w. w;
}

-- The calls of `canopen_nmt_process` with the times in the list.
abbrev pub run : List ℕ → Nmt → World ℕ → Nmt × World ℕ
run [] n w = (n, w)
run (d ∷ ds) n w = let (n', w') = nmt_process counting d n w in run ds n' w'

abbrev pub total : List ℕ → ℕ
total [] = 0
total (d ∷ ds) = d + total ds

one_tick :
    (d : ℕ) (n : Nmt) (w : World ℕ)
    → 1 ≤ n.heartbeat_period_ms
    → IsWord n.heartbeat_timer_ms
    → IsWord n.heartbeat_period_ms
    → let (n', w') = nmt_process counting d n w in
      (n'.heartbeat_period_ms ≡ n.heartbeat_period_ms)
      × IsWord n'.heartbeat_timer_ms
      × (w'.app * n.heartbeat_period_ms + n.heartbeat_timer_ms
          ≤ w.app * n.heartbeat_period_ms + d + n'.heartbeat_timer_ms)
unfolding nmt_process
one_tick d n w some_time small period =
    let p = n.heartbeat_period_ms in
    let one_more : suc w.app * p ≡ w.app * p + p = grind arith in
    elim (Bool-cases (leb n.heartbeat_timer_ms d)) [
      | inl e ↦ ground (arith, e, one_more)
      | inr e ↦ ground (arith, e)
    ]

-- The heartbeats are not too fast: over any calls of `canopen_nmt_process`, the number of frames
-- sent times the period is at most the time that has passed, plus what is left of the timer, minus
-- what was left of it at first. The period is not 0.
pub heartbeats-bounded :
    (ds : List ℕ) (n : Nmt) (w : World ℕ)
    → 1 ≤ n.heartbeat_period_ms
    → IsWord n.heartbeat_timer_ms
    → IsWord n.heartbeat_period_ms
    → let (n', w') = run ds n w in
      w'.app * n.heartbeat_period_ms + n.heartbeat_timer_ms
      ≤ w.app * n.heartbeat_period_ms + total ds + n'.heartbeat_timer_ms
heartbeats-bounded [] n w some_time small period = omega arith
heartbeats-bounded (d ∷ ds) n w some_time small period =
    let (n', w') = nmt_process counting d n w in
    let (same, word, step) = one_tick d n w some_time small period in
    let ih = heartbeats-bounded ds n' w' (rw same some_time) word (rw same period) in
    let shared = rw same at ih in omega (arith, shared, step)

-- The calls of `canopen_pdo_process`, with the time and whether the node is operational, and those of
-- `canopen_pdo_send_tpdo1` and `canopen_pdo_send_tpdo2` by the application.
pub data Act : Type 0 where
  process_pdo : ℕ → Bool → Act
  trigger1 : Act
  trigger2 : Act

-- The time that passes.
abbrev pub spent : List Act → ℕ
spent [] = 0
spent (process_pdo delta_ms is_op ∷ acts) = delta_ms + spent acts
spent (trigger1 ∷ acts) = spent acts
spent (trigger2 ∷ acts) = spent acts

-- More than `n` ms are left before another TPDO1, and the COB-IDs are these.
record IsWaiting (cob1 cob2 n : ℕ) (p : Pdo) : Type 0 where
  left : n < p.tpdo1.inhibit_counter_ms
  first : p.tpdo1.cob_id ≡ cob1
  second : p.tpdo2.cob_id ≡ cob2

module _ {App : Type 0} (cb : Callbacks App) where
  abbrev pub acted : List Act → Pdo → World App → Pdo × World App
  acted [] p w = (p, w)
  acted (process_pdo delta_ms is_op ∷ acts) p w =
      let (q, u) = pdo_process cb delta_ms is_op p w in acted acts q u
  acted (trigger1 ∷ acts) p w = let (_, q, u) = send_tpdo1 cb p w in acted acts q u
  acted (trigger2 ∷ acts) p w = let (_, q, u) = send_tpdo2 cb p w in acted acts q u

  blocked :
      (p : Pdo) (w : World App) → 0 < p.tpdo1.inhibit_counter_ms → send_tpdo1 cb p w ≡ (false, p, w)
  unfolding send_tpdo1 send_tpdo
  blocked p w h = let wait : ltb 0 p.tpdo1.inhibit_counter_ms ≡ true = ground arith in rw wait refl

  armed_for :
      (n : ℕ) (p : Pdo) (w : World App)
      → (send_tpdo1 cb p w).0 ≡ true
      → n < p.tpdo1.inhibit_timer_ms
      → IsWaiting p.tpdo1.cob_id p.tpdo2.cob_id n (send_tpdo1 cb p w).1
  unfolding send_tpdo1 send_tpdo
  armed_for n p w sent h = record {
    left = ground (arith, sent, h);
    first = ground arith;
    second = ground arith;
  }

  cooled-IsWaiting :
      (delta_ms n cob1 cob2 : ℕ) (p : Pdo)
      → IsWaiting cob1 cob2 (delta_ms + n) p
      → IsWaiting cob1 cob2 n
          (record p { tpdo1 = cooled delta_ms p.tpdo1; tpdo2 = cooled delta_ms p.tpdo2 })
  unfolding cooled
  cooled-IsWaiting delta_ms n cob1 cob2 p v = record {
    left = ground (arith, v.left);
    first = ground (arith, v.first);
    second = ground (arith, v.second);
  }

  -- The event timer of TPDO1 sends nothing while it waits.
  run_tpdo1-IsWaiting :
      (delta_ms n cob1 cob2 : ℕ) (p : Pdo) (w : World App)
      → IsWaiting cob1 cob2 n p
      → let (q, u) = run_tpdo1 cb delta_ms p w in IsWaiting cob1 cob2 n q × (u ≡ w)
  unfolding run_tpdo1
  run_tpdo1-IsWaiting delta_ms n cob1 cob2 p w v =
      let stays = blocked p w (omega (arith, v.left)) in
      rw (run_tpdo1, stays)
        (
          record {
            left = ground (arith, v.left);
            first = ground (arith, v.first);
            second = ground (arith, v.second);
          },
          ground arith,
        )

  module _ (Q : World App → Type 0) (cob1 cob2 : ℕ) (other : cob2 ≢ cob1)
      (fresh : (w : World App) → Q w → Q (cb.app_sync_inputs w))
      (kept : (frame : Frame) (w : World App)
        → frame.cob_id ≢ cob1
        → Q w
        → Q (transmit cb frame w).1) where
    send_tpdo2-kept :
        (n : ℕ) (p : Pdo) (w : World App)
        → IsWaiting cob1 cob2 n p
        → Q w
        → let (_, q, u) = send_tpdo2 cb p w in IsWaiting cob1 cob2 n q × Q u
    unfolding send_tpdo2 send_tpdo
    send_tpdo2-kept n p w v good =
        let synced = cb.app_sync_inputs w in
        let frame : Frame = record {
          cob_id = p.tpdo2.cob_id;
          payload = analog_payload synced.board_objdict;
        } in
        let out = kept frame synced (rw v.second other) (fresh w good) in
        (
          record {
            left = ground (arith, v.left);
            first = ground (arith, v.first);
            second = ground (arith, v.second);
          },
          ground (arith, good, out),
        )

    run_tpdo2-kept :
        (delta_ms n : ℕ) (p : Pdo) (w : World App)
        → IsWaiting cob1 cob2 n p
        → Q w
        → let (q, u) = run_tpdo2 cb delta_ms p w in IsWaiting cob1 cob2 n q × Q u
    unfolding run_tpdo2
    run_tpdo2-kept delta_ms n p w v good =
        let (sent, out) = send_tpdo2-kept n p w v good in
        (
          record {
            left = ground (arith, v.left, sent.left);
            first = ground (arith, v.first, sent.first);
            second = ground (arith, v.second, sent.second);
          },
          ground (arith, good, out),
        )

    pdo_process-kept :
        (delta_ms n : ℕ) (is_op : Bool) (p : Pdo) (w : World App)
        → IsWaiting cob1 cob2 (delta_ms + n) p
        → Q w
        → let (q, u) = pdo_process cb delta_ms is_op p w in IsWaiting cob1 cob2 n q × Q u
    unfolding pdo_process
    pdo_process-kept delta_ms n is_op p w v good =
        let cool : Pdo = record p {
          tpdo1 = cooled delta_ms p.tpdo1;
          tpdo2 = cooled delta_ms p.tpdo2;
        } in
        let waits = cooled-IsWaiting delta_ms n cob1 cob2 p v in
        let (one, same) = run_tpdo1-IsWaiting delta_ms n cob1 cob2 cool w waits in
        let (p1, w1) = run_tpdo1 cb delta_ms cool w in
        let here : Q w1 = subst Q (sym same) good in
        let two = run_tpdo2-kept delta_ms n p1 w1 one here in
        elim (Bool-cases is_op) [
          | inl e ↦ rw (pdo_process, e) two
          | inr e ↦ rw (pdo_process, e) (waits, good)
        ]

    acted-kept :
        (acts : List Act) (p : Pdo) (w : World App)
        → IsWaiting cob1 cob2 (spent acts) p
        → Q w
        → Q (acted acts p w).1
    acted-kept [] p w v good = good
    acted-kept (process_pdo delta_ms is_op ∷ acts) p w v good =
        let (waits, out) = pdo_process-kept delta_ms (spent acts) is_op p w v good in
        acted-kept acts _ _ waits out
    acted-kept (trigger1 ∷ acts) p w v good =
        let stays = blocked p w (omega (arith, v.left)) in
        subst (λ (r : Bool × Pdo × World App). Q (acted acts r.1 r.2).1) (sym stays)
          (acted-kept acts p w v good)
    acted-kept (trigger2 ∷ acts) p w v good =
        let (waits, out) = send_tpdo2-kept (spent acts) p w v good in acted-kept acts _ _ waits out

  -- No TPDO1 is sent within the inhibit time. After one that was sent, over any calls of
  -- `canopen_pdo_process`, in any NMT state, and any triggers of TPDO1 and TPDO2 by the application,
  -- which together take less than the inhibit time, what the synchronisation of the inputs and the
  -- frames with other COB-IDs keep, is kept: there is no frame with the COB-ID of TPDO1. TPDO2 has
  -- another COB-ID. A SYNC, which ends the inhibit time by intent, is none of these calls.
  pub send_tpdo1-inhibited :
      (Q : World App → Type 0) (acts : List Act) (p : Pdo) (w : World App)
      → ((u : World App) → Q u → Q (cb.app_sync_inputs u))
      → ((frame : Frame) (u : World App)
          → frame.cob_id ≢ p.tpdo1.cob_id
          → Q u
          → Q (transmit cb frame u).1)
      → p.tpdo2.cob_id ≢ p.tpdo1.cob_id
      → let (sent, p', w') = send_tpdo1 cb p w in
        sent ≡ true → spent acts < p.tpdo1.inhibit_timer_ms → Q w' → Q (acted acts p' w').1
  send_tpdo1-inhibited Q acts p w fresh kept other sent soon good =
      let (_, p', w') = send_tpdo1 cb p w in
      acted-kept Q p.tpdo1.cob_id p.tpdo2.cob_id other fresh kept acts p' w'
        (armed_for (spent acts) p w sent soon) good
