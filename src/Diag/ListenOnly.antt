-- ===== src/Diag/ListenOnly.antt =====
-- Listen-only mode.
use stm32_automation_board.Common.{
  ℕ, ◌≤◌, ◌<◌, List, [], ◌∷◌, Bool, true, ◌≡◌, ◌≢◌, ◌⊎◌, arith, length,
}
use stm32_automation_board.Diag.{Diag, diag_process, diag_switch, restart_comm}
use stm32_automation_board.Diag.Broadcast.{sub_of, value_of}

-- In listen-only mode every request but Restart Communications Option changes nothing and is not
-- answered.
pub listen_only_silent :
    (d : Diag) (rx_pdu : List ℕ) (is_broadcast : Bool)
    → d.listen_only ≡ true
    → (length rx_pdu < 5) ⊎ (sub_of rx_pdu ≢ 0x01)
    → diag_process d rx_pdu is_broadcast ≡ (d, [])
unfolding diag_process
listen_only_silent d rx_pdu is_broadcast l h = ground arith

restart_refused :
    (d : Diag) (rx_pdu : List ℕ) (sub value : ℕ) (is_broadcast : Bool)
    → sub ≡ 0x01
    → value ≢ 0x0000
    → value ≢ 0xff00
    → diag_switch d rx_pdu sub value is_broadcast ≡ (d, 0x88 ∷ 0x03 ∷ [])
unfolding diag_switch restart_comm
restart_refused d rx_pdu sub value is_broadcast s p q = ground arith

restart_listening :
    (d : Diag) (rx_pdu : List ℕ) (sub value : ℕ) (is_broadcast : Bool)
    → sub ≡ 0x01
    → d.listen_only ≡ true
    → let (d', reply) = diag_switch d rx_pdu sub value is_broadcast in
      (d'.listen_only ≡ true) ⊎ (((value ≡ 0x0000) ⊎ (value ≡ 0xff00)) × (reply ≡ []))
unfolding diag_switch restart_comm
restart_listening d rx_pdu sub value is_broadcast s l = ground arith

-- A restart whose data word is neither 0x0000 nor 0xFF00 is answered by the exception 03 although
-- the device is in listen-only mode, and leaves it there.
pub listen_only_answers :
    (d : Diag) (rx_pdu : List ℕ) (is_broadcast : Bool)
    → d.listen_only ≡ true
    → 5 ≤ length rx_pdu
    → sub_of rx_pdu ≡ 0x01
    → value_of rx_pdu ≢ 0x0000
    → value_of rx_pdu ≢ 0xff00
    → diag_process d rx_pdu is_broadcast ≡ (d, 0x88 ∷ 0x03 ∷ [])
unfolding diag_process
listen_only_answers d rx_pdu is_broadcast l h s p q =
    ground (arith, restart_refused d rx_pdu (sub_of rx_pdu) (value_of rx_pdu) is_broadcast)

-- Only a restart ends listen-only mode: after a request, a listening device listens on unless the
-- request was a Restart Communications Option that it accepted, and that one is not answered.
pub listen_only_exit :
    (d : Diag) (rx_pdu : List ℕ) (is_broadcast : Bool)
    → d.listen_only ≡ true
    → let (d', reply) = diag_process d rx_pdu is_broadcast in
      (d'.listen_only ≡ true)
      ⊎ ((sub_of rx_pdu ≡ 0x01)
          × ((value_of rx_pdu ≡ 0x0000) ⊎ (value_of rx_pdu ≡ 0xff00))
          × (reply ≡ []))
unfolding diag_process
listen_only_exit d rx_pdu is_broadcast l =
    ground (arith, restart_listening d rx_pdu (sub_of rx_pdu) (value_of rx_pdu) is_broadcast)
