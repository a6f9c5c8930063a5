-- ===== src/Diag/Broadcast.antt =====
-- What a broadcast request of function code 0x08 is answered.
use stm32_automation_board.Common.{
  ℕ, ◌≤◌, ◌<◌, List, [], ◌∷◌, Bool, true, false, if◌then◌else◌, ◌==◌, ◌||◌, ◌≡◌, ◌⊎◌, arith, length,
  get_or,
}
use stm32_automation_board.Common.Word.{be16}
use stm32_automation_board.Diag.{
  Diag, diag_process, diag_switch, restart_comm, force_listen_only, clear_counters_sub,
  diag_exception, diag_broadcast_eligible, exc_illegal_data_value,
}

-- The sub-function and the data word of a request.
abbrev pub sub_of : List ℕ → ℕ
sub_of rx_pdu = be16 (get_or rx_pdu 1 0) (get_or rx_pdu 2 0)

abbrev pub value_of : List ℕ → ℕ
value_of rx_pdu = be16 (get_or rx_pdu 3 0) (get_or rx_pdu 4 0)

-- The data words of a request: 0x0000 or 0xFF00 to restart, 0x0000 to force listen-only mode and to
-- clear the counters, and any for the other sub-functions.
abbrev pub value_allowed : ℕ → ℕ → Bool
value_allowed sub value =
    if sub == 0x01
    then value == 0x0000 || value == 0xff00
    else if sub == 0x04 || sub == 0x0a
    then value == 0x0000
    else true

restart_comm_broadcast :
    (d : Diag) (rx_pdu : List ℕ) (value : ℕ)
    → (restart_comm d rx_pdu value true).1
      ≡ (if value_allowed 1 value then [] else diag_exception exc_illegal_data_value)
unfolding restart_comm
restart_comm_broadcast d rx_pdu value = ground arith

force_listen_only_broadcast :
    (d : Diag) (value : ℕ)
    → (force_listen_only d value).1
      ≡ (if value_allowed 4 value then [] else diag_exception exc_illegal_data_value)
unfolding force_listen_only
force_listen_only_broadcast d value = ground arith

clear_counters_sub_broadcast :
    (d : Diag) (rx_pdu : List ℕ) (value : ℕ)
    → (clear_counters_sub d rx_pdu value true).1
      ≡ (if value_allowed 10 value then [] else diag_exception exc_illegal_data_value)
unfolding clear_counters_sub
clear_counters_sub_broadcast d rx_pdu value = ground arith

diag_switch_broadcast :
    (d : Diag) (rx_pdu : List ℕ) (sub value : ℕ)
    → diag_broadcast_eligible sub ≡ true
    → (diag_switch d rx_pdu sub value true).1
      ≡ (if value_allowed sub value then [] else diag_exception exc_illegal_data_value)
unfolding diag_switch diag_broadcast_eligible
diag_switch_broadcast d rx_pdu sub value h = ground (
  arith,
  restart_comm_broadcast d rx_pdu value,
  force_listen_only_broadcast d value,
  clear_counters_sub_broadcast d rx_pdu value,
)

-- A well-formed broadcast is not answered: five bytes at least, and a data word that its
-- sub-function takes, which is any where the sub-function is none for broadcasts.
pub diag_process-broadcast_silent :
    (d : Diag) (rx_pdu : List ℕ)
    → 5 ≤ length rx_pdu
    → value_allowed (sub_of rx_pdu) (value_of rx_pdu) ≡ true
    → (diag_process d rx_pdu true).1 ≡ []
unfolding diag_process diag_broadcast_eligible
diag_process-broadcast_silent d rx_pdu h ok =
    ground (arith, diag_switch_broadcast d rx_pdu (sub_of rx_pdu) (value_of rx_pdu))

-- A broadcast is answered by the exception 03, outside listen-only mode, when it is shorter than
-- five bytes, or when it restarts, forces listen-only mode or clears the counters with a data word
-- that this sub-function does not take.
pub diag_process-broadcast_answered :
    (d : Diag) (rx_pdu : List ℕ)
    → d.listen_only ≡ false
    → (length rx_pdu < 5) ⊎ (value_allowed (sub_of rx_pdu) (value_of rx_pdu) ≡ false)
    → (diag_process d rx_pdu true).1 ≡ 0x88 ∷ 0x03 ∷ []
unfolding diag_process diag_broadcast_eligible
diag_process-broadcast_answered d rx_pdu l h =
    ground (arith, diag_switch_broadcast d rx_pdu (sub_of rx_pdu) (value_of rx_pdu))
