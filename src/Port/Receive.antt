-- ===== src/Port/Receive.antt =====
-- src/modbus_master_rtu.c: the wait for an answer, over any interrupts and with a yield callback.
use stm32_automation_board.Common.{
  ℕ, ◌+◌, ◌-◌, ◌≤◌, ◌^◌, List, [], ◌∷◌, Bool, true, false, ◌==◌, ltb, ◌&&◌, ◌||◌, not, ◌≡◌, ◌⊎◌,
  length,
}
use stm32_automation_board.Common.Word.{u32}
use stm32_automation_board.Server.{Server}
use stm32_automation_board.Rtu.{Status, status_ok, status_timeout}
use stm32_automation_board.Port.{Port, Round}

-- A port while a transaction is armed: a frame that is announced is not empty, and the server has
-- the property `Q`.
pub record IsArmed {Wire : Type 0} (Q : Server → Type 0) (p : Port Wire) : Type 0 where
  pub waiting : p.waiting ≡ true
  pub latched : (p.frame_ready && length p.frame == 0) ≡ false
  pub server : Q p.server

-- What a wait gives: a frame that fits the room, or a timeout.
pub record IsHeard {Wire : Type 0} (Q : Server → Type 0) (max_len : ℕ)
    (result : Status × List ℕ × Port Wire) : Type 0 where
  pub outcome :
      ((result.0 ≡ status_ok) × (1 ≤ length result.1) × (length result.1 ≤ max_len))
      ⊎ ((result.0 ≡ status_timeout) × (result.1 ≡ []))
  pub armed : IsArmed Q result.2

-- Whether the clock reaches the timeout in one of the passes.
abbrev pub late : ℕ → ℕ → List Round → Bool
late start timeout_ms [] = false
late start timeout_ms (r ∷ rounds) =
    not (ltb (u32 (r.now + 2 ^ 32 - start)) timeout_ms) || late start timeout_ms rounds
