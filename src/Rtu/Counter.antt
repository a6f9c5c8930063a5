-- ===== src/Rtu/Counter.antt =====
-- What a served request does to the counters.
use stm32_automation_board.Common.{ℕ, ◌+◌, Bool, if◌then◌else◌, ◌!=◌, ◌&&◌, ◌≡◌}
use stm32_automation_board.Common.Word.{u16}
use stm32_automation_board.Event.{Event}
use stm32_automation_board.Diag.{Diag}
use stm32_automation_board.Server.{Server, Hooks, sync_registers}
use stm32_automation_board.Server.Valid

-- The application's callback leaves the diagnostic state alone.
abbrev pub KeepsDiag : Hooks → Type 0
KeepsDiag hooks = (s : Server) → (sync_registers hooks s).diag ≡ s.diag

-- The counters after a request that was answered, by an exception if `raised`.
pub record IsCounted (before after : Diag) (raised : Bool) : Type 0 where
  pub events :
      after.event.counter
      ≡ (if raised then before.event.counter else u16 (before.event.counter + 1))
  pub exceptions :
      after.exception_error_count
      ≡ (if raised then u16 (before.exception_error_count + 1) else before.exception_error_count)
  pub unanswered : after.slave_no_response_count ≡ before.slave_no_response_count

-- The function codes that this module does not intercept.
abbrev pub is_shared : ℕ → Bool
is_shared fc = fc != 0x08 && fc != 0x0b && fc != 0x0c && fc != 0x11
