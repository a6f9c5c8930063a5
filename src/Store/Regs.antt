-- ===== src/Store/Regs.antt =====
-- The register tables and the range check.
use stm32_automation_board.Common.{
  ℕ, ◌+◌, ◌≤◌, ◌<◌, List, true, if◌then◌else◌, ◌==◌, ◌≡◌, ◌↔◌, arith, get_or, length, length-set,
  get_or-set_self, get_or-set_ne, All-set, All-get_or,
}
use stm32_automation_board.Common.Word.{IsWord, IsWords}
use stm32_automation_board.Store.{max_registers, regs_write, address_range_valid}

-- A table of 256 registers.
pub record IsRegTable (regs : List ℕ) : Type 0 where
  pub size : length regs ≡ max_registers
  pub words : IsWords regs

pub regs_write-IsRegTable :
    (regs : List ℕ) (addr value : ℕ)
    → IsWord value
    → IsRegTable regs
    → IsRegTable (regs_write regs addr value)
unfolding regs_write
regs_write-IsRegTable regs addr value h v =
    ground (arith, length-set regs addr value, All-set IsWord regs addr value v.words h)

pub reg_at : (regs : List ℕ) (i : ℕ) → IsRegTable regs → IsWord (get_or regs i 0)
reg_at regs i v = All-get_or IsWord regs i 0 v.words (omega arith)

-- A written register is read back, and every other register is as before.
pub get_or-regs_write :
    (regs : List ℕ) (a value b : ℕ)
    → IsRegTable regs
    → a < max_registers
    → get_or (regs_write regs a value) b 0 ≡ (if a == b then value else get_or regs b 0)
unfolding regs_write
get_or-regs_write regs a value b v h = ground (
  arith,
  v.size,
  get_or-set_self regs a value 0 (omega (arith, v.size)),
  get_or-set_ne regs a b value 0,
)

-- The range check passes exactly when the range lies in the table, and the table has its start.
pub address_range_valid_iff :
    (start quantity size : ℕ)
    → (address_range_valid start quantity size ≡ true)
      ↔ ((start < size) × (start + quantity ≤ size))
unfolding address_range_valid
address_range_valid_iff start quantity size = ground arith
