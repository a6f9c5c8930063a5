-- ===== src/Framer/Timeouts.antt =====
-- The inter-character and inter-frame timeouts.
use stm32_automation_board.Common.{ℕ, ◌+◌, ◌-◌, ◌*◌, ◌≤◌, ◌<◌, ◌≡◌, arith}
use stm32_automation_board.Common.Word.{u32}
use native.Mathlib.Nat.{le-div_iff_mul-le, div-le_of_le-mul}
use stm32_automation_board.Framer.{t15_fixed, t35_fixed, char_time, rtu_timeouts_us}

char_time_bounds :
    (baud : ℕ) → 1 ≤ baud → baud ≤ 19200 → (573 ≤ char_time baud) × (char_time baud ≤ 11000000)
unfolding char_time
char_time_bounds baud one small =
    let n : u32 (11 * 1000000 + baud - 1) ≡ 11000000 + baud - 1 = omega arith in
    rw n ((le-div_iff_mul-le one).1 (omega arith), div-le_of_le-mul baud (omega arith))

-- For every baud rate, T1.5 is at least 750 microseconds, T3.5 at least 1750, and T1.5 is the
-- shorter one: a gap inside a frame is told from the end of the frame.
pub rtu_timeouts_us_bounds :
    (baudrate : ℕ)
    → let (t15, t35) = rtu_timeouts_us baudrate in
      (t15_fixed ≤ t15) × (t35_fixed ≤ t35) × (t15 < t35)
unfolding rtu_timeouts_us
rtu_timeouts_us_bounds baudrate =
    ground (arith, char_time_bounds baudrate, char_time_bounds 9600 (omega arith) (omega arith))
