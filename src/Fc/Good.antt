-- ===== src/Fc/Good.antt =====
-- What every function code owes its caller: a valid state, and an answer of 1 to 253 bytes.
use stm32_automation_board.Common.{ℕ, ◌≤◌, List, arith, length, get_or, All-get_or}
use stm32_automation_board.Common.Bits.{bit_or-bound}
use stm32_automation_board.Common.Word.{IsByte, IsBytes, IsWord, be16, be16-IsWord}
use stm32_automation_board.Server.Valid
use stm32_automation_board.Fc.{Step, exception_response, start_of, quantity_of}

-- The answer is made of bytes, is not empty, and fits a PDU.
pub record IsAnswer (answer : List ℕ) : Type 0 where
  pub bytes : IsBytes answer
  pub some_byte : 1 ≤ length answer
  pub fits : length answer ≤ 253

pub record IsGood (step : Step) : Type 0 where
  pub valid : Valid.IsValid step.0
  pub answer : IsAnswer step.1

pub exception-IsAnswer :
    (fc code : ℕ) → IsByte fc → IsByte code → IsAnswer (exception_response fc code)
unfolding exception_response
exception-IsAnswer fc code h k = record {
  bytes = (bit_or-bound 8 fc 0x80 h (omega arith), (k, tt));
  some_byte = omega arith;
  fits = omega arith;
}

pub IsWord-at :
    (rx_pdu : List ℕ) (i j : ℕ)
    → IsBytes rx_pdu
    → IsWord (be16 (get_or rx_pdu i 0) (get_or rx_pdu j 0))
IsWord-at rx_pdu i j h =
    be16-IsWord _ _ (All-get_or IsByte rx_pdu i 0 h (omega arith))
      (All-get_or IsByte rx_pdu j 0 h (omega arith))

pub IsByte-at : (rx_pdu : List ℕ) (i : ℕ) → IsBytes rx_pdu → IsByte (get_or rx_pdu i 0)
IsByte-at rx_pdu i h = All-get_or IsByte rx_pdu i 0 h (omega arith)

pub start_of-IsWord : (rx_pdu : List ℕ) → IsBytes rx_pdu → IsWord (start_of rx_pdu)
unfolding start_of
start_of-IsWord rx_pdu h = ground (arith, IsWord-at rx_pdu 1 2 h)

pub quantity_of-IsWord : (rx_pdu : List ℕ) → IsBytes rx_pdu → IsWord (quantity_of rx_pdu)
unfolding quantity_of
quantity_of-IsWord rx_pdu h = ground (arith, IsWord-at rx_pdu 3 4 h)
