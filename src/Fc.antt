-- ===== src/Fc.antt =====
-- src/modbus.c, `modbus_pdu_process`: one function for each function code. A request PDU is the list
-- of its `rx_pdu_len` bytes; an answer is the list of the bytes `tx_pdu[0 .. pdu_len)`.
pub mod Reads
pub mod Writes
pub mod Files
pub mod Info
pub mod Good
use stm32_automation_board.Common.{
  ℕ, bit_or, List, [], ◌∷◌, Bool, if◌then◌else◌, ◌==◌, leb, ◌||◌, length, get_or,
}
use stm32_automation_board.Common.Word.{be16}
use stm32_automation_board.Server.{Server}

-- The new state and the answer.
abbrev pub Step : Type 0
Step = Server × List ℕ

-- `modbus_exception_response`
unfoldable pub exception_response : ℕ → ℕ → List ℕ
exception_response function_code exception_code = bit_or function_code 0x80 ∷ exception_code ∷ []

-- `start_addr` and `quantity`, parsed from PDUs of five bytes and more.
unfoldable pub start_of : List ℕ → ℕ
start_of rx_pdu = if leb 5 (length rx_pdu) then be16 (get_or rx_pdu 1 0) (get_or rx_pdu 2 0) else 0

unfoldable pub quantity_of : List ℕ → ℕ
quantity_of rx_pdu =
    if leb 5 (length rx_pdu) then be16 (get_or rx_pdu 3 0) (get_or rx_pdu 4 0) else 0

-- `modbus_broadcast_function_supported`
unfoldable pub broadcast_function_supported : ℕ → Bool
broadcast_function_supported fc =
    fc == 0x05 || fc == 0x06 || fc == 0x0f || fc == 0x10 || fc == 0x15 || fc == 0x16 || fc == 0x17
