-- ===== src/Fc/Info.antt =====
-- The function codes 0x11, 0x18 and 0x2B: server ID, FIFO queues and device identification.
pub mod Fifo
pub mod Identity
use stm32_automation_board.Common.{
  ℕ, zero, suc, ◌+◌, ◌-◌, ◌*◌, List, [], ◌∷◌, ◌++◌, Bool, true, false, if◌then◌else◌, ◌==◌, ◌!=◌,
  ltb, leb, ◌&&◌, length, get_or, take, Option, none, some,
}
use stm32_automation_board.Common.Word.{u8, u16, be16, hi8, lo8}
use stm32_automation_board.Server.{Server, fifo_count}
use stm32_automation_board.Fc.{Step, exception_response}
use stm32_automation_board.Fc.Files.{Outcome, refused, finished}
use stm32_automation_board.Fc.Reads.{read_regs}

-- `MODBUS_SERVER_ID`, "STM32-Automation-Board".
abbrev pub server_id : List ℕ
server_id =
    b'S' ∷ b'T' ∷ b'M' ∷ b'3' ∷ b'2' ∷ b'-' ∷ b'A' ∷ b'u' ∷ b't' ∷ b'o' ∷ b'm' ∷ b'a' ∷ b't' ∷ b'i'
    ∷ b'o' ∷ b'n' ∷ b'-' ∷ b'B' ∷ b'o' ∷ b'a' ∷ b'r' ∷ b'd' ∷ []

-- `modbus_report_server_id_process`
unfoldable pub report_server_id : List ℕ → List ℕ
unfolding exception_response
report_server_id rx_pdu =
    if length rx_pdu != 1
    then exception_response 0x11 0x03
    else 0x11 ∷ u8 (u8 (length server_id) + 1) ∷ (server_id ++ 0xff ∷ [])

unfoldable pub read_fifo_queue : Server → ℕ → List ℕ → Step
unfolding exception_response
read_fifo_queue s fc rx_pdu =
    let fifo_addr = be16 (get_or rx_pdu 1 0) (get_or rx_pdu 2 0) in
    let count = get_or s.fifo_len fifo_addr 0 in
    if length rx_pdu != 3
    then (s, exception_response fc 0x03)
    else if leb fifo_count fifo_addr
    then (s, exception_response fc 0x02)
    else (
      s,
      fc
          ∷ 0x00
          ∷ u8 (2 + 2 * count)
          ∷ 0x00
          ∷ count
          ∷ read_regs (get_or s.fifo_store fifo_addr []) count 0,
    )

-- `modbus_devid_vendor`, `modbus_devid_product` and `modbus_devid_version`.
abbrev pub devid_vendor : List ℕ
devid_vendor = b'x' ∷ b'A' ∷ b'I' ∷ []

abbrev pub devid_product : List ℕ
devid_product =
    b'S' ∷ b'T' ∷ b'M' ∷ b'3' ∷ b'2' ∷ b' ' ∷ b'A' ∷ b'u' ∷ b't' ∷ b'o' ∷ b'm' ∷ b'a' ∷ b't' ∷ b'i'
    ∷ b'o' ∷ b'n' ∷ b' ' ∷ b'B' ∷ b'o' ∷ b'a' ∷ b'r' ∷ b'd' ∷ []

abbrev pub devid_version : List ℕ
devid_version = b'1' ∷ b'.' ∷ b'0' ∷ b'.' ∷ b'0' ∷ []

-- `modbus_devid_object_str`: at most 64 characters of the string, or none for the null pointer.
unfoldable pub devid_object : ℕ → Option (List ℕ)
devid_object object_id =
    if object_id == 0x00
    then some (take 64 devid_vendor)
    else if object_id == 0x01
    then some (take 64 devid_product)
    else if object_id == 0x02
    then some (take 64 devid_version)
    else none

-- One object of the answer, behind `gathered`, which is `tx_pdu[7 .. out)`.
unfoldable pub add_object : ℕ → List ℕ → Option (List ℕ) → Outcome (List ℕ)
add_object oid gathered none = refused 0x04
add_object oid gathered (some str) =
    if ltb 253 (7 + length gathered + 2 + length str)
    then refused 0x04
    else finished (gathered ++ oid ∷ length str ∷ str)

-- The loop over `n` objects from `oid` on.
unfoldable pub add_objects : ℕ → ℕ → List ℕ → Outcome (List ℕ)
unfolding add_object devid_object
add_objects zero oid gathered = finished gathered
add_objects (suc n) oid gathered = elim (add_object oid gathered (devid_object oid)) [
  | refused code ↦ refused code
  | finished more ↦ add_objects n (oid + 1) more
]

-- The answer with the objects `first_obj` to `last_obj`.
unfoldable pub devid_answer : ℕ → ℕ → ℕ → ℕ → List ℕ
unfolding exception_response add_objects
devid_answer fc read_dev_id first_obj last_obj =
    let count = u8 (last_obj - first_obj + 1) in
    elim (add_objects count first_obj []) [
      | refused code ↦ exception_response fc code
      | finished objects ↦ fc ∷ 0x0e ∷ read_dev_id ∷ 0x81 ∷ 0x00 ∷ 0x00 ∷ count ∷ objects
    ]

unfoldable pub read_device_id : Server → ℕ → List ℕ → Step
unfolding exception_response
read_device_id s fc rx_pdu =
    let mei_type = get_or rx_pdu 1 0 in
    let read_dev_id = get_or rx_pdu 2 0 in
    let object_id = get_or rx_pdu 3 0 in
    if ltb (length rx_pdu) 4
    then (s, exception_response fc 0x03)
    else if mei_type != 0x0e
    then (s, exception_response fc 0x01)
    else if read_dev_id != 0x01 && read_dev_id != 0x02 && read_dev_id != 0x03 && read_dev_id != 0x04
    then (s, exception_response fc 0x03)
    else if read_dev_id == 0x04
    then (if ltb 2 object_id
        then (s, exception_response fc 0x02)
        else (s, devid_answer fc read_dev_id object_id object_id))
    else (s, devid_answer fc read_dev_id (if leb object_id 2 then object_id else 0) 2)
