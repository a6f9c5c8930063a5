-- ===== src/Fc/Writes.antt =====
-- The function codes 0x05, 0x06, 0x0F, 0x10, 0x16 and 0x17, which write coils and registers.
pub mod Coils
pub mod Regs
pub mod Valid
pub mod Mask
use stm32_automation_board.Common.{
  ℕ, zero, suc, ◌+◌, ◌-◌, ◌*◌, ◌/◌, ◌%◌, ◌^◌, bit_and, bit_or, List, [], ◌∷◌, if◌then◌else◌, ◌==◌,
  ◌!=◌, ltb, ◌&&◌, ◌||◌, not, length, get_or, take,
}
use stm32_automation_board.Common.Loops.{for_range}
use stm32_automation_board.Common.Word.{u8, u16, be16}
use stm32_automation_board.Store.{
  max_coils, max_registers, bit_write, regs_write, address_range_valid,
}
use stm32_automation_board.Server.{Server, Hooks, sync_registers}
use stm32_automation_board.Fc.{Step, exception_response, start_of, quantity_of}
use stm32_automation_board.Fc.Reads.{read_regs}

-- The function code and the four request bytes behind it.
abbrev pub echo_five : ℕ → List ℕ → List ℕ
echo_five fc rx_pdu =
    fc ∷ get_or rx_pdu 1 0 ∷ get_or rx_pdu 2 0 ∷ get_or rx_pdu 3 0 ∷ get_or rx_pdu 4 0 ∷ []

unfoldable pub write_single_coil : Hooks → Server → ℕ → List ℕ → Step
unfolding exception_response address_range_valid
write_single_coil hooks s fc rx_pdu =
    let start = start_of rx_pdu in
    let quantity = quantity_of rx_pdu in
    if length rx_pdu != 5
    then (s, exception_response fc 0x03)
    else if quantity != 0xff00 && quantity != 0x0000
    then (s, exception_response fc 0x03)
    else if not (address_range_valid start 1 max_coils)
    then (s, exception_response fc 0x02)
    else let coil_val = if quantity == 0xff00 then 1 else 0 in
      (
        sync_registers hooks (record s { coil_bits = bit_write s.coil_bits start coil_val }),
        echo_five fc rx_pdu,
      )

unfoldable pub write_single_register : Hooks → Server → ℕ → List ℕ → Step
unfolding exception_response address_range_valid
write_single_register hooks s fc rx_pdu =
    let start = start_of rx_pdu in
    let quantity = quantity_of rx_pdu in
    if length rx_pdu != 5
    then (s, exception_response fc 0x03)
    else if not (address_range_valid start 1 max_registers)
    then (s, exception_response fc 0x02)
    else (
      sync_registers hooks (record s { holding_regs = regs_write s.holding_regs start quantity }),
      echo_five fc rx_pdu,
    )

-- The loop of 0x0F: `n` coils from number `i` of the request on.
unfoldable pub write_coils : List ℕ → ℕ → ℕ → ℕ → List ℕ → List ℕ
write_coils rx_pdu start n i coils =
    for_range n i
      (λ i coils.
        bit_write coils (u16 (start + i)) (bit_and (get_or rx_pdu (6 + i / 8) 0 / 2 ^ (i % 8)) 1))
      coils

unfoldable pub write_multiple_coils : Hooks → Server → ℕ → List ℕ → Step
unfolding exception_response address_range_valid
write_multiple_coils hooks s fc rx_pdu =
    let start = start_of rx_pdu in
    let quantity = quantity_of rx_pdu in
    let byte_count = get_or rx_pdu 5 0 in
    if ltb (length rx_pdu) 6
    then (s, exception_response fc 0x03)
    else if ltb quantity 1 || ltb 1968 quantity
    then (s, exception_response fc 0x03)
    else if not (address_range_valid start quantity max_coils)
    then (s, exception_response fc 0x02)
    else if byte_count != u8 ((quantity + 7) / 8) || length rx_pdu != u16 (6 + byte_count)
    then (s, exception_response fc 0x03)
    else (
      sync_registers hooks
          (record s { coil_bits = write_coils rx_pdu start quantity 0 s.coil_bits }),
      echo_five fc rx_pdu,
    )

-- The loops of 0x10 and 0x17: `n` registers from number `i` on, whose bytes begin at `off`.
unfoldable pub write_regs : List ℕ → ℕ → ℕ → ℕ → ℕ → List ℕ → List ℕ
write_regs rx_pdu off start n i regs =
    for_range n i
      (λ i regs.
        regs_write regs (u16 (start + i))
          (be16 (get_or rx_pdu (off + i * 2) 0) (get_or rx_pdu (off + i * 2 + 1) 0)))
      regs

unfoldable pub write_multiple_registers : Hooks → Server → ℕ → List ℕ → Step
unfolding exception_response address_range_valid
write_multiple_registers hooks s fc rx_pdu =
    let start = start_of rx_pdu in
    let quantity = quantity_of rx_pdu in
    let byte_count = get_or rx_pdu 5 0 in
    if ltb (length rx_pdu) 6
    then (s, exception_response fc 0x03)
    else if ltb quantity 1 || ltb 123 quantity
    then (s, exception_response fc 0x03)
    else if not (address_range_valid start quantity max_registers)
    then (s, exception_response fc 0x02)
    else if byte_count != quantity * 2 || length rx_pdu != u16 (6 + byte_count)
    then (s, exception_response fc 0x03)
    else (
      sync_registers hooks
          (record s { holding_regs = write_regs rx_pdu 6 start quantity 0 s.holding_regs }),
      echo_five fc rx_pdu,
    )

-- `(cur & and_mask) | (or_mask & ~and_mask)` in 16 bits.
unfoldable pub mask_result : ℕ → ℕ → ℕ → ℕ
mask_result cur and_mask or_mask =
    u16 (bit_or (bit_and cur and_mask) (bit_and or_mask (u16 (2 ^ 32 - 1 - and_mask))))

unfoldable pub mask_write_register : Hooks → Server → ℕ → List ℕ → Step
unfolding exception_response address_range_valid mask_result
mask_write_register hooks s fc rx_pdu =
    let start = start_of rx_pdu in
    let and_mask = be16 (get_or rx_pdu 3 0) (get_or rx_pdu 4 0) in
    let or_mask = be16 (get_or rx_pdu 5 0) (get_or rx_pdu 6 0) in
    if length rx_pdu != 7
    then (s, exception_response fc 0x03)
    else if not (address_range_valid start 1 max_registers)
    then (s, exception_response fc 0x02)
    else let result = mask_result (get_or s.holding_regs start 0) and_mask or_mask in
      (
        sync_registers hooks (record s { holding_regs = regs_write s.holding_regs start result }),
        take 7 rx_pdu,
      )

-- 0x17: the write is done first.
unfoldable pub read_write_registers : Hooks → Server → ℕ → List ℕ → Step
unfolding exception_response address_range_valid
read_write_registers hooks s fc rx_pdu =
    let read_start = be16 (get_or rx_pdu 1 0) (get_or rx_pdu 2 0) in
    let read_qty = be16 (get_or rx_pdu 3 0) (get_or rx_pdu 4 0) in
    let write_start = be16 (get_or rx_pdu 5 0) (get_or rx_pdu 6 0) in
    let write_qty = be16 (get_or rx_pdu 7 0) (get_or rx_pdu 8 0) in
    let write_bc = get_or rx_pdu 9 0 in
    if ltb (length rx_pdu) 10
    then (s, exception_response fc 0x03)
    else if ltb read_qty 1
        || ltb 0x7d read_qty
        || ltb write_qty 1
        || ltb 0x79 write_qty
        || write_bc != u8 (write_qty * 2)
        || length rx_pdu != u16 (10 + write_bc)
    then (s, exception_response fc 0x03)
    else if not (address_range_valid read_start read_qty max_registers)
        || not (address_range_valid write_start write_qty max_registers)
    then (s, exception_response fc 0x02)
    else let r =
        sync_registers hooks (record s {
          holding_regs = write_regs rx_pdu 10 write_start write_qty 0 s.holding_regs;
        }) in
      (r, fc ∷ u8 (read_qty * 2) ∷ read_regs r.holding_regs read_qty read_start)
