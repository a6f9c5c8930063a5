-- ===== src/Fc/Writes/Mask.antt =====
-- The function code 0x16: the bits of the register that a mask write leaves.
use stm32_automation_board.Common.{
  ℕ, ◌-◌, ◌^◌, ◌<◌, bit_and, bit_or, List, if◌then◌else◌, ◌==◌, ◌!=◌, ◌≡◌, arith, length, get_or,
  take_all,
}
use stm32_automation_board.Common.Bits.{
  bit, bit-bit_and, bit-bit_or, bit_complement, bit_and-le, bit_or-bound,
}
use stm32_automation_board.Common.Word.{u16, be16, IsBytes, IsWord}
use stm32_automation_board.Store.{max_registers, regs_write}
use stm32_automation_board.Store.Regs.{get_or-regs_write, reg_at}
use stm32_automation_board.Server.{Server, Hooks, sync_registers}
use stm32_automation_board.Server.Valid
use stm32_automation_board.Fc.{start_of}
use stm32_automation_board.Fc.Good.{IsWord-at}
use stm32_automation_board.Fc.Writes.{mask_result, mask_write_register}

-- `~and_mask` in 16 bits.
complement : (a : ℕ) → IsWord a → u16 (2 ^ 32 - 1 - a) ≡ 2 ^ 16 - 1 - a
complement a h = omega arith

mask_result-eq :
    (cur a o : ℕ)
    → IsWord cur
    → IsWord a
    → IsWord o
    → mask_result cur a o ≡ bit_or (bit_and cur a) (bit_and o (2 ^ 16 - 1 - a))
unfolding mask_result
mask_result-eq cur a o hc ha ho = rw (complement a ha) (
    omega (
      arith,
      bit_and-le cur a,
      bit_and-le o (2 ^ 16 - 1 - a),
      bit_or-bound 16 (bit_and cur a) (bit_and o (2 ^ 16 - 1 - a)),
    ))

-- A bit of the and-mask keeps the register's bit, and a cleared one takes the or-mask's.
pub mask_result_bits :
    (cur a o j : ℕ)
    → IsWord cur
    → IsWord a
    → IsWord o
    → j < 16
    → bit (mask_result cur a o) j ≡ (if bit a j == 1 then bit cur j else bit o j)
mask_result_bits cur a o j hc ha ho h = rw (mask_result-eq cur a o hc ha ho) (
    ground (
      arith,
      bit-bit_or j (bit_and cur a) (bit_and o (2 ^ 16 - 1 - a)),
      bit-bit_and j cur a,
      bit-bit_and j o (2 ^ 16 - 1 - a),
      bit_complement 16 j a ha h,
    ))

-- Mask Write Register: a request of seven bytes for a register of the table is echoed, and the
-- sync of the board runs on the state in which that register, and no other, is changed: each of
-- its 16 bits is kept where the and-mask has a 1, and is the or-mask's where it has a 0.
pub mask_write_register_lem :
    (hooks : Hooks) (s : Server) (fc : ℕ) (rx_pdu : List ℕ) (r j : ℕ)
    → Valid.IsValid s
    → IsBytes rx_pdu
    → length rx_pdu ≡ 7
    → start_of rx_pdu < max_registers
    → j < 16
    → let start = start_of rx_pdu in
      let cur = get_or s.holding_regs start 0 in
      let and_mask = be16 (get_or rx_pdu 3 0) (get_or rx_pdu 4 0) in
      let or_mask = be16 (get_or rx_pdu 5 0) (get_or rx_pdu 6 0) in
      let regs = regs_write s.holding_regs start (mask_result cur and_mask or_mask) in
      (mask_write_register hooks s fc rx_pdu
        ≡ (sync_registers hooks (record s { holding_regs = regs }), rx_pdu))
      × (bit (get_or regs r 0) j ≡ (
          if start != r
          then bit (get_or s.holding_regs r 0) j
          else if bit and_mask j == 1
          then bit cur j
          else bit or_mask j))
unfolding mask_write_register
mask_write_register_lem hooks s fc rx_pdu r j v b size h hj =
    let start = start_of rx_pdu in
    let cur = get_or s.holding_regs start 0 in
    let a = be16 (get_or rx_pdu 3 0) (get_or rx_pdu 4 0) in
    let o = be16 (get_or rx_pdu 5 0) (get_or rx_pdu 6 0) in
    (
      ground (arith, take_all 7 rx_pdu (omega arith)),
      ground (
        arith,
        get_or-regs_write s.holding_regs start (mask_result cur a o) r v.holding h,
        mask_result_bits cur a o j (reg_at s.holding_regs start v.holding) (IsWord-at rx_pdu 3 4 b)
            (IsWord-at rx_pdu 5 6 b) hj,
      ),
    )
