-- ===== src/Master/Registers.antt =====
-- Requests for registers as the master builds them, and what the station's dispatcher makes of them.
use stm32_automation_board.Common.{
  ℕ, zero, suc, ◌+◌, ◌*◌, ◌≤◌, ◌<◌, List, [], ◌∷◌, false, ltb, ◌||◌, ◌≡◌, refl, ap, arith, inl,
  get_or, get_or-append_right, All-get_or,
}
use stm32_automation_board.Common.Word.{
  u8, u16, hi8, lo8, IsByte, IsWord, IsBytes, IsWords, hi8-IsByte, lo8-IsByte, be16-hi8-lo8,
}
use stm32_automation_board.Store.{max_registers}
use stm32_automation_board.Store.Regs.{IsRegTable}
use stm32_automation_board.Server.{Server, Hooks, sync_registers}
use stm32_automation_board.Fc.{start_of, quantity_of}
use stm32_automation_board.Fc.Reads.{read_regs}
use stm32_automation_board.Fc.Reads.Regs.{
  AsksRegs, read_registers_accepted, length-read_regs, read_regs-IsBytes, get_or-read_regs,
}
use stm32_automation_board.Fc.Writes.{echo_five, write_regs}
use stm32_automation_board.Fc.Writes.Regs.{
  IsRegsWritten, WritesRegs, requested_reg, write_multiple_registers_lem,
}
use stm32_automation_board.Pdu.{pdu_switch}
use stm32_automation_board.Master.Build.{
  put_u16_be, put_regs, build_read, build_write_multiple_registers,
}
use stm32_automation_board.Master.Request.{answer_of}

-- The loop of the builders writes what the loop of the server reads.
pub put_regs_lem : (regs : List ℕ) (n i : ℕ) → put_regs regs n i ≡ read_regs regs n i
unfolding put_regs read_regs put_u16_be
put_regs_lem regs zero i = refl
put_regs_lem regs (suc n) i =
    let hi = hi8 (get_or regs i 0) in
    let lo = lo8 (get_or regs i 0) in
    ap (λ (rest : List ℕ). hi ∷ lo ∷ rest) (put_regs_lem regs n (i + 1))

pub build_read-AsksRegs :
    (fc start quantity : ℕ)
    → 1 ≤ quantity
    → quantity ≤ 125
    → start + quantity ≤ max_registers
    → AsksRegs (build_read fc start quantity 5) start quantity
unfolding build_read put_u16_be start_of quantity_of
build_read-AsksRegs fc start quantity one most fits = record {
  size = refl;
  start_word = be16-hi8-lo8 start (omega arith);
  quantity_word = be16-hi8-lo8 quantity (omega arith);
  some_reg = one;
  at_most = most;
  in_table = fits;
}

pub build_read-IsBytes :
    (fc start quantity : ℕ) → IsByte fc → IsBytes (build_read fc start quantity 5)
unfolding build_read put_u16_be
build_read-IsBytes fc start quantity h =
    (h, (hi8-IsByte start, (lo8-IsByte start, (hi8-IsByte quantity, (lo8-IsByte quantity, tt)))))

pub build_write_multiple_registers-WritesRegs :
    (start quantity : ℕ) (regs : List ℕ)
    → 1 ≤ quantity
    → quantity ≤ 123
    → start + quantity ≤ max_registers
    → WritesRegs (build_write_multiple_registers start quantity regs 256) start quantity
unfolding build_write_multiple_registers put_u16_be start_of quantity_of
build_write_multiple_registers-WritesRegs start quantity regs one most fits =
    let range : (ltb quantity 1 || ltb 123 quantity) ≡ false = ground arith in
    let room : ltb 256 (u16 (6 + u8 (quantity * 2))) ≡ false = ground arith in
    let count : u8 (quantity * 2) ≡ quantity * 2 = omega arith in
    let bytes = read_regs-IsBytes regs quantity 0 in
    rw (range, room, count, put_regs_lem regs quantity 0)
      (record {
        bytes = (
          omega arith,
          (
            hi8-IsByte start,
            (lo8-IsByte start, (hi8-IsByte quantity, (lo8-IsByte quantity, (omega arith, bytes)))),
          ),
        );
        start_word = ground (arith, be16-hi8-lo8 start (omega arith));
        quantity_word = ground (arith, be16-hi8-lo8 quantity (omega arith));
        some_reg = one;
        at_most = most;
        in_table = fits;
        byte_count = refl;
        size = omega (arith, length-read_regs regs quantity 0);
      })

-- The registers that such a request carries.
pub requested_reg-build :
    (start quantity : ℕ) (regs : List ℕ) (k : ℕ)
    → IsWords regs
    → 1 ≤ quantity
    → quantity ≤ 123
    → k < quantity
    → requested_reg (build_write_multiple_registers start quantity regs 256) 6 k ≡ get_or regs k 0
unfolding build_write_multiple_registers put_u16_be
requested_reg-build start quantity regs k words one most h =
    let range : (ltb quantity 1 || ltb 123 quantity) ≡ false = ground arith in
    let room : ltb 256 (u16 (6 + u8 (quantity * 2))) ≡ false = ground arith in
    let rest = read_regs regs quantity 0 in
    let head : List ℕ =
      0x10 ∷ hi8 start ∷ lo8 start ∷ hi8 quantity ∷ lo8 quantity ∷ u8 (quantity * 2) ∷ [] in
    let (hi, lo) = get_or-read_regs regs quantity 0 k h in
    let here : 0 + k ≡ k = omega arith in
    rw
      (
        range,
        room,
        put_regs_lem regs quantity 0,
        get_or-append_right head rest (6 + k * 2) (k * 2) 0 (omega arith),
        get_or-append_right head rest (6 + k * 2 + 1) (k * 2 + 1) 0 (omega arith),
        hi,
        lo,
        here,
      )
      (be16-hi8-lo8 (get_or regs k 0) (All-get_or IsWord regs k 0 words (omega arith)))

-- The station's dispatcher on such a request.
pub answer_of-build_read :
    (hooks : Hooks) (s : Server) (start quantity : ℕ)
    → 1 ≤ quantity
    → quantity ≤ 125
    → start + quantity ≤ max_registers
    → let a = answer_of hooks s (build_read 0x03 start quantity 5) in
      (a.server ≡ s)
      × (a.built ≡ 0x03 ∷ u8 (quantity * 2) ∷ read_regs s.holding_regs quantity start)
unfolding pdu_switch
answer_of-build_read hooks s start quantity one most fits =
    let req = build_read 0x03 start quantity 5 in
    let asks = build_read-AsksRegs 0x03 start quantity one most fits in
    let code : get_or req 0 0 ≡ 0x03 = unfold build_read in refl in
    rw (code, read_registers_accepted s 0x03 req start quantity (inl refl) asks) (refl, refl)

pub build_write_code :
    (start quantity : ℕ) (regs : List ℕ)
    → 1 ≤ quantity
    → quantity ≤ 123
    → get_or (build_write_multiple_registers start quantity regs 256) 0 0 ≡ 0x10
unfolding build_write_multiple_registers
build_write_code start quantity regs one most = ground arith

-- The station's dispatcher on a request to write registers: it echoes the request, and the sync of
-- the board runs on a table that holds them.
pub answer_of-build_write :
    (hooks : Hooks) (s : Server) (start quantity : ℕ) (regs : List ℕ)
    → IsRegTable s.holding_regs
    → 1 ≤ quantity
    → quantity ≤ 123
    → start + quantity ≤ max_registers
    → let req = build_write_multiple_registers start quantity regs 256 in
      let a = answer_of hooks s req in
      let table = write_regs req 6 start quantity 0 s.holding_regs in
      (a.server ≡ sync_registers hooks (record s { holding_regs = table }))
      × (a.built ≡ echo_five 0x10 req)
      × IsRegsWritten req 6 start quantity s.holding_regs table
unfolding pdu_switch
answer_of-build_write hooks s start quantity regs v one most fits =
    let req = build_write_multiple_registers start quantity regs 256 in
    let writes = build_write_multiple_registers-WritesRegs start quantity regs one most fits in
    let code = build_write_code start quantity regs one most in
    let (done, table) = write_multiple_registers_lem hooks s 0x10 req start quantity v writes in
    rw (code, done) (refl, refl, table)
