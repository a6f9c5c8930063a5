-- ===== src/Master/Broadcast.antt =====
-- A request of the master to address 0, at a station.
use stm32_automation_board.Common.{
  ℕ, ◌+◌, ◌-◌, ◌≤◌, List, [], true, false, if◌then◌else◌, ◌!=◌, ltb, leb, ◌&&◌, ◌||◌, ◌≡◌, refl,
  ◌∙◌, arith, length, get_or, some,
}
use stm32_automation_board.Common.Word.{IsBytes, IsWords}
use stm32_automation_board.Store.{max_registers}
use stm32_automation_board.Server.{Server, Hooks, sync_registers}
use stm32_automation_board.Store.Regs.{IsRegTable}
use stm32_automation_board.Fc.{broadcast_function_supported}
use stm32_automation_board.Fc.Writes.{write_regs}
use stm32_automation_board.Pdu.{Answer, pdu_process}
use stm32_automation_board.Rtu.{rtu_frame, rtu_frame_max, rtu_dispatch, rtu_process, rtu_serve}
use stm32_automation_board.Rtu.Frame.{rtu_frame-IsFrame}
use stm32_automation_board.Rtu.Reject.{IsUntouched, serve_answer, finish_silent, finish-IsUntouched}
use stm32_automation_board.Master.Build.{build_write_multiple_registers, master_rtu_frame}
use stm32_automation_board.Master.Wire.{addressed, master_rtu_frame_lem, pdu_of-rtu_frame}
use stm32_automation_board.Master.Request.{answer_of, listen_only-addressed}
use stm32_automation_board.Master.Registers.{
  build_write_multiple_registers-WritesRegs, build_write_code, answer_of-build_write,
  requested_reg-build,
}

-- A station serves the PDU of a frame for the address 0, whatever its own is.
rtu_process-broadcast_frame :
    (hooks : Hooks) (s : Server) (pdu : List ℕ)
    → IsBytes pdu
    → 1 ≤ length pdu
    → length pdu ≤ 253
    → rtu_process hooks s (rtu_frame 0 pdu) ≡ rtu_serve hooks (addressed s) pdu true
unfolding rtu_process
rtu_process-broadcast_frame hooks s pdu b one most =
    let f = rtu_frame-IsFrame 0 pdu (omega arith) b one most in
    let size : (ltb (length (rtu_frame 0 pdu)) 4 || ltb rtu_frame_max (length (rtu_frame 0 pdu)))
        ≡ false =
      ground (arith, f.at_least, f.at_most) in
    let for_all : (0 != s.slave_id && 0 != 0) ≡ false = ground arith in
    rw (size, f.intact, f.address, for_all, pdu_of-rtu_frame 0 pdu) refl

dispatch_broadcast :
    (hooks : Hooks) (s : Server) (pdu : List ℕ)
    → s.diag.listen_only ≡ false
    → 1 ≤ length pdu
    → get_or pdu 0 0 ≡ 0x10
    → let a = answer_of hooks s pdu in
      rtu_dispatch hooks s pdu true
      ≡ some (record { server = a.server; built = a.built; tx_pdu_len = 0 })
unfolding rtu_dispatch pdu_process broadcast_function_supported
dispatch_broadcast hooks s pdu talks one code = ground (arith, talks, one, code)

-- The master's request to write registers, 1 to 123 that fit the table, in a frame for the address 0,
-- writes them at any station outside listen-only mode: it answers nothing, the sync runs on the tables
-- in which exactly the registers of the range are those of the request, and else only the diagnostic
-- state changes.
pub rtu_process-broadcast_write :
    (hooks : Hooks) (s : Server) (start quantity : ℕ) (regs : List ℕ) (b : ℕ)
    → IsRegTable s.holding_regs
    → s.diag.listen_only ≡ false
    → IsWords regs
    → 1 ≤ quantity
    → quantity ≤ 123
    → start + quantity ≤ max_registers
    → let req = build_write_multiple_registers start quantity regs 256 in
      let r = rtu_process hooks s (master_rtu_frame 0 req rtu_frame_max) in
      let table = write_regs req 6 start quantity 0 s.holding_regs in
      (r.tx ≡ [])
      × IsUntouched (sync_registers hooks (record (addressed s) { holding_regs = table })) r
      × (get_or table b 0 ≡ (
          if leb start b && ltb b (start + quantity)
          then get_or regs (b - start) 0
          else get_or s.holding_regs b 0))
rtu_process-broadcast_write hooks s start quantity regs b v talks words one most fits =
    let req = build_write_multiple_registers start quantity regs 256 in
    let writes = build_write_multiple_registers-WritesRegs start quantity regs one most fits in
    let code = build_write_code start quantity regs one most in
    let (left, _, table) =
      answer_of-build_write hooks (addressed s) start quantity regs v one most fits in
    let some_req : 1 ≤ length req = omega (arith, writes.size) in
    let small : length req ≤ 253 = omega (arith, writes.size) in
    let own = answer_of hooks (addressed s) req in
    let a : Answer = record { server = own.server; built = own.built; tx_pdu_len = 0 } in
    let given = serve_answer hooks (addressed s) req true a (
      dispatch_broadcast hooks (addressed s) req (listen_only-addressed s ∙ talks) some_req code) in
    let framed = rtu_process-broadcast_frame hooks s req writes.bytes some_req small ∙ given in
    rw (master_rtu_frame_lem 0 req some_req small, framed)
      (
        finish_silent req true a refl,
        rw (← left) (finish-IsUntouched a.server req true a refl),
        ground (
          arith,
          table.reg_at b,
          requested_reg-build start quantity regs (b - start) words one most,
        ),
      )
