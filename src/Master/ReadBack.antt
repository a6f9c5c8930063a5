-- ===== src/Master/ReadBack.antt =====
-- Registers over the line: what the master writes to a station it reads back.
use stm32_automation_board.Common.{
  ℕ, suc, ◌+◌, ◌-◌, ◌≤◌, ◌<◌, List, [], ◌∷◌, true, false, if◌then◌else◌, ltb, leb, ◌&&◌, ◌||◌, ◌≡◌,
  ◌≢◌, refl, ap, ◌∙◌, arith, length, get_or, take, drop, some,
}
use stm32_automation_board.Common.Word.{IsWords}
use stm32_automation_board.Store.{max_registers}
use stm32_automation_board.Server.{Server, Hooks, sync_registers}
use stm32_automation_board.Server.Valid
use stm32_automation_board.Fc.Reads.Regs.{regs_answer, length-read_regs}
use stm32_automation_board.Fc.Writes.{echo_five, write_regs}
use stm32_automation_board.Rtu.{status_ok}
use stm32_automation_board.Master.{Master, Wired, wired}
use stm32_automation_board.Master.Build.{build_read, build_write_multiple_registers}
use stm32_automation_board.Master.Parse.{parse_read_registers}
use stm32_automation_board.Master.Api.{
  master_read_holding_registers, master_write_multiple_registers, check_written,
}
use stm32_automation_board.Master.Wire.{addressed}
use stm32_automation_board.Master.Line.{IsLine}
use stm32_automation_board.Master.Answers.{drop_at, parse_read_registers-IsRegsAnswer}
use stm32_automation_board.Master.Registers.{
  build_read-AsksRegs, build_read-IsBytes, build_write_multiple_registers-WritesRegs,
  requested_reg-build, build_write_code, answer_of-build_read, answer_of-build_write,
}
use stm32_automation_board.Master.Request.{
  answer_of, is_shared, listen_only-addressed, listen_only-bookkeeping, served-IsValid,
  request-answered,
}

-- The table after a write holds exactly the registers that were written.
slice_lem :
    (regs table : List ℕ) (start : ℕ)
    → start + length regs ≤ length table
    → ((k : ℕ) → k < length regs → get_or table (start + k) 0 ≡ get_or regs k 0)
    → take (length regs) (drop start table) ≡ regs
slice_lem [] table start fits same = refl
slice_lem (r ∷ regs) table start fits same =
    let here : start + 0 ≡ start = omega arith in
    let first : get_or table start 0 ≡ r = rw here at (same 0 (omega arith)) in
    let rest : (k : ℕ) → k < length regs → get_or table (start + 1 + k) 0 ≡ get_or regs k 0 = λ k h.
      let next : start + suc k ≡ start + 1 + k = omega arith in
      rw next at (same (suc k) (omega arith)) in
    rw (drop_at table start (omega arith), first)
      (ap (◌∷◌ r) (slice_lem regs table (start + 1) (omega arith) rest))

-- The application's callback leaves the address, the holding registers and the mode.
pub record IsQuiet (hooks : Hooks) : Type 0 where
  pub address : (s : Server) → (sync_registers hooks s).slave_id ≡ s.slave_id
  pub registers : (s : Server) → (sync_registers hooks s).holding_regs ≡ s.holding_regs
  pub mode : (s : Server) → (sync_registers hooks s).diag.listen_only ≡ s.diag.listen_only

-- What a write over the line leaves in the station: the registers of the range are those written,
-- the others are as they were, and the state is valid, under the same address and in the same
-- mode.
pub record IsStored (regs : List ℕ) (start quantity : ℕ) (s s' : Server) : Type 0 where
  pub valid : Valid.IsValid s'
  pub address : s'.slave_id ≡ s.slave_id
  pub mode : s'.diag.listen_only ≡ s.diag.listen_only
  pub reg_at :
      (b : ℕ)
      → get_or s'.holding_regs b 0 ≡ (
          if leb start b && ltb b (start + quantity)
          then get_or regs (b - start) 0
          else get_or s.holding_regs b 0)

module _ {Bus : Type 0} (hooks : Hooks) (m : Master Bus) (w : Wired Bus) (station : Bus → Server)
    (bound : wired m.transport ≡ some w) (line : IsLine hooks w station)
    (safe : Valid.IsSafe hooks) where
  -- Read Holding Registers over the line: a range of the table is read as it stands in the
  -- station, which is in a valid state, has an address other than 0 and is not in listen-only
  -- mode; the status is MODBUS_OK without an exception.
  pub master_read_holding_registers_lem :
      (bus : Bus) (start quantity : ℕ)
      → let s = station bus in
        let r = master_read_holding_registers m s.slave_id start quantity bus in
        Valid.IsValid s
        → s.slave_id ≢ 0
        → s.diag.listen_only ≡ false
        → 1 ≤ quantity
        → quantity ≤ 125
        → start + quantity ≤ max_registers
        → (r.status ≡ status_ok)
          × (r.value ≡ some (take quantity (drop start s.holding_regs)))
          × (r.exception_code ≡ some 0)
  unfolding master_read_holding_registers
  master_read_holding_registers_lem bus start quantity v unicast talks one most fits =
      let s = station bus in
      let req = build_read 0x03 start quantity 5 in
      let asks = build_read-AsksRegs 0x03 start quantity one most fits in
      let regs = s.holding_regs in
      let (same, built) = answer_of-build_read hooks (addressed s) start quantity one most fits in
      let code : get_or req 0 0 ≡ 0x03 = unfold build_read in refl in
      let range : (ltb quantity 1 || ltb 125 quantity) ≡ false = ground arith in
      let size = length-read_regs regs quantity start in
      let answer = regs_answer regs 0x03 start quantity v.holding most in
      let parsed =
        parse_read_registers-IsRegsAnswer regs start quantity _ one most
          (omega (arith, v.holding.size)) answer in
      let (status, value, raised, _) =
        request-answered hooks m w station bound line safe bus req v unicast talks
          (build_read-IsBytes 0x03 start quantity (omega arith)) (omega (arith, asks.size))
          (omega (arith, asks.size)) (rw code refl) (ap (λ (t : Server). t.slave_id) same)
          (parse_read_registers quantity) (take quantity (drop start regs)) (rw built refl)
          (rw (built, code) refl) (rw built (omega (arith, size))) (rw built parsed) in
      rw (master_read_holding_registers, range) (status, value, raised)

  -- Write Multiple Registers over the line: the status is MODBUS_OK, and the station holds what was
  -- written. The station is in a valid state, has an address other than 0 and is not in
  -- listen-only mode, and its application leaves the registers, the address and the mode.
  pub master_write_multiple_registers_lem :
      (bus : Bus) (start quantity : ℕ) (regs : List ℕ)
      → let s = station bus in
        let r = master_write_multiple_registers m s.slave_id start quantity regs bus in
        IsQuiet hooks
        → Valid.IsValid s
        → s.slave_id ≢ 0
        → s.diag.listen_only ≡ false
        → IsWords regs
        → 1 ≤ quantity
        → quantity ≤ 123
        → start + quantity ≤ max_registers
        → (r.status ≡ status_ok) × IsStored regs start quantity s (station r.bus)
  unfolding master_write_multiple_registers
  master_write_multiple_registers_lem bus start quantity regs quiet v unicast talks words one most
        fits =
      let s = station bus in
      let req = build_write_multiple_registers start quantity regs 256 in
      let writes = build_write_multiple_registers-WritesRegs start quantity regs one most fits in
      let code = build_write_code start quantity regs one most in
      let (left, built, table) =
        answer_of-build_write hooks (addressed s) start quantity regs v.holding one most fits in
      let kept : (answer_of hooks (addressed s) req).server.slave_id ≡ s.slave_id =
        rw left (quiet.address _) in
      let b = writes.bytes in
      let some_req : 1 ≤ length req = omega (arith, writes.size) in
      let small : length req ≤ 253 = omega (arith, writes.size) in
      let shared : is_shared (get_or req 0 0) ≡ true = rw code refl in
      let ok : check_written 0x10 (echo_five 0x10 req) ≡ some tt = refl in
      let (status, _, _, after) =
        request-answered hooks m w station bound line safe bus req v unicast talks b some_req small
          shared kept (check_written 0x10) tt (rw built refl) (rw (built, code) refl)
          (rw built (omega arith)) (rw built ok) in
      let valid =
        served-IsValid hooks m w station bound line safe bus req v unicast talks b some_req small
          shared kept in
      let a = answer_of hooks (addressed s) req in
      let new = write_regs req 6 start quantity 0 s.holding_regs in
      let mode : a.server.diag.listen_only ≡ s.diag.listen_only =
        rw left (quiet.mode _ ∙ listen_only-addressed s) in
      let regs_now : a.server.holding_regs ≡ new = rw left (quiet.registers _) in
      (
        status,
        rw after (record {
          valid = valid;
          address = kept;
          mode = listen_only-bookkeeping req false a ∙ mode;
          reg_at = λ b. rw regs_now (
              ground (
                arith,
                table.reg_at b,
                requested_reg-build start quantity regs (b - start) words one most,
              ));
        }),
      )

  -- What the master writes it reads back: Write Multiple Registers, then Read Holding Registers of
  -- the same range, are both MODBUS_OK, and the registers read are those written. The station is in
  -- a valid state, has an address other than 0 and is not in listen-only mode, and its application
  -- leaves the registers, the address and the mode.
  pub master_read_holding_registers-write_multiple_registers :
      (bus : Bus) (start : ℕ) (regs : List ℕ)
      → let s = station bus in
        let written = master_write_multiple_registers m s.slave_id start (length regs) regs bus in
        let r = master_read_holding_registers m s.slave_id start (length regs) written.bus in
        IsQuiet hooks
        → Valid.IsValid s
        → s.slave_id ≢ 0
        → s.diag.listen_only ≡ false
        → IsWords regs
        → 1 ≤ length regs
        → length regs ≤ 123
        → start + length regs ≤ max_registers
        → (written.status ≡ status_ok) × (r.status ≡ status_ok) × (r.value ≡ some regs)
  master_read_holding_registers-write_multiple_registers bus start regs quiet v unicast talks words
        one most fits =
      let s = station bus in
      let quantity = length regs in
      let (status, stored) =
        master_write_multiple_registers_lem bus start quantity regs quiet v unicast talks words one
          most fits in
      let written = master_write_multiple_registers m s.slave_id start quantity regs bus in
      let s' = station written.bus in
      let same = stored.address in
      let other : s'.slave_id ≢ 0 = rw same unicast in
      let (read, value, _) =
        master_read_holding_registers_lem written.bus start quantity stored.valid other
          (stored.mode ∙ talks) one (omega arith) fits in
      let holds : (k : ℕ) → k < quantity → get_or s'.holding_regs (start + k) 0 ≡ get_or regs k 0 =
        λ k h.
          let shift : start + k - start ≡ k = omega arith in
          ground (arith, stored.reg_at (start + k), shift) in
      let all =
        slice_lem regs s'.holding_regs start (omega (arith, stored.valid.holding.size)) holds in
      (status, rw same at read, rw same at value ∙ ap some all)
