-- ===== src/Fc/Writes/Regs.antt =====
-- The function codes 0x06, 0x10, 0x16 and 0x17: which registers a write changes.
use stm32_automation_board.Common.{
  ℕ, ◌+◌, ◌-◌, ◌*◌, ◌≤◌, ◌<◌, List, ◌∷◌, if◌then◌else◌, ltb, leb, ◌&&◌, ◌≡◌, refl, arith, length,
  get_or,
}
use stm32_automation_board.Common.Loops.{for_range_inv}
use stm32_automation_board.Common.Word.{u8, u16, be16, IsBytes}
use stm32_automation_board.Store.{max_registers, regs_write}
use stm32_automation_board.Store.Regs.{IsRegTable, regs_write-IsRegTable, get_or-regs_write}
use stm32_automation_board.Server.{Server, Hooks, sync_registers}
use stm32_automation_board.Server.Valid
use stm32_automation_board.Server.Valid.{with_holding-IsValid}
use stm32_automation_board.Fc.{start_of, quantity_of}
use stm32_automation_board.Fc.Good.{IsWord-at}
use stm32_automation_board.Fc.Writes.{
  echo_five, write_regs, write_multiple_registers, read_write_registers,
}
use stm32_automation_board.Fc.Reads.{read_regs}
use stm32_automation_board.Fc.Reads.Regs.{IsRegsAnswer, regs_answer}

-- The `j`-th register of a request whose register bytes begin at `off`.
abbrev pub requested_reg : List ℕ → ℕ → ℕ → ℕ
requested_reg rx_pdu off j =
    be16 (get_or rx_pdu (off + j * 2) 0) (get_or rx_pdu (off + j * 2 + 1) 0)

-- The registers `start` to `start + n - 1` hold what the request carries, the others what they
-- held.
pub record IsRegsWritten (rx_pdu : List ℕ) (off start n : ℕ) (old new : List ℕ) : Type 0 where
  pub table : IsRegTable new
  pub reg_at :
      (b : ℕ)
      → get_or new b 0 ≡ (
          if leb start b && ltb b (start + n)
          then requested_reg rx_pdu off (b - start)
          else get_or old b 0)

module _ (rx_pdu : List ℕ) (bytes : IsBytes rx_pdu) (off start : ℕ) (old : List ℕ) where
  reg_round :
      (k : ℕ) (regs : List ℕ)
      → start + k < max_registers
      → IsRegsWritten rx_pdu off start k old regs
      → IsRegsWritten rx_pdu off start
          (k + 1)
          old
          (regs_write regs (u16 (start + k)) (requested_reg rx_pdu off k))
  reg_round k regs lt w = record {
    table =
        regs_write-IsRegTable regs (u16 (start + k)) (requested_reg rx_pdu off k)
          (IsWord-at rx_pdu (off + k * 2) (off + k * 2 + 1) bytes) w.table;
    reg_at = λ b.
        let shift : start + k - start ≡ k = omega arith in
        ground (
          arith,
          get_or-regs_write regs (u16 (start + k)) (requested_reg rx_pdu off k) b w.table
              (omega arith),
          w.reg_at b,
        );
  }

  pub write_regs_lem :
      (n : ℕ)
      → start + n ≤ max_registers
      → IsRegTable old
      → IsRegsWritten rx_pdu off start n old (write_regs rx_pdu off start n 0 old)
  unfolding write_regs
  write_regs_lem n fits v =
      for_range_inv (λ k regs. IsRegsWritten rx_pdu off start k old regs) _ n
        (λ k regs lt w. reg_round k regs (omega arith) w) n 0 old (omega arith)
        (record { table = v; reg_at = λ b. ground arith })

-- A request to write `quantity` registers that fits the table, with the bytes it announces.
pub record WritesRegs (rx_pdu : List ℕ) (start quantity : ℕ) : Type 0 where
  pub bytes : IsBytes rx_pdu
  pub start_word : start_of rx_pdu ≡ start
  pub quantity_word : quantity_of rx_pdu ≡ quantity
  pub some_reg : 1 ≤ quantity
  pub at_most : quantity ≤ 123
  pub in_table : start + quantity ≤ max_registers
  pub byte_count : get_or rx_pdu 5 0 ≡ quantity * 2
  pub size : length rx_pdu ≡ 6 + quantity * 2

-- Write Multiple Registers: a request that fits the table is echoed, the sync of the board runs,
-- and the state it runs on is the old one with exactly the registers of the range set as the
-- request says.
pub write_multiple_registers_lem :
    (hooks : Hooks) (s : Server) (fc : ℕ) (rx_pdu : List ℕ) (start quantity : ℕ)
    → IsRegTable s.holding_regs
    → WritesRegs rx_pdu start quantity
    → (write_multiple_registers hooks s fc rx_pdu ≡ (
      sync_registers hooks
          (record s { holding_regs = write_regs rx_pdu 6 start quantity 0 s.holding_regs }),
      echo_five fc rx_pdu,
    ))
      × IsRegsWritten rx_pdu 6 start quantity s.holding_regs
          (write_regs rx_pdu 6 start quantity 0 s.holding_regs)
unfolding write_multiple_registers
write_multiple_registers_lem hooks s fc rx_pdu start quantity v w =
    (ground arith, write_regs_lem rx_pdu w.bytes 6 start s.holding_regs quantity w.in_table v)

-- A Read/Write Multiple Registers request whose two ranges fit the table.
pub record ReadsWrites (rx_pdu : List ℕ) (read_start read_qty write_start write_qty : ℕ)
    : Type 0 where
  pub bytes : IsBytes rx_pdu
  pub read_start_word : be16 (get_or rx_pdu 1 0) (get_or rx_pdu 2 0) ≡ read_start
  pub read_qty_word : be16 (get_or rx_pdu 3 0) (get_or rx_pdu 4 0) ≡ read_qty
  pub write_start_word : be16 (get_or rx_pdu 5 0) (get_or rx_pdu 6 0) ≡ write_start
  pub write_qty_word : be16 (get_or rx_pdu 7 0) (get_or rx_pdu 8 0) ≡ write_qty
  pub reads : (1 ≤ read_qty) × (read_qty ≤ 125) × (read_start + read_qty ≤ max_registers)
  pub writes : (1 ≤ write_qty) × (write_qty ≤ 121) × (write_start + write_qty ≤ max_registers)
  pub byte_count : get_or rx_pdu 9 0 ≡ write_qty * 2
  pub size : length rx_pdu ≡ 10 + write_qty * 2

read_write_accepted :
    (hooks : Hooks) (s : Server) (fc : ℕ) (rx_pdu : List ℕ)
    (read_start read_qty write_start write_qty : ℕ)
    → ReadsWrites rx_pdu read_start read_qty write_start write_qty
    → let r =
        sync_registers hooks (record s {
          holding_regs = write_regs rx_pdu 10 write_start write_qty 0 s.holding_regs;
        }) in
      read_write_registers hooks s fc rx_pdu
      ≡ (r, fc ∷ u8 (read_qty * 2) ∷ read_regs r.holding_regs read_qty read_start)
unfolding read_write_registers
read_write_accepted hooks s fc rx_pdu rs rq ws wq w =
    let (r1, r2, r3) = w.reads in let (w1, w2, w3) = w.writes in ground arith

-- Read/Write Multiple Registers: the write is done before the read. The holding registers of the
-- write range become those of the request and no other one changes, then the sync of the board
-- runs, and the answer carries the registers of the read range of the state that it leaves. The
-- state is valid, and the application's callback keeps it so.
pub read_write_registers_lem :
    (hooks : Hooks) (s : Server) (fc : ℕ) (rx_pdu : List ℕ)
    (read_start read_qty write_start write_qty : ℕ)
    → Valid.IsSafe hooks
    → Valid.IsValid s
    → ReadsWrites rx_pdu read_start read_qty write_start write_qty
    → let regs = write_regs rx_pdu 10 write_start write_qty 0 s.holding_regs in
      let (s', answer) = read_write_registers hooks s fc rx_pdu in
      (s' ≡ sync_registers hooks (record s { holding_regs = regs }))
      × IsRegsWritten rx_pdu 10 write_start write_qty s.holding_regs regs
      × IsRegsAnswer s'.holding_regs read_start read_qty answer
read_write_registers_lem hooks s fc rx_pdu rs rq ws wq safe v w =
    let (r1, r2, r3) = w.reads in
    let (w1, w2, w3) = w.writes in
    let written = write_regs_lem rx_pdu w.bytes 10 ws s.holding_regs wq w3 v.holding in
    let regs = write_regs rx_pdu 10 ws wq 0 s.holding_regs in
    let after =
      safe (record s { holding_regs = regs }) (with_holding-IsValid s regs v written.table) in
    rw (read_write_accepted hooks s fc rx_pdu rs rq ws wq w)
      (refl, written, regs_answer _ fc rs rq after.holding r2)
