-- ===== src/Fc/Reads/Regs.antt =====
-- The function codes 0x03 and 0x04: which registers the answer carries.
use stm32_automation_board.Common.{
  ℕ, zero, suc, ◌+◌, ◌*◌, ◌≤◌, ◌<◌, List, ◌∷◌, if◌then◌else◌, ◌==◌, ◌≡◌, ◌⊎◌, refl, arith, length,
  get_or, get_or_two,
}
use stm32_automation_board.Common.Word.{
  u8, be16, hi8, lo8, be16-hi8-lo8, hi8-IsByte, lo8-IsByte, IsBytes,
}
use stm32_automation_board.Store.{max_registers}
use stm32_automation_board.Store.Regs.{IsRegTable, reg_at}
use stm32_automation_board.Server.{Server, mirror_analog}
use stm32_automation_board.Server.Valid
use stm32_automation_board.Server.Valid.{mirror_analog-IsRegTable}
use stm32_automation_board.Fc.{start_of, quantity_of}
use stm32_automation_board.Fc.Reads.{read_regs, read_registers}

module _ (regs : List ℕ) where
  pub length-read_regs : (n addr : ℕ) → length (read_regs regs n addr) ≡ n * 2
  unfolding read_regs
  length-read_regs zero addr = omega arith
  length-read_regs (suc n) addr = omega (arith, length-read_regs n (addr + 1))

  pub read_regs-IsBytes : (n addr : ℕ) → IsBytes (read_regs regs n addr)
  unfolding read_regs
  read_regs-IsBytes zero addr = tt
  read_regs-IsBytes (suc n) addr = (
    hi8-IsByte (get_or regs addr 0),
    (lo8-IsByte (get_or regs addr 0), read_regs-IsBytes n (addr + 1)),
  )

  -- The bytes 2k and 2k + 1 of the list are the k-th register, high byte first.
  pub get_or-read_regs :
      (n addr k : ℕ)
      → k < n
      → (get_or (read_regs regs n addr) (k * 2) 0 ≡ hi8 (get_or regs (addr + k) 0))
        × (get_or (read_regs regs n addr) (k * 2 + 1) 0 ≡ lo8 (get_or regs (addr + k) 0))
  unfolding read_regs
  get_or-read_regs zero addr k h = absurd (omega arith)
  get_or-read_regs (suc n) addr zero h = let e : addr + 0 ≡ addr = omega arith in rw e (refl, refl)
  get_or-read_regs (suc n) addr (suc k) h =
      let even : suc k * 2 ≡ suc (suc (k * 2)) = omega arith in
      let odd : suc k * 2 + 1 ≡ suc (suc (k * 2 + 1)) = omega arith in
      let shift : addr + suc k ≡ addr + 1 + k = omega arith in
      rw (odd, even, shift) (get_or-read_regs n (addr + 1) k (omega arith))

-- The answer carries the `quantity` registers of the table from `start` on, high byte first.
pub record IsRegsAnswer (regs : List ℕ) (start quantity : ℕ) (answer : List ℕ) : Type 0 where
  pub count : get_or answer 1 0 ≡ quantity * 2
  pub size : length answer ≡ 2 + quantity * 2
  pub regs_read :
      (k : ℕ)
      → k < quantity
      → be16 (get_or answer (2 + k * 2) 0) (get_or answer (2 + (k * 2 + 1)) 0)
        ≡ get_or regs (start + k) 0

pub regs_answer :
    (regs : List ℕ) (fc start quantity : ℕ)
    → IsRegTable regs
    → quantity ≤ 125
    → IsRegsAnswer regs start quantity (fc ∷ u8 (quantity * 2) ∷ read_regs regs quantity start)
regs_answer regs fc start quantity v q = record {
  count = omega arith;
  size = omega (arith, length-read_regs regs quantity start);
  regs_read = λ k h.
      let n = u8 (quantity * 2) in
      let rest = read_regs regs quantity start in
      let (hi, lo) = get_or-read_regs regs quantity start k h in
      rw (get_or_two fc n rest (k * 2) 0, get_or_two fc n rest (k * 2 + 1) 0, hi, lo)
        (be16-hi8-lo8 (get_or regs (start + k) 0) (reg_at regs (start + k) v));
}

-- A request for registers that fits the table: `quantity` of them from `start` on.
pub record AsksRegs (rx_pdu : List ℕ) (start quantity : ℕ) : Type 0 where
  pub size : length rx_pdu ≡ 5
  pub start_word : start_of rx_pdu ≡ start
  pub quantity_word : quantity_of rx_pdu ≡ quantity
  pub some_reg : 1 ≤ quantity
  pub at_most : quantity ≤ 125
  pub in_table : start + quantity ≤ max_registers

-- The table that a function code reads: the holding registers (0x03), or the input registers with
-- the analog inputs copied in (0x04).
abbrev pub regs_of : Server → ℕ → List ℕ
regs_of s fc = if fc == 0x03 then s.holding_regs else mirror_analog s.holding_regs s.input_regs

regs_of-IsRegTable : (s : Server) (fc : ℕ) → Valid.IsValid s → IsRegTable (regs_of s fc)
regs_of-IsRegTable s fc v =
    ground (arith, mirror_analog-IsRegTable s.holding_regs s.input_regs v.holding v.input)

pub read_registers_accepted :
    (s : Server) (fc : ℕ) (rx_pdu : List ℕ) (start quantity : ℕ)
    → (fc ≡ 0x03) ⊎ (fc ≡ 0x04)
    → AsksRegs rx_pdu start quantity
    → read_registers s fc rx_pdu ≡ (
      (if fc == 0x03 then s else record s { input_regs = regs_of s fc }),
      fc ∷ u8 (quantity * 2) ∷ read_regs (regs_of s fc) quantity start,
    )
unfolding read_registers
read_registers_accepted s fc rx_pdu start quantity f a = ground arith

-- Read Holding Registers and Read Input Registers: a request that fits the table is answered by
-- exactly the registers asked for. 0x03 changes nothing; 0x04 copies the analog inputs into the
-- input registers and changes nothing else.
pub read_registers_lem :
    (s : Server) (fc : ℕ) (rx_pdu : List ℕ) (start quantity : ℕ)
    → (fc ≡ 0x03) ⊎ (fc ≡ 0x04)
    → Valid.IsValid s
    → AsksRegs rx_pdu start quantity
    → let (s', answer) = read_registers s fc rx_pdu in
      IsRegsAnswer (regs_of s fc) start quantity answer
      × (get_or answer 0 0 ≡ fc)
      × (s' ≡ (if fc == 0x03 then s else record s { input_regs = regs_of s fc }))
read_registers_lem s fc rx_pdu start quantity f v a =
    rw (read_registers_accepted s fc rx_pdu start quantity f a) (
      regs_answer (regs_of s fc) fc start quantity (regs_of-IsRegTable s fc v) a.at_most,
      refl,
      refl,
    )
