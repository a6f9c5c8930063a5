-- ===== src/Store.antt =====
-- src/modbus.c: the bit tables and register tables, and the range check.
pub mod Bits
pub mod Regs
use stm32_automation_board.Common.{
  ℕ, ◌-◌, ◌/◌, ◌%◌, ◌^◌, bit_and, bit_or, List, Bool, if◌then◌else◌, ◌!=◌, ltb, leb, ◌&&◌, get_or,
  set,
}
use stm32_automation_board.Common.Word.{u8}

abbrev pub max_registers : ℕ
max_registers = 256

abbrev pub max_coils : ℕ
max_coils = 128

unfoldable pub bit_read : List ℕ → ℕ → ℕ
bit_read table addr =
    if leb max_coils addr then 0 else bit_and (get_or table (addr / 8) 0 / 2 ^ (addr % 8)) 1

unfoldable pub bit_write : List ℕ → ℕ → ℕ → List ℕ
bit_write table addr value =
    if leb max_coils addr
    then table
    else if value != 0
    then set table (addr / 8) (u8 (bit_or (get_or table (addr / 8) 0) (2 ^ (addr % 8))))
    else set table (addr / 8)
        (u8 (bit_and (get_or table (addr / 8) 0) (2 ^ 32 - 1 - 2 ^ (addr % 8))))

unfoldable pub regs_write : List ℕ → ℕ → ℕ → List ℕ
regs_write regs addr value = if leb max_registers addr then regs else set regs addr value

unfoldable pub address_range_valid : ℕ → ℕ → ℕ → Bool
address_range_valid start_addr quantity table_size =
    ltb start_addr table_size && leb quantity (table_size - start_addr)
