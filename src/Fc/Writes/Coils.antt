-- ===== src/Fc/Writes/Coils.antt =====
-- The function codes 0x05 and 0x0F: which coils a write changes.
use stm32_automation_board.Common.{
  ℕ, ◌+◌, ◌-◌, ◌/◌, ◌%◌, ◌^◌, ◌≤◌, ◌<◌, bit_and, List, if◌then◌else◌, ◌==◌, ltb, leb, ◌&&◌, ◌≡◌,
  ◌⊎◌, arith, length, get_or,
}
use stm32_automation_board.Common.Bits.{bit_and-one}
use stm32_automation_board.Common.Loops.{for_range_inv}
use stm32_automation_board.Common.Word.{u16}
use stm32_automation_board.Store.{max_coils, bit_read, bit_write}
use stm32_automation_board.Store.Bits.{IsBitTable, bit_write-IsBitTable, bit_read-bit_write}
use stm32_automation_board.Server.{Server, Hooks, sync_registers}
use stm32_automation_board.Fc.{start_of, quantity_of}
use stm32_automation_board.Fc.Writes.{
  echo_five, write_single_coil, write_coils, write_multiple_coils,
}

-- The value that a 0x0F request carries for its `j`-th coil, least significant bit first.
abbrev pub requested_coil : List ℕ → ℕ → ℕ
requested_coil rx_pdu j = bit_and (get_or rx_pdu (6 + j / 8) 0 / 2 ^ (j % 8)) 1

-- The coils `start` to `start + n - 1` hold what the request carries, the others what they held.
pub record IsCoilsWritten (rx_pdu : List ℕ) (start n : ℕ) (old new : List ℕ) : Type 0 where
  pub table : IsBitTable new
  pub coil_at :
      (b : ℕ)
      → b < max_coils
      → bit_read new b ≡ (
          if leb start b && ltb b (start + n)
          then requested_coil rx_pdu (b - start)
          else bit_read old b)

requested_coil-lt : (rx_pdu : List ℕ) (j : ℕ) → requested_coil rx_pdu j < 2
requested_coil-lt rx_pdu j = omega (arith, bit_and-one (get_or rx_pdu (6 + j / 8) 0 / 2 ^ (j % 8)))

module _ (rx_pdu : List ℕ) (start : ℕ) (old : List ℕ) where
  coil_round :
      (k : ℕ) (bits : List ℕ)
      → start + k < max_coils
      → IsCoilsWritten rx_pdu start k old bits
      → IsCoilsWritten rx_pdu start
          (k + 1)
          old
          (bit_write bits (u16 (start + k)) (requested_coil rx_pdu k))
  coil_round k bits lt w = record {
    table = bit_write-IsBitTable bits (u16 (start + k)) (requested_coil rx_pdu k) w.table;
    coil_at = λ b h.
        let shift : start + k - start ≡ k = omega arith in
        ground (
          arith,
          bit_read-bit_write bits (u16 (start + k)) (requested_coil rx_pdu k) b w.table
              (omega arith) h,
          w.coil_at b h,
          requested_coil-lt rx_pdu k,
        );
  }

  pub write_coils_lem :
      (n : ℕ)
      → start + n ≤ max_coils
      → IsBitTable old
      → IsCoilsWritten rx_pdu start n old (write_coils rx_pdu start n 0 old)
  unfolding write_coils
  write_coils_lem n fits v =
      for_range_inv (λ k bits. IsCoilsWritten rx_pdu start k old bits) _ n
        (λ k bits lt w. coil_round k bits (omega arith) w) n 0 old (omega arith)
        (record { table = v; coil_at = λ b h. ground arith })

-- A request to write `quantity` coils that fits the table, with the bytes it announces.
pub record WritesCoils (rx_pdu : List ℕ) (start quantity : ℕ) : Type 0 where
  pub start_word : start_of rx_pdu ≡ start
  pub quantity_word : quantity_of rx_pdu ≡ quantity
  pub some_coil : 1 ≤ quantity
  pub in_table : start + quantity ≤ max_coils
  pub byte_count : get_or rx_pdu 5 0 ≡ (quantity + 7) / 8
  pub size : length rx_pdu ≡ 6 + (quantity + 7) / 8

-- Write Multiple Coils: a request that fits the table is echoed, the sync of the board runs, and
-- the state it runs on is the old one with exactly the coils of the range set as the request
-- says.
pub write_multiple_coils_lem :
    (hooks : Hooks) (s : Server) (fc : ℕ) (rx_pdu : List ℕ) (start quantity : ℕ)
    → IsBitTable s.coil_bits
    → WritesCoils rx_pdu start quantity
    → (write_multiple_coils hooks s fc rx_pdu ≡ (
      sync_registers hooks
          (record s { coil_bits = write_coils rx_pdu start quantity 0 s.coil_bits }),
      echo_five fc rx_pdu,
    ))
      × IsCoilsWritten rx_pdu start quantity s.coil_bits
          (write_coils rx_pdu start quantity 0 s.coil_bits)
unfolding write_multiple_coils
write_multiple_coils_lem hooks s fc rx_pdu start quantity v w =
    (ground arith, write_coils_lem rx_pdu start s.coil_bits quantity w.in_table v)

-- Write Single Coil: a request of five bytes with the value 0xff00 or 0x0000 for a coil of the
-- table is echoed; in the state on which the sync of the board runs that coil reads 1 or 0, and
-- every other coil as before.
pub write_single_coil_lem :
    (hooks : Hooks) (s : Server) (fc : ℕ) (rx_pdu : List ℕ) (b : ℕ)
    → IsBitTable s.coil_bits
    → length rx_pdu ≡ 5
    → (quantity_of rx_pdu ≡ 0xff00) ⊎ (quantity_of rx_pdu ≡ 0x0000)
    → start_of rx_pdu < max_coils
    → b < max_coils
    → let coils =
        bit_write s.coil_bits (start_of rx_pdu) (if quantity_of rx_pdu == 0xff00 then 1 else 0) in
      (write_single_coil hooks s fc rx_pdu
        ≡ (sync_registers hooks (record s { coil_bits = coils }), echo_five fc rx_pdu))
      × (bit_read coils b ≡ (
          if start_of rx_pdu == b
          then (if quantity_of rx_pdu == 0xff00 then 1 else 0)
          else bit_read s.coil_bits b))
unfolding write_single_coil
write_single_coil_lem hooks s fc rx_pdu b v size value start h = (
  ground arith,
  ground (
    arith,
    bit_read-bit_write s.coil_bits (start_of rx_pdu) (if quantity_of rx_pdu == 0xff00 then 1 else 0)
        b v start h,
  ),
)
