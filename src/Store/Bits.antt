-- ===== src/Store/Bits.antt =====
-- The bit tables: reading after writing.
use stm32_automation_board.Common.{
  ℕ, ◌-◌, ◌/◌, ◌%◌, ◌^◌, ◌≤◌, ◌<◌, bit_and, bit_or, List, if◌then◌else◌, ◌==◌, ◌!=◌, ◌≡◌, ◌∙◌,
  arith, get_or, set, length, length-set, get_or-set_self, get_or-set_ne, All-set, All-get_or,
}
use stm32_automation_board.Common.Bits.{
  bit, bit_and-one, bit-set_bit, bit-clear_bit, pow_byte, bit_or-bound, bit_and-le,
}
use native.Mathlib.Decide.{dec_lt}
use stm32_automation_board.Common.Word.{IsByte, IsBytes}
use stm32_automation_board.Store.{max_coils, bit_read, bit_write}

-- A table of 128 bits: 16 bytes.
pub record IsBitTable (table : List ℕ) : Type 0 where
  pub size : length table ≡ 16
  pub bytes : IsBytes table

pub bit_read-eq-bit :
    (table : List ℕ) (addr : ℕ)
    → addr < max_coils
    → bit_read table addr ≡ bit (get_or table (addr / 8) 0) (addr % 8)
unfolding bit_read
bit_read-eq-bit table addr h =
    ground (arith, bit_and-one (get_or table (addr / 8) 0 / 2 ^ (addr % 8)))

pub bit_read-lt : (table : List ℕ) (addr : ℕ) → bit_read table addr < 2
unfolding bit_read
bit_read-lt table addr = ground (arith, bit_and-one (get_or table (addr / 8) 0 / 2 ^ (addr % 8)))

-- The byte that a write stores.
abbrev written : ℕ → ℕ → ℕ → ℕ
written x k value = if value != 0 then bit_or x (2 ^ k) else bit_and x (2 ^ 32 - 1 - 2 ^ k)

written-IsByte : (x k value : ℕ) → IsByte x → k < 8 → IsByte (written x k value)
written-IsByte x k value h hk =
    ground (arith, bit_or-bound 8 x (2 ^ k) h (pow_byte k hk), bit_and-le x (2 ^ 32 - 1 - 2 ^ k))

bit-written :
    (x k value j : ℕ)
    → IsByte x
    → k < 8
    → j < 8
    → bit (written x k value) j ≡ (if k == j then (if value != 0 then 1 else 0) else bit x j)
bit-written x k value j h hk hj =
    ground (arith, bit-set_bit x k j h hk hj, bit-clear_bit x k j h hk hj)

IsByte-at : (table : List ℕ) (i : ℕ) → IsBitTable table → IsByte (get_or table i 0)
IsByte-at table i v = All-get_or IsByte table i 0 v.bytes (omega arith)

bit_write-eq-set :
    (table : List ℕ) (addr value : ℕ)
    → IsBitTable table
    → addr < max_coils
    → bit_write table addr value
      ≡ set table (addr / 8) (written (get_or table (addr / 8) 0) (addr % 8) value)
unfolding bit_write
bit_write-eq-set table addr value v h =
    let x = get_or table (addr / 8) 0 in
    ground (
      arith,
      IsByte-at table (addr / 8) v,
      bit_or-bound 8 x (2 ^ (addr % 8)) (IsByte-at table (addr / 8) v)
          (pow_byte (addr % 8) (omega arith)),
      bit_and-le x (2 ^ 32 - 1 - 2 ^ (addr % 8)),
    )

bit_write_out :
    (table : List ℕ) (addr value : ℕ) → max_coils ≤ addr → bit_write table addr value ≡ table
unfolding bit_write
bit_write_out table addr value h = ground arith

-- A write keeps the table's size, and its entries bytes.
pub bit_write-IsBitTable :
    (table : List ℕ) (addr value : ℕ) → IsBitTable table → IsBitTable (bit_write table addr value)
bit_write-IsBitTable table addr value v = elim (dec_lt addr max_coils) [
  | yes h ↦ rw (bit_write-eq-set table addr value v h) (record {
    size = length-set table (addr / 8) _ ∙ v.size;
    bytes =
        All-set IsByte table (addr / 8) _ v.bytes
          (written-IsByte _ (addr % 8) value (IsByte-at table (addr / 8) v) (omega arith));
  })
  | no h ↦ rw (bit_write_out table addr value (omega arith)) v
]

-- A written bit is read back, and every other bit is as before.
pub bit_read-bit_write :
    (table : List ℕ) (a value b : ℕ)
    → IsBitTable table
    → a < max_coils
    → b < max_coils
    → bit_read (bit_write table a value) b
      ≡ (if a == b then (if value != 0 then 1 else 0) else bit_read table b)
bit_read-bit_write table a value b v ha hb =
    let x = get_or table (a / 8) 0 in
    let y = written x (a % 8) value in
    ground (
      arith,
      bit_read-eq-bit (bit_write table a value) b hb,
      bit_read-eq-bit table b hb,
      bit_write-eq-set table a value v ha,
      get_or-set_self table (a / 8) y 0 (omega (arith, v.size)),
      get_or-set_ne table (a / 8) (b / 8) y 0,
      bit-written x (a % 8) value (b % 8) (IsByte-at table (a / 8) v) (omega arith) (omega arith),
    )
