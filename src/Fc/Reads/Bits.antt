-- ===== src/Fc/Reads/Bits.antt =====
-- The function codes 0x01 and 0x02: which bits the answer carries.
use stm32_automation_board.Common.{
  ℕ, zero, suc, ◌+◌, ◌*◌, ◌/◌, ◌%◌, ◌^◌, ◌≤◌, ◌<◌, bit_or, List, ◌∷◌, true, if◌then◌else◌, ◌==◌,
  ltb, ◌≡◌, refl, ap, ◌∙◌, arith, length, get_or, get_or_two, ◌⊎◌, ==_iff,
}
use stm32_automation_board.Common.Bits.{
  bit, bit-set_bit, bit_or-bound, pow_byte, bit_or_comm, zero-bit_or, all_below, all_below_sound,
}
use stm32_automation_board.Common.Word.{u8, u16, IsByte, IsBytes}
use stm32_automation_board.Board.{digital_inputs_read_all}
use stm32_automation_board.Store.{max_coils, bit_read}
use stm32_automation_board.Store.Bits.{bit_read-lt}
use stm32_automation_board.Server.{Server, mirror_inputs}
use stm32_automation_board.Fc.{start_of, quantity_of}
use stm32_automation_board.Fc.Reads.{read_byte, read_bytes, read_bits}

-- One round: the bit `x` is put at place `b`.
placed : ℕ → ℕ → ℕ → ℕ
placed val x b = u8 (bit_or val (x * 2 ^ b))

placed-IsByte : (val x b : ℕ) → IsByte (placed val x b)
unfolding placed
placed-IsByte val x b = omega arith

placed_zero : (val b : ℕ) → IsByte val → placed val 0 b ≡ val
unfolding placed
placed_zero val b h =
    let none : 0 * 2 ^ b ≡ 0 = omega arith in
    rw none (omega (arith, bit_or_comm val 0, zero-bit_or val))

placed_one : (val b : ℕ) → IsByte val → b < 8 → placed val 1 b ≡ bit_or val (2 ^ b)
unfolding placed
placed_one val b h hb =
    let one : 1 * 2 ^ b ≡ 2 ^ b = omega arith in
    rw one (omega (arith, bit_or-bound 8 val (2 ^ b) h (pow_byte b hb)))

bit-placed :
    (val x b j : ℕ)
    → IsByte val
    → x < 2
    → b < 8
    → j < 8
    → bit val b ≡ 0
    → bit (placed val x b) j ≡ (if j == b then x else bit val j)
bit-placed val zero b j h hx hb hj e = rw (placed_zero val b h) (ground arith)
bit-placed val (suc zero) b j h hx hb hj e =
    rw (placed_one val b h hb) (ground (arith, bit-set_bit val b j h hb hj))
bit-placed val (suc (suc x)) b j h hx hb hj e = absurd (omega arith)

zero_bit : (j : ℕ) → j < 8 → bit 0 j ≡ 0
zero_bit j h = (==_iff _ _).0 (all_below_sound 8 (λ j. bit 0 j == 0) j table h)
  where
    table : all_below 8 (λ j. bit 0 j == 0) ≡ true
    table = unfold all_below in refl

module _ (table : List ℕ) (start quantity i : ℕ) where
  -- What the bit `j` of the answer byte `i` is to be.
  abbrev pub wanted : ℕ → ℕ
  wanted j = if ltb (j + i * 8) quantity then bit_read table (u16 (start + i * 8 + j)) else 0

  pub bit-read_byte :
      (n b val j : ℕ)
      → b + n ≡ 8
      → IsByte val
      → ((k : ℕ) → b ≤ k → k < 8 → bit val k ≡ 0)
      → j < 8
      → bit (read_byte table start quantity i n b val) j ≡ (if ltb j b then bit val j else wanted j)
  unfolding read_byte placed
  bit-read_byte zero b val j e h clear hj = ground arith
  bit-read_byte (suc n) b val j e h clear hj = ground (
    arith,
    clear j,
    bit_at_b j,
    bit-read_byte n (b + 1) (placed val x b) j (omega arith) (placed-IsByte val x b)
        (λ k p q. ground (arith, clear k, bit_at_b k)) hj,
  )
    where
      x : ℕ
      x = bit_read table (u16 (start + i * 8 + b))

      bit_at_b : (k : ℕ) → k < 8 → bit (placed val x b) k ≡ (if k == b then x else bit val k)
      bit_at_b k hk =
          bit-placed val x b k h (bit_read-lt table (u16 (start + i * 8 + b))) (omega arith) hk
            (clear b (omega arith) (omega arith))

  read_byte-IsByte : (n b val : ℕ) → IsByte val → IsByte (read_byte table start quantity i n b val)
  unfolding read_byte
  read_byte-IsByte zero b val h = h
  read_byte-IsByte (suc n) b val h = ground (
    arith,
    read_byte-IsByte n (b + 1) (u8 (bit_or val (bit_read table (u16 (start + i * 8 + b)) * 2 ^ b)))
        (omega arith),
  )

module _ (table : List ℕ) (start quantity : ℕ) where
  pub length-read_bytes : (n i : ℕ) → length (read_bytes table start quantity n i) ≡ n
  unfolding read_bytes
  length-read_bytes zero i = refl
  length-read_bytes (suc n) i = ap suc (length-read_bytes n (i + 1))

  pub read_bytes-IsBytes : (n i : ℕ) → IsBytes (read_bytes table start quantity n i)
  unfolding read_bytes
  read_bytes-IsBytes zero i = tt
  read_bytes-IsBytes (suc n) i =
      (read_byte-IsByte table start quantity i 8 0 0 (omega arith), read_bytes-IsBytes n (i + 1))

  get_or-read_bytes :
      (n i m k : ℕ)
      → m < n
      → k ≡ i + m
      → get_or (read_bytes table start quantity n i) m 0 ≡ read_byte table start quantity k 8 0 0
  unfolding read_bytes
  get_or-read_bytes zero i m k h e = absurd (omega arith)
  get_or-read_bytes (suc n) i zero k h e =
      ap (λ t. read_byte table start quantity t 8 0 0) (omega arith)
  get_or-read_bytes (suc n) i (suc m) k h e =
      get_or-read_bytes n (i + 1) m k (omega arith) (omega arith)

  place : (k : ℕ) → start + k / 8 * 8 + k % 8 ≡ start + k
  place k = omega arith

  -- Bit k of the answer bytes, counted from the lowest bit of the first byte.
  bit-read_bytes :
      (n k : ℕ)
      → k < n * 8
      → bit (get_or (read_bytes table start quantity n 0) (k / 8) 0) (k % 8)
        ≡ (if ltb k quantity then bit_read table (u16 (start + k)) else 0)
  bit-read_bytes n k h = rw (get_or-read_bytes n 0 (k / 8) (k / 8) (omega arith) (omega arith)) (
      bit-read_byte table start quantity (k / 8) 8 0 0 (k % 8) (omega arith) (omega arith)
        (λ j p q. zero_bit j q) (omega arith)
      ∙ ground (arith, ap (λ t. bit_read table (u16 t)) (place k)))

-- The answer carries the `quantity` bits of the table from `start` on, eight to a byte, the lowest
-- first; the bits behind them are 0.
pub record IsBitsAnswer (table : List ℕ) (start quantity : ℕ) (answer : List ℕ) : Type 0 where
  pub count : get_or answer 1 0 ≡ (quantity + 7) / 8
  pub size : length answer ≡ 2 + (quantity + 7) / 8
  pub bits :
      (k : ℕ)
      → k < quantity
      → bit (get_or answer (2 + k / 8) 0) (k % 8) ≡ bit_read table (start + k)
  pub padding :
      (k : ℕ)
      → quantity ≤ k
      → k < (quantity + 7) / 8 * 8
      → bit (get_or answer (2 + k / 8) 0) (k % 8) ≡ 0

-- A request for bits that fits the table: `quantity` of them from `start` on.
pub record AsksBits (rx_pdu : List ℕ) (start quantity : ℕ) : Type 0 where
  pub size : length rx_pdu ≡ 5
  pub start_word : start_of rx_pdu ≡ start
  pub quantity_word : quantity_of rx_pdu ≡ quantity
  pub some_bit : 1 ≤ quantity
  pub in_table : start + quantity ≤ max_coils

-- The table that a function code reads: the coils (0x01), or the discrete bits as they are
-- refreshed from the debounced inputs (0x02).
abbrev pub bits_of : Server → ℕ → List ℕ
bits_of s fc =
    if fc == 0x01
    then s.coil_bits
    else mirror_inputs (digital_inputs_read_all s.board) s.discrete_bits

bits_answer :
    (table : List ℕ) (fc start quantity : ℕ)
    → 1 ≤ quantity
    → start + quantity ≤ max_coils
    → let byte_count = u8 ((quantity + 7) / 8) in
      IsBitsAnswer table start quantity
        (fc ∷ byte_count ∷ read_bytes table start quantity byte_count 0)
bits_answer table fc start quantity p q = record {
  count = omega arith;
  size = omega (arith, length-read_bytes table start quantity n 0);
  bits = λ k h. rw (get_or_two fc n (read_bytes table start quantity n 0) (k / 8) 0) (
      bit-read_bytes table start quantity n k (omega arith)
      ∙ ground (arith, ap (bit_read table) (no_wrap k h)));
  padding = λ k h l.
      rw (get_or_two fc n (read_bytes table start quantity n 0) (k / 8) 0)
        (bit-read_bytes table start quantity n k (omega arith) ∙ ground arith);
}
  where
    n : ℕ
    n = u8 ((quantity + 7) / 8)

    no_wrap : (k : ℕ) → k < quantity → u16 (start + k) ≡ start + k
    no_wrap k h = omega arith

read_bits_accepted :
    (s : Server) (fc : ℕ) (rx_pdu : List ℕ) (start quantity : ℕ)
    → (fc ≡ 0x01) ⊎ (fc ≡ 0x02)
    → AsksBits rx_pdu start quantity
    → let n = u8 ((quantity + 7) / 8) in
      read_bits s fc rx_pdu ≡ (
        (if fc == 0x01 then s else record s { discrete_bits = bits_of s fc }),
        fc ∷ n ∷ read_bytes (bits_of s fc) start quantity n 0,
      )
unfolding read_bits
read_bits_accepted s fc rx_pdu start quantity f a = ground arith

-- Read Coils and Read Discrete Inputs: a request that fits the table is answered by exactly the
-- bits asked for. 0x01 changes nothing; 0x02 refreshes the discrete bits and changes nothing else.
pub read_bits_lem :
    (s : Server) (fc : ℕ) (rx_pdu : List ℕ) (start quantity : ℕ)
    → (fc ≡ 0x01) ⊎ (fc ≡ 0x02)
    → AsksBits rx_pdu start quantity
    → let (s', answer) = read_bits s fc rx_pdu in
      IsBitsAnswer (bits_of s fc) start quantity answer
      × (get_or answer 0 0 ≡ fc)
      × (s' ≡ (if fc == 0x01 then s else record s { discrete_bits = bits_of s fc }))
read_bits_lem s fc rx_pdu start quantity f a =
    rw (read_bits_accepted s fc rx_pdu start quantity f a)
      (bits_answer (bits_of s fc) fc start quantity a.some_bit a.in_table, refl, refl)
