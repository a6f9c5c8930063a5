-- ===== src/Board/Inputs.antt =====
-- src/digital_io.c: the scan of the digital inputs, with its debouncing.
use stm32_automation_board.Common.{
  ℕ, zero, suc, ◌+◌, ◌/◌, ◌^◌, ◌<◌, bit_and, bit_or, List, [], ◌∷◌, Bool, if◌then◌else◌, ltb, leb,
  ◌&&◌, ◌==◌, ◌≡◌, refl, arith, length, get_or, set, min, replicate, inl, inr, Bool-cases,
  length-set, get_or-set_self, get_or-set_ne,
}
use stm32_automation_board.Common.Bits.{bit, bit-set_bit, pow_byte, bit_or-bound, bit_and-one}
use stm32_automation_board.Common.Loops.{for_range, for_range_inv}
use stm32_automation_board.Common.Word.{u8, IsByte}
use stm32_automation_board.Board.{di_count}

-- `digital_input_states` and `di_debounce`
pub record Inputs : Type 0 where
  pub digital_input_states : ℕ
  pub di_debounce : List ℕ

-- The statics before the first scan.
abbrev pub no_inputs : Inputs
no_inputs = record { digital_input_states = 0; di_debounce = replicate di_count 0 }

-- The body of the loop: `high i` is `port & di_pins[i]`, and the state is `di_debounce` and `raw`.
unfoldable pub scan_channel : (ℕ → Bool) → ℕ → List ℕ × ℕ → List ℕ × ℕ
scan_channel high i s =
    let (debounce, raw) = s in
    let count = get_or debounce i 0 in
    if high i
    then (set debounce i 0, raw)
    else if ltb count 5
    then (set debounce i (u8 (count + 1)), raw)
    else (debounce, u8 (bit_or raw (2 ^ i)))

unfoldable pub digital_inputs_scan : (ℕ → Bool) → Inputs → Inputs
digital_inputs_scan high s =
    let (debounce, raw) = for_range di_count 0 (scan_channel high) (s.di_debounce, 0) in
    record { digital_input_states = raw; di_debounce = debounce }

unfoldable pub digital_input_read : ℕ → Inputs → ℕ
digital_input_read channel s =
    if leb di_count channel then 0 else bit_and (s.digital_input_states / 2 ^ channel) 0x01

-- The scans of a history of readings, the last one first.
abbrev pub scans : List (ℕ → Bool) → Inputs → Inputs
scans [] s = s
scans (high ∷ history) s = digital_inputs_scan high (scans history s)

-- For how many of the last readings the pin was low without a break.
abbrev pub low_for : List (ℕ → Bool) → ℕ → ℕ
low_for [] i = 0
low_for (high ∷ history) i = let before = low_for history i in if high i then 0 else before + 1

-- The loop before channel `i`: what it did to channel `j`.
record IsScanned (high : ℕ → Bool) (history : List (ℕ → Bool)) (i : ℕ) (s : List ℕ × ℕ)
    : Type 0 where
  size : length s.0 ≡ di_count
  byte : IsByte s.1
  counts :
      (j : ℕ)
      → j < 8
      → get_or s.0 j 0 ≡ min (if ltb j i then low_for (high ∷ history) j else low_for history j) 5
  bits :
      (j : ℕ) → j < 8 → bit s.1 j ≡ (if ltb j i && ltb 5 (low_for (high ∷ history) j) then 1 else 0)

zero_bit : (j : ℕ) → j < 8 → bit 0 j ≡ 0
zero_bit j h = ground arith

no_count : (n j : ℕ) → get_or {A = ℕ} (replicate n 0) j 0 ≡ 0
no_count zero j = refl
no_count (suc n) zero = refl
no_count (suc n) (suc j) = no_count n j

set_at :
    (xs : List ℕ) (i j v : ℕ)
    → i < length xs
    → get_or (set xs i v) j 0 ≡ (if i == j then v else get_or xs j 0)
set_at xs i j v h = elim (Bool-cases (i == j)) [
  | inl e ↦ let same : i ≡ j = ground (arith, e) in rw (e, ← same) (get_or-set_self xs i v 0 h)
  | inr e ↦ rw e (get_or-set_ne xs i j v 0 (ground (arith, e)))
]

scan_channel-IsScanned :
    (high : ℕ → Bool) (history : List (ℕ → Bool)) (i : ℕ) (s : List ℕ × ℕ)
    → i < 8
    → IsScanned high history i s
    → IsScanned high history (i + 1) (scan_channel high i s)
unfolding scan_channel
scan_channel-IsScanned high history i s lt v = record {
  size = ground (arith, v.size, length-set s.0 i 0, length-set s.0 i (u8 (get_or s.0 i 0 + 1)));
  byte = ground (arith, v.byte);
  counts = λ j h. ground (
    arith,
    v.size,
    v.counts j h,
    v.counts i lt,
    set_at s.0 i j 0,
    set_at s.0 i j (u8 (get_or s.0 i 0 + 1)),
  );
  bits = λ j h. ground (
    arith,
    v.bits j h,
    v.bits i lt,
    v.counts i lt,
    bit_or-bound 8 s.1 (2 ^ i) v.byte (pow_byte i lt),
    bit-set_bit s.1 i j v.byte lt h,
  );
}

-- What a history of scans leaves.
record IsDebounced (history : List (ℕ → Bool)) (s : Inputs) : Type 0 where
  size : length s.di_debounce ≡ di_count
  counts : (j : ℕ) → j < 8 → get_or s.di_debounce j 0 ≡ min (low_for history j) 5
  bits :
      (j : ℕ) → j < 8 → bit s.digital_input_states j ≡ (if ltb 5 (low_for history j) then 1 else 0)

digital_inputs_scan-IsDebounced :
    (high : ℕ → Bool) (history : List (ℕ → Bool)) (s : Inputs)
    → IsDebounced history s
    → IsDebounced (high ∷ history) (digital_inputs_scan high s)
unfolding digital_inputs_scan
digital_inputs_scan-IsDebounced high history s v =
    let looped =
      for_range_inv (IsScanned high history) (scan_channel high) 8
        (λ i state lt w. scan_channel-IsScanned high history i state lt w) 8 0 (s.di_debounce, 0)
        (omega arith)
        (record {
          size = v.size;
          byte = omega arith;
          counts = λ j h. ground (arith, v.counts j h);
          bits = λ j h. ground (arith, zero_bit j h);
        }) in
    record {
      size = looped.size;
      counts = λ j h. ground (arith, h, looped.counts j h);
      bits = λ j h. ground (arith, h, looped.bits j h);
    }

scans-IsDebounced : (history : List (ℕ → Bool)) → IsDebounced history (scans history no_inputs)
scans-IsDebounced [] = record {
  size = refl;
  counts = λ j h. ground (arith, no_count di_count j);
  bits = λ j h. zero_bit j h;
}
scans-IsDebounced (high ∷ history) =
    digital_inputs_scan-IsDebounced high history (scans history no_inputs)
      (scans-IsDebounced history)

-- After any history of scans a digital input reads as 1 if its pin was low in the last six of them at
-- least, and as 0 otherwise; so does a channel that there is not.
pub digital_input_read-scans :
    (history : List (ℕ → Bool)) (channel : ℕ)
    → digital_input_read channel (scans history no_inputs)
      ≡ (if ltb channel di_count && leb 6 (low_for history channel) then 1 else 0)
unfolding digital_input_read
digital_input_read-scans history channel =
    let states = (scans history no_inputs).digital_input_states in
    elim (Bool-cases (ltb channel 8)) [
      | inl e ↦
          let known = (scans-IsDebounced history).bits channel (ground (arith, e)) in
          ground (arith, e, known, bit_and-one (states / 2 ^ channel))
      | inr e ↦ ground (arith, e)
    ]
