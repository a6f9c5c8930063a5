-- ===== src/Common/Word.antt =====
-- Casts to the fixed widths, big-endian 16-bit words, and lists of bytes and of registers.
use Prim.Native.Nat.{ℕ, ◌+◌, ◌*◌, ◌/◌, ◌%◌, ◌^◌, ◌<◌, bit_and, bit_or}
use mathlib.Core.Path.{◌≡◌}
use mathlib.Core.List.{List, [], ◌∷◌}
use mathlib.Core.Bool.{Bool, true, ◌&&◌}
use native.Mathlib.Omega.{arith}
use stm32_automation_board.Common.Tests.{ltb}
use stm32_automation_board.Common.Lists.{All}
use stm32_automation_board.Common.Bits.{bit_or_sum, bit_and_low}

abbrev pub u8 : ℕ → ℕ
u8 n = n % 2 ^ 8

abbrev pub u16 : ℕ → ℕ
u16 n = n % 2 ^ 16

abbrev pub u32 : ℕ → ℕ
u32 n = n % 2 ^ 32

-- `((uint16_t)hi << 8) | lo`
unfoldable pub be16 : ℕ → ℕ → ℕ
be16 hi lo = bit_or (hi * 2 ^ 8) lo

-- `(uint8_t)(v >> 8)` and `(uint8_t)(v & 0xFF)`
unfoldable pub hi8 : ℕ → ℕ
hi8 v = u8 (v / 2 ^ 8)

unfoldable pub lo8 : ℕ → ℕ
lo8 v = u8 (bit_and v 0xff)

abbrev pub IsByte : ℕ → Type 0
IsByte b = b < 256

abbrev pub IsWord : ℕ → Type 0
IsWord w = w < 65536

abbrev pub IsBytes : List ℕ → Type 0
IsBytes = All IsByte

abbrev pub IsWords : List ℕ → Type 0
IsWords = All IsWord

pub be16_sum : (hi lo : ℕ) → IsByte lo → be16 hi lo ≡ hi * 256 + lo
unfolding be16
be16_sum hi lo h = bit_or_sum 8 hi lo h

pub be16-IsWord : (hi lo : ℕ) → IsByte hi → IsByte lo → IsWord (be16 hi lo)
be16-IsWord hi lo p q = omega (arith, be16_sum hi lo q)

pub lo8_mod : (v : ℕ) → lo8 v ≡ v % 256
unfolding lo8
lo8_mod v = omega (arith, bit_and_low 8 v)

pub hi8-IsByte : (v : ℕ) → IsByte (hi8 v)
unfolding hi8
hi8-IsByte v = omega arith

pub lo8-IsByte : (v : ℕ) → IsByte (lo8 v)
unfolding lo8
lo8-IsByte v = omega arith

-- Splitting a word into bytes and joining them gives the word back.
pub be16-hi8-lo8 : (v : ℕ) → IsWord v → be16 (hi8 v) (lo8 v) ≡ v
unfolding hi8
be16-hi8-lo8 v h = omega (arith, lo8_mod v, be16_sum (hi8 v) (lo8 v) (lo8-IsByte v))

pub hi8-be16 : (hi lo : ℕ) → IsByte hi → IsByte lo → hi8 (be16 hi lo) ≡ hi
unfolding hi8
hi8-be16 hi lo p q = omega (arith, be16_sum hi lo q)

pub lo8-be16 : (hi lo : ℕ) → IsByte lo → lo8 (be16 hi lo) ≡ lo
lo8-be16 hi lo q = omega (arith, lo8_mod (be16 hi lo), be16_sum hi lo q)

-- Whether a fixed list is made of bytes.
abbrev pub are_bytes : List ℕ → Bool
are_bytes [] = true
are_bytes (x ∷ xs) = ltb x 256 && are_bytes xs

pub are_bytes-IsBytes : (xs : List ℕ) → are_bytes xs ≡ true → IsBytes xs
are_bytes-IsBytes [] e = tt
are_bytes-IsBytes (x ∷ xs) e = (ground arith, are_bytes-IsBytes xs (ground arith))
