-- ===== src/Common/Bits.antt =====
-- Laws of the bit operations at variables, from their recursion on binary digits.
use Prim.Native.Nat.{ℕ, zero, suc, ◌+◌, ◌-◌, ◌*◌, ◌/◌, ◌%◌, ◌^◌, ◌≤◌, ◌<◌, min, max}
use Prim.Native.Nat.{bit_and, bit_or, bit_xor, digits, bitwise, differ, compare}
use Prim.Native.Nat.Ordering.{eq}
use Prim.Native.Nat.{bit_and-bitwise, bit_or-bitwise, bit_xor-bitwise}
use mathlib.Core.Path.{◌≡◌, refl, ◌∙◌, ap}
use mathlib.Core.Bool.{Bool, true, ◌&&◌}
use native.Mathlib.Nat.{pow-suc, one-le-pow, div-div-eq-div-mul, mul_comm}
use native.Mathlib.Omega.{arith}
use stm32_automation_board.Common.Tests.{◌==◌, ==_iff, ltb, ltb→lt}

module _ (rest : ℕ → ℕ) (op : ℕ → ℕ → ℕ) where
  -- More fuel than the first number gives the same digits.
  same_digits : (m : ℕ) (x n y : ℕ) → x ≤ m → x ≤ n → digits rest op m x y ≡ digits rest op n x y
  same_digits (suc m) (suc x) (suc n) y h k =
      rw (same_digits m (suc x / 2) n (y / 2) (omega arith) (omega arith))
  same_digits (suc m) (suc x) zero y h k = absurd (omega arith)
  same_digits (suc m) zero (suc n) y h k = refl
  same_digits (suc m) zero zero y h k = refl
  same_digits zero (suc x) n y h k = absurd (omega arith)
  same_digits zero zero (suc n) y h k = refl
  same_digits zero zero zero y h k = refl

  lowest_digit :
      (x y : ℕ)
      → bitwise rest op (suc x) y ≡ bitwise rest op (suc x / 2) (y / 2) * 2 + op (suc x % 2) (y % 2)
  lowest_digit x y =
      let enough : suc x / 2 ≤ suc x / 2 = omega arith in
      omega (arith, same_digits x (suc x / 2) (suc x / 2) (y / 2) (omega arith) enough)

pub bit_and_halves : (x y : ℕ) → bit_and x y ≡ min (x % 2) (y % 2) + 2 * bit_and (x / 2) (y / 2)
bit_and_halves zero y = simp bit_and-bitwise (omega arith)
bit_and_halves (suc x) y = simp bit_and-bitwise (omega (arith, lowest_digit (λ d. 0) min x y))

pub bit_or_halves : (x y : ℕ) → bit_or x y ≡ max (x % 2) (y % 2) + 2 * bit_or (x / 2) (y / 2)
bit_or_halves zero y = simp bit_or-bitwise (omega arith)
bit_or_halves (suc x) y = simp bit_or-bitwise (omega (arith, lowest_digit (λ d. d) max x y))

-- The sum of two binary digits without carry.
abbrev pub xor2 : ℕ → ℕ → ℕ
xor2 a b = (a + b) % 2

differ-xor2 : (x y : ℕ) → x < 2 → y < 2 → differ x y ≡ xor2 x y
differ-xor2 zero y p q = omega arith
differ-xor2 (suc zero) zero p q = refl
differ-xor2 (suc zero) (suc zero) p q = refl
differ-xor2 (suc zero) (suc (suc y)) p q = absurd (omega arith)
differ-xor2 (suc (suc x)) y p q = absurd (omega arith)

pub bit_xor_halves : (a b : ℕ) → bit_xor a b ≡ bit_xor (a / 2) (b / 2) * 2 + xor2 (a % 2) (b % 2)
bit_xor_halves zero b = simp bit_xor-bitwise (omega arith)
bit_xor_halves (suc a) b = simp bit_xor-bitwise (
    lowest_digit (λ y. y) differ a b
    ∙ ap (λ t. bitwise (λ y. y) differ (suc a / 2) (b / 2) * 2 + t)
        (differ-xor2 (suc a % 2) (b % 2) (omega arith) (omega arith)))

-- Zero on the right; the recursion is on a bound of the number.
right_zero : (bound x : ℕ) → x ≤ bound → (bit_or x 0 ≡ x) × (bit_and x 0 ≡ 0)
right_zero bound zero h = (refl, refl)
right_zero zero (suc x) h = absurd (omega arith)
right_zero (suc bound) (suc x) h =
    let (joined, masked) = right_zero bound (suc x / 2) (omega arith) in
    (
      omega (arith, bit_or_halves (suc x) 0, joined),
      omega (arith, bit_and_halves (suc x) 0, masked),
    )

-- A number whose lowest `w` bits are 0, doubled.
doubled : (hi w : ℕ) → hi * 2 ^ suc w ≡ 2 * (hi * 2 ^ w)
doubled hi w = omega (arith, ap (λ (weight : ℕ). hi * weight) (pow-suc 2 w))

-- What is put below the lowest `w` bits is added.
pub bit_or_sum : (w hi lo : ℕ) → lo < 2 ^ w → bit_or (hi * 2 ^ w) lo ≡ hi * 2 ^ w + lo
bit_or_sum zero hi lo small = ground (arith, (right_zero (hi * 2 ^ 0) (hi * 2 ^ 0) (omega arith)).0)
bit_or_sum (suc w) hi lo small =
    let half = bit_or_sum w hi (lo / 2) (omega (arith, pow-suc 2 w)) in
    ground (arith, half, doubled hi w, bit_or_halves (hi * 2 ^ suc w) lo)

mask_of_sum : (w hi lo : ℕ) → lo < 2 ^ w → bit_and (hi * 2 ^ w + lo) (2 ^ w - 1) ≡ lo
mask_of_sum zero hi lo small =
    let none = (right_zero (hi * 2 ^ 0 + lo) (hi * 2 ^ 0 + lo) (omega arith)).1 in
    ground (arith, none)
mask_of_sum (suc w) hi lo small =
    let half = mask_of_sum w hi (lo / 2) (omega (arith, pow-suc 2 w)) in
    ground
      (arith, half, pow-suc 2 w, doubled hi w, bit_and_halves (hi * 2 ^ suc w + lo) (2 ^ suc w - 1))

-- The lowest `w` bits are what is left of a division by `2 ^ w`.
pub bit_and_low : (w x : ℕ) → bit_and x (2 ^ w - 1) ≡ x % 2 ^ w
bit_and_low w x =
    let split = mask_of_sum w (x / 2 ^ w) (x % 2 ^ w) in ground (arith, split, one-le-pow w 2)

-- Over a small range, check every value by evaluation.
unfoldable pub all_below : ℕ → (ℕ → Bool) → Bool
all_below zero test = true
all_below (suc count) test = all_below count test && test count

pub all_below_sound :
    (count : ℕ) (test : ℕ → Bool) (x : ℕ) → all_below count test ≡ true → x < count → test x ≡ true
unfolding all_below
all_below_sound (suc count) test x passed inside =
    let earlier = all_below_sound count test x in ground (arith, earlier)
all_below_sound zero test x passed inside = absurd (omega arith)

pub zero-bit_xor : (b : ℕ) → bit_xor 0 b ≡ b
zero-bit_xor b = simp bit_xor-bitwise refl

zero-bit_and : (b : ℕ) → bit_and 0 b ≡ 0
zero-bit_and b = simp bit_and-bitwise refl

pub zero-bit_or : (b : ℕ) → bit_or 0 b ≡ b
zero-bit_or b = simp bit_or-bitwise refl

-- The two parts of an exclusive or.
pub bit_xor_half :
    (a b : ℕ)
    → (bit_xor a b / 2 ≡ bit_xor (a / 2) (b / 2)) × (bit_xor a b % 2 ≡ xor2 (a % 2) (b % 2))
bit_xor_half a b = omega (arith, bit_xor_halves a b)

bit_xor_assoc_fuel : (n a b c : ℕ) → a ≤ n → bit_xor (bit_xor a b) c ≡ bit_xor a (bit_xor b c)
bit_xor_assoc_fuel n zero b c h = rw (zero-bit_xor b, zero-bit_xor (bit_xor b c)) refl
bit_xor_assoc_fuel zero (suc a) b c h = absurd (omega arith)
bit_xor_assoc_fuel (suc n) (suc a) b c h =
    bit_xor_halves (bit_xor (suc a) b) c
    ∙ rw ((bit_xor_half (suc a) b).0, (bit_xor_half (suc a) b).1)
        (rw (bit_xor_assoc_fuel n (suc a / 2) (b / 2) (c / 2) (omega arith))
          (omega (arith, bit_xor_halves (suc a) (bit_xor b c), halves, (bit_xor_half b c).1)))
  where
    halves : bit_xor (suc a / 2) (bit_xor b c / 2) ≡ bit_xor (suc a / 2) (bit_xor (b / 2) (c / 2))
    halves = ap (bit_xor (suc a / 2)) (bit_xor_half b c).0

-- Exclusive or is associative.
pub bit_xor_assoc : (a b c : ℕ) → bit_xor (bit_xor a b) c ≡ bit_xor a (bit_xor b c)
bit_xor_assoc a b c = bit_xor_assoc_fuel a a b c (omega arith)

bit_xor_comm_fuel : (n a b : ℕ) → a + b ≤ n → bit_xor a b ≡ bit_xor b a
bit_xor_comm_fuel n zero zero h = refl
bit_xor_comm_fuel zero zero (suc b) h = absurd (omega arith)
bit_xor_comm_fuel zero (suc a) b h = absurd (omega arith)
bit_xor_comm_fuel (suc n) zero (suc b) h = omega (
  arith,
  bit_xor_halves 0 (suc b),
  bit_xor_halves (suc b) 0,
  bit_xor_comm_fuel n 0 (suc b / 2) (omega arith),
)
bit_xor_comm_fuel (suc n) (suc a) b h = omega (
  arith,
  bit_xor_halves (suc a) b,
  bit_xor_halves b (suc a),
  bit_xor_comm_fuel n (suc a / 2) (b / 2) (omega arith),
)

pub bit_xor_comm : (a b : ℕ) → bit_xor a b ≡ bit_xor b a
bit_xor_comm a b = bit_xor_comm_fuel (a + b) a b (omega arith)

bit_xor-self_fuel : (n a : ℕ) → a ≤ n → bit_xor a a ≡ 0
bit_xor-self_fuel n zero h = refl
bit_xor-self_fuel zero (suc a) h = absurd (omega arith)
bit_xor-self_fuel (suc n) (suc a) h =
    omega (arith, bit_xor_halves (suc a) (suc a), bit_xor-self_fuel n (suc a / 2) (omega arith))

pub bit_xor_self : (a : ℕ) → bit_xor a a ≡ 0
bit_xor_self a = bit_xor-self_fuel a a (omega arith)

pub bit_xor-bound : (k a b : ℕ) → a < 2 ^ k → b < 2 ^ k → bit_xor a b < 2 ^ k
bit_xor-bound zero zero b p q = rw zero-bit_xor q
bit_xor-bound zero (suc a) b p q = absurd (omega arith)
bit_xor-bound (suc k) a b p q = omega (
  arith,
  bit_xor_halves a b,
  pow-suc 2 k,
  bit_xor-bound k (a / 2) (b / 2) (omega (arith, pow-suc 2 k)) (omega (arith, pow-suc 2 k)),
)

pub bit_or-bound : (k a b : ℕ) → a < 2 ^ k → b < 2 ^ k → bit_or a b < 2 ^ k
bit_or-bound zero zero b p q = rw zero-bit_or q
bit_or-bound zero (suc a) b p q = absurd (omega arith)
bit_or-bound (suc k) a b p q = omega (
  arith,
  bit_or_halves a b,
  pow-suc 2 k,
  bit_or-bound k (a / 2) (b / 2) (omega (arith, pow-suc 2 k)) (omega (arith, pow-suc 2 k)),
)

bit_and-le_fuel : (n a b : ℕ) → a ≤ n → bit_and a b ≤ a
bit_and-le_fuel n zero b p = rw zero-bit_and (omega arith)
bit_and-le_fuel zero (suc a) b p = absurd (omega arith)
bit_and-le_fuel (suc n) (suc a) b p =
    omega (arith, bit_and_halves (suc a) b, bit_and-le_fuel n (suc a / 2) (b / 2) (omega arith))

pub bit_and-le : (a b : ℕ) → bit_and a b ≤ a
bit_and-le a b = bit_and-le_fuel a a b (omega arith)

bit_or_comm_fuel : (n a b : ℕ) → a + b ≤ n → bit_or a b ≡ bit_or b a
bit_or_comm_fuel n zero zero h = refl
bit_or_comm_fuel zero zero (suc b) h = absurd (omega arith)
bit_or_comm_fuel zero (suc a) b h = absurd (omega arith)
bit_or_comm_fuel (suc n) zero (suc b) h = omega (
  arith,
  bit_or_halves 0 (suc b),
  bit_or_halves (suc b) 0,
  bit_or_comm_fuel n 0 (suc b / 2) (omega arith),
)
bit_or_comm_fuel (suc n) (suc a) b h = omega (
  arith,
  bit_or_halves (suc a) b,
  bit_or_halves b (suc a),
  bit_or_comm_fuel n (suc a / 2) (b / 2) (omega arith),
)

pub bit_or_comm : (a b : ℕ) → bit_or a b ≡ bit_or b a
bit_or_comm a b = bit_or_comm_fuel (a + b) a b (omega arith)

-- The digit of weight `2 ^ j`.
abbrev pub bit : ℕ → ℕ → ℕ
bit x j = x / 2 ^ j % 2

bit-suc : (x j : ℕ) → bit x (suc j) ≡ bit (x / 2) j
bit-suc x j = rw (div-div-eq-div-mul x 2 (2 ^ j), pow-suc 2 j, mul_comm (2 ^ j) 2) refl

pub bit-bit_and : (j x y : ℕ) → bit (bit_and x y) j ≡ min (bit x j) (bit y j)
bit-bit_and zero x y = omega (arith, bit_and_halves x y)
bit-bit_and (suc j) x y =
    let half : bit_and x y / 2 ≡ bit_and (x / 2) (y / 2) = omega (arith, bit_and_halves x y) in
    rw (bit-suc (bit_and x y) j, bit-suc x j, bit-suc y j, half) (bit-bit_and j (x / 2) (y / 2))

pub bit-bit_or : (j x y : ℕ) → bit (bit_or x y) j ≡ max (bit x j) (bit y j)
bit-bit_or zero x y = omega (arith, bit_or_halves x y)
bit-bit_or (suc j) x y =
    let half : bit_or x y / 2 ≡ bit_or (x / 2) (y / 2) = omega (arith, bit_or_halves x y) in
    rw (bit-suc (bit_or x y) j, bit-suc x j, bit-suc y j, half) (bit-bit_or j (x / 2) (y / 2))

-- The digits of the complement in `n` bits.
pub bit_complement : (n j a : ℕ) → a < 2 ^ n → j < n → bit (2 ^ n - 1 - a) j ≡ 1 - bit a j
bit_complement zero j a h k = absurd (omega arith)
bit_complement (suc n) zero a h k = omega (arith, pow-suc 2 n)
bit_complement (suc n) (suc j) a h k =
    let half : (2 ^ suc n - 1 - a) / 2 ≡ 2 ^ n - 1 - a / 2 = omega (arith, pow-suc 2 n) in
    rw (bit-suc (2 ^ suc n - 1 - a) j, bit-suc a j, half)
      (bit_complement n j (a / 2) (omega (arith, pow-suc 2 n)) (omega arith))

pub bit_and-one : (a : ℕ) → bit_and a 1 ≡ a % 2
bit_and-one a = bit_and_low 1 a

-- `x |= 1 << k` sets the bit k of a byte and leaves the others.
set_bit_table :
    all_below 256 (λ x. all_below 8 (λ k.
      all_below 8 (λ j. bit (bit_or x (2 ^ k)) j == elim (compare j k) [ eq ↦ 1 | _ ↦ bit x j ])))
    ≡ true
unfolding all_below
set_bit_table = refl

-- `x &= ~(1 << k)` clears it.
clear_bit_table :
    all_below 256 (λ x. all_below 8 (λ k.
      all_below 8 (λ j.
        bit (bit_and x (2 ^ 32 - 1 - 2 ^ k)) j == elim (compare j k) [ eq ↦ 0 | _ ↦ bit x j ])))
    ≡ true
unfolding all_below
clear_bit_table = refl

module _ (x k j : ℕ) (hx : x < 256) (hk : k < 8) (hj : j < 8) where
  pub bit-set_bit : bit (bit_or x (2 ^ k)) j ≡ elim (compare j k) [ eq ↦ 1 | _ ↦ bit x j ]
  bit-set_bit = (==_iff _ _).0 (
      all_below_sound 8 _ j (all_below_sound 8 _ k (all_below_sound 256 _ x set_bit_table hx) hk)
        hj)

  pub bit-clear_bit :
      bit (bit_and x (2 ^ 32 - 1 - 2 ^ k)) j ≡ elim (compare j k) [ eq ↦ 0 | _ ↦ bit x j ]
  bit-clear_bit = (==_iff _ _).0 (
      all_below_sound 8 _ j (all_below_sound 8 _ k (all_below_sound 256 _ x clear_bit_table hx) hk)
        hj)

pub pow_byte : (k : ℕ) → k < 8 → 2 ^ k < 256
pow_byte k h = ltb→lt _ _ (all_below_sound 8 (λ k. ltb (2 ^ k) 256) k table h)
  where
    table : all_below 8 (λ k. ltb (2 ^ k) 256) ≡ true
    table = unfold all_below in refl
