-- ===== src/Framer/Assembly.antt =====
-- What a framer has assembled of a frame, and what it holds for the application.
use stm32_automation_board.Common.{
  ℕ, zero, suc, ◌+◌, ◌≤◌, ◌<◌, List, [], ◌∷◌, ◌++◌, if◌then◌else◌, ltb, ◌||◌, ◌≡◌, refl, ap, ◌∙◌,
  arith, length, set, take, length-take, take_all, append-nil,
}
use stm32_automation_board.Common.Word.{u16}
use stm32_automation_board.Framer.{
  Framer, is_idle, Systick, copied, rtu_elapsed_us, rtu_timer_start_t35, rtu_framer_on_byte,
}
use stm32_automation_board.Framer.Valid

-- The bytes of the frame being assembled.
abbrev pub assembled : Framer → List ℕ
assembled f = take f.rx_len f.rx_buffer

-- The frame that waits for the application, none if it is empty.
abbrev pub waiting : Framer → List ℕ
waiting f = if f.frame_ready then take f.completed_len f.completed_buffer else []

take-suc : (xs : List ℕ) (n x : ℕ) → n < length xs → take (suc n) (set xs n x) ≡ take n xs ++ x ∷ []
take-suc [] n x h = absurd (omega arith)
take-suc (y ∷ ys) zero x h = refl
take-suc (y ∷ ys) (suc n) x h = ap (◌∷◌ y) (take-suc ys n x (omega arith))

pub take-copied :
    (n : ℕ) (src dst : List ℕ) → n ≤ length src → take n (copied n src dst) ≡ take n src
take-copied zero src dst h = refl
take-copied (suc n) [] dst h = absurd (omega arith)
take-copied (suc n) (x ∷ xs) [] h =
    ap (λ ys. take (suc n) (x ∷ ys)) (append-nil (take n xs))
    ∙ ap (◌∷◌ x) (take_all n (take n xs) (omega (arith, length-take n xs)))
take-copied (suc n) (x ∷ xs) (y ∷ ys) h = ap (◌∷◌ x) (take-copied n xs ys (omega arith))

-- A received byte begins a frame, goes on with one, or, behind a gap of more than T1.5, begins
-- another; where the buffer is full it is dropped. A frame that still waits for the application
-- stays as it is, and keeps new frames from beginning.
pub assembled-rtu_framer_on_byte :
    (t t' : Systick) (byte : ℕ) (f : Framer)
    → Valid.IsValid f
    → let f' = rtu_framer_on_byte t t' byte f in
      (assembled f' ≡ (
        if is_idle f.state || ltb f.t15_us (rtu_elapsed_us f t)
        then (if f.frame_ready then [] else byte ∷ [])
        else if ltb f.rx_len f.buffer_size
        then assembled f ++ byte ∷ []
        else assembled f))
      × (waiting f' ≡ waiting f)
      × (f'.frame_ready ≡ f.frame_ready)
unfolding rtu_framer_on_byte rtu_timer_start_t35
assembled-rtu_framer_on_byte t t' byte f v =
    let n : f.rx_len < 256 → u16 (f.rx_len + 1) ≡ suc f.rx_len = λ h. omega arith in
    let first = take-suc f.rx_buffer 0 byte (omega (arith, v.rx_room, v.some_room)) in
    ground (arith, v.begun, v.most, v.rx_room, n, first, take-suc f.rx_buffer f.rx_len byte)
