-- ===== src/Framer/Delivery.antt =====
-- A whole frame, from its bytes on the line to the application.
use stm32_automation_board.Common.{
  ℕ, ◌+◌, ◌≤◌, List, [], ◌∷◌, ◌++◌, true, false, leb, ◌≡◌, refl, sym, ap, ◌∙◌, arith, length,
  length-append, append_assoc, append-nil, Bool-cases, inl, inr,
}
use stm32_automation_board.Framer.{
  Framer, is_idle, Systick, rtu_try_complete_frame, rtu_framer_on_byte, rtu_framer_on_systick,
}
use stm32_automation_board.Framer.Valid
use stm32_automation_board.Framer.Valid.{
  rtu_framer_on_byte-IsValid, rtu_try_complete_frame-IsValid, with_tick-IsValid, take_frame-IsValid,
}
use stm32_automation_board.Common.Word.{u32}
use mathlib.Core.Path.{subst}
use stm32_automation_board.Framer.Events.{
  LineEvent, byte_in, tick, poll, after_event, handed, after, call, delivered, byte_of, bytes_of,
  since, is_prompt, in_time, silent, polled, closed, SameSetup, same_trans, event-SameSetup,
}
use stm32_automation_board.Framer.Phases.{
  IsBusy, IsFull, IsResting, event-IsResting, tick-IsFull, full_process, full_poll,
}
use stm32_automation_board.Framer.Busy.{
  closes, with_tick-IsBusy, quiet-IsBusy, byte-IsBusy, first_byte,
}

-- The silence behind a frame.
silence-IsResting :
    (es : List LineEvent) (f : Framer)
    → IsResting f
    → silent es ≡ true
    → (delivered es f ≡ []) × IsResting (after es f)
silence-IsResting [] f v q = (refl, v)
silence-IsResting (e ∷ es) f v q =
    let (w, none) = event-IsResting e f v (ground (arith, q)) in
    let (rest, last) = silence-IsResting es (after_event e f) w (ground (arith, q)) in
    (ap (λ xs. call xs (delivered es (after_event e f))) none ∙ rest, last)

full_silence :
    (es : List LineEvent) (x : ℕ) (xs : List ℕ) (f : Framer)
    → IsFull (x ∷ xs) f
    → silent es ≡ true
    → polled es ≡ true
    → (delivered es f ≡ (x ∷ xs) ∷ []) × IsResting (after es f)
full_silence [] x xs f v q p = absurd (ground (arith, p))
full_silence (byte_in t t' byte ∷ es) x xs f v q p = absurd (ground (arith, q))
full_silence (tick t ∷ es) x xs f v q p =
    full_silence es x xs (after_event (tick t) f) (tick-IsFull t (x ∷ xs) f v) q p
full_silence (poll t ∷ es) x xs f v q p =
    let (w, got) = full_poll t (x ∷ xs) f v in
    let (rest, last) = silence-IsResting es (after_event (poll t) f) w q in
    (ap (λ ys. call ys (delivered es (after_event (poll t) f))) got ∙ ap (◌∷◌ (x ∷ xs)) rest, last)

silence_behind :
    (es : List LineEvent) (x : ℕ) (xs : List ℕ) (f : Framer)
    → IsBusy (x ∷ xs) f
    → silent es ≡ true
    → closed es f ≡ true
    → (delivered es f ≡ (x ∷ xs) ∷ []) × IsResting (after es f)
unfolding rtu_framer_on_systick
silence_behind [] x xs f v q c = absurd (ground (arith, c))
silence_behind (byte_in t t' byte ∷ es) x xs f v q c = absurd (ground (arith, q))
silence_behind (tick t ∷ es) x xs f v q c =
    let g : Framer = record f { ms_tick = u32 (f.ms_tick + 1) } in
    elim (Bool-cases (leb f.t35_us (since (tick t) f))) [
      | inl late ↦
          full_silence es x xs (after_event (tick t) f)
            (closes t (x ∷ xs) g (with_tick-IsBusy g.ms_tick (x ∷ xs) f v) (ground (arith, late))) q
            (ground (arith, c, late))
      | inr early ↦
          let (w, none, _) = quiet-IsBusy (tick t) (x ∷ xs) f v refl (ground (arith, early)) in
          silence_behind es x xs (after_event (tick t) f) w q (ground (arith, c, early))
    ]
silence_behind (poll t ∷ es) x xs f v q c = elim (Bool-cases (leb f.t35_us (since (poll t) f))) [
  | inl late ↦
      let (w, got) =
        full_process t (x ∷ xs) f (rtu_try_complete_frame t f) refl
          (closes t (x ∷ xs) f v (ground (arith, late))) v.valid in
      let (rest, last) = silence-IsResting es (after_event (poll t) f) w q in
      (
        ap (λ ys. call ys (delivered es (after_event (poll t) f))) got ∙ ap (◌∷◌ (x ∷ xs)) rest,
        last,
      )
  | inr early ↦
      let (w, none, _) = quiet-IsBusy (poll t) (x ∷ xs) f v refl (ground (arith, early)) in
      let (rest, last) =
        silence_behind es x xs (after_event (poll t) f) w q (ground (arith, c, early)) in
      (ap (λ ys. call ys (delivered es (after_event (poll t) f))) none ∙ rest, last)
]

-- An event in time while a frame is received.
event-IsBusy :
    (e : LineEvent) (bytes : List ℕ) (f : Framer)
    → IsBusy bytes f
    → is_prompt e f ≡ true
    → f.rx_len + length (byte_of e) ≤ f.buffer_size
    → IsBusy (bytes ++ byte_of e) (after_event e f)
      × (handed e f ≡ [])
      × ((after_event e f).rx_len ≡ f.rx_len + length (byte_of e))
event-IsBusy (byte_in t t' byte) bytes f v ok fits =
    let (w, len) = byte-IsBusy t t' byte bytes f v (ground (arith, ok)) (omega (arith, fits)) in
    (w, refl, len)
event-IsBusy (tick t) bytes f v ok fits =
    let (w, none, len) = quiet-IsBusy (tick t) bytes f v refl (ground (arith, ok)) in
    (
      subst (λ xs. IsBusy xs (after_event (tick t) f)) (sym (append-nil bytes)) w,
      none,
      omega (arith, len),
    )
event-IsBusy (poll t) bytes f v ok fits =
    let (w, none, len) = quiet-IsBusy (poll t) bytes f v refl (ground (arith, ok)) in
    (
      subst (λ xs. IsBusy xs (after_event (poll t) f)) (sym (append-nil bytes)) w,
      none,
      omega (arith, len),
    )

-- A frame that is received, with the silence behind it.
frame_goes_on :
    (body tail : List LineEvent) (x : ℕ) (xs : List ℕ) (f : Framer)
    → IsBusy (x ∷ xs) f
    → f.rx_len + length (bytes_of body) ≤ f.buffer_size
    → in_time body f ≡ true
    → silent tail ≡ true
    → closed tail (after body f) ≡ true
    → (delivered (body ++ tail) f ≡ (x ∷ xs ++ bytes_of body) ∷ [])
      × IsResting (after (body ++ tail) f)
frame_goes_on [] tail x xs f v fits ok q c =
    let (got, last) = silence_behind tail x xs f v q c in
    (got ∙ ap (λ ys. (x ∷ ys) ∷ []) (sym (append-nil xs)), last)
frame_goes_on (e ∷ body) tail x xs f v fits ok q c =
    let f' = after_event e f in
    let room = length-append (byte_of e) (bytes_of body) in
    let (w, none, len) =
      event-IsBusy e (x ∷ xs) f v (ground (arith, ok)) (omega (arith, fits, room)) in
    let size = (event-SameSetup e f).size in
    let (got, last) =
      frame_goes_on body tail x (xs ++ byte_of e) f' w (omega (arith, fits, room, len, size))
        (ground (arith, ok)) q c in
    (
      ap (λ ys. call ys (delivered (body ++ tail) f')) none
          ∙ got
          ∙ ap (λ ys. (x ∷ ys) ∷ []) (append_assoc xs (byte_of e) (bytes_of body)),
      last,
    )

frame_from :
    (lead : List LineEvent) (es : List LineEvent) (f : Framer)
    → IsResting f
    → silent lead ≡ true
    → (delivered (lead ++ es) f ≡ delivered es (after lead f))
      × (after (lead ++ es) f ≡ after es (after lead f))
      × SameSetup f (after lead f)
frame_from [] es f v q =
    (refl, refl, record { size = refl; callback = refl; t15 = refl; t35 = refl })
frame_from (e ∷ lead) es f v q =
    let f' = after_event e f in
    let (w, none) = event-IsResting e f v (ground (arith, q)) in
    let (got, last, same) = frame_from lead es f' w (ground (arith, q)) in
    (
      ap (λ ys. call ys (delivered (lead ++ es) f')) none ∙ got,
      last,
      same_trans f f' (after lead f') (event-SameSetup e f) same,
    )

-- A frame on the line reaches the application as it is, whatever ticks of the millisecond and polls
-- come between its bytes. An idle framer with a callback and no frame waiting sees ticks and polls,
-- then the first byte, then bytes, ticks and polls, each byte at most T1.5 and each tick and poll
-- less than T3.5 behind the byte before, then ticks and polls only, one of which finds T3.5 passed,
-- and a poll is that one or comes later. The buffer has room for the bytes. Then the callback is
-- called once, with exactly these bytes in their order, and no frame waits.
pub frame_delivered :
    (lead : List LineEvent) (t t' : Systick) (byte : ℕ) (body tail : List LineEvent) (f : Framer)
    → Valid.IsValid f
    → f.has_callback ≡ true
    → f.frame_ready ≡ false
    → is_idle f.state ≡ true
    → silent lead ≡ true
    → let first = rtu_framer_on_byte t t' byte (after lead f) in
      1 + length (bytes_of body) ≤ f.buffer_size
      → in_time body first ≡ true
      → silent tail ≡ true
      → closed tail (after body first) ≡ true
      → let line = lead ++ (byte_in t t' byte ∷ (body ++ tail)) in
        (delivered line f ≡ (byte ∷ bytes_of body) ∷ []) × ((after line f).frame_ready ≡ false)
frame_delivered lead t t' byte body tail f v cb r i s fits ok q c =
    let rests : IsResting f = record { valid = v; rests = i; ready = r } in
    let f' = after lead f in
    let (_, w) = silence-IsResting lead f rests s in
    let (got, last, same) = frame_from lead (byte_in t t' byte ∷ (body ++ tail)) f rests s in
    let (begun, len, size) = first_byte t t' byte f' w (same.callback ∙ cb) in
    let (one, end) =
      frame_goes_on body tail byte [] (rtu_framer_on_byte t t' byte f') begun
        (omega (arith, fits, len, size, same.size)) ok q c in
    (got ∙ one, ap (λ (g : Framer). g.frame_ready) last ∙ end.ready)
