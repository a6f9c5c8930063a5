-- ===== src/Framer/Busy.antt =====
-- src/rtu_framer.c: what bytes, ticks, polls and the end of the frame do to a framer that receives.
use stm32_automation_board.Common.{
  ℕ, ◌+◌, ◌≤◌, ◌<◌, List, [], ◌∷◌, ◌++◌, true, false, ◌≡◌, refl, sym, ap, ◌∙◌, arith,
}
use stm32_automation_board.Framer.{
  Framer, is_idle, Systick, rtu_elapsed_us, rtu_try_complete_frame, rtu_framer_on_byte,
  rtu_framer_on_systick, rtu_timer_start_t35,
}
use stm32_automation_board.Framer.Valid
use stm32_automation_board.Framer.Valid.{
  rtu_framer_on_byte-IsValid, rtu_try_complete_frame-IsValid, with_tick-IsValid, take_frame-IsValid,
}
use stm32_automation_board.Common.Word.{u32}
use stm32_automation_board.Framer.Assembly.{assembled-rtu_framer_on_byte}
use stm32_automation_board.Framer.Handover.{ended, waiting-rtu_try_complete_frame, keeps_callback}
use stm32_automation_board.Framer.Events.{
  LineEvent, byte_in, tick, poll, after_event, handed, since, is_quiet, event-SameSetup,
}
use mathlib.Core.Path.{subst}
use stm32_automation_board.Framer.Phases.{IsBusy, IsFull, IsResting, early_try, poll_from}

-- The end of a frame.
pub closes :
    (t : Systick) (bytes : List ℕ) (f : Framer)
    → IsBusy bytes f
    → f.t35_us ≤ rtu_elapsed_us f t
    → IsFull bytes (rtu_try_complete_frame t f)
unfolding rtu_try_complete_frame
closes t bytes f v late =
    let over : ended t f ≡ true = ground (arith, v.busy, late) in
    let (waits, _, ready) = waiting-rtu_try_complete_frame t f v.valid in
    record {
      valid = rtu_try_complete_frame-IsValid t f v.valid;
      rests = ground (arith, v.valid.armed, v.busy, late);
      ready = ground (arith, ready, over);
      waits = ground (arith, waits, over, v.ready, v.assembles);
      callback = keeps_callback t f ∙ v.callback;
    }

pub with_tick-IsBusy :
    (ms : ℕ) (bytes : List ℕ) (f : Framer)
    → IsBusy bytes f
    → IsBusy bytes (record f { ms_tick = ms })
with_tick-IsBusy ms bytes f v = record {
  valid = with_tick-IsValid ms f v.valid;
  busy = v.busy;
  assembles = v.assembles;
  ready = v.ready;
  callback = v.callback;
}

-- A tick or a poll that does not see the end.
pub quiet-IsBusy :
    (e : LineEvent) (bytes : List ℕ) (f : Framer)
    → IsBusy bytes f
    → is_quiet e ≡ true
    → since e f < f.t35_us
    → IsBusy bytes (after_event e f) × (handed e f ≡ []) × ((after_event e f).rx_len ≡ f.rx_len)
unfolding rtu_framer_on_systick
quiet-IsBusy (byte_in t t' byte) bytes f v q early = absurd (ground (arith, q))
quiet-IsBusy (tick t) bytes f v q early =
    let ms = u32 (f.ms_tick + 1) in
    let g : Framer = record f { ms_tick = ms } in
    let same = early_try t g early in
    (
      subst (IsBusy bytes) (sym same) (with_tick-IsBusy ms bytes f v),
      refl,
      ap (λ (h : Framer). h.rx_len) same,
    )
quiet-IsBusy (poll t) bytes f v q early =
    let (same, none) = poll_from t f f (early_try t f early) v.ready in
    (subst (IsBusy bytes) (sym same) v, none, ap (λ (h : Framer). h.rx_len) same)

goes_on :
    (t t' : Systick) (byte : ℕ) (f : Framer)
    → Valid.IsValid f
    → is_idle f.state ≡ false
    → rtu_elapsed_us f t ≤ f.t15_us
    → f.rx_len < f.buffer_size
    → let f' = rtu_framer_on_byte t t' byte f in
      (is_idle f'.state ≡ false) × (f'.rx_len ≡ f.rx_len + 1)
unfolding rtu_framer_on_byte rtu_timer_start_t35
goes_on t t' byte f v r gap room = ground (arith, r, gap, room, v.most)

begins :
    (t t' : Systick) (byte : ℕ) (f : Framer)
    → f.frame_ready ≡ false
    → is_idle f.state ≡ true
    → let f' = rtu_framer_on_byte t t' byte f in (is_idle f'.state ≡ false) × (f'.rx_len ≡ 1)
unfolding rtu_framer_on_byte rtu_timer_start_t35
begins t t' byte f r i = ground (arith, r, i)

-- A byte of a frame that has begun, and the first one.
pub byte-IsBusy :
    (t t' : Systick) (byte : ℕ) (bytes : List ℕ) (f : Framer)
    → IsBusy bytes f
    → rtu_elapsed_us f t ≤ f.t15_us
    → f.rx_len < f.buffer_size
    → let f' = rtu_framer_on_byte t t' byte f in
      IsBusy (bytes ++ byte ∷ []) f' × (f'.rx_len ≡ f.rx_len + 1)
byte-IsBusy t t' byte bytes f v gap room =
    let (busy, len) = goes_on t t' byte f v.valid v.busy gap room in
    let (more, _, ready) = assembled-rtu_framer_on_byte t t' byte f v.valid in
    (
      record {
        valid = rtu_framer_on_byte-IsValid t t' byte f v.valid;
        busy = busy;
        assembles =
            ground (arith, more, v.busy, gap, room) ∙ ap (λ xs. xs ++ byte ∷ []) v.assembles;
        ready = ready ∙ v.ready;
        callback = (event-SameSetup (byte_in t t' byte) f).callback ∙ v.callback;
      },
      len,
    )

pub first_byte :
    (t t' : Systick) (byte : ℕ) (f : Framer)
    → IsResting f
    → f.has_callback ≡ true
    → let f' = rtu_framer_on_byte t t' byte f in
      IsBusy (byte ∷ []) f' × (f'.rx_len ≡ 1) × (f'.buffer_size ≡ f.buffer_size)
first_byte t t' byte f v cb =
    let (busy, len) = begins t t' byte f v.ready v.rests in
    let (one, _, ready) = assembled-rtu_framer_on_byte t t' byte f v.valid in
    let same = event-SameSetup (byte_in t t' byte) f in
    (
      record {
        valid = rtu_framer_on_byte-IsValid t t' byte f v.valid;
        busy = busy;
        assembles = ground (arith, one, v.ready, v.rests);
        ready = ready ∙ v.ready;
        callback = same.callback ∙ cb;
      },
      len,
      same.size,
    )
