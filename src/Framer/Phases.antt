-- ===== src/Framer/Phases.antt =====
-- src/rtu_framer.c: the framer while it receives, while a frame waits and at rest, and what ticks and
-- polls do in the last two.
use stm32_automation_board.Common.{ℕ, ◌+◌, ◌<◌, List, [], true, false, ◌≡◌, refl, ap, ◌∙◌, arith}
use stm32_automation_board.Framer.{
  Framer, is_idle, Systick, rtu_elapsed_us, rtu_try_complete_frame, take_frame,
  rtu_framer_on_systick, rtu_framer_process,
}
use stm32_automation_board.Framer.Valid
use stm32_automation_board.Framer.Valid.{
  rtu_framer_on_byte-IsValid, rtu_try_complete_frame-IsValid, with_tick-IsValid, take_frame-IsValid,
}
use stm32_automation_board.Common.Word.{u32}
use stm32_automation_board.Framer.Assembly.{assembled, waiting}
use stm32_automation_board.Framer.Handover.{taken}
use stm32_automation_board.Framer.Events.{
  LineEvent, byte_in, tick, poll, after_event, handed, is_quiet, event-IsValid,
}

-- The framer while it assembles a frame and none waits, when a frame waits, and at rest.
pub record IsBusy (bytes : List ℕ) (f : Framer) : Type 0 where
  pub valid : Valid.IsValid f
  pub busy : is_idle f.state ≡ false
  pub assembles : assembled f ≡ bytes
  pub ready : f.frame_ready ≡ false
  pub callback : f.has_callback ≡ true

pub record IsFull (bytes : List ℕ) (f : Framer) : Type 0 where
  pub valid : Valid.IsValid f
  pub rests : is_idle f.state ≡ true
  pub ready : f.frame_ready ≡ true
  pub waits : waiting f ≡ bytes
  pub callback : f.has_callback ≡ true

pub record IsResting (f : Framer) : Type 0 where
  pub valid : Valid.IsValid f
  pub rests : is_idle f.state ≡ true
  pub ready : f.frame_ready ≡ false

pub resting_try : (t : Systick) (f : Framer) → IsResting f → rtu_try_complete_frame t f ≡ f
unfolding rtu_try_complete_frame
resting_try t f v = ground (arith, v.valid.armed, v.rests)

pub full_try :
    (t : Systick) (bytes : List ℕ) (f : Framer) → IsFull bytes f → rtu_try_complete_frame t f ≡ f
unfolding rtu_try_complete_frame
full_try t bytes f v = ground (arith, v.valid.armed, v.rests)

pub early_try :
    (t : Systick) (f : Framer) → rtu_elapsed_us f t < f.t35_us → rtu_try_complete_frame t f ≡ f
unfolding rtu_try_complete_frame
early_try t f h = ground (arith, h)

nothing_taken : (n : ℕ) (f : Framer) → f.frame_ready ≡ false → take_frame n f ≡ (f, [])
unfolding take_frame
nothing_taken n f h = ground (arith, h)

-- A poll, where the end of the frame is already decided.
pub poll_from :
    (t : Systick) (f g : Framer)
    → rtu_try_complete_frame t f ≡ g
    → g.frame_ready ≡ false
    → ((rtu_framer_process t f).0 ≡ g) × ((rtu_framer_process t f).1 ≡ [])
unfolding rtu_framer_process
poll_from t f g e h = rw (rtu_framer_process, e) (ground (arith, nothing_taken g.completed_len g h))

pub event-IsResting :
    (e : LineEvent) (f : Framer)
    → IsResting f
    → is_quiet e ≡ true
    → IsResting (after_event e f) × (handed e f ≡ [])
unfolding rtu_framer_on_systick
event-IsResting (byte_in t t' byte) f v q = absurd (ground (arith, q))
event-IsResting (tick t) f v q =
    let ms = u32 (f.ms_tick + 1) in
    let same =
      resting_try t (record f { ms_tick = ms })
        (record { valid = with_tick-IsValid ms f v.valid; rests = v.rests; ready = v.ready }) in
    (
      record {
        valid = event-IsValid (tick t) f v.valid;
        rests = ap (λ (g : Framer). is_idle g.state) same ∙ v.rests;
        ready = ap (λ (g : Framer). g.frame_ready) same ∙ v.ready;
      },
      refl,
    )
event-IsResting (poll t) f v q =
    let (same, none) = poll_from t f f (resting_try t f v) v.ready in
    (
      record {
        valid = event-IsValid (poll t) f v.valid;
        rests = ap (λ (g : Framer). is_idle g.state) same ∙ v.rests;
        ready = ap (λ (g : Framer). g.frame_ready) same ∙ v.ready;
      },
      none,
    )

pub tick-IsFull :
    (t : Systick) (bytes : List ℕ) (f : Framer)
    → IsFull bytes f
    → IsFull bytes (after_event (tick t) f)
unfolding rtu_framer_on_systick
tick-IsFull t bytes f v =
    let ms = u32 (f.ms_tick + 1) in
    let same =
      full_try t bytes (record f { ms_tick = ms })
        (record {
          valid = with_tick-IsValid ms f v.valid;
          rests = v.rests;
          ready = v.ready;
          waits = v.waits;
          callback = v.callback;
        }) in
    record {
      valid = event-IsValid (tick t) f v.valid;
      rests = ap (λ (g : Framer). is_idle g.state) same ∙ v.rests;
      ready = ap (λ (g : Framer). g.frame_ready) same ∙ v.ready;
      waits = ap waiting same ∙ v.waits;
      callback = ap (λ (g : Framer). g.has_callback) same ∙ v.callback;
    }

taken_rests : (n : ℕ) (g : Framer) → (take_frame n g).0.state ≡ g.state
unfolding take_frame
taken_rests n g = ground arith

process_from :
    (t : Systick) (f g : Framer)
    → rtu_try_complete_frame t f ≡ g
    → g.has_callback ≡ true
    → rtu_framer_process t f ≡ take_frame g.completed_len g
unfolding rtu_framer_process
process_from t f g e cb = rw (rtu_framer_process, e, cb) refl

-- A poll that finds a frame.
pub full_process :
    (t : Systick) (bytes : List ℕ) (f g : Framer)
    → rtu_try_complete_frame t f ≡ g
    → IsFull bytes g
    → Valid.IsValid f
    → IsResting (after_event (poll t) f) × (handed (poll t) f ≡ bytes)
full_process t bytes f g e w v =
    let step = process_from t f g e w.callback in
    let (got, ready) = taken g w.valid.filled in
    (
      record {
        valid = event-IsValid (poll t) f v;
        rests =
            ap (λ (r : Framer × List ℕ). is_idle r.0.state) step
            ∙ ap is_idle (taken_rests g.completed_len g)
            ∙ w.rests;
        ready = ap (λ (r : Framer × List ℕ). r.0.frame_ready) step ∙ ready;
      },
      ap (λ (r : Framer × List ℕ). r.1) step ∙ got ∙ w.waits,
    )

pub full_poll :
    (t : Systick) (bytes : List ℕ) (f : Framer)
    → IsFull bytes f
    → IsResting (after_event (poll t) f) × (handed (poll t) f ≡ bytes)
full_poll t bytes f v = full_process t bytes f f (full_try t bytes f v) v v.valid
