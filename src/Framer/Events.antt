-- ===== src/Framer/Events.antt =====
-- src/rtu_framer.c: the bytes, the ticks and the polls of a framer in any order.
use stm32_automation_board.Common.{
  ℕ, ◌+◌, List, [], ◌∷◌, ◌++◌, Bool, true, false, if◌then◌else◌, leb, ◌&&◌, ◌||◌, ◌≡◌, ◌∙◌, arith,
  ltb,
}
use stm32_automation_board.Framer.{
  Framer, Systick, rtu_elapsed_us, rtu_try_complete_frame, rtu_framer_on_byte, take_frame,
  rtu_framer_on_systick, rtu_framer_process, rtu_timer_start_t35,
}
use stm32_automation_board.Framer.Valid
use stm32_automation_board.Framer.Valid.{
  rtu_framer_on_byte-IsValid, rtu_try_complete_frame-IsValid, with_tick-IsValid, take_frame-IsValid,
}
use stm32_automation_board.Common.Word.{u32}

-- What happens to the framer: a byte, with the two readings of the clock, the tick of a millisecond,
-- and a poll.
pub data LineEvent : Type 0 where
  byte_in : Systick → Systick → ℕ → LineEvent
  tick : Systick → LineEvent
  poll : Systick → LineEvent

abbrev pub after_event : LineEvent → Framer → Framer
after_event (byte_in t t' byte) f = rtu_framer_on_byte t t' byte f
after_event (tick t) f = rtu_framer_on_systick t f
after_event (poll t) f = (rtu_framer_process t f).0

-- The bytes for the callback.
abbrev pub handed : LineEvent → Framer → List ℕ
handed (byte_in t t' byte) f = []
handed (tick t) f = []
handed (poll t) f = (rtu_framer_process t f).1

abbrev pub after : List LineEvent → Framer → Framer
after [] f = f
after (e ∷ es) f = after es (after_event e f)

-- A call of the callback with the bytes, none where there are none.
abbrev pub call : List ℕ → List (List ℕ) → List (List ℕ)
call [] calls = calls
call (x ∷ xs) calls = (x ∷ xs) ∷ calls

-- The calls of the callback.
abbrev pub delivered : List LineEvent → Framer → List (List ℕ)
delivered [] f = []
delivered (e ∷ es) f = call (handed e f) (delivered es (after_event e f))

abbrev pub byte_of : LineEvent → List ℕ
byte_of (byte_in t t' byte) = byte ∷ []
byte_of (tick t) = []
byte_of (poll t) = []

abbrev pub bytes_of : List LineEvent → List ℕ
bytes_of [] = []
bytes_of (e ∷ es) = byte_of e ++ bytes_of es

-- The time behind the last byte that an event sees; the tick counts its millisecond first.
abbrev pub since : LineEvent → Framer → ℕ
since (byte_in t t' byte) f = rtu_elapsed_us f t
since (tick t) f = rtu_elapsed_us (record f { ms_tick = u32 (f.ms_tick + 1) }) t
since (poll t) f = rtu_elapsed_us f t

abbrev pub is_prompt : LineEvent → Framer → Bool
is_prompt (byte_in t t' byte) f = leb (since (byte_in t t' byte) f) f.t15_us
is_prompt (tick t) f = ltb (since (tick t) f) f.t35_us
is_prompt (poll t) f = ltb (since (poll t) f) f.t35_us

-- Each byte is at most T1.5 behind the byte before it, and each tick and poll less than T3.5.
abbrev pub in_time : List LineEvent → Framer → Bool
in_time [] f = true
in_time (e ∷ es) f = is_prompt e f && in_time es (after_event e f)

abbrev pub is_quiet : LineEvent → Bool
is_quiet (byte_in t t' byte) = false
is_quiet (tick t) = true
is_quiet (poll t) = true

-- Ticks and polls only.
abbrev pub silent : List LineEvent → Bool
silent [] = true
silent (e ∷ es) = is_quiet e && silent es

abbrev pub is_poll : LineEvent → Bool
is_poll (byte_in t t' byte) = false
is_poll (tick t) = false
is_poll (poll t) = true

abbrev pub polled : List LineEvent → Bool
polled [] = false
polled (e ∷ es) = is_poll e || polled es

-- A tick or a poll sees that T3.5 has passed, and a poll comes then or later.
abbrev pub closed : List LineEvent → Framer → Bool
closed [] f = false
closed (e ∷ es) f =
    if leb f.t35_us (since e f) then polled (e ∷ es) else closed es (after_event e f)

-- What no event changes.
pub record SameSetup (f g : Framer) : Type 0 where
  pub size : g.buffer_size ≡ f.buffer_size
  pub callback : g.has_callback ≡ f.has_callback
  pub t15 : g.t15_us ≡ f.t15_us
  pub t35 : g.t35_us ≡ f.t35_us

pub same_trans : (f g h : Framer) → SameSetup f g → SameSetup g h → SameSetup f h
same_trans f g h a b = record {
  size = b.size ∙ a.size;
  callback = b.callback ∙ a.callback;
  t15 = b.t15 ∙ a.t15;
  t35 = b.t35 ∙ a.t35;
}

pub event-SameSetup : (e : LineEvent) (f : Framer) → SameSetup f (after_event e f)
unfolding rtu_framer_on_byte rtu_timer_start_t35 rtu_framer_on_systick rtu_framer_process take_frame
    rtu_try_complete_frame
event-SameSetup (byte_in t t' byte) f = record {
  size = ground arith;
  callback = ground arith;
  t15 = ground arith;
  t35 = ground arith;
}
event-SameSetup (tick t) f = record {
  size = ground arith;
  callback = ground arith;
  t15 = ground arith;
  t35 = ground arith;
}
event-SameSetup (poll t) f = record {
  size = ground arith;
  callback = ground arith;
  t15 = ground arith;
  t35 = ground arith;
}

pub event-IsValid : (e : LineEvent) (f : Framer) → Valid.IsValid f → Valid.IsValid (after_event e f)
unfolding rtu_framer_on_systick rtu_framer_process
event-IsValid (byte_in t t' byte) f v = rtu_framer_on_byte-IsValid t t' byte f v
event-IsValid (tick t) f v =
    rtu_try_complete_frame-IsValid t (record f { ms_tick = u32 (f.ms_tick + 1) })
      (with_tick-IsValid (u32 (f.ms_tick + 1)) f v)
event-IsValid (poll t) f v =
    let g = rtu_try_complete_frame t f in
    let w = rtu_try_complete_frame-IsValid t f v in
    ground (arith, w, take_frame-IsValid g.completed_len g w)
