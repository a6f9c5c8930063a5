-- ===== src/Framer.antt =====
-- src/rtu_framer.c: the byte-wise assembly of RTU frames, with `modbus_rtu_timeouts_us` of
-- src/modbus.c.
pub mod Timeouts
pub mod Valid
pub mod Interleaved
pub mod Assembly
pub mod Handover
pub mod Events
pub mod Phases
pub mod Busy
pub mod Delivery
use stm32_automation_board.Common.{
  ℕ, ◌+◌, ◌-◌, ◌*◌, ◌/◌, ◌%◌, ◌^◌, List, [], ◌∷◌, ◌++◌, Option, none, some, Bool, true, false,
  if◌then◌else◌, ◌==◌, ltb, leb, ◌&&◌, ◌||◌, not, length, get_or, set, take, drop,
}
use stm32_automation_board.Common.Word.{u16, u32}

abbrev pub t15_fixed : ℕ
t15_fixed = 750

abbrev pub t35_fixed : ℕ
t35_fixed = 1750

-- `char_time_us`, eleven bits rounded up to microseconds.
unfoldable pub char_time : ℕ → ℕ
char_time baudrate = u32 (11 * 1000000 + baudrate - 1) / baudrate

-- `modbus_rtu_timeouts_us`: T1.5 and T3.5.
unfoldable pub rtu_timeouts_us : ℕ → ℕ × ℕ
rtu_timeouts_us baudrate =
    let baud = if baudrate == 0 then 9600 else baudrate in
    if ltb 19200 baud
    then (t15_fixed, t35_fixed)
    else (u32 (char_time baud * 3) / 2, u32 (char_time baud * 7) / 2)

abbrev pub max_frame : ℕ
max_frame = 256

-- `rtu_framer_state_t`
pub data State : Type 0 where
  idle receiving : State

abbrev pub is_idle : State → Bool
is_idle idle = true
is_idle receiving = false

-- `rtu_framer_t`. The callback is not null when `has_callback` holds.
pub record Framer : Type 0 where
  pub rx_buffer : List ℕ
  pub completed_buffer : List ℕ
  pub buffer_size : ℕ
  pub t15_us : ℕ
  pub t35_us : ℕ
  pub has_callback : Bool
  pub state : State
  pub rx_len : ℕ
  pub frame_ready : Bool
  pub completed_len : ℕ
  pub ms_tick : ℕ
  pub last_byte_us : ℕ
  pub t35_armed : Bool

-- One reading of the SysTick registers: VAL, LOAD, the pending bit, and VAL read again behind it.
pub record Systick : Type 0 where
  pub val : ℕ
  pub load : ℕ
  pub pending : Bool
  pub val_again : ℕ

unfoldable pub rtu_time_us : Framer → Systick → ℕ
rtu_time_us f t =
    let ms = if t.pending then u32 (f.ms_tick + 1) else f.ms_tick in
    let val = if t.pending then t.val_again else t.val in
    u32 (u32 (ms * 1000) + u32 (u32 (t.load + 2 ^ 32 - val) * 1000) / u32 (t.load + 1))

-- The difference of two 32-bit times.
unfoldable pub rtu_elapsed_us : Framer → Systick → ℕ
unfolding rtu_time_us
rtu_elapsed_us f t = u32 (rtu_time_us f t + 2 ^ 32 - f.last_byte_us)

unfoldable pub rtu_timer_start_t35 : Systick → Framer → Framer
unfolding rtu_time_us
rtu_timer_start_t35 t f = record f { last_byte_us = rtu_time_us f t; t35_armed = true }

-- `n` bytes copied from the beginning of one array to the beginning of another.
abbrev pub copied : ℕ → List ℕ → List ℕ → List ℕ
copied n src dst = take n src ++ drop n dst

unfoldable pub rtu_try_complete_frame : Systick → Framer → Framer
rtu_try_complete_frame t f =
    let len = if ltb f.buffer_size f.rx_len then f.buffer_size else f.rx_len in
    let closed = record f { t35_armed = false; rx_len = 0; state = idle } in
    if not f.t35_armed
    then f
    else if not (is_idle f.state) && leb f.t35_us (rtu_elapsed_us f t)
    then (if ltb 0 f.rx_len && not f.frame_ready
        then record closed {
          completed_buffer = copied len f.rx_buffer f.completed_buffer;
          completed_len = len;
          frame_ready = true;
        }
        else closed)
    else f

-- `rtu_framer_init`, whose arrays come from the port. `ms_tick` stays.
unfoldable pub rtu_framer_init : List ℕ → List ℕ → ℕ → ℕ → Framer → Framer
rtu_framer_init rx_buffer completed_buffer buffer_size baudrate f =
    let (t15, t35) = rtu_timeouts_us baudrate in
    record f {
      rx_buffer = rx_buffer;
      completed_buffer = completed_buffer;
      buffer_size = if ltb max_frame buffer_size then max_frame else buffer_size;
      has_callback = false;
      t15_us = t15;
      t35_us = t35;
      rx_len = 0;
      state = idle;
      frame_ready = false;
      completed_len = 0;
      t35_armed = false;
      last_byte_us = 0;
    }

unfoldable pub rtu_framer_set_callback : Bool → Framer → Framer
rtu_framer_set_callback has_callback f = record f { has_callback = has_callback }

unfoldable pub rtu_framer_on_systick : Systick → Framer → Framer
rtu_framer_on_systick t f = rtu_try_complete_frame t (record f { ms_tick = u32 (f.ms_tick + 1) })

-- The first byte of a frame, and the byte behind a gap.
abbrev pub started : Systick → ℕ → Framer → Framer
started t byte f =
    rtu_timer_start_t35 t
      (record f { rx_buffer = set f.rx_buffer 0 byte; rx_len = 1; state = receiving })

-- `rtu_framer_on_byte`: the clock is read at `t` for the gap, and at `t'` for the timer.
unfoldable pub rtu_framer_on_byte : Systick → Systick → ℕ → Framer → Framer
rtu_framer_on_byte t t' byte f =
    if f.frame_ready && is_idle f.state
    then f
    else if is_idle f.state
    then started t' byte f
    else if ltb f.t15_us (rtu_elapsed_us f t)
    then (if f.frame_ready
        then record f { state = idle; rx_len = 0; t35_armed = false }
        else started t' byte f)
    else if ltb f.rx_len f.buffer_size
    then rtu_timer_start_t35 t'
        (record f { rx_buffer = set f.rx_buffer f.rx_len byte; rx_len = u16 (f.rx_len + 1) })
    else rtu_timer_start_t35 t' f

-- The critical section of `rtu_framer_process`: the new state, and the bytes for the callback.
unfoldable pub take_frame : ℕ → Framer → Framer × List ℕ
take_frame max_len f =
    let count = if ltb max_len f.completed_len then max_len else f.completed_len in
    if f.frame_ready && ltb 0 f.completed_len
    then (record f { frame_ready = false; completed_len = 0 }, take count f.completed_buffer)
    else (f, [])

-- `rtu_framer_process`: the callback is called unless the bytes are none.
unfoldable pub rtu_framer_process : Systick → Framer → Framer × List ℕ
rtu_framer_process t f =
    let g = rtu_try_complete_frame t f in
    if not g.has_callback then (g, []) else take_frame g.completed_len g

-- `rtu_framer_read` into an array of `max_len` bytes.
unfoldable pub rtu_framer_read : ℕ → Framer → Framer × List ℕ
rtu_framer_read max_len f = if max_len == 0 then (f, []) else take_frame max_len f

unfoldable pub rtu_reset_frame : Framer → Framer
rtu_reset_frame f = record f { rx_len = 0; state = idle; t35_armed = false }

unfoldable pub rtu_framer_flush : Framer → Framer
unfolding rtu_reset_frame
rtu_framer_flush f = record (rtu_reset_frame f) { frame_ready = false; completed_len = 0 }

unfoldable pub rtu_framer_tx_begin : Framer → Framer
unfolding rtu_reset_frame
rtu_framer_tx_begin f = record (rtu_reset_frame f) { frame_ready = false }

unfoldable pub rtu_framer_bytes_available : Framer → ℕ
rtu_framer_bytes_available f = if is_idle f.state then 0 else f.rx_len

-- `rtu_framer_delay_t35`: the timer is stopped. The wait behind it only reads the clock, and what
-- interrupts it are steps of their own.
unfoldable pub rtu_framer_delay_t35 : Framer → Framer
rtu_framer_delay_t35 f = record f { t35_armed = false }

unfoldable pub rtu_framer_get_t15_us : Framer → ℕ
rtu_framer_get_t15_us f = f.t15_us

unfoldable pub rtu_framer_get_t35_us : Framer → ℕ
rtu_framer_get_t35_us f = f.t35_us
