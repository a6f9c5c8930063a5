-- ===== src/Framer/Interleaved.antt =====
-- src/rtu_framer.c with its interrupts. A step is what no other code of the framer comes between: the
-- sections with interrupts masked, `rtu_framer_on_byte`, which runs in the interrupt of the UART and
-- is not preempted by the tick, whose priority is the lowest, and else each assignment by itself.
use stm32_automation_board.Common.{
  ℕ, ◌+◌, ◌≤◌, Bool, false, ◌==◌, ◌&&◌, ◌≡◌, arith, length, length-set,
}
use stm32_automation_board.Common.Word.{u32}
use stm32_automation_board.Framer.{
  Framer, idle, Systick, max_frame, rtu_timer_start_t35, rtu_try_complete_frame,
  rtu_framer_set_callback, rtu_framer_on_systick, rtu_framer_on_byte, take_frame, rtu_reset_frame,
  rtu_framer_flush, rtu_framer_tx_begin, rtu_framer_delay_t35,
}
use stm32_automation_board.Framer.Valid.{length-copied}

-- No array is written or read beyond its end, and a frame that is announced is not empty.
pub record IsBounded (f : Framer) : Type 0 where
  pub some_room : 1 ≤ f.buffer_size
  pub most : f.buffer_size ≤ max_frame
  pub rx_room : f.buffer_size ≤ length f.rx_buffer
  pub completed_room : f.buffer_size ≤ length f.completed_buffer
  pub rx_fits : f.rx_len ≤ f.buffer_size
  pub completed_fits : f.completed_len ≤ f.buffer_size
  pub filled : (f.frame_ready && f.completed_len == 0) ≡ false

pub data Step : Framer → Framer → Type 0 where
  -- The interrupt of the UART.
  on_byte : (t t' : Systick) (byte : ℕ) (f : Framer) → Step f (rtu_framer_on_byte t t' byte f)
  -- The two masked sections of the tick; the second one is also the first of a poll.
  count_tick : (f : Framer) → Step f (record f { ms_tick = u32 (f.ms_tick + 1) })
  complete : (t : Systick) (f : Framer) → Step f (rtu_try_complete_frame t f)
  -- The masked section of a poll, with the length it finds, and of a read.
  take_completed : (f : Framer) → Step f (take_frame f.completed_len f).0
  take_read : (max_len : ℕ) (f : Framer) → Step f (take_frame max_len f).0
  flush : (f : Framer) → Step f (rtu_framer_flush f)
  -- The assignments of `rtu_framer_tx_begin`, `rtu_framer_delay_t35` and `rtu_framer_set_callback`.
  stop_timer : (f : Framer) → Step f (record f { t35_armed = false })
  clear_len : (f : Framer) → Step f (record f { rx_len = 0 })
  go_idle : (f : Framer) → Step f (record f { state = idle })
  clear_ready : (f : Framer) → Step f (record f { frame_ready = false })
  set_callback : (b : Bool) (f : Framer) → Step f (rtu_framer_set_callback b f)

-- Any interleaving of them.
pub data Steps : Framer → Framer → Type 0 where
  here : (f : Framer) → Steps f f
  then_step : (f g h : Framer) → Steps f g → Step g h → Steps f h

one_step : (f g : Framer) → Step f g → Steps f g
one_step f g r = then_step f f g (here f) r

-- The functions that are more than one step, without an interrupt between theirs.
rtu_framer_on_systick-Steps : (t : Systick) (f : Framer) → Steps f (rtu_framer_on_systick t f)
unfolding rtu_framer_on_systick
rtu_framer_on_systick-Steps t f =
    let g : Framer = record f { ms_tick = u32 (f.ms_tick + 1) } in
    then_step f g _ (one_step f g (count_tick f)) (complete t g)

rtu_framer_tx_begin-Steps : (f : Framer) → Steps f (rtu_framer_tx_begin f)
unfolding rtu_framer_tx_begin rtu_reset_frame
rtu_framer_tx_begin-Steps f =
    let g : Framer = record f { t35_armed = false } in
    let h : Framer = record g { rx_len = 0 } in
    let i : Framer = record h { state = idle } in
    then_step f i _
      (then_step f h i (then_step f g h (one_step f g (stop_timer f)) (clear_len g)) (go_idle h))
      (clear_ready i)

rtu_framer_delay_t35-Steps : (f : Framer) → Steps f (rtu_framer_delay_t35 f)
unfolding rtu_framer_delay_t35
rtu_framer_delay_t35-Steps f = one_step f _ (stop_timer f)

on_byte-IsBounded :
    (t t' : Systick) (byte : ℕ) (f : Framer)
    → IsBounded f
    → IsBounded (rtu_framer_on_byte t t' byte f)
unfolding rtu_framer_on_byte rtu_timer_start_t35
on_byte-IsBounded t t' byte f v =
    ground (arith, v, length-set f.rx_buffer 0 byte, length-set f.rx_buffer f.rx_len byte)

complete-IsBounded :
    (t : Systick) (f : Framer) → IsBounded f → IsBounded (rtu_try_complete_frame t f)
unfolding rtu_try_complete_frame
complete-IsBounded t f v = ground (arith, v, length-copied f.rx_len f.rx_buffer f.completed_buffer)

take_frame-IsBounded : (n : ℕ) (f : Framer) → IsBounded f → IsBounded (take_frame n f).0
unfolding take_frame
take_frame-IsBounded n f v = ground (arith, v)

step-IsBounded : (f g : Framer) → Step f g → IsBounded f → IsBounded g
unfolding rtu_framer_flush rtu_reset_frame rtu_framer_set_callback
step-IsBounded _ _ (on_byte t t' byte f) v = on_byte-IsBounded t t' byte f v
step-IsBounded _ _ (count_tick f) v = ground (arith, v)
step-IsBounded _ _ (complete t f) v = complete-IsBounded t f v
step-IsBounded _ _ (take_completed f) v = take_frame-IsBounded f.completed_len f v
step-IsBounded _ _ (take_read n f) v = take_frame-IsBounded n f v
step-IsBounded _ _ (flush f) v = ground (arith, v)
step-IsBounded _ _ (stop_timer f) v = ground (arith, v)
step-IsBounded _ _ (clear_len f) v = ground (arith, v)
step-IsBounded _ _ (go_idle f) v = ground (arith, v)
step-IsBounded _ _ (clear_ready f) v = ground (arith, v)
step-IsBounded _ _ (set_callback b f) v = ground (arith, v)

-- Every interleaving of received bytes and ticks with polls, reads, flushes, transmissions and the
-- waits before them, in which an interrupt comes between any two sections or assignments, keeps
-- the framer bounded: the lengths stay within the buffers, and a frame that is announced is not
-- empty.
pub Steps-IsBounded : (f g : Framer) → Steps f g → IsBounded f → IsBounded g
Steps-IsBounded _ _ (here f) v = v
Steps-IsBounded _ _ (then_step f g h s r) v = step-IsBounded g h r (Steps-IsBounded f g s v)
