-- ===== src/Framer/Valid.antt =====
-- The invariant of a framer outside of a transmission, and the functions that keep it.
use stm32_automation_board.Common.{
  ℕ, ◌+◌, ◌≤◌, ◌<◌, List, Bool, true, false, ◌==◌, ◌&&◌, not, ◌≡◌, refl, arith, length, set, take,
  drop, length-set, length-append, length-take, length-drop,
}
use stm32_automation_board.Common.Word.{u16}
use stm32_automation_board.Framer.{
  Framer, idle, is_idle, Systick, max_frame, copied, started, rtu_timer_start_t35,
  rtu_try_complete_frame, rtu_framer_init, rtu_framer_on_byte, take_frame,
}

pub record IsValid (f : Framer) : Type 0 where
  pub some_room : 1 ≤ f.buffer_size
  pub most : f.buffer_size ≤ max_frame
  pub rx_room : f.buffer_size ≤ length f.rx_buffer
  pub completed_room : f.buffer_size ≤ length f.completed_buffer
  pub rx_fits : f.rx_len ≤ f.buffer_size
  pub completed_fits : f.completed_len ≤ f.buffer_size
  pub begun : is_idle f.state ≡ (f.rx_len == 0)
  pub armed : f.t35_armed ≡ not (is_idle f.state)
  pub filled : (f.frame_ready && f.completed_len == 0) ≡ false

pub length-copied :
    (n : ℕ) (src dst : List ℕ)
    → n ≤ length src
    → n ≤ length dst
    → length (copied n src dst) ≡ length dst
length-copied n src dst h k =
    omega (arith, length-append (take n src) (drop n dst), length-take n src, length-drop n dst)

-- `rtu_framer_init` gives a valid framer, for arrays that have the size it is told.
pub rtu_framer_init-IsValid :
    (rx completed : List ℕ) (buffer_size baudrate : ℕ) (f : Framer)
    → 1 ≤ buffer_size
    → buffer_size ≤ length rx
    → buffer_size ≤ length completed
    → IsValid (rtu_framer_init rx completed buffer_size baudrate f)
unfolding rtu_framer_init
rtu_framer_init-IsValid rx completed n baudrate f some h k = record {
  some_room = ground arith;
  most = ground arith;
  rx_room = ground arith;
  completed_room = ground arith;
  rx_fits = omega arith;
  completed_fits = omega arith;
  begun = refl;
  armed = refl;
  filled = refl;
}

started-IsValid : (t : Systick) (byte : ℕ) (f : Framer) → IsValid f → IsValid (started t byte f)
unfolding rtu_timer_start_t35
started-IsValid t byte f v = record {
  some_room = v.some_room;
  most = v.most;
  rx_room = omega (arith, v.rx_room, length-set f.rx_buffer 0 byte);
  completed_room = v.completed_room;
  rx_fits = v.some_room;
  completed_fits = v.completed_fits;
  begun = refl;
  armed = refl;
  filled = v.filled;
}

continued-IsValid :
    (t : Systick) (byte : ℕ) (f : Framer)
    → IsValid f
    → is_idle f.state ≡ false
    → f.rx_len < f.buffer_size
    → IsValid (
        rtu_timer_start_t35 t
          (record f { rx_buffer = set f.rx_buffer f.rx_len byte; rx_len = u16 (f.rx_len + 1) }))
unfolding rtu_timer_start_t35
continued-IsValid t byte f v r lt = record {
  some_room = v.some_room;
  most = v.most;
  rx_room = omega (arith, v.rx_room, length-set f.rx_buffer f.rx_len byte);
  completed_room = v.completed_room;
  rx_fits = omega (arith, v.most, lt);
  completed_fits = v.completed_fits;
  begun = ground (arith, r, v.most, lt);
  armed = ground (arith, r);
  filled = v.filled;
}

timer-IsValid :
    (t : Systick) (f : Framer)
    → IsValid f
    → is_idle f.state ≡ false
    → IsValid (rtu_timer_start_t35 t f)
unfolding rtu_timer_start_t35
timer-IsValid t f v r = record {
  some_room = v.some_room;
  most = v.most;
  rx_room = v.rx_room;
  completed_room = v.completed_room;
  rx_fits = v.rx_fits;
  completed_fits = v.completed_fits;
  begun = v.begun;
  armed = ground (arith, r);
  filled = v.filled;
}

reset-IsValid :
    (f : Framer) → IsValid f → IsValid (record f { rx_len = 0; state = idle; t35_armed = false })
reset-IsValid f v = record {
  some_room = v.some_room;
  most = v.most;
  rx_room = v.rx_room;
  completed_room = v.completed_room;
  rx_fits = omega arith;
  completed_fits = v.completed_fits;
  begun = refl;
  armed = refl;
  filled = v.filled;
}

pub rtu_framer_on_byte-IsValid :
    (t t' : Systick) (byte : ℕ) (f : Framer) → IsValid f → IsValid (rtu_framer_on_byte t t' byte f)
unfolding rtu_framer_on_byte
rtu_framer_on_byte-IsValid t t' byte f v = ground (
  arith,
  v,
  started-IsValid t' byte f v,
  continued-IsValid t' byte f v,
  timer-IsValid t' f v,
  reset-IsValid f v,
)

-- A frame that is handed over.
completed-IsValid :
    (len : ℕ) (f : Framer)
    → IsValid f
    → 1 ≤ len
    → len ≤ f.rx_len
    → IsValid (record f {
      t35_armed = false;
      rx_len = 0;
      state = idle;
      completed_buffer = copied len f.rx_buffer f.completed_buffer;
      completed_len = len;
      frame_ready = true;
    })
completed-IsValid len f v one h = record {
  some_room = v.some_room;
  most = v.most;
  rx_room = v.rx_room;
  completed_room = omega (
    arith,
    v.completed_room,
    v.rx_room,
    v.rx_fits,
    length-copied len f.rx_buffer f.completed_buffer,
  );
  rx_fits = omega arith;
  completed_fits = omega (arith, v.rx_fits);
  begun = refl;
  armed = refl;
  filled = ground (arith, one);
}

pub rtu_try_complete_frame-IsValid :
    (t : Systick) (f : Framer) → IsValid f → IsValid (rtu_try_complete_frame t f)
unfolding rtu_try_complete_frame
rtu_try_complete_frame-IsValid t f v =
    ground (arith, v, reset-IsValid f v, completed-IsValid f.rx_len f v, v.rx_fits)

pub with_tick-IsValid : (ms : ℕ) (f : Framer) → IsValid f → IsValid (record f { ms_tick = ms })
with_tick-IsValid ms f v = record {
  some_room = v.some_room;
  most = v.most;
  rx_room = v.rx_room;
  completed_room = v.completed_room;
  rx_fits = v.rx_fits;
  completed_fits = v.completed_fits;
  begun = v.begun;
  armed = v.armed;
  filled = v.filled;
}

taken-IsValid :
    (f : Framer) (b : Bool) (n : ℕ)
    → IsValid f
    → n ≤ f.completed_len
    → (b && n == 0) ≡ false
    → IsValid (record f { frame_ready = b; completed_len = n })
taken-IsValid f b n v h k = record {
  some_room = v.some_room;
  most = v.most;
  rx_room = v.rx_room;
  completed_room = v.completed_room;
  rx_fits = v.rx_fits;
  completed_fits = omega (arith, v.completed_fits);
  begun = v.begun;
  armed = v.armed;
  filled = k;
}

pub take_frame-IsValid : (n : ℕ) (f : Framer) → IsValid f → IsValid (take_frame n f).0
unfolding take_frame
take_frame-IsValid n f v = ground (arith, v, taken-IsValid f false 0 v (omega arith) refl)
