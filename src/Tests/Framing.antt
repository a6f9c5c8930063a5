-- ===== src/Tests/Framing.antt =====
-- The framer and the MBAP frames.
use stm32_automation_board.Common.{
  ℕ, List, [], ◌∷◌, ◌++◌, true, false, ◌≡◌, inl, refl, arith, replicate,
}
use stm32_automation_board.Common.Word.{are_bytes-IsBytes}
use stm32_automation_board.Framer.{
  Framer, Systick, idle, rtu_time_us, rtu_elapsed_us, rtu_timer_start_t35, rtu_framer_on_byte,
  rtu_framer_process, rtu_framer_on_systick, rtu_try_complete_frame, take_frame,
}
use stm32_automation_board.Framer.Valid
use stm32_automation_board.Framer.Interleaved.{
  IsBounded, here, then_step, on_byte, stop_timer, clear_len, Steps-IsBounded,
}
use stm32_automation_board.Framer.Events.{LineEvent, byte_in, tick, poll, after, delivered}
use stm32_automation_board.Framer.Delivery.{frame_delivered}
use stm32_automation_board.Server.{no_hooks}
use stm32_automation_board.Server.Valid.{no_hooks-IsSafe}
use stm32_automation_board.Pdu.{pdu_switch}
use stm32_automation_board.Rtu.{status_ok}
use stm32_automation_board.Tcp.{tcp_frame, tcp_process}
use stm32_automation_board.Tcp.Mbap.{IsMbap, tcp_process_lem}
use stm32_automation_board.Tests.{station, station-IsValid}

-- A port with buffers of eight bytes and a callback, above 19200 baud.
abbrev pub port : Framer
port = record {
  rx_buffer = replicate 8 0;
  completed_buffer = replicate 8 0;
  buffer_size = 8;
  t15_us = 750;
  t35_us = 1750;
  has_callback = true;
  state = idle;
  rx_len = 0;
  frame_ready = false;
  completed_len = 0;
  ms_tick = 0;
  last_byte_us = 0;
  t35_armed = false;
}

pub port-IsValid : Valid.IsValid port
port-IsValid = record {
  some_room = omega arith;
  most = omega arith;
  rx_room = omega arith;
  completed_room = omega arith;
  rx_fits = omega arith;
  completed_fits = omega arith;
  begun = refl;
  armed = refl;
  filled = refl;
}

-- The beginning of a millisecond, and its middle.
abbrev pub begin_ms : Systick
begin_ms = record { val = 167999; load = 167999; pending = false; val_again = 167999 }

abbrev pub mid_ms : Systick
mid_ms = record { val = 83999; load = 167999; pending = false; val_again = 83999 }

-- Two bytes half a millisecond apart, with a poll between them, and the silence behind, in which the
-- third tick closes the frame.
abbrev pub body : List LineEvent
body = poll begin_ms ∷ byte_in mid_ms mid_ms 0x22 ∷ []

abbrev pub tail : List LineEvent
tail = tick begin_ms ∷ poll mid_ms ∷ tick begin_ms ∷ tick begin_ms ∷ poll begin_ms ∷ []

frame_delivered_example :
    let line = tick begin_ms ∷ byte_in begin_ms begin_ms 0x11 ∷ body ++ tail in
    (delivered line port ≡ (0x11 ∷ 0x22 ∷ []) ∷ []) × ((after line port).frame_ready ≡ false)
unfolding rtu_framer_on_byte rtu_timer_start_t35 rtu_time_us rtu_elapsed_us rtu_framer_on_systick
    rtu_framer_process rtu_try_complete_frame take_frame
frame_delivered_example =
    frame_delivered (tick begin_ms ∷ []) begin_ms begin_ms 0x11 body tail port port-IsValid refl
      refl refl refl (omega arith) refl refl refl

port-IsBounded : IsBounded port
port-IsBounded = record {
  some_room = omega arith;
  most = omega arith;
  rx_room = omega arith;
  completed_room = omega arith;
  rx_fits = omega arith;
  completed_fits = omega arith;
  filled = refl;
}

-- A byte between the first assignments of a transmission.
Steps-IsBounded_example :
    IsBounded
      (record (rtu_framer_on_byte begin_ms begin_ms 0x11 (record port { t35_armed = false })) {
        rx_len = 0;
      })
Steps-IsBounded_example =
    let stopped : Framer = record port { t35_armed = false } in
    let hit = rtu_framer_on_byte begin_ms begin_ms 0x11 stopped in
    Steps-IsBounded port (record hit { rx_len = 0 })
      (then_step port hit _
        (then_step port stopped _ (then_step port port _ (here port) (stop_timer port))
          (on_byte begin_ms begin_ms 0x11 stopped))
        (clear_len hit))
      port-IsBounded

abbrev read_holding : List ℕ
read_holding = 0x03 ∷ 0x00 ∷ 0x6b ∷ 0x00 ∷ 0x03 ∷ []

tcp_process_lem_example :
    let (s', answer) = pdu_switch no_hooks station 0x03 read_holding in
    let r = tcp_process no_hooks 1 station (tcp_frame 0x1501 1 read_holding) in
    (r ≡ record { status = status_ok; server = s'; tx = tcp_frame 0x1501 1 answer })
    × IsMbap 0x1501 1 answer r.tx
tcp_process_lem_example =
    tcp_process_lem no_hooks 1 station 0x1501 1 read_holding no_hooks-IsSafe station-IsValid
      (omega arith) (are_bytes-IsBytes read_holding refl) (omega arith) (omega arith) (inl refl)
