-- ===== src/Tests/Port.antt =====
-- The RS485 port on a UART that takes every byte, with the framer and the station of the tests.
use stm32_automation_board.Common.{
  ℕ, List, [], ◌∷◌, ◌++◌, true, false, ◌≡◌, refl, arith, none, some,
}
use stm32_automation_board.Server.{Server, no_hooks}
use stm32_automation_board.Framer.{
  rtu_framer_on_byte, rtu_timer_start_t35, rtu_time_us, rtu_elapsed_us, rtu_framer_on_systick,
  rtu_framer_process, rtu_try_complete_frame, take_frame,
}
use stm32_automation_board.Framer.Events.{tick}
use stm32_automation_board.Rtu.{status_ok}
use stm32_automation_board.Port.{
  Port, Driver, Round, byte_received, overrun, millisecond, master_rtu_recv,
}
use stm32_automation_board.Port.Delivered.{master_rtu_recv-frame_delivered}
use stm32_automation_board.Tests.{station}
use stm32_automation_board.Tests.Framing.{port, port-IsValid, begin_ms, mid_ms, body, tail}

abbrev quiet : Port (List ℕ)
quiet = record {
  waiting = false;
  frame_ready = false;
  frame = [];
  framer = port;
  server = station;
  wire = [];
}

abbrev driver : Driver (List ℕ)
driver = record { uart_transmit = λ bytes timeout_ms wire. (true, bytes); yield_cb = none }

-- An overrun and a tick, and then the end of the wait.
abbrev rounds : List Round
rounds =
    record { now = 40; interrupts = overrun ∷ millisecond begin_ms ∷ []; poll = begin_ms }
    ∷ record { now = 100; interrupts = []; poll = begin_ms }
    ∷ []

abbrev SameRegs : Server → Type 0
SameRegs s = s.holding_regs ≡ station.holding_regs

-- The answer over three passes of the wait: the first byte in the first, the second in the next,
-- with a tick, and an overrun and the ticks of the silence in the last.
abbrev passes : List Round
passes =
    record {
      now = 40;
      interrupts = millisecond begin_ms ∷ byte_received begin_ms begin_ms 0x11 ∷ [];
      poll = begin_ms;
    }
    ∷ record {
      now = 40;
      interrupts = byte_received mid_ms mid_ms 0x22 ∷ millisecond begin_ms ∷ [];
      poll = mid_ms;
    }
    ∷ record {
      now = 41;
      interrupts = overrun ∷ millisecond begin_ms ∷ millisecond begin_ms ∷ [];
      poll = begin_ms;
    }
    ∷ []

master_rtu_recv-frame_delivered_example :
    (end : Port (List ℕ)) × (master_rtu_recv no_hooks driver 256 50 0 (passes ++ []) quiet
      ≡ some (status_ok, 0x11 ∷ 0x22 ∷ [], end))
unfolding rtu_framer_on_byte rtu_timer_start_t35 rtu_time_us rtu_elapsed_us rtu_framer_on_systick
    rtu_framer_process rtu_try_complete_frame take_frame
master_rtu_recv-frame_delivered_example =
    master_rtu_recv-frame_delivered no_hooks driver (tick begin_ms ∷ []) begin_ms begin_ms 0x11 body
      tail passes [] quiet 256 50 0 port-IsValid refl refl refl refl refl refl refl (omega arith)
      (omega arith) refl refl refl
