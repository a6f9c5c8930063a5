-- ===== src/Port.antt =====
-- src/modbus_master_rtu.c, with the RS485 port of src/rs485.c and its callback in src/main.c: one
-- bus on which the board is a server, and a master while one of its transactions is armed.
pub mod Receive
pub mod Delivered
use stm32_automation_board.Common.{
  ℕ, ◌+◌, ◌-◌, ◌^◌, List, [], ◌∷◌, Bool, true, false, if◌then◌else◌, ◌==◌, ltb, ◌||◌, not, length,
  take, min, Option, none, some,
}
use stm32_automation_board.Common.Word.{u32}
use stm32_automation_board.Diag.{note_char_overrun}
use stm32_automation_board.Server.{Server, Hooks}
use stm32_automation_board.Framer.{
  rtu_framer_delay_t35, Framer, Systick, rtu_framer_on_byte, rtu_framer_on_systick,
  rtu_framer_process, rtu_framer_flush, rtu_framer_tx_begin,
}
use stm32_automation_board.Rtu.{
  Status, status_ok, status_error, status_timeout, rtu_frame_max, rtu_process, with_diag,
}

-- The statics `s_waiting`, `s_frame_ready` and `s_frame[0 .. s_frame_len)` of the master's
-- transport, the framer of the port, the server, and the state `Wire` of the UART.
pub record Port (Wire : Type 0) : Type 0 where
  pub waiting : Bool
  pub frame_ready : Bool
  pub frame : List ℕ
  pub framer : Framer
  pub server : Server
  pub wire : Wire

-- `HAL_UART_Transmit` with its timeout, true for `HAL_OK`, and the yield callback, which reaches the
-- server and the rest of the program, but not the statics of the port.
pub record Driver (Wire : Type 0) : Type 0 where
  pub uart_transmit : List ℕ → ℕ → Wire → Bool × Wire
  pub yield_cb : Option (Server → Wire → Server × Wire)

-- What interrupts the program: a received byte, the tick of a millisecond, and an overrun.
pub data Interrupt : Type 0 where
  byte_received : Systick → Systick → ℕ → Interrupt
  millisecond : Systick → Interrupt
  overrun : Interrupt

abbrev pub rs485_timeout_ms : ℕ
rs485_timeout_ms = 50

module _ {Wire : Type 0} where
  -- `modbus_master_rtu_init`, less the binding of the transport.
  unfoldable pub port_init : Port Wire → Port Wire
  port_init p = record p { waiting = false; frame_ready = false; frame = [] }

  unfoldable pub is_waiting : Port Wire → Bool
  is_waiting p = p.waiting

  -- `modbus_master_rtu_on_frame`
  unfoldable pub on_frame : List ℕ → Port Wire → Port Wire
  on_frame bytes p =
      if length bytes == 0 || not p.waiting
      then p
      else record p { frame = take (min (length bytes) rtu_frame_max) bytes; frame_ready = true }

  unfoldable pub master_rtu_flush : Port Wire → Port Wire
  master_rtu_flush p = record p {
    waiting = true;
    frame_ready = false;
    frame = [];
    framer = rtu_framer_flush p.framer;
  }

  unfoldable pub master_rtu_delay_t35 : Port Wire → Port Wire
  master_rtu_delay_t35 p = record p { waiting = true; framer = rtu_framer_delay_t35 p.framer }

  unfoldable pub master_rtu_end : Port Wire → Port Wire
  master_rtu_end p = record p { waiting = false; frame_ready = false; frame = [] }

  -- `USART2_IRQHandler` and `SysTick_Handler`
  unfoldable pub interrupted : Interrupt → Port Wire → Port Wire
  interrupted (byte_received t t' byte) p = record p {
    framer = rtu_framer_on_byte t t' byte p.framer;
  }
  interrupted (millisecond t) p = record p { framer = rtu_framer_on_systick t p.framer }
  interrupted overrun p = record p { server = with_diag p.server (note_char_overrun p.server.diag) }

  -- A call of the yield callback, none for a null pointer.
  abbrev pub yield_to : Option (Server → Wire → Server × Wire) → Port Wire → Port Wire
  yield_to none p = p
  yield_to (some yield) p =
      let (server, wire) = yield p.server p.wire in record p { server = server; wire = wire }

  unfoldable pub interrupted_by : List Interrupt → Port Wire → Port Wire
  interrupted_by [] p = p
  interrupted_by (i ∷ is) p = interrupted_by is (interrupted i p)

-- One pass of the loop of `master_rtu_recv`: `sys_tick` as its condition reads it, what interrupts
-- the pass, and the clock that `rs485_process` reads.
pub record Round : Type 0 where
  pub now : ℕ
  pub interrupts : List Interrupt
  pub poll : Systick

module _ {Wire : Type 0} (driver : Driver Wire) where
  -- `rs485_send`: true is `RS485_OK`.
  unfoldable pub rs485_send : List ℕ → Port Wire → Bool × Port Wire
  rs485_send bytes p =
      let (sent, wire) = driver.uart_transmit bytes rs485_timeout_ms p.wire in
      if length bytes == 0
      then (false, p)
      else (sent, record p { framer = rtu_framer_tx_begin p.framer; wire = wire })

  unfoldable pub master_rtu_send : List ℕ → Port Wire → Status × Port Wire
  master_rtu_send adu p =
      let armed = record p { waiting = true; frame_ready = false } in
      let (sent, after) = rs485_send adu armed in
      if length adu == 0
      then (status_error, armed)
      else (if sent then status_ok else status_error, after)

  -- `if (s_yield_cb != NULL) s_yield_cb()`
  abbrev pub yielded : Port Wire → Port Wire
  yielded p = yield_to driver.yield_cb p

module _ {Wire : Type 0} (hooks : Hooks) (driver : Driver Wire) where
  -- `rs485_modbus_rx_callback`
  unfoldable pub rx_callback : List ℕ → Port Wire → Port Wire
  rx_callback bytes p =
      let r = rtu_process hooks p.server bytes in
      let served = record p { server = r.server } in
      let turned = record served { framer = rtu_framer_delay_t35 p.framer } in
      if is_waiting p
      then on_frame bytes p
      else if ltb 0 (length r.tx)
      then (rs485_send driver r.tx turned).1
      else served

  unfoldable pub rs485_process : Systick → Port Wire → Port Wire
  rs485_process t p =
      let (framer, bytes) = rtu_framer_process t p.framer in
      let polled = record p { framer = framer } in
      if length bytes == 0 then polled else rx_callback bytes polled

  -- The loop of `master_rtu_recv` over its passes; none if it runs on behind the last of them.
  unfoldable pub recv_loop :
      ℕ → ℕ → ℕ → List Round → Port Wire → Option (Status × List ℕ × Port Wire)
  recv_loop max_len start timeout_ms [] p = none
  recv_loop max_len start timeout_ms (r ∷ rounds) p =
      let q = yielded driver (rs485_process r.poll (interrupted_by r.interrupts p)) in
      let rest = recv_loop max_len start timeout_ms rounds q in
      if not (ltb (u32 (r.now + 2 ^ 32 - start)) timeout_ms)
      then some (status_timeout, [], p)
      else if q.frame_ready
      then some (
        status_ok,
        take (min (length q.frame) max_len) q.frame,
        record q { frame_ready = false; frame = [] },
      )
      else rest

  -- `master_rtu_recv`, which reads `sys_tick` as `start`.
  unfoldable pub master_rtu_recv :
      ℕ → ℕ → ℕ → List Round → Port Wire → Option (Status × List ℕ × Port Wire)
  master_rtu_recv max_len timeout_ms start rounds p =
      if max_len == 0
      then some (status_error, [], p)
      else recv_loop max_len start timeout_ms rounds (record p { waiting = true })
