-- ===== src/Port/Delivered.antt =====
-- src/modbus_master_rtu.c with src/rtu_framer.c: an answer on the line, with the ticks and the polls
-- between its bytes, as the master gets it.
use stm32_automation_board.Common.{
  ℕ, ◌+◌, ◌-◌, ◌≤◌, ◌^◌, List, [], ◌∷◌, ◌++◌, Bool, true, false, ◌==◌, ltb, ◌&&◌, ◌≡◌, ◌⊎◌, inl,
  inr, refl, sym, ap, ◌∙◌, arith, length, take, min, Option, none, some, take_all,
}
use stm32_automation_board.Common.Word.{u32}
use stm32_automation_board.Server.{Server, Hooks}
use stm32_automation_board.Framer.{is_idle, Framer, Systick, rtu_framer_on_byte, rtu_framer_process}
use stm32_automation_board.Framer.Valid
use stm32_automation_board.Framer.Events.{
  LineEvent, byte_in, tick, poll, after_event, after, call, delivered, bytes_of, in_time, silent,
  closed,
}
use stm32_automation_board.Framer.Delivery.{frame_delivered}
use stm32_automation_board.Rtu.{status_ok, rtu_frame_max}
use stm32_automation_board.Port.{
  Port, Driver, Round, Interrupt, byte_received, millisecond, overrun, interrupted, interrupted_by,
  on_frame, is_waiting, rx_callback, rs485_process, yield_to, yielded, recv_loop, master_rtu_recv,
}

-- What interrupts do to the framer; an overrun is not its matter.
abbrev pub events_in : List Interrupt → List LineEvent
events_in [] = []
events_in (byte_received t t' byte ∷ is) = byte_in t t' byte ∷ events_in is
events_in (millisecond t ∷ is) = tick t ∷ events_in is
events_in (overrun ∷ is) = events_in is

-- What the passes of the wait do to the framer.
abbrev pub events_of : List Round → List LineEvent
events_of [] = []
events_of (r ∷ rounds) = events_in r.interrupts ++ (poll r.poll ∷ events_of rounds)

-- The condition of the loop holds in each pass.
abbrev pub in_limit : ℕ → ℕ → List Round → Bool
in_limit start timeout_ms [] = true
in_limit start timeout_ms (r ∷ rounds) =
    ltb (u32 (r.now + 2 ^ 32 - start)) timeout_ms && in_limit start timeout_ms rounds

abbrev first_call : List (List ℕ) → List ℕ
first_call [] = []
first_call (bytes ∷ calls) = bytes

list_cases : (xs : List ℕ) → (xs ≡ []) ⊎ ((y : ℕ) × (ys : List ℕ) × (xs ≡ y ∷ ys))
list_cases [] = inl refl
list_cases (y ∷ ys) = inr (y, ys, refl)

delivered-events_in :
    (is : List Interrupt) (es : List LineEvent) (f : Framer)
    → delivered (events_in is ++ es) f ≡ delivered es (after (events_in is) f)
delivered-events_in [] es f = refl
delivered-events_in (byte_received t t' byte ∷ is) es f =
    delivered-events_in is es (after_event (byte_in t t' byte) f)
delivered-events_in (millisecond t ∷ is) es f = delivered-events_in is es (after_event (tick t) f)
delivered-events_in (overrun ∷ is) es f = delivered-events_in is es f

module _ {Wire : Type 0} where
  -- What the master's transport has of a port.
  record HasState (waiting frame_ready : Bool) (framer : Framer) (p : Port Wire) : Type 0 where
    armed : p.waiting ≡ waiting
    ready : p.frame_ready ≡ frame_ready
    framed : p.framer ≡ framer

  interrupted_by-HasState :
      (is : List Interrupt) (p : Port Wire)
      → HasState p.waiting p.frame_ready (after (events_in is) p.framer) (interrupted_by is p)
  unfolding interrupted_by interrupted
  interrupted_by-HasState [] p = record { armed = refl; ready = refl; framed = refl }
  interrupted_by-HasState (byte_received t t' byte ∷ is) p =
      interrupted_by-HasState is (interrupted (byte_received t t' byte) p)
  interrupted_by-HasState (millisecond t ∷ is) p =
      interrupted_by-HasState is (interrupted (millisecond t) p)
  interrupted_by-HasState (overrun ∷ is) p = interrupted_by-HasState is (interrupted overrun p)

  yield_to-HasState :
      (cb : Option (Server → Wire → Server × Wire)) (p : Port Wire)
      → HasState p.waiting p.frame_ready p.framer (yield_to cb p)
  yield_to-HasState none p = record { armed = refl; ready = refl; framed = refl }
  yield_to-HasState (some yield) p = record { armed = refl; ready = refl; framed = refl }

  yield_to_frame :
      (cb : Option (Server → Wire → Server × Wire)) (p : Port Wire)
      → ((yield_to cb p).frame ≡ p.frame) × ((yield_to cb p).frame_ready ≡ p.frame_ready)
  yield_to_frame none p = (refl, refl)
  yield_to_frame (some yield) p = (refl, refl)

module _ {Wire : Type 0} (hooks : Hooks) (driver : Driver Wire) where
  rs485_process_quiet :
      (t : Systick) (p : Port Wire)
      → (rtu_framer_process t p.framer).1 ≡ []
      → rs485_process hooks driver t p ≡ record p { framer = (rtu_framer_process t p.framer).0 }
  unfolding rs485_process
  rs485_process_quiet t p none_handed = rw (rs485_process, none_handed) refl

  -- A frame that the framer hands over while a transaction is armed is latched for the master.
  rs485_process-latched :
      (t : Systick) (p : Port Wire) (bytes : List ℕ)
      → p.waiting ≡ true
      → (rtu_framer_process t p.framer).1 ≡ bytes
      → 1 ≤ length bytes
      → length bytes ≤ rtu_frame_max
      → let q = rs485_process hooks driver t p in (q.frame ≡ bytes) × (q.frame_ready ≡ true)
  unfolding rs485_process rx_callback is_waiting on_frame
  rs485_process-latched t p bytes armed handed one most =
      let some_byte : (length bytes == 0) ≡ false = ground arith in
      let whole : take (min (length bytes) rtu_frame_max) bytes ≡ bytes =
        take_all (min (length bytes) rtu_frame_max) bytes (omega arith) in
      simp (rs485_process, handed, some_byte, rx_callback, is_waiting, armed, on_frame, whole)
        (refl, refl)

  -- The wait ends with the first call of the callback.
  recv_loop-delivered :
      (rounds later : List Round) (p : Port Wire) (x : ℕ) (xs : List ℕ) (calls : List (List ℕ))
      (max_len start timeout_ms : ℕ)
      → p.waiting ≡ true
      → p.frame_ready ≡ false
      → 1 + length xs ≤ rtu_frame_max
      → 1 + length xs ≤ max_len
      → in_limit start timeout_ms rounds ≡ true
      → delivered (events_of rounds) p.framer ≡ (x ∷ xs) ∷ calls
      → (end : Port Wire) × (recv_loop hooks driver max_len start timeout_ms (rounds ++ later) p
          ≡ some (status_ok, x ∷ xs, end))
  unfolding recv_loop
  recv_loop-delivered [] later p x xs calls max_len start timeout_ms w i most room soon got =
      absurd (ground (arith, got))
  recv_loop-delivered (r ∷ rounds) later p x xs calls max_len start timeout_ms w i most room soon
        got =
      let p' = interrupted_by r.interrupts p in
      let here = interrupted_by-HasState r.interrupts p in
      let bytes = (rtu_framer_process r.poll p'.framer).1 in
      let next = (rtu_framer_process r.poll p'.framer).0 in
      let calls' : call bytes (delivered (events_of rounds) next) ≡ (x ∷ xs) ∷ calls =
        ap (λ f. delivered (poll r.poll ∷ events_of rounds) f) here.framed
        ∙ sym (delivered-events_in r.interrupts (poll r.poll ∷ events_of rounds) p.framer)
        ∙ got in
      let q = rs485_process hooks driver r.poll p' in
      let before : ltb (u32 (r.now + 2 ^ 32 - start)) timeout_ms ≡ true = ground (arith, soon) in
      elim (list_cases bytes) [
        | inl quiet ↦
            let polled = rs485_process_quiet r.poll p' quiet in
            let kept = yield_to-HasState driver.yield_cb q in
            let ready =
              kept.ready ∙ ap (λ (o : Port Wire). o.frame_ready) polled ∙ here.ready ∙ i in
            let (end, rest) =
              recv_loop-delivered rounds later (yielded driver q) x xs calls max_len start
                timeout_ms (kept.armed ∙ ap (λ (o : Port Wire). o.waiting) polled ∙ here.armed ∙ w)
                ready most room (ground (arith, soon))
                (ap (delivered (events_of rounds))
                    (kept.framed ∙ ap (λ (o : Port Wire). o.framer) polled)
                  ∙ ap (λ ys. call ys (delivered (events_of rounds) next)) (sym quiet)
                  ∙ calls') in
            (end, rw (recv_loop, before, ready) rest)
        | inr (y, ys, handed) ↦
            let same : y ∷ ys ≡ x ∷ xs =
              ap (λ zs. first_call (call zs (delivered (events_of rounds) next))) (sym handed)
              ∙ ap first_call calls' in
            let (latched, ready) =
              rs485_process-latched r.poll p' (x ∷ xs) (here.armed ∙ w) (handed ∙ same)
                (omega arith) (omega (arith, most)) in
            let (frame, flag) = yield_to_frame driver.yield_cb q in
            let whole : take (min (length (x ∷ xs)) max_len) (x ∷ xs) ≡ x ∷ xs =
              take_all (min (length (x ∷ xs)) max_len) (x ∷ xs) (omega (arith, room)) in
            let end : Port Wire = record (yielded driver q) { frame_ready = false; frame = [] } in
            (end, rw (recv_loop, before, flag ∙ ready, frame ∙ latched, whole) refl)
      ]

  -- The master gets an answer on the line as it is. The wait begins with an idle framer that has the
  -- port's callback, and no frame waiting in the framer or latched. Over the passes of the wait, all
  -- before the timeout, the framer sees ticks of the millisecond and polls, then the first byte, then
  -- bytes, ticks and polls, each byte at most T1.5 and each tick and poll less than T3.5 behind the
  -- byte before, then ticks and polls only, one of which finds T3.5 passed, and a poll is that one or
  -- comes later; overruns may come anywhere. The buffer and `max_len` have room for the bytes. Then
  -- the wait ends with MODBUS_OK and exactly these bytes, whatever further passes would bring.
  pub master_rtu_recv-frame_delivered :
      (lead : List LineEvent) (t t' : Systick) (byte : ℕ) (body tail : List LineEvent)
      (rounds later : List Round) (p : Port Wire) (max_len timeout_ms start : ℕ)
      → Valid.IsValid p.framer
      → p.framer.has_callback ≡ true
      → p.framer.frame_ready ≡ false
      → is_idle p.framer.state ≡ true
      → p.frame_ready ≡ false
      → events_of rounds ≡ lead ++ (byte_in t t' byte ∷ (body ++ tail))
      → in_limit start timeout_ms rounds ≡ true
      → silent lead ≡ true
      → let first = rtu_framer_on_byte t t' byte (after lead p.framer) in
        1 + length (bytes_of body) ≤ p.framer.buffer_size
        → 1 + length (bytes_of body) ≤ max_len
        → in_time body first ≡ true
        → silent tail ≡ true
        → closed tail (after body first) ≡ true
        → (end : Port Wire) × (master_rtu_recv hooks driver max_len timeout_ms start
              (rounds ++ later)
              p
            ≡ some (status_ok, byte ∷ bytes_of body, end))
  unfolding master_rtu_recv
  master_rtu_recv-frame_delivered lead t t' byte body tail rounds later p max_len timeout_ms start v
        cb r i l line soon s fits room ok q c =
      let some_room : (max_len == 0) ≡ false = ground (arith, room) in
      let (got, _) = frame_delivered lead t t' byte body tail p.framer v cb r i s fits ok q c in
      let (end, result) =
        recv_loop-delivered rounds later (record p { waiting = true }) byte (bytes_of body) []
          max_len start timeout_ms refl l (omega (arith, fits, v.most)) room soon
          (ap (λ es. delivered es p.framer) line ∙ got) in
      (end, rw (master_rtu_recv, some_room) result)
