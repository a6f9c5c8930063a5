-- ===== src/Framer/Handover.antt =====
-- src/rtu_framer.c: the end of a frame, and the frame handed over to the application.
use stm32_automation_board.Common.{
  [], Bool, true, false, if◌then◌else◌, ◌==◌, leb, ◌&&◌, ◌||◌, not, ◌≡◌, ◌∙◌, arith,
}
use stm32_automation_board.Framer.{
  Framer, is_idle, Systick, rtu_elapsed_us, rtu_try_complete_frame, take_frame, rtu_framer_process,
}
use stm32_automation_board.Framer.Valid
use stm32_automation_board.Framer.Valid.{
  rtu_framer_on_byte-IsValid, rtu_try_complete_frame-IsValid, with_tick-IsValid, take_frame-IsValid,
}
use stm32_automation_board.Framer.Assembly.{assembled, waiting, take-copied}

-- Whether the silence behind the last byte has reached T3.5.
abbrev pub ended : Systick → Framer → Bool
ended t f = not (is_idle f.state) && leb f.t35_us (rtu_elapsed_us f t)

-- The end of a frame hands it over, unless an earlier one still waits: then the new one is
-- dropped, and the earlier one is not overwritten.
pub waiting-rtu_try_complete_frame :
    (t : Systick) (f : Framer)
    → Valid.IsValid f
    → let f' = rtu_try_complete_frame t f in
      (waiting f' ≡ (if ended t f && not f.frame_ready then assembled f else waiting f))
      × (assembled f' ≡ (if ended t f then [] else assembled f))
      × (f'.frame_ready ≡ (f.frame_ready || ended t f))
unfolding rtu_try_complete_frame
waiting-rtu_try_complete_frame t f v = ground (
  arith,
  v.begun,
  v.armed,
  v.rx_fits,
  v.rx_room,
  take-copied f.rx_len f.rx_buffer f.completed_buffer,
)

pub keeps_callback :
    (t : Systick) (f : Framer) → (rtu_try_complete_frame t f).has_callback ≡ f.has_callback
unfolding rtu_try_complete_frame
keeps_callback t f = ground arith

pub taken :
    (g : Framer)
    → (g.frame_ready && g.completed_len == 0) ≡ false
    → let (f', bytes) = take_frame g.completed_len g in
      (bytes ≡ waiting g) × (f'.frame_ready ≡ false)
unfolding take_frame
taken g h = ground (arith, h)

-- The application gets the frame that has just ended or the one that waits, whole, and then none
-- waits: a frame is delivered once. A callback is set.
pub rtu_framer_process_lem :
    (t : Systick) (f : Framer)
    → Valid.IsValid f
    → f.has_callback ≡ true
    → let (f', bytes) = rtu_framer_process t f in
      (bytes ≡ (if ended t f && not f.frame_ready then assembled f else waiting f))
      × (f'.frame_ready ≡ false)
unfolding rtu_framer_process
rtu_framer_process_lem t f v h =
    let g = rtu_try_complete_frame t f in
    let got = taken g (rtu_try_complete_frame-IsValid t f v).filled in
    let installed = keeps_callback t f ∙ h in
    ground (arith, installed, got.0 ∙ (waiting-rtu_try_complete_frame t f v).0, got.1)
