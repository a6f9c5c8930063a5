-- ===== src/Master/Wire.antt =====
-- The frames of the master and of the server are the same, and each accepts the other's.
use stm32_automation_board.Common.{
  ℕ, ◌+◌, ◌-◌, ◌≤◌, List, [], ◌∷◌, ◌++◌, false, ◌==◌, ◌!=◌, ltb, ◌||◌, ◌≡◌, ◌≢◌, refl, arith,
  length, take, drop, length-append, take-append,
}
use stm32_automation_board.Common.Word.{hi8, lo8, IsByte, IsBytes}
use stm32_automation_board.Crc.{crc16}
use stm32_automation_board.Diag.{note_bus_message, note_slave_message}
use stm32_automation_board.Server.{Server, Hooks}
use stm32_automation_board.Rtu.{
  status_ok, rtu_frame, rtu_frame_max, rtu_process, rtu_serve, with_diag,
}
use stm32_automation_board.Rtu.Frame.{rtu_frame-IsFrame}
use stm32_automation_board.Master.{rtu_validate_response}
use stm32_automation_board.Master.Build.{master_rtu_frame}

pub master_rtu_frame_lem :
    (id : ℕ) (pdu : List ℕ)
    → 1 ≤ length pdu
    → length pdu ≤ 253
    → master_rtu_frame id pdu rtu_frame_max ≡ rtu_frame id pdu
unfolding master_rtu_frame rtu_frame
master_rtu_frame_lem id pdu one most = ground arith

pub length-rtu_frame : (id : ℕ) (pdu : List ℕ) → length (rtu_frame id pdu) ≡ 3 + length pdu
unfolding rtu_frame
length-rtu_frame id pdu =
    let body = id ∷ pdu in
    omega (arith, length-append body (lo8 (crc16 body) ∷ hi8 (crc16 body) ∷ []))

-- The PDU is what stands between the address and the CRC.
pub pdu_of-rtu_frame :
    (id : ℕ) (pdu : List ℕ) → take (length (rtu_frame id pdu) - 3) (drop 1 (rtu_frame id pdu)) ≡ pdu
unfolding rtu_frame
pdu_of-rtu_frame id pdu =
    let body = id ∷ pdu in
    let tail = lo8 (crc16 body) ∷ hi8 (crc16 body) ∷ [] in
    let size : length (body ++ tail) - 3 ≡ length pdu = omega (arith, length-append body tail) in
    rw size (take-append pdu tail)

-- The master accepts the frames of the station that it asked, and takes their PDU out.
pub rtu_validate_response-rtu_frame :
    (id : ℕ) (pdu : List ℕ)
    → IsByte id
    → IsBytes pdu
    → 1 ≤ length pdu
    → length pdu ≤ 253
    → rtu_validate_response id (rtu_frame id pdu) ≡ (status_ok, pdu)
unfolding rtu_validate_response
rtu_validate_response-rtu_frame id pdu h b one most =
    let f = rtu_frame-IsFrame id pdu h b one most in
    rw (pdu_of-rtu_frame id pdu) (ground (arith, f.at_least, f.at_most, f.intact, f.address))

-- A station that hears a frame for itself.
abbrev pub addressed : Server → Server
addressed s = with_diag s (note_slave_message (note_bus_message s.diag))

-- The station serves the PDU of a frame that is addressed to it.
pub rtu_process-rtu_frame :
    (hooks : Hooks) (s : Server) (pdu : List ℕ)
    → IsByte s.slave_id
    → s.slave_id ≢ 0
    → IsBytes pdu
    → 1 ≤ length pdu
    → length pdu ≤ 253
    → rtu_process hooks s (rtu_frame s.slave_id pdu) ≡ rtu_serve hooks (addressed s) pdu false
unfolding rtu_process
rtu_process-rtu_frame hooks s pdu h n b one most =
    let f = rtu_frame-IsFrame s.slave_id pdu h b one most in
    let size : (ltb (length (rtu_frame s.slave_id pdu)) 4
          || ltb rtu_frame_max (length (rtu_frame s.slave_id pdu)))
        ≡ false =
      ground (arith, f.at_least, f.at_most) in
    let unicast : (s.slave_id == 0) ≡ false = ground (arith, n) in
    let ours : (s.slave_id != s.slave_id) ≡ false = ground arith in
    rw (size, f.intact, f.address, ours, unicast, pdu_of-rtu_frame s.slave_id pdu) refl
