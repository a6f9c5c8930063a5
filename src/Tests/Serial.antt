-- ===== src/Tests/Serial.antt =====
-- Frames on the serial line.
use stm32_automation_board.Common.{
  ℕ, ◌-◌, List, [], ◌∷◌, true, ◌≡◌, ◌⊎◌, inl, refl, arith, length, get_or, take, drop,
}
use stm32_automation_board.Common.Word.{are_bytes-IsBytes}
use stm32_automation_board.Server.{Server, no_hooks}
use stm32_automation_board.Server.Valid.{no_hooks-IsSafe}
use stm32_automation_board.Rtu.{rtu_frame, rtu_process}
use stm32_automation_board.Rtu.Frame.{IsReply, status_of, rtu_process-IsReply}
use stm32_automation_board.Rtu.Reject.{IsUntouched, rtu_process-rejected, rtu_process-listen_only}
use stm32_automation_board.Rtu.Broadcast.{
  IsMalformed, rtu_process-broadcast, rtu_process-broadcast-IsUntouched,
}
use stm32_automation_board.Tests.{station, station-IsValid}

-- Read Holding Registers, for station 17.
abbrev read_pdu : List ℕ
read_pdu = 0x03 ∷ 0x00 ∷ 0x6b ∷ 0x00 ∷ 0x03 ∷ []

abbrev frame_17 : List ℕ
frame_17 = 0x11 ∷ 0x03 ∷ 0x00 ∷ 0x6b ∷ 0x00 ∷ 0x03 ∷ 0x1b ∷ 0x40 ∷ []

-- Write Single Coil, as a broadcast.
abbrev broadcast_frame : List ℕ
broadcast_frame = 0x00 ∷ 0x05 ∷ 0x00 ∷ 0x00 ∷ 0xff ∷ 0x00 ∷ 0x98 ∷ 0x01 ∷ []

abbrev listening : Server
listening = record station { diag = record station.diag { listen_only = true } }

rtu_process-IsReply_example :
    let r = rtu_process no_hooks station frame_17 in IsReply r × (r.status ≡ status_of frame_17)
rtu_process-IsReply_example =
    rtu_process-IsReply no_hooks station frame_17 no_hooks-IsSafe station-IsValid
      (are_bytes-IsBytes frame_17 refl)

rtu_process-rejected_example :
    let r = rtu_process no_hooks station (0x11 ∷ 0x03 ∷ []) in (r.tx ≡ []) × IsUntouched station r
rtu_process-rejected_example =
    rtu_process-rejected no_hooks station (0x11 ∷ 0x03 ∷ []) (inl (inl (omega arith)))

rtu_process-listen_only_example :
    let r = rtu_process no_hooks listening frame_17 in
    IsUntouched listening r × ((r.tx ≡ []) ⊎ (get_or frame_17 1 0 ≡ 0x08))
rtu_process-listen_only_example = rtu_process-listen_only no_hooks listening frame_17 refl

rtu_process-broadcast_example :
    ((rtu_process no_hooks station broadcast_frame).tx ≡ [])
    ⊎ IsMalformed (take (length broadcast_frame - 3) (drop 1 broadcast_frame))
rtu_process-broadcast_example = rtu_process-broadcast no_hooks station broadcast_frame refl

-- Read Discrete Inputs, as a broadcast.
abbrev broadcast_read : List ℕ
broadcast_read = rtu_frame 0 (0x02 ∷ 0x00 ∷ 0x00 ∷ 0x00 ∷ 0x08 ∷ [])

rtu_process-broadcast-IsUntouched_example :
    IsUntouched station (rtu_process no_hooks station broadcast_read)
unfolding rtu_frame
rtu_process-broadcast-IsUntouched_example =
    rtu_process-broadcast-IsUntouched no_hooks station broadcast_read refl refl
