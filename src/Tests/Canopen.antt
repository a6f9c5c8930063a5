-- ===== src/Tests/Canopen.antt =====
-- The CANopen node, on the default dictionary, with a bus that takes every frame.
use stm32_automation_board.Common.{
  ℕ, suc, Bool, if◌then◌else◌, ◌==◌, ◌≢◌, ◌+◌, ◌*◌, ◌≤◌, List, [], ◌∷◌, true, false, ◌≡◌, inr, refl,
  arith, none, some,
}
use stm32_automation_board.Canopen.Types.{
  Frame, Callbacks, le16, octet, put_le16, put_le32, Subindex, World, NmtState, stopped,
  operational, pre_operational, od_of, transmit,
}
use stm32_automation_board.Canopen.Dictionary.{
  find_index, locate, od_read, note_write, abort_read_not_allowed,
}
use stm32_automation_board.Canopen.Board.{
  default_od, device_name, u8_object, u16_object, rw_access, string_object, entry,
}
use stm32_automation_board.Canopen.Network.{Nmt}
use stm32_automation_board.Canopen.Process.{pdo_init, rx_rpdo, send_tpdo, send_tpdo1}
use stm32_automation_board.Canopen.Service.{Sdo, sdo_frame, reply_to, sdo_rx_frame}
use stm32_automation_board.Canopen.Transfers.{upload-download}
use stm32_automation_board.Canopen.Segments.{segments, gathered}
use stm32_automation_board.Canopen.Pulled.{pull, deliver, upload-pulled}
use stm32_automation_board.Canopen.States.{
  IsNode, here, then_step, frame, Steps-IsNode, canopen_rx_frame-ignored,
}
use stm32_automation_board.Canopen.Timing.{
  Act, process_pdo, trigger1, trigger2, acted, run, counting, heartbeats-bounded,
  send_tpdo1-inhibited,
}
use stm32_automation_board.Canopen.Outputs.{sdo_rx_frame-rx_rpdo, write_only-upload}
use stm32_automation_board.Canopen.{Node, canopen_rx_frame}

-- The state of the application is the number of frames on the bus.
abbrev world : World ℕ
world = record { board_objdict = default_od; custom_od = none; app = 0 }

abbrev server : Sdo
server = record {
  node_id = 10;
  seg_active = false;
  seg_index = 0;
  seg_subindex = 0;
  seg_total_size = 0;
  seg_offset = 0;
  seg_toggle = 0;
}

abbrev pub node_in : NmtState → Node
node_in state = record {
  node_id = 10;
  nmt = record {
    node_id = 10;
    state = state;
    heartbeat_period_ms = 1000;
    heartbeat_timer_ms = 1000;
  };
  sdo = server;
  pdo = pdo_init 10;
}

-- Reads the device name, an object of 22 bytes.
abbrev read_name : List ℕ
read_name = 0x40 ∷ 0x08 ∷ 0x10 ∷ 0x00 ∷ 0x00 ∷ 0x00 ∷ 0x00 ∷ 0x00 ∷ []

upload-pulled_example :
    let answers = segments 4 device_name 0 in
    let (handled, begun, w') = sdo_rx_frame counting read_name server world in
    let (ended, w'') = pull counting 4 0 begun w' in
    (handled ≡ true)
    × (w' ≡ (transmit counting (sdo_frame server (reply_to 0x41 read_name (put_le32 22))) world).1)
    × (w'' ≡ deliver counting begun answers w')
    × (gathered answers ≡ device_name)
    × (ended.seg_active ≡ false)
unfolding le16 locate find_index
upload-pulled_example =
    upload-pulled counting read_name 0x1008 0 (string_object device_name) device_name server world
      (record { size = refl; command = refl; index_word = refl; subindex_byte = refl }) refl
      (ground arith) refl (omega arith) (omega arith)

-- Writes 500 ms to the heartbeat time, and reads it.
abbrev write_heartbeat : List ℕ
write_heartbeat = 0x2b ∷ 0x17 ∷ 0x10 ∷ 0x00 ∷ 0xf4 ∷ 0x01 ∷ 0x00 ∷ 0x00 ∷ []

abbrev read_heartbeat : List ℕ
read_heartbeat = 0x40 ∷ 0x17 ∷ 0x10 ∷ 0x00 ∷ 0x00 ∷ 0x00 ∷ 0x00 ∷ 0x00 ∷ []

upload-download_example :
    let (first, sdo', w') = sdo_rx_frame counting write_heartbeat server world in
    let (second, sdo'', w'') = sdo_rx_frame counting read_heartbeat sdo' w' in
    let answer = reply_to 0x4b read_heartbeat (0xf4 ∷ 0x01 ∷ 0x00 ∷ 0x00 ∷ []) in
    (first ≡ true)
    × (second ≡ true)
    × (sdo'' ≡ server)
    × (w'' ≡ (transmit counting (sdo_frame server answer) w').1)
unfolding le16 locate find_index note_write octet put_le16
upload-download_example =
    upload-download counting server write_heartbeat read_heartbeat 0x1017 0 (0xf4 ∷ 0x01 ∷ [])
      (u16_object rw_access 1000) (put_le16 1000) world
      (record {
        size = refl;
        command = refl;
        index_word = refl;
        subindex_byte = refl;
        some_byte = omega arith;
        at_most = omega arith;
        bytes = refl;
      })
      (record { size = refl; command = refl; index_word = refl; subindex_byte = refl }) refl
      (ground arith) (ground arith) refl refl (λ v. refl)

canopen_rx_frame-ignored_example :
    let idle = node_in stopped in
    let (handled, node', w') = canopen_rx_frame counting 0x60a read_name idle world in
    (node' ≡ idle) × (w' ≡ world) × (handled ≡ false)
canopen_rx_frame-ignored_example =
    canopen_rx_frame-ignored counting 0x60a read_name (node_in stopped) world refl (ground arith)
      (inr refl)

board_node_in_order : IsNode 10 (node_in pre_operational)
unfolding pdo_init
board_node_in_order = ground arith

Steps-IsNode_example :
    let n = node_in pre_operational in
    IsNode 10 (canopen_rx_frame counting 0x000 (0x01 ∷ 0x0a ∷ []) n world).1
Steps-IsNode_example =
    Steps-IsNode counting 10 (node_in pre_operational)
      (canopen_rx_frame counting 0x000 (0x01 ∷ 0x0a ∷ []) (node_in pre_operational) world).1
      (then_step (node_in pre_operational) (node_in pre_operational) _ (here _)
        (frame 0x000 (0x01 ∷ 0x0a ∷ []) (node_in pre_operational) world))
      board_node_in_order

abbrev beating : Nmt
beating = record {
  node_id = 10;
  state = operational;
  heartbeat_period_ms = 1000;
  heartbeat_timer_ms = 400;
}

heartbeats-bounded_example :
    let (n', w') = run (300 ∷ 200 ∷ 900 ∷ []) beating world in
    w'.app * 1000 + 400 ≤ 0 * 1000 + 1400 + n'.heartbeat_timer_ms
heartbeats-bounded_example =
    heartbeats-bounded (300 ∷ 200 ∷ 900 ∷ []) beating world (omega arith) (omega arith)
      (omega arith)

-- A bus that counts the TPDO1s of node 10.
abbrev count_tpdo1 : Frame → ℕ → Bool × ℕ
count_tpdo1 sent n = (true, if sent.cob_id == 0x18a then suc n else n)

abbrev recording : Callbacks ℕ
recording = record {
  tx_func = count_tpdo1;
  post_write_cb = none;
  app_sync_inputs = λ w. w;
  app_sync_outputs = λ w. w;
}

abbrev IsOnce : World ℕ → Type 0
IsOnce w = w.app ≡ 1

other_frame : (sent : Frame) → sent.cob_id ≢ 0x18a → (sent.cob_id == 0x18a) ≡ false
other_frame sent other = ground (arith, other)

-- A trigger of TPDO2, and then 40 ms, a trigger of TPDO1, and 59 ms.
abbrev waits : List Act
waits = trigger2 ∷ process_pdo 40 true ∷ trigger1 ∷ process_pdo 59 false ∷ []

send_tpdo1-inhibited_example :
    let (_, p', w') = send_tpdo1 recording (pdo_init 10) world in
    IsOnce (acted recording waits p' w').1
unfolding send_tpdo1 send_tpdo pdo_init
send_tpdo1-inhibited_example =
    send_tpdo1-inhibited recording IsOnce waits (pdo_init 10) world (λ u once. once)
      (λ sent u other once. rw (other_frame sent other) once) (ground arith) refl (omega arith) refl

-- The request to write one byte to 0x6200.
abbrev write_outputs : List ℕ
write_outputs = 0x2f ∷ 0x00 ∷ 0x62 ∷ 0x01 ∷ 0xa5 ∷ 0x00 ∷ 0x00 ∷ 0x00 ∷ []

sdo_rx_frame-rx_rpdo_example :
    let (mapped, driven) = rx_rpdo counting 0x20a (0xa5 ∷ []) true (pdo_init 10) world in
    let ack = sdo_frame server (reply_to 0x60 write_outputs (0 ∷ 0 ∷ 0 ∷ 0 ∷ [])) in
    (mapped ≡ true)
    × (sdo_rx_frame counting write_outputs server world
        ≡ (true, server, (transmit counting ack driven).1))
unfolding le16 locate find_index pdo_init
sdo_rx_frame-rx_rpdo_example =
    sdo_rx_frame-rx_rpdo counting write_outputs 0xa5 server (pdo_init 10) world
      (u8_object rw_access 0) (0 ∷ [])
      (record {
        size = refl;
        command = refl;
        index_word = refl;
        subindex_byte = refl;
        some_byte = omega arith;
        at_most = omega arith;
        bytes = refl;
      })
      refl refl refl (ground arith) refl (omega arith)

-- A dictionary of the application with one write-only object.
abbrev secret : Subindex
secret = record { b_access_type = 0x03; b_data_type = 0x05; size = 1; p_object = some (0x2a ∷ []) }

abbrev secret_world : World ℕ
secret_world = record world { custom_od = some (entry 0x2000 (secret ∷ []) ∷ []) }

abbrev read_secret : List ℕ
read_secret = 0x40 ∷ 0x00 ∷ 0x20 ∷ 0x00 ∷ 0x00 ∷ 0x00 ∷ 0x00 ∷ 0x00 ∷ []

write_only-upload_example :
    ((od_read (od_of secret_world) 0x2000 0 4).0 ≡ abort_read_not_allowed)
    × (sdo_rx_frame counting read_secret server secret_world ≡ (
      true,
      server,
      (transmit counting
          (sdo_frame server (reply_to 0x4f read_secret (0x2a ∷ 0 ∷ 0 ∷ 0 ∷ [])))
          secret_world).1,
    ))
unfolding le16 locate find_index
write_only-upload_example =
    write_only-upload counting read_secret 0x2000 0 secret (0x2a ∷ []) server secret_world
      (record { size = refl; command = refl; index_word = refl; subindex_byte = refl }) refl refl
      refl (omega arith) (omega arith)
