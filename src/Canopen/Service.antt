-- ===== src/Canopen/Service.antt =====
-- src/canopen/canopen_sdo.c: the SDO server.
use stm32_automation_board.Common.{
  ℕ, ◌+◌, ◌-◌, ◌*◌, ◌/◌, ◌^◌, bit_and, bit_or, bit_xor, List, [], ◌∷◌, ◌++◌, Bool, true, false,
  if◌then◌else◌, ◌==◌, ◌!=◌, leb, ◌&&◌, not, length, get_or, take, drop, replicate,
}
use stm32_automation_board.Common.Word.{u8, u32}
use stm32_automation_board.Canopen.Types.{
  le16, put_le32, Frame, Subindex, World, Callbacks, od_of, transmit,
}
use stm32_automation_board.Canopen.Dictionary.{
  Found, missing, found, locate, od_write, od_successful, const_access, abort_read_not_allowed,
}
use stm32_automation_board.Canopen.Board.{ro}

abbrev pub abort_toggle_bit_not_alternated : ℕ
abort_toggle_bit_not_alternated = 0x05030000

abbrev pub abort_cmd_specifier_invalid : ℕ
abort_cmd_specifier_invalid = 0x05040001

abbrev pub abort_unsupported_access : ℕ
abort_unsupported_access = 0x06010000

abbrev pub abort_general_error : ℕ
abort_general_error = 0x08000000

-- `canopen_sdo_server_t`. `p_seg_data` points to the object at `seg_index`, `seg_subindex` of the
-- dictionary in use, and the segments read what it holds then.
pub record Sdo : Type 0 where
  pub node_id : ℕ
  pub seg_active : Bool
  pub seg_index : ℕ
  pub seg_subindex : ℕ
  pub seg_total_size : ℕ
  pub seg_offset : ℕ
  pub seg_toggle : ℕ

unfoldable pub sdo_init : ℕ → Sdo
sdo_init node_id = record {
  node_id = node_id;
  seg_active = false;
  seg_index = 0;
  seg_subindex = 0;
  seg_total_size = 0;
  seg_offset = 0;
  seg_toggle = 0;
}

-- A response of the server, under its COB-ID.
abbrev pub sdo_frame : Sdo → List ℕ → Frame
sdo_frame sdo payload = record { cob_id = u32 (0x580 + sdo.node_id); payload = payload }

unfoldable pub sdo_abort_frame : Sdo → ℕ → ℕ → ℕ → Frame
sdo_abort_frame sdo index sub code =
    sdo_frame sdo
      (0x80 ∷ u8 (bit_and index 0xff) ∷ u8 (bit_and (index / 2 ^ 8) 0xff) ∷ sub ∷ put_le32 code)

-- `memset` to zeros and `memcpy` of the bytes to the front of `n` bytes.
abbrev pub padded : ℕ → List ℕ → List ℕ
padded n bytes = bytes ++ replicate (n - length bytes) 0

-- The first four bytes of a response that names the object of the request.
abbrev pub reply_to : ℕ → List ℕ → List ℕ → List ℕ
reply_to command request rest =
    command ∷ get_or request 1 0 ∷ get_or request 2 0 ∷ get_or request 3 0 ∷ rest

abbrev pub index_of : List ℕ → ℕ
index_of request = le16 (get_or request 1 0) (get_or request 2 0)

abbrev pub subindex_of : List ℕ → ℕ
subindex_of request = get_or request 3 0

abbrev pub bytes_of : Found → List ℕ
bytes_of (missing code) = []
bytes_of (found sub object) = object

-- The object that a segmented upload reads.
abbrev pub seg_data : {App : Type 0} → Sdo → World App → List ℕ
seg_data sdo w = bytes_of (locate (od_of w) sdo.seg_index sdo.seg_subindex)

module _ {App : Type 0} (cb : Callbacks App) where
  unfoldable pub sdo_send_abort : Sdo → ℕ → ℕ → ℕ → World App → World App
  sdo_send_abort sdo index sub code w = (transmit cb (sdo_abort_frame sdo index sub code) w).1

  -- Initiate Download.
  unfoldable pub download : List ℕ → Sdo → World App → World App
  download request sdo w =
      let index = index_of request in
      let sub = subindex_of request in
      let command = get_or request 0 0 in
      let e = bit_and (command / 2 ^ 1) 0x01 in
      let s = bit_and command 0x01 in
      let n = if s == 1 then bit_and (command / 2 ^ 2) 0x03 else 0 in
      let (res, written) = od_write cb index sub (take (4 - n) (drop 4 request)) w in
      if not (e == 1)
      then sdo_send_abort sdo index sub abort_unsupported_access w
      else if res != od_successful
      then sdo_send_abort sdo index sub res written
      else (transmit cb (sdo_frame sdo (reply_to 0x60 request (replicate 4 0))) written).1

  -- Initiate Upload of an object that is there and may be read.
  unfoldable pub upload_object : List ℕ → Subindex → List ℕ → Sdo → World App → Sdo × World App
  upload_object request sub object sdo w =
      let n = u8 (4 - sub.size) in
      let command = bit_or (bit_or (bit_or 0x40 (u8 (n * 2 ^ 2))) 0x02) 0x01 in
      let expedited = reply_to command request (padded 4 (take sub.size object)) in
      let begun = record sdo {
        seg_active = true;
        seg_index = index_of request;
        seg_subindex = subindex_of request;
        seg_total_size = sub.size;
        seg_offset = 0;
        seg_toggle = 0;
      } in
      if leb sub.size 4
      then (sdo, (transmit cb (sdo_frame sdo expedited) w).1)
      else (begun, (transmit cb (sdo_frame sdo (reply_to 0x41 request (put_le32 sub.size))) w).1)

  unfoldable pub upload : List ℕ → Sdo → World App → Sdo × World App
  upload request sdo w =
      let index = index_of request in
      let b_subindex = subindex_of request in
      elim (locate (od_of w) index b_subindex) [
        | missing code ↦ (sdo, sdo_send_abort sdo index b_subindex code w)
        | found sub object ↦
            if bit_and sub.b_access_type ro == 0 && sub.b_access_type != const_access
            then (sdo, sdo_send_abort sdo index b_subindex abort_read_not_allowed w)
            else upload_object request sub object sdo w
      ]

  -- Upload Segment.
  unfoldable pub upload_segment : List ℕ → Sdo → World App → Sdo × World App
  upload_segment request sdo w =
      let toggle = bit_and (get_or request 0 0 / 2 ^ 4) 0x01 in
      let rem = u32 (sdo.seg_total_size + 2 ^ 32 - sdo.seg_offset) in
      let chunk = if leb rem 7 then u8 rem else 7 in
      let c = if leb rem 7 then 1 else 0 in
      let n = 7 - chunk in
      let command = u8 (bit_or (bit_or (sdo.seg_toggle * 2 ^ 4) (n * 2 ^ 1)) c) in
      let segment = take chunk (drop sdo.seg_offset (seg_data sdo w)) in
      let next = record sdo {
        seg_offset = u32 (sdo.seg_offset + chunk);
        seg_toggle = bit_xor sdo.seg_toggle 1;
        seg_active = if c == 1 then false else sdo.seg_active;
      } in
      if not sdo.seg_active
      then (sdo, sdo_send_abort sdo 0 0 abort_general_error w)
      else if toggle != sdo.seg_toggle
      then (
        record sdo { seg_active = false },
        sdo_send_abort sdo sdo.seg_index sdo.seg_subindex abort_toggle_bit_not_alternated w,
      )
      else (next, (transmit cb (sdo_frame sdo (command ∷ padded 7 segment)) w).1)

  -- `canopen_sdo_rx_frame`: whether the frame was handled.
  unfoldable pub sdo_rx_frame : List ℕ → Sdo → World App → Bool × Sdo × World App
  sdo_rx_frame request sdo w =
      let cs = bit_and (get_or request 0 0 / 2 ^ 5) 0x07 in
      let (up, up_w) = upload request sdo w in
      let (seg, seg_w) = upload_segment request sdo w in
      if length request != 8
      then (false, sdo, w)
      else if get_or request 0 0 == 0x80
      then (true, record sdo { seg_active = false }, w)
      else if cs == 1
      then (true, sdo, download request sdo w)
      else if cs == 2
      then (true, up, up_w)
      else if cs == 3
      then (true, seg, seg_w)
      else (true, sdo, sdo_send_abort sdo 0 0 abort_cmd_specifier_invalid w)
