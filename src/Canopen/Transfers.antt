-- ===== src/Canopen/Transfers.antt =====
-- Expedited SDO transfers: what a client that writes and reads an object sees.
use stm32_automation_board.Common.{
  ℕ, zero, suc, ◌+◌, ◌-◌, ◌*◌, ◌/◌, ◌^◌, ◌≤◌, bit_and, bit_or, List, [], ◌∷◌, ◌++◌, true, false,
  if◌then◌else◌, ◌==◌, ◌!=◌, leb, ◌≡◌, ◌≢◌, refl, sym, ap, ◌∙◌, arith, length, get_or, take,
  take_all, drop, replicate, append-nil,
}
use stm32_automation_board.Common.Word.{u8}
use stm32_automation_board.Canopen.Types.{Subindex, World, Callbacks, od_of, with_od, transmit}
use stm32_automation_board.Canopen.Dictionary.{
  found, locate, od_write, note_write, store_object, store_sub, od_successful,
}
use stm32_automation_board.Canopen.Board.{ro}
use stm32_automation_board.Canopen.Objects.{locate-store_object, od_of-with_od, od_write-accepted}
use stm32_automation_board.Canopen.Service.{
  Sdo, sdo_frame, sdo_abort_frame, sdo_send_abort, padded, reply_to, index_of, subindex_of,
  download, upload_object, upload, sdo_rx_frame,
}

-- A request to write the bytes `src` of an object, 1 to 4 of them, at once.
pub record Downloads (request : List ℕ) (index b_subindex : ℕ) (src : List ℕ) : Type 0 where
  pub size : length request ≡ 8
  pub command : get_or request 0 0 ≡ 0x23 + 4 * (4 - length src)
  pub index_word : index_of request ≡ index
  pub subindex_byte : subindex_of request ≡ b_subindex
  pub some_byte : 1 ≤ length src
  pub at_most : length src ≤ 4
  pub bytes : take (length src) (drop 4 request) ≡ src

-- A request to read an object.
pub record Uploads (request : List ℕ) (index b_subindex : ℕ) : Type 0 where
  pub size : length request ≡ 8
  pub command : get_or request 0 0 ≡ 0x40
  pub index_word : index_of request ≡ index
  pub subindex_byte : subindex_of request ≡ b_subindex

-- The fields of the command byte of such a request.
command_fields :
    (k : ℕ)
    → 1 ≤ k
    → k ≤ 4
    → let c = 0x23 + 4 * (4 - k) in
      (bit_and (c / 2 ^ 5) 0x07 ≡ 1)
      × (bit_and (c / 2 ^ 1) 0x01 ≡ 1)
      × (bit_and c 0x01 ≡ 1)
      × (4 - bit_and (c / 2 ^ 2) 0x03 ≡ k)
      × ((c == 0x80) ≡ false)
command_fields zero one most = absurd (omega arith)
command_fields (suc zero) one most = (refl, refl, refl, refl, refl)
command_fields (suc (suc zero)) one most = (refl, refl, refl, refl, refl)
command_fields (suc (suc (suc zero))) one most = (refl, refl, refl, refl, refl)
command_fields (suc (suc (suc (suc zero)))) one most = (refl, refl, refl, refl, refl)
command_fields (suc (suc (suc (suc (suc k))))) one most = absurd (omega arith)

-- The command byte of an expedited answer.
reply_command :
    (k : ℕ)
    → 1 ≤ k
    → k ≤ 4
    → bit_or (bit_or (bit_or 0x40 (u8 (u8 (4 - k) * 2 ^ 2))) 0x02) 0x01 ≡ 0x43 + 4 * (4 - k)
reply_command zero one most = absurd (omega arith)
reply_command (suc zero) one most = refl
reply_command (suc (suc zero)) one most = refl
reply_command (suc (suc (suc zero))) one most = refl
reply_command (suc (suc (suc (suc zero)))) one most = refl
reply_command (suc (suc (suc (suc (suc k))))) one most = absurd (omega arith)

drop_all : (xs : List ℕ) (n : ℕ) → length xs ≤ n → drop n xs ≡ []
drop_all [] zero h = refl
drop_all [] (suc n) h = refl
drop_all (x ∷ xs) zero h = absurd (omega arith)
drop_all (x ∷ xs) (suc n) h = drop_all xs n (omega arith)

module _ {App : Type 0} (cb : Callbacks App) (sdo : Sdo) where
  -- A request to write 1 to 4 bytes writes them through `canopen_od_write`: what this refuses is
  -- answered by an abort with its code, index and subindex, and what it takes is acknowledged. The
  -- server's own state stays.
  pub sdo_rx_frame-download :
      (request : List ℕ) (index b_subindex : ℕ) (src : List ℕ) (w : World App)
      → Downloads request index b_subindex src
      → let (code, written) = od_write cb index b_subindex src w in
        sdo_rx_frame cb request sdo w ≡ (
          true,
          sdo,
          (transmit cb
              (if code == od_successful
                then sdo_frame sdo (reply_to 0x60 request (replicate 4 0))
                else sdo_abort_frame sdo index b_subindex code)
              written).1,
        )
  unfolding sdo_rx_frame download sdo_send_abort
  sdo_rx_frame-download request index b_subindex src w d =
      let (cs, e, s, n, not_abort) = command_fields (length src) d.some_byte d.at_most in
      let eight : (length request != 8) ≡ false = ground (arith, d.size) in
      rw
        (
          sdo_rx_frame, eight, d.command, not_abort, cs, download, e, s, n, d.index_word,
          d.subindex_byte, d.bytes,
        )
        (ground arith)

  -- A read of an object that the dictionary does not have, or may not give, is answered by an abort;
  -- one of up to four bytes by the bytes at once.
  pub uploads :
      (request : List ℕ) (index b_subindex : ℕ) (w : World App)
      → Uploads request index b_subindex
      → let (up, up_w) = upload cb request sdo w in sdo_rx_frame cb request sdo w ≡ (true, up, up_w)
  unfolding sdo_rx_frame
  uploads request index b_subindex w u =
      let eight : (length request != 8) ≡ false = ground (arith, u.size) in
      rw (sdo_rx_frame, eight, u.command) refl

  -- A read of a readable object of 1 to 4 bytes is answered by its bytes and their number.
  pub sdo_rx_frame-upload :
      (request : List ℕ) (index b_subindex : ℕ) (sub : Subindex) (object : List ℕ) (w : World App)
      → Uploads request index b_subindex
      → locate (od_of w) index b_subindex ≡ found sub object
      → bit_and sub.b_access_type ro ≢ 0
      → length object ≡ sub.size
      → 1 ≤ sub.size
      → sub.size ≤ 4
      → sdo_rx_frame cb request sdo w ≡ (
        true,
        sdo,
        (transmit cb
            (sdo_frame sdo (reply_to (0x43 + 4 * (4 - sub.size)) request (padded 4 object)))
            w).1,
      )
  unfolding upload upload_object
  sdo_rx_frame-upload request index b_subindex sub object w u there readable size one most =
      let command = reply_command sub.size one most in
      let whole : take sub.size object ≡ object = take_all sub.size object (omega (arith, size)) in
      let may : (bit_and sub.b_access_type ro == 0) ≡ false = ground (arith, readable) in
      let small : leb sub.size 4 ≡ true = ground arith in
      simp
        (
          uploads request index b_subindex w u,
          upload,
          u.index_word,
          u.subindex_byte,
          there,
          may,
          upload_object,
          small,
          whole,
          command,
        )
        refl

  -- An object of 1 to 4 bytes that may be written and read: a client that writes it, with as many
  -- bytes as it has, and then reads it gets the bytes that it wrote, both times on the first
  -- request. The application's hooks leave the dictionary as it is.
  pub upload-download :
      (down up : List ℕ) (index b_subindex : ℕ) (src : List ℕ) (sub : Subindex) (object : List ℕ)
      (w : World App)
      → Downloads down index b_subindex src
      → Uploads up index b_subindex
      → locate (od_of w) index b_subindex ≡ found sub object
      → bit_and sub.b_access_type 0x02 ≢ 0
      → bit_and sub.b_access_type ro ≢ 0
      → sub.size ≡ length src
      → length object ≡ length src
      → ((v : World App) → od_of (note_write cb index b_subindex src v) ≡ od_of v)
      → let (first, sdo', w') = sdo_rx_frame cb down sdo w in
        let (second, sdo'', w'') = sdo_rx_frame cb up sdo' w' in
        let answer = reply_to (0x43 + 4 * (4 - length src)) up (padded 4 src) in
        (first ≡ true)
        × (second ≡ true)
        × (sdo'' ≡ sdo)
        × (w'' ≡ (transmit cb (sdo_frame sdo answer) w').1)
  upload-download down up index b_subindex src sub object w d u there writable readable size long
        quiet =
      let taken = od_write-accepted cb index b_subindex src sub object w there writable size in
      let one = sdo_rx_frame-download down index b_subindex src w d in
      let od = store_object (od_of w) index b_subindex src in
      let stored = locate-store_object (od_of w) index b_subindex src sub object there in
      let whole : src ++ drop (length src) object ≡ src =
        ap (◌++◌ src) (drop_all object (length src) (omega (arith, long))) ∙ append-nil src in
      let after = note_write cb index b_subindex src (with_od od w) in
      let ack = sdo_frame sdo (reply_to 0x60 down (replicate 4 0)) in
      let w' : World App = (transmit cb ack after).1 in
      let same_od : od_of w' ≡ od = quiet (with_od od w) ∙ od_of-with_od od w in
      let there' : locate (od_of w') index b_subindex ≡ found (store_sub src sub) src =
        rw same_od (stored ∙ ap (found (store_sub src sub)) whole) in
      let two =
        sdo_rx_frame-upload up index b_subindex (store_sub src sub) src w' u there' readable
          (sym size) (omega (arith, size, d.some_byte)) (omega (arith, size, d.at_most)) in
      rw (one, taken, two, size) (refl, refl, refl, refl)
