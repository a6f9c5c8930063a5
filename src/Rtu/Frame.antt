-- ===== src/Rtu/Frame.antt =====
-- Every frame that the server sends is one that a receiver accepts.
use stm32_automation_board.Common.{
  ℕ, ◌+◌, ◌-◌, ◌≤◌, min, List, [], ◌∷◌, ◌++◌, Bool, true, false, if◌then◌else◌, ◌==◌, ◌!=◌, ltb,
  ◌&&◌, ◌||◌, ◌≡◌, ◌⊎◌, inl, inr, refl, ap, ◌∙◌, arith, length, get_or, take, drop, length-append,
  length-take, length-drop, take-append, All-append, All-take, All-drop, get_or-append_right,
  Bool-cases, ==_refl,
}
use stm32_automation_board.Common.Word.{
  hi8, lo8, IsByte, IsBytes, hi8-IsByte, lo8-IsByte, be16-hi8-lo8,
}
use stm32_automation_board.Crc.{crc16}
use stm32_automation_board.Crc.Frame.{crc16-IsWord}
use stm32_automation_board.Diag.Counters
use stm32_automation_board.Diag.{Diag, note_bus_message, note_comm_error, note_slave_message}
use stm32_automation_board.Diag.Counters.{
  note_bus_message-IsValid, note_comm_error-IsValid, note_slave_message-IsValid,
}
use stm32_automation_board.Server.{Server, Hooks}
use stm32_automation_board.Server.Valid
use stm32_automation_board.Pdu.{Answer}
use stm32_automation_board.Rtu.{
  Status, status_ok, status_error, status_crc_error, Result, with_diag, rtu_frame, rtu_finish,
  rtu_serve, crc_ok, rtu_process, bookkeeping,
}
use stm32_automation_board.Rtu.Valid.{
  with_diag-IsValid, IsSendable, bookkeeping-IsValid, rtu_dispatch-IsSendable,
}

-- A frame of the station `id`: 4 to 256 bytes, the address first, the CRC right.
pub record IsFrame (id : ℕ) (tx : List ℕ) : Type 0 where
  pub bytes : IsBytes tx
  pub at_least : 4 ≤ length tx
  pub at_most : length tx ≤ 256
  pub address : get_or tx 0 0 ≡ id
  pub intact : crc_ok tx ≡ true

crc_ok-append :
    (body : List ℕ)
    → IsBytes body
    → crc_ok (body ++ lo8 (crc16 body) ∷ hi8 (crc16 body) ∷ []) ≡ true
unfolding crc_ok
crc_ok-append body b =
    let lo = lo8 (crc16 body) in
    let hi = hi8 (crc16 body) in
    let tail = lo ∷ hi ∷ [] in
    let n : length (body ++ tail) ≡ length body + 2 = length-append body tail in
    let last : length (body ++ tail) - 1 ≡ length body + 1 = omega (arith, n) in
    let crc_at : length (body ++ tail) - 2 ≡ length body = omega (arith, n) in
    rw
      (
        last,
        crc_at,
        get_or-append_right body tail (length body + 1) 1 0 refl,
        get_or-append_right body tail (length body) 0 0 (omega arith),
        take-append body tail,
        be16-hi8-lo8 (crc16 body) (crc16-IsWord body b),
      )
      (==_refl (crc16 body))

pub rtu_frame-IsFrame :
    (id : ℕ) (pdu : List ℕ)
    → IsByte id
    → IsBytes pdu
    → 1 ≤ length pdu
    → length pdu ≤ 253
    → IsFrame id (rtu_frame id pdu)
unfolding rtu_frame
rtu_frame-IsFrame id pdu h b one big =
    let body = id ∷ pdu in
    let tail = lo8 (crc16 body) ∷ hi8 (crc16 body) ∷ [] in
    record {
      bytes =
          All-append IsByte body tail (h, b)
            (lo8-IsByte (crc16 body), (hi8-IsByte (crc16 body), tt));
      at_least = omega (arith, length-append body tail);
      at_most = omega (arith, length-append body tail);
      address = refl;
      intact = crc_ok-append body (h, b);
    }

-- A valid state, and no frame or an intact one that carries this device's address.
pub record IsReply (r : Result) : Type 0 where
  pub valid : Valid.IsValid r.server
  pub reply : (r.tx ≡ []) ⊎ IsFrame r.server.slave_id r.tx

finish-IsReply :
    (rx_pdu : List ℕ) (bc : Bool) (a : Answer) → IsSendable a → IsReply (rtu_finish rx_pdu bc a)
unfolding rtu_finish
finish-IsReply rx_pdu bc a g =
    let d = bookkeeping rx_pdu bc a in
    let v = with_diag-IsValid a.server d g.valid (bookkeeping-IsValid rx_pdu bc a g) in
    let pdu = take a.tx_pdu_len a.built in
    let len = length-take a.tx_pdu_len a.built in
    elim (Bool-cases (a.tx_pdu_len == 0)) [
      | inl e ↦ rw e (record { valid = v; reply = inl refl })
      | inr e ↦
          let no_more : (ltb 253 a.tx_pdu_len || ltb 256 (1 + a.tx_pdu_len + 2)) ≡ false =
            ground (arith, g.fits) in
          rw (e, no_more)
            (record {
              valid = v;
              reply = inr (
                  rtu_frame-IsFrame a.server.slave_id pdu g.valid.id
                    (All-take IsByte a.tx_pdu_len a.built g.bytes)
                    (ground (arith, len, g.in_buffer, e))
                    (ground (arith, len, g.in_buffer, g.fits)));
            })
    ]

finish_status :
    (rx_pdu : List ℕ) (bc : Bool) (a : Answer)
    → IsSendable a
    → (rtu_finish rx_pdu bc a).status ≡ status_ok
unfolding rtu_finish
finish_status rx_pdu bc a g = ground (arith, g.fits)

serve-IsReply :
    (hooks : Hooks) (s : Server) (rx_pdu : List ℕ) (bc : Bool)
    → Valid.IsSafe hooks
    → Valid.IsValid s
    → IsBytes rx_pdu
    → 1 ≤ length rx_pdu
    → length rx_pdu ≤ 253
    → let r = rtu_serve hooks s rx_pdu bc in IsReply r × (r.status ≡ status_ok)
unfolding rtu_serve
serve-IsReply hooks s rx_pdu bc safe v b one big =
    let (a, e, g) = rtu_dispatch-IsSendable hooks s rx_pdu bc safe v b one big in
    rw (rtu_serve, e) (finish-IsReply rx_pdu bc a g, finish_status rx_pdu bc a g)

quiet :
    (s : Server) (d : Diag) (st : Status)
    → Valid.IsValid s
    → Counters.IsValid d
    → IsReply (record { status = st; server = with_diag s d; tx = [] })
quiet s d st v h = record { valid = with_diag-IsValid s d v h; reply = inl refl }

-- The length, and the status that a frame of 4 to 256 bytes gives.
abbrev pub status_of : List ℕ → Status
status_of rx =
    if ltb (length rx) 4 || ltb 256 (length rx)
    then status_error
    else if crc_ok rx
    then status_ok
    else status_crc_error

-- `modbus_rtu_process` on any bytes: a valid state stays valid; the result is an error exactly for
-- a frame that is too short or too long, a CRC error exactly for one of a right length whose CRC
-- is wrong, and MODBUS_OK otherwise; and what is sent is nothing, or a frame of 4 to 256 bytes
-- that begins with the device's address and carries the right CRC. The application's callback
-- keeps the state valid.
pub rtu_process-IsReply :
    (hooks : Hooks) (s : Server) (rx : List ℕ)
    → Valid.IsSafe hooks
    → Valid.IsValid s
    → IsBytes rx
    → let r = rtu_process hooks s rx in IsReply r × (r.status ≡ status_of rx)
unfolding rtu_process
rtu_process-IsReply hooks s rx safe v b =
    let heard = note_bus_message s.diag in
    let heard_v = note_bus_message-IsValid s.diag v.diag in
    let addressed = note_slave_message heard in
    let addressed_v = note_slave_message-IsValid heard heard_v in
    let rx_pdu = take (length rx - 3) (drop 1 rx) in
    let n : length rx_pdu ≡ min (length rx - 3) (length rx - 1) =
      length-take (length rx - 3) (drop 1 rx) ∙ ap (min (length rx - 3)) (length-drop 1 rx) in
    let served =
      serve-IsReply hooks (with_diag s addressed) rx_pdu (get_or rx 0 0 == 0) safe
        (with_diag-IsValid s addressed v addressed_v)
        (All-take IsByte (length rx - 3) (drop 1 rx) (All-drop IsByte 1 rx b)) in
    elim (Bool-cases (ltb (length rx) 4 || ltb 256 (length rx))) [
      | inl size ↦ rw size (quiet s s.diag status_error v v.diag, refl)
      | inr size ↦ elim (Bool-cases (crc_ok rx)) [
        | inr crc ↦
            rw (size, crc)
              (
                quiet s (note_comm_error s.diag) status_crc_error v
                    (note_comm_error-IsValid s.diag v.diag),
                refl,
              )
        | inl crc ↦ elim (Bool-cases (get_or rx 0 0 != s.slave_id && get_or rx 0 0 != 0)) [
          | inl other ↦ rw (size, crc, other) (quiet s heard status_ok v heard_v, refl)
          | inr ours ↦
              rw (size, crc, ours) (served (ground (arith, n, size)) (ground (arith, n, size)))
        ]
      ]
    ]
