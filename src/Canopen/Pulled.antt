-- ===== src/Canopen/Pulled.antt =====
-- A whole segmented SDO upload, from the first request to the last segment.
use stm32_automation_board.Common.{
  ℕ, zero, suc, ◌+◌, ◌-◌, ◌*◌, ◌/◌, ◌^◌, ◌≤◌, ◌<◌, bit_and, List, [], ◌∷◌, true, false, ◌==◌, leb,
  not, ◌≡◌, ◌≢◌, refl, sym, ap, ◌∙◌, arith, length, drop, length-drop, min,
}
use stm32_automation_board.Canopen.Types.{Subindex, World, Callbacks, od_of, transmit, put_le32}
use stm32_automation_board.Canopen.Dictionary.{found, locate}
use stm32_automation_board.Canopen.Board.{ro}
use stm32_automation_board.Canopen.Service.{
  Sdo, sdo_frame, reply_to, upload, upload_object, sdo_rx_frame,
}
use stm32_automation_board.Canopen.Transfers.{Uploads, uploads}
use stm32_automation_board.Canopen.Segments.{
  IsSending, pull_request, segment, segments, gathered, gathered-segments, behind, segment_step,
}

drop_more : (n m : ℕ) (xs : List ℕ) → drop m (drop n xs) ≡ drop (n + m) xs
drop_more zero m xs = let here : 0 + m ≡ m = omega arith in rw here refl
drop_more (suc n) zero [] = let here : suc n + 0 ≡ suc n = omega arith in rw here refl
drop_more (suc n) (suc m) [] =
    let here : suc n + suc m ≡ suc (n + suc m) = omega arith in rw here refl
drop_more (suc n) m (x ∷ xs) =
    let here : suc n + m ≡ suc (n + m) = omega arith in rw here (drop_more n m xs)

module _ {App : Type 0} (cb : Callbacks App) where
  -- A client that sends `n` requests for a segment, alternating the toggle bit.
  abbrev pub pull : ℕ → ℕ → Sdo → World App → Sdo × World App
  pull zero toggle sdo w = (sdo, w)
  pull (suc n) toggle sdo w =
      let (_, sdo', w') = sdo_rx_frame cb (pull_request toggle) sdo w in pull n (1 - toggle) sdo' w'

  -- The answers handed to `tx_func`, in their order.
  abbrev pub deliver : Sdo → List (List ℕ) → World App → World App
  deliver sdo [] w = w
  deliver sdo (answer ∷ answers) w = deliver sdo answers (transmit cb (sdo_frame sdo answer) w).1

  deliver-behind :
      (answers : List (List ℕ)) (sdo : Sdo) (rest : List ℕ) (w : World App)
      → deliver (behind cb sdo rest) answers w ≡ deliver sdo answers w
  deliver-behind [] sdo rest w = refl
  deliver-behind (a ∷ answers) sdo rest w =
      deliver-behind answers sdo rest (transmit cb (sdo_frame sdo a) w).1

  behind-IsSending :
      (sdo : Sdo) (object rest : List ℕ) (toggle : ℕ)
      → 7 < length rest
      → IsSending sdo object rest toggle
      → IsSending (behind cb sdo rest) object (drop 7 rest) (1 - toggle)
  behind-IsSending sdo object rest toggle many s =
      let more : leb (length rest) 7 ≡ false = ground (arith, many) in
      let least : min 7 (length rest) ≡ 7 = omega (arith, many) in
      let n : length rest ≡ length object - sdo.seg_offset =
        sym (ap length s.left) ∙ length-drop sdo.seg_offset object in
      record {
        active = ap not more;
        expected = ap (λ (t : ℕ). 1 - t) s.expected;
        bit = omega (arith, s.bit);
        total = s.total;
        small = s.small;
        inside = omega (arith, n, many, least);
        left =
            ap (λ (k : ℕ). drop (sdo.seg_offset + k) object) least
            ∙ sym (drop_more sdo.seg_offset 7 object)
            ∙ ap (drop 7) s.left;
      }

  pull_lem :
      (n : ℕ) (sdo : Sdo) (w : World App) (sub : Subindex) (object rest : List ℕ) (toggle : ℕ)
      → locate (od_of w) sdo.seg_index sdo.seg_subindex ≡ found sub object
      → IsSending sdo object rest toggle
      → 7 * n < length rest
      → length rest ≤ 7 * suc n
      → let (sdo', w') = pull (suc n) toggle sdo w in
        (sdo'.seg_active ≡ false) × (w' ≡ deliver sdo (segments (suc n) rest toggle) w)
  pull_lem zero sdo w sub object rest toggle there s low high =
      let few : leb (length rest) 7 ≡ true = ground (arith, high) in
      rw (pull, segment_step cb sdo w sub object rest toggle there s) (ap not few, refl)
  pull_lem (suc n) sdo w sub object rest toggle there s low high =
      let next = behind-IsSending sdo object rest toggle (omega (arith, low)) s in
      let sdo' = behind cb sdo rest in
      let w' : World App = (transmit cb (sdo_frame sdo (segment rest toggle)) w).1 in
      let (done, sent) =
        pull_lem n sdo' w' sub object (drop 7 rest) (1 - toggle) there next
          (omega (arith, low, length-drop 7 rest)) (omega (arith, high, length-drop 7 rest)) in
      rw (pull, segment_step cb sdo w sub object rest toggle there s)
        (done, sent ∙ deliver-behind (segments (suc n) (drop 7 rest) (1 - toggle)) sdo rest w')

  upload_begins :
      (request : List ℕ) (index b_subindex : ℕ) (sub : Subindex) (object : List ℕ) (sdo : Sdo)
      (w : World App)
      → Uploads request index b_subindex
      → locate (od_of w) index b_subindex ≡ found sub object
      → bit_and sub.b_access_type ro ≢ 0
      → 4 < sub.size
      → sdo_rx_frame cb request sdo w ≡ (
        true,
        record sdo {
          seg_active = true;
          seg_index = index;
          seg_subindex = b_subindex;
          seg_total_size = sub.size;
          seg_offset = 0;
          seg_toggle = 0;
        },
        (transmit cb (sdo_frame sdo (reply_to 0x41 request (put_le32 sub.size))) w).1,
      )
  unfolding upload upload_object
  upload_begins request index b_subindex sub object sdo w u there readable long =
      let may : (bit_and sub.b_access_type ro == 0) ≡ false = ground (arith, readable) in
      let big : leb sub.size 4 ≡ false = ground arith in
      simp
        (
          uploads cb sdo request index b_subindex w u,
          upload,
          u.index_word,
          u.subindex_byte,
          there,
          may,
          upload_object,
          big,
        )
        refl

  -- A readable object of more than four bytes: the request to read it is answered by its size, and
  -- then a client that pulls one segment for every seven bytes or part of them, alternating the
  -- toggle bit from 0 on, is sent answers from which it puts together exactly the object; the
  -- transfer is then over.
  pub upload-pulled :
      (request : List ℕ) (index b_subindex : ℕ) (sub : Subindex) (object : List ℕ) (sdo : Sdo)
      (w : World App)
      → Uploads request index b_subindex
      → locate (od_of w) index b_subindex ≡ found sub object
      → bit_and sub.b_access_type ro ≢ 0
      → length object ≡ sub.size
      → 4 < sub.size
      → sub.size < 2 ^ 32
      → let rounds = (sub.size + 6) / 7 in
        let answers = segments rounds object 0 in
        let (handled, begun, w') = sdo_rx_frame cb request sdo w in
        let (ended, w'') = pull rounds 0 begun w' in
        (handled ≡ true)
        × (w' ≡ (transmit cb (sdo_frame sdo (reply_to 0x41 request (put_le32 sub.size))) w).1)
        × (w'' ≡ deliver begun answers w')
        × (gathered answers ≡ object)
        × (ended.seg_active ≡ false)
  upload-pulled request index b_subindex sub object sdo w u there readable size long small =
      let begun = upload_begins request index b_subindex sub object sdo w u there readable long in
      let sdo' : Sdo = record sdo {
        seg_active = true;
        seg_index = index;
        seg_subindex = b_subindex;
        seg_total_size = sub.size;
        seg_offset = 0;
        seg_toggle = 0;
      } in
      let w' : World App =
        (transmit cb (sdo_frame sdo (reply_to 0x41 request (put_le32 sub.size))) w).1 in
      let sending : IsSending sdo' object object 0 = record {
        active = refl;
        expected = refl;
        bit = omega arith;
        total = sym size;
        small = omega (arith, size, small);
        inside = omega arith;
        left = refl;
      } in
      let last = (sub.size - 1) / 7 in
      let rounds : (sub.size + 6) / 7 ≡ suc last = omega (arith, long) in
      let (done, sent) =
        pull_lem last sdo' w' sub object object 0 there sending (omega (arith, size, long))
          (omega (arith, size, long)) in
      let whole = gathered-segments (suc last) object 0 (omega arith) (omega (arith, size, long)) in
      rw (begun, rounds) (refl, refl, sent, whole, done)
