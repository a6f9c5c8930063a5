-- ===== src/Canopen/Segments.antt =====
-- Segmented SDO uploads: a client that pulls the segments gets the whole object.
use stm32_automation_board.Common.{
  ℕ, zero, suc, ◌+◌, ◌-◌, ◌*◌, ◌/◌, ◌%◌, ◌^◌, ◌≤◌, ◌<◌, bit_and, bit_or, bit_xor, List, [], ◌∷◌,
  ◌++◌, true, false, if◌then◌else◌, ◌==◌, ◌!=◌, leb, not, ◌≡◌, inl, inr, refl, sym, ap, ◌∙◌, arith,
  length, get_or, take, take_all, drop, length-drop, length-take, replicate, min, Bool-cases,
}
use stm32_automation_board.Common.Bits.{all_below, all_below_sound}
use stm32_automation_board.Common.Word.{u8, u32}
use stm32_automation_board.Canopen.Types.{Subindex, World, Callbacks, od_of, transmit}
use stm32_automation_board.Canopen.Dictionary.{found, locate}
use stm32_automation_board.Canopen.Service.{
  Sdo, sdo_frame, padded, bytes_of, seg_data, upload_segment, sdo_rx_frame,
}

-- Upload Segment with a toggle bit, as a client sends it.
abbrev pub pull_request : ℕ → List ℕ
pull_request toggle = (0x60 + 16 * toggle) ∷ replicate 7 0

-- The answer that carries the front of `rest`: the toggle bit, the number of unused bytes, and
-- whether it is the last one.
abbrev pub segment : List ℕ → ℕ → List ℕ
segment rest toggle =
    let chunk = min 7 (length rest) in
    let last = if leb (length rest) 7 then 1 else 0 in
    (16 * toggle + 2 * (7 - chunk) + last) ∷ padded 7 (take 7 rest)

abbrev pub segments : ℕ → List ℕ → ℕ → List (List ℕ)
segments zero rest toggle = []
segments (suc n) rest toggle = segment rest toggle ∷ segments n (drop 7 rest) (1 - toggle)

-- What the client puts together.
abbrev pub gathered : List (List ℕ) → List ℕ
gathered [] = []
gathered (answer ∷ answers) =
    take (7 - get_or answer 0 0 / 2 % 8) (drop 1 answer) ++ gathered answers

take-padded : (xs ys : List ℕ) → take (length xs) (xs ++ ys) ≡ xs
take-padded [] ys = refl
take-padded (x ∷ xs) ys = ap (◌∷◌ x) (take-padded xs ys)

take-drop : (n : ℕ) (xs : List ℕ) → take n xs ++ drop n xs ≡ xs
take-drop zero xs = refl
take-drop (suc n) [] = refl
take-drop (suc n) (x ∷ xs) = ap (◌∷◌ x) (take-drop n xs)

-- The client reads the bytes of one segment out of its answer.
segment_bytes :
    (rest : List ℕ) (toggle : ℕ)
    → toggle < 2
    → let answer = segment rest toggle in
      take (7 - get_or answer 0 0 / 2 % 8) (drop 1 answer) ≡ take 7 rest
segment_bytes rest toggle h =
    let size = length-take 7 rest in
    let used : 7
          - (16 * toggle + 2 * (7 - min 7 (length rest)) + (if leb (length rest) 7 then 1 else 0))
            / 2
            % 8
        ≡ length (take 7 rest) =
      ground (arith, size) in
    rw used (take-padded (take 7 rest) _)

-- The segments of an object are the object.
pub gathered-segments :
    (n : ℕ) (rest : List ℕ) (toggle : ℕ)
    → toggle < 2
    → length rest ≤ 7 * n
    → gathered (segments n rest toggle) ≡ rest
gathered-segments zero [] toggle h fits = refl
gathered-segments zero (x ∷ rest) toggle h fits = absurd (omega arith)
gathered-segments (suc n) rest toggle h fits =
    let next =
      gathered-segments n (drop 7 rest) (1 - toggle) (omega arith)
        (omega (arith, length-drop 7 rest)) in
    rw (segment_bytes rest toggle h, next) (take-drop 7 rest)

command_table :
    all_below 2 (λ t. all_below 8 (λ n.
      all_below 2 (λ c. u8 (bit_or (bit_or (t * 2 ^ 4) (n * 2 ^ 1)) c) == 16 * t + 2 * n + c)))
    ≡ true
unfolding all_below
command_table = refl

command_lem :
    (t n c : ℕ)
    → t < 2
    → n < 8
    → c < 2
    → u8 (bit_or (bit_or (t * 2 ^ 4) (n * 2 ^ 1)) c) ≡ 16 * t + 2 * n + c
command_lem t n c ht hn hc =
    let row = all_below_sound 2 _ t command_table ht in
    let cell = all_below_sound 8 _ n row hn in ground (arith, all_below_sound 2 _ c cell hc)

-- The fields of the client's command byte.
request_fields :
    (t : ℕ)
    → t < 2
    → let c = 0x60 + 16 * t in
      (bit_and (c / 2 ^ 5) 0x07 ≡ 3)
      × (bit_and (c / 2 ^ 4) 0x01 ≡ t)
      × ((c == 0x80) ≡ false)
      × (bit_xor t 1 ≡ 1 - t)
request_fields zero h = (refl, refl, refl, refl)
request_fields (suc zero) h = (refl, refl, refl, refl)
request_fields (suc (suc t)) h = absurd (omega arith)

-- A segmented upload that is under way: `rest` is still to be sent.
pub record IsSending (sdo : Sdo) (object rest : List ℕ) (toggle : ℕ) : Type 0 where
  pub active : sdo.seg_active ≡ true
  pub expected : sdo.seg_toggle ≡ toggle
  pub bit : toggle < 2
  pub total : sdo.seg_total_size ≡ length object
  pub small : length object < 2 ^ 32
  pub inside : sdo.seg_offset ≤ length object
  pub left : drop sdo.seg_offset object ≡ rest

module _ {App : Type 0} (cb : Callbacks App) where
  -- The state of the server behind a segment.
  abbrev pub behind : Sdo → List ℕ → Sdo
  behind sdo rest = record sdo {
    seg_offset = sdo.seg_offset + min 7 (length rest);
    seg_toggle = 1 - sdo.seg_toggle;
    seg_active = not (leb (length rest) 7);
  }

  segment_sent :
      (sdo : Sdo) (w : World App) (sub : Subindex) (object rest : List ℕ) (toggle : ℕ)
      → locate (od_of w) sdo.seg_index sdo.seg_subindex ≡ found sub object
      → IsSending sdo object rest toggle
      → upload_segment cb (pull_request toggle) sdo w
        ≡ (behind sdo rest, (transmit cb (sdo_frame sdo (segment rest toggle)) w).1)
  unfolding upload_segment
  segment_sent sdo w sub object rest toggle there s =
      let (_, t, _, flipped) = request_fields toggle s.bit in
      let n : length rest ≡ length object - sdo.seg_offset =
        sym (ap length s.left) ∙ length-drop sdo.seg_offset object in
      let rem : u32 (sdo.seg_total_size + 2 ^ 32 - sdo.seg_offset) ≡ length rest =
        omega (arith, n, s.total, s.small, s.inside) in
      let offset : u32 (sdo.seg_offset + min 7 (length rest))
          ≡ sdo.seg_offset + min 7 (length rest) =
        omega (arith, n, s.small, s.inside) in
      let open_gate : not sdo.seg_active ≡ false = ap not s.active in
      let in_turn : (toggle != sdo.seg_toggle) ≡ false = ground (arith, s.expected) in
      let data_now : seg_data sdo w ≡ object = ap bytes_of there in
      let flip : bit_xor sdo.seg_toggle 1 ≡ 1 - sdo.seg_toggle =
        ap (λ (x : ℕ). bit_xor x 1) s.expected ∙ flipped ∙ ap (λ (x : ℕ). 1 - x) (sym s.expected) in
      let command : (k c : ℕ)
          → k < 8
          → c < 2
          → u8 (bit_or (bit_or (sdo.seg_toggle * 2 ^ 4) (k * 2 ^ 1)) c) ≡ 16 * toggle + 2 * k + c =
        λ k c hk hc.
          ap (λ (x : ℕ). u8 (bit_or (bit_or (x * 2 ^ 4) (k * 2 ^ 1)) c)) s.expected
          ∙ command_lem toggle k c s.bit hk hc in
      elim (Bool-cases (leb (length rest) 7)) [
        | inl last ↦
            let few : length rest ≤ 7 = ground (arith, last) in
            let chunk : u8 (length rest) ≡ length rest = omega (arith, few) in
            let least : min 7 (length rest) ≡ length rest = omega (arith, few) in
            let all : take (length rest) rest ≡ take 7 rest =
              take_all (length rest) rest (omega arith) ∙ sym (take_all 7 rest few) in
            simp
              (
                upload_segment,
                s.active,
                t,
                in_turn,
                data_now,
                rem,
                last,
                chunk,
                least,
                flip,
                s.left,
                all,
                rw least at offset,
                command (7 - length rest) 1 (omega arith) (omega arith),
              )
              refl
        | inr more ↦
            let many : 7 < length rest = ground (arith, more) in
            let least : min 7 (length rest) ≡ 7 = omega (arith, many) in
            simp
              (
                upload_segment,
                s.active,
                t,
                in_turn,
                data_now,
                rem,
                more,
                least,
                flip,
                s.left,
                s.active,
                rw least at offset,
                command 0 0 (omega arith) (omega arith),
              )
              refl
      ]

  pub segment_step :
      (sdo : Sdo) (w : World App) (sub : Subindex) (object rest : List ℕ) (toggle : ℕ)
      → locate (od_of w) sdo.seg_index sdo.seg_subindex ≡ found sub object
      → IsSending sdo object rest toggle
      → sdo_rx_frame cb (pull_request toggle) sdo w
        ≡ (true, behind sdo rest, (transmit cb (sdo_frame sdo (segment rest toggle)) w).1)
  unfolding sdo_rx_frame upload_segment
  segment_step sdo w sub object rest toggle there s =
      let (cs, t, not_abort, flipped) = request_fields toggle s.bit in
      let sent = segment_sent sdo w sub object rest toggle there s in
      rw (sdo_rx_frame, not_abort, cs, sent) refl
