-- ===== src/Canopen/Outputs.antt =====
-- The digital outputs of the board, written by RPDO1 and by SDO, and objects that are write-only.
use stm32_automation_board.Common.{
  ℕ, ◌+◌, ◌-◌, ◌*◌, ◌≤◌, bit_and, List, [], ◌∷◌, true, if◌then◌else◌, replicate, ◌==◌, ◌≡◌, ◌≢◌,
  ◌⊎◌, refl, ap, ◌∙◌, arith, length, get_or, none, some,
}
use stm32_automation_board.Common.Word.{u32}
use stm32_automation_board.Canopen.Types.{
  Frame, Subindex, Od, World, Callbacks, od_of, chosen, replaced, with_od, transmit, operational,
}
use stm32_automation_board.Canopen.Dictionary.{
  find_subindex, locate, found, store_object, od_read, od_write, note_write, tell, od_successful,
  abort_read_not_allowed,
}
use stm32_automation_board.Canopen.Board.{object_bytes, sub_bytes, var_bytes}
use stm32_automation_board.Canopen.Objects.{
  locate-IsAt, od_write-accepted, locate-store_object, locate-store_object_ne,
}
use stm32_automation_board.Canopen.Process.{Pdo, rx_rpdo}
use stm32_automation_board.Canopen.Service.{
  Sdo, sdo_abort_frame, sdo_frame, reply_to, padded, sdo_rx_frame,
}
use stm32_automation_board.Canopen.Transfers.{
  Downloads, sdo_rx_frame-download, Uploads, sdo_rx_frame-upload,
}
use stm32_automation_board.Canopen.{Node, canopen_rx_frame, get_digital_outputs}

-- A variable is what stands at its object.
var_bytes-locate :
    (od : Od) (index b_subindex : ℕ) (sub : Subindex) (object : List ℕ)
    → locate od index b_subindex ≡ found sub object
    → var_bytes od index b_subindex ≡ object
unfolding find_subindex
var_bytes-locate od index b_subindex sub object e =
    let a = locate-IsAt od index b_subindex sub object e in
    let sub_there : find_subindex od index b_subindex ≡ some sub =
      simp (find_subindex, a.first, a.there) refl in
    ap sub_bytes sub_there ∙ ap object_bytes a.object_of

module _ {App : Type 0} (cb : Callbacks App) where
  -- RPDO1 on an operational node, with at least one byte: the digital outputs become its first byte,
  -- no other object changes, and then the application is told once.
  pub canopen_rx_frame-rpdo1 :
      (payload : List ℕ) (node : Node) (w : World App) (sub : Subindex) (v : ℕ)
      (index b_subindex : ℕ)
      → node.nmt.state ≡ operational
      → node.pdo.node_id ≡ node.node_id
      → 1 ≤ node.node_id
      → node.node_id ≤ 127
      → 1 ≤ length payload
      → locate w.board_objdict 0x6200 1 ≡ found sub (v ∷ [])
      → (0x6200 ≢ index) ⊎ (1 ≢ b_subindex)
      → let outputs = store_object w.board_objdict 0x6200 1 (get_or payload 0 0 ∷ []) in
        let w' = record w { board_objdict = outputs } in
        (canopen_rx_frame cb (0x200 + node.node_id) payload node w
          ≡ (true, node, cb.app_sync_outputs w'))
        × (get_digital_outputs w' ≡ get_or payload 0 0)
        × (locate outputs index b_subindex ≡ locate w.board_objdict index b_subindex)
  unfolding canopen_rx_frame rx_rpdo get_digital_outputs
  canopen_rx_frame-rpdo1 payload node w sub v index b_subindex op same one most some_byte there h =
      let out = get_or payload 0 0 ∷ [] in
      let now =
        var_bytes-locate (store_object w.board_objdict 0x6200 1 out) 0x6200 1 _ _
          (locate-store_object w.board_objdict 0x6200 1 out sub (v ∷ []) there) in
      (
        ground (arith, op, same),
        ap (λ (xs : List ℕ). get_or xs 0 0) now,
        locate-store_object_ne w.board_objdict 0x6200 1 out index b_subindex h,
      )

  -- The write of the digital outputs and RPDO1, on the default dictionary without a write callback.
  od_write-rx_rpdo :
      (v : ℕ) (p : Pdo) (w : World App) (sub : Subindex) (object : List ℕ)
      → cb.post_write_cb ≡ none
      → w.custom_od ≡ none
      → locate w.board_objdict 0x6200 1 ≡ found sub object
      → bit_and sub.b_access_type 0x02 ≢ 0
      → sub.size ≡ 1
      → p.node_id ≤ 127
      → let (code, written) = od_write cb 0x6200 1 (v ∷ []) w in
        let (mapped, driven) = rx_rpdo cb (u32 (0x200 + p.node_id)) (v ∷ []) true p w in
        (code ≡ od_successful) × (mapped ≡ true) × (written ≡ driven)
  unfolding rx_rpdo note_write
  od_write-rx_rpdo v p w sub object silent default there writable size most =
      let src = v ∷ [] in
      let in_use : od_of w ≡ w.board_objdict = ap (λ c. chosen c w.board_objdict) default in
      let there' : locate (od_of w) 0x6200 1 ≡ found sub object = rw in_use there in
      let taken = od_write-accepted cb 0x6200 1 src sub object w there' writable size in
      let yes_one : (u32 (0x200 + p.node_id) == u32 (0x200 + p.node_id)) ≡ true = ground arith in
      let put : (od : Od) → with_od od w ≡ record w { board_objdict = od } =
        λ od. ap (λ c. replaced c od w) default in
      let untold : (u : World App) → tell cb.post_write_cb 0x6200 1 src u ≡ u =
        λ u. ap (λ post. tell post 0x6200 1 src u) silent in
      rw (taken, yes_one)
        (
          refl,
          refl,
          ap cb.app_sync_outputs (
              untold _
              ∙ put _
              ∙ ap (λ od. record w { board_objdict = store_object od 0x6200 1 src }) in_use),
        )

  -- On the default dictionary, with no callback for writes, an SDO request that writes one byte to
  -- object 0x6200, subindex 1, and RPDO1 on an operational node with this byte have the same effect:
  -- the objects and what the application is told are the same, and the SDO server then sends its
  -- acknowledgement and stays as it is. The object is there, writable and of one byte.
  pub sdo_rx_frame-rx_rpdo :
      (request : List ℕ) (v : ℕ) (sdo : Sdo) (p : Pdo) (w : World App) (sub : Subindex)
      (object : List ℕ)
      → Downloads request 0x6200 1 (v ∷ [])
      → cb.post_write_cb ≡ none
      → w.custom_od ≡ none
      → locate w.board_objdict 0x6200 1 ≡ found sub object
      → bit_and sub.b_access_type 0x02 ≢ 0
      → sub.size ≡ 1
      → p.node_id ≤ 127
      → let (mapped, driven) = rx_rpdo cb (u32 (0x200 + p.node_id)) (v ∷ []) true p w in
        let ack = sdo_frame sdo (reply_to 0x60 request (replicate 4 0)) in
        (mapped ≡ true) × (sdo_rx_frame cb request sdo w ≡ (true, sdo, (transmit cb ack driven).1))
  sdo_rx_frame-rx_rpdo request v sdo p w sub object d silent default there writable size most =
      let (ok, mapped, same) =
        od_write-rx_rpdo v p w sub object silent default there writable size most in
      let ack = sdo_frame sdo (reply_to 0x60 request (replicate 4 0)) in
      let answer : ℕ → Frame =
        λ code. if code == od_successful then ack else sdo_abort_frame sdo 0x6200 1 code in
      (
        mapped,
        sdo_rx_frame-download cb sdo request 0x6200 1 (v ∷ []) w d
            ∙ ap
                (λ (u : World App).
                  (true, sdo, (transmit cb (answer (od_write cb 0x6200 1 (v ∷ []) w).0) u).1))
                same
            ∙ ap
                (λ code. (
                  true,
                  sdo,
                  (transmit cb (answer code)
                      (rx_rpdo cb (u32 (0x200 + p.node_id)) (v ∷ []) true p w).1).1,
                ))
                ok,
      )

  -- A write-only object (access type 0x03) of 1 to 4 bytes: `canopen_od_read` refuses to read it, but
  -- an SDO client that reads it is sent its bytes.
  pub write_only-upload :
      (request : List ℕ) (index b_subindex : ℕ) (sub : Subindex) (object : List ℕ) (sdo : Sdo)
      (w : World App)
      → Uploads request index b_subindex
      → locate (od_of w) index b_subindex ≡ found sub object
      → sub.b_access_type ≡ 0x03
      → length object ≡ sub.size
      → 1 ≤ sub.size
      → sub.size ≤ 4
      → ((od_read (od_of w) index b_subindex 4).0 ≡ abort_read_not_allowed)
        × (sdo_rx_frame cb request sdo w ≡ (
          true,
          sdo,
          (transmit cb
              (sdo_frame sdo (reply_to (0x43 + 4 * (4 - sub.size)) request (padded 4 object)))
              w).1,
        ))
  unfolding od_read
  write_only-upload request index b_subindex sub object sdo w u there wo size one most =
      let readable : bit_and sub.b_access_type 0x05 ≢ 0 = rw wo (ground arith) in
      (
        simp (od_read, there, wo) refl,
        sdo_rx_frame-upload cb sdo request index b_subindex sub object w u there readable size one
            most,
      )
