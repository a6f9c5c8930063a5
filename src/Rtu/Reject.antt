-- ===== src/Rtu/Reject.antt =====
-- Frames that must not touch the tables: corrupted ones, those of other stations, and all of them
-- in listen-only mode.
use stm32_automation_board.Common.{
  ℕ, zero, suc, ◌+◌, ◌-◌, ◌≤◌, ◌<◌, List, [], ◌∷◌, Bool, true, false, if◌then◌else◌, ◌==◌, ◌!=◌,
  ltb, ◌&&◌, ◌||◌, ◌≡◌, ◌≢◌, ◌⊎◌, inl, inr, refl, ap, arith, length, get_or, take, drop, some,
  Bool-cases, ==_iff,
}
use stm32_automation_board.Diag.{Diag, diag_process, note_bus_message, note_slave_message}
use stm32_automation_board.Server.{Server, Hooks}
use stm32_automation_board.Pdu.{Answer}
use stm32_automation_board.Rtu.{
  Status, Result, with_diag, rtu_dispatch, rtu_finish, rtu_serve, crc_ok, rtu_process, bookkeeping,
}

-- Nothing but the diagnostic counters and the event log has changed.
abbrev pub IsUntouched : Server → Result → Type 0
IsUntouched s r = r.server ≡ with_diag s r.server.diag

-- The function code of a frame.
pub frame_code :
    (rx : List ℕ) → 4 ≤ length rx → get_or (take (length rx - 3) (drop 1 rx)) 0 0 ≡ get_or rx 1 0
frame_code [] h = refl
frame_code (a ∷ []) h = absurd (omega arith)
frame_code (a ∷ b ∷ rx) h = head (length (a ∷ b ∷ rx) - 3) (omega arith)
  where
    head : (n : ℕ) → 1 ≤ n → get_or (take n (b ∷ rx)) 0 0 ≡ b
    head zero h = absurd (omega arith)
    head (suc n) h = refl

-- A frame that is too short, too long, corrupted, or meant for another station is not answered,
-- and leaves every table as it was.
pub rtu_process-rejected :
    (hooks : Hooks) (s : Server) (rx : List ℕ)
    → ((length rx < 4) ⊎ (256 < length rx))
      ⊎ ((crc_ok rx ≡ false) ⊎ ((get_or rx 0 0 ≢ s.slave_id) × (get_or rx 0 0 ≢ 0)))
    → let r = rtu_process hooks s rx in (r.tx ≡ []) × IsUntouched s r
unfolding rtu_process
rtu_process-rejected hooks s rx h = ground arith

dispatch_listening :
    (hooks : Hooks) (s : Server) (rx_pdu : List ℕ) (bc : Bool)
    → s.diag.listen_only ≡ true
    → let fc = get_or rx_pdu 0 0 in
      let (d, built) = diag_process s.diag rx_pdu bc in
      rtu_dispatch hooks s rx_pdu bc
      ≡ some (record {
        server = if fc == 0x08 then with_diag s d else s;
        built = if fc == 0x08 then built else [];
        tx_pdu_len = if fc == 0x08 then length built else 0;
      })
unfolding rtu_dispatch
dispatch_listening hooks s rx_pdu bc l = ground (arith, l)

pub finish_server :
    (rx_pdu : List ℕ) (bc : Bool) (a : Answer)
    → (rtu_finish rx_pdu bc a).server ≡ with_diag a.server (bookkeeping rx_pdu bc a)
unfolding rtu_finish
finish_server rx_pdu bc a = elim (Bool-cases (a.tx_pdu_len == 0)) [
  | inl e ↦ rw e refl
  | inr e ↦ elim (Bool-cases (ltb 253 a.tx_pdu_len || ltb 256 (1 + a.tx_pdu_len + 2))) [
    | inl big ↦ rw (e, big) refl
    | inr fits ↦ rw (e, fits) refl
  ]
]

pub finish_silent :
    (rx_pdu : List ℕ) (bc : Bool) (a : Answer) → a.tx_pdu_len ≡ 0 → (rtu_finish rx_pdu bc a).tx ≡ []
unfolding rtu_finish
finish_silent rx_pdu bc a h = ground (arith, h)

pub finish-IsUntouched :
    (s : Server) (rx_pdu : List ℕ) (bc : Bool) (a : Answer)
    → a.server ≡ with_diag s a.server.diag
    → IsUntouched s (rtu_finish rx_pdu bc a)
finish-IsUntouched s rx_pdu bc a h =
    let d = bookkeeping rx_pdu bc a in
    let e = finish_server rx_pdu bc a in rw e (ap (λ (t : Server). with_diag t d) h)

pub serve_answer :
    (hooks : Hooks) (s : Server) (rx_pdu : List ℕ) (bc : Bool) (a : Answer)
    → rtu_dispatch hooks s rx_pdu bc ≡ some a
    → rtu_serve hooks s rx_pdu bc ≡ rtu_finish rx_pdu bc a
unfolding rtu_serve
serve_answer hooks s rx_pdu bc a e = rw (rtu_serve, e) refl

serve_listening :
    (hooks : Hooks) (s : Server) (rx_pdu : List ℕ) (bc : Bool)
    → s.diag.listen_only ≡ true
    → let r = rtu_serve hooks s rx_pdu bc in
      IsUntouched s r × ((r.tx ≡ []) ⊎ (get_or rx_pdu 0 0 ≡ 0x08))
serve_listening hooks s rx_pdu bc l =
    let e = serve_answer hooks s rx_pdu bc _ (dispatch_listening hooks s rx_pdu bc l) in
    elim (Bool-cases (get_or rx_pdu 0 0 == 0x08)) [
      | inl diag ↦ rw (e, diag) (finish-IsUntouched s rx_pdu bc _ refl, inr ((==_iff _ _).0 diag))
      | inr other ↦
          rw (e, other)
            (finish-IsUntouched s rx_pdu bc _ refl, inl (finish_silent rx_pdu bc _ refl))
    ]

-- What holds of a silent result, and of the service of a frame whose length and CRC are right,
-- holds of the whole function.
pub rtu_process_cases {κ} :
    (P : Result → Type κ) (hooks : Hooks) (s : Server) (rx : List ℕ)
    → ((st : Status) (d : Diag) → P (record { status = st; server = with_diag s d; tx = [] }))
    → let d = note_slave_message (note_bus_message s.diag) in
      (4 ≤ length rx
        → P (
            rtu_serve hooks
              (with_diag s d)
              (take (length rx - 3) (drop 1 rx))
              (get_or rx 0 0 == 0)))
      → P (rtu_process hooks s rx)
unfolding rtu_process
rtu_process_cases P hooks s rx silent served =
    elim (Bool-cases (ltb (length rx) 4 || ltb 256 (length rx))) [
      | inl size ↦ rw size (silent _ s.diag)
      | inr size ↦ elim (Bool-cases (crc_ok rx)) [
        | inr crc ↦ rw (size, crc) (silent _ _)
        | inl crc ↦ elim (Bool-cases (get_or rx 0 0 != s.slave_id && get_or rx 0 0 != 0)) [
          | inl other ↦ rw (size, crc, other) (silent _ _)
          | inr ours ↦ rw (size, crc, ours) (served (ground (arith, size)))
        ]
      ]
    ]

-- A device in listen-only mode changes no table, whatever the frame, and answers nothing unless
-- the function code is 0x08, Diagnostics.
pub rtu_process-listen_only :
    (hooks : Hooks) (s : Server) (rx : List ℕ)
    → s.diag.listen_only ≡ true
    → let r = rtu_process hooks s rx in IsUntouched s r × ((r.tx ≡ []) ⊎ (get_or rx 1 0 ≡ 0x08))
rtu_process-listen_only hooks s rx l =
    let d = note_slave_message (note_bus_message s.diag) in
    let rx_pdu = take (length rx - 3) (drop 1 rx) in
    let listening : d.listen_only ≡ true = unfold note_slave_message note_bus_message in l in
    rtu_process_cases (λ r. IsUntouched s r × ((r.tx ≡ []) ⊎ (get_or rx 1 0 ≡ 0x08))) hooks s rx
      (λ st d. (refl, inl refl))
      (λ h.
        let quiet = serve_listening hooks (with_diag s d) rx_pdu (get_or rx 0 0 == 0) listening in
        rw (← frame_code rx h) quiet)
