-- ===== src/Master/Answers.antt =====
-- The parsers of the master read what the server's functions answer.
use stm32_automation_board.Common.{
  ℕ, zero, suc, ◌+◌, ◌-◌, ◌*◌, ◌≤◌, ◌<◌, List, [], ◌∷◌, true, false, ◌!=◌, ltb, ◌||◌, ◌≡◌, refl, ap,
  ◌∙◌, arith, length, get_or, take, drop, take_all, length-take, some,
}
use stm32_automation_board.Common.Word.{u8, u16, be16, IsWord, be16-hi8-lo8}
use stm32_automation_board.Fc.Reads.Regs.{IsRegsAnswer}
use stm32_automation_board.Event.{Event, event_process}
use stm32_automation_board.Event.Log
use stm32_automation_board.Event.Log.{events}
use stm32_automation_board.Server.{Server, fifo_count}
use stm32_automation_board.Server.Valid
use stm32_automation_board.Fc.Info.{server_id, report_server_id, read_fifo_queue}
use stm32_automation_board.Fc.Info.Fifo.{queue, depth_at, read_fifo_queue_lem}
use stm32_automation_board.Master.Parse.{
  word_at, get_regs, parse_read_registers, parse_read_fifo_queue, parse_get_comm_event_log,
  parse_report_server_id,
}

pub drop_at : (xs : List ℕ) (k : ℕ) → k < length xs → drop k xs ≡ get_or xs k 0 ∷ drop (k + 1) xs
drop_at [] k h = absurd (omega arith)
drop_at (x ∷ xs) zero h = refl
drop_at (x ∷ xs) (suc k) h =
    let next : suc k + 1 ≡ suc (k + 1) = omega arith in rw next (drop_at xs k (omega arith))

-- Words that stand in a row in the PDU are read in their order.
pub get_regs_lem :
    (pdu : List ℕ) (off : ℕ) (regs : List ℕ) (start total : ℕ)
    → start + total ≤ length regs
    → ((k : ℕ) → k < total → word_at pdu (off + k * 2) ≡ get_or regs (start + k) 0)
    → (n i : ℕ) → i + n ≡ total
    → get_regs pdu off n i ≡ take n (drop (start + i) regs)
unfolding get_regs
get_regs_lem pdu off regs start total fits words zero i e = refl
get_regs_lem pdu off regs start total fits words (suc n) i e =
    let next : start + i + 1 ≡ start + (i + 1) = omega arith in
    rw (drop_at regs (start + i) (omega arith), next, words i (omega arith))
      (ap (◌∷◌ (get_or regs (start + i) 0))
        (get_regs_lem pdu off regs start total fits words n (i + 1) (omega arith)))

-- The registers of an answer to 0x03, 0x04 or 0x17.
pub parse_read_registers-IsRegsAnswer :
    (regs : List ℕ) (start quantity : ℕ) (pdu : List ℕ)
    → 1 ≤ quantity
    → quantity ≤ 125
    → start + quantity ≤ length regs
    → IsRegsAnswer regs start quantity pdu
    → parse_read_registers quantity pdu ≡ some (take quantity (drop start regs))
unfolding parse_read_registers
parse_read_registers-IsRegsAnswer regs start quantity pdu one most fits a =
    let words : (k : ℕ) → k < quantity → word_at pdu (2 + k * 2) ≡ get_or regs (start + k) 0 =
      λ k h.
        let next : 2 + k * 2 + 1 ≡ 2 + (k * 2 + 1) = omega arith in rw next (a.regs_read k h) in
    let here : start + 0 ≡ start = omega arith in
    let all = get_regs_lem pdu 2 regs start quantity fits words quantity 0 (omega arith) in
    let accepted : (get_or pdu 1 0 != u8 (quantity * 2) || length pdu != u16 (2 + get_or pdu 1 0))
        ≡ false =
      ground (arith, a.count, a.size) in
    let sized : (ltb (length pdu) 2 || ltb quantity 1) ≡ false = ground (arith, a.size) in
    rw (parse_read_registers, sized, accepted, all, here) refl

-- A row of words that begins at `off` is the list of them.
get_regs_all :
    (pdu : List ℕ) (off : ℕ) (regs : List ℕ)
    → ((k : ℕ) → k < length regs → word_at pdu (off + k * 2) ≡ get_or regs k 0)
    → get_regs pdu off (length regs) 0 ≡ regs
get_regs_all pdu off regs words =
    let here : (k : ℕ) → k < length regs → word_at pdu (off + k * 2) ≡ get_or regs (0 + k) 0 =
      λ k h. let at : 0 + k ≡ k = omega arith in rw at (words k h) in
    get_regs_lem pdu off regs 0 (length regs) (omega arith) here (length regs) 0 (omega arith)
    ∙ take_all (length regs) regs (omega arith)

-- Read FIFO Queue: the master's parser, with a buffer of 31 registers, reads the entries of the
-- queue, oldest first, out of the server's answer to a request of three bytes for an existing
-- queue of a valid state.
pub parse_read_fifo_queue-read_fifo_queue :
    (s : Server) (rx_pdu : List ℕ)
    → let a = be16 (get_or rx_pdu 1 0) (get_or rx_pdu 2 0) in
      Valid.IsValid s
      → length rx_pdu ≡ 3
      → a < fifo_count
      → parse_read_fifo_queue 31 (read_fifo_queue s 0x18 rx_pdu).1 ≡ some (queue s a)
unfolding parse_read_fifo_queue
parse_read_fifo_queue-read_fifo_queue s rx_pdu v size h =
    let a = be16 (get_or rx_pdu 1 0) (get_or rx_pdu 2 0) in
    let answer = (read_fifo_queue s 0x18 rx_pdu).1 in
    let (_, code, entries) = read_fifo_queue_lem s 0x18 rx_pdu v size h in
    let few : length (queue s a) ≤ 31 =
      omega
        (arith, length-take (get_or s.fifo_len a 0) (get_or s.fifo_store a []), depth_at s a v) in
    let all = get_regs_all answer 5 (queue s a) entries.entry_at in
    let sized : ltb (length answer) 5 ≡ false = ground (arith, entries.size) in
    let fits : (ltb 31 (word_at answer 3)
          || word_at answer 1 != 2 + 2 * word_at answer 3
          || length answer != 5 + 2 * word_at answer 3)
        ≡ false =
      ground (arith, entries.count, entries.byte_count, entries.size, few) in
    let room : ltb 31 (word_at answer 3) ≡ false = ground (arith, entries.count, few) in
    rw (parse_read_fifo_queue, sized, code, fits, room, entries.count, all) refl

-- Get Comm Event Log: the master's parser reads the event counter, the message count and the events,
-- newest first, out of the server's answer, given a buffer of 64 events and its length.
pub parse_get_comm_event_log-event_process :
    (message_count : ℕ) (e : Event)
    → IsWord message_count
    → Log.IsValid e
    → parse_get_comm_event_log (some 64) true (event_process message_count e (0x0c ∷ []) false)
      ≡ some (record {
        status = 0x0000;
        event_count = e.counter;
        message_count = message_count;
        events = some (events e);
      })
unfolding parse_get_comm_event_log event_process
parse_get_comm_event_log-event_process m e h v =
    let n : u8 (u8 (6 + e.log_count) - 6) ≡ e.log_count = omega (arith, v.used) in
    let size = length-take e.log_count e.log in
    let answer = event_process m e (0x0c ∷ []) false in
    let whole : take e.log_count (take e.log_count e.log) ≡ take e.log_count e.log =
      take_all e.log_count (take e.log_count e.log) (omega (arith, size)) in
    let fits : (ltb (u8 (6 + e.log_count)) 6 || length answer != u16 (2 + u8 (6 + e.log_count)))
        ≡ false =
      ground (arith, size, v.used, v.size) in
    let sized : ltb (length answer) 2 ≡ false = ground arith in
    let status_word : be16 0x00 0x00 ≡ 0x0000 = unfold be16 in refl in
    let few : ltb 64 e.log_count ≡ false = ground (arith, v.used) in
    rw
      (
        parse_get_comm_event_log,
        sized,
        fits,
        n,
        few,
        status_word,
        be16-hi8-lo8 e.counter v.word,
        be16-hi8-lo8 m h,
        whole,
      )
      refl

-- Report Server ID: the master's parser, with a buffer of 22 bytes and more, reads the identifier
-- and the run indicator 0xff out of the server's answer.
pub parse_report_server_id-report_server_id :
    (id_max : ℕ)
    → 22 ≤ id_max
    → parse_report_server_id (some id_max) true (report_server_id (0x11 ∷ []))
      ≡ some (record { id = some server_id; run_status = 0xff })
unfolding parse_report_server_id report_server_id
parse_report_server_id-report_server_id id_max room = ground arith
