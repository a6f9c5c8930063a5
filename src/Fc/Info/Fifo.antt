-- ===== src/Fc/Info/Fifo.antt =====
-- The FIFO queues: `modbus_fifo_push` and the function code 0x18.
use stm32_automation_board.Common.{
  ℕ, zero, suc, ◌+◌, ◌*◌, ◌≤◌, ◌<◌, List, [], ◌∷◌, ◌++◌, if◌then◌else◌, ◌==◌, ltb, ◌≡◌, refl, ◌∙◌,
  ap, arith, length, get_or, set, take, length-take, get_or-set_self, get_or-set_ne, All-get_in,
  All-get_or,
}
use stm32_automation_board.Common.Word.{u8, be16, hi8, lo8, be16_sum, be16-hi8-lo8, IsByte, IsWord}
use stm32_automation_board.Server.{Server, fifo_push, fifo_count, fifo_depth}
use stm32_automation_board.Server.Valid.{IsWordArray, IsDepth}
use stm32_automation_board.Server.Valid
use stm32_automation_board.Fc.Good.{IsAnswer, IsGood, exception-IsAnswer}
use stm32_automation_board.Fc.Reads.{read_regs}
use stm32_automation_board.Fc.Reads.Regs.{length-read_regs, read_regs-IsBytes, get_or-read_regs}
use stm32_automation_board.Fc.Info.{read_fifo_queue}

-- The queue `a`, oldest entry first.
abbrev pub queue : Server → ℕ → List ℕ
queue s a = take (get_or s.fifo_len a 0) (get_or s.fifo_store a [])

pub depth_at : (s : Server) (a : ℕ) → Valid.IsValid s → get_or s.fifo_len a 0 ≤ fifo_depth
depth_at s a v = All-get_or IsDepth s.fifo_len a 0 v.depths.1 (omega arith)

store_at :
    (s : Server) (a : ℕ)
    → Valid.IsValid s
    → a < fifo_count
    → IsWordArray fifo_depth (get_or s.fifo_store a [])
store_at s a v h =
    All-get_in (IsWordArray fifo_depth) s.fifo_store a [] v.queues.1 (omega (arith, v.queues.0))

take-suc : (xs : List ℕ) (n x : ℕ) → n < length xs → take (suc n) (set xs n x) ≡ take n xs ++ x ∷ []
take-suc [] n x h = absurd (omega arith)
take-suc (y ∷ ys) zero x h = refl
take-suc (y ∷ ys) (suc n) x h = ap (◌∷◌ y) (take-suc ys n x (omega arith))

get_or-take : (xs : List ℕ) (n k d : ℕ) → k < n → get_or (take n xs) k d ≡ get_or xs k d
get_or-take xs zero k d h = absurd (omega arith)
get_or-take [] (suc n) k d h = refl
get_or-take (y ∷ ys) (suc n) zero d h = refl
get_or-take (y ∷ ys) (suc n) (suc k) d h = get_or-take ys n k d (omega arith)

-- The whole effect of `modbus_fifo_push` on the queues of a valid state: it returns 1 and appends
-- the value to its queue while there is room, and otherwise returns 0 and changes nothing. The
-- other queue is as before.
pub queue-fifo_push :
    (a value b : ℕ) (s : Server)
    → Valid.IsValid s
    → a < fifo_count
    → let (s', result) = fifo_push a value s in
      let room = ltb (length (queue s a)) fifo_depth in
      (result ≡ (if room then 1 else 0))
      × (queue s' b
          ≡ (if room then (if a == b then queue s b ++ value ∷ [] else queue s b) else queue s b))
unfolding fifo_push
queue-fifo_push a value b s v h =
    let n = get_or s.fifo_len a 0 in
    let xs = get_or s.fifo_store a [] in
    let long : length (queue s a) ≡ n =
      omega (arith, length-take n xs, depth_at s a v, (store_at s a v h).0) in
    let byte : n < 31 → u8 (n + 1) ≡ suc n = λ lt. omega arith in
    ground (
      arith,
      long,
      v.depths.0,
      v.queues.0,
      (store_at s a v h).0,
      get_or-set_self s.fifo_len a (u8 (n + 1)) 0 (omega (arith, v.depths.0)),
      get_or-set_ne s.fifo_len a b (u8 (n + 1)) 0,
      get_or-set_self s.fifo_store a (set xs n value) [] (omega (arith, v.queues.0)),
      get_or-set_ne s.fifo_store a b (set xs n value) [],
      take-suc xs n value,
      byte,
    )

fifo-IsAnswer :
    (s : Server) (fc a : ℕ)
    → Valid.IsValid s
    → IsByte fc
    → let n = get_or s.fifo_len a 0 in
      IsAnswer (fc ∷ 0x00 ∷ u8 (2 + 2 * n) ∷ 0x00 ∷ n ∷ read_regs (get_or s.fifo_store a []) n 0)
fifo-IsAnswer s fc a v h =
    let n = get_or s.fifo_len a 0 in
    let xs = get_or s.fifo_store a [] in
    record {
      bytes = (
        h,
        (
          omega arith,
          (omega arith, (omega arith, (omega (arith, depth_at s a v), read_regs-IsBytes xs n 0))),
        ),
      );
      some_byte = omega arith;
      fits = omega (arith, depth_at s a v, length-read_regs xs n 0);
    }

pub read_fifo_queue-IsGood :
    (s : Server) (fc : ℕ) (rx_pdu : List ℕ)
    → Valid.IsValid s
    → IsByte fc
    → IsGood (read_fifo_queue s fc rx_pdu)
unfolding read_fifo_queue
read_fifo_queue-IsGood s fc rx_pdu v h = ground (
  arith,
  v,
  exception-IsAnswer fc 2 h (omega arith),
  exception-IsAnswer fc 3 h (omega arith),
  fifo-IsAnswer s fc (be16 (get_or rx_pdu 1 0) (get_or rx_pdu 2 0)) v h,
)

-- The answer carries the entries of a queue, oldest first.
pub record IsFifoAnswer (entries answer : List ℕ) : Type 0 where
  pub byte_count : be16 (get_or answer 1 0) (get_or answer 2 0) ≡ 2 + 2 * length entries
  pub count : be16 (get_or answer 3 0) (get_or answer 4 0) ≡ length entries
  pub size : length answer ≡ 5 + 2 * length entries
  pub entry_at :
      (k : ℕ)
      → k < length entries
      → be16 (get_or answer (5 + k * 2) 0) (get_or answer (5 + k * 2 + 1) 0) ≡ get_or entries k 0

-- A register behind the five bytes of the header.
five :
    (a b c d e : ℕ) (rest : List ℕ) (i w : ℕ)
    → get_or rest i 0 ≡ hi8 w
    → get_or rest (i + 1) 0 ≡ lo8 w
    → IsWord w
    → let answer = a ∷ b ∷ c ∷ d ∷ e ∷ rest in
      be16 (get_or answer (5 + i) 0) (get_or answer (5 + i + 1) 0) ≡ w
five a b c d e rest i w hi lo h =
    let even : 5 + i ≡ suc (suc (suc (suc (suc i)))) = omega arith in
    let odd : 5 + i + 1 ≡ suc (suc (suc (suc (suc (i + 1))))) = omega arith in
    rw (odd, even, hi, lo) (be16-hi8-lo8 w h)

fifo_entries :
    (s : Server) (fc a : ℕ)
    → Valid.IsValid s
    → a < fifo_count
    → let n = get_or s.fifo_len a 0 in
      IsFifoAnswer
        (queue s a)
        (fc ∷ 0x00 ∷ u8 (2 + 2 * n) ∷ 0x00 ∷ n ∷ read_regs (get_or s.fifo_store a []) n 0)
fifo_entries s fc a v h =
    let n = get_or s.fifo_len a 0 in
    let xs = get_or s.fifo_store a [] in
    let known = store_at s a v h in
    let depth = depth_at s a v in
    let long : length (queue s a) ≡ n = omega (arith, length-take n xs, depth, known.0) in
    record {
      byte_count = omega (arith, long, be16_sum 0 (u8 (2 + 2 * n)) (omega arith));
      count = omega (arith, long, be16_sum 0 n (omega (arith, depth)));
      size = omega (arith, long, length-read_regs xs n 0);
      entry_at = λ k lt.
          let inside : k < n = omega (arith, long, lt) in
          let (hi, lo) = get_or-read_regs xs n 0 k inside in
          let at : 0 + k ≡ k = omega arith in
          rw (get_or-take xs n k 0 inside) (
            five fc 0 (u8 (2 + 2 * n)) 0 n (read_regs xs n 0) (k * 2) (get_or xs k 0)
              (hi ∙ ap (λ j. hi8 (get_or xs j 0)) at) (lo ∙ ap (λ j. lo8 (get_or xs j 0)) at)
              (All-get_or IsWord xs k 0 known.1 (omega arith)));
    }

-- Read FIFO Queue: a request of three bytes for an existing queue is answered by its count and by
-- its entries, oldest first, and leaves the queue as it is.
pub read_fifo_queue_lem :
    (s : Server) (fc : ℕ) (rx_pdu : List ℕ)
    → let a = be16 (get_or rx_pdu 1 0) (get_or rx_pdu 2 0) in
      Valid.IsValid s
      → length rx_pdu ≡ 3
      → a < fifo_count
      → let (s', answer) = read_fifo_queue s fc rx_pdu in
        (s' ≡ s) × (get_or answer 0 0 ≡ fc) × IsFifoAnswer (queue s a) answer
unfolding read_fifo_queue
read_fifo_queue_lem s fc rx_pdu v size h =
    let a = be16 (get_or rx_pdu 1 0) (get_or rx_pdu 2 0) in ground (arith, fifo_entries s fc a v h)
