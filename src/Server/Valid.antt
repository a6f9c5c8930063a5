-- ===== src/Server/Valid.antt =====
-- The invariant of the server state, and the functions of the register API that keep it.
use stm32_automation_board.Common.{
  ℕ, ◌+◌, ◌≤◌, ◌<◌, List, [], ◌≡◌, refl, ◌∙◌, arith, get_or, set, length, replicate, length-set,
  length-replicate, All, All-set, All-replicate, All-get_in, Bool-cases, inl, inr, leb,
}
use stm32_automation_board.Common.Loops.{for_range_inv}
use stm32_automation_board.Common.Word.{u8, IsByte, IsWord, IsWords}
use stm32_automation_board.Board.{Board}
use stm32_automation_board.Store.Bits.{IsBitTable, bit_write-IsBitTable}
use stm32_automation_board.Store.Regs.{IsRegTable, reg_at}
use stm32_automation_board.Diag.Counters
use stm32_automation_board.Diag.Counters.{diag_reset-IsValid}
use stm32_automation_board.Event.Log.{event_reset-IsValid}
use stm32_automation_board.Server.{
  Server, Hooks, no_hooks, file_count, file_size_regs, fifo_count, fifo_depth, mirror_inputs,
  mirror_analog, app_sync_registers, sync_registers, rtu_init, fifo_push,
}

-- A file or a queue: a fixed number of 16-bit entries.
abbrev pub IsWordArray : ℕ → List ℕ → Type 0
IsWordArray n xs = (length xs ≡ n) × IsWords xs

abbrev pub IsFiles : List (List ℕ) → Type 0
IsFiles files = (length files ≡ file_count) × All (IsWordArray file_size_regs) files

abbrev pub IsQueues : List (List ℕ) → Type 0
IsQueues queues = (length queues ≡ fifo_count) × All (IsWordArray fifo_depth) queues

abbrev pub IsDepth : ℕ → Type 0
IsDepth n = n ≤ fifo_depth

pub record IsValid (s : Server) : Type 0 where
  pub id : IsByte s.slave_id
  pub holding : IsRegTable s.holding_regs
  pub input : IsRegTable s.input_regs
  pub coils : IsBitTable s.coil_bits
  pub discrete : IsBitTable s.discrete_bits
  pub files : IsFiles s.file_store
  pub queues : IsQueues s.fifo_store
  pub depths : (length s.fifo_len ≡ fifo_count) × All IsDepth s.fifo_len
  pub diag : Counters.IsValid s.diag

-- The application's callback keeps the state valid.
abbrev pub IsSafe : Hooks → Type 0
IsSafe hooks = (s : Server) → IsValid s → IsValid (sync_registers hooks s)

pub mirror_inputs-IsBitTable :
    (di : ℕ) (bits : List ℕ) → IsBitTable bits → IsBitTable (mirror_inputs di bits)
unfolding mirror_inputs
mirror_inputs-IsBitTable di bits h =
    for_range_inv (λ i bits. IsBitTable bits) _ 8 (λ i bits lt v. bit_write-IsBitTable bits i _ v) 8
      0 bits (omega arith) h

pub mirror_analog-IsRegTable :
    (holding input : List ℕ)
    → IsRegTable holding
    → IsRegTable input
    → IsRegTable (mirror_analog holding input)
unfolding mirror_analog
mirror_analog-IsRegTable holding input h v =
    for_range_inv (λ i input. IsRegTable input) _ 4
      (λ i input lt w. record {
        size = length-set input i _ ∙ w.size;
        words = All-set IsWord input i _ w.words (reg_at holding (100 + i) h);
      })
      4 0 input (omega arith) v

pub with_mirrors-IsValid :
    (s : Server) (di : ℕ) (b : Board)
    → IsValid s
    → IsValid (record s {
      discrete_bits = mirror_inputs di s.discrete_bits;
      input_regs = mirror_analog s.holding_regs s.input_regs;
      board = b;
    })
with_mirrors-IsValid s di b v = record {
  id = v.id;
  holding = v.holding;
  input = mirror_analog-IsRegTable s.holding_regs s.input_regs v.holding v.input;
  coils = v.coils;
  discrete = mirror_inputs-IsBitTable di s.discrete_bits v.discrete;
  files = v.files;
  queues = v.queues;
  depths = v.depths;
  diag = v.diag;
}

-- The board's own sync keeps the state valid: the hypothesis on hooks holds without any.
pub no_hooks-IsSafe : IsSafe no_hooks
unfolding sync_registers app_sync_registers
no_hooks-IsSafe s v = with_mirrors-IsValid s _ _ v

pub with_discrete-IsValid :
    (s : Server) (di : ℕ)
    → IsValid s
    → IsValid (record s { discrete_bits = mirror_inputs di s.discrete_bits })
with_discrete-IsValid s di v = record {
  id = v.id;
  holding = v.holding;
  input = v.input;
  coils = v.coils;
  discrete = mirror_inputs-IsBitTable di s.discrete_bits v.discrete;
  files = v.files;
  queues = v.queues;
  depths = v.depths;
  diag = v.diag;
}

pub with_input-IsValid :
    (s : Server)
    → IsValid s
    → IsValid (record s { input_regs = mirror_analog s.holding_regs s.input_regs })
with_input-IsValid s v = record {
  id = v.id;
  holding = v.holding;
  input = mirror_analog-IsRegTable s.holding_regs s.input_regs v.holding v.input;
  coils = v.coils;
  discrete = v.discrete;
  files = v.files;
  queues = v.queues;
  depths = v.depths;
  diag = v.diag;
}

pub with_coils-IsValid :
    (s : Server) (bits : List ℕ)
    → IsValid s
    → IsBitTable bits
    → IsValid (record s { coil_bits = bits })
with_coils-IsValid s bits v h = record {
  id = v.id;
  holding = v.holding;
  input = v.input;
  coils = h;
  discrete = v.discrete;
  files = v.files;
  queues = v.queues;
  depths = v.depths;
  diag = v.diag;
}

pub with_holding-IsValid :
    (s : Server) (regs : List ℕ)
    → IsValid s
    → IsRegTable regs
    → IsValid (record s { holding_regs = regs })
with_holding-IsValid s regs v h = record {
  id = v.id;
  holding = h;
  input = v.input;
  coils = v.coils;
  discrete = v.discrete;
  files = v.files;
  queues = v.queues;
  depths = v.depths;
  diag = v.diag;
}

pub with_files-IsValid :
    (s : Server) (files : List (List ℕ))
    → IsValid s
    → IsFiles files
    → IsValid (record s { file_store = files })
with_files-IsValid s files v h = record {
  id = v.id;
  holding = v.holding;
  input = v.input;
  coils = v.coils;
  discrete = v.discrete;
  files = h;
  queues = v.queues;
  depths = v.depths;
  diag = v.diag;
}

zero_array : (n : ℕ) → IsWordArray n (replicate n 0)
zero_array n = (length-replicate n 0, All-replicate IsWord n 0 (omega arith))

zero_bits : IsBitTable (replicate 16 0)
zero_bits = record { size = refl; bytes = All-replicate IsByte 16 0 (omega arith) }

zero_regs : IsRegTable (replicate 256 0)
zero_regs = record { size = (zero_array 256).0; words = (zero_array 256).1 }

-- After `modbus_rtu_init` the state is valid, whatever the tables held before.
pub rtu_init-IsValid :
    (slave_id : ℕ) (s : Server)
    → IsByte slave_id
    → IsQueues s.fifo_store
    → Counters.IsValid s.diag
    → IsValid (rtu_init slave_id s)
unfolding rtu_init
rtu_init-IsValid slave_id s h q d =
    let r = diag_reset-IsValid s.diag d in
    record {
      id = h;
      holding = zero_regs;
      input = zero_regs;
      coils = zero_bits;
      discrete = zero_bits;
      files = (refl, All-replicate (IsWordArray 128) 4 (replicate 128 0) (zero_array 128));
      queues = q;
      depths = (refl, All-replicate IsDepth 2 0 (omega arith));
      diag = record {
        bus = r.bus;
        comm = r.comm;
        exceptions = r.exceptions;
        slave = r.slave;
        silent = r.silent;
        overrun = r.overrun;
        register = r.register;
        event = event_reset-IsValid _ r.event;
      };
    }

pushed :
    (a w : ℕ) (s : Server)
    → IsWord w
    → IsValid s
    → a < fifo_count
    → get_or s.fifo_len a 0 < fifo_depth
    → let len = get_or s.fifo_len a 0 in
      IsValid (record s {
        fifo_store = set s.fifo_store a (set (get_or s.fifo_store a []) len w);
        fifo_len = set s.fifo_len a (u8 (len + 1));
      })
pushed a w s h v lt room =
    let len = get_or s.fifo_len a 0 in
    let q =
      All-get_in (IsWordArray fifo_depth) s.fifo_store a [] v.queues.1
        (omega (arith, v.queues.0)) in
    record {
      id = v.id;
      holding = v.holding;
      input = v.input;
      coils = v.coils;
      discrete = v.discrete;
      files = v.files;
      queues = (
        length-set s.fifo_store a _ ∙ v.queues.0,
        All-set (IsWordArray fifo_depth) s.fifo_store a _ v.queues.1 (
          length-set (get_or s.fifo_store a []) len w ∙ q.0,
          All-set IsWord (get_or s.fifo_store a []) len w q.1 h,
        ),
      );
      depths = (
        length-set s.fifo_len a _ ∙ v.depths.0,
        All-set IsDepth s.fifo_len a (u8 (len + 1)) v.depths.1 (omega arith),
      );
      diag = v.diag;
    }

-- A push keeps the state valid.
pub fifo_push-IsValid :
    (fifo_addr value : ℕ) (s : Server)
    → IsWord value
    → IsValid s
    → IsValid (fifo_push fifo_addr value s).0
unfolding fifo_push
fifo_push-IsValid a w s h v = elim (Bool-cases (leb fifo_count a)) [
  | inl out ↦ rw out v
  | inr in_range ↦ elim (Bool-cases (leb fifo_depth (get_or s.fifo_len a 0))) [
    | inl full ↦ rw (in_range, full) v
    | inr room ↦ rw (in_range, room) (pushed a w s h v (ground arith) (ground arith))
  ]
]
