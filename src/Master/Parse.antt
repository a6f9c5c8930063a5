-- ===== src/Master/Parse.antt =====
-- src/modbus_master.c: the parsers of response PDUs. A parser gives what it writes to its outputs;
-- `none` is MODBUS_ERROR, and what the outputs hold then is not described.
use stm32_automation_board.Common.{
  ℕ, zero, suc, ◌+◌, ◌-◌, ◌*◌, ◌/◌, List, [], ◌∷◌, Bool, true, false, if◌then◌else◌, ◌==◌, ◌!=◌,
  ltb, ◌&&◌, ◌||◌, not, length, get_or, take, drop, min, Option, none, some, ◌>>=◌,
}
use stm32_automation_board.Common.Word.{u8, u16, be16}

-- The big-endian word at `pos`.
abbrev pub word_at : List ℕ → ℕ → ℕ
word_at pdu pos = be16 (get_or pdu pos 0) (get_or pdu (pos + 1) 0)

-- The loops that read `n` registers, from number `i` on, whose bytes begin at `off`. A byte beyond
-- the PDU reads as 0.
unfoldable pub get_regs : List ℕ → ℕ → ℕ → ℕ → List ℕ
get_regs pdu off zero i = []
get_regs pdu off (suc n) i = word_at pdu (off + i * 2) ∷ get_regs pdu off n (i + 1)

unfoldable pub parse_read_bits : ℕ → ℕ → List ℕ → Option (List ℕ)
parse_read_bits quantity bits_out_max pdu =
    let expected = u8 ((quantity + 7) / 8) in
    let byte_count = get_or pdu 1 0 in
    if ltb (length pdu) 2 || ltb quantity 1
    then none
    else if byte_count != expected || length pdu != u16 (2 + byte_count)
    then none
    else if ltb bits_out_max byte_count
    then none
    else some (take byte_count (drop 2 pdu))

unfoldable pub parse_read_registers : ℕ → List ℕ → Option (List ℕ)
unfolding get_regs
parse_read_registers quantity pdu =
    let byte_count = get_or pdu 1 0 in
    if ltb (length pdu) 2 || ltb quantity 1
    then none
    else if byte_count != u8 (quantity * 2) || length pdu != u16 (2 + byte_count)
    then none
    else some (get_regs pdu 2 quantity 0)

unfoldable pub parse_exception_status : List ℕ → Option ℕ
parse_exception_status pdu =
    if length pdu != 2 || get_or pdu 0 0 != 0x07 then none else some (get_or pdu 1 0)

unfoldable pub parse_diagnostics : ℕ → List ℕ → Option ℕ
parse_diagnostics sub_function pdu =
    if length pdu != 5 || get_or pdu 0 0 != 0x08
    then none
    else if word_at pdu 1 != sub_function
    then none
    else some (word_at pdu 3)

-- The status word and the event count.
unfoldable pub parse_get_comm_event_counter : List ℕ → Option (ℕ × ℕ)
parse_get_comm_event_counter pdu =
    if length pdu != 5 || get_or pdu 0 0 != 0x0b then none else some (word_at pdu 1, word_at pdu 3)

-- What Get Comm Event Log writes; the events only where a buffer is given.
pub record CommLog : Type 0 where
  pub status : ℕ
  pub event_count : ℕ
  pub message_count : ℕ
  pub events : Option (List ℕ)

abbrev pub is_some : {A : Type 0} → Option A → Bool
is_some none = false
is_some (some a) = true

-- `events_out` is none, or the room `events_max` of the buffer; the flag tells whether
-- `events_len_out` is given.
unfoldable pub parse_get_comm_event_log : Option ℕ → Bool → List ℕ → Option CommLog
parse_get_comm_event_log events_out events_len_out pdu =
    let byte_count = get_or pdu 1 0 in
    let n = u8 (byte_count - 6) in
    let paired =
      (is_some events_out && events_len_out) || not (is_some events_out || events_len_out) in
    let too_many : Bool = elim events_out [ none ↦ false | some events_max ↦ ltb events_max n ] in
    if ltb (length pdu) 2 || get_or pdu 0 0 != 0x0c
    then none
    else if ltb byte_count 6 || length pdu != u16 (2 + byte_count)
    then none
    else if not paired
    then none
    else if too_many
    then none
    else some (record {
      status = word_at pdu 2;
      event_count = word_at pdu 4;
      message_count = word_at pdu 6;
      events = elim events_out [ none ↦ none | some _ ↦ some (take n (drop 8 pdu)) ];
    })

unfoldable pub parse_read_file_record : ℕ → List ℕ → Option (List ℕ)
unfolding get_regs
parse_read_file_record record_length pdu =
    let resp_data_len = get_or pdu 1 0 in
    let file_resp_len = get_or pdu 2 0 in
    let need = u16 (1 + record_length * 2) in
    if ltb (length pdu) 4 || get_or pdu 0 0 != 0x14 || ltb record_length 1
    then none
    else if length pdu != u16 (2 + resp_data_len)
    then none
    else if file_resp_len != need
        || get_or pdu 3 0 != 0x06
        || resp_data_len != u8 (1 + file_resp_len)
    then none
    else some (get_regs pdu 4 record_length 0)

-- `modbus_master_devid_object_t`: `value[0 .. length)`.
pub record DevidObject : Type 0 where
  pub object_id : ℕ
  pub value : List ℕ

-- `modbus_master_devid_t`: its first `object_count` objects.
pub record Devid : Type 0 where
  pub read_device_id_code : ℕ
  pub conformity_level : ℕ
  pub more_follows : ℕ
  pub next_object_id : ℕ
  pub object_count : ℕ
  pub objects : List DevidObject

abbrev pub devid_value_max : ℕ
devid_value_max = 64

abbrev pub devid_objects_max : ℕ
devid_objects_max = 8

-- The loop over the objects, `n` of them from `pos` on.
unfoldable pub parse_objects : List ℕ → ℕ → ℕ → Option (List DevidObject)
parse_objects pdu zero pos = some []
parse_objects pdu (suc n) pos =
    let slen = get_or pdu (pos + 1) 0 in
    let object : DevidObject = record {
      object_id = get_or pdu pos 0;
      value = take (min slen devid_value_max) (drop (pos + 2) pdu);
    } in
    let rest = parse_objects pdu n (u16 (pos + 2 + slen)) in
    if ltb (length pdu) (pos + 2)
    then none
    else if ltb (length pdu) (pos + 2 + slen)
    then none
    else do objects ← rest; some (object ∷ objects)

unfoldable pub parse_device_id : List ℕ → Option Devid
unfolding parse_objects
parse_device_id pdu =
    let n = min (get_or pdu 6 0) devid_objects_max in
    if ltb (length pdu) 7 || get_or pdu 0 0 != 0x2b || get_or pdu 1 0 != 0x0e then none else do
      objects ← parse_objects pdu n 7
      some (record {
        read_device_id_code = get_or pdu 2 0;
        conformity_level = get_or pdu 3 0;
        more_follows = get_or pdu 4 0;
        next_object_id = get_or pdu 5 0;
        object_count = n;
        objects = objects;
      })

-- The comparing loop, over `n` bytes from number `i` on.
unfoldable pub same_bytes : List ℕ → List ℕ → ℕ → ℕ → Bool
same_bytes pdu req zero i = true
same_bytes pdu req (suc n) i =
    let rest = same_bytes pdu req n (i + 1) in
    if get_or pdu i 0 != get_or req i 0 then false else rest

-- There is nothing to write: the result is `tt` for MODBUS_OK.
abbrev pub Done : Type 0
Done = Unit {0}

unfoldable pub parse_echo : List ℕ → List ℕ → Option Done
unfolding same_bytes
parse_echo req pdu =
    if length pdu != length req || length req == 0
    then none
    else if same_bytes pdu req (length req) 0
    then some tt
    else none

-- The identifier, where a buffer is given, and the run indicator.
pub record ServerId : Type 0 where
  pub id : Option (List ℕ)
  pub run_status : ℕ

-- `id_out` is none, or the room `id_max` of the buffer; the flag tells whether `id_len_out` is
-- given.
unfoldable pub parse_report_server_id : Option ℕ → Bool → List ℕ → Option ServerId
parse_report_server_id id_out id_len_out pdu =
    let byte_count = get_or pdu 1 0 in
    let id_len = u8 (byte_count - 1) in
    let no_room : Bool = elim id_out [
      | none ↦ id_len_out
      | some id_max ↦ not id_len_out || ltb id_max id_len
    ] in
    if ltb (length pdu) 3
    then none
    else if get_or pdu 0 0 != 0x11
    then none
    else if ltb byte_count 1 || length pdu != u16 (2 + byte_count)
    then none
    else if no_room
    then none
    else some (record {
      id = elim id_out [ none ↦ none | some _ ↦ some (take id_len (drop 2 pdu)) ];
      run_status = get_or pdu (2 + id_len) 0;
    })

unfoldable pub parse_read_fifo_queue : ℕ → List ℕ → Option (List ℕ)
unfolding get_regs
parse_read_fifo_queue regs_max pdu =
    let byte_count = word_at pdu 1 in
    let fifo_count = word_at pdu 3 in
    if ltb (length pdu) 5
    then none
    else if get_or pdu 0 0 != 0x18
    then none
    else if ltb 31 fifo_count
        || byte_count != 2 + 2 * fifo_count
        || length pdu != 5 + 2 * fifo_count
    then none
    else if ltb regs_max fifo_count
    then none
    else some (get_regs pdu 5 fifo_count 0)
