-- ===== src/Canopen/Board.antt =====
-- src/canopen/canopen_od.c: the default object dictionary of the board, and the variables of the
-- application in it.
use stm32_automation_board.Common.{ℕ, ◌+◌, List, [], ◌∷◌, ◌++◌, get_or, length, Option, none, some}
use stm32_automation_board.Common.Loops.{for_range}
use stm32_automation_board.Common.Word.{u32}
use stm32_automation_board.Canopen.Types.{le16, put_le16, put_le32, Subindex, Indextable, Od}
use stm32_automation_board.Canopen.Dictionary.{find_subindex, store_object}

abbrev pub ro : ℕ
ro = 0x05

abbrev pub rw_access : ℕ
rw_access = 0x07

-- Objects of the types uint8, uint16, int16, uint32 and visible_string.
abbrev pub u8_object : ℕ → ℕ → Subindex
u8_object access v = record {
  b_access_type = access;
  b_data_type = 0x05;
  size = 1;
  p_object = some (v ∷ []);
}

abbrev pub u16_object : ℕ → ℕ → Subindex
u16_object access v = record {
  b_access_type = access;
  b_data_type = 0x06;
  size = 2;
  p_object = some (put_le16 v);
}

abbrev pub i16_object : ℕ → ℕ → Subindex
i16_object access v = record {
  b_access_type = access;
  b_data_type = 0x03;
  size = 2;
  p_object = some (put_le16 v);
}

abbrev pub u32_object : ℕ → ℕ → Subindex
u32_object access v = record {
  b_access_type = access;
  b_data_type = 0x07;
  size = 4;
  p_object = some (put_le32 v);
}

abbrev pub string_object : List ℕ → Subindex
string_object chars = record {
  b_access_type = ro;
  b_data_type = 0x09;
  size = length chars;
  p_object = some chars;
}

abbrev pub entry : ℕ → List Subindex → Indextable
entry index subs = record { index = index; p_subindex = subs }

-- "STM32 Automation Board" and "v1.0".
abbrev pub device_name : List ℕ
device_name =
    b'S' ∷ b'T' ∷ b'M' ∷ b'3' ∷ b'2' ∷ b' ' ∷ b'A' ∷ b'u' ∷ b't' ∷ b'o' ∷ b'm' ∷ b'a' ∷ b't' ∷ b'i'
    ∷ b'o' ∷ b'n' ∷ b' ' ∷ b'B' ∷ b'o' ∷ b'a' ∷ b'r' ∷ b'd' ∷ []

abbrev pub version : List ℕ
version = b'v' ∷ b'1' ∷ b'.' ∷ b'0' ∷ []

-- 0x1000 to 0x1018: device type, error register, names, heartbeat time and identity.
abbrev pub board_identity : Od
board_identity =
    entry 0x1000 (u32_object ro 0x00020191 ∷ [])
    ∷ entry 0x1001 (u8_object ro 0x00 ∷ [])
    ∷ entry 0x1008 (string_object device_name ∷ [])
    ∷ entry 0x1009 (string_object version ∷ [])
    ∷ entry 0x100a (string_object version ∷ [])
    ∷ entry 0x1017 (u16_object rw_access 1000 ∷ [])
    ∷ entry 0x1018 (
        u8_object ro 4
        ∷ u32_object ro 0x00000000
        ∷ u32_object ro 0x00004070
        ∷ u32_object ro 0x00010000
        ∷ u32_object ro 0x12345678
        ∷ [])
    ∷ []

-- The communication parameters of a receive PDO, and of a transmit PDO.
abbrev pub rpdo_entry : ℕ → ℕ → Indextable
rpdo_entry index cob_id =
    entry index (u8_object ro 2 ∷ u32_object rw_access cob_id ∷ u8_object rw_access 254 ∷ [])

abbrev pub tpdo_entry : ℕ → ℕ → Indextable
tpdo_entry index cob_id = entry index (
    u8_object ro 5
    ∷ u32_object rw_access cob_id
    ∷ u8_object rw_access 254
    ∷ u16_object rw_access 100
    ∷ u8_object ro 0
    ∷ u16_object rw_access 1000
    ∷ [])

-- 0x1400 to 0x1A01: communication and mapping parameters.
abbrev pub board_pdo : Od
board_pdo =
    rpdo_entry 0x1400 0x201
    ∷ rpdo_entry 0x1401 0x301
    ∷ entry 0x1600 (u8_object ro 1 ∷ u32_object ro 0x62000108 ∷ [])
    ∷ entry 0x1601 (u8_object ro 2 ∷ u32_object ro 0x64110110 ∷ u32_object ro 0x64110210 ∷ [])
    ∷ tpdo_entry 0x1800 0x181
    ∷ tpdo_entry 0x1801 0x281
    ∷ entry 0x1a00 (u8_object ro 1 ∷ u32_object ro 0x60000108 ∷ [])
    ∷ entry 0x1a01 (
        u8_object ro 4
        ∷ u32_object ro 0x64010110
        ∷ u32_object ro 0x64010210
        ∷ u32_object ro 0x64010310
        ∷ u32_object ro 0x64010410
        ∷ [])
    ∷ []

-- 0x6000 to 0x6411: digital inputs and outputs, analog inputs and outputs.
abbrev pub board_io : Od
board_io =
    entry 0x6000 (u8_object ro 1 ∷ u8_object ro 0x00 ∷ [])
    ∷ entry 0x6200 (u8_object ro 1 ∷ u8_object rw_access 0x00 ∷ [])
    ∷ entry 0x6401 (
        u8_object ro 4 ∷ i16_object ro 0 ∷ i16_object ro 0 ∷ i16_object ro 0 ∷ i16_object ro 0 ∷ [])
    ∷ entry 0x6411 (u8_object ro 2 ∷ i16_object rw_access 0 ∷ i16_object rw_access 0 ∷ [])
    ∷ []

-- `Board_objdict`, as it is initialised.
abbrev pub default_od : Od
default_od = board_identity ++ board_pdo ++ board_io

-- `*ptr` and `*ptr = …` for a pointer to the variable behind an object of the default dictionary.
abbrev pub object_bytes : Option (List ℕ) → List ℕ
object_bytes none = []
object_bytes (some object) = object

abbrev pub sub_bytes : Option Subindex → List ℕ
sub_bytes none = []
sub_bytes (some sub) = object_bytes sub.p_object

abbrev pub var_bytes : Od → ℕ → ℕ → List ℕ
var_bytes od index b_subindex = sub_bytes (find_subindex od index b_subindex)

abbrev pub var_u8 : Od → ℕ → ℕ → ℕ
var_u8 od index b_subindex = get_or (var_bytes od index b_subindex) 0 0

abbrev pub var_i16 : Od → ℕ → ℕ → ℕ
var_i16 od index b_subindex =
    let object = var_bytes od index b_subindex in le16 (get_or object 0 0) (get_or object 1 0)

-- `canopen_default_od_reset`: the inputs, the outputs and the error register.
unfoldable pub default_od_reset : Od → Od
default_od_reset od =
    let di = store_object od 0x6000 1 (0x00 ∷ []) in
    let do_state = store_object di 0x6200 1 (0x00 ∷ []) in
    let ai = for_range 4 1 (λ i od. store_object od 0x6401 i (put_le16 0)) do_state in
    let ao = for_range 2 1 (λ i od. store_object od 0x6411 i (put_le16 0)) ai in
    store_object ao 0x1001 0 (0x00 ∷ [])

unfoldable pub default_od_update_node_id : ℕ → Od → Od
default_od_update_node_id node_id od =
    let rpdo1 = store_object od 0x1400 1 (put_le32 (u32 (0x200 + node_id))) in
    let rpdo2 = store_object rpdo1 0x1401 1 (put_le32 (u32 (0x300 + node_id))) in
    let tpdo1 = store_object rpdo2 0x1800 1 (put_le32 (u32 (0x180 + node_id))) in
    let tpdo2 = store_object tpdo1 0x1801 1 (put_le32 (u32 (0x280 + node_id))) in
    default_od_reset tpdo2
