-- ===== src/Canopen/Types.antt =====
-- inc/canopen/canopen_types.h and the callbacks of inc/canopen/canopen_od.h: frames, the object
-- dictionary, and what the stack shares with the application.
use stm32_automation_board.Common.{
  ℕ, ◌*◌, ◌/◌, ◌^◌, bit_and, bit_or, List, [], ◌∷◌, Bool, Option, none, some,
}
use stm32_automation_board.Common.Word.{u8}

-- `data[1] | (data[2] << 8)`
unfoldable pub le16 : ℕ → ℕ → ℕ
le16 lo hi = bit_or lo (hi * 2 ^ 8)

-- `(v >> 8 * k) & 0xFF`
unfoldable pub octet : ℕ → ℕ → ℕ
octet k v = u8 (bit_and (v / 2 ^ (8 * k)) 0xff)

-- The bytes of a little-endian 16-bit and 32-bit object, as they stand in memory and in a frame.
unfoldable pub put_le16 : ℕ → List ℕ
put_le16 v = octet 0 v ∷ octet 1 v ∷ []

unfoldable pub put_le32 : ℕ → List ℕ
put_le32 v = octet 0 v ∷ octet 1 v ∷ octet 2 v ∷ octet 3 v ∷ []

-- `canopen_frame_t`: the bytes `payload[0 .. len)`. Every frame that the stack sends is a data
-- frame, `rtr = 0`.
pub record Frame : Type 0 where
  pub cob_id : ℕ
  pub payload : List ℕ

-- `subindex`: `p_object` is the bytes of the variable that it points to, none for a null pointer.
pub record Subindex : Type 0 where
  pub b_access_type : ℕ
  pub b_data_type : ℕ
  pub size : ℕ
  pub p_object : Option (List ℕ)

-- `indextable`: `b_endpoints` is the length of the array.
pub record Indextable : Type 0 where
  pub index : ℕ
  pub p_subindex : List Subindex

-- `canopen_od_t`
abbrev pub Od : Type 0
Od = List Indextable

-- The memory that the stack works on: the statics `Board_obj…` of the default dictionary, to which
-- `canopen_automation_vars_t` points, the dictionary that the application passed instead (its
-- objects do not share memory), and the state `App` of the application and the CAN driver.
pub record World (App : Type 0) : Type 0 where
  pub board_objdict : Od
  pub custom_od : Option Od
  pub app : App

-- `tx_func` (true: it returned 0), the write callback, and the two weak hooks.
pub record Callbacks (App : Type 0) : Type 0 where
  pub tx_func : Frame → App → Bool × App
  pub post_write_cb : Option (ℕ → ℕ → List ℕ → World App → World App)
  pub app_sync_inputs : World App → World App
  pub app_sync_outputs : World App → World App

-- The dictionary in use.
abbrev pub chosen : Option Od → Od → Od
chosen none board = board
chosen (some od) board = od

abbrev pub od_of : {App : Type 0} → World App → Od
od_of w = chosen w.custom_od w.board_objdict

abbrev pub replaced : {App : Type 0} → Option Od → Od → World App → World App
replaced none od w = record w { board_objdict = od }
replaced (some _) od w = record w { custom_od = some od }

abbrev pub with_od : {App : Type 0} → Od → World App → World App
with_od od w = replaced w.custom_od od w

-- A call of `tx_func`: its result, and the world behind it.
abbrev pub transmit : {App : Type 0} → Callbacks App → Frame → World App → Bool × World App
transmit cb frame w = let (sent, app) = cb.tx_func frame w.app in (sent, record w { app = app })

-- `NMT_STATE_…`
pub data NmtState : Type 0 where
  initialisation stopped operational pre_operational : NmtState

abbrev pub nmt_code : NmtState → ℕ
nmt_code initialisation = 0x00
nmt_code stopped = 0x04
nmt_code operational = 0x05
nmt_code pre_operational = 0x7f
