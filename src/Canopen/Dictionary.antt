-- ===== src/Canopen/Dictionary.antt =====
-- src/canopen/canopen_od.c: the engine of the object dictionary.
use stm32_automation_board.Common.{
  ℕ, zero, suc, bit_and, List, [], ◌∷◌, ◌++◌, if◌then◌else◌, ◌==◌, ◌!=◌, ltb, ◌&&◌, ◌||◌, length,
  take, drop, min, Option, none, some, ◌>>=◌,
}
use stm32_automation_board.Canopen.Types.{
  Subindex, Indextable, Od, World, Callbacks, od_of, with_od,
}

-- The access types and the result codes that the engine uses.
abbrev pub const_access : ℕ
const_access = 0x01

abbrev pub od_successful : ℕ
od_successful = 0

abbrev pub abort_read_not_allowed : ℕ
abort_read_not_allowed = 0x06010001

abbrev pub abort_write_not_allowed : ℕ
abort_write_not_allowed = 0x06010002

abbrev pub abort_no_such_object : ℕ
abort_no_such_object = 0x06020000

abbrev pub abort_no_such_subindex : ℕ
abort_no_such_subindex = 0x06090011

abbrev pub abort_data_length_too_high : ℕ
abort_data_length_too_high = 0x06070012

abbrev pub abort_data_length_too_short : ℕ
abort_data_length_too_short = 0x06070013

-- The first entry of the index.
unfoldable pub find_index : Od → ℕ → Option Indextable
find_index [] index = none
find_index (e ∷ od) index =
    let rest = find_index od index in if e.index == index then some e else rest

abbrev pub nth : {A : Type 0} → List A → ℕ → Option A
nth [] i = none
nth (x ∷ xs) zero = some x
nth (x ∷ xs) (suc i) = nth xs i

unfoldable pub find_subindex : Od → ℕ → ℕ → Option Subindex
find_subindex od index b_subindex = do e ← find_index od index; nth e.p_subindex b_subindex

-- `memcpy(sub->pObject, pSrc, size)`, at the first entry of the index.
abbrev pub overwrite : List ℕ → Option (List ℕ) → Option (List ℕ)
overwrite src none = none
overwrite src (some old) = some (src ++ drop (length src) old)

abbrev pub store_sub : List ℕ → Subindex → Subindex
store_sub src sub = record sub { p_object = overwrite src sub.p_object }

abbrev pub store_at : List Subindex → ℕ → List ℕ → List Subindex
store_at [] i src = []
store_at (s ∷ subs) zero src = store_sub src s ∷ subs
store_at (s ∷ subs) (suc i) src = s ∷ store_at subs i src

unfoldable pub store_object : Od → ℕ → ℕ → List ℕ → Od
store_object [] index b_subindex src = []
store_object (e ∷ od) index b_subindex src =
    let rest = store_object od index b_subindex src in
    if e.index == index
    then record e { p_subindex = store_at e.p_subindex b_subindex src } ∷ od
    else e ∷ rest

-- What precedes an access: the object, or the abort code.
pub data Found : Type 0 where
  missing : ℕ → Found
  found : Subindex → List ℕ → Found

unfoldable pub locate : Od → ℕ → ℕ → Found
locate od index b_subindex = elim (find_index od index) [
  | none ↦ missing abort_no_such_object
  | some e ↦ elim (nth e.p_subindex b_subindex) [
    | none ↦ missing abort_no_such_subindex
    | some sub ↦ elim sub.p_object [
      | none ↦ missing abort_no_such_object
      | some object ↦ found sub object
    ]
  ]
]

-- `canopen_od_read`: the code, the bytes copied to `pDest`, and `*pSize`.
unfoldable pub od_read : Od → ℕ → ℕ → ℕ → ℕ × List ℕ × ℕ
od_read od index b_subindex p_size = elim (locate od index b_subindex) [
  | missing code ↦ (code, [], p_size)
  | found sub object ↦
      if bit_and sub.b_access_type 0x04 == 0 && sub.b_access_type != const_access
      then (abort_read_not_allowed, [], p_size)
      else (od_successful, take (min p_size sub.size) object, sub.size)
]

-- `if (s_post_write_cb != NULL) s_post_write_cb(index, bSubindex, pSrc, size)`
abbrev pub tell :
    {App : Type 0}
    → Option (ℕ → ℕ → List ℕ → World App → World App)
    → ℕ
    → ℕ
    → List ℕ
    → World App
    → World App
tell none index b_subindex src w = w
tell (some post) index b_subindex src w = post index b_subindex src w

module _ {App : Type 0} (cb : Callbacks App) where
  -- The hooks behind a write.
  unfoldable pub note_write : ℕ → ℕ → List ℕ → World App → World App
  note_write index b_subindex src w =
      let told = tell cb.post_write_cb index b_subindex src w in
      if index == 0x6200 || index == 0x6411 then cb.app_sync_outputs told else told

  -- `canopen_od_write` of the bytes `src`.
  unfoldable pub od_write : ℕ → ℕ → List ℕ → World App → ℕ × World App
  od_write index b_subindex src w = elim (locate (od_of w) index b_subindex) [
    | missing code ↦ (code, w)
    | found sub object ↦
        if bit_and sub.b_access_type 0x02 == 0
        then (abort_write_not_allowed, w)
        else if ltb 0 sub.size && ltb sub.size (length src)
        then (abort_data_length_too_high, w)
        else if ltb 0 sub.size && ltb (length src) sub.size
        then (abort_data_length_too_short, w)
        else (
          od_successful,
          note_write index b_subindex src (with_od (store_object (od_of w) index b_subindex src) w),
        )
  ]
