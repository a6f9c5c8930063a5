-- ===== src/Canopen/Objects.antt =====
-- What a write of an object changes in the dictionary: the object, and no other.
use stm32_automation_board.Common.{
  bit_and, ℕ, zero, suc, List, [], ◌∷◌, ◌++◌, ltb, ◌&&◌, false, ◌==◌, ◌≡◌, ◌≢◌, ◌⊎◌, inl, inr, refl,
  sym, ap, ◌∙◌, arith, length, drop, Option, none, some, Bool-cases, Option-cases,
}
use stm32_automation_board.Canopen.Types.{
  Subindex, Indextable, Od, World, Callbacks, od_of, with_od,
}
use stm32_automation_board.Canopen.Dictionary.{
  od_write, note_write, od_successful, find_index, nth, store_sub, store_at, store_object,
  overwrite, Found, missing, found, locate,
}

pub Found-cases :
    (f : Found)
    → ((code : ℕ) × (f ≡ missing code))
      ⊎ ((sub : Subindex) × (object : List ℕ) × (f ≡ found sub object))
Found-cases (missing code) = inl (code, refl)
Found-cases (found sub object) = inr (sub, object, refl)

-- An object that is found stands in the first entry of its index.
pub record IsAt (od : Od) (index b_subindex : ℕ) (sub : Subindex) (object : List ℕ) : Type 0 where
  pub entry : Indextable
  pub first : find_index od index ≡ some entry
  pub there : nth entry.p_subindex b_subindex ≡ some sub
  pub object_of : sub.p_object ≡ some object

pub locate-IsAt :
    (od : Od) (index b_subindex : ℕ) (sub : Subindex) (object : List ℕ)
    → locate od index b_subindex ≡ found sub object
    → IsAt od index b_subindex sub object
unfolding locate
locate-IsAt od index b_subindex sub object e = elim (Option-cases (find_index od index)) [
  | inl n ↦ let no = rw (locate, n) at e in absurd (ground arith)
  | inr (entry, h) ↦ elim (Option-cases (nth entry.p_subindex b_subindex)) [
    | inl n ↦ let no = rw (locate, h, n) at e in absurd (ground arith)
    | inr (s, k) ↦ elim (Option-cases s.p_object) [
      | inl n ↦ let no = rw (locate, h, k, n) at e in absurd (ground arith)
      | inr (o, p) ↦
          let got : found s o ≡ found sub object = rw (locate, h, k, p) at e in
          let same_sub : s ≡ sub = cc in
          let same_object : o ≡ object = cc in
          record {
            entry = entry;
            first = h;
            there = k ∙ ap some same_sub;
            object_of = ap (λ (s : Subindex). s.p_object) (sym same_sub) ∙ p ∙ ap some same_object;
          }
    ]
  ]
]

IsAt-locate :
    (od : Od) (index b_subindex : ℕ) (sub : Subindex) (object : List ℕ)
    → IsAt od index b_subindex sub object
    → locate od index b_subindex ≡ found sub object
unfolding locate
IsAt-locate od index b_subindex sub object a = simp (locate, a.first, a.there, a.object_of) refl

nth-store_at :
    (subs : List Subindex) (i : ℕ) (src : List ℕ) (sub : Subindex)
    → nth subs i ≡ some sub
    → nth (store_at subs i src) i ≡ some (store_sub src sub)
nth-store_at [] i src sub e = absurd (ground arith)
nth-store_at (s ∷ subs) zero src sub e =
    let same : s ≡ sub = cc in ap (λ s. some (store_sub src s)) same
nth-store_at (s ∷ subs) (suc i) src sub e = nth-store_at subs i src sub e

nth-store_at_ne :
    (subs : List Subindex) (i j : ℕ) (src : List ℕ)
    → i ≢ j
    → nth (store_at subs i src) j ≡ nth subs j
nth-store_at_ne [] i j src h = refl
nth-store_at_ne (s ∷ subs) zero zero src h = absurd (h refl)
nth-store_at_ne (s ∷ subs) zero (suc j) src h = refl
nth-store_at_ne (s ∷ subs) (suc i) zero src h = refl
nth-store_at_ne (s ∷ subs) (suc i) (suc j) src h = nth-store_at_ne subs i j src (λ e. h (ap suc e))

abbrev stored : ℕ → List ℕ → Option Indextable → Option Indextable
stored i src none = none
stored i src (some e) = some (record e { p_subindex = store_at e.p_subindex i src })

find_index-store_object :
    (od : Od) (index i : ℕ) (src : List ℕ)
    → find_index (store_object od index i src) index ≡ stored i src (find_index od index)
unfolding find_index store_object
find_index-store_object [] index i src = refl
find_index-store_object (e ∷ od) index i src = elim (Bool-cases (e.index == index)) [
  | inl same ↦ rw (same, same) refl
  | inr other ↦ rw (other, other) (find_index-store_object od index i src)
]

find_index-store_object_ne :
    (od : Od) (index other i : ℕ) (src : List ℕ)
    → index ≢ other
    → find_index (store_object od index i src) other ≡ find_index od other
unfolding find_index store_object
find_index-store_object_ne [] index other i src h = refl
find_index-store_object_ne (e ∷ od) index other i src h =
    let rest = find_index-store_object_ne od index other i src h in ground (arith, rest)

-- The object that was written is found with the bytes written in front.
pub locate-store_object :
    (od : Od) (index i : ℕ) (src : List ℕ) (sub : Subindex) (object : List ℕ)
    → locate od index i ≡ found sub object
    → locate (store_object od index i src) index i
      ≡ found (store_sub src sub) (src ++ drop (length src) object)
locate-store_object od index i src sub object e =
    let a = locate-IsAt od index i sub object e in
    IsAt-locate (store_object od index i src) index i (store_sub src sub)
      (src ++ drop (length src) object)
      (record {
        entry = record a.entry { p_subindex = store_at a.entry.p_subindex i src };
        first = find_index-store_object od index i src ∙ ap (stored i src) a.first;
        there = nth-store_at a.entry.p_subindex i src sub a.there;
        object_of = ap (overwrite src) a.object_of;
      })

-- Every other object is found as before.
pub locate-store_object_ne :
    (od : Od) (index i : ℕ) (src : List ℕ) (other j : ℕ)
    → (index ≢ other) ⊎ (i ≢ j)
    → locate (store_object od index i src) other j ≡ locate od other j
unfolding locate
locate-store_object_ne od index i src other j (inl h) =
    rw (locate, find_index-store_object_ne od index other i src h) refl
locate-store_object_ne od index i src other j (inr h) = elim (Bool-cases (index == other)) [
  | inr apart ↦
      rw (locate, find_index-store_object_ne od index other i src (ground (arith, apart))) refl
  | inl one ↦
      let same : index ≡ other = ground (arith, one) in
      let kept = find_index-store_object od index i src in
      rw (← same) (elim (Option-cases (find_index od index)) [
        | inl n ↦ rw (locate, kept, n) refl
        | inr (e, k) ↦ rw (locate, kept, k, nth-store_at_ne e.p_subindex i j src h) refl
      ])
]

pub od_of-with_od : {App : Type 0} (od : Od) (w : World App) → od_of (with_od od w) ≡ od
od_of-with_od od w = ground arith

module _ {App : Type 0} (cb : Callbacks App) where
  -- The dictionary takes a write of the right size to a writable object.
  pub od_write-accepted :
      (index b_subindex : ℕ) (src : List ℕ) (sub : Subindex) (object : List ℕ) (w : World App)
      → locate (od_of w) index b_subindex ≡ found sub object
      → bit_and sub.b_access_type 0x02 ≢ 0
      → sub.size ≡ length src
      → od_write cb index b_subindex src w ≡ (
        od_successful,
        note_write cb index b_subindex src
            (with_od (store_object (od_of w) index b_subindex src) w),
      )
  unfolding od_write
  od_write-accepted index b_subindex src sub object w there writable size =
      let may : (bit_and sub.b_access_type 0x02 == 0) ≡ false = ground (arith, writable) in
      let long : (ltb 0 sub.size && ltb sub.size (length src)) ≡ false = ground (arith, size) in
      let short : (ltb 0 sub.size && ltb (length src) sub.size) ≡ false = ground (arith, size) in
      simp (od_write, there, may, long, short) refl
