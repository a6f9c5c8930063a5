-- ===== src/Event/Log.antt =====
-- The event log holds the last 64 events, most recent first.
use stm32_automation_board.Common.{
  ℕ, zero, suc, ◌+◌, ◌-◌, ◌≤◌, ◌<◌, List, [], ◌∷◌, ◌++◌, Bool, true, false, if◌then◌else◌, ltb,
  ltb→lt, lt→ltb, ltb-false, le→leb, leb-false, leb, ◌≡◌, refl, sym, ap, ◌∙◌, arith, length, get_or,
  set, take, drop, length-set, length-take, take-append, take_all, All-set, All-get_or,
  All-replicate, append_assoc, Bool-cases, inl, inr,
}
use mathlib.Core.List.{reverse, reverse-cons}
use stm32_automation_board.Common.Word.{u8, IsByte, IsBytes, IsWord}
use stm32_automation_board.Event.{
  Event, log_size, shift_log, event_push, event_reset, event_note_restart, event_clear_counter,
  event_note_success, power_up, cleared,
}

-- The log is an array of 64 bytes, of which `log_count` are used; the counter is a word.
pub record IsValid (e : Event) : Type 0 where
  pub size : length e.log ≡ log_size
  pub used : e.log_count ≤ log_size
  pub bytes : IsBytes e.log
  pub word : IsWord e.counter

-- The events that the log reports.
abbrev pub events : Event → List ℕ
events e = take e.log_count e.log

module _ {ℓ} {A : Type ℓ} where
  take-set_ge : (xs : List A) (n i : ℕ) (v : A) → n ≤ i → take n (set xs i v) ≡ take n xs
  take-set_ge xs zero i v h = refl
  take-set_ge [] (suc n) i v h = refl
  take-set_ge (x ∷ xs) (suc n) zero v h = absurd (omega arith)
  take-set_ge (x ∷ xs) (suc n) (suc i) v h = ap (◌∷◌ x) (take-set_ge xs n i v (omega arith))

  drop-set :
      (xs : List A) (i : ℕ) (v : A) → i < length xs → drop i (set xs i v) ≡ v ∷ drop (suc i) xs
  drop-set [] i v h = absurd (omega arith)
  drop-set (x ∷ xs) zero v h = refl
  drop-set (x ∷ xs) (suc i) v h = drop-set xs i v (omega arith)

  take-suc :
      (xs : List A) (i : ℕ) (d : A)
      → i < length xs
      → take (suc i) xs ≡ take i xs ++ get_or xs i d ∷ []
  take-suc [] i d h = absurd (omega arith)
  take-suc (x ∷ xs) zero d h = refl
  take-suc (x ∷ xs) (suc i) d h = ap (◌∷◌ x) (take-suc xs i d (omega arith))

  take-take_le : (n m : ℕ) (xs : List A) → n ≤ m → take n (take m xs) ≡ take n xs
  take-take_le zero m xs h = refl
  take-take_le (suc n) zero xs h = absurd (omega arith)
  take-take_le (suc n) (suc m) [] h = refl
  take-take_le (suc n) (suc m) (x ∷ xs) h = ap (◌∷◌ x) (take-take_le n m xs (omega arith))

  take-append_exact : (n : ℕ) (xs ys : List A) → length xs ≡ n → take n (xs ++ ys) ≡ xs
  take-append_exact n xs ys h = rw (← h) (take-append xs ys)

length-shift_log : (n : ℕ) (log : List ℕ) → length (shift_log n log) ≡ length log
unfolding shift_log
length-shift_log zero log = refl
length-shift_log (suc i) log =
    length-shift_log i (set log (suc i) (get_or log i 0)) ∙ length-set log (suc i) (get_or log i 0)

shift_log-IsBytes : (n : ℕ) (log : List ℕ) → IsBytes log → IsBytes (shift_log n log)
unfolding shift_log
shift_log-IsBytes zero log h = h
shift_log-IsBytes (suc i) log h =
    shift_log-IsBytes i _
      (All-set IsByte log (suc i) _ h (All-get_or IsByte log i 0 h (omega arith)))

-- Shifting `n` places and writing the front inserts the byte and drops the one at `n`.
shift_log_insert :
    (n : ℕ) (log : List ℕ) (b : ℕ)
    → n < length log
    → set (shift_log n log) 0 b ≡ b ∷ (take n log ++ drop (suc n) log)
unfolding shift_log
shift_log_insert zero [] b h = absurd (omega arith)
shift_log_insert zero (x ∷ log) b h = refl
shift_log_insert (suc i) log b h =
    shift_log_insert i moved b (omega (arith, length-set log (suc i) (get_or log i 0)))
    ∙ rw (
      take-set_ge log i (suc i) (get_or log i 0) (omega arith),
      drop-set log (suc i) (get_or log i 0) h,
      take-suc log i 0 (omega arith),
      append_assoc (take i log) (get_or log i 0 ∷ []) (drop (suc (suc i)) log),
    )
  where
    moved : List ℕ
    moved = set log (suc i) (get_or log i 0)

event_push_room :
    (b : ℕ) (e : Event)
    → e.log_count < log_size
    → event_push b e
      ≡ record e { log = set (shift_log e.log_count e.log) 0 b; log_count = u8 (e.log_count + 1) }
unfolding event_push
event_push_room b e h = rw (leb-false log_size e.log_count h, lt→ltb _ _ h)

event_push_full :
    (b : ℕ) (e : Event)
    → e.log_count ≡ log_size
    → event_push b e ≡ record e { log = set (shift_log 63 e.log) 0 b }
unfolding event_push
event_push_full b e h =
    rw (le→leb log_size e.log_count (omega arith), ltb-false e.log_count log_size (omega arith))

suc_count : {c : ℕ} → c < log_size → u8 (c + 1) ≡ suc c
suc_count h = omega arith

taken : {e : Event} (n : ℕ) → n ≤ log_size → IsValid e → length (take n e.log) ≡ n
taken {e} n h v = omega (arith, length-take n e.log, v.size)

-- A push puts the event in front of the log, and drops the oldest one when 64 are there.
pub events-event_push :
    (b : ℕ) (e : Event) → IsValid e → events (event_push b e) ≡ take log_size (b ∷ events e)
events-event_push b e v = elim (Bool-cases (ltb e.log_count log_size)) [
  | inl room ↦
      let h : e.log_count < log_size = ltb→lt _ _ room in
      rw (event_push_room b e h, shift_log_insert e.log_count e.log b (omega (arith, v.size)))
        (rw (suc_count h) (
          ap (◌∷◌ b) (
            take-append_exact c (take c e.log) _ (taken c (omega arith) v)
            ∙ sym (take_all 63 (take c e.log) (omega (arith, taken c (omega arith) v))))))
  | inr full ↦
      let h : e.log_count ≡ log_size = ground (arith, v.used) in
      rw (event_push_full b e h, shift_log_insert 63 e.log b (omega (arith, v.size)))
        (rw h (
          ap (◌∷◌ b) (
            take-append_exact 63 (take 63 e.log) _ (taken 63 (omega arith) v)
            ∙ sym (take-take_le 63 64 e.log (omega arith)))))
]
  where
    c : ℕ
    c = e.log_count

pub event_push-IsValid : (b : ℕ) (e : Event) → IsByte b → IsValid e → IsValid (event_push b e)
unfolding event_push
event_push-IsValid b e h v = record {
  size = length-set (shift_log n e.log) 0 b ∙ length-shift_log n e.log ∙ v.size;
  used = ground (arith, v.used);
  bytes = All-set IsByte (shift_log n e.log) 0 b (shift_log-IsBytes n e.log v.bytes) h;
  word = v.word;
}
  where
    n : ℕ
    n = if leb log_size e.log_count then log_size - 1 else e.log_count

cleared-IsValid : (e : Event) → IsValid e → IsValid (record (cleared e) { counter = 0 })
cleared-IsValid e v = record {
  size = refl;
  used = omega arith;
  bytes = All-replicate IsByte log_size 0 (omega arith);
  word = omega arith;
}

pub power_up-IsValid : IsValid power_up
power_up-IsValid = record {
  size = refl;
  used = omega arith;
  bytes = All-replicate IsByte log_size 0 (omega arith);
  word = omega arith;
}

pub event_reset-IsValid : (e : Event) → IsValid e → IsValid (event_reset e)
unfolding event_reset
event_reset-IsValid e v = event_push-IsValid 0 _ (omega arith) (cleared-IsValid e v)

pub event_clear_counter-IsValid : (e : Event) → IsValid e → IsValid (event_clear_counter e)
unfolding event_clear_counter
event_clear_counter-IsValid e v = record {
  size = v.size;
  used = v.used;
  bytes = v.bytes;
  word = omega arith;
}

pub event_note_success-IsValid : (e : Event) → IsValid e → IsValid (event_note_success e)
unfolding event_note_success
event_note_success-IsValid e v = record {
  size = v.size;
  used = v.used;
  bytes = v.bytes;
  word = omega arith;
}

pub event_note_restart-IsValid :
    (clear_log : Bool) (e : Event) → IsValid e → IsValid (event_note_restart clear_log e)
unfolding event_note_restart event_clear_counter
event_note_restart-IsValid true e v = event_push-IsValid 0 _ (omega arith) (cleared-IsValid e v)
event_note_restart-IsValid false e v =
    event_push-IsValid 0 _ (omega arith) (event_clear_counter-IsValid e v)

-- A history of pushes, oldest first.
unfoldable pub push_all : List ℕ → Event → Event
push_all [] e = e
push_all (b ∷ bs) e = push_all bs (event_push b e)

push_all-IsValid : (bs : List ℕ) (e : Event) → IsBytes bs → IsValid e → IsValid (push_all bs e)
unfolding push_all
push_all-IsValid [] e h v = v
push_all-IsValid (b ∷ bs) e h v = push_all-IsValid bs _ h.1 (event_push-IsValid b e h.0 v)

take_front : (n m : ℕ) (xs ys : List ℕ) → n ≤ m → take n (xs ++ take m ys) ≡ take n (xs ++ ys)
take_front n m [] ys h = take-take_le n m ys h
take_front zero m (x ∷ xs) ys h = refl
take_front (suc n) m (x ∷ xs) ys h = ap (◌∷◌ x) (take_front n m xs ys (omega arith))

-- However many events are pushed, the log reports the last 64 of them before the older ones.
pub events-push_all :
    (bs : List ℕ) (e : Event)
    → IsBytes bs
    → IsValid e
    → events (push_all bs e) ≡ take log_size (reverse bs ++ events e)
unfolding push_all
events-push_all [] e h v =
    sym (take_all log_size (events e) (omega (arith, length-take e.log_count e.log, v.used)))
events-push_all (b ∷ bs) e h v =
    events-push_all bs (event_push b e) h.1 (event_push-IsValid b e h.0 v)
    ∙ rw (events-event_push b e v) (
        take_front log_size log_size (reverse bs) (b ∷ events e) (omega arith)
        ∙ ap (take log_size)
            (rw (reverse-cons b bs) (sym (append_assoc (reverse bs) (b ∷ []) (events e)))))

-- A restart leaves its event alone in the log, or in front of the older ones.
pub events-event_note_restart :
    (clear_log : Bool) (e : Event)
    → IsValid e
    → events (event_note_restart clear_log e)
      ≡ (if clear_log then 0 ∷ [] else take log_size (0 ∷ events e))
unfolding event_note_restart event_clear_counter
events-event_note_restart true e v = events-event_push 0 _ (cleared-IsValid e v)
events-event_note_restart false e v = events-event_push 0 _ (event_clear_counter-IsValid e v)

pub counter-event_note_restart :
    (clear_log : Bool) (e : Event) → (event_note_restart clear_log e).counter ≡ 0
unfolding event_note_restart event_push
counter-event_note_restart true e = refl
counter-event_note_restart false e = refl
