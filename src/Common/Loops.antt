-- ===== src/Common/Loops.antt =====
-- Counted loops.
use Prim.Native.Nat.{ℕ, zero, suc, ◌+◌, ◌<◌}
use mathlib.Core.Path.{◌≡◌}
use native.Mathlib.Omega.{arith}

-- `for (k = first; k < first + rounds; k++) state = body(k, state)`
unfoldable pub for_range {ℓ} : {State : Type ℓ} → ℕ → ℕ → (ℕ → State → State) → State → State
for_range zero first body state = state
for_range (suc rounds) first body state = for_range rounds (first + 1) body (body first state)

-- An invariant of the loop: it may speak of the counter, whose last value is `stop`.
pub for_range_inv {ℓ κ} :
    {State : Type ℓ} (Inv : ℕ → State → Type κ) (body : ℕ → State → State) (stop : ℕ)
    → ((now : ℕ) (state : State) → now < stop → Inv now state → Inv (now + 1) (body now state))
    → (rounds first : ℕ) (state : State) → first + rounds ≡ stop
    → Inv first state
    → Inv stop (for_range rounds first body state)
unfolding for_range
for_range_inv Inv body stop keep zero first state count start =
    let over : first ≡ stop = omega arith in rw (← over) start
for_range_inv Inv body stop keep (suc rounds) first state count start =
    let next = keep first state (omega arith) start in
    for_range_inv Inv body stop keep rounds (first + 1) (body first state) (omega arith) next
