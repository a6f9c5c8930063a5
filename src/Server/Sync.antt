-- ===== src/Server/Sync.antt =====
-- The board's own sync: what the coils and the inputs drive.
use stm32_automation_board.Common.{
  ℕ, ◌+◌, ◌-◌, ◌^◌, ◌<◌, List, if◌then◌else◌, ◌==◌, ◌≡◌, refl, arith,
}
use stm32_automation_board.Common.Bits.{
  bit, bit-set_bit, bit-clear_bit, pow_byte, bit_or-bound, bit_and-le,
}
use stm32_automation_board.Common.Loops.{for_range, for_range_inv}
use stm32_automation_board.Common.Word.{IsByte}
use stm32_automation_board.Board.{
  Board, do_count, relay_count, with_channel, digital_output_write, relay_set,
  analog_output_write_raw,
}
use stm32_automation_board.Store.{bit_read}
use stm32_automation_board.Store.Bits.{bit_read-lt}
use stm32_automation_board.Server.{Server, app_sync_registers, drive_outputs, drive_analog}

with_channel-IsByte : (x k v : ℕ) → IsByte (with_channel x k v)
unfolding with_channel
with_channel-IsByte x k v = ground arith

bit-with_channel :
    (x k v j : ℕ)
    → IsByte x
    → k < 8
    → j < 8
    → v < 2
    → bit (with_channel x k v) j ≡ (if k == j then v else bit x j)
unfolding with_channel
bit-with_channel x k v j h hk hj hv = ground (
  arith,
  bit_or-bound 8 x (2 ^ k) h (pow_byte k hk),
  bit_and-le x (2 ^ 32 - 1 - 2 ^ k),
  bit-set_bit x k j h hk hj,
  bit-clear_bit x k j h hk hj,
)

-- The first `n` channels of `states` follow the coils.
pub record Follows (coil : ℕ → ℕ) (n states : ℕ) : Type 0 where
  pub byte : IsByte states
  pub follows : (j : ℕ) → j < n → bit states j ≡ coil j

follow_round :
    (coil : ℕ → ℕ) (k states : ℕ)
    → k < 8
    → coil k < 2
    → Follows coil k states
    → Follows coil (k + 1) (with_channel states k (coil k))
follow_round coil k x lt small w = record {
  byte = with_channel-IsByte x k _;
  follows = λ j h.
      ground (arith, bit-with_channel x k (coil k) j w.byte lt (omega arith) small, w.follows j);
}

output_step :
    (i v : ℕ) (b : Board)
    → i < 8
    → digital_output_write i v b
      ≡ record b { digital_output_states = with_channel b.digital_output_states i v }
unfolding digital_output_write
output_step i v b h = ground arith

relay_step :
    (i v : ℕ) (b : Board)
    → i < 4
    → relay_set i v b ≡ record b { relay_states = with_channel b.relay_states i v }
unfolding relay_set
relay_step i v b h = ground arith

outputs_follow :
    (coils : List ℕ) (b : Board)
    → IsByte b.digital_output_states
    → let b' = for_range do_count 0 (λ i b. digital_output_write i (bit_read coils i) b) b in
      Follows (bit_read coils) 8 b'.digital_output_states × (b'.relay_states ≡ b.relay_states)
outputs_follow coils b h =
    for_range_inv
      (λ i b'.
        Follows (bit_read coils) i b'.digital_output_states × (b'.relay_states ≡ b.relay_states))
      (λ i b. digital_output_write i (bit_read coils i) b) 8
      (λ i b' lt w. rw (output_step i (bit_read coils i) b' lt) (
        follow_round (bit_read coils) i b'.digital_output_states lt (bit_read-lt coils i) w.0,
        w.1,
      ))
      8 0 b (omega arith) (record { byte = h; follows = λ j lt. absurd (omega arith) }, refl)

relays_follow :
    (coils : List ℕ) (b : Board)
    → IsByte b.relay_states
    → let coil = λ (i : ℕ). bit_read coils (8 + i) in
      let b' = for_range relay_count 0 (λ i b. relay_set i (bit_read coils (8 + i)) b) b in
      Follows coil 4 b'.relay_states × (b'.digital_output_states ≡ b.digital_output_states)
relays_follow coils b h =
    let coil = λ (i : ℕ). bit_read coils (8 + i) in
    for_range_inv
      (λ i b'.
        Follows coil i b'.relay_states × (b'.digital_output_states ≡ b.digital_output_states))
      (λ i b. relay_set i (bit_read coils (8 + i)) b) 4
      (λ i b' lt w.
        rw (relay_step i (coil i) b' lt)
          (follow_round coil i b'.relay_states (omega arith) (bit_read-lt coils (8 + i)) w.0, w.1))
      4 0 b (omega arith) (record { byte = h; follows = λ j lt. absurd (omega arith) }, refl)

analog_keeps :
    (holding : List ℕ) (b : Board)
    → let b' = drive_analog holding b in
      (b'.digital_output_states ≡ b.digital_output_states) × (b'.relay_states ≡ b.relay_states)
unfolding drive_analog for_range analog_output_write_raw
analog_keeps holding b = (refl, refl)

-- The board's own sync drives each of the eight digital outputs by the coil of its number, and
-- each of the four relays by the coil eight further on.
pub app_sync_registers-Follows :
    (s : Server)
    → IsByte s.board.digital_output_states
    → IsByte s.board.relay_states
    → let b = (app_sync_registers s).board in
      Follows (bit_read s.coil_bits) 8 b.digital_output_states
      × Follows (λ i. bit_read s.coil_bits (8 + i)) 4 b.relay_states
unfolding app_sync_registers drive_outputs
app_sync_registers-Follows s h k =
    let b =
      for_range do_count 0 (λ i b. digital_output_write i (bit_read s.coil_bits i) b) s.board in
    let (outs, kept) = outputs_follow s.coil_bits s.board h in
    let (relays, same) = relays_follow s.coil_bits b (rw kept k) in
    let (d, r) = analog_keeps s.holding_regs (drive_outputs s.coil_bits s.board) in
    rw (d, r, same) (outs, relays)
