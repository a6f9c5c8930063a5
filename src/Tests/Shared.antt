-- ===== src/Tests/Shared.antt =====
-- The dispatcher and the reading function codes.
use stm32_automation_board.Common.{
  ℕ, List, [], ◌∷◌, false, ◌≡◌, ◌==◌, if◌then◌else◌, inl, refl, arith, get_or, some,
}
use stm32_automation_board.Common.Word.{be16, are_bytes-IsBytes}
use stm32_automation_board.Server.{no_hooks}
use stm32_automation_board.Server.Valid.{no_hooks-IsSafe}
use stm32_automation_board.Fc.{start_of, quantity_of, exception_response}
use stm32_automation_board.Store.{address_range_valid}
use stm32_automation_board.Fc.Writes.{write_single_register}
use stm32_automation_board.Fc.Reads.{read_bits}
use stm32_automation_board.Fc.Reads.Bits.{IsBitsAnswer, bits_of, read_bits_lem}
use stm32_automation_board.Pdu.{Answer, pdu_switch, pdu_process}
use stm32_automation_board.Pdu.Valid.{IsServed, pdu_process-IsServed}
use stm32_automation_board.Pdu.Errors.{pdu_process-exception_untouched}
use stm32_automation_board.Tests.{station, station-IsValid}

abbrev read_coils : List ℕ
read_coils = 0x01 ∷ 0x00 ∷ 0x13 ∷ 0x00 ∷ 0x25 ∷ []

-- Write Single Register beyond the table.
abbrev write_beyond : List ℕ
write_beyond = 0x06 ∷ 0x01 ∷ 0x00 ∷ 0x00 ∷ 0x03 ∷ []

pdu_process-IsServed_example :
    (a : Answer) × (pdu_process no_hooks station read_coils false ≡ some a) × IsServed false a
pdu_process-IsServed_example =
    pdu_process-IsServed no_hooks station read_coils false no_hooks-IsSafe station-IsValid
      (are_bytes-IsBytes read_coils refl) (omega arith) (omega arith)

abbrev refused : Answer
refused = record { server = station; built = 0x86 ∷ 0x02 ∷ []; tx_pdu_len = 2 }

pdu_process-exception_untouched_example : refused.server ≡ station
unfolding pdu_process pdu_switch write_single_register quantity_of address_range_valid start_of be16
    exception_response
pdu_process-exception_untouched_example =
    pdu_process-exception_untouched no_hooks station write_beyond false refused 0x02 (omega arith)
      (omega arith) refl refl

read_bits_lem_example :
    let (s', answer) = read_bits station 0x01 read_coils in
    IsBitsAnswer (bits_of station 0x01) 19 37 answer
    × (get_or answer 0 0 ≡ 0x01)
    × (s' ≡ (
        if 0x01 == 0x01 then station else record station { discrete_bits = bits_of station 0x01 }))
unfolding start_of quantity_of be16
read_bits_lem_example = read_bits_lem station 0x01 read_coils 19 37 (inl refl) (record {
  size = refl;
  start_word = refl;
  quantity_word = refl;
  some_bit = omega arith;
  in_table = omega arith;
})
