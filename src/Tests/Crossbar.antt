-- ===== src/Tests/Crossbar.antt =====
-- The addresses of litedram/common.py, the delays, the slips of bits and the crossbar of litedram/core/crossbar.py.
use litedram.Base.{
  Bool, ◌+◌, ◌++◌, take, drop, ◌≡◌, refl, arith, ℕ, true, false, List, [], ◌∷◌, nth,
}
use litedram.Common.Port.{get_bank_address, get_row_column_address, join, join-get}
use litedram.Common.DelayLine
use litedram.Common.BitSlip
use litedram.Common.BitSlip.{output-stream, position, stream, words}
use litedram.Core.Crossbar
use litedram.Core.Crossbar.Routing.{lock_excludes}

-- Two bits of bank above two bits of column, in an address of six bits.
splits : (get_bank_address 45 2 2 ≡ 3) × (get_row_column_address 45 2 4 2 ≡ 9)
unfolding get_bank_address get_row_column_address
splits = (refl, refl)

join-get_example : join (get_bank_address 45 2 2) (get_row_column_address 45 2 4 2) 2 2 ≡ 45
join-get_example = join-get 45 2 4 2 (omega arith) (omega arith)

abbrev inputs : List ℕ
inputs = 8 ∷ 7 ∷ 6 ∷ []

seven : DelayLine.output 0 2 9 (DelayLine.run 0 2 inputs) ≡ nth 0 (9 ∷ inputs) 2
unfolding DelayLine.output DelayLine.run DelayLine.step
seven = refl

-- Two banks that master 0 has, of which the second holds its lock.
abbrev two_banks : Crossbar.Settings
two_banks = record { bank_bits = 1; rca_bits = 4; cba_shift = 2 }

abbrev banks : List Crossbar.Bank
banks =
    record { grant = 0; ready = true; lock = false; wdata_ready = false; rdata_valid = false }
    ∷ record { grant = 0; ready = true; lock = true; wdata_ready = false; rdata_valid = false }
    ∷ []

abbrev to_first : Crossbar.Master
to_first = record { valid = true; we = false; addr = 8 }

abbrev to_second : Crossbar.Master
to_second = record { valid = true; we = false; addr = 4 }

lock_excludes_example : (Crossbar.bank_command two_banks banks 0 0 to_first).valid ≡ false
lock_excludes_example =
    lock_excludes two_banks banks 0 1 0 to_first
      (record { grant = 0; ready = true; lock = true; wdata_ready = false; rdata_valid = false })
      (λ e. omega (arith, e)) refl refl refl

-- Words of two bits, of which two fit a delay of up to three bits, after one slip.
abbrev pairs : BitSlip.Settings
pairs = record { dw = 2; cycles = 2; value_width = 2 }

abbrev pair_of : Bool → Bool → Bool → BitSlip.Inputs
pair_of slp a b = record { slp = slp; rst = false; word = a ∷ b ∷ [] }

abbrev before : List Bool
before = false ∷ false ∷ false ∷ false ∷ false ∷ false ∷ []

abbrev pairs_in : List BitSlip.Inputs
pairs_in = pair_of false true true ∷ pair_of false false true ∷ pair_of true true false ∷ []

slipped : BitSlip.output pairs (BitSlip.run pairs before pairs_in) ≡ false ∷ false ∷ []
unfolding BitSlip.output BitSlip.run BitSlip.step
slipped = refl

output-stream_example :
    BitSlip.output pairs (BitSlip.run pairs before pairs_in)
    ≡ take 2 (drop (6 + (position pairs pairs_in + 1)) (before ++ stream (words pairs_in)))
unfolding BitSlip.run BitSlip.step
output-stream_example =
    output-stream pairs before pairs_in (refl, (refl, (refl, tt))) (omega arith) (omega arith)
      (omega arith)
