-- ===== src/Tests/Timings.antt =====
-- The timing controllers of litedram/common.py on short histories.
use litedram.Base.{
  ◌≤◌, ◌≡◌, refl, arith, Bool, true, false, some, List, [], ◌∷◌, ◌==◌, take, popcount,
}
use litedram.Common.Txxd
use litedram.Common.Txxd.Delay.{cycles_left, ready-cycles_left}
use litedram.Common.Faw
use litedram.Common.Faw.Window.{Guarded, at_most_four_activates}

-- `ready` comes back three cycles after the command, with tXXD of 3.
ready_after_three : (Txxd.run (some 3) 2 (false ∷ false ∷ true ∷ [])).ready ≡ true
unfolding Txxd.run Txxd.step Txxd.reset Txxd.count_step
ready_after_three = refl

not_ready_after_two : (Txxd.run (some 3) 2 (false ∷ true ∷ [])).ready ≡ false
unfolding Txxd.run Txxd.step Txxd.reset Txxd.count_step
not_ready_after_two = refl

ready-cycles_left_example :
    (Txxd.run (some 3) 2 (false ∷ true ∷ [])).ready ≡ (cycles_left 3 2 (false ∷ true ∷ []) == 0)
ready-cycles_left_example =
    ready-cycles_left 3 2 (false ∷ true ∷ []) (omega arith) (omega arith) (omega arith)

-- Four activates in a row, which block the fifth.
abbrev four : List Bool
four = true ∷ true ∷ true ∷ true ∷ []

four-Guarded : Guarded 6 3 four
unfolding Faw.run Faw.step Faw.reset Faw.count Faw.next_ready
four-Guarded = ((λ e. refl), ((λ e. refl), ((λ e. refl), ((λ e. refl), tt))))

four-blocked : (Faw.run (some 6) 3 four).ready ≡ false
unfolding Faw.run Faw.step Faw.reset Faw.count Faw.next_ready
four-blocked = refl

at_most_four_activates_example : popcount (take 6 four) ≤ 4
at_most_four_activates_example = at_most_four_activates 6 3 four (omega arith) four-Guarded
