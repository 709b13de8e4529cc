-- ===== src/Tests/Pipeline.antt =====
-- The pipeline of commands with a command in the phase 6 of 8, whose last bits are in the next word.
use litedram.Base.{◌+◌, ◌≡◌, refl, arith, true, false, ◌&&◌, ◌||◌, ◌==◌}
use litedram.Phy.Pipeline
use litedram.Phy.Pipeline.{Settings, Adapters}
use litedram.Phy.Pipeline.Placed.{WellFormed, serial, serial-bits}

abbrev eight : Settings
eight = record { nphases = 8; n_previous = 3 }

abbrev nothing : Adapters
nothing = record { valid = λ q. false; bits = λ q k. false }

-- The bits 0 and 2 are high; the command of phase 7 comes too early.
abbrev two : Adapters
two = record {
  valid = λ q. (q == 6) || (q == 7);
  bits = λ q k. ((q == 6) || (q == 7)) && ((k == 0) || (k == 2));
}

abbrev start : Pipeline.Pipeline
start = record { valids = λ q. false; older = λ q k. false; newer = λ q k. false }

nothing-WellFormed : WellFormed eight nothing
nothing-WellFormed = record { silent = λ q k h. refl; short = λ q k h. refl }

two-WellFormed : WellFormed eight two
two-WellFormed = record { silent = λ q k h. ground arith; short = λ q k h. ground arith }

serial-bits_example :
    let s = Pipeline.step eight nothing start in
    let s1 = Pipeline.step eight two s in
    serial eight s1 (Pipeline.step eight nothing s1) (6 + 2) ≡ true
unfolding Pipeline.allowed Pipeline.step
serial-bits_example =
    serial-bits eight nothing two nothing start 6 2 nothing-WellFormed two-WellFormed (omega arith)
      (omega arith) (omega arith) refl refl
