-- ===== src/Phy/Lpddr4/Bringup/Sequence.antt =====
-- The whole sequence of `get_lpddr4_phy_init_sequence` of litedram/init.py in the simulated chip.
use litedram.Base.{ℕ, ◌≡◌, Bool, List, [], ◌∷◌, max}
use litedram.Init.Electrical.{get_or}
use litedram.Init.Table.{Table}
use litedram.Init.Sequence.{Step, Init, at, loaded, zq_calibration}
use litedram.Phy.Dfi
use litedram.Phy.Lpddr4.Commands.{zqc_start, zqc_latch, special_mpc}
use litedram.Phy.Lpddr4.Chip.{InitState, Sim}
use litedram.Phy.Lpddr4.Decoded.{View}
use litedram.Phy.Lpddr4.Decoded.Stream.{cycles, frames}
use litedram.Phy.Lpddr4.Bringup.{sequence_phases}

abbrev calibration : List Step
calibration =
    at zqc_start special_mpc zq_calibration 200
    ∷ at zqc_latch special_mpc zq_calibration (max 8 6)
    ∷ []

module _ (init_delays m : Bool) (gap : ℕ) where
  -- The simulator after the phases of some steps.
  abbrev performed : List Step → Sim → Sim
  performed ss s = cycles init_delays (frames m (sequence_phases gap ss)) s

-- What the sequence leaves in a chip.
abbrev BroughtUp : Init → Sim → View → Type 0
BroughtUp init s v =
    (s.fsm ≡ InitState.normal)
    × (s.chip.log ≡ v.log)
    × ((k : ℕ) → s.chip.device.mode_regs k ≡ get_or (loaded k init.sequence) (v.device.mode_regs k))
