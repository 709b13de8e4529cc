-- ===== src/Init/Lpddr4.antt =====
-- `get_lpddr4_phy_init_sequence` of litedram/init.py. Reference voltages are tenths of a percent, and
-- the delays are what `ck` computes at its fixed 200 MHz.
pub mod Tables
pub mod Mode
use litedram.Base.{
  ℕ, ◌^◌, max, Bool, Option, none, some, List, [], ◌∷◌, ◌++◌, ◌==◌, if◌then◌else◌, ltb,
}
use litedram.Phy.Lpddr4.Commands.{special_mpc, zqc_start, zqc_latch}
use litedram.Init.Table.{Table, lookup, ◌>>=◌}
use litedram.Init.Electrical.{get_or}
use litedram.Init.Register.{Field, reg}
use litedram.Init.Sequence
use litedram.Init.Sequence.{Init, Step, at}
use litedram.Init.Lpddr4.Tables.{
  Odt, odt_map, get_nwr, nwr_to_mr1, cl_to_mr2, cwl_to_mr2, vref_ranges,
}

pub record Settings : Type 0 where
  pub cl : ℕ
  pub cwl : ℕ
  pub dq_odt : Option Odt
  pub ca_odt : Option Odt
  pub pull_down_drive_strength : Option Odt
  pub vref_ca_range : Option ℕ
  pub vref_ca : Option ℕ
  pub vref_dq_range : Option ℕ
  pub vref_dq : Option ℕ

abbrev pub field : (shift width val : ℕ) → Field
field shift width val = record { shift = shift; width = width; val = val }

unfoldable pub mr1 : (cl cwl : ℕ) → Option ℕ
mr1 cl cwl = do
  nwr ← get_nwr cl cwl
  n ← lookup nwr nwr_to_mr1
  reg (field 0 2 0b00 ∷ field 2 1 1 ∷ field 3 1 0 ∷ field 4 3 n ∷ field 7 1 0 ∷ [])

unfoldable pub mr2_of : (rl wl : ℕ) → Option ℕ
mr2_of rl wl = reg (field 0 3 rl ∷ field 3 3 wl ∷ field 6 1 0 ∷ field 7 1 0 ∷ [])

unfoldable pub mr2 : (cl cwl : ℕ) → Option ℕ
mr2 cl cwl = do rl ← lookup cl cl_to_mr2; wl ← lookup cwl cwl_to_mr2; mr2_of rl wl

unfoldable pub mr3 : Odt → Option ℕ
mr3 pull_down_drive_strength = do
  strength ← odt_map pull_down_drive_strength
  reg (
      field 0 1 1 ∷ field 1 1 0 ∷ field 2 1 0 ∷ field 3 3 strength ∷ field 6 1 0 ∷ field 7 1 0 ∷ [])

unfoldable pub mr11 : (dq_odt ca_odt : Odt) → Option ℕ
mr11 dq_odt ca_odt = do
  dq ← odt_map dq_odt
  ca ← odt_map ca_odt
  reg (field 0 3 dq ∷ field 4 3 ca ∷ [])

-- MR12 and MR14.
unfoldable pub vref_of : (range code : ℕ) → Option ℕ
vref_of range code = reg (field 0 6 code ∷ field 6 1 range ∷ [])

unfoldable pub mr_vref : (range vref : ℕ) → Option ℕ
mr_vref range vref = do code ← vref_ranges range vref; vref_of range code

-- `cmd_mr`, with its assertions.
unfoldable pub cmd_mr : ℕ → ℕ → Option Step
cmd_mr ma op =
    if ltb ma (2 ^ 6)
    then (if ltb op (2 ^ 8) then some (at op ma Sequence.mode_register 200) else none)
    else none

unfoldable pub cmds_of : Table → Option (List Step)
unfolding cmd_mr
cmds_of [] = some []
cmds_of ((ma, op) ∷ mr) = do step ← cmd_mr ma op; steps ← cmds_of mr; some (step ∷ steps)

-- The dictionary `mr` in the order of its keys.
unfoldable pub mode_registers : Settings → Option Table
unfolding mr1 mr2 mr3 mr11 mr_vref
mode_registers s = do
  m1 ← mr1 s.cl s.cwl
  m2 ← mr2 s.cl s.cwl
  m3 ← mr3 (get_or s.pull_down_drive_strength (Odt.rzq 2))
  m11 ← mr11 (get_or s.dq_odt (Odt.rzq 2)) (get_or s.ca_odt (Odt.rzq 2))
  m12 ← mr_vref (get_or s.vref_ca_range 1) (get_or s.vref_ca 304)
  m14 ← mr_vref (get_or s.vref_dq_range 1) (get_or s.vref_dq 304)
  some ((1, m1) ∷ (2, m2) ∷ (3, m3) ∷ (11, m11) ∷ (12, m12) ∷ (13, 0) ∷ (14, m14) ∷ [])

-- The steps around those of the mode registers, and the dictionary.
abbrev pub sequence_with : List Step → Table → Init
sequence_with steps mr = record {
  sequence =
      at 0x0000 0 Sequence.odt_only 20
      ∷ at 0x0000 0 Sequence.unreset 400000
      ∷ at 0x0000 0 Sequence.cke 400
      ∷ (steps
          ++ (at zqc_start special_mpc Sequence.zq_calibration 200
              ∷ at zqc_latch special_mpc Sequence.zq_calibration (max 8 6)
              ∷ []));
  mr = mr;
}

unfoldable pub get_lpddr4_phy_init_sequence : Settings → Option Init
unfolding mode_registers cmds_of
get_lpddr4_phy_init_sequence s = do
  mr ← mode_registers s
  steps ← cmds_of mr
  some (sequence_with steps mr)
