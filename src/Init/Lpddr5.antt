-- ===== src/Init/Lpddr5.antt =====
-- `get_lpddr5_phy_init_sequence` of litedram/init.py, with the frequency ranges of
-- litedram/phy/lpddr5/basephy.py. Reference voltages are multiples of half a percent, on which the
-- rounding of `get_vref` does nothing; the delays are what `ck` computes at its fixed 200 MHz.
pub mod Clocks
pub mod Mode
use litedram.Base.{
  ℕ, ◌+◌, ◌-◌, ◌^◌, max, Bool, ◌&&◌, Option, none, some, List, [], ◌∷◌, ◌++◌, ◌==◌, if◌then◌else◌,
  ltb, leb,
}
use litedram.Phy.Lpddr5.Commands.{special_mpc, special_nop, zqc_latch}
use litedram.Init.Table.{Table, lookup, ◌>>=◌}
use litedram.Init.Electrical.{get_or}
use litedram.Init.Register.{Field, reg}
use litedram.Init.Sequence
use litedram.Init.Sequence.{Init, Step, at}
use litedram.Init.Lpddr4.{field}
use litedram.Init.Lpddr4.Tables.{Odt, odt_map}

pub record Settings : Type 0 where
  pub cl : ℕ
  pub cwl : ℕ
  pub wck_ck_ratio : ℕ
  pub dq_odt : Option Odt
  pub pull_down_drive_strength : Option Odt
  pub soc_odt : Option Odt
  pub wck_odt : Option Odt
  pub vref_ca : Option ℕ
  pub vref_dq : Option ℕ

-- `FreqRange` for the sets "A" and 0, as far as it is read.
pub record FreqRange : Type 0 where
  pub mr : ℕ
  pub wl : ℕ
  pub rl : ℕ
  pub n_wr_op : ℕ

abbrev range : (mr wl rl n_wr_op : ℕ) → FreqRange
range mr wl rl n_wr_op = record { mr = mr; wl = wl; rl = rl; n_wr_op = n_wr_op }

abbrev pub frequency_ranges : ℕ → List FreqRange
frequency_ranges ratio =
    if ratio == 2
    then range 0b0000 4 6 0b0000
      ∷ range 0b0001 4 8 0b0001
      ∷ range 0b0010 6 10 0b0010
      ∷ range 0b0011 8 12 0b0011
      ∷ range 0b0100 8 16 0b0100
      ∷ range 0b0101 10 18 0b0101
      ∷ []
    else if ratio == 4
    then range 0b0000 2 3 0b0000
      ∷ range 0b0001 2 4 0b0001
      ∷ range 0b0010 3 5 0b0010
      ∷ range 0b0011 4 6 0b0011
      ∷ range 0b0100 4 8 0b0100
      ∷ range 0b0101 5 9 0b0101
      ∷ range 0b0110 6 10 0b0110
      ∷ range 0b0111 6 12 0b0111
      ∷ range 0b1000 7 13 0b1000
      ∷ range 0b1001 8 15 0b1001
      ∷ range 0b1010 9 16 0b1010
      ∷ range 0b1011 9 17 0b1011
      ∷ []
    else []

-- `get_frange`: the first range with both latencies, in the ranges of a ratio.
unfoldable pub get_frange : (wl rl : ℕ) → List FreqRange → Option FreqRange
get_frange wl rl [] = none
get_frange wl rl (f ∷ fs) =
    let rest = get_frange wl rl fs in if (f.wl == wl) && (f.rl == rl) then some f else rest

-- `get_vref`, from half percents.
unfoldable pub get_vref : ℕ → Option ℕ
get_vref v = if leb 30 v && leb v 147 then some (v - 20) else none

unfoldable pub mr1 : FreqRange → Option ℕ
mr1 f = reg (field 3 1 0 ∷ field 4 4 f.mr ∷ [])

unfoldable pub mr2 : FreqRange → Option ℕ
mr2 f = reg (field 0 4 f.mr ∷ field 4 4 f.n_wr_op ∷ [])

-- `BankOrganization.B16`.
abbrev bank_organization_b16 : ℕ
bank_organization_b16 = 0b10

unfoldable pub mr3 : Odt → Option ℕ
mr3 pull_down_drive_strength = do
  strength ← odt_map pull_down_drive_strength
  reg (field 0 3 strength ∷ field 3 2 bank_organization_b16 ∷ field 5 1 0 ∷ [])

unfoldable pub mr10 : Option ℕ
mr10 = reg (field 0 0 0 ∷ field 2 2 0b00 ∷ field 4 2 0b00 ∷ field 6 2 0b00 ∷ [])

unfoldable pub mr11 : (dq_odt ca_odt : Odt) → Option ℕ
mr11 dq_odt ca_odt = do
  dq ← odt_map dq_odt
  ca ← odt_map ca_odt
  reg (field 0 3 dq ∷ field 3 1 0 ∷ field 4 3 ca ∷ [])

-- MR12 and MR14.
unfoldable pub vref_of : ℕ → Option ℕ
vref_of code = reg (field 0 7 code ∷ field 7 1 0 ∷ [])

unfoldable pub mr_vref : ℕ → Option ℕ
mr_vref vref = do code ← get_vref vref; vref_of code

unfoldable pub mr17 : Odt → Option ℕ
mr17 soc_odt = do
  soc ← odt_map soc_odt
  reg (field 0 3 soc ∷ field 3 1 1 ∷ field 4 1 1 ∷ field 5 1 1 ∷ field 6 1 0 ∷ field 7 1 0 ∷ [])

unfoldable pub mr18 : Odt → ℕ → Option ℕ
mr18 wck_odt ratio = do
  wck ← odt_map wck_odt
  r ← lookup ratio ((2, 1) ∷ (4, 0) ∷ [])
  reg (field 0 3 wck ∷ field 3 1 0 ∷ field 4 1 0 ∷ field 6 1 0 ∷ field 7 1 r ∷ [])

unfoldable pub mr20 : Option ℕ
mr20 = reg (field 0 2 0b01 ∷ [])

unfoldable pub mr28 : Option ℕ
mr28 = reg (field 0 1 0 ∷ field 1 1 0 ∷ field 2 2 0b01 ∷ field 5 1 0 ∷ [])

-- The dictionary `mr` in the order of its keys, in two parts. `ca_odt` is read from "dq_odt".
unfoldable pub low_registers : Settings → Option Table
low_registers s = do
  f ← get_frange s.cwl s.cl (frequency_ranges s.wck_ck_ratio)
  m1 ← mr1 f
  m2 ← mr2 f
  m3 ← mr3 (get_or s.pull_down_drive_strength (Odt.rzq 2))
  m10 ← mr10
  m11 ← mr11 (get_or s.dq_odt (Odt.rzq 2)) (get_or s.dq_odt (Odt.rzq 2))
  some ((1, m1) ∷ (2, m2) ∷ (3, m3) ∷ (10, m10) ∷ (11, m11) ∷ [])

unfoldable pub high_registers : Settings → Option Table
high_registers s = do
  m12 ← mr_vref (get_or s.vref_ca 68)
  m14 ← mr_vref (get_or s.vref_dq 68)
  m15 ← get_vref (get_or s.vref_dq 68)
  m17 ← mr17 (get_or s.soc_odt Odt.disable)
  m18 ← mr18 (get_or s.wck_odt Odt.disable) s.wck_ck_ratio
  m20 ← mr20
  m28 ← mr28
  some (
      (12, m12)
      ∷ (13, 0)
      ∷ (14, m14)
      ∷ (15, m15)
      ∷ (17, m17)
      ∷ (18, m18)
      ∷ (20, m20)
      ∷ (22, 0)
      ∷ (28, m28)
      ∷ [])

-- `cmd_mr`, with its assertions.
unfoldable pub cmd_mr : ℕ → ℕ → Option Step
cmd_mr ma op =
    if ltb ma (2 ^ 7)
    then (if ltb op (2 ^ 8) then some (at op ma Sequence.mode_register 200) else none)
    else none

unfoldable pub cmds_of : Table → Option (List Step)
cmds_of [] = some []
cmds_of ((ma, op) ∷ mr) = do step ← cmd_mr ma op; steps ← cmds_of mr; some (step ∷ steps)

-- The steps around those of the mode registers, and the dictionary.
abbrev pub sequence_with : List Step → Table → Init
sequence_with steps mr = record {
  sequence =
      at 0x0000 0 Sequence.odt_only 40000
      ∷ at 0x0000 0 Sequence.unreset (400000 + 5)
      ∷ at 0 special_nop Sequence.zq_calibration 400
      ∷ (steps ++ (at zqc_latch special_mpc Sequence.zq_calibration (max 4 6) ∷ []));
  mr = mr;
}

unfoldable pub get_lpddr5_phy_init_sequence : Settings → Option Init
get_lpddr5_phy_init_sequence s = do
  low ← low_registers s
  high ← high_registers s
  steps ← cmds_of (low ++ high)
  some (sequence_with steps (low ++ high))
