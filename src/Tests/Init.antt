-- ===== src/Tests/Init.antt =====
-- The initialization sequences of litedram/init.py for concrete settings.
use litedram.Base.{ℕ, ◌+◌, ◌-◌, ◌/◌, ◌++◌, ◌≡◌, refl, arith, List, false, none, some, [], ◌∷◌}
use litedram.Base.Bits.{bit}
use litedram.Init.Table.{Table, lookup}
use litedram.Init.Sequence.{at, loaded}
use litedram.Init.Register.{Field, reg}
use litedram.Init.Register.Fields.{reg_reads}
use litedram.Init.Sequence
use litedram.Init.Ddr3
use litedram.Init.Ddr3.Mode as Ddr3Mode
use litedram.Init.Ddr4
use litedram.Init.Ddr4.Mode as Ddr4Mode
use litedram.Init.Lpddr4
use litedram.Init.Lpddr4.Tables.{odt_map, get_nwr, vref_ranges}
use litedram.Init.Lpddr4.Mode as Lpddr4Mode
use litedram.Init.Lpddr5
use litedram.Init.Lpddr5.Mode as Lpddr5Mode
use litedram.Init.Legacy.{
  get_sdr_phy_init_sequence, get_ddr_phy_init_sequence, get_lpddr_phy_init_sequence,
  get_ddr2_phy_init_sequence,
}
use litedram.Init.Legacy.Mode.{ReadsMode, legacy-ReadsMode}

-- A field of three bits at 0 and one of two bits at 4.
abbrev low : Field
low = record { shift = 0; width = 3; val = 5 }

abbrev high : Field
high = record { shift = 4; width = 2; val = 2 }

reg_37 : reg (low ∷ high ∷ []) ≡ some 37
unfolding reg
reg_37 = refl

reg_reads_example : bit 37 (4 + 1) ≡ bit 2 1
reg_reads_example = reg_reads (low ∷ high ∷ []) 37 1 high 1 reg_37 refl (omega arith)

abbrev ddr3 : Ddr3.Settings
ddr3 = record {
  cl = 7;
  cwl = 6;
  nphases = 4;
  twtr = 3;
  dll_off = false;
  rtt_nom = none;
  rtt_wr = none;
  ron = none;
  tdqs = none;
}

abbrev ddr3_init : Sequence.Init
ddr3_init = record { sequence = Ddr3.sequence_of 3376 6 520; mr = (1, 6) ∷ [] }

abbrev ddr4 : Ddr4.Settings
ddr4 = record {
  cl = 11;
  cwl = 9;
  nphases = 4;
  twtr = 3;
  fine_refresh_mode = Ddr4.FineRefreshMode.x1;
  rtt_nom = none;
  rtt_wr = none;
  ron = none;
  tdqs = none;
  rdimm = some (record {
    ca_cs_drive = 5;
    odt_cke_drive = 5;
    clk_drive = 5;
    coarse_speed = 1;
    fine_speed = 18;
  });
}

abbrev ddr4_init : Sequence.Init
ddr4_init = record {
  sequence =
      at 0 0 Sequence.unreset 50000
      ∷ at 0 0 Sequence.cke 10000
      ∷ (Ddr4.rdimm_init ddr4.rdimm ++ Ddr4.mode_steps 784 769 512 0 0 1024 0);
  mr = (1, 769) ∷ [];
}

abbrev pub lpddr4 : Lpddr4.Settings
lpddr4 = record {
  cl = 14;
  cwl = 8;
  dq_odt = none;
  ca_odt = none;
  pull_down_drive_strength = none;
  vref_ca_range = none;
  vref_ca = none;
  vref_dq_range = some 0;
  vref_dq = some 104;
}

abbrev pub lpddr4_init : Sequence.Init
lpddr4_init =
    Lpddr4.sequence_with
      (at 36 1 Sequence.mode_register 200
        ∷ at 18 2 Sequence.mode_register 200
        ∷ at 17 3 Sequence.mode_register 200
        ∷ at 34 11 Sequence.mode_register 200
        ∷ at 85 12 Sequence.mode_register 200
        ∷ at 0 13 Sequence.mode_register 200
        ∷ at 1 14 Sequence.mode_register 200
        ∷ [])
      ((1, 36) ∷ (2, 18) ∷ (3, 17) ∷ (11, 34) ∷ (12, 85) ∷ (13, 0) ∷ (14, 1) ∷ [])

pub lpddr4_built : Lpddr4.get_lpddr4_phy_init_sequence lpddr4 ≡ some lpddr4_init
unfolding Lpddr4.get_lpddr4_phy_init_sequence get_nwr lookup reg Lpddr4.mr2_of odt_map vref_ranges
    Lpddr4.vref_of
lpddr4_built = refl

get_lpddr4-Programmed_example : Lpddr4Mode.Programmed lpddr4 lpddr4_init
get_lpddr4-Programmed_example = Lpddr4Mode.get_lpddr4-Programmed lpddr4 lpddr4_init lpddr4_built

-- The logarithm of a burst of 1, 2, 4 or 8.
abbrev log2_int : ℕ → ℕ
log2_int n = n / 2 - n / 8

legacy-ReadsMode_example :
    ((m : ℕ) × (loaded 0 (get_sdr_phy_init_sequence log2_int 3 2) ≡ some m)
      × ReadsMode m (log2_int 2) 3)
    × ((m : ℕ) × (loaded 0 (get_ddr_phy_init_sequence log2_int 3) ≡ some m)
        × ReadsMode m (log2_int 4) 3)
    × ((m : ℕ) × (loaded 0 (get_lpddr_phy_init_sequence log2_int 3) ≡ some m)
        × ReadsMode m (log2_int 4) 3)
    × ((m : ℕ) × (loaded 0 (get_ddr2_phy_init_sequence log2_int 3) ≡ some m)
        × ReadsMode m (log2_int 4) 3)
legacy-ReadsMode_example = legacy-ReadsMode log2_int 3 2 (omega arith) (omega arith) (omega arith)

abbrev pub lpddr5 : Lpddr5.Settings
lpddr5 = record {
  cl = 6;
  cwl = 4;
  wck_ck_ratio = 4;
  dq_odt = none;
  pull_down_drive_strength = none;
  soc_odt = none;
  wck_odt = none;
  vref_ca = some 70;
  vref_dq = none;
}

abbrev lpddr5_mr : Table
lpddr5_mr =
    (1, 48)
    ∷ (2, 51)
    ∷ (3, 18)
    ∷ (10, 0)
    ∷ (11, 34)
    ∷ (12, 50)
    ∷ (13, 0)
    ∷ (14, 48)
    ∷ (15, 48)
    ∷ (17, 56)
    ∷ (18, 0)
    ∷ (20, 1)
    ∷ (22, 0)
    ∷ (28, 4)
    ∷ []

abbrev loads : Table → List Sequence.Step
loads [] = []
loads ((ma, op) ∷ mr) = at op ma Sequence.mode_register 200 ∷ loads mr

abbrev pub lpddr5_init : Sequence.Init
lpddr5_init = Lpddr5.sequence_with (loads lpddr5_mr) lpddr5_mr

pub lpddr5_built : Lpddr5.get_lpddr5_phy_init_sequence lpddr5 ≡ some lpddr5_init
unfolding Lpddr5.get_lpddr5_phy_init_sequence Lpddr5.low_registers Lpddr5.high_registers
    Lpddr5.get_frange Lpddr5.mr1 Lpddr5.mr2 Lpddr5.mr3 Lpddr5.mr10 Lpddr5.mr11 Lpddr5.mr_vref
    Lpddr5.vref_of Lpddr5.get_vref Lpddr5.mr17 Lpddr5.mr18 Lpddr5.mr20 Lpddr5.mr28 Lpddr5.cmds_of
    Lpddr5.cmd_mr lookup reg odt_map
lpddr5_built = refl

get_lpddr5-Programmed_example : Lpddr5Mode.Programmed lpddr5 lpddr5_init
get_lpddr5-Programmed_example = Lpddr5Mode.get_lpddr5-Programmed lpddr5 lpddr5_init lpddr5_built
