-- ===== src/Init/Ddr4.antt =====
-- `get_ddr4_phy_init_sequence` of litedram/init.py. The speeds of an RDIMM's register, which the
-- code computes from a floating-point `tck`, are settings here.
pub mod Mode
use litedram.Base.{
  ℕ, ◌+◌, ◌-◌, ◌*◌, ◌/◌, ◌^◌, max, Bool, true, false, ◌&&◌, ◌||◌, Option, none, some, List, [], ◌∷◌,
  ◌++◌, ◌==◌, if◌then◌else◌, bit_and, bit_or,
}
use litedram.Init.Table.{Table, lookup, ◌>>=◌}
use litedram.Init.Electrical.{Impedance, get_or}
use litedram.Init.Sequence
use litedram.Init.Sequence.{Init, at}

abbrev pub bl_to_mr0 : Table
bl_to_mr0 = (4, 0b10) ∷ (8, 0b00) ∷ []

abbrev pub cl_to_mr0 : Table
cl_to_mr0 =
    (9, 0b00000)
    ∷ (10, 0b00001)
    ∷ (11, 0b00010)
    ∷ (12, 0b00011)
    ∷ (13, 0b00100)
    ∷ (14, 0b00101)
    ∷ (15, 0b00110)
    ∷ (16, 0b00111)
    ∷ (18, 0b01000)
    ∷ (20, 0b01001)
    ∷ (22, 0b01010)
    ∷ (24, 0b01011)
    ∷ (23, 0b01100)
    ∷ (17, 0b01101)
    ∷ (19, 0b01110)
    ∷ (21, 0b01111)
    ∷ (25, 0b10000)
    ∷ (26, 0b10001)
    ∷ (27, 0b10010)
    ∷ (28, 0b10011)
    ∷ (29, 0b10100)
    ∷ (30, 0b10101)
    ∷ (31, 0b10110)
    ∷ (32, 0b10111)
    ∷ []

abbrev pub wr_to_mr0 : Table
wr_to_mr0 =
    (10, 0b0000)
    ∷ (12, 0b0001)
    ∷ (14, 0b0010)
    ∷ (16, 0b0011)
    ∷ (18, 0b0100)
    ∷ (20, 0b0101)
    ∷ (24, 0b0110)
    ∷ (22, 0b0111)
    ∷ (26, 0b1000)
    ∷ (28, 0b1001)
    ∷ []

-- The expression of `format_mr0`, from the values that its dictionaries hold.
abbrev pub mr0_of : (bl cl wr dll_reset : ℕ) → ℕ
mr0_of bl cl wr dll_reset =
    let mr0 = bit_or bl (bit_and cl 0b1 * 2 ^ 2) in
    let mr0' = bit_or mr0 (bit_and (cl / 2 ^ 1) 0b111 * 2 ^ 4) in
    let mr0'' = bit_or mr0' (bit_and (cl / 2 ^ 4) 0b1 * 2 ^ 12) in
    bit_or (bit_or (bit_or mr0'' (dll_reset * 2 ^ 8)) (bit_and wr 0b111 * 2 ^ 9))
      (wr / 2 ^ 3 * 2 ^ 13)

unfoldable pub format_mr0 : (bl cl wr dll_reset : ℕ) → Option ℕ
format_mr0 bl cl wr dll_reset = do
  b ← lookup bl bl_to_mr0
  c ← lookup cl cl_to_mr0
  w ← lookup wr wr_to_mr0
  some (mr0_of b c w dll_reset)

unfoldable pub format_mr1 : (dll_enable ron rtt_nom tdqs : ℕ) → ℕ
format_mr1 dll_enable ron rtt_nom tdqs =
    let mr1 = bit_or dll_enable (bit_and ron 0b1 * 2 ^ 1) in
    let mr1' = bit_or mr1 (bit_and (ron / 2 ^ 1) 0b1 * 2 ^ 2) in
    let mr1'' = bit_or mr1' (bit_and rtt_nom 0b1 * 2 ^ 8) in
    bit_or
      (bit_or (bit_or mr1'' (bit_and (rtt_nom / 2 ^ 1) 0b1 * 2 ^ 9))
        (bit_and (rtt_nom / 2 ^ 2) 0b1 * 2 ^ 10))
      (bit_and tdqs 0b1 * 2 ^ 11)

abbrev pub cwl_to_mr2 : Table
cwl_to_mr2 =
    (9, 0b000)
    ∷ (10, 0b001)
    ∷ (11, 0b010)
    ∷ (12, 0b011)
    ∷ (14, 0b100)
    ∷ (16, 0b101)
    ∷ (18, 0b110)
    ∷ (20, 0b111)
    ∷ []

unfoldable pub format_mr2 : (cwl rtt_wr : ℕ) → Option ℕ
format_mr2 cwl rtt_wr = do c ← lookup cwl cwl_to_mr2; some (bit_or (c * 2 ^ 3) (rtt_wr * 2 ^ 9))

-- The fine refresh modes "1x", "2x" and "4x".
pub data FineRefreshMode : Type 0 where
  x1 x2 x4 : FineRefreshMode

unfoldable pub format_mr3 : FineRefreshMode → ℕ
format_mr3 FineRefreshMode.x1 = 0b000 * 2 ^ 6
format_mr3 FineRefreshMode.x2 = 0b001 * 2 ^ 6
format_mr3 FineRefreshMode.x4 = 0b010 * 2 ^ 6

abbrev pub tccd_to_mr6 : Table
tccd_to_mr6 = (4, 0b000) ∷ (5, 0b001) ∷ (6, 0b010) ∷ (7, 0b011) ∷ (8, 0b100) ∷ []

unfoldable pub format_mr6 : ℕ → Option ℕ
format_mr6 tccd = do c ← lookup tccd tccd_to_mr6; some (c * 2 ^ 10)

unfoldable pub z_to_rtt_nom : Impedance → Option ℕ
z_to_rtt_nom Impedance.disabled = some 0b000
z_to_rtt_nom Impedance.high_z = none
z_to_rtt_nom (Impedance.ohm n) = lookup n (
    (60, 0b001)
    ∷ (120, 0b010)
    ∷ (40, 0b011)
    ∷ (240, 0b100)
    ∷ (48, 0b101)
    ∷ (80, 0b110)
    ∷ (34, 0b111)
    ∷ [])

unfoldable pub z_to_rtt_wr : Impedance → Option ℕ
z_to_rtt_wr Impedance.disabled = some 0b000
z_to_rtt_wr Impedance.high_z = some 0b011
z_to_rtt_wr (Impedance.ohm n) = lookup n ((120, 0b001) ∷ (240, 0b010) ∷ (80, 0b100) ∷ [])

unfoldable pub z_to_ron : Impedance → Option ℕ
z_to_ron (Impedance.ohm n) = lookup n ((34, 0b00) ∷ (48, 0b01) ∷ [])
z_to_ron _ = none

-- The RDIMM configuration, with the speeds that are computed from `tck`.
pub record Rdimm : Type 0 where
  pub ca_cs_drive : ℕ
  pub odt_cke_drive : ℕ
  pub clk_drive : ℕ
  pub coarse_speed : ℕ
  pub fine_speed : ℕ

pub record Settings : Type 0 where
  pub cl : ℕ
  pub cwl : ℕ
  pub nphases : ℕ
  pub twtr : ℕ
  pub fine_refresh_mode : FineRefreshMode
  pub rtt_nom : Option Impedance
  pub rtt_wr : Option Impedance
  pub ron : Option Impedance
  pub tdqs : Option ℕ
  pub rdimm : Option Rdimm

abbrev pub write_recovery_cycles : Settings → ℕ
write_recovery_cycles s = max (s.twtr * s.nphases) 10

unfoldable pub rdimm_init : Option Rdimm → List Sequence.Step
rdimm_init none = []
rdimm_init (some r) =
    at (bit_or 0x060 0x0) 7 Sequence.mode_register 50000
    ∷ at (bit_or 0x0F0 0x4) 7 Sequence.mode_register 100
    ∷ at (bit_or 0x030 r.ca_cs_drive) 7 Sequence.mode_register 100
    ∷ at (bit_or 0x040 r.odt_cke_drive) 7 Sequence.mode_register 100
    ∷ at (bit_or 0x050 r.clk_drive) 7 Sequence.mode_register 100
    ∷ at (bit_or 0x0D0 0x4) 7 Sequence.mode_register 100
    ∷ at (bit_or 0x0A0 r.coarse_speed) 7 Sequence.mode_register 100
    ∷ at (bit_or 0x300 r.fine_speed) 7 Sequence.mode_register 100
    ∷ []

-- The mode registers in the order of their loading.
unfoldable pub mode_steps : (mr0 mr1 mr2 mr3 mr4 mr5 mr6 : ℕ) → List Sequence.Step
mode_steps mr0 mr1 mr2 mr3 mr4 mr5 mr6 =
    at mr3 3 Sequence.mode_register 0
    ∷ at mr6 6 Sequence.mode_register 0
    ∷ at mr5 5 Sequence.mode_register 0
    ∷ at mr4 4 Sequence.mode_register 0
    ∷ at mr2 2 Sequence.mode_register 0
    ∷ at mr1 1 Sequence.mode_register 0
    ∷ at mr0 0 Sequence.mode_register 200
    ∷ at 0x0400 0 Sequence.zq_calibration 200
    ∷ []

-- `dm` is 1, so `tdqs` must be 0.
unfoldable pub get_ddr4_phy_init_sequence : Settings → Option Init
unfolding format_mr0 format_mr1 format_mr2 format_mr3 format_mr6 z_to_rtt_nom z_to_rtt_wr z_to_ron
    rdimm_init mode_steps
get_ddr4_phy_init_sequence s =
    if get_or s.tdqs 0 == 0
    then (do
      mr0 ← format_mr0 8 s.cl (write_recovery_cycles s) 1
      ron ← z_to_ron (get_or s.ron (Impedance.ohm 34))
      rtt_nom ← z_to_rtt_nom (get_or s.rtt_nom (Impedance.ohm 40))
      let mr1 = format_mr1 1 ron rtt_nom (get_or s.tdqs 0)
      rtt_wr ← z_to_rtt_wr (get_or s.rtt_wr (Impedance.ohm 120))
      mr2 ← format_mr2 s.cwl rtt_wr
      mr6 ← format_mr6 4
      some (record {
        sequence =
            at 0x0000 0 Sequence.unreset 50000
            ∷ at 0x0000 0 Sequence.cke 10000
            ∷ (rdimm_init s.rdimm
                ++ mode_steps mr0 mr1 mr2 (format_mr3 s.fine_refresh_mode) 0 (1 * 2 ^ 10) mr6);
        mr = (1, mr1) ∷ [];
      }))
    else none
