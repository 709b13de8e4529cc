-- ===== src/Init/Ddr3.antt =====
-- `get_ddr3_phy_init_sequence` of litedram/init.py.
pub mod Mode
use litedram.Base.{
  ℕ, ◌+◌, ◌-◌, ◌*◌, ◌/◌, ◌^◌, max, Bool, true, false, not, ◌&&◌, ◌||◌, Option, none, some, List, [],
  ◌∷◌, ◌==◌, if◌then◌else◌, bit_and, bit_or,
}
use litedram.Init.Table.{Table, lookup, ◌>>=◌}
use litedram.Init.Electrical.{Impedance, get_or}
use litedram.Init.Sequence
use litedram.Init.Sequence.{Init, at}

abbrev pub bl_to_mr0 : Table
bl_to_mr0 = (4, 0b10) ∷ (8, 0b00) ∷ []

abbrev pub cl_to_mr0 : Table
cl_to_mr0 =
    (5, 0b0010)
    ∷ (6, 0b0100)
    ∷ (7, 0b0110)
    ∷ (8, 0b1000)
    ∷ (9, 0b1010)
    ∷ (10, 0b1100)
    ∷ (11, 0b1110)
    ∷ (12, 0b0001)
    ∷ (13, 0b0011)
    ∷ (14, 0b0101)
    ∷ []

abbrev pub wr_to_mr0 : Table
wr_to_mr0 =
    (16, 0b000)
    ∷ (5, 0b001)
    ∷ (6, 0b010)
    ∷ (7, 0b011)
    ∷ (8, 0b100)
    ∷ (10, 0b101)
    ∷ (12, 0b110)
    ∷ (14, 0b111)
    ∷ []

-- The expression of `format_mr0`, from the values that its dictionaries hold.
abbrev pub mr0_of : (bl cl wr dll_reset : ℕ) → ℕ
mr0_of bl cl wr dll_reset =
    bit_or
      (bit_or (bit_or (bit_or bl (bit_and cl 1 * 2 ^ 2)) (bit_and (cl / 2 ^ 1) 0b111 * 2 ^ 4))
        (dll_reset * 2 ^ 8))
      (wr * 2 ^ 9)

unfoldable pub format_mr0 : (bl cl wr dll_reset : ℕ) → Option ℕ
format_mr0 bl cl wr dll_reset = do
  b ← lookup bl bl_to_mr0
  c ← lookup cl cl_to_mr0
  w ← lookup wr wr_to_mr0
  some (mr0_of b c w dll_reset)

unfoldable pub format_mr1 : (ron rtt_nom tdqs : ℕ) → ℕ
format_mr1 ron rtt_nom tdqs =
    bit_or
      (bit_or
        (bit_or
          (bit_or (bit_or (bit_and ron 1 * 2 ^ 1) (bit_and (ron / 2 ^ 1) 1 * 2 ^ 5))
            (bit_and rtt_nom 1 * 2 ^ 2))
          (bit_and (rtt_nom / 2 ^ 1) 1 * 2 ^ 6))
        (bit_and (rtt_nom / 2 ^ 2) 1 * 2 ^ 9))
      (bit_and tdqs 1 * 2 ^ 11)

-- For a `cwl` of at least 5; below that Python's difference is negative.
unfoldable pub format_mr2 : (cwl rtt_wr : ℕ) → ℕ
format_mr2 cwl rtt_wr = bit_or ((cwl - 5) * 2 ^ 3) (rtt_wr * 2 ^ 9)

unfoldable pub z_to_rtt_nom : Impedance → Option ℕ
z_to_rtt_nom Impedance.disabled = some 0
z_to_rtt_nom Impedance.high_z = none
z_to_rtt_nom (Impedance.ohm n) = lookup n ((60, 1) ∷ (120, 2) ∷ (40, 3) ∷ (20, 4) ∷ (30, 5) ∷ [])

unfoldable pub z_to_rtt_wr : Impedance → Option ℕ
z_to_rtt_wr Impedance.disabled = some 0
z_to_rtt_wr Impedance.high_z = none
z_to_rtt_wr (Impedance.ohm n) = lookup n ((60, 1) ∷ (120, 2) ∷ [])

unfoldable pub z_to_ron : Impedance → Option ℕ
z_to_ron (Impedance.ohm n) = lookup n ((40, 0) ∷ (34, 1) ∷ [])
z_to_ron _ = none

-- What the function reads of `phy_settings` and `timing_settings`; an electrical setting that is
-- not there is `none`, and takes its default.
pub record Settings : Type 0 where
  pub cl : ℕ
  pub cwl : ℕ
  pub nphases : ℕ
  pub twtr : ℕ
  pub dll_off : Bool
  pub rtt_nom : Option Impedance
  pub rtt_wr : Option Impedance
  pub ron : Option Impedance
  pub tdqs : Option ℕ

abbrev pub write_recovery_cycles : Settings → ℕ
write_recovery_cycles s = max (s.twtr * s.nphases) 5

unfoldable pub sequence_of : (mr0 mr1 mr2 : ℕ) → List Sequence.Step
sequence_of mr0 mr1 mr2 =
    at 0x0000 0 Sequence.unreset 50000
    ∷ at 0x0000 0 Sequence.cke 10000
    ∷ at mr2 2 Sequence.mode_register 0
    ∷ at 0 3 Sequence.mode_register 0
    ∷ at mr1 1 Sequence.mode_register 0
    ∷ at mr0 0 Sequence.mode_register 200
    ∷ at 0x0400 0 Sequence.zq_calibration 200
    ∷ []

unfoldable pub get_ddr3_phy_init_sequence : Settings → Option Init
unfolding format_mr0 format_mr1 format_mr2 z_to_rtt_nom z_to_rtt_wr z_to_ron sequence_of
get_ddr3_phy_init_sequence s =
    if s.dll_off && (not (s.cl == 6) || not (s.cwl == 6)) then none else do
      mr0 ← format_mr0 8 s.cl (write_recovery_cycles s) 1
      ron ← z_to_ron (get_or s.ron (Impedance.ohm 34))
      rtt_nom ←
          z_to_rtt_nom
            (if s.dll_off then Impedance.disabled else get_or s.rtt_nom (Impedance.ohm 60))
      let mr1 = bit_or (format_mr1 ron rtt_nom (get_or s.tdqs 0)) (if s.dll_off then 1 else 0)
      rtt_wr ←
          z_to_rtt_wr (if s.dll_off then Impedance.disabled else get_or s.rtt_wr (Impedance.ohm 60))
      some (record { sequence = sequence_of mr0 mr1 (format_mr2 s.cwl rtt_wr); mr = (1, mr1) ∷ [] })
