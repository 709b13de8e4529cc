-- ===== src/Init/Legacy.antt =====
-- The sequences of litedram/init.py for SDR, DDR, LPDDR and DDR2, which always succeed. The burst
-- length's logarithm, which migen's `log2_int` computes, is an argument.
pub mod Mode
use litedram.Base.{ℕ, ◌+◌, ◌*◌, ◌^◌, List, [], ◌∷◌}
use litedram.Init.Sequence.{Step, at, precharge_all, mode_register, auto_refresh, cke}

-- The end that all of them share: reset of the DLL, precharge, two refreshes, and the mode register.
abbrev load_mode : (mr : ℕ) → List Step → List Step
load_mode mr rest =
    at (mr + 1 * 2 ^ 8) 0 mode_register 200
    ∷ at 0x0400 0 precharge_all 0
    ∷ at 0x0 0 auto_refresh 4
    ∷ at 0x0 0 auto_refresh 4
    ∷ at mr 0 mode_register 200
    ∷ rest

-- `log2_int` stands for that of migen.
unfoldable pub get_sdr_phy_init_sequence : (log2_int : ℕ → ℕ) (cl nphases : ℕ) → List Step
get_sdr_phy_init_sequence log2_int cl nphases =
    let mr = log2_int nphases + cl * 2 ^ 4 in
    at 0x0000 0 cke 20000 ∷ at 0x0400 0 precharge_all 0 ∷ load_mode mr []

unfoldable pub get_ddr_phy_init_sequence : (log2_int : ℕ → ℕ) (cl : ℕ) → List Step
get_ddr_phy_init_sequence log2_int cl =
    let mr = log2_int 4 + cl * 2 ^ 4 in
    at 0x0000 0 cke 20000 ∷ at 0x0400 0 precharge_all 0 ∷ at 0 1 mode_register 0 ∷ load_mode mr []

unfoldable pub get_lpddr_phy_init_sequence : (log2_int : ℕ → ℕ) (cl : ℕ) → List Step
get_lpddr_phy_init_sequence log2_int cl =
    let mr = log2_int 4 + cl * 2 ^ 4 in
    at 0x0000 0 cke 20000 ∷ at 0x0400 0 precharge_all 0 ∷ at 0 2 mode_register 0 ∷ load_mode mr []

unfoldable pub get_ddr2_phy_init_sequence : (log2_int : ℕ → ℕ) (cl : ℕ) → List Step
get_ddr2_phy_init_sequence log2_int cl =
    let mr = log2_int 4 + cl * 2 ^ 4 + 2 * 2 ^ 9 in
    let emr : ℕ = 0 in
    let ocd = 7 * 2 ^ 7 in
    at 0x0000 0 cke 20000
    ∷ at 0x0400 0 precharge_all 0
    ∷ at 0 3 mode_register 0
    ∷ at 0 2 mode_register 0
    ∷ at emr 1 mode_register 0
    ∷ load_mode mr (at (emr + ocd) 1 mode_register 0 ∷ at emr 1 mode_register 0 ∷ [])
