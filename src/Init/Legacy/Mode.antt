-- ===== src/Init/Legacy/Mode.antt =====
-- What the DRAM reads from the mode register that the older sequences load.
use litedram.Base.{ℕ, ◌+◌, ◌*◌, ◌/◌, ◌%◌, ◌<◌, ◌≡◌, refl, arith, some}
use litedram.Init.Sequence.{loaded}
use litedram.Init.Legacy.{
  get_sdr_phy_init_sequence, get_ddr_phy_init_sequence, get_lpddr_phy_init_sequence,
  get_ddr2_phy_init_sequence,
}

-- The fields of the mode register: the burst's logarithm in A2 to A0, the CAS latency in A6 to A4,
-- the DLL reset in A8.
pub record ReadsMode (m log2_bl cl : ℕ) : Type 0 where
  pub burst : m % 8 ≡ log2_bl
  pub latency : m / 16 % 8 ≡ cl
  pub dll_kept : m / 256 % 2 ≡ 0

-- When the burst's logarithm and the CAS latency are below 8, each of the four sequences ends with
-- a mode register loaded that reads back as both and does not hold the DLL in reset.
pub legacy-ReadsMode :
    (log2_int : ℕ → ℕ) (cl nphases : ℕ)
    → cl < 8
    → log2_int nphases < 8
    → log2_int 4 < 8
    → ((m : ℕ) × (loaded 0 (get_sdr_phy_init_sequence log2_int cl nphases) ≡ some m)
        × ReadsMode m (log2_int nphases) cl)
      × ((m : ℕ) × (loaded 0 (get_ddr_phy_init_sequence log2_int cl) ≡ some m)
          × ReadsMode m (log2_int 4) cl)
      × ((m : ℕ) × (loaded 0 (get_lpddr_phy_init_sequence log2_int cl) ≡ some m)
          × ReadsMode m (log2_int 4) cl)
      × ((m : ℕ) × (loaded 0 (get_ddr2_phy_init_sequence log2_int cl) ≡ some m)
          × ReadsMode m (log2_int 4) cl)
unfolding loaded get_sdr_phy_init_sequence get_ddr_phy_init_sequence get_lpddr_phy_init_sequence
    get_ddr2_phy_init_sequence
legacy-ReadsMode log2_int cl nphases c b b4 =
    let reads : (l : ℕ) → l < 8 → ReadsMode (l + cl * 16) l cl =
      λ l h. record { burst = omega arith; latency = omega arith; dll_kept = omega arith } in
    (
      (_, refl, reads _ b),
      (_, refl, reads _ b4),
      (_, refl, reads _ b4),
      (_, refl, record { burst = omega arith; latency = omega arith; dll_kept = omega arith }),
    )
