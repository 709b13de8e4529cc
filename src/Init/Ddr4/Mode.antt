-- ===== src/Init/Ddr4/Mode.antt =====
-- What the DRAM reads from the DDR4 mode registers.
use litedram.Base.{
  max, ℕ, ◌+◌, ◌-◌, ◌*◌, ◌/◌, ◌%◌, ◌^◌, ◌<◌, ◌≡◌, Bool, ◌&&◌, ◌||◌, some, [], ◌∷◌, ◌==◌, ltb,
  if◌then◌else◌,
}
use litedram.Init.Sequence
use litedram.Init.Sequence.{Init, loaded}
use litedram.Init.Ddr4.{Settings, mr0_of, format_mr3}

-- The code of the CAS latency is in A12, A6 to A4 and A2, that of the write recovery in A13 and
-- A11 to A9.
abbrev cas_code : ℕ → ℕ
cas_code m = m / 4096 % 2 * 16 + m / 16 % 8 * 2 + m / 4 % 2

abbrev pub cas_latency : ℕ → ℕ
cas_latency m =
    let c = cas_code m in
    if ltb c 8 || ltb 15 c
    then c + 9
    else if ltb c 12
    then c * 2 + 2
    else if c == 12
    then 23
    else c * 2 - 9

abbrev pub write_recovery : ℕ → ℕ
write_recovery m =
    let w = m / 8192 % 2 * 8 + m / 512 % 8 in
    if w == 6 then 24 else if w == 7 then 22 else w * 2 + 10

-- MR0 as the DRAM reads it: the latency, the write recovery, a burst of 8, and a DLL reset.
pub record ReadsMr0 (m cl wr : ℕ) : Type 0 where
  pub latency : cas_latency m ≡ cl
  pub recovery : write_recovery m ≡ wr
  pub burst : m % 4 ≡ 0
  pub dll_reset : m / 256 % 2 ≡ 1
  pub fits : m < 2 ^ 14

mr0_test : (cl c wr w : ℕ) → Bool
mr0_test cl c wr w =
    let m = mr0_of 0 c w 1 in
    (cas_latency m == cl)
    && ((write_recovery m == wr) && ((m % 4 == 0) && ((m / 256 % 2 == 1) && ltb m (2 ^ 14))))

-- MR2: the code of the CAS write latency in A5 to A3.
abbrev pub cas_write_latency : ℕ → ℕ
cas_write_latency m = let c = m / 8 % 8 in if ltb c 4 then c + 9 else c * 2 + 6

-- The registers that the sequence leaves in the DRAM.
pub record Programmed (s : Settings) (r : Init) : Type 0 where
  pub mr0 : ℕ
  pub mr1 : ℕ
  pub mr2 : ℕ
  pub loaded_0 : loaded 0 r.sequence ≡ some mr0
  pub loaded_1 : loaded 1 r.sequence ≡ some mr1
  pub loaded_2 : loaded 2 r.sequence ≡ some mr2
  pub loaded_3 : loaded 3 r.sequence ≡ some (format_mr3 s.fine_refresh_mode)
  pub data_mask : loaded 5 r.sequence ≡ some 1024
  pub reads_mr0 : ReadsMr0 mr0 s.cl (max (s.twtr * s.nphases) 10)
  pub reads_mr2 : cas_write_latency mr2 ≡ s.cwl
  pub reported : r.mr ≡ (1, mr1) ∷ []
