-- ===== src/Init/Ddr3/Mode.antt =====
-- What the DRAM reads from the DDR3 mode registers.
use mathlib.Core.Path.{subst}
use litedram.Base.{
  max, ℕ, ◌+◌, ◌*◌, ◌/◌, ◌%◌, ◌^◌, ◌<◌, ◌≡◌, refl, Bool, true, ◌&&◌, some, [], ◌∷◌, ◌==◌, ltb,
  if◌then◌else◌, some_inj, ==_iff, &&-parts, ltb→lt,
}
use litedram.Init.Table.{lookup, every, every-lookup, >>=-eq-some}
use litedram.Init.Sequence.{Init, loaded}
use litedram.Init.Ddr3.{Settings, cl_to_mr0, wr_to_mr0, mr0_of, format_mr0}

-- The fields of MR0 as the DDR3 standard gives them: the code of the CAS latency is in A6, A5, A4
-- and A2, that of the write recovery in A11 to A9.
abbrev cas_code : ℕ → ℕ
cas_code m = m / 16 % 8 * 2 + m / 4 % 2

abbrev pub cas_latency : ℕ → ℕ
cas_latency m = if cas_code m % 2 == 0 then cas_code m / 2 + 4 else cas_code m / 2 + 12

abbrev pub write_recovery : ℕ → ℕ
write_recovery m = let w = m / 512 % 8 in if w == 0 then 16 else if ltb w 5 then w + 4 else w * 2

abbrev pub burst_code : ℕ → ℕ
burst_code m = m % 4

abbrev pub dll_reset_bit : ℕ → ℕ
dll_reset_bit m = m / 256 % 2

mr0_test : (cl c wr w : ℕ) → Bool
mr0_test cl c wr w =
    let m = mr0_of 0 c w 1 in
    (cas_latency m == cl)
    && ((write_recovery m == wr)
        && ((burst_code m == 0) && ((dll_reset_bit m == 1) && ltb m (2 ^ 13))))

mr0_table : every (λ cl c. every (λ wr w. mr0_test cl c wr w) wr_to_mr0) cl_to_mr0 ≡ true
unfolding every mr0_test
mr0_table = refl

-- MR0 as the DRAM reads it: the latency, the write recovery, a burst of 8, and a DLL reset.
pub record ReadsMr0 (m cl wr : ℕ) : Type 0 where
  pub latency : cas_latency m ≡ cl
  pub recovery : write_recovery m ≡ wr
  pub burst : burst_code m ≡ 0
  pub dll_reset : dll_reset_bit m ≡ 1
  pub fits : m < 2 ^ 13

test-ReadsMr0 : (cl c wr w : ℕ) → mr0_test cl c wr w ≡ true → ReadsMr0 (mr0_of 0 c w 1) cl wr
unfolding mr0_test
test-ReadsMr0 cl c wr w h =
    let m = mr0_of 0 c w 1 in
    let h1 = &&-parts _ _ h in
    let h2 = &&-parts _ _ h1.1 in
    let h3 = &&-parts _ _ h2.1 in
    let h4 = &&-parts _ _ h3.1 in
    record {
      latency = (==_iff (cas_latency m) cl).0 h1.0;
      recovery = (==_iff (write_recovery m) wr).0 h2.0;
      burst = (==_iff (burst_code m) 0).0 h3.0;
      dll_reset = (==_iff (dll_reset_bit m) 1).0 h4.0;
      fits = ltb→lt m (2 ^ 13) h4.1;
    }

pub format_mr0-ReadsMr0 : (cl wr m : ℕ) → format_mr0 8 cl wr 1 ≡ some m → ReadsMr0 m cl wr
unfolding format_mr0 lookup
format_mr0-ReadsMr0 cl wr m e =
    let (c, ec, e1) = >>=-eq-some (lookup cl cl_to_mr0) _ e in
    let (w, ew, e2) = >>=-eq-some (lookup wr wr_to_mr0) _ e1 in
    let t = every-lookup _ wr_to_mr0 wr w (every-lookup _ cl_to_mr0 cl c mr0_table ec) ew in
    subst (λ x. ReadsMr0 x cl wr) (some_inj e2) (test-ReadsMr0 cl c wr w t)

-- MR2: the CAS write latency in A5 to A3.
abbrev pub cas_write_latency : ℕ → ℕ
cas_write_latency m = m / 8 % 8 + 5

-- The registers that the sequence leaves in the DRAM.
pub record Programmed (s : Settings) (r : Init) : Type 0 where
  pub mr0 : ℕ
  pub mr1 : ℕ
  pub mr2 : ℕ
  pub loaded_0 : loaded 0 r.sequence ≡ some mr0
  pub loaded_1 : loaded 1 r.sequence ≡ some mr1
  pub loaded_2 : loaded 2 r.sequence ≡ some mr2
  pub loaded_3 : loaded 3 r.sequence ≡ some 0
  pub reads_mr0 : ReadsMr0 mr0 s.cl (max (s.twtr * s.nphases) 5)
  pub reads_mr2 : cas_write_latency mr2 ≡ s.cwl
  pub reported : r.mr ≡ (1, mr1) ∷ []
