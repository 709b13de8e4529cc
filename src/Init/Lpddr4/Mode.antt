-- ===== src/Init/Lpddr4/Mode.antt =====
-- What the DRAM reads from the LPDDR4 mode registers.
use mathlib.Core.Path.{subst}
use litedram.Base.{
  ℕ, ◌<◌, ◌^◌, ◌+◌, ◌*◌, ◌/◌, ◌%◌, ◌≡◌, refl, ap, ◌∙◌, arith, Bool, true, ◌&&◌, Option, none, some,
  List, [], ◌∷◌, ◌==◌, ltb, if◌then◌else◌, some_inj, ==_iff, &&-parts, Bool-cases, inl, inr,
}
use litedram.Init.Table.{Table, lookup, every, every-lookup, >>=-eq-some}
use litedram.Init.Load.{steps_of, Fits}
use litedram.Init.Sequence.{Init, Step, at, mode_register, loaded}
use litedram.Init.Register.{reg}
use litedram.Init.Electrical.{get_or}
use litedram.Init.Lpddr4.{
  Settings, mr1, mr2, mr3, mr11, mr2_of, vref_of, mr_vref, sequence_with, cmd_mr, cmds_of,
  mode_registers, get_lpddr4_phy_init_sequence,
}
use litedram.Init.Lpddr4.Tables.{
  Odt, cl_to_mr2, cwl_to_mr2, vref_range_0, vref_range_1, vref_ranges,
}

-- MR2: the read latency in OP2 to OP0, the write latency (set A) in OP5 to OP3.
abbrev pub read_latency : ℕ → ℕ
read_latency m = let c = m % 8 in if ltb c 3 then c * 4 + 6 else c * 4 + 8

abbrev pub write_latency : ℕ → ℕ
write_latency m = m / 8 % 8 * 2 + 4

-- MR12 and MR14: the range in OP6, and in OP5 to OP0 the step of 0.4% in it.
abbrev pub reference_voltage : ℕ → ℕ
reference_voltage m = if m / 64 % 2 == 0 then m % 64 * 4 + 100 else m % 64 * 4 + 220

-- `o` is a value that passes a test, if any.
abbrev pub passes : (ℕ → Bool) → Option ℕ → Bool
passes p none = true
passes p (some m) = p m

pub passes-some :
    (p : ℕ → Bool) (o : Option ℕ) (m : ℕ) → passes p o ≡ true → o ≡ some m → p m ≡ true
passes-some p none m h e = cc
passes-some p (some x) m h e = subst (λ y. p y ≡ true) (some_inj e) h

mr2_table :
    every
      (λ cl rl.
        every
          (λ cwl wl.
            passes (λ m. (read_latency m == cl) && (write_latency m == cwl)) (mr2_of rl wl))
          cwl_to_mr2)
      cl_to_mr2
    ≡ true
unfolding every mr2_of reg
mr2_table = refl

mr2-reads : (cl cwl m : ℕ) → mr2 cl cwl ≡ some m → (read_latency m ≡ cl) × (write_latency m ≡ cwl)
unfolding mr2
mr2-reads cl cwl m q =
    let (rl, e, q1) = >>=-eq-some (lookup cl cl_to_mr2) _ q in
    let (wl, f, q2) = >>=-eq-some (lookup cwl cwl_to_mr2) _ q1 in
    let t = every-lookup _ cwl_to_mr2 cwl wl (every-lookup _ cl_to_mr2 cl rl mr2_table e) f in
    let h = &&-parts _ _ (passes-some _ _ m t q2) in ((==_iff _ _).0 h.0, (==_iff _ _).0 h.1)

vref_table_0 :
    every (λ v c. passes (λ m. reference_voltage m == v) (vref_of 0 c)) vref_range_0 ≡ true
unfolding every vref_of reg
vref_table_0 = refl

vref_table_1 :
    every (λ v c. passes (λ m. reference_voltage m == v) (vref_of 1 c)) vref_range_1 ≡ true
unfolding every vref_of reg
vref_table_1 = refl

vref_of-reads :
    (range v c m : ℕ)
    → vref_ranges range v ≡ some c
    → vref_of range c ≡ some m
    → reference_voltage m ≡ v
unfolding vref_ranges
vref_of-reads range v c m e q = elim (Bool-cases (range == 0)) [
  | inl t ↦
      let z = (==_iff range 0).0 t in
      let e0 = rw t at e in
      (==_iff _ _).0
        (passes-some _ _ m (every-lookup _ vref_range_0 v c vref_table_0 e0) (rw z at q))
  | inr f ↦ elim (Bool-cases (range == 1)) [
    | inl t ↦
        let z = (==_iff range 1).0 t in
        let e0 : lookup v vref_range_1 ≡ some c = ground arith in
        (==_iff _ _).0
          (passes-some _ _ m (every-lookup _ vref_range_1 v c vref_table_1 e0) (rw z at q))
    | inr g ↦ ground arith
  ]
]

vref-reads : (range v m : ℕ) → mr_vref range v ≡ some m → reference_voltage m ≡ v
unfolding mr_vref
vref-reads range v m q =
    let (c, e, q1) = >>=-eq-some (vref_ranges range v) _ q in vref_of-reads range v c m e q1

-- The registers that the sequence leaves in the DRAM.
pub record Programmed (s : Settings) (r : Init) : Type 0 where
  pub reg_2 : ℕ
  pub reg_12 : ℕ
  pub reg_14 : ℕ
  pub loaded_2 : loaded 2 r.sequence ≡ some reg_2
  pub loaded_12 : loaded 12 r.sequence ≡ some reg_12
  pub loaded_14 : loaded 14 r.sequence ≡ some reg_14
  pub reads_cl : read_latency reg_2 ≡ s.cl
  pub reads_cwl : write_latency reg_2 ≡ s.cwl
  pub reads_vref_ca : reference_voltage reg_12 ≡ get_or s.vref_ca 304
  pub reads_vref_dq : reference_voltage reg_14 ≡ get_or s.vref_dq 304
  pub reported_2 : lookup 2 r.mr ≡ some reg_2
  pub reported_12 : lookup 12 r.mr ≡ some reg_12
  pub reported_14 : lookup 14 r.mr ≡ some reg_14

-- The steps of a table that `cmds_of` accepts.
pub cmds_of-steps_of :
    (mr : Table) (steps : List Step) → cmds_of mr ≡ some steps → steps_of mr ≡ steps
unfolding cmds_of cmd_mr
cmds_of-steps_of [] steps e = some_inj e
cmds_of-steps_of ((ma, op) ∷ mr) steps e =
    let (step, q0, e1) = >>=-eq-some (cmd_mr ma op) _ e in
    let (rest, q1, e2) = >>=-eq-some (cmds_of mr) _ e1 in
    let s0 : at op ma mode_register 200 ≡ step = ground arith in
    ap (λ x. x ∷ steps_of mr) s0 ∙ ap (λ xs. step ∷ xs) (cmds_of-steps_of mr rest q1) ∙ some_inj e2

pub cmds_of-Fits : (mr : Table) (steps : List Step) → cmds_of mr ≡ some steps → Fits 6 mr
unfolding cmds_of cmd_mr
cmds_of-Fits [] steps e = tt
cmds_of-Fits ((ma, op) ∷ mr) steps e =
    let (step, q0, e1) = >>=-eq-some (cmd_mr ma op) _ e in
    let (rest, q1, e2) = >>=-eq-some (cmds_of mr) _ e1 in
    let small : (ma < 2 ^ 6) × (op < 2 ^ 8) = ground arith in
    (small.0, small.1, cmds_of-Fits mr rest q1)

table_of : (m1 m2 m3 m11 m12 m14 : ℕ) → Table
table_of m1 m2 m3 m11 m12 m14 =
    (1, m1) ∷ (2, m2) ∷ (3, m3) ∷ (11, m11) ∷ (12, m12) ∷ (13, 0) ∷ (14, m14) ∷ []

record Registers (s : Settings) (mr : Table) : Type 0 where
  m1 : ℕ
  m2 : ℕ
  m3 : ℕ
  m11 : ℕ
  m12 : ℕ
  m14 : ℕ
  built_2 : mr2 s.cl s.cwl ≡ some m2
  built_12 : mr_vref (get_or s.vref_ca_range 1) (get_or s.vref_ca 304) ≡ some m12
  built_14 : mr_vref (get_or s.vref_dq_range 1) (get_or s.vref_dq 304) ≡ some m14
  built : table_of m1 m2 m3 m11 m12 m14 ≡ mr

mode_registers-Registers : (s : Settings) (mr : Table) → mode_registers s ≡ some mr → Registers s mr
unfolding mode_registers table_of
mode_registers-Registers s mr q =
    let (m1, q1, f1) = >>=-eq-some (mr1 s.cl s.cwl) _ q in
    let (m2, q2, f2) = >>=-eq-some (mr2 s.cl s.cwl) _ f1 in
    let (m3, q3, f3) = >>=-eq-some (mr3 (get_or s.pull_down_drive_strength (Odt.rzq 2))) _ f2 in
    let (m11, q4, f4) =
      >>=-eq-some (mr11 (get_or s.dq_odt (Odt.rzq 2)) (get_or s.ca_odt (Odt.rzq 2))) _ f3 in
    let (m12, q5, f5) =
      >>=-eq-some (mr_vref (get_or s.vref_ca_range 1) (get_or s.vref_ca 304)) _ f4 in
    let (m14, q6, f6) =
      >>=-eq-some (mr_vref (get_or s.vref_dq_range 1) (get_or s.vref_dq 304)) _ f5 in
    record {
      m1 = m1;
      m2 = m2;
      m3 = m3;
      m11 = m11;
      m12 = m12;
      m14 = m14;
      built_2 = q2;
      built_12 = q5;
      built_14 = q6;
      built = some_inj f6;
    }

-- What a sequence around the table's steps leaves.
Registers-Programmed :
    (s : Settings) (mr : Table) → Registers s mr → Programmed s (sequence_with (steps_of mr) mr)
unfolding table_of loaded lookup
Registers-Programmed s mr g =
    subst (λ t. Programmed s (sequence_with (steps_of t) t)) g.built
      (record {
        reg_2 = g.m2;
        reg_12 = g.m12;
        reg_14 = g.m14;
        loaded_2 = refl;
        loaded_12 = refl;
        loaded_14 = refl;
        reads_cl = (mr2-reads s.cl s.cwl g.m2 g.built_2).0;
        reads_cwl = (mr2-reads s.cl s.cwl g.m2 g.built_2).1;
        reads_vref_ca = vref-reads _ _ g.m12 g.built_12;
        reads_vref_dq = vref-reads _ _ g.m14 g.built_14;
        reported_2 = refl;
        reported_12 = refl;
        reported_14 = refl;
      })

-- When the sequence is built, the DRAM reads the settings' read and write latencies from the MR2
-- that it ends with, and the reference voltages asked for, each in its range, from MR12 and MR14;
-- the dictionary returned has these three registers as they are loaded.
pub get_lpddr4-Programmed :
    (s : Settings) (r : Init) → get_lpddr4_phy_init_sequence s ≡ some r → Programmed s r
unfolding get_lpddr4_phy_init_sequence
get_lpddr4-Programmed s r e =
    let (mr, q, e0) = >>=-eq-some (mode_registers s) _ e in
    let (steps, qs, e1) = >>=-eq-some (cmds_of mr) _ e0 in
    let same : sequence_with (steps_of mr) mr ≡ r =
      ap (λ xs. sequence_with xs mr) (cmds_of-steps_of mr steps qs) ∙ some_inj e1 in
    subst (Programmed s) same (Registers-Programmed s mr (mode_registers-Registers s mr q))
