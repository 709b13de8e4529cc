-- ===== src/Phy/Lpddr5/Bringup/Sequence.antt =====
-- The whole sequence of `get_lpddr5_phy_init_sequence` of litedram/init.py in the simulated chip.
use mathlib.Core.Path.{ap₂, subst}
use native.Mathlib.Nat.{mod-eq_of_lt}
use litedram.Base.{
  ℕ, suc, ◌≡◌, refl, sym, ap, ◌∙◌, Bool, true, false, none, some, List, [], ◌∷◌, ◌++◌, ◌^◌, ◌<◌,
  ◌+◌, arith, min, max, replicate, some_inj, inl, inr, Option-cases,
}
use litedram.Init.Electrical.{get_or}
use litedram.Init.Table.{Table, >>=-eq-some}
use litedram.Init.Sequence.{Step, Init, at, loaded, mode_register, zq_calibration}
use litedram.Init.Load.{
  steps_of, Fits, Addresses, loaded-append, loaded-control, load_table, load_table-loaded,
  load_table-keeps, performed-steps_of,
}
use litedram.Init.Lpddr5.{
  Settings, cmds_of, low_registers, high_registers, sequence_with, get_lpddr5_phy_init_sequence,
}
use litedram.Init.Lpddr5.Mode.{
  cmds_of-steps_of, cmds_of-Fits, Low, High, low_registers-Low, high_registers-High,
}
use litedram.Phy.Dfi
use litedram.Phy.Dfi.{Phase, phase_injector}
use litedram.Phy.Lpddr4.Bringup.{injector}
use litedram.Phy.Lpddr4.Sim.{put}
use litedram.Phy.Lpddr5.Commands.{adapter, zqc_latch, special_mpc, special_nop}
use litedram.Phy.Lpddr5.Cycle.{InitState, Sim}
use litedram.Phy.Lpddr5.Decoded.{View, load_mode, Registers, at_rest}
use litedram.Phy.Lpddr5.Decoded.Frame.{registers}
use litedram.Phy.Lpddr5.Decoded.Stream.{cycles, frames, cycles-append}
use litedram.Phy.Lpddr5.Bringup.{
  step_phases, sequence_phases, waiting, Accepts, in_mode_regs, in_normal, issue, run,
  no_command-waiting, commands_lem,
}

frames-append :
    (m : Bool) (ps qs : List (Bool × Phase)) → frames m (ps ++ qs) ≡ frames m ps ++ frames m qs
unfolding frames adapter
frames-append m [] qs = refl
frames-append m ((done, p) ∷ ps) qs = ap (λ fs. adapter m done p ++ fs) (frames-append m ps qs)

abbrev calibration : List Step
calibration = at zqc_latch special_mpc zq_calibration (max 4 6) ∷ []

module _ (check_timings m : Bool) (gap : ℕ) where
  -- The simulator after the phases of some steps.
  abbrev performed : List Step → Sim → Sim
  performed ss s = cycles check_timings (frames m (sequence_phases gap ss)) s

  performed-cons :
      (s : Step) (ss : List Step) (z : Sim)
      → performed (s ∷ ss) z ≡ performed ss (cycles check_timings (frames m (step_phases gap s)) z)
  unfolding sequence_phases
  performed-cons s ss z =
      ap (λ ps. cycles check_timings ps z)
        (frames-append m (step_phases gap s) (sequence_phases gap ss))
      ∙ cycles-append check_timings (frames m (step_phases gap s)) _ z

  -- A command with two phases without one, and the phases that follow.
  command_step :
      (p : Dfi.Registers) (f : InitState) (z : Sim) (r : Registers) (v : View)
      → Accepts f
      → cycles check_timings (frames m (issue p)) z ≡ waiting f (at_rest r v)
      → (r1 : Registers) × (cycles check_timings
            (frames m (
              (false, phase_injector 1 true p)
              ∷ replicate (suc (suc gap)) (false, phase_injector 1 false p)))
            z
          ≡ waiting f (at_rest r1 v))
  unfolding frames adapter cycles
  command_step p f z r v a h =
      let (r1, e) = no_command-waiting check_timings m gap p f r v a in
      (
        r1,
        ap (cycles check_timings (frames m (replicate gap (false, phase_injector 1 false p)))) h
            ∙ e,
      )

  mode_step :
      (ma op : ℕ) (r : Registers) (v : View)
      → ma < 2 ^ 7
      → op < 2 ^ 8
      → (r1 : Registers) × (cycles check_timings
            (frames m (step_phases gap (at op ma mode_register 200)))
            (waiting InitState.mode_regs (at_rest r v))
          ≡ waiting InitState.mode_regs (at_rest r1 (load_mode ma op v)))
  unfolding step_phases run
  mode_step ma op r v h k =
      let p = injector true true true true op ma in
      let z = waiting InitState.mode_regs (at_rest r v) in
      let r1 = registers (run check_timings m InitState.mode_regs p r v).chip in
      command_step p InitState.mode_regs z r1 (load_mode ma op v) in_mode_regs (
        (commands_lem check_timings m op ma r v).1
        ∙ ap₂ (λ a b. waiting InitState.mode_regs (at_rest r1 (load_mode a b v))) (mod-eq_of_lt h)
            (mod-eq_of_lt k))

  write_step :
      (ma op : ℕ) (rest : List Step) (r : Registers) (v : View)
      → ma < 2 ^ 7
      → op < 2 ^ 8
      → (r1 : Registers) × (performed
            (at op ma mode_register 200 ∷ rest)
            (waiting InitState.mode_regs (at_rest r v))
          ≡ performed rest (waiting InitState.mode_regs (at_rest r1 (load_mode ma op v))))
  write_step ma op rest r v h k =
      let (r1, one) = mode_step ma op r v h k in
      (
        r1,
        performed-cons (at op ma mode_register 200) rest (waiting InitState.mode_regs (at_rest r v))
            ∙ ap (performed rest) one,
      )

  -- The NOP before the mode registers and the latch after them.
  performed-nop :
      (ss : List Step) (r : Registers) (v : View)
      → (r1 : Registers) × (performed
            (at 0 special_nop zq_calibration 400 ∷ ss)
            (waiting InitState.wait_nop (at_rest r v))
          ≡ performed ss (waiting InitState.mode_regs (at_rest r1 v)))
  unfolding step_phases run
  performed-nop ss r v =
      let p = injector false false true true 0 special_nop in
      let z = waiting InitState.wait_nop (at_rest r v) in
      let r1 = registers (run check_timings m InitState.wait_nop p r v).chip in
      let (r2, e) =
        command_step p InitState.mode_regs z r1 v in_mode_regs
          (commands_lem check_timings m 0 0 r v).0 in
      (r2, performed-cons (at 0 special_nop zq_calibration 400) ss z ∙ ap (performed ss) e)

  performed-calibration :
      (r : Registers) (v : View)
      → (r1 : Registers) × (performed calibration (waiting InitState.mode_regs (at_rest r v))
          ≡ waiting InitState.normal (at_rest r1 v))
  unfolding step_phases sequence_phases cycles frames run
  performed-calibration r v =
      let p = injector false false true true zqc_latch special_mpc in
      let z = waiting InitState.mode_regs (at_rest r v) in
      let r1 = registers (run check_timings m InitState.mode_regs p r v).chip in
      let (r2, e) =
        command_step p InitState.normal z r1 v in_normal (commands_lem check_timings m 0 0 r v).2 in
      (
        r2,
        performed-cons (at zqc_latch special_mpc zq_calibration (max 4 6)) [] z
            ∙ ap (performed []) e,
      )

loaded-calibration : (k : ℕ) → loaded k calibration ≡ none
unfolding loaded
loaded-calibration k = refl

loaded-nop :
    (k : ℕ) (ss : List Step) → loaded k (at 0 special_nop zq_calibration 400 ∷ ss) ≡ loaded k ss
unfolding loaded
loaded-nop k ss = elim (Option-cases (loaded k ss)) [ inl e ↦ rw e refl | inr (v, e) ↦ rw e refl ]

loads :
    (ma op k : ℕ) (v : View)
    → ma < 64
    → (load_mode ma op v).device.mode_regs k ≡ put v.device.mode_regs ma op k
unfolding load_mode
loads ma op k v a =
    ap (λ b. put v.device.mode_regs b op k) (let l : min ma 63 ≡ ma = omega (arith, a) in l)

-- What the sequence leaves in a chip.
abbrev pub BroughtUp : Init → Sim → View → Type 0
BroughtUp init s v =
    (s.fsm ≡ InitState.normal)
    × (s.chip.log ≡ v.log)
    × ((k : ℕ) → s.chip.device.mode_regs k ≡ get_or (loaded k init.sequence) (v.device.mode_regs k))

sequence_with-BroughtUp :
    (mr : Table)
    → Addresses mr
    → Fits 7 mr
    → (check_timings m : Bool) (gap : ℕ) (r : Registers) (v : View)
    → BroughtUp
        (sequence_with (steps_of mr) mr)
        (performed check_timings m gap
          (sequence_with (steps_of mr) mr).sequence
          (waiting InitState.wait_nop (at_rest r v)))
        v
unfolding sequence_phases step_phases load_mode
sequence_with-BroughtUp mr a fits check_timings m gap r v =
    let (r0, e0) = performed-nop check_timings m gap (steps_of mr ++ calibration) r v in
    let (r1, e1) =
      performed-steps_of load_mode (performed check_timings m gap)
        (λ q u. waiting InitState.mode_regs (at_rest q u)) 7 (write_step check_timings m gap) mr
        calibration r0 v fits in
    let (r2, e2) = performed-calibration check_timings m gap r1 (load_table load_mode mr v) in
    let ended = e0 ∙ e1 ∙ e2 in
    (
      ap (λ (s : Sim). s.fsm) ended,
      ap (λ (s : Sim). s.chip.log) ended
          ∙ load_table-keeps load_mode (λ (u : View). u.log) (λ ma op u. refl) mr v,
      λ k.
          ap (λ (s : Sim). s.chip.device.mode_regs k) ended
          ∙ load_table-loaded load_mode (λ u. u.device.mode_regs) (λ ma op j u l. loads ma op j u l)
              mr v k a
          ∙ ap (λ o. get_or o (v.device.mode_regs k))
              (sym (
                loaded-control k 0 0 40000 false true false _
                ∙ loaded-control k 0 0 (400000 + 5) false true true _
                ∙ loaded-nop k _
                ∙ loaded-append k (steps_of mr) calibration (loaded-calibration k))),
    )

tables-Addresses : {g : Settings} (l h : Table) → Low g l → High g h → Addresses (l ++ h)
tables-Addresses l h a b =
    let low : Table = (1, a.m1) ∷ (2, a.m2) ∷ (3, a.m3) ∷ (10, a.m10) ∷ (11, a.m11) ∷ [] in
    subst (λ t. Addresses (t ++ h)) a.built
      (subst (λ t. Addresses (low ++ t)) b.built (omega arith))

-- The simulator after a whole sequence.
abbrev pub after_sequence : (check_timings m : Bool) (gap : ℕ) → Init → Registers → View → Sim
unfolding cycles frames sequence_phases
after_sequence check_timings m gap init r v =
    cycles check_timings (frames m (sequence_phases gap init.sequence))
      (waiting InitState.wait_nop (at_rest r v))

pub get_lpddr5-BroughtUp :
    (g : Settings) (init : Init)
    → get_lpddr5_phy_init_sequence g ≡ some init
    → (check_timings m : Bool) (gap : ℕ) (r : Registers) (v : View)
    → BroughtUp init (after_sequence check_timings m gap init r v) v
unfolding get_lpddr5_phy_init_sequence after_sequence
get_lpddr5-BroughtUp g init built check_timings m gap r v =
    let (l, ql, e0) = >>=-eq-some (low_registers g) _ built in
    let (h, qh, e1) = >>=-eq-some (high_registers g) _ e0 in
    let (steps, q1, e2) = >>=-eq-some (cmds_of (l ++ h)) _ e1 in
    subst (λ (x : Init). BroughtUp x (after_sequence check_timings m gap x r v) v)
      (ap (λ xs. sequence_with xs (l ++ h)) (cmds_of-steps_of (l ++ h) steps q1) ∙ some_inj e2)
      (sequence_with-BroughtUp (l ++ h)
        (tables-Addresses l h (low_registers-Low g l ql) (high_registers-High g h qh))
        (cmds_of-Fits (l ++ h) steps q1) check_timings m gap r v)
