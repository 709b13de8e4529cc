-- ===== src/Phy/Lpddr4/Bringup.antt =====
-- The initialization sequence of litedram/init.py, issued by the phase injector of litedram/dfii.py,
-- through the adapter of litedram/phy/lpddr4/commands.py, to the simulated chip.
pub mod Sequence
use mathlib.Core.Path.{ap₂}
use litedram.Base.{
  ℕ, zero, suc, ◌≡◌, refl, sym, ap, ◌∙◌, Bool, true, false, Option, none, some, List, [], ◌∷◌, ◌++◌,
  ◌^◌, ◌%◌, ◌<◌, arith, replicate, ◌==◌, if◌then◌else◌,
}
use litedram.Init.Electrical.{get_or}
use litedram.Init.Table.{Table}
use litedram.Init.Sequence.{Step, Cmd, Init, at, loaded, mode_register, zq_calibration}
use litedram.Phy.Wires.{number-wires}
use litedram.Phy.Dfi
use litedram.Phy.Dfi.{Phase, phase_injector, dfi_cmd}
use litedram.Phy.Lpddr4.Commands.{
  Pins, truth_table, is_mrw, parse_bit, selects, set, choose_special, choose, choice, adapter,
  zqc_start, zqc_latch, special_mpc,
}
use litedram.Phy.Lpddr4.Sim.{
  Chip, mrw_cond1, mrw_cond2, mrw_next, mrw_op, act_cond1, act_cond2, act_next, act_row, cas_cond1,
  cas_cond2, cas_next, cas_col, cas_burst, cas_messages, refresh_cond, some_active, precharge_cond,
  mpc_cond, mpc_op,
}
use litedram.Phy.Lpddr4.Chip.{
  InitState, Sim, cmds_enabled, handled, handle, known_mpc, mrw_matched, act_matched, cas_matched,
  no_match, messages, mrw_write, row_write, act_write, pre_write, cas_write, fsm_command,
  fsm_messages, fsm_idle, step,
}
use litedram.Phy.Lpddr4.Decoded.{View, load_mode, Registers, at_rest, view}
use litedram.Phy.Lpddr4.Decoded.Frame.{registers}
use litedram.Phy.Lpddr4.Decoded.Stream.{quiet, cycles, frames, low}

-- The registers of the injector for a command of the sequence.
abbrev pub injector : (ras cas we cs : Bool) (a ba : ℕ) → Dfi.Registers
injector ras cas we cs a ba = record {
  cs = cs;
  we = we;
  cas = cas;
  ras = ras;
  cs_top = false;
  cs_bottom = false;
  address = a;
  baddress = ba;
}

-- A command is issued in one phase, and at least one phase without a command follows. The steps that
-- set `cke`, `odt` and `reset_n` give no command.
unfoldable pub step_phases : (gap : ℕ) → Step → List Phase
unfolding phase_injector
step_phases gap s = elim s.cmd [
  | Cmd.control cke odt reset_n ↦ []
  | Cmd.command ras cas we cs ↦
      let r = injector ras cas we cs s.a s.ba in
      phase_injector 1 true r ∷ replicate (suc gap) (phase_injector 1 false r)
]

unfoldable pub sequence_phases : (gap : ℕ) → List Step → List Phase
unfolding step_phases
sequence_phases gap [] = []
sequence_phases gap (s ∷ ss) = step_phases gap s ++ sequence_phases gap ss

abbrev zeros : List Bool
zeros = false ∷ false ∷ false ∷ false ∷ false ∷ false ∷ []

-- The simulator with no command on the pads.
abbrev pub waiting : InitState → Chip → Sim
waiting f c = record { tap0 = low zeros; tap1 = low zeros; fsm = f; chip = c }

-- The states that accept commands.
pub data Accepts : InitState → Type 0 where
  in_mrw : Accepts InitState.mrw
  in_zqc : Accepts InitState.zqc
  in_normal : Accepts InitState.normal

pub no_command-waiting :
    (init_delays m : Bool) (n : ℕ) (r : Dfi.Registers) (f : InitState) (c : Chip)
    → Accepts f
    → cycles init_delays (frames m (replicate n (phase_injector 1 false r))) (waiting f c)
      ≡ waiting f c
unfolding cycles frames adapter choice choose set selects truth_table is_mrw parse_bit
    phase_injector step handled cmds_enabled fsm_idle
no_command-waiting init_delays m zero r f c a = refl
no_command-waiting init_delays m (suc n) r _ c in_mrw =
    no_command-waiting init_delays m n r InitState.mrw c in_mrw
no_command-waiting init_delays m (suc n) r _ c in_zqc =
    no_command-waiting init_delays m n r InitState.zqc c in_zqc
no_command-waiting init_delays m (suc n) r _ c in_normal =
    no_command-waiting init_delays m n r InitState.normal c in_normal

-- A mode register write before the calibration.
pub mode_register_lem :
    (init_delays m : Bool) (a ba : ℕ) (r : Registers) (v : View)
    → let p = injector true true true true a ba in
      let s =
        cycles init_delays
          (frames m (phase_injector 1 true p ∷ phase_injector 1 false p ∷ []))
          (waiting InitState.mrw (at_rest r v)) in
      s ≡ waiting InitState.mrw (at_rest (registers s.chip) (load_mode (ba % 2 ^ 6) (a % 2 ^ 8) v))
unfolding cycles frames adapter choice choose choose_special set selects truth_table is_mrw
    parse_bit phase_injector step handled handle cmds_enabled fsm_idle fsm_command fsm_messages
    mrw_cond1 mrw_cond2 mrw_next mrw_op act_cond1 act_cond2 act_next act_row cas_cond1 cas_cond2
    cas_next cas_col cas_burst cas_messages refresh_cond precharge_cond mpc_cond mpc_op mrw_matched
    act_matched cas_matched no_match messages mrw_write row_write act_write pre_write cas_write
    known_mpc load_mode
mode_register_lem init_delays m a ba r v =
    let p = injector true true true true a ba in
    let s =
      cycles init_delays (frames m (phase_injector 1 true p ∷ phase_injector 1 false p ∷ []))
        (waiting InitState.mrw (at_rest r v)) in
    ap₂ (λ ma op. waiting InitState.mrw (at_rest (registers s.chip) (load_mode ma op v)))
      (number-wires 6 ba) (number-wires 8 a)

-- The commands of the calibration, each in its state.
pub zqc_lem :
    (init_delays m : Bool) (r : Registers) (v : View)
    → let p = injector false false true true zqc_start special_mpc in
      let q = injector false false true true zqc_latch special_mpc in
      let s =
        cycles init_delays
          (frames m (phase_injector 1 true p ∷ phase_injector 1 false p ∷ []))
          (waiting InitState.mrw (at_rest r v)) in
      let t =
        cycles init_delays
          (frames m (phase_injector 1 true q ∷ phase_injector 1 false q ∷ []))
          (waiting InitState.zqc (at_rest r v)) in
      (s ≡ waiting InitState.zqc (at_rest (registers s.chip) v))
      × (t ≡ waiting InitState.normal (at_rest (registers t.chip) v))
unfolding cycles frames adapter choice choose choose_special set selects truth_table is_mrw
    parse_bit phase_injector step handled handle cmds_enabled fsm_idle fsm_command fsm_messages
    mrw_cond1 mrw_cond2 mrw_next mrw_op act_cond1 act_cond2 act_next act_row cas_cond1 cas_cond2
    cas_next cas_col cas_burst cas_messages refresh_cond precharge_cond mpc_cond mpc_op mrw_matched
    act_matched cas_matched no_match messages mrw_write row_write act_write pre_write cas_write
    known_mpc load_mode
zqc_lem init_delays m r v = (refl, refl)
