-- ===== src/Phy/Lpddr5/Bringup.antt =====
-- The initialization sequence of LPDDR5 of litedram/init.py, issued by the phase injector of
-- litedram/dfii.py, through the adapter of litedram/phy/lpddr5/commands.py, to the simulated chip.
pub mod Sequence
pub mod Latency
use mathlib.Core.Path.{ap₂}
use litedram.Base.{
  ℕ, zero, suc, ◌≡◌, refl, sym, ap, ◌∙◌, Bool, true, false, Option, none, some, List, [], ◌∷◌, ◌++◌,
  ◌^◌, ◌%◌, ◌+◌, ◌<◌, arith, replicate, ◌==◌, if◌then◌else◌,
}
use litedram.Init.Sequence.{Step, Cmd, at, mode_register}
use litedram.Phy.Wires.{number-wires}
use litedram.Phy.Dfi
use litedram.Phy.Dfi.{Phase, phase_injector, dfi_cmd}
use litedram.Phy.PulseTiming
use litedram.Phy.Lpddr4.Bringup.{injector}
use litedram.Phy.Lpddr5.Commands.{
  Pins, truth_table, is_mrw, is_mpc, mpc_op, parse_bit, selects, set, choose_special, choose,
  choice, adapter, zqc_latch, special_mpc, special_nop,
}
use litedram.Phy.Lpddr5.Sim.{
  Chip, mrw_cond1, mrw_cond2, operand, act_cond1, act_cond2, act_row, precharge_cond, refresh_cond,
  mpc_cond, cas_cond, masked_write, write, write32, read, read32, data_cond,
}
use litedram.Phy.Lpddr5.Chip.{
  mrw_next, mrw_matched, act_trigger, timeout, act_next, activates, act_matched, no_match, is_zqc,
  messages, mrw_write, row_write, bank_write, handle,
}
use litedram.Phy.Lpddr5.Cycle.{
  InitState, Sim, cmds_enabled, allow_unhandled_cmd, handled, fsm_state, fsm_messages, all_messages,
  step,
}
use litedram.Phy.Lpddr5.Decoded.{View, load_mode, Registers, at_rest}
use litedram.Phy.Lpddr5.Decoded.Frame.{registers}
use litedram.Phy.Lpddr5.Decoded.Stream.{quiet, cycles, frames}

-- A command is issued in one phase, and at least two phases without a command follow. The steps that
-- set `cke`, `odt` and `reset_n` give no command.
unfoldable pub step_phases : (gap : ℕ) → Step → List (Bool × Phase)
unfolding phase_injector
step_phases gap s = elim s.cmd [
  | Cmd.control cke odt reset_n ↦ []
  | Cmd.command ras cas we cs ↦
      let r = injector ras cas we cs s.a s.ba in
      (false, phase_injector 1 true r) ∷ replicate (suc (suc gap)) (false, phase_injector 1 false r)
]

unfoldable pub sequence_phases : (gap : ℕ) → List Step → List (Bool × Phase)
unfolding step_phases
sequence_phases gap [] = []
sequence_phases gap (s ∷ ss) = step_phases gap s ++ sequence_phases gap ss

abbrev zeros : Pins
zeros =
    let ca = false ∷ false ∷ false ∷ false ∷ false ∷ false ∷ false ∷ [] in
    record { cs = false; ca_p = ca; ca_n = ca }

-- The simulator with no command on the pads or in its registers.
abbrev pub waiting : InitState → Chip → Sim
waiting f c = record { pre = zeros; now = zeros; fsm = f; chip = c }

-- The states in which it waits for commands.
pub data Accepts : InitState → Type 0 where
  in_mode_regs : Accepts InitState.mode_regs
  in_normal : Accepts InitState.normal

abbrev pub issue : Dfi.Registers → List (Bool × Phase)
issue p =
    (false, phase_injector 1 true p)
    ∷ (false, phase_injector 1 false p)
    ∷ (false, phase_injector 1 false p)
    ∷ []

pub no_command-waiting :
    (check_timings m : Bool) (n : ℕ) (p : Dfi.Registers) (f : InitState) (r : Registers) (v : View)
    → Accepts f
    → (r1 : Registers) × (cycles check_timings
          (frames m (replicate n (false, phase_injector 1 false p)))
          (waiting f (at_rest r v))
        ≡ waiting f (at_rest r1 v))
unfolding cycles frames adapter choice choose set selects truth_table is_mrw parse_bit
    phase_injector step handled handle cmds_enabled allow_unhandled_cmd fsm_state fsm_messages
    all_messages mrw_next act_next act_trigger timeout PulseTiming.step
no_command-waiting check_timings m zero p f r v a = (r, refl)
no_command-waiting check_timings m (suc n) p _ r v in_mode_regs =
    let next =
      cycles check_timings (frames m ((false, phase_injector 1 false p) ∷ []))
        (waiting InitState.mode_regs (at_rest r v)) in
    no_command-waiting check_timings m n p InitState.mode_regs (registers next.chip) v in_mode_regs
no_command-waiting check_timings m (suc n) p _ r v in_normal =
    let next =
      cycles check_timings (frames m ((false, phase_injector 1 false p) ∷ []))
        (waiting InitState.normal (at_rest r v)) in
    no_command-waiting check_timings m n p InitState.normal (registers next.chip) v in_normal

abbrev pub run : (check_timings m : Bool) → InitState → Dfi.Registers → Registers → View → Sim
unfolding phase_injector frames cycles
run check_timings m f p r v = cycles check_timings (frames m (issue p)) (waiting f (at_rest r v))

-- Each command of the sequence: the first NOP, a mode register write, the latch of the calibration.
pub commands_lem :
    (check_timings m : Bool) (a ba : ℕ) (r : Registers) (v : View)
    → let nop =
        run check_timings m InitState.wait_nop (injector false false true true 0 special_nop) r v in
      let mrw = run check_timings m InitState.mode_regs (injector true true true true a ba) r v in
      let latch =
        run check_timings m InitState.mode_regs
          (injector false false true true zqc_latch special_mpc)
          r
          v in
      (nop ≡ waiting InitState.mode_regs (at_rest (registers nop.chip) v))
      × (mrw
          ≡ waiting InitState.mode_regs
              (at_rest (registers mrw.chip) (load_mode (ba % 2 ^ 7) (a % 2 ^ 8) v)))
      × (latch ≡ waiting InitState.normal (at_rest (registers latch.chip) v))
unfolding cycles frames adapter choice choose choose_special set selects truth_table is_mrw is_mpc
    mpc_op parse_bit phase_injector step handled handle cmds_enabled allow_unhandled_cmd fsm_state
    fsm_messages all_messages mrw_cond1 mrw_cond2 operand act_cond1 act_cond2 act_row precharge_cond
    refresh_cond mpc_cond cas_cond masked_write write write32 read read32 data_cond mrw_next
    mrw_matched act_trigger timeout act_next activates act_matched no_match is_zqc messages
    mrw_write row_write bank_write load_mode PulseTiming.ready PulseTiming.step
    PulseTiming.next_count PulseTiming.next_ready
commands_lem check_timings m a ba r v =
    let s = run check_timings m InitState.mode_regs (injector true true true true a ba) r v in
    (
      refl,
      ap₂ (λ ma op. waiting InitState.mode_regs (at_rest (registers s.chip) (load_mode ma op v)))
          (number-wires 7 ba) (number-wires 8 a),
      refl,
    )
