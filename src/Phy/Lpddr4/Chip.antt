-- ===== src/Phy/Lpddr4/Chip.antt =====
-- The clock cycle of `CommandsSim` of litedram/phy/lpddr4/sim.py: all handlers of a command, the shift
-- registers of CS and CA, and the FSM of the initialization.
use litedram.Base.{
  ℕ, Bool, true, false, not, ◌&&◌, ◌||◌, Option, none, some, List, [], ◌∷◌, ◌==◌, if◌then◌else◌,
}
use litedram.Phy.Wires.{number}
use litedram.Phy.Lpddr4.Commands.{Pins, zqc_start, zqc_latch, mpc_codes}
use litedram.Phy.Lpddr4.Sim.{
  Message, put, Chip, Edges, top, two_step, second_done, waiting, note, mrw_cond1, mrw_cond2,
  mrw_next, mrw_op, act_cond1, act_cond2, act_next, act_row, cas_cond1, cas_cond2, cas_next,
  cas_burst, cas_messages, refresh_cond, some_active, precharge_cond, pre_bank, mpc_cond, mpc_op,
}

-- The results of the handlers: which of them matches.
unfoldable pub mrw_matched : Edges → Chip → Bool
unfolding mrw_cond1 mrw_cond2
mrw_matched e c = two_step c.mrw.half (mrw_cond1 e) (mrw_cond2 e)

unfoldable pub act_matched : Edges → Chip → Bool
unfolding act_cond1 act_cond2
act_matched e c = two_step c.act.half (act_cond1 e) (act_cond2 e)

unfoldable pub cas_matched : Edges → Chip → Bool
unfolding cas_cond1 cas_cond2
cas_matched e c = two_step c.cas.half (cas_cond1 e) (cas_cond2 e)

-- `~reduce(or_, cmd_handlers.values())`.
unfoldable pub no_match : Edges → Chip → Bool
unfolding mrw_matched act_matched cas_matched refresh_cond precharge_cond mpc_cond
no_match e c = not (
    mrw_matched e c
    || (refresh_cond e
        || (act_matched e c || (precharge_cond e || (cas_matched e c || mpc_cond e)))))

unfoldable pub known_mpc : ℕ → List ℕ → Bool
known_mpc op [] = false
known_mpc op (code ∷ codes) = (op == code) || known_mpc op codes

-- The messages of all handlers, each with its own registers and the chip's, before the log.
unfoldable pub messages : Edges → Chip → List Message → List Message
unfolding mrw_cond2 act_cond2 cas_cond2 cas_messages refresh_cond some_active precharge_cond
    mpc_cond mpc_op no_match known_mpc
messages e c log =
    let d = c.device in
    note (no_match e c) Message.unexpected_command (
      waiting c.mrw.half (mrw_cond2 e) (
        note (refresh_cond e && some_active d.active_banks) Message.refresh_with_active_banks (
          waiting c.act.half (act_cond2 e) (
            note (second_done c.act.half (act_cond2 e) && d.active_banks (number c.act.bank))
              Message.act_on_active_bank
              (note (precharge_cond e && (not (top e) && not (d.active_banks (pre_bank e))))
                Message.pre_on_inactive_bank
                (waiting c.cas.half (cas_cond2 e) (
                  (if second_done c.cas.half (cas_cond2 e)
                      then cas_messages e c.cas d
                      else (λ (l : List Message). l))
                    (note (mpc_cond e && (top e && not (known_mpc (mpc_op e) mpc_codes)))
                      Message.invalid_mpc log))))))))

-- The writes of the handlers to the banks and to the mode registers.
unfoldable pub mrw_write : Edges → Chip → ℕ → ℕ
unfolding mrw_cond2 mrw_op
mrw_write e c =
    if second_done c.mrw.half (mrw_cond2 e)
    then put c.device.mode_regs (number c.mrw.ma) (mrw_op e c.mrw)
    else c.device.mode_regs

unfoldable pub row_write : Edges → Chip → ℕ → ℕ
unfolding act_cond2 act_row
row_write e c =
    if second_done c.act.half (act_cond2 e)
    then put c.device.active_rows (number c.act.bank) (act_row e c.act)
    else c.device.active_rows

unfoldable pub act_write : Edges → Chip → (ℕ → Bool) → ℕ → Bool
unfolding act_cond2
act_write e c banks =
    if second_done c.act.half (act_cond2 e) then put banks (number c.act.bank) true else banks

unfoldable pub pre_write : Edges → (ℕ → Bool) → ℕ → Bool
unfolding precharge_cond
pre_write e banks =
    if precharge_cond e
    then (if top e then (λ b. false) else put banks (pre_bank e) false)
    else banks

unfoldable pub cas_write : Edges → Chip → (ℕ → Bool) → ℕ → Bool
unfolding cas_cond2
cas_write e c banks =
    if second_done c.cas.half (cas_cond2 e) && c.cas.auto_precharge
    then put banks (number c.cas.bank) false
    else banks

-- What `handle_cmd` does in its cycle.
unfoldable pub handle : Edges → Chip → Chip
unfolding mrw_next act_next cas_next cas_cond2 cas_burst messages mrw_write row_write act_write
    pre_write cas_write
handle e c = record {
  mrw = mrw_next e c.mrw;
  act = act_next e c.act;
  cas = cas_next e c.cas;
  device = record {
    mode_regs = mrw_write e c;
    active_banks = cas_write e c (pre_write e (act_write e c c.device.active_banks));
    active_rows = row_write e c;
  };
  log = messages e c c.log;
  bursts =
      if second_done c.cas.half (cas_cond2 e)
      then cas_burst e c.cas c.device ∷ c.bursts
      else c.bursts;
}

pub data InitState : Type 0 where
  reset exit_pd mrw zqc normal : InitState

-- The pads, the data FIFO and the timers in one cycle.
pub record Inputs : Type 0 where
  pub pins : Pins
  pub sink_ready : Bool
  pub tinit3_ready_p : Bool
  pub tinit5_ready_p : Bool
  pub tpw_reset_ready_p : Bool
  pub tzqcal_ready : Bool
  pub tzqlat_ready : Bool

-- `cs.taps` and `ca.taps`, the last cycle first.
pub record Sim : Type 0 where
  pub tap0 : Pins
  pub tap1 : Pins
  pub fsm : InitState
  pub chip : Chip

unfoldable pub cmds_enabled : InitState → Bool
cmds_enabled InitState.reset = false
cmds_enabled InitState.exit_pd = false
cmds_enabled _ = true

-- `Cat(cs.taps) == 0b10`: CS was high and is low, and the commands are enabled.
unfoldable pub handled : Inputs → Sim → Option Edges
unfolding cmds_enabled
handled i s =
    if cmds_enabled s.fsm && (s.tap1.cs && not s.tap0.cs)
    then some (record { cs_high = s.tap1.ca; cs_low = s.tap0.ca; sink_ready = i.sink_ready })
    else none

-- The FSM in a cycle with a command.
unfoldable pub fsm_command : Edges → Chip → InitState → InitState
unfolding mpc_cond mpc_op
fsm_command e c InitState.mrw =
    if mpc_cond e && (mpc_op e == zqc_start) then InitState.zqc else InitState.mrw
fsm_command e c InitState.zqc =
    if mpc_cond e && (mpc_op e == zqc_latch) then InitState.normal else InitState.zqc
fsm_command e c f = f

unfoldable pub fsm_messages :
    (init_delays : Bool) → Inputs → Edges → Chip → InitState → List Message → List Message
unfolding mpc_cond mpc_op mrw_matched
fsm_messages init_delays i e c InitState.mrw log =
    note (not (mrw_matched e c) && not (mpc_cond e)) Message.only_mrw_expected
      (note (mpc_cond e && not (mpc_op e == zqc_start)) Message.zqc_start_expected log)
fsm_messages init_delays i e c InitState.zqc log =
    if mpc_cond e && (mpc_op e == zqc_latch)
    then note (not i.tzqcal_ready && init_delays) Message.tzqcal_violated log
    else Message.zqc_latch_expected ∷ log
fsm_messages init_delays i e c InitState.normal log =
    note (not i.tzqlat_ready && init_delays) Message.tzqlat_violated log
fsm_messages init_delays i e c f log = log

-- The FSM in a cycle without a command.
unfoldable pub fsm_idle : (init_delays : Bool) → Inputs → InitState → InitState
fsm_idle init_delays i InitState.reset =
    if i.tinit3_ready_p || not init_delays then InitState.exit_pd else InitState.reset
fsm_idle init_delays i InitState.exit_pd =
    if i.tinit5_ready_p || not init_delays then InitState.mrw else InitState.exit_pd
fsm_idle init_delays i f = f

-- `ResetInserter`.
abbrev next_fsm : Inputs → InitState → InitState
next_fsm i f = if i.tpw_reset_ready_p then InitState.reset else f

-- A clock cycle.
unfoldable pub step : (init_delays : Bool) → Inputs → Sim → Sim
unfolding handled handle fsm_command fsm_messages fsm_idle
step init_delays i s = elim (handled i s) [
  | none ↦ record {
    tap0 = i.pins;
    tap1 = s.tap0;
    fsm = next_fsm i (fsm_idle init_delays i s.fsm);
    chip = s.chip;
  }
  | some e ↦ record {
    tap0 = i.pins;
    tap1 = s.tap0;
    fsm = next_fsm i (fsm_command e s.chip s.fsm);
    chip =
        let c = handle e s.chip in
        record c { log = fsm_messages init_delays i e s.chip s.fsm c.log };
  }
]
