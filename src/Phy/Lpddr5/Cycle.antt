-- ===== src/Phy/Lpddr5/Cycle.antt =====
-- The FSM of the initialization of litedram/phy/lpddr5/sim.py and a clock cycle of the simulated chip.
-- The readiness of the timers but `next_cmd_timer` is an input; tINIT2 and tPW_RESET, which only log,
-- are left out.
use litedram.Base.{
  Bool, true, false, not, ◌&&◌, ◌||◌, Option, none, some, List, ◌==◌, if◌then◌else◌,
}
use litedram.Phy.Wires.{is}
use litedram.Phy.Lpddr5.Commands.{Pins, zqc_latch}
use litedram.Phy.Lpddr5.Sim.{Message, Chip, Edges, note, mpc_cond, operand}
use litedram.Phy.Lpddr5.Chip.{handle, mrw_matched}

pub data InitState : Type 0 where
  reset wait_nop no_cmds mode_regs zqc normal : InitState

-- `…_rise` is `edge` of a pad or of a timer's `ready`.
pub record Inputs : Type 0 where
  pub pins : Pins
  pub reset_n_rise : Bool
  pub tpw_reset_rise : Bool
  pub tinit1_ready : Bool
  pub tinit3_ready : Bool
  pub tinit4_ready : Bool
  pub tinit5_ready : Bool
  pub tzqlat_ready : Bool

-- `cs_pre`, `ca_p_pre` and `ca_n_pre`; then `cs`, `ca_p` and `ca_n`.
pub record Sim : Type 0 where
  pub pre : Pins
  pub now : Pins
  pub fsm : InitState
  pub chip : Chip

abbrev pub edges : Pins → Edges
edges p = record { ca_p = p.ca_p; ca_n = p.ca_n }

abbrev is_reset : InitState → Bool
is_reset InitState.reset = true
is_reset _ = false

-- `ResetFSM`: in a cycle of a new reset the statements of the other states do not act.
abbrev resets : Inputs → InitState → Bool
resets i f = i.tpw_reset_rise && not (is_reset f)

abbrev enables : InitState → Bool
enables InitState.mode_regs = true
enables InitState.zqc = true
enables InitState.normal = true
enables _ = false

unfoldable pub cmds_enabled : Inputs → InitState → Bool
cmds_enabled i f = enables f && not i.tpw_reset_rise

abbrev waits_nop : InitState → Bool
waits_nop InitState.wait_nop = true
waits_nop _ = false

unfoldable pub allow_unhandled_cmd : Inputs → Sim → Bool
allow_unhandled_cmd i s = waits_nop s.fsm && (s.now.cs && not i.tpw_reset_rise)

unfoldable pub handled : Inputs → Sim → Option Edges
unfolding cmds_enabled
handled i s = if cmds_enabled i s.fsm && s.now.cs then some (edges s.now) else none

-- A multipurpose command is handled, and is the latch of the calibration.
abbrev mpc : Option Edges → Bool
unfolding mpc_cond
mpc none = false
mpc (some e) = mpc_cond e

abbrev latch : Option Edges → Bool
unfolding operand
latch none = false
latch (some e) = operand e == zqc_latch

-- `check_timings` is the number 0 or 1 in the source, and `~` of either is a number that is not 0: with
-- `| ~check_timings` the FSM waits for no timer, whatever `check_timings` is.
unfoldable pub fsm_state :
    (check_timings : Bool) → Inputs → Option Edges → Sim → InitState → InitState
unfolding mpc_cond operand
fsm_state check_timings i o s InitState.reset =
    if i.reset_n_rise then InitState.wait_nop else InitState.reset
fsm_state check_timings i o s InitState.wait_nop =
    if s.now.cs then InitState.no_cmds else InitState.wait_nop
fsm_state check_timings i o s InitState.no_cmds = InitState.mode_regs
fsm_state check_timings i o s InitState.mode_regs =
    if mpc o && latch o then InitState.zqc else InitState.mode_regs
fsm_state check_timings i o s InitState.zqc = InitState.normal
fsm_state check_timings i o s InitState.normal = InitState.normal

abbrev violated : (check_timings ready : Bool) → Bool
violated check_timings ready = not ready && check_timings

abbrev other_than_mode : Option Edges → Chip → Bool
unfolding mrw_matched mpc_cond
other_than_mode none c = false
other_than_mode (some e) c = not (mrw_matched e c) && not (mpc_cond e)

abbrev is_command : Option Edges → Bool
is_command none = false
is_command (some e) = true

unfoldable pub fsm_messages :
    (check_timings : Bool) → Inputs → Option Edges → Sim → InitState → List Message → List Message
unfolding mpc_cond mrw_matched operand
fsm_messages check_timings i o s InitState.reset log =
    note (i.reset_n_rise && violated check_timings i.tinit1_ready) Message.tinit1_violated log
fsm_messages check_timings i o s InitState.wait_nop log =
    note (s.now.cs && violated check_timings i.tinit3_ready) Message.tinit3_violated (
      note (s.now.cs && violated check_timings i.tinit4_ready) Message.tinit4_violated (
        note (s.now.cs && violated check_timings i.tinit4_ready) Message.tinit4_violated (
          note (s.now.cs && (not (is s.now.ca_p 0) || not (is s.now.ca_n 0)))
            Message.waiting_for_nop log)))
fsm_messages check_timings i o s InitState.no_cmds log =
    note (s.now.cs && violated check_timings i.tinit5_ready) Message.tinit5_violated log
fsm_messages check_timings i o s InitState.mode_regs log =
    note (other_than_mode o s.chip) Message.only_mrw_expected
      (note (mpc o && not (latch o)) Message.zqc_latch_expected log)
fsm_messages check_timings i o s InitState.zqc log =
    note (is_command o && violated check_timings i.tzqlat_ready) Message.tzqcal_violated log
fsm_messages check_timings i o s InitState.normal log = log

-- The messages of the FSM and of a command that none may be, before the chip's.
unfoldable pub all_messages :
    (check_timings : Bool) → Inputs → Option Edges → Sim → List Message → List Message
unfolding cmds_enabled allow_unhandled_cmd fsm_messages
all_messages check_timings i o s log =
    note ((not (cmds_enabled i s.fsm) && not (allow_unhandled_cmd i s)) && s.now.cs)
      Message.commands_disabled
      (if resets i s.fsm then log else fsm_messages check_timings i o s s.fsm log)

unfoldable pub step : (check_timings : Bool) → Inputs → Sim → Sim
unfolding handled handle fsm_state all_messages
step check_timings i s =
    let o = handled i s in
    let c = handle o s.chip in
    record {
      pre = i.pins;
      now = s.pre;
      fsm = if resets i s.fsm then InitState.reset else fsm_state check_timings i o s s.fsm;
      chip = record c { log = all_messages check_timings i o s c.log };
    }
