-- ===== src/Core/Refresher.antt =====
-- litedram/core/refresher.py: the timer, the postponer and the FSM that manage DRAM refresh. The
-- sequences of commands are in `Sequencer`.
pub mod Timeline
pub mod Sequencer
pub mod Rate
pub mod Grant
use litedram.Base.{
  ℕ, zero, suc, ◌+◌, ◌-◌, Bool, true, false, not, ◌&&◌, ◌||◌, Option, none, some, List, ◌==◌, ltb,
  if◌then◌else◌, after,
}

-- `RefreshTimer`. `count` never passes 0, so it never wraps.
pub timer_reset : ℕ → ℕ
timer_reset trefi = trefi - 1

pub timer_done : ℕ → Bool
timer_done count = count == 0

pub timer_step : ℕ → Bool → ℕ → ℕ
unfolding timer_done timer_reset
timer_step trefi wait count =
    if wait && not (timer_done count) then count - 1 else timer_reset trefi

-- `RefreshPostponer`: one request in `postponing` goes on.
pub record Postponer : Type 0 where
  pub count : ℕ
  pub req_o : Bool

pub postponer_reset : ℕ → Postponer
postponer_reset postponing = record { count = postponing - 1; req_o = false }

pub postponer_step : ℕ → Bool → Postponer → Postponer
postponer_step postponing req_i s =
    if req_i
    then (if s.count == 0
        then record { count = postponing - 1; req_o = true }
        else record { count = s.count - 1; req_o = false })
    else record { count = s.count; req_o = false }

-- The settings, with the times in cycles. `with_zqcs` is `settings.timing.tZQCS is not None`.
pub record Settings : Type 0 where
  pub with_refresh : Bool
  pub with_zqcs : Bool
  pub trefi : ℕ
  pub trp : ℕ
  pub trfc : ℕ
  pub tzqcs : ℕ
  pub zqcs_period : ℕ
  pub postponing : ℕ

pub data State : Type 0 where
  idle wait_bank_machines do_refresh do_zqcs : State

-- What a state of the FSM drives.
pub record Act : Type 0 where
  pub valid : Bool
  pub last : Bool
  pub start : Bool
  pub zqcs_start : Bool
  pub next : State

abbrev pub quiet : State → Act
quiet s = record { valid = false; last = false; start = false; zqcs_start = false; next = s }

-- The refresh FSM, from `settings.with_refresh`, the two wishes, the two `done` signals and
-- `cmd.ready`. Without ZQCS `wants_zqcs` is low, and the first form of "DO-REFRESH" is the second.
pub act : (with_refresh wants_refresh wants_zqcs done zqcs_done ready : Bool) → State → Act
act with_refresh wants_refresh wants_zqcs done zqcs_done ready State.idle =
    quiet (if with_refresh && wants_refresh then State.wait_bank_machines else State.idle)
act with_refresh wants_refresh wants_zqcs done zqcs_done ready State.wait_bank_machines =
    record (quiet (if ready then State.do_refresh else State.wait_bank_machines)) {
      valid = true;
      start = ready;
    }
act with_refresh wants_refresh wants_zqcs done zqcs_done ready State.do_refresh =
    if done
    then (if wants_zqcs
        then record (quiet State.do_zqcs) { valid = true; zqcs_start = true }
        else record (quiet State.idle) { last = true })
    else record (quiet State.do_refresh) { valid = true }
act with_refresh wants_refresh wants_zqcs done zqcs_done ready State.do_zqcs =
    if zqcs_done
    then record (quiet State.idle) { last = true }
    else record (quiet State.do_zqcs) { valid = true }

module _ (g : Settings) (t : Timeline.Timeline (g.trp + g.trfc))
    (z : Timeline.Timeline (g.trp + g.tzqcs)) where
  pub record Refresher : Type 0 where
    pub timer : ℕ
    pub postponer : Postponer
    pub sequencer : Sequencer.Sequencer t
    pub zqcs_timer : ℕ
    pub zqcs_executer : Sequencer.Executer z
    pub fsm : State

  pub reset : Refresher
  unfolding timer_reset postponer_reset
  reset = record {
    timer = timer_reset g.trefi;
    postponer = postponer_reset g.postponing;
    sequencer = Sequencer.reset g.trp g.trfc g.postponing t;
    zqcs_timer = timer_reset g.zqcs_period;
    zqcs_executer = Sequencer.executer_reset z;
    fsm = State.idle;
  }

  pub outputs : Bool → Refresher → Act
  unfolding act timer_done
  outputs ready s =
      act g.with_refresh s.postponer.req_o (g.with_zqcs && timer_done s.zqcs_timer)
        (Sequencer.done g.trp g.trfc g.postponing t s.sequencer) s.zqcs_executer.done ready s.fsm

  pub step : Bool → Refresher → Refresher
  unfolding outputs timer_step postponer_step
  step ready s =
      let o = outputs ready s in
      let sequencer = Sequencer.step g.trp g.trfc g.postponing t o.start s.sequencer in
      record {
        timer = timer_step g.trefi (not (timer_done s.timer)) s.timer;
        postponer = postponer_step g.postponing (timer_done s.timer) s.postponer;
        sequencer =
            if g.with_zqcs
            then record sequencer {
              cmd =
                  Sequencer.zqcs_command g.trp g.tzqcs
                    (Sequencer.executer_now z o.zqcs_start s.zqcs_executer) sequencer.cmd;
            }
            else sequencer;
        zqcs_timer = timer_step g.zqcs_period (not s.zqcs_executer.done) s.zqcs_timer;
        zqcs_executer = Sequencer.executer_step z o.zqcs_start s.zqcs_executer;
        fsm = o.next;
      }

  pub run : List Bool → Refresher
  unfolding reset step
  run h = after step reset h
