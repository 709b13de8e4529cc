-- ===== src/Core/Refresher/Sequencer.antt =====
-- `RefreshExecuter`, `ZQCSExecuter` and `RefreshSequencer` of litedram/core/refresher.py.
pub mod Schedule
use litedram.Base.{
  ℕ, zero, suc, ◌+◌, ◌-◌, ◌^◌, Bool, true, false, not, ◌&&◌, ◌||◌, Option, none, some, List, ◌==◌,
  if◌then◌else◌,
}
use litedram.Core.Refresher.Timeline.{Timeline, offset}

-- The registered part of the refresher's command.
pub record Command : Type 0 where
  pub a : ℕ
  pub ba : ℕ
  pub cas : Bool
  pub ras : Bool
  pub we : Bool

abbrev pub no_command : Command
no_command = record { a = 0; ba = 0; cas = false; ras = false; we = false }

abbrev pub precharge_all : Command
precharge_all = record { a = 2 ^ 10; ba = 0; cas = false; ras = true; we = true }

abbrev pub auto_refresh : Command
auto_refresh = record { a = 2 ^ 10; ba = 0; cas = true; ras = true; we = false }

abbrev pub zq_calibration : Command
zq_calibration = record { a = 0; ba = 0; cas = false; ras = false; we = true }

abbrev pub is_at : ℕ → Option ℕ → Bool
is_at k none = false
is_at k (some j) = j == k

-- The events of a timeline, in order: a later one of the same cycle overrides an earlier one.
pub executer_command : ℕ → ℕ → Option ℕ → Command
executer_command trp trfc now =
    if is_at (trp + trfc) now
    then no_command
    else if is_at trp now
    then auto_refresh
    else if is_at 0 now
    then precharge_all
    else no_command

-- The ZQCS executer leaves the command alone between its events.
pub zqcs_command : ℕ → ℕ → Option ℕ → Command → Command
zqcs_command trp tzqcs now cmd =
    if is_at (trp + tzqcs) now
    then no_command
    else if is_at trp now
    then zq_calibration
    else if is_at 0 now
    then precharge_all
    else cmd

-- An executer whose timeline ends at `last`; `done` is a register.
pub record Executer {last : ℕ} (t : Timeline last) : Type 0 where
  pub line : t.State
  pub done : Bool

module _ {last : ℕ} (t : Timeline last) where
  pub executer_reset : Executer t
  executer_reset = record { line = t.idle; done = false }

  pub executer_now : Bool → Executer t → Option ℕ
  executer_now start s = offset (t.position s.line) start

  pub executer_step : Bool → Executer t → Executer t
  unfolding executer_now
  executer_step start s = record {
    line = t.step start s.line;
    done = is_at last (executer_now start s);
  }

-- `count` is lowered only where it is not 0, so it never wraps.
pub record Sequencer {last : ℕ} (t : Timeline last) : Type 0 where
  pub count : ℕ
  pub executer : Executer t
  pub cmd : Command

module _ (trp trfc postponing : ℕ) (t : Timeline (trp + trfc)) where
  pub reset : Sequencer t
  unfolding executer_reset
  reset = record { count = postponing - 1; executer = executer_reset t; cmd = no_command }

  pub executer_start : Bool → Sequencer t → Bool
  executer_start start s = start || not (s.count == 0)

  pub done : Sequencer t → Bool
  done s = s.executer.done && (s.count == 0)

  pub step : Bool → Sequencer t → Sequencer t
  unfolding executer_start executer_step executer_command
  step start s =
      let go = executer_start start s in
      record {
        count =
            if start
            then postponing - 1
            else if s.executer.done
            then (if s.count == 0 then s.count else s.count - 1)
            else s.count;
        executer = executer_step t go s.executer;
        cmd = executer_command trp trfc (executer_now t go s.executer);
      }
