-- ===== src/Tests/Refresher.antt =====
-- The refresher with a timeline that counts its cycles.
use litedram.Base.{
  ℕ, ◌+◌, ◌*◌, ◌%◌, ◌<◌, ◌≡◌, refl, arith, Bool, true, false, not, ◌&&◌, Option, none, some, length,
  replicate, ◌==◌, ltb, if◌then◌else◌,
}
use litedram.Core.Refresher.{Settings, State, Refresher, outputs, run}
use litedram.Core.Refresher.Timeline.{Timeline}
use litedram.Core.Refresher.Sequencer
use litedram.Core.Refresher.Sequencer.{precharge_all, auto_refresh, no_command}
use litedram.Core.Refresher.Sequencer.Schedule.{IsIdle, state_at, duration, refresh_schedule}
use litedram.Core.Refresher.Rate.{refresh_wanted}
use litedram.Core.Refresher.Grant.{after_grant, refresh_cycles, grant_runs_to_end}

-- A counter that runs from 0 to `last`.
abbrev line_step : ℕ → Bool → Option ℕ → Option ℕ
line_step last trigger none = if trigger && ltb 0 last then some 1 else none
line_step last trigger (some k) = if ltb k last then some (k + 1) else none

line_starts : (last : ℕ) (s : Option ℕ) → s ≡ none → 0 < last → line_step last true s ≡ some 1
line_starts last s e h = ground arith

line_runs :
    (last : ℕ) (s : Option ℕ) (trigger : Bool) (k : ℕ)
    → s ≡ some k
    → k < last
    → line_step last trigger s ≡ some (k + 1)
line_runs last s trigger k e h = ground arith

line_waits : (last : ℕ) (s : Option ℕ) → s ≡ none → line_step last false s ≡ none
line_waits last s e = ground arith

line_ends :
    (last : ℕ) (s : Option ℕ) (trigger : Bool) → s ≡ some last → line_step last trigger s ≡ none
line_ends last s trigger e = ground arith

abbrev line : (last : ℕ) → Timeline last
line last = record {
  State = Option ℕ;
  idle = none;
  step = line_step last;
  position = λ s. s;
  idle_position = refl;
  waits = line_waits last;
  starts = line_starts last;
  runs = line_runs last;
  ends = line_ends last;
}

-- tRP of 2, tRFC of 3, two refreshes at a time.
abbrev settings : Settings
settings = record {
  with_refresh = true;
  with_zqcs = false;
  trefi = 20;
  trp = 2;
  trfc = 3;
  tzqcs = 4;
  zqcs_period = 1000;
  postponing = 2;
}

abbrev idle_sequencer : Sequencer.Sequencer (line 5)
idle_sequencer = record {
  count = 0;
  executer = record { line = none; done = false };
  cmd = no_command;
}

idle_sequencer-IsIdle : IsIdle 2 3 2 (line 5) idle_sequencer
idle_sequencer-IsIdle = record { no_count = refl; not_running = refl; not_done = refl }

refresh_schedule_example :
    let s' = state_at 2 3 2 (line 5) 8 idle_sequencer in
    (s'.cmd ≡ (
      if 8 % duration 2 3 2 (line 5) == 0
      then precharge_all
      else if 8 % duration 2 3 2 (line 5) == 2
      then auto_refresh
      else no_command))
    × (Sequencer.done 2 3 2 (line 5) s' ≡ (8 + 1 == 2 * duration 2 3 2 (line 5)))
refresh_schedule_example =
    refresh_schedule 2 3 2 (line 5) (omega arith) (omega arith) 8 idle_sequencer
      idle_sequencer-IsIdle (omega arith)

refresh_wanted_example :
    (run settings (line 5) (line 6) (replicate 40 false)).postponer.req_o
    ≡ (ltb 0 (length (replicate 40 false)) && (length (replicate 40 false) % (2 * 20) == 0))
refresh_wanted_example =
    refresh_wanted settings (line 5) (line 6) (replicate 40 false) (omega arith) (omega arith)

-- The refresher as it waits for the grant.
abbrev waiting : Refresher settings (line 5) (line 6)
waiting = record {
  timer = 19;
  postponer = record { count = 1; req_o = false };
  sequencer = idle_sequencer;
  zqcs_timer = 500;
  zqcs_executer = record { line = none; done = false };
  fsm = State.wait_bank_machines;
}

grant_runs_to_end_example :
    let o =
      outputs settings
        (line 5)
        (line 6)
        false
        (after_grant settings (line 5) (line 6) waiting (replicate 11 true)) in
    (o.last ≡ (length (replicate 11 true) + 1 == refresh_cycles settings (line 5) (line 6)))
    × (o.valid ≡ not o.last)
grant_runs_to_end_example =
    grant_runs_to_end settings (line 5) (line 6) refl (omega arith) (omega arith) waiting refl
      idle_sequencer-IsIdle false (replicate 11 true) (omega arith)
