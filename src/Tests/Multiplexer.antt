-- ===== src/Tests/Multiplexer.antt =====
-- The multiplexer with two phases and one bank that always asks.
use litedram.Base.{
  ℕ, ◌+◌, ◌^◌, ◌≤◌, ◌<◌, ◌≡◌, ◌≢◌, refl, arith, true, false, inl, some, List, [], ◌∷◌, replicate,
  take, popcount,
}
use litedram.Common.Txxd
use litedram.Common.Txxd.Delay.{cycles_left}
use litedram.Common.Faw
use litedram.Core.Multiplexer.Chooser.{Request}
use litedram.Core.Multiplexer.{
  Settings, Inputs, State, run, reading, writing, any_read, any_write, accept_activate,
  accept_column, req_ready,
}
use litedram.Core.Multiplexer.Spacing.{
  activates, columns, activates_in_window, activate_after_trrd, column_after_tccd,
}
use litedram.Core.Multiplexer.Steerer.{Command, Ranks, sources, dfi}
use litedram.Core.Multiplexer.Steerer.Once.{Carries, commands_once}
use litedram.Core.Multiplexer.Fairness.{cycles_in, writes_not_starved, reads_not_starved}

abbrev settings : Settings
settings = record {
  nphases = 2;
  rdphase = 1;
  wrphase = 0;
  cwl = 2;
  read_latency = 3;
  trrd = some 2;
  tfaw = some 10;
  tccd = some 1;
  twtr = 2;
  read_time = 4;
  write_time = 3;
  trrd_width = 1;
  tfaw_width = 4;
  tccd_width = 1;
  twtr_width = 3;
}

abbrev activate : Request
activate = record {
  valid = true;
  a = 7;
  ba = 0;
  is_read = false;
  is_write = false;
  is_cmd = true;
  cas = false;
  ras = true;
  we = false;
}

abbrev read : Request
read = record {
  valid = true;
  a = 9;
  ba = 0;
  is_read = true;
  is_write = false;
  is_cmd = false;
  cas = true;
  ras = false;
  we = false;
}

abbrev write : Request
write = record {
  valid = true;
  a = 9;
  ba = 0;
  is_read = false;
  is_write = true;
  is_cmd = false;
  cas = true;
  ras = false;
  we = true;
}

-- One bank asks, then another one; the second is not chosen.
abbrev inputs : Request → Request → Inputs
inputs r other = record {
  request = r;
  requests = other ∷ [];
  cmd_grant = 0;
  req_grant = 0;
  refresh_gnts = false ∷ [];
  refresh_last = false;
}

four_activates : popcount (take 10 (activates settings (replicate 12 (inputs activate read)))) ≡ 4
unfolding run accept_activate Txxd.step Txxd.reset Faw.step Faw.reset Txxd.count_step
four_activates = refl

activates_in_window_example :
    popcount (take 10 (activates settings (replicate 12 (inputs activate read)))) ≤ 4
activates_in_window_example =
    activates_in_window settings 10 (replicate 12 (inputs activate read)) refl (omega arith)

accepts_third :
    accept_activate settings
      (inputs activate read)
      (run settings (replicate 2 (inputs activate read)))
    ≡ true
unfolding run accept_activate Txxd.step Txxd.reset Faw.step Faw.reset Txxd.count_step
accepts_third = refl

activate_after_trrd_example :
    cycles_left 2 1 (activates settings (replicate 2 (inputs activate read))) ≡ 0
activate_after_trrd_example =
    activate_after_trrd settings 2 (inputs activate read) (replicate 2 (inputs activate read)) refl
      (omega arith) (omega arith) (omega arith) accepts_third

accepts_read :
    accept_column settings
      (inputs read activate)
      (run settings (replicate 3 (inputs read activate)))
    ≡ true
unfolding run accept_column Txxd.step Txxd.reset Faw.step Faw.reset Txxd.count_step
accepts_read = refl

column_after_tccd_example :
    cycles_left 1 1 (columns settings (replicate 3 (inputs read activate))) ≡ 0
column_after_tccd_example =
    column_after_tccd settings 1 (inputs read activate) (replicate 3 (inputs read activate)) refl
      (omega arith) (omega arith) (omega arith) accepts_read

is_reading : (run settings (replicate 3 (inputs read activate))).fsm ≡ State.read
unfolding run Txxd.step
is_reading = refl

read_long : 4 ≤ cycles_in reading settings (replicate 3 (inputs read activate)) + 1
unfolding run Txxd.step
read_long = omega arith

writes_not_starved_example :
    reading (run settings (inputs read write ∷ replicate 3 (inputs read activate))).fsm ≡ false
unfolding any_write
writes_not_starved_example =
    writes_not_starved settings (inputs read write) (replicate 3 (inputs read activate))
      (omega arith) is_reading read_long refl

abbrev to_writing : List Inputs
to_writing = replicate 6 (inputs write activate)

is_writing : (run settings to_writing).fsm ≡ State.write
unfolding run Txxd.step
is_writing = refl

write_long : 3 ≤ cycles_in writing settings to_writing + 1
unfolding run Txxd.step
write_long = omega arith

reads_not_starved_example : writing (run settings (inputs write read ∷ to_writing)).fsm ≡ false
unfolding any_read
reads_not_starved_example =
    reads_not_starved settings (inputs write read) to_writing (omega arith) is_writing write_long
      refl

abbrev no_refresh : Command
no_refresh = record {
  valid = false;
  ready = false;
  a = 0;
  ba = 0;
  cas = false;
  ras = false;
  we = false;
  is_read = false;
  is_write = false;
}

abbrev two_ranks : Ranks
two_ranks = record { rankbits = 1; ba_bits = 3 }

-- The rank, the second of two, of a read that is accepted on the second phase.
abbrev far : Request
far = record read { ba = 6 }

abbrev before : List Inputs
before = replicate 3 (inputs far activate)

accepts_far :
    (sources settings (inputs far activate) (run settings before) no_refresh).req.ready ≡ true
unfolding run sources req_ready Txxd.step Txxd.reset Txxd.count_step
accepts_far = refl

commands_once_example :
    (0 < 2)
    × (1 < 2)
    × (◌≢◌ {A = ℕ} 0 1)
    × Carries two_ranks
        (sources settings (inputs far activate) (run settings before) no_refresh).req
        (dfi
          (λ k. 2 ^ k)
          settings
          two_ranks
          (inputs far activate)
          (run settings before)
          no_refresh
          1)
unfolding run sources req_ready Txxd.step Txxd.reset Txxd.count_step
commands_once_example =
    commands_once (λ k. 2 ^ k) (λ k. refl) two_ranks settings (inputs far activate)
      (run settings before) no_refresh 1 (omega arith) (omega arith) (omega arith) (inl refl)
      (omega arith) (omega arith)
