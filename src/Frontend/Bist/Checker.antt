-- ===== src/Frontend/Bist/Checker.antt =====
-- `_LiteDRAMBISTChecker` of litedram/frontend/bist.py: the FSM that asks for the words of the pattern
-- and the one that compares the answers. The handshakes of its `LiteDRAMDMAReader` are inputs.
pub mod Asked
pub mod Errors
use litedram.Base.{
  ℕ, ◌+◌, ◌-◌, ◌*◌, ◌/◌, ◌%◌, ◌^◌, Bool, true, false, not, ◌&&◌, List, [], ◌∷◌, ◌==◌, if◌then◌else◌,
  after,
}
use litedram.Frontend.Bist.{
  Generator, generator_reset, generator_o, generator_step, Settings, at_end, word_data,
}

pub data CmdState : Type 0 where
  idle wait run_state done : CmdState

pub data DataState : Type 0 where
  idle run_state done : DataState

pub record Inputs : Type 0 where
  pub start : Bool
  pub run_cascade_in : Bool
  pub sink_ready : Bool
  pub source_valid : Bool
  pub source_data : ℕ

pub record Reader : Type 0 where
  pub cmd_fsm : CmdState
  pub cmd_counter : ℕ
  pub addr_gen : Generator
  pub data_fsm : DataState
  pub data_counter : ℕ
  pub data_gen : Generator
  pub errors : ℕ
  pub ticks : ℕ

-- The two counters have no reset: they start at any values.
abbrev pub reset : (cmd_counter data_counter : ℕ) → Reader
reset cmd_counter data_counter = record {
  cmd_fsm = CmdState.idle;
  cmd_counter = cmd_counter;
  addr_gen = generator_reset;
  data_fsm = DataState.idle;
  data_counter = data_counter;
  data_gen = generator_reset;
  errors = 0;
  ticks = 0;
}

-- `dma.sink.valid & dma.sink.ready`, and `dma.source.ready & dma.source.valid`.
abbrev pub asks : Bool → CmdState → Bool
asks ready CmdState.run_state = ready
asks ready _ = false

abbrev pub receives : Bool → DataState → Bool
receives valid DataState.run_state = valid
receives valid _ = false

unfoldable pub next_cmd : Settings → Inputs → ℕ → CmdState → CmdState
unfolding at_end
next_cmd g i counter CmdState.idle = if i.start then CmdState.wait else CmdState.idle
next_cmd g i counter CmdState.wait = if i.run_cascade_in then CmdState.run_state else CmdState.wait
next_cmd g i counter CmdState.run_state =
    if i.sink_ready
    then (if at_end g counter
        then CmdState.done
        else if i.run_cascade_in
        then CmdState.run_state
        else CmdState.wait)
    else CmdState.run_state
next_cmd g i counter CmdState.done = CmdState.done

unfoldable pub next_cmd_counter : Settings → Inputs → ℕ → CmdState → ℕ
next_cmd_counter g i counter CmdState.idle = if i.start then 0 else counter
next_cmd_counter g i counter CmdState.run_state =
    if i.sink_ready then (counter + 1) % 2 ^ g.address_width else counter
next_cmd_counter g i counter _ = counter

unfoldable pub next_data : Settings → Inputs → ℕ → DataState → DataState
unfolding at_end
next_data g i counter DataState.idle = if i.start then DataState.run_state else DataState.idle
next_data g i counter DataState.run_state =
    if i.source_valid && at_end g counter then DataState.done else DataState.run_state
next_data g i counter DataState.done = DataState.done

unfoldable pub next_data_counter : Settings → Inputs → ℕ → DataState → ℕ
next_data_counter g i counter DataState.idle = if i.start then 0 else counter
next_data_counter g i counter DataState.run_state =
    if i.source_valid then (counter + 1) % 2 ^ g.address_width else counter
next_data_counter g i counter DataState.done = counter

-- The expected word is the one of the generator's state.
unfoldable pub differs : Settings → ℕ → Generator → Bool
unfolding word_data generator_o
differs g x s = not (x == word_data g (generator_o g.random_data s))

unfoldable pub next_errors : Settings → Inputs → Generator → ℕ → DataState → ℕ
unfolding differs
next_errors g i gen errors DataState.idle = if i.start then 0 else errors
next_errors g i gen errors DataState.run_state =
    if i.source_valid && differs g i.source_data gen then (errors + 1) % 2 ^ 32 else errors
next_errors g i gen errors DataState.done = errors

unfoldable pub next_ticks : ℕ → DataState → ℕ
next_ticks ticks DataState.idle = 0
next_ticks ticks DataState.run_state = (ticks + 1) % 2 ^ 32
next_ticks ticks DataState.done = ticks

unfoldable pub step : Settings → Inputs → Reader → Reader
unfolding next_cmd next_cmd_counter next_data next_data_counter next_errors next_ticks
    generator_step
step g i s = record {
  cmd_fsm = next_cmd g i s.cmd_counter s.cmd_fsm;
  cmd_counter = next_cmd_counter g i s.cmd_counter s.cmd_fsm;
  addr_gen = generator_step (asks i.sink_ready s.cmd_fsm) s.addr_gen;
  data_fsm = next_data g i s.data_counter s.data_fsm;
  data_counter = next_data_counter g i s.data_counter s.data_fsm;
  data_gen = generator_step (receives i.source_valid s.data_fsm) s.data_gen;
  errors = next_errors g i s.data_gen s.errors s.data_fsm;
  ticks = next_ticks s.ticks s.data_fsm;
}

unfoldable pub run : Settings → (cmd_counter data_counter : ℕ) → List Inputs → Reader
unfolding step
run g c d h = after (step g) (reset c d) h
