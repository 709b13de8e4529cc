-- ===== src/Core/Bandwidth.antt =====
-- `Bandwidth` of litedram/core/bandwidth.py: counts the accepted read and write commands of each
-- period of `2 ^ period_bits` cycles.
pub mod Period
use litedram.Base.{ℕ, ◌+◌, ◌/◌, ◌%◌, ◌^◌, Bool, true, false, ◌&&◌, List, ◌==◌, if◌then◌else◌, after}

-- The inputs of one clock cycle: the endpoint `cmd`, and the write strobe of the CSR `update`.
pub record Inputs : Type 0 where
  pub valid : Bool
  pub ready : Bool
  pub is_read : Bool
  pub is_write : Bool
  pub update : Bool

pub record Bandwidth : Type 0 where
  pub cmd_valid : Bool
  pub cmd_ready : Bool
  pub cmd_is_read : Bool
  pub cmd_is_write : Bool
  pub counter : ℕ
  pub period : Bool
  pub nreads : ℕ
  pub nwrites : ℕ
  pub nreads_r : ℕ
  pub nwrites_r : ℕ
  pub nreads_status : ℕ
  pub nwrites_status : ℕ

abbrev pub reset : Bandwidth
reset = record {
  cmd_valid = false;
  cmd_ready = false;
  cmd_is_read = false;
  cmd_is_write = false;
  counter = 0;
  period = false;
  nreads = 0;
  nwrites = 0;
  nreads_r = 0;
  nwrites_r = 0;
  nreads_status = 0;
  nwrites_status = 0;
}

-- `nreads` (or `nwrites`) of `period_bits + 1` bits; a command on the period's boundary is the
-- first one of the next period.
unfoldable pub next_count : ℕ → Bool → Bool → Bool → ℕ → ℕ
next_count period_bits period accepted kind n =
    if period
    then (if accepted then (if kind then 1 else 0) else 0)
    else (if accepted then (if kind then (n + 1) % 2 ^ (period_bits + 1) else n) else n)

unfoldable pub step : ℕ → Inputs → Bandwidth → Bandwidth
unfolding next_count
step period_bits i s =
    let accepted = s.cmd_valid && s.cmd_ready in
    record {
      cmd_valid = i.valid;
      cmd_ready = i.ready;
      cmd_is_read = i.is_read;
      cmd_is_write = i.is_write;
      counter = (s.counter + 1) % 2 ^ period_bits;
      period = (s.counter + 1) / 2 ^ period_bits % 2 == 1;
      nreads = next_count period_bits s.period accepted s.cmd_is_read s.nreads;
      nwrites = next_count period_bits s.period accepted s.cmd_is_write s.nwrites;
      nreads_r = if s.period then s.nreads else s.nreads_r;
      nwrites_r = if s.period then s.nwrites else s.nwrites_r;
      nreads_status = if i.update then s.nreads_r else s.nreads_status;
      nwrites_status = if i.update then s.nwrites_r else s.nwrites_status;
    }

unfoldable pub run : ℕ → List Inputs → Bandwidth
unfolding step
run period_bits h = after (step period_bits) reset h
