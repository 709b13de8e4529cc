-- ===== src/Phy/Lpddr4/Data.antt =====
-- `DataSim`, `DQWrite` and `DQRead` of litedram/phy/lpddr4/sim.py: the memory of the simulated chip and
-- its bursts. A word is its bytes by lane. The checks and the driving of DQS, which have a clock of
-- their own, are left out.
pub mod Stored
use litedram.Base.{
  ℕ, ◌+◌, ◌*◌, ◌/◌, ◌%◌, ◌^◌, Bool, true, false, not, ◌&&◌, ◌||◌, Option, none, some, List, [], ◌∷◌,
  ◌==◌, if◌then◌else◌,
}
use litedram.Phy.Lpddr4.Sim.{Burst}

-- The bytes by bank, address and lane.
abbrev pub Memory : Type 0
Memory = ℕ → ℕ → ℕ → ℕ

-- The FSM of a `DataBurst`: busy in BURST.
pub record DataBurst : Type 0 where
  pub busy : Bool
  pub burst_counter : ℕ

pub record Data : Type 0 where
  pub dq_wr : DataBurst
  pub masked : Bool
  pub dq_rd : DataBurst
  pub bank : ℕ
  pub row : ℕ
  pub col : ℕ
  pub mems : Memory

-- The taps of `data_en` for the write and for the read latency, the data source, and the pads.
pub record Inputs : Type 0 where
  pub write_tap : Bool
  pub read_tap : Bool
  pub valid : Bool
  pub source : Burst
  pub dq : ℕ → ℕ
  pub dmi : ℕ → Bool

unfoldable pub write : Inputs → Bool
write i = i.write_tap && (i.valid && i.source.we)

unfoldable pub read : Inputs → Bool
read i = i.read_tap && (i.valid && not i.source.we)

-- `add_fsm`, for bursts of 16.
unfoldable pub next_burst : (trigger : Bool) → DataBurst → DataBurst
next_burst trigger b =
    if b.busy
    then record {
      busy = not (b.burst_counter == 15);
      burst_counter = (b.burst_counter + 1) % 2 ^ 4;
    }
    else record { busy = trigger; burst_counter = 0 }

-- 1024 columns and 32768 rows: the column wraps in 10 bits and the address in 25.
unfoldable pub addr : (row col burst_counter : ℕ) → ℕ
addr row col burst_counter = (row * 1024 + (col + burst_counter) % 2 ^ 10) % 2 ^ 25

-- A beat of a write: a high DMI masks its byte.
unfoldable pub write_beat :
    (masked : Bool) (bank a : ℕ) (dq : ℕ → ℕ) (dmi : ℕ → Bool) → Memory → Memory
write_beat masked bank a dq dmi mems b c lane =
    if (b == bank) && ((c == a) && not (masked && dmi lane)) then dq lane else mems b c lane

-- The ports of the memories: a read in the same cycle takes the write enables away.
unfoldable pub next_mems : Inputs → Data → Memory
unfolding write_beat addr
next_mems i s =
    if s.dq_wr.busy && not s.dq_rd.busy
    then write_beat s.masked s.bank (addr s.row s.col s.dq_wr.burst_counter) i.dq i.dmi s.mems
    else s.mems

-- The word on DQ in a beat of a read.
unfoldable pub dq_out : Data → Option (ℕ → ℕ)
unfolding addr
dq_out s =
    if s.dq_rd.busy then some (s.mems s.bank (addr s.row s.col s.dq_rd.burst_counter)) else none

unfoldable pub step : Inputs → Data → Data
unfolding write read next_burst next_mems
step i s =
    let ready = write i || read i in
    record {
      dq_wr = next_burst (write i) s.dq_wr;
      masked = if s.dq_wr.busy then s.masked else if write i then i.source.masked else s.masked;
      dq_rd = next_burst (read i) s.dq_rd;
      bank = if ready then i.source.bank else s.bank;
      row = if ready then i.source.row else s.row;
      col = if ready then i.source.col else s.col;
      mems = next_mems i s;
    }
