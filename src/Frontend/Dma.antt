-- ===== src/Frontend/Dma.antt =====
-- litedram/frontend/dma.py: `LiteDRAMDMAReader` and `LiteDRAMDMAWriter` on a native port, and the
-- address walk that their CSR registers control.
pub mod Reservation
pub mod Walk
use litedram.Base.{
  ℕ, zero, suc, ◌+◌, ◌-◌, ◌/◌, ◌%◌, ◌^◌, Bool, true, false, not, ◌&&◌, ◌||◌, List, [], ◌∷◌, ◌==◌,
  if◌then◌else◌, after,
}
use litedram.Frontend.SyncFifo
use litedram.Frontend.SyncFifo.{SyncFifo, sink_ready, source_valid}

-- The inputs of one cycle of the reader.
pub record Inputs : Type 0 where
  pub enable : Bool
  pub sink_valid : Bool
  pub sink_last : Bool
  pub cmd_ready : Bool
  pub rdata_valid : Bool
  pub rdata : ℕ
  pub source_ready : Bool

-- `res` holds the `last` flags of the reserved places, `fifo` the words.
module _ {depth : ℕ} (res : SyncFifo Bool depth) (fifo : SyncFifo ℕ depth) where
  pub record Reader : Type 0 where
    pub res_state : res.State
    pub fifo_state : fifo.State

  abbrev pub reset : Reader
  reset = record { res_state = res.empty; fifo_state = fifo.empty }

  unfoldable pub cmd_valid : Inputs → Reader → Bool
  cmd_valid i s = i.enable && (i.sink_valid && sink_ready res s.res_state)

  unfoldable pub reader_sink_ready : Inputs → Reader → Bool
  reader_sink_ready i s = i.enable && (i.cmd_ready && sink_ready res s.res_state)

  -- A disabled reader takes all words out.
  unfoldable pub fifo_source_ready : Inputs → Bool
  fifo_source_ready i = i.source_ready || not i.enable

  unfoldable pub reader_source_valid : Reader → Bool
  reader_source_valid s = source_valid res s.res_state && source_valid fifo s.fifo_state

  unfoldable pub res_source_ready : Inputs → Reader → Bool
  unfolding fifo_source_ready
  res_source_ready i s = source_valid fifo s.fifo_state && fifo_source_ready i

  -- The port accepts a command.
  unfoldable pub issued : Inputs → Reader → Bool
  unfolding cmd_valid
  issued i s = cmd_valid i s && i.cmd_ready

  unfoldable pub step : Inputs → Reader → Reader
  unfolding issued res_source_ready fifo_source_ready
  step i s = record {
    res_state = res.step (issued i s) i.sink_last (res_source_ready i s) s.res_state;
    fifo_state = fifo.step i.rdata_valid i.rdata (fifo_source_ready i) s.fifo_state;
  }

  unfoldable pub run : List Inputs → Reader
  unfolding step
  run h = after step reset h

-- The inputs of one cycle of the writer.
pub record WriterInputs : Type 0 where
  pub sink_valid : Bool
  pub data_in : ℕ
  pub cmd_ready : Bool
  pub wdata_ready : Bool

module _ {depth : ℕ} (fifo : SyncFifo ℕ depth) where
  unfoldable pub writer_cmd_valid : WriterInputs → fifo.State → Bool
  writer_cmd_valid i s = sink_ready fifo s && i.sink_valid

  unfoldable pub writer_sink_ready : WriterInputs → fifo.State → Bool
  writer_sink_ready i s = sink_ready fifo s && i.cmd_ready

  -- The next state of the FIFO, which is the writer's only state.
  unfoldable pub writer_step : WriterInputs → fifo.State → fifo.State
  writer_step i s = fifo.step (i.sink_valid && i.cmd_ready) i.data_in i.wdata_ready s

-- The FSM of `add_csr`.
pub data State : Type 0 where
  idle run_state done : State

-- The registers that software writes, in words, and the width of an address.
pub record Csr : Type 0 where
  pub width : ℕ
  pub base : ℕ
  pub length : ℕ
  pub loop : Bool

-- `base` and `length` from the CSR's bytes: `storage[shift:]`, cut to an address.
unfoldable pub csr : (width shift base_storage length_storage : ℕ) → Bool → Csr
csr width shift base_storage length_storage loop = record {
  width = width;
  base = base_storage / 2 ^ shift % 2 ^ width;
  length = length_storage / 2 ^ shift % 2 ^ width;
  loop = loop;
}

pub record Walker : Type 0 where
  pub fsm : State
  pub offset : ℕ

abbrev pub walker_reset : Walker
walker_reset = record { fsm = State.idle; offset = 0 }

-- `length - 1` is computed in the width of an address, so for a length of 0 it is the greatest one.
unfoldable pub walker_last : Csr → ℕ → Bool
walker_last c offset = offset == (c.length + 2 ^ c.width - 1) % 2 ^ c.width

unfoldable pub walker_address : Csr → ℕ → ℕ
walker_address c offset = (c.base + offset) % 2 ^ c.width

-- One cycle; `accepted` says that a request of the walk is taken.
unfoldable pub walker_step : Csr → (enable accepted : Bool) → Walker → Walker
unfolding walker_last
walker_step c false accepted w = record { fsm = State.idle; offset = 0 }
walker_step c true accepted w = elim w.fsm [
  | State.idle ↦ record { fsm = State.run_state; offset = 0 }
  | State.run_state ↦
      if accepted
      then (if walker_last c w.offset
          then (if c.loop
              then record { fsm = State.run_state; offset = 0 }
              else record { fsm = State.done; offset = (w.offset + 1) % 2 ^ c.width })
          else record { fsm = State.run_state; offset = (w.offset + 1) % 2 ^ c.width })
      else w
  | State.done ↦ w
]

-- When a request of the walk is taken: the reader always offers one, the writer when it has data.
unfoldable pub reader_accepts : Bool → Walker → Bool
reader_accepts sink_ready w = elim w.fsm [ State.run_state ↦ sink_ready | _ ↦ false ]

unfoldable pub writer_accepts : (valid sink_ready : Bool) → Walker → Bool
writer_accepts valid sink_ready w = elim w.fsm [ State.run_state ↦ valid && sink_ready | _ ↦ false ]
