-- ===== src/Frontend/DramFifo.antt =====
-- litedram/frontend/fifo.py: the pointers and the level of a FIFO whose words are in the DRAM
-- (`_LiteDRAMFIFOCtrl`), and how its writer and its reader drive them. The readiness of the two DMA
-- engines is an input.
pub mod Order
use litedram.Base.{
  ℕ, ◌+◌, ◌-◌, ◌%◌, ◌^◌, Bool, true, false, ◌&&◌, List, [], ◌∷◌, ◌==◌, ltb, if◌then◌else◌, after,
}

-- `base`, `depth`, and the widths of `level` and of the two addresses.
pub record Settings : Type 0 where
  pub base : ℕ
  pub depth : ℕ
  pub level_width : ℕ
  pub address_width : ℕ

pub record Ctrl : Type 0 where
  pub level : ℕ
  pub produce : ℕ
  pub consume : ℕ

abbrev pub reset : Ctrl
reset = record { level = 0; produce = 0; consume = 0 }

-- `_inc`: a signal of `w` bits counts modulo `modulo`.
unfoldable pub inc : (w modulo signal : ℕ) → ℕ
inc w modulo signal =
    if modulo == 2 ^ w
    then (signal + 1) % 2 ^ w
    else if signal == modulo - 1
    then 0
    else (signal + 1) % 2 ^ w

abbrev pub writable : Settings → Ctrl → Bool
writable g s = ltb s.level g.depth

abbrev pub readable : Ctrl → Bool
readable s = ltb 0 s.level

-- The inputs of one cycle: the sink's `valid`, and the readiness of the writer and the reader.
pub record Inputs : Type 0 where
  pub sink_valid : Bool
  pub writer_ready : Bool
  pub reader_ready : Bool

-- `ctrl.write` of `_LiteDRAMFIFOWriter` and `ctrl.read` of `_LiteDRAMFIFOReader`.
unfoldable pub write : Settings → Inputs → Ctrl → Bool
write g i s = (i.sink_valid && writable g s) && i.writer_ready

unfoldable pub read : Inputs → Ctrl → Bool
read i s = readable s && i.reader_ready

unfoldable pub write_address : Settings → Ctrl → ℕ
write_address g s = g.base + s.produce

unfoldable pub read_address : Settings → Ctrl → ℕ
read_address g s = g.base + s.consume

unfoldable pub step : Settings → Inputs → Ctrl → Ctrl
unfolding write read inc
step g i s = record {
  level =
      (s.level + (if write g i s then 1 else 0) + 2 ^ g.level_width - (if read i s then 1 else 0))
      % 2 ^ g.level_width;
  produce = if write g i s then inc g.address_width g.depth s.produce else s.produce;
  consume = if read i s then inc g.address_width g.depth s.consume else s.consume;
}

unfoldable pub run : Settings → List Inputs → Ctrl
unfolding step
run g h = after (step g) reset h
