-- ===== src/Lib.antt =====
-- Models of LiteDRAM, a DRAM controller that litedram/ describes in Python as synchronous hardware,
-- and theorems about them.
--
-- The controller has one bank machine for each bank (litedram/core/bankmachine.py), which turns the
-- bank's requests into DRAM commands; a refresher (litedram/core/refresher.py), which asks for the
-- DRAM and refreshes it; a multiplexer (litedram/core/multiplexer.py) that grants commands, with the
-- timing controllers of litedram/common.py; and a measurement of bandwidth
-- (litedram/core/bandwidth.py). A crossbar (litedram/core/crossbar.py) routes the commands of its
-- ports to the bank machines. The frontend (litedram/frontend) stands on such ports: a converter to
-- a narrower port, DMA engines, a FIFO that keeps its words in the DRAM, and a self test. Before
-- the controller runs, software plays the initialization sequence that litedram/init.py computes
-- from the settings, and the timings in cycles come from the tables of litedram/modules.py. Commands
-- leave the controller on the DFI; for LPDDR4 and LPDDR5 an adapter of litedram/phy encodes them.
--
-- A clocked component is a record of its registers, with a reset value, and a function `step` from
-- the inputs of one clock cycle to the next registers; `run` is the state after a history of inputs,
-- the most recent one first (`after` in Base.Signal). Combinational outputs are functions of state
-- and inputs. A counter of a width w wraps modulo 2 ^ w where the source's signal does. A function
-- that can raise an exception returns an Option or, in Modules, a Result.
--
-- Base: names and lemmas that all share; Base.Bits has the bits of a number.
-- Common.Txxd and Common.Faw: `tXXDController` and `tFAWController` of litedram/common.py. The
-- counters' widths are parameters, and the theorems assume what `Signal(max=…)` gives.
-- Common.Port, Common.DelayLine and Common.BitSlip: the bank, row and column of a port's address,
-- `TappedDelayLine`, and `BitSlip` with the registered `ConstBitSlip` of litedram/phy/utils.py.
-- Core.BankMachine: `BankMachine`, with `_AddressSlicer` in Slicer. Its FSM is `act`, one clause
-- for each state; the states of `delayed_enter` carry how many more follow. The FIFO and the
-- buffer in front of it come from litex: their outputs are inputs, so the theorems hold whatever
-- they present. Bank is the specification: a bank with the ages of its last commands, and which
-- commands are legal in it. A refresh is assumed to leave the bank closed.
-- Core.Multiplexer: `Multiplexer`, with `_CommandChooser` in Chooser. What the round-robin arbiters
-- of migen grant is an input, so the theorems hold for every arbitration. `_Steerer` is in Steerer,
-- with the rank decoder of migen as a parameter.
-- Core.Refresher: `RefreshTimer`, `RefreshPostponer` and `Refresher`; Sequencer has
-- `RefreshExecuter`, `RefreshSequencer` and `ZQCSExecuter`. The `timeline` of litex is a record of
-- its behaviour (Timeline), which a counter satisfies (Tests.Refresher).
-- Core.Bandwidth: `Bandwidth`, less its constant register.
-- Core.Crossbar: `do_finalize` of `LiteDRAMCrossbar`, for the signals of one cycle. The grants of the
-- round-robin arbiters and what the bank machines answer are inputs.
-- Frontend.SyncFifo: the queue of litex, as a record of its behaviour, which a list satisfies
-- (Tests.Frontend). The theorems hold for every such queue.
-- Frontend.Dma: `LiteDRAMDMAReader` and `LiteDRAMDMAWriter` with their `add_csr`; Frontend.DramFifo:
-- `_LiteDRAMFIFO`; Frontend.DownConverter: `LiteDRAMNativePortDownConverter`, without its data
-- converters of litex; Frontend.Bist: the generators, `_LiteDRAMBISTGenerator` and
-- `_LiteDRAMBISTChecker`. The ports are native ones, and what the other side answers is an input.
-- Modules: `SDRAMModule` (Build), the SPD data (Spd) and the tables (Library). A time is a float
-- of nanoseconds, with the rounding of each operation but no end of
-- the exponents (Doubles), and a rate comes as the numbers of its string; a function that can raise
-- an exception returns a Result, with the kind of the exception.
-- Init: `reg` (Register), and the sequences for SDR, DDR, LPDDR and DDR2 (Legacy), DDR3, DDR4,
-- LPDDR4 and LPDDR5, whose steps that load a table are in Load. Dictionaries are association
-- lists (Table). `log2_int` of migen is a
-- parameter, the speeds that an RDIMM gets from a floating-point clock period are settings, and
-- the delays of LPDDR4 and LPDDR5 are what their fixed 200 MHz give, and the reference voltages of
-- LPDDR5 are multiples of half a percent. What the DRAM reads from a mode register is written
-- after the DRAM's standards, apart from the code that writes it.
-- Phy.Dfi: the commands of a DFI phase (litedram/phy/dfi.py) and `PhaseInjector` of litedram/dfii.py,
-- by which software issues the steps of an initialization sequence. Phy.Wires: signals as bits.
-- Phy.Lpddr4 and Phy.Lpddr5: Commands is the `DFIPhaseAdapter` of litedram/phy/lpddr4/commands.py or
-- litedram/phy/lpddr5/commands.py; Sim, Chip and Cycle are the `CommandsSim` of the sim.py beside it,
-- the chip that LiteDRAM simulates. Decoded says what each DFI command does to a chip, written from
-- the bits of its bank and address; Bringup plays the sequences of Init. The timers that only gate
-- the FSM and its warnings are inputs, and what is logged and what goes to the data simulator are
-- lists. The parts of a command come in adjacent cycles, one command after the other. Lpddr4.Data is
-- the memory of the simulated chip with its read and write bursts, less DQS.
-- Phy.Pipeline: `CommandsPipeline` of litedram/phy/utils.py, for one line of the pads and without the
-- extended check of overlaps; it puts the adapters' bits in the phases.
-- Phy.PulseTiming: `PulseTiming` of litedram/phy/sim_utils.py.
-- Tests: runs at concrete inputs.
--
-- Not modelled: the multiplexer's wiring of data, the controller's assembly, the sequence
-- for RPC, the DFI's rate converter, the ECC and the bus bridges, the up converter, the crossing of clock domains,
-- the bypass of the DRAM FIFO, the pattern variants of the self test, the serialization, the data side of LPDDR5 and the RPC
-- part of the PHYs, the PHYs of FPGA families, which are instances of vendor primitives, and the generator.
-- Of the modules, K4T1G164QGBCE7 is left out, whose tRFC is a fraction of a clock.
pub mod Base
pub mod Common
pub mod Core
pub mod Frontend
pub mod Init
pub mod Modules
pub mod Phy
pub mod Tests
