-- ===== src/Frontend/Bist.antt =====
-- litedram/frontend/bist.py: the generators of data and addresses, and the FSMs that write a pattern
-- (`_LiteDRAMBISTGenerator`) and read it back (`_LiteDRAMBISTChecker`), on a native port. The DMA
-- engines' handshakes are inputs, and so are the settings, which software leaves alone in a run.
pub mod Written
pub mod Checker
use litedram.Base.{
  ℕ, zero, suc, ◌+◌, ◌-◌, ◌*◌, ◌/◌, ◌%◌, ◌^◌, Bool, true, false, not, ◌&&◌, List, [], ◌∷◌, ◌++◌,
  ◌==◌, if◌then◌else◌, after, bit_and, take, nth, replicate, length,
}

-- `LFSR`: `n_out` rounds on the bits of the state, bit 0 first. A tap beyond them reads 0.
abbrev pub xor : Bool → Bool → Bool
xor true b = not b
xor false b = b

unfoldable pub parity : List ℕ → List Bool → Bool
parity [] curval = false
parity (tap ∷ taps) curval = xor (nth false curval tap) (parity taps curval)

-- `curval.insert(0, nv)` and `curval.pop()`.
unfoldable pub lfsr_round : List ℕ → List Bool → List Bool
unfolding parity
lfsr_round taps [] = []
lfsr_round taps (b ∷ curval) =
    take (length (b ∷ curval)) (not (parity taps (b ∷ curval)) ∷ b ∷ curval)

unfoldable pub lfsr_rounds : ℕ → List ℕ → List Bool → List Bool
unfolding lfsr_round
lfsr_rounds zero taps curval = curval
lfsr_rounds (suc n) taps curval = lfsr_rounds n taps (lfsr_round taps curval)

-- The output, and the next state of `n_state` bits.
unfoldable pub lfsr_output : (n_out n_state : ℕ) → List ℕ → List Bool → List Bool
unfolding lfsr_rounds
lfsr_output n_out n_state taps state =
    lfsr_rounds n_out taps (state ++ replicate (n_out - n_state) false)

unfoldable pub lfsr_next : (n_out n_state : ℕ) → List ℕ → List Bool → List Bool
unfolding lfsr_output
lfsr_next n_out n_state taps state = take n_state (lfsr_output n_out n_state taps state)

-- A number from its bits, bit 0 first.
abbrev pub value : List Bool → ℕ
value [] = 0
value (b ∷ bs) = (if b then 1 else 0) + 2 * value bs

-- `Generator(31, n_state=31, taps=[27, 30])`.
pub record Generator : Type 0 where
  pub lfsr : List Bool
  pub count : ℕ

abbrev pub generator_reset : Generator
generator_reset = record { lfsr = replicate 31 false; count = 0 }

abbrev taps : List ℕ
taps = 27 ∷ 30 ∷ []

unfoldable pub generator_o : (random : Bool) → Generator → ℕ
unfolding lfsr_output
generator_o random s = if random then value (lfsr_output 31 31 taps s.lfsr) else s.count

unfoldable pub generator_step : (ce : Bool) → Generator → Generator
unfolding lfsr_next
generator_step ce s =
    if ce then record { lfsr = lfsr_next 31 31 taps s.lfsr; count = (s.count + 1) % 2 ^ 31 } else s

-- The settings: `ashift` and `awidth` of `get_ashift_awidth`, and the widths of the port.
pub record Settings : Type 0 where
  pub ashift : ℕ
  pub awidth : ℕ
  pub address_width : ℕ
  pub data_width : ℕ
  pub base : ℕ
  pub end : ℕ
  pub length : ℕ
  pub random_data : Bool
  pub random_addr : Bool

-- `cmd_counter == (self.length[ashift:] - 1)`, in the width of the longer operand.
unfoldable pub at_end : Settings → ℕ → Bool
at_end g counter =
    counter == (g.length / 2 ^ g.ashift + 2 ^ g.address_width - 1) % 2 ^ g.address_width

-- `addr_mask` and the address of a word.
unfoldable pub addr_mask : Settings → ℕ
addr_mask g = (g.end + 2 ^ g.awidth - g.base + 2 ^ g.awidth - 1) % 2 ^ g.awidth

unfoldable pub word_address : Settings → Generator → ℕ
unfolding addr_mask generator_o
word_address g s =
    (g.base / 2 ^ g.ashift + bit_and (generator_o g.random_addr s) (addr_mask g))
    % 2 ^ g.address_width

-- `Replicate(o, copies)`, and the data of a word: as many copies as the port's width needs, cut to it.
unfoldable pub replicated : (o copies : ℕ) → ℕ
replicated o zero = 0
replicated o (suc copies) = o + 2 ^ 31 * replicated o copies

unfoldable pub word_data : Settings → (o : ℕ) → ℕ
unfolding replicated
word_data g o = replicated o ((g.data_width + 30) / 31) % 2 ^ g.data_width

pub data State : Type 0 where
  idle wait run_state await_fifo_empty done : State

-- The inputs of one cycle of the generator.
pub record Inputs : Type 0 where
  pub start : Bool
  pub run_cascade_in : Bool
  pub sink_ready : Bool
  pub fifo_valid : Bool

pub record Writer : Type 0 where
  pub fsm : State
  pub cmd_counter : ℕ
  pub ticks : ℕ
  pub data_gen : Generator
  pub addr_gen : Generator

-- `cmd_counter` has no reset: it starts at any value.
abbrev pub reset : ℕ → Writer
reset counter = record {
  fsm = State.idle;
  cmd_counter = counter;
  ticks = 0;
  data_gen = generator_reset;
  addr_gen = generator_reset;
}

-- `dma.sink.valid & dma.sink.ready`.
abbrev pub writes : Bool → State → Bool
writes ready State.run_state = ready
writes ready _ = false

unfoldable pub next : Settings → Inputs → ℕ → State → State
unfolding at_end
next g i counter State.idle = if i.start then State.run_state else State.idle
next g i counter State.wait = if i.run_cascade_in then State.run_state else State.wait
next g i counter State.run_state =
    if i.sink_ready
    then (if at_end g counter
        then State.await_fifo_empty
        else if i.run_cascade_in
        then State.run_state
        else State.wait)
    else State.run_state
next g i counter State.await_fifo_empty =
    if i.fifo_valid then State.await_fifo_empty else State.done
next g i counter State.done = State.done

unfoldable pub next_counter : Settings → Inputs → ℕ → State → ℕ
next_counter g i counter State.idle = if i.start then 0 else counter
next_counter g i counter State.run_state =
    if i.sink_ready then (counter + 1) % 2 ^ g.address_width else counter
next_counter g i counter _ = counter

unfoldable pub next_ticks : ℕ → State → ℕ
next_ticks ticks State.idle = 0
next_ticks ticks State.run_state = (ticks + 1) % 2 ^ 32
next_ticks ticks _ = ticks

unfoldable pub step : Settings → Inputs → Writer → Writer
unfolding next next_counter next_ticks generator_step
step g i s = record {
  fsm = next g i s.cmd_counter s.fsm;
  cmd_counter = next_counter g i s.cmd_counter s.fsm;
  ticks = next_ticks s.ticks s.fsm;
  data_gen = generator_step (writes i.sink_ready s.fsm) s.data_gen;
  addr_gen = generator_step (writes i.sink_ready s.fsm) s.addr_gen;
}

unfoldable pub run : Settings → ℕ → List Inputs → Writer
unfolding step
run g counter h = after (step g) (reset counter) h
