-- ===== src/Tests/Lpddr.antt =====
-- The command adapters of LPDDR4 and LPDDR5 with the simulated chips, and a timer of the simulators.
use litedram.Base.{
  ℕ, ◌+◌, ◌≡◌, refl, ap, arith, Bool, true, false, some, List, [], ◌∷◌, ◌++◌, map, ◌==◌,
}
use litedram.Tests.Init.{lpddr4_init, lpddr5, lpddr5_init, lpddr5_built}
use litedram.Phy.Dfi.{Phase}
use litedram.Phy.PulseTiming
use litedram.Phy.Lpddr4.Commands.{
  Pins, truth_table, is_mrw, parse_bit, selects, set, choose, choice, adapter,
}
use litedram.Phy.Lpddr4.Sim.{Device, Message}
use litedram.Phy.Lpddr4.Chip
use litedram.Phy.Lpddr4.Decoded
use litedram.Phy.Lpddr4.Decoded.Stream
use litedram.Phy.Lpddr4.Data.{Data, dq_out}
use litedram.Phy.Lpddr4.Data.Stored.{
  Beat, burst_to, during, lane_of, written_and_read, written_and_read_lem,
}
use litedram.Phy.Lpddr4.Data.Stored
use litedram.Phy.Lpddr4.Bringup
use litedram.Phy.Lpddr4.Bringup.Sequence as Sequence4
use litedram.Phy.Lpddr5.Cycle
use litedram.Phy.Lpddr5.Sim as Sim5
use litedram.Phy.Lpddr5.Decoded as Decoded5
use litedram.Phy.Lpddr5.Decoded.Stream as Stream5
use litedram.Phy.Lpddr5.Commands as Commands5
use litedram.Phy.Lpddr5.Bringup as Bringup5
use litedram.Phy.Lpddr5.Bringup.Latency as Latency5

abbrev phase : (bank address : ℕ) (cas_n ras_n we_n : Bool) → Phase
phase bank address cas_n ras_n we_n = record {
  cs_n = 0;
  bank = bank;
  address = address;
  cas_n = cas_n;
  ras_n = ras_n;
  we_n = we_n;
}

abbrev activate : Phase
activate = phase 2 70000 true false true

-- A write with auto-precharge, and a read after it.
abbrev write : Phase
write = phase 2 1040 false true false

abbrev read : Phase
read = phase 2 48 false true true

abbrev mode_read : Phase
mode_read = phase 1 4 true true false

abbrev three : List Phase
three = activate ∷ write ∷ read ∷ []

abbrev device : Device
device = record { mode_regs = λ k. 0; active_banks = λ b. false; active_rows = λ b. 0 }

adapter-activate :
    adapter true activate
    ≡ record { cs = true; ca = true ∷ false ∷ true ∷ false ∷ false ∷ false ∷ [] }
      ∷ record { cs = false; ca = false ∷ true ∷ false ∷ true ∷ false ∷ false ∷ [] }
      ∷ record { cs = true; ca = true ∷ true ∷ true ∷ false ∷ true ∷ false ∷ [] }
      ∷ record { cs = false; ca = false ∷ false ∷ false ∷ false ∷ true ∷ true ∷ [] }
      ∷ []
unfolding truth_table is_mrw parse_bit selects set choose choice adapter
adapter-activate = refl

abbrev view : Decoded.View
view = record { device = device; log = []; bursts = [] }

abbrev registers : Decoded.Registers
registers = record {
  ma = [];
  op7 = false;
  act_bank = [];
  row1 = [];
  cas1 = [];
  cas_bank = [];
  col9 = false;
  burst_len = false;
  auto_precharge = false;
}

-- The read finds the bank closed by the write.
effects-three :
    let v = Decoded.effects true three view in
    (v.log ≡ Message.cas_on_inactive_bank ∷ [])
    × (v.bursts
        ≡ record { we = false; masked = false; bank = 2; row = 70000; col = 48 }
          ∷ record { we = true; masked = true; bank = 2; row = 70000; col = 16 }
          ∷ [])
unfolding Decoded.effects
effects-three = (refl, refl)

-- The simulator knows no mode register read.
effects-mode_read :
    (Decoded.effects true (mode_read ∷ []) view).log
    ≡ Message.unexpected_command ∷ Message.unexpected_command ∷ []
unfolding Decoded.effects
effects-mode_read = refl

-- Cycles in which no timer is ever ready.
abbrev timed : List Pins → List Chip.Inputs
timed [] = []
timed (p ∷ ps) =
    record {
      pins = p;
      sink_ready = true;
      tinit3_ready_p = false;
      tinit5_ready_p = false;
      tpw_reset_ready_p = false;
      tzqcal_ready = false;
      tzqlat_ready = false;
    }
    ∷ timed ps

timed-AllUndisturbed : (ps : List Pins) → Stream.AllUndisturbed (timed ps)
timed-AllUndisturbed [] = tt
timed-AllUndisturbed (p ∷ ps) = ((refl, refl), timed-AllUndisturbed ps)

timed-Latched : (ps : List Pins) → Stream.Latched false (timed ps)
timed-Latched [] = tt
timed-Latched (p ∷ ps) = ((λ e. cc), timed-Latched ps)

pins_of-timed : (ps : List Pins) → Stream.pins_of (timed ps) ≡ ps
pins_of-timed [] = refl
pins_of-timed (p ∷ ps) = ap (λ xs. p ∷ xs) (pins_of-timed ps)

abbrev three_pins : List Pins
three_pins = Stream.frames true three ++ (Stream.low [] ∷ [])

lpddr4_cycles-effects_example :
    Decoded.view
      (Stream.play false
        (timed three_pins)
        (Stream.operating false [] [] (Decoded.at_rest registers view))).chip
    ≡ Decoded.effects true three view
lpddr4_cycles-effects_example =
    Stream.lpddr4_cycles-effects false true [] [] three (timed three_pins) registers view
      (timed-AllUndisturbed three_pins) (timed-Latched three_pins) (pins_of-timed three_pins)

abbrev bringup_pins : List Pins
bringup_pins = Stream.frames true (Bringup.sequence_phases 2 lpddr4_init.sequence)

abbrev view5 : Decoded5.View
view5 = record { device = device; log = []; bursts = [] }

abbrev registers5 : Decoded5.Registers
registers5 = record { ma = []; bank = []; row1 = []; row2 = []; timer = PulseTiming.reset }

abbrev two5 : List (Bool × Phase)
two5 = (false, activate) ∷ (true, read) ∷ []

effects-two5 :
    (Decoded5.effects true (Stream5.phases two5) view5).bursts
    ≡ record {
      we = false;
      masked = false;
      burst32 = false;
      bank = 2;
      row = 70000;
      col = 3;
      latency = 1;
    }
      ∷ []
unfolding Decoded5.effects
effects-two5 = refl

-- Cycles in which no timer is ever ready.
abbrev timed5 : List Commands5.Pins → List Cycle.Inputs
timed5 [] = []
timed5 (p ∷ ps) =
    record {
      pins = p;
      reset_n_rise = false;
      tpw_reset_rise = false;
      tinit1_ready = false;
      tinit3_ready = false;
      tinit4_ready = false;
      tinit5_ready = false;
      tzqlat_ready = false;
    }
    ∷ timed5 ps

timed5-AllUndisturbed : (ps : List Commands5.Pins) → Stream5.AllUndisturbed (timed5 ps)
timed5-AllUndisturbed [] = tt
timed5-AllUndisturbed (p ∷ ps) = ((refl, refl), timed5-AllUndisturbed ps)

pins_of-timed5 : (ps : List Commands5.Pins) → Stream5.pins_of (timed5 ps) ≡ ps
pins_of-timed5 [] = refl
pins_of-timed5 (p ∷ ps) = ap (λ xs. p ∷ xs) (pins_of-timed5 ps)

abbrev two5_pins : List Commands5.Pins
two5_pins = Stream5.frames true two5 ++ (Stream5.silent ∷ Stream5.silent ∷ [])

lpddr5_cycles-effects_example :
    Decoded5.view
      (Stream5.play true
        (timed5 two5_pins)
        (Stream5.operating Stream5.silent Stream5.silent (Decoded5.at_rest registers5 view5))).chip
    ≡ Decoded5.effects true (Stream5.phases two5) view5
lpddr5_cycles-effects_example =
    Stream5.lpddr5_cycles-effects true true two5 (timed5 two5_pins) registers5 view5
      (timed5-AllUndisturbed two5_pins) (pins_of-timed5 two5_pins)

abbrev bringup5_pins : List Commands5.Pins
bringup5_pins = Stream5.frames true (Bringup5.sequence_phases 1 lpddr5_init.sequence)

get_lpddr5-latencies_example :
    let s =
      Stream5.play false
        (timed5 bringup5_pins)
        (Bringup5.waiting Cycle.InitState.wait_nop (Decoded5.at_rest registers5 view5)) in
    (s.fsm ≡ Cycle.InitState.normal)
    × (s.chip.log ≡ [])
    × (Sim5.wl s.chip.device.mode_regs ≡ 4)
    × (Sim5.rl s.chip.device.mode_regs ≡ 6)
get_lpddr5-latencies_example =
    Latency5.get_lpddr5-latencies lpddr5 lpddr5_init lpddr5_built true 1 (timed5 bringup5_pins)
      registers5 view5 (timed5-AllUndisturbed bringup5_pins) (pins_of-timed5 bringup5_pins)

-- Three cycles after the rising edge a timer of three cycles is ready.
abbrev triggered : List Bool
triggered = true ∷ true ∷ true ∷ false ∷ []

ready-since_example : PulseTiming.ready 3 false (PulseTiming.run 3 triggered) ≡ true
unfolding PulseTiming.since
ready-since_example = PulseTiming.ready-since 3 false triggered (omega arith)

-- The second lane is masked in every beat.
abbrev beat_of : ℕ → Beat
beat_of n = record { dq = λ lane. n + lane; dmi = λ lane. lane == 1 }

abbrev beats : List Beat
beats =
    map beat_of (40 ∷ 41 ∷ 42 ∷ 43 ∷ 44 ∷ 45 ∷ 46 ∷ 47 ∷ 48 ∷ 49 ∷ 50 ∷ 51 ∷ 52 ∷ 53 ∷ 54 ∷ 55 ∷ [])

abbrev fresh : Data
fresh = during Stored.idle Stored.idle false (burst_to true false 0 0 0) (λ bank a lane. 7)

written_and_read_lem_example :
    lane_of 0 (dq_out (written_and_read true 3 9 16 beats 2 5 (beat_of 0) fresh)) ≡ some 45
written_and_read_lem_example =
    written_and_read_lem true 3 9 16 beats 2 5 (beat_of 0) false (burst_to true false 0 0 0)
      (λ bank a lane. 7) 0 refl (omega arith)
