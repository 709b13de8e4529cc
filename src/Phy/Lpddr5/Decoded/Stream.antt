-- ===== src/Phy/Lpddr5/Decoded/Stream.antt =====
-- The cycles of several commands of the DFI in a row, in the simulated LPDDR5 chip.
use litedram.Base.{
  ◌≡◌, refl, sym, ap, ◌∙◌, Bool, true, false, not, ◌&&◌, Option, some, none, List, [], ◌∷◌, ◌++◌,
  if◌then◌else◌,
}
use litedram.Phy.Dfi.{Phase}
use litedram.Phy.PulseTiming
use litedram.Phy.Lpddr5.Commands.{Pins, choice, adapter}
use litedram.Phy.Lpddr5.Sim.{Chip, Message, Edges}
use litedram.Phy.Lpddr5.Chip.{handle, mrw_next, act_next, act_trigger, timeout}
use litedram.Phy.Lpddr5.Cycle.{
  InitState, Inputs, Sim, edges, cmds_enabled, allow_unhandled_cmd, handled, fsm_state,
  fsm_messages, all_messages, step,
}
use litedram.Phy.Lpddr5.Decoded.{View, effect, effects, Registers, at_rest, view}
use litedram.Phy.Lpddr5.Decoded.Frame.{registers, small, smalls, effect_lem}

-- No reset begins or ends in a cycle; the timers are ready or not.
abbrev pub Undisturbed : Inputs → Type 0
Undisturbed i = (i.reset_n_rise ≡ false) × (i.tpw_reset_rise ≡ false)

abbrev pub AllUndisturbed : List Inputs → Type 0
AllUndisturbed [] = Unit
AllUndisturbed (i ∷ h) = Undisturbed i × AllUndisturbed h

abbrev pub pins_of : List Inputs → List Pins
pins_of [] = []
pins_of (i ∷ h) = i.pins ∷ pins_of h

-- Any cycles, the first one first.
unfoldable pub play : (check_timings : Bool) → List Inputs → Sim → Sim
unfolding step
play check_timings [] s = s
play check_timings (i ∷ h) s = play check_timings h (step check_timings i s)

-- The cycle with the same pads that the lemmas compare others with.
abbrev pub quiet : Pins → Inputs
quiet p = record {
  pins = p;
  reset_n_rise = false;
  tpw_reset_rise = false;
  tinit1_ready = true;
  tinit3_ready = true;
  tinit4_ready = true;
  tinit5_ready = true;
  tzqlat_ready = true;
}

unfoldable pub cycles : (check_timings : Bool) → List Pins → Sim → Sim
unfolding step
cycles check_timings [] s = s
cycles check_timings (p ∷ ps) s = cycles check_timings ps (step check_timings (quiet p) s)

-- The adapter's cycles for one command after the other, each with the PHY's `wck_sync_done`.
unfoldable pub frames : (masked_write : Bool) → List (Bool × Phase) → List Pins
unfolding adapter
frames masked_write [] = []
frames masked_write ((done, p) ∷ ps) = adapter masked_write done p ++ frames masked_write ps

abbrev pub phases : List (Bool × Phase) → List Phase
phases [] = []
phases ((done, p) ∷ ps) = p ∷ phases ps

abbrev pub silent : Pins
silent = record { cs = false; ca_p = []; ca_n = [] }

abbrev pub operating : (now pre : Pins) → Chip → Sim
operating now pre c = record { pre = pre; now = now; fsm = InitState.normal; chip = c }

-- The chip once the commands in the registers are handled, in two more cycles.
unfoldable pub drained : (check_timings : Bool) → Sim → Chip
unfolding step
drained check_timings s =
    (step check_timings (quiet silent) (step check_timings (quiet silent) s)).chip

obey : Pins → Chip → Chip
unfolding handle
obey p c = handle (if p.cs then some (edges p) else none) c

obeys : List Pins → Chip → Chip
unfolding obey
obeys [] c = c
obeys (p ∷ ps) c = obeys ps (obey p c)

step-operating :
    (check_timings : Bool) (p now pre : Pins) (c : Chip)
    → step check_timings (quiet p) (operating now pre c) ≡ operating pre p (obey now c)
unfolding step handled cmds_enabled allow_unhandled_cmd fsm_state fsm_messages all_messages obey
step-operating check_timings p now pre c = refl

drained-cycles :
    (check_timings : Bool) (ps : List Pins) (now pre : Pins) (c : Chip)
    → drained check_timings (cycles check_timings ps (operating now pre c))
      ≡ obeys (now ∷ pre ∷ ps) c
unfolding drained cycles obeys
drained-cycles check_timings [] now pre c =
    ap (λ s. (step check_timings (quiet silent) s).chip)
      (step-operating check_timings silent now pre c)
    ∙ ap (λ (s : Sim). s.chip) (step-operating check_timings silent pre silent (obey now c))
drained-cycles check_timings (p ∷ ps) now pre c =
    ap (λ s. drained check_timings (cycles check_timings ps s))
      (step-operating check_timings p now pre c)
    ∙ drained-cycles check_timings ps pre p (obey now c)

obeys-frames :
    (m : Bool) (ps : List (Bool × Phase)) (r : Registers) (v : View)
    → view (obeys (frames m ps) (at_rest r v)) ≡ effects m (phases ps) v
unfolding obeys frames adapter effects small obey
obeys-frames m [] r v = refl
obeys-frames m ((done, p) ∷ ps) r v =
    let c = smalls p (choice m done p) (at_rest r v) in
    ap (λ x. view (obeys (frames m ps) x)) (effect_lem m done p r v)
    ∙ obeys-frames m ps (registers c) (effect m p v)

obey-silent :
    (r : Registers) (v : View)
    → obey silent (at_rest r v) ≡ at_rest (registers (obey silent (at_rest r v))) v
unfolding obey handle mrw_next act_next act_trigger timeout PulseTiming.step
obey-silent r v = refl

decoded :
    (check_timings m : Bool) (ps : List (Bool × Phase)) (r : Registers) (v : View)
    → view (
        drained check_timings
          (cycles check_timings (frames m ps) (operating silent silent (at_rest r v))))
      ≡ effects m (phases ps) v
unfolding obeys
decoded check_timings m ps r v =
    let r1 = registers (obey silent (at_rest r v)) in
    let r2 = registers (obey silent (at_rest r1 v)) in
    ap view (drained-cycles check_timings (frames m ps) silent silent (at_rest r v))
    ∙ ap (λ c. view (obeys (frames m ps) (obey silent c))) (obey-silent r v)
    ∙ ap (λ c. view (obeys (frames m ps) c)) (obey-silent r1 v)
    ∙ obeys-frames m ps r2 v

pub cycles-append :
    (check_timings : Bool) (ps qs : List Pins) (s : Sim)
    → cycles check_timings (ps ++ qs) s ≡ cycles check_timings qs (cycles check_timings ps s)
unfolding cycles
cycles-append check_timings [] qs s = refl
cycles-append check_timings (p ∷ ps) qs s = cycles-append check_timings ps qs _

-- In normal operation no timer is read.
step-Undisturbed :
    (check_timings : Bool) (i : Inputs) (now pre : Pins) (c : Chip)
    → Undisturbed i
    → step check_timings i (operating now pre c)
      ≡ step check_timings (quiet i.pins) (operating now pre c)
unfolding step handled cmds_enabled allow_unhandled_cmd fsm_state fsm_messages all_messages
step-Undisturbed check_timings i now pre c u = rw (u.1) refl

play-cycles :
    (check_timings : Bool) (h : List Inputs) (now pre : Pins) (c : Chip)
    → AllUndisturbed h
    → play check_timings h (operating now pre c)
      ≡ cycles check_timings (pins_of h) (operating now pre c)
unfolding play cycles
play-cycles check_timings [] now pre c u = refl
play-cycles check_timings (i ∷ h) now pre c u =
    let one = step-operating check_timings i.pins now pre c in
    ap (play check_timings h) (step-Undisturbed check_timings i now pre c u.0 ∙ one)
    ∙ play-cycles check_timings h pre i.pins (obey now c) u.1
    ∙ ap (cycles check_timings (pins_of h)) (sym one)

-- Over any cycles in which no reset begins or ends, whether the timers are ready or not, and whose
-- pads are the adapter's for any phases of the DFI in a row, with two more cycles with CS low at the
-- end, a chip that starts in normal operation with no command half done gets the mode registers, the
-- open banks and the rows that the commands of the phases say, logs the messages that they give, and
-- sends their bursts to the data simulator, whether the PHY asks for a synchronization of WCK or not.
pub lpddr5_cycles-effects :
    (check_timings m : Bool) (ps : List (Bool × Phase)) (h : List Inputs) (r : Registers) (v : View)
    → AllUndisturbed h
    → pins_of h ≡ frames m ps ++ (silent ∷ silent ∷ [])
    → view (play check_timings h (operating silent silent (at_rest r v))).chip
      ≡ effects m (phases ps) v
unfolding cycles drained
lpddr5_cycles-effects check_timings m ps h r v u pads =
    let start = operating silent silent (at_rest r v) in
    ap (λ (s : Sim). view s.chip)
      (play-cycles check_timings h silent silent (at_rest r v) u
        ∙ ap (λ xs. cycles check_timings xs start) pads
        ∙ cycles-append check_timings (frames m ps) (silent ∷ silent ∷ []) start)
    ∙ decoded check_timings m ps r v

-- With `check_timings` off the timers are read nowhere.
unread : (b : Bool) → (b && false) ≡ false
unread true = refl
unread false = refl

fsm_messages-unread :
    (i : Inputs) (o : Option Edges) (s : Sim) (f : InitState) (log : List Message)
    → Undisturbed i
    → fsm_messages false i o s f log ≡ fsm_messages false (quiet i.pins) o s f log
unfolding fsm_messages
fsm_messages-unread i o s InitState.reset log u = rw (u.0) refl
fsm_messages-unread i o s InitState.wait_nop log u =
    rw (unread (not i.tinit3_ready), unread (not i.tinit4_ready)) refl
fsm_messages-unread i o s InitState.no_cmds log u = rw (unread (not i.tinit5_ready)) refl
fsm_messages-unread i o s InitState.mode_regs log u = refl
fsm_messages-unread i o s InitState.zqc log u = rw (unread (not i.tzqlat_ready)) refl
fsm_messages-unread i o s InitState.normal log u = refl

fsm_state-unread :
    (i : Inputs) (o : Option Edges) (s : Sim) (f : InitState)
    → Undisturbed i
    → fsm_state false i o s f ≡ fsm_state false (quiet i.pins) o s f
unfolding fsm_state
fsm_state-unread i o s InitState.reset u = rw (u.0) refl
fsm_state-unread i o s InitState.wait_nop u = refl
fsm_state-unread i o s InitState.no_cmds u = refl
fsm_state-unread i o s InitState.mode_regs u = refl
fsm_state-unread i o s InitState.zqc u = refl
fsm_state-unread i o s InitState.normal u = refl

step-unread : (i : Inputs) (s : Sim) → Undisturbed i → step false i s ≡ step false (quiet i.pins) s
unfolding step handled cmds_enabled allow_unhandled_cmd all_messages
step-unread i s u =
    let o = handled (quiet i.pins) s in
    rw
      (u.1, fsm_state-unread i o s s.fsm u, fsm_messages-unread i o s s.fsm (handle o s.chip).log u)
      refl

pub play-unread :
    (h : List Inputs) (s : Sim) → AllUndisturbed h → play false h s ≡ cycles false (pins_of h) s
unfolding play cycles
play-unread [] s u = refl
play-unread (i ∷ h) s u =
    ap (play false h) (step-unread i s u.0) ∙ play-unread h (step false (quiet i.pins) s) u.1
