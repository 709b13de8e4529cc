-- ===== src/Phy/Lpddr4/Decoded/Stream.antt =====
-- The cycles of several commands of the DFI in a row, in the simulated chip.
use litedram.Base.{
  ◌≡◌, refl, sym, ap, ◌∙◌, Bool, true, false, not, ◌&&◌, ◌||◌, inl, inr, Bool-cases, List, [], ◌∷◌,
  ◌++◌, map, if◌then◌else◌,
}
use litedram.Phy.Dfi.{Phase}
use litedram.Phy.Lpddr4.Commands.{
  Pins, SmallCommand, truth_table, is_mrw, parse_bit, selects, set, choice, adapter,
}
use litedram.Phy.Lpddr4.Sim.{Chip, Message, Edges}
use litedram.Phy.Lpddr4.Chip.{
  InitState, Inputs, Sim, cmds_enabled, handled, handle, fsm_command, fsm_messages, fsm_idle, step,
}
use litedram.Phy.Lpddr4.Decoded.{View, effect, effects, Registers, at_rest, view}
use litedram.Phy.Lpddr4.Decoded.Frame.{registers, small, smalls, effect_lem}

-- The data FIFO is ready in a cycle and no reset begins; the timers are ready or not.
abbrev pub Undisturbed : Inputs → Type 0
Undisturbed i = (i.sink_ready ≡ true) × (i.tpw_reset_ready_p ≡ false)

abbrev pub AllUndisturbed : List Inputs → Type 0
AllUndisturbed [] = Unit
AllUndisturbed (i ∷ h) = Undisturbed i × AllUndisturbed h

-- With `init_delays`, the timer tZQLAT of the calibration is over.
abbrev pub Latched : (init_delays : Bool) → List Inputs → Type 0
Latched init_delays [] = Unit
Latched init_delays (i ∷ h) = (init_delays ≡ true → i.tzqlat_ready ≡ true) × Latched init_delays h

abbrev pub pins_of : List Inputs → List Pins
pins_of [] = []
pins_of (i ∷ h) = i.pins ∷ pins_of h

-- Any cycles, the first one first.
unfoldable pub play : (init_delays : Bool) → List Inputs → Sim → Sim
unfolding step
play init_delays [] s = s
play init_delays (i ∷ h) s = play init_delays h (step init_delays i s)

-- The cycle with the same pads that the lemmas compare others with.
abbrev pub quiet : Pins → Inputs
quiet p = record {
  pins = p;
  sink_ready = true;
  tinit3_ready_p = false;
  tinit5_ready_p = false;
  tpw_reset_ready_p = false;
  tzqcal_ready = true;
  tzqlat_ready = true;
}

unfoldable pub cycles : (init_delays : Bool) → List Pins → Sim → Sim
unfolding step
cycles init_delays [] s = s
cycles init_delays (p ∷ ps) s = cycles init_delays ps (step init_delays (quiet p) s)

-- The adapter's cycles for one command after the other.
unfoldable pub frames : (masked_write : Bool) → List Phase → List Pins
unfolding adapter
frames masked_write [] = []
frames masked_write (p ∷ ps) = adapter masked_write p ++ frames masked_write ps

abbrev pub low : List Bool → Pins
low ca = record { cs = false; ca = ca }

-- The chip in normal operation, after a cycle with CS low; `cs` is CS in the cycle before.
abbrev pub operating : (cs : Bool) (ca1 ca0 : List Bool) → Chip → Sim
operating cs ca1 ca0 c = record {
  tap0 = low ca0;
  tap1 = record { cs = cs; ca = ca1 };
  fsm = InitState.normal;
  chip = c;
}

-- The chip once the command that is on the taps is handled, in one more cycle.
unfoldable pub drained : (init_delays : Bool) → Sim → Chip
unfolding step
drained init_delays s = (step init_delays (quiet (low [])) s).chip

four_cycles :
    (init_delays cs b1 b2 : Bool) (ca1 ca0 h1 l1 h2 l2 : List Bool) (c : Chip)
    → cycles init_delays
        (record { cs = b1; ca = h1 } ∷ low l1 ∷ record { cs = b2; ca = h2 } ∷ low l2 ∷ [])
        (operating cs ca1 ca0 c)
      ≡ operating b2 h2 l2
          (drained init_delays (operating b1 h1 l1 (drained init_delays (operating cs ca1 ca0 c))))
unfolding cycles drained step handled handle cmds_enabled fsm_command fsm_messages fsm_idle
four_cycles init_delays true true b2 ca1 ca0 h1 l1 h2 l2 c = refl
four_cycles init_delays true false b2 ca1 ca0 h1 l1 h2 l2 c = refl
four_cycles init_delays false true b2 ca1 ca0 h1 l1 h2 l2 c = refl
four_cycles init_delays false false b2 ca1 ca0 h1 l1 h2 l2 c = refl

drained-operating :
    (init_delays b : Bool) (h l : List Bool) (c : Chip)
    → drained init_delays (operating b h l c)
      ≡ (if b then handle (record { cs_high = h; cs_low = l; sink_ready = true }) c else c)
unfolding drained step handled handle cmds_enabled fsm_command fsm_messages fsm_idle
drained-operating init_delays true h l c = refl
drained-operating init_delays false h l c = refl

-- The chip with one small command on the taps.
on_taps : Phase → SmallCommand → Chip → Sim
unfolding truth_table is_mrw parse_bit selects
on_taps p cmd c =
    let (first, second) = truth_table cmd in
    operating (selects cmd) (map (parse_bit p (is_mrw cmd)) first)
      (map (parse_bit p (is_mrw cmd)) second) c

drained-on_taps :
    (init_delays : Bool) (p : Phase) (cmd : SmallCommand) (c : Chip)
    → drained init_delays (on_taps p cmd c) ≡ small p cmd c
unfolding on_taps small
drained-on_taps init_delays p cmd c = drained-operating init_delays (selects cmd) _ _ c

pub cycles-append :
    (init_delays : Bool) (ps qs : List Pins) (s : Sim)
    → cycles init_delays (ps ++ qs) s ≡ cycles init_delays qs (cycles init_delays ps s)
unfolding cycles
cycles-append init_delays [] qs s = refl
cycles-append init_delays (p ∷ ps) qs s = cycles-append init_delays ps qs _

cycles-adapter :
    (init_delays m cs : Bool) (ca1 ca0 : List Bool) (p : Phase) (c : Chip)
    → cycles init_delays (adapter m p) (operating cs ca1 ca0 c)
      ≡ on_taps p
          (choice m p).cmd2
          (small p (choice m p).cmd1 (drained init_delays (operating cs ca1 ca0 c)))
unfolding adapter set on_taps
cycles-adapter init_delays m cs ca1 ca0 p c =
    four_cycles init_delays cs (selects (choice m p).cmd1) (selects (choice m p).cmd2) ca1 ca0 _ _ _
      _ c
    ∙ ap (on_taps p (choice m p).cmd2) (drained-on_taps init_delays p (choice m p).cmd1 _)

cycles-frames :
    (init_delays m cs : Bool) (ca1 ca0 : List Bool) (ps : List Phase) (c : Chip) (r : Registers)
    (v : View)
    → drained init_delays (operating cs ca1 ca0 c) ≡ at_rest r v
    → view (drained init_delays (cycles init_delays (frames m ps) (operating cs ca1 ca0 c)))
      ≡ effects m ps v
unfolding frames effects cycles on_taps
cycles-frames init_delays m cs ca1 ca0 [] c r v h = ap view h
cycles-frames init_delays m cs ca1 ca0 (p ∷ ps) c r v h =
    let ch = choice m p in
    let c1 = small p ch.cmd1 (drained init_delays (operating cs ca1 ca0 c)) in
    let r1 = registers (smalls p ch (at_rest r v)) in
    let settled : drained init_delays (on_taps p ch.cmd2 c1) ≡ at_rest r1 (effect m p v) =
      drained-on_taps init_delays p ch.cmd2 c1 ∙ ap (smalls p ch) h ∙ effect_lem m p r v in
    ap (λ s. view (drained init_delays s))
      (cycles-append init_delays (adapter m p) (frames m ps) (operating cs ca1 ca0 c)
        ∙ ap (cycles init_delays (frames m ps)) (cycles-adapter init_delays m cs ca1 ca0 p c))
    ∙ cycles-frames init_delays m (selects ch.cmd2) _ _ ps c1 r1 (effect m p v) settled

over : (init_delays b : Bool) → (init_delays ≡ true → b ≡ true) → (not b && init_delays) ≡ false
over true b h = rw (h refl) refl
over false true h = refl
over false false h = refl

abbrev normal_at : (tap0 tap1 : Pins) → Chip → Sim
normal_at tap0 tap1 c = record { tap0 = tap0; tap1 = tap1; fsm = InitState.normal; chip = c }

-- In normal operation the other timers are not read.
step-Latched :
    (init_delays : Bool) (i : Inputs) (tap0 tap1 : Pins) (c : Chip)
    → Undisturbed i
    → (init_delays ≡ true → i.tzqlat_ready ≡ true)
    → (c1 : Chip) × (step init_delays i (normal_at tap0 tap1 c) ≡ normal_at i.pins tap0 c1)
      × (step init_delays (quiet i.pins) (normal_at tap0 tap1 c) ≡ normal_at i.pins tap0 c1)
unfolding step handled cmds_enabled fsm_command fsm_messages fsm_idle
step-Latched init_delays i tap0 tap1 c u l = elim (Bool-cases (tap1.cs && not tap0.cs)) [
  | inl e ↦ rw (e, u.0, u.1, over init_delays i.tzqlat_ready l) (_, refl, refl)
  | inr e ↦ rw (e, u.1) (_, refl, refl)
]

play-cycles :
    (init_delays : Bool) (h : List Inputs) (tap0 tap1 : Pins) (c : Chip)
    → AllUndisturbed h
    → Latched init_delays h
    → play init_delays h (normal_at tap0 tap1 c)
      ≡ cycles init_delays (pins_of h) (normal_at tap0 tap1 c)
unfolding play cycles
play-cycles init_delays [] tap0 tap1 c u l = refl
play-cycles init_delays (i ∷ h) tap0 tap1 c u l =
    let (c1, e, q) = step-Latched init_delays i tap0 tap1 c u.0 l.0 in
    ap (play init_delays h) e
    ∙ play-cycles init_delays h i.pins tap0 c1 u.1 l.1
    ∙ ap (cycles init_delays (pins_of h)) (sym q)

-- Over any cycles in which no reset begins and the data FIFO is ready, with `init_delays` also the
-- timer tZQLAT, and the other timers are ready or not, and whose pads are the adapter's for any phases
-- of the DFI in a row, with one more cycle with CS low at the end: a chip that starts in normal
-- operation with no command half done gets the mode registers, the open banks and the rows that the
-- commands of the phases say, logs the messages that they give, and sends their bursts to the data
-- simulator, each with the bank, the row and the column of its command.
pub lpddr4_cycles-effects :
    (init_delays m : Bool) (ca1 ca0 : List Bool) (ps : List Phase) (h : List Inputs) (r : Registers)
    (v : View)
    → AllUndisturbed h
    → Latched init_delays h
    → pins_of h ≡ frames m ps ++ (low [] ∷ [])
    → view (play init_delays h (operating false ca1 ca0 (at_rest r v))).chip ≡ effects m ps v
unfolding cycles drained
lpddr4_cycles-effects init_delays m ca1 ca0 ps h r v u l pads =
    let start = operating false ca1 ca0 (at_rest r v) in
    ap (λ (s : Sim). view s.chip)
      (play-cycles init_delays h start.tap0 start.tap1 start.chip u l
        ∙ ap (λ xs. cycles init_delays xs start) pads
        ∙ cycles-append init_delays (frames m ps) (low [] ∷ []) start)
    ∙ cycles-frames init_delays m false ca1 ca0 ps (at_rest r v) r v
        (drained-operating init_delays false ca1 ca0 (at_rest r v))

-- Without `init_delays` the timers are read nowhere.
unread : (b : Bool) → (b && false) ≡ false
unread true = refl
unread false = refl

always : (b : Bool) → (b || true) ≡ true
always true = refl
always false = refl

fsm_messages-unread :
    (i : Inputs) (e : Edges) (c : Chip) (f : InitState) (log : List Message)
    → fsm_messages false i e c f log ≡ fsm_messages false (quiet i.pins) e c f log
unfolding fsm_messages
fsm_messages-unread i e c InitState.reset log = refl
fsm_messages-unread i e c InitState.exit_pd log = refl
fsm_messages-unread i e c InitState.mrw log = refl
fsm_messages-unread i e c InitState.zqc log = rw (unread (not i.tzqcal_ready)) refl
fsm_messages-unread i e c InitState.normal log = rw (unread (not i.tzqlat_ready)) refl

fsm_idle-unread :
    (i : Inputs) (f : InitState) → fsm_idle false i f ≡ fsm_idle false (quiet i.pins) f
unfolding fsm_idle
fsm_idle-unread i InitState.reset = rw (always i.tinit3_ready_p) refl
fsm_idle-unread i InitState.exit_pd = rw (always i.tinit5_ready_p) refl
fsm_idle-unread i InitState.mrw = refl
fsm_idle-unread i InitState.zqc = refl
fsm_idle-unread i InitState.normal = refl

step-unread : (i : Inputs) (s : Sim) → Undisturbed i → step false i s ≡ step false (quiet i.pins) s
unfolding step handled
step-unread i s u = elim (Bool-cases (cmds_enabled s.fsm && (s.tap1.cs && not s.tap0.cs))) [
  | inl e ↦
      let es : Edges = record { cs_high = s.tap1.ca; cs_low = s.tap0.ca; sink_ready = true } in
      rw (step, handled, e, u.0, u.1, fsm_messages-unread i es s.chip s.fsm (handle es s.chip).log)
        refl
  | inr e ↦ rw (step, handled, e, u.1, fsm_idle-unread i s.fsm) refl
]

pub play-unread :
    (h : List Inputs) (s : Sim) → AllUndisturbed h → play false h s ≡ cycles false (pins_of h) s
unfolding play cycles
play-unread [] s u = refl
play-unread (i ∷ h) s u =
    ap (play false h) (step-unread i s u.0) ∙ play-unread h (step false (quiet i.pins) s) u.1
