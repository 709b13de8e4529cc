-- ===== src/Phy/PulseTiming.antt =====
-- `PulseTiming` of litedram/phy/sim_utils.py, with its `Timing`: a countdown from a rising edge.
use litedram.Base.{
  ℕ, ◌-◌, ◌≤◌, ◌<◌, ◌≡◌, refl, arith, Bool, true, false, not, ◌&&◌, ◌||◌, Option, none, some, List,
  [], ◌∷◌, ◌⊎◌, ◌==◌, ltb, leb, if◌then◌else◌, after, suc,
}

-- `ready_d`, `trigger_d` and `trigger_dd` are the registers of `edge`.
pub record PulseTiming : Type 0 where
  pub triggered : Bool
  pub trigger_d : Bool
  pub trigger_dd : Bool
  pub ready_d : Bool
  pub count : ℕ
  pub ready_reg : Bool

abbrev pub reset : PulseTiming
reset = record {
  triggered = false;
  trigger_d = false;
  trigger_dd = false;
  ready_d = false;
  count = 0;
  ready_reg = false;
}

abbrev pub rising : Bool → PulseTiming → Bool
rising trigger s = trigger && not s.trigger_d

unfoldable pub ready : (t : ℕ) (trigger : Bool) → PulseTiming → Bool
ready t trigger s =
    (s.triggered && (s.ready_reg || ((t == 0) && rising trigger s))) || ((t == 0) && trigger)

unfoldable pub ready_p : (t : ℕ) (trigger : Bool) → PulseTiming → Bool
unfolding ready
ready_p t trigger s =
    (ready t trigger s && not s.ready_d)
    || (((t == 0) && rising trigger s) || ((t == 1) && (s.trigger_d && not s.trigger_dd)))

unfoldable pub next_count : (t : ℕ) (trigger : Bool) → PulseTiming → ℕ
next_count t trigger s =
    if rising trigger s
    then (if t == 0 then s.count else t - 1)
    else if ltb 1 s.count
    then s.count - 1
    else s.count

unfoldable pub next_ready : (t : ℕ) (trigger : Bool) → PulseTiming → Bool
next_ready t trigger s =
    if rising trigger s then ltb t 2 else if s.count == 1 then true else s.ready_reg

unfoldable pub step : (t : ℕ) (trigger : Bool) → PulseTiming → PulseTiming
unfolding ready next_count next_ready
step t trigger s = record {
  triggered = trigger || s.triggered;
  trigger_d = trigger;
  trigger_dd = s.trigger_d;
  ready_d = ready t trigger s;
  count = next_count t trigger s;
  ready_reg = next_ready t trigger s;
}

unfoldable pub run : (t : ℕ) → List Bool → PulseTiming
unfolding step
run t h = after (step t) reset h

-- The cycles since the last rising edge of a history, the most recent cycle first.
abbrev pub last : List Bool → Bool
last [] = false
last (b ∷ h) = b

abbrev pub suc_since : Option ℕ → Option ℕ
suc_since none = none
suc_since (some n) = some (suc n)

unfoldable pub since : List Bool → Option ℕ
since [] = none
since (b ∷ h) = if b && not (last h) then some 1 else suc_since (since h)

unfoldable pub Counted : ℕ → Option ℕ → PulseTiming → Type 0
Counted t none s = (s.triggered ≡ false) × (s.trigger_d ≡ false) × (s.count ≡ 0)
Counted t (some n) s =
    (s.triggered ≡ true)
    × (((n < t) × (s.count ≡ t - n) × (s.ready_reg ≡ false)) ⊎ ((t ≤ n) × (s.ready_reg ≡ true)))

run-last : (t : ℕ) (h : List Bool) → (run t h).trigger_d ≡ last h
unfolding run step
run-last t [] = refl
run-last t (b ∷ h) = refl

Counted-step :
    (t : ℕ) (b d : Bool) (s : PulseTiming) (o : Option ℕ)
    → 1 ≤ t
    → s.trigger_d ≡ d
    → Counted t o s
    → Counted t (if b && not d then some 1 else suc_since o) (step t b s)
unfolding step Counted next_count next_ready
Counted-step t true true s none l e c = ground arith
Counted-step t true false s none l e c = ground arith
Counted-step t false d s none l e c = ground arith
Counted-step t true true s (some n) l e c = ground arith
Counted-step t true false s (some n) l e c = ground arith
Counted-step t false d s (some n) l e c = ground arith

Counted-ready :
    (t : ℕ) (trigger : Bool) (o : Option ℕ) (s : PulseTiming)
    → 1 ≤ t
    → Counted t o s
    → ready t trigger s ≡ elim o [ none ↦ false | some n ↦ leb t n ]
unfolding ready Counted
Counted-ready t trigger none s l c = ground arith
Counted-ready t trigger (some n) s l c = ground arith

run-Counted : (t : ℕ) (h : List Bool) → 1 ≤ t → Counted t (since h) (run t h)
unfolding run since Counted
run-Counted t [] l = (refl, refl, refl)
run-Counted t (b ∷ h) l =
    Counted-step t b (last h) (run t h) (since h) l (run-last t h) (run-Counted t h l)

-- For a time of at least one cycle, `ready` is high exactly when a rising edge of `trigger` is in the
-- history and the last one is at least that many cycles ago.
pub ready-since :
    (t : ℕ) (trigger : Bool) (h : List Bool)
    → 1 ≤ t
    → ready t trigger (run t h) ≡ elim (since h) [ none ↦ false | some n ↦ leb t n ]
unfolding ready
ready-since t trigger h l = Counted-ready t trigger (since h) (run t h) l (run-Counted t h l)
