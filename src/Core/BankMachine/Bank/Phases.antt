-- ===== src/Core/BankMachine/Bank/Phases.antt =====
-- What each state of the control FSM knows of the bank, and that a clock cycle keeps it.
use native.Mathlib.Nat.{mod-eq_of_lt, pow-le-pow_right}
use litedram.Base.{
  ℕ, zero, suc, ◌+◌, ◌%◌, ◌^◌, ◌≤◌, ◌<◌, ◌≡◌, refl, sym, ap, ◌∙◌, ◌⊎◌, inl, arith, Bool, true,
  false, ◌&&◌, Option, none, some, if◌then◌else◌,
}
use litedram.Common.Txxd.Elapsed.{AtLeast}
use litedram.Core.BankMachine.Slicer.{Geometry, addressbits, row_of}
use litedram.Core.BankMachine.{
  Settings, Inputs, State, BankMachine, enter_trp, enter_trcd, regular_act, precharge_time,
  auto_precharge, row_hit, act, cmd_a, step,
}
use litedram.Core.BankMachine.Bank.{Row, Bank, Event, decode, event, settle, bank_step, Legal}
use litedram.Core.BankMachine.Bank.Settle.{
  AtLeastIn, AtLeastIn-zero, AtLeast-step, AtLeastIn-le, AtLeastIn-step, settle_of_closed,
  settle_of_closing, settle_of_elapsed, still_opened, settled_opened, settled_closed,
  settled_waiting,
}

abbrev pub Phase : Settings → State → ℕ → Bool → Bank → Type 0
Phase g State.regular row opened b =
    (opened ≡ true → (b.row ≡ Row.opened row) × AtLeast (some g.trcd) b.since_act)
    × (opened ≡ false → (b.row ≡ Row.closed) × AtLeast (some g.trp) b.since_pre)
Phase g State.precharge row opened b = (r : ℕ) × (b.row ≡ Row.opened r)
Phase g State.autoprecharge row opened b =
    (b.row ≡ Row.closing) ⊎ ((b.row ≡ Row.closed) × AtLeast (some 1) b.since_pre)
Phase g State.activate row opened b = (b.row ≡ Row.closed) × AtLeast (some g.trp) b.since_pre
Phase g State.refresh row opened b = Unit
Phase g (State.trp n) row opened b = (b.row ≡ Row.closed) × AtLeastIn (n + 1) g.trp b.since_pre
Phase g (State.trcd n) row opened b =
    (opened ≡ true) × (b.row ≡ Row.opened row) × AtLeastIn (n + 1) g.trcd b.since_act

-- A row within the geometry goes through the address bus and the row register unchanged.
row_fits :
    (geom : Geometry) (address : ℕ)
    → row_of geom address < 2 ^ geom.rowbits
    → row_of geom address % 2 ^ addressbits geom % 2 ^ geom.rowbits ≡ row_of geom address
row_fits geom address fits =
    rw (mod-eq_of_lt {n = row_of geom address} {m = 2 ^ addressbits geom} (omega (arith, wide)))
      (mod-eq_of_lt fits)
  where
    wide : 2 ^ geom.rowbits ≤ 2 ^ addressbits geom
    wide = pow-le-pow_right (omega arith) (omega arith)

settled_regular :
    (g : Settings) (b : Bank) (row : ℕ) (opened : Bool)
    → Phase g State.regular row opened b
    → Phase g State.regular row opened (settle g b)
settled_regular g b row opened h =
    ((λ e. settled_opened g b row g.trcd (h.0 e)), λ e. settled_closed g b g.trp (h.1 e))

-- The waiting states are entered with the right number of cycles to go.
enter_trp-Phase :
    (g : Settings) (row : ℕ) (opened : Bool) (b : Bank) (n : ℕ)
    → g.trp ≤ suc n
    → b.row ≡ Row.closed
    → AtLeast (some 1) b.since_pre
    → Phase g (enter_trp n) row opened b
enter_trp-Phase g row opened b n fits c h = go n b.since_pre fits h
  where
    go :
        (n : ℕ) (age : Option ℕ)
        → g.trp ≤ suc n
        → AtLeast (some 1) age
        → Phase g (enter_trp n) row opened (record b { since_pre = age })
    go zero none fits h = (c, tt)
    go zero (some a) fits h = (c, omega arith)
    go (suc n) none fits h = (c, tt)
    go (suc n) (some a) fits h = (c, omega arith)

enter_trcd-Phase :
    (g : Settings) (row : ℕ) (b : Bank) (n : ℕ)
    → g.trcd ≤ suc n
    → b.row ≡ Row.opened row
    → b.since_act ≡ some 1
    → Phase g (enter_trcd n) row true b
enter_trcd-Phase g row b zero fits c h = ((λ e. (c, rw h (omega arith))), λ e. cc)
enter_trcd-Phase g row b (suc n) fits c h = (refl, c, rw h (omega arith))

module _ (g : Settings) (i : Inputs) (row : ℕ) (wc ac rc : ℕ) (b : Bank) where
  -- The inputs and the machine, by the Boolean fields on which the code branches.
  abbrev pub given : (ready : Bool) → Inputs
  given ready = record i { cmd_ready = ready }

  abbrev pub at : (opened wtp act ras : Bool) → State → BankMachine
  at opened wtp act ras fsm = record {
    fsm = fsm;
    row = row;
    row_opened = opened;
    twtpcon = record { count = wc; ready = wtp };
    trccon = record { count = ac; ready = act };
    trascon = record { count = rc; ready = ras };
  }

  abbrev pub Keeps : Inputs → BankMachine → Type 0
  Keeps j s =
      Legal g (row_of g.geom j.buffer_addr) b (event g j s)
      × Phase g (step g j s).fsm (step g j s).row (step g j s).row_opened
          (bank_step g (event g j s) b)

  pub trp-Keeps :
      (opened ready wtp act ras : Bool) (n : ℕ)
      → Phase g (State.trp n) row opened b
      → Keeps (given ready) (at opened wtp act ras (State.trp n))
  unfolding event step bank_step
  trp-Keeps opened ready wtp act ras zero h =
      (tt, grind (arith, settle_of_closed, AtLeastIn-zero, AtLeastIn-step))
  trp-Keeps opened ready wtp act ras (suc n) h =
      (tt, grind (arith, settle_of_closed, AtLeastIn-zero, AtLeastIn-step))

  pub precharge-Keeps :
      (opened ready wtp act ras : Bool)
      → (wtp ≡ true → AtLeast (some (precharge_time g)) b.since_write)
      → (ras ≡ true → AtLeast g.tras b.since_act)
      → Phase g State.precharge row opened b
      → Keeps (given ready) (at opened wtp act ras State.precharge)
  unfolding event step bank_step
  precharge-Keeps opened true true act true hw hr h =
      ((h, hr refl, hw refl), enter_trp-Phase g row false _ _ (omega arith) refl (omega arith))
  precharge-Keeps opened false true act true hw hr h = (tt, still_opened g b h)
  precharge-Keeps opened ready false act ras hw hr h = (tt, still_opened g b h)
  precharge-Keeps opened ready true act false hw hr h = (tt, still_opened g b h)

  pub autoprecharge-Keeps :
      (opened ready wtp act ras : Bool)
      → (wtp ≡ true → AtLeast (some (precharge_time g)) b.since_write)
      → (ras ≡ true → AtLeast g.tras b.since_act)
      → Phase g State.autoprecharge row opened b
      → Keeps (given ready) (at opened wtp act ras State.autoprecharge)
  unfolding event step bank_step
  autoprecharge-Keeps opened ready true act true hw hr h =
      let closes = settle_of_elapsed g b (hw refl) (hr refl) h in
      (tt, enter_trp-Phase g row false _ _ (omega arith) closes.0 closes.1)
  autoprecharge-Keeps opened ready false act ras hw hr h = (tt, settle_of_closing g b h)
  autoprecharge-Keeps opened ready true act false hw hr h = (tt, settle_of_closing g b h)

  pub activate-Keeps :
      (opened ready wtp act ras : Bool)
      → (act ≡ true → AtLeast g.trc b.since_act)
      → row_of g.geom i.buffer_addr < 2 ^ g.geom.rowbits
      → Phase g State.activate row opened b
      → Keeps (given ready) (at opened wtp act ras State.activate)
  unfolding event step bank_step cmd_a
  activate-Keeps opened true wtp true ras hc fits h = (
    (row_fits g.geom i.buffer_addr fits, h.0, h.1, hc refl),
    enter_trcd-Phase g _ _ _ (omega arith)
        (ap Row.opened (row_fits g.geom i.buffer_addr fits ∙ sym (mod-eq_of_lt fits))) refl,
  )
  activate-Keeps opened false wtp true ras hc fits h =
      (tt, grind (arith, settle_of_closed, AtLeast-step))
  activate-Keeps opened ready wtp false ras hc fits h =
      (tt, grind (arith, settle_of_closed, AtLeast-step))

  -- The "REGULAR" state, for any outcome of the row and the auto-precharge tests.
  RegularKeeps : Bool → Inputs → Bool → Bool → Bool → ℕ → Type 0
  RegularKeeps ready j opened hit auto x =
      let o = regular_act j opened hit auto in
      let e = if o.valid && ready then decode o.ras o.cas o.we auto x else Event.nop in
      Legal g (row_of g.geom i.buffer_addr) b e
      × Phase g o.next
          (if o.row_open then row_of g.geom i.buffer_addr % 2 ^ g.geom.rowbits else row)
          (if o.row_open then true else opened) (bank_step g e b)

  abbrev asked : (refresh valid we ready : Bool) → Inputs
  asked refresh valid we ready = record i {
    refresh_req = refresh;
    buffer_valid = valid;
    buffer_we = we;
    cmd_ready = ready;
  }

  regular_cases :
      (refresh valid we ready opened hit auto : Bool) (x : ℕ)
      → (hit ≡ true → row ≡ row_of g.geom i.buffer_addr)
      → Phase g State.regular row opened b
      → RegularKeeps ready (asked refresh valid we ready) opened hit auto x
  unfolding RegularKeeps bank_step regular_act decode
  regular_cases true valid we ready opened hit auto x same h = (tt, tt)
  regular_cases false false we ready opened hit auto x same h =
      (tt, settled_regular g b row opened h)
  regular_cases false true we ready false hit auto x same h =
      (tt, settled_closed g b g.trp (h.1 refl))
  regular_cases false true we ready true false auto x same h =
      (tt, still_opened g b (row, (h.0 refl).0))
  regular_cases false true we false true true auto x same h = (tt, settled_regular g b row true h)
  regular_cases false true we true true true true x same h =
      (((h.0 refl).0 ∙ ap Row.opened (same refl), (h.0 refl).1), inl refl)
  regular_cases false true we true true true false x same h = (
    ((h.0 refl).0 ∙ ap Row.opened (same refl), (h.0 refl).1),
    ((λ e. ((h.0 refl).0, (settled_opened g b row g.trcd (h.0 refl)).1)), λ e. cc),
  )

  pub regular-Keeps :
      (opened wtp act ras : Bool)
      → Phase g State.regular row opened b
      → Keeps i (at opened wtp act ras State.regular)
  unfolding event step bank_step
  regular-Keeps opened wtp act ras h =
      unfold RegularKeeps in
      regular_cases i.refresh_req i.buffer_valid i.buffer_we i.cmd_ready opened (row_hit g i row)
        (auto_precharge g i State.regular)
        (cmd_a g i (at opened wtp act ras State.regular) % 2 ^ g.geom.rowbits) (λ e. ground arith) h

  pub trcd-Keeps :
      (opened ready wtp act ras : Bool) (n : ℕ)
      → Phase g (State.trcd n) row opened b
      → Keeps (given ready) (at opened wtp act ras (State.trcd n))
  unfolding event step bank_step
  trcd-Keeps opened ready wtp act ras zero h =
      let s = settled_waiting g b row 0 g.trcd (h.1, h.2) in
      (tt, ((λ e. (s.0, AtLeastIn-zero g.trcd _ s.1)), λ e. cc (h.0)))
  trcd-Keeps opened ready wtp act ras (suc n) h =
      let s = settled_waiting g b row (suc n) g.trcd (h.1, h.2) in
      (tt, (h.0, s.0, AtLeastIn-le (suc n) (n + 1) g.trcd _ (omega arith) s.1))

  pub refresh-Keeps :
      (opened wtp act ras : Bool) (req : Bool)
      → Keeps (record i { refresh_req = req }) (at opened wtp act ras State.refresh)
  unfolding event step bank_step
  refresh-Keeps opened wtp act ras true = (tt, tt)
  refresh-Keeps opened wtp act ras false = (tt, ((λ e. cc), λ e. (refl, tt)))
