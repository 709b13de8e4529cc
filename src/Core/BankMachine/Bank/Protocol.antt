-- ===== src/Core/BankMachine/Bank/Protocol.antt =====
-- The commands of a bank machine are legal for its bank, whatever the requests, the refresher and
-- the multiplexer do.
use litedram.Base.{
  ℕ, ◌<◌, ◌^◌, ◌≡◌, refl, arith, Bool, true, false, ◌&&◌, some, List, [], ◌∷◌, if◌then◌else◌,
}
use litedram.Common.Txxd.Elapsed.{
  AtLeast, age_step, Fits, Covers, reset-Covers, ready-AtLeast, step-Covers,
}
use litedram.Core.BankMachine.Slicer.{row_of}
use litedram.Core.BankMachine.{
  Settings, Inputs, State, BankMachine, Act, idle, regular_act, act, precharge_time, outputs, step,
  run,
}
use litedram.Core.BankMachine.Bank.{
  Bank, Event, decode, leaves_refresh, event, settle, bank_step, bank, Legal,
}
use litedram.Core.BankMachine.Bank.Phases.{
  Phase, regular-Keeps, trp-Keeps, trcd-Keeps, precharge-Keeps, autoprecharge-Keeps, activate-Keeps,
  refresh-Keeps,
}

-- The timing controllers count from the bank's events.
record Timers (g : Settings) (s : BankMachine) (b : Bank) : Type 0 where
  wtp : Covers (some (precharge_time g)) g.twtp_width s.twtpcon b.since_write
  rc : Covers g.trc g.trc_width s.trccon b.since_act
  ras : Covers g.tras g.tras_width s.trascon b.since_act

-- The widths of the three counters hold their timings.
pub record Widths (g : Settings) : Type 0 where
  pub wtp : Fits (some (precharge_time g)) g.twtp_width
  pub rc : Fits g.trc g.trc_width
  pub ras : Fits g.tras g.tras_width

abbrev writes : Event → Bool
writes (Event.column write auto) = write
writes _ = false

abbrev activates : Event → Bool
activates (Event.activate r) = true
activates _ = false

settle-ages :
    (g : Settings) (b : Bank)
    → ((settle g b).since_act ≡ age_step false b.since_act)
      × ((settle g b).since_write ≡ age_step false b.since_write)
unfolding settle
settle-ages g b = ground arith

bank_step-ages :
    (g : Settings) (e : Event) (b : Bank)
    → ((bank_step g e b).since_act ≡ age_step (activates e) b.since_act)
      × ((bank_step g e b).since_write ≡ age_step (writes e) b.since_write)
unfolding bank_step
bank_step-ages g Event.nop b = settle-ages g b
bank_step-ages g Event.precharge b = settle-ages g b
bank_step-ages g Event.refreshed b = settle-ages g b
bank_step-ages g (Event.activate r) b = (refl, (settle-ages g b).1)
bank_step-ages g (Event.column write auto) b = ((settle-ages g b).0, refl)

abbrev Agrees : (leaving ready : Bool) → Act → Bool → ℕ → Type 0
Agrees leaving ready o auto x =
    let e =
      if leaving
      then Event.refreshed
      else if o.valid && ready
      then decode o.ras o.cas o.we auto x
      else Event.nop in
    (writes e ≡ ((o.valid && ready) && o.is_write))
    × (activates e ≡ ((o.valid && ready) && o.row_open))

idle-Agrees :
    (leaving ready : Bool) (s : State) (auto : Bool) (x : ℕ) → Agrees leaving ready (idle s) auto x
idle-Agrees true ready s auto x = (refl, refl)
idle-Agrees false ready s auto x = (refl, refl)

regular-Agrees :
    (i : Inputs) (opened hit auto auto' : Bool) (x : ℕ)
    → Agrees false i.cmd_ready (regular_act i opened hit auto) auto' x
unfolding regular_act decode
regular-Agrees i opened hit auto auto' x = ground arith

act-Agrees :
    (g : Settings) (i : Inputs) (s : BankMachine) (wtp rc ras auto : Bool) (x : ℕ) (fsm : State)
    → Agrees (leaves_refresh fsm i.refresh_req) i.cmd_ready (act g i s wtp rc ras fsm) auto x
unfolding act leaves_refresh decode
act-Agrees g i s wtp rc ras auto x State.regular = regular-Agrees i _ _ _ auto x
act-Agrees g i s wtp rc ras auto x State.precharge = ground arith
act-Agrees g i s wtp rc ras auto x State.autoprecharge = (refl, refl)
act-Agrees g i s wtp rc ras auto x State.activate = ground arith
act-Agrees g i s wtp rc ras auto x State.refresh = ground arith
act-Agrees g i s wtp rc ras auto x (State.trp n) = (refl, refl)
act-Agrees g i s wtp rc ras auto x (State.trcd n) = (refl, refl)

-- The controllers' `valid` inputs are the bank's write and activate events.
event_lem :
    (g : Settings) (i : Inputs) (s : BankMachine)
    → let o = outputs g i s in
      (writes (event g i s) ≡ ((o.valid && i.cmd_ready) && o.is_write))
      × (activates (event g i s) ≡ ((o.valid && i.cmd_ready) && o.row_open))
unfolding event outputs
event_lem g i s = act-Agrees g i s s.twtpcon.ready s.trccon.ready s.trascon.ready _ _ s.fsm

step-Timers :
    (g : Settings) (i : Inputs) (s : BankMachine) (b : Bank)
    → Widths g
    → Timers g s b
    → Timers g (step g i s) (bank_step g (event g i s) b)
unfolding step
step-Timers g i s b w t =
    let o = outputs g i s in
    let e = event_lem g i s in
    let a = bank_step-ages g (event g i s) b in
    record {
      wtp =
          rw (a.1, e.0)
            (step-Covers (some (precharge_time g)) g.twtp_width
              ((o.valid && i.cmd_ready) && o.is_write) s.twtpcon b.since_write w.wtp t.wtp);
      rc =
          rw (a.0, e.1)
            (step-Covers g.trc g.trc_width ((o.valid && i.cmd_ready) && o.row_open) s.trccon
              b.since_act w.rc t.rc);
      ras =
          rw (a.0, e.1)
            (step-Covers g.tras g.tras_width ((o.valid && i.cmd_ready) && o.row_open) s.trascon
              b.since_act w.ras t.ras);
    }

-- A clock cycle issues a legal command and keeps what is known of the bank.
module _ (g : Settings) (i : Inputs) (b : Bank)
    (fits : row_of g.geom i.buffer_addr < 2 ^ g.geom.rowbits) where
  step-Legal :
      (s : BankMachine)
      → Timers g s b
      → Phase g s.fsm s.row s.row_opened b
      → Legal g (row_of g.geom i.buffer_addr) b (event g i s)
        × Phase g
            (step g i s).fsm
            (step g i s).row
            (step g i s).row_opened
            (bank_step g (event g i s) b)
  step-Legal s t p = go s.fsm p
    where
      written : s.twtpcon.ready ≡ true → AtLeast (some (precharge_time g)) b.since_write
      written = ready-AtLeast (some (precharge_time g)) g.twtp_width s.twtpcon b.since_write t.wtp

      open_long : s.trascon.ready ≡ true → AtLeast g.tras b.since_act
      open_long = ready-AtLeast g.tras g.tras_width s.trascon b.since_act t.ras

      cycled : s.trccon.ready ≡ true → AtLeast g.trc b.since_act
      cycled = ready-AtLeast g.trc g.trc_width s.trccon b.since_act t.rc

      go :
          (fsm : State)
          → Phase g fsm s.row s.row_opened b
          → let s' = record s { fsm = fsm } in
            Legal g (row_of g.geom i.buffer_addr) b (event g i s')
            × Phase g
                (step g i s').fsm
                (step g i s').row
                (step g i s').row_opened
                (bank_step g (event g i s') b)
      go State.regular p =
          regular-Keeps g i s.row s.twtpcon.count s.trccon.count s.trascon.count b s.row_opened
            s.twtpcon.ready s.trccon.ready s.trascon.ready p
      go State.precharge p =
          precharge-Keeps g i s.row s.twtpcon.count s.trccon.count s.trascon.count b s.row_opened
            i.cmd_ready s.twtpcon.ready s.trccon.ready s.trascon.ready written open_long p
      go State.autoprecharge p =
          autoprecharge-Keeps g i s.row s.twtpcon.count s.trccon.count s.trascon.count b
            s.row_opened i.cmd_ready s.twtpcon.ready s.trccon.ready s.trascon.ready written
            open_long p
      go State.activate p =
          activate-Keeps g i s.row s.twtpcon.count s.trccon.count s.trascon.count b s.row_opened
            i.cmd_ready s.twtpcon.ready s.trccon.ready s.trascon.ready cycled fits p
      go State.refresh p =
          refresh-Keeps g i s.row s.twtpcon.count s.trccon.count s.trascon.count b s.row_opened
            s.twtpcon.ready s.trccon.ready s.trascon.ready i.refresh_req
      go (State.trp n) p =
          trp-Keeps g i s.row s.twtpcon.count s.trccon.count s.trascon.count b s.row_opened
            i.cmd_ready s.twtpcon.ready s.trccon.ready s.trascon.ready n p
      go (State.trcd n) p =
          trcd-Keeps g i s.row s.twtpcon.count s.trccon.count s.trascon.count b s.row_opened
            i.cmd_ready s.twtpcon.ready s.trccon.ready s.trascon.ready n p

-- Every request of a history is for a row of the geometry.
abbrev pub InRange : Settings → List Inputs → Type 0
InRange g [] = Unit
InRange g (i ∷ h) = (row_of g.geom i.buffer_addr < 2 ^ g.geom.rowbits) × InRange g h

record Tracks (g : Settings) (s : BankMachine) (b : Bank) : Type 0 where
  timers : Timers g s b
  phase : Phase g s.fsm s.row s.row_opened b

run-Tracks :
    (g : Settings) (h : List Inputs) → Widths g → InRange g h → Tracks g (run g h) (bank g h)
unfolding run bank
run-Tracks g [] w r = record {
  timers = record {
    wtp = reset-Covers (some (precharge_time g)) g.twtp_width;
    rc = reset-Covers g.trc g.trc_width;
    ras = reset-Covers g.tras g.tras_width;
  };
  phase = ((λ e. cc), λ e. (refl, tt));
}
run-Tracks g (i ∷ h) w r =
    let t = run-Tracks g h w r.1 in
    record {
      timers = step-Timers g i _ _ w t.timers;
      phase = (step-Legal g i (bank g h) r.0 (run g h) t.timers t.phase).1;
    }

-- When the timing controllers' counters hold their timings, then after any history of requests
-- for rows of the geometry, refreshes and multiplexer grants, what the machine issues is legal:
-- a row is activated only in a closed bank, tRP after its precharge and tRC after its last
-- activate, and is the row of the request; a precharge closes an open row, tRAS after the
-- activate and tWTP after the last write; a read or write finds the row of its request open,
-- tRCD after the activate. It is assumed that a refresh leaves the bank closed.
pub commands-Legal :
    (g : Settings) (i : Inputs) (h : List Inputs)
    → Widths g
    → InRange g (i ∷ h)
    → Legal g (row_of g.geom i.buffer_addr) (bank g h) (event g i (run g h))
commands-Legal g i h w r =
    let t = run-Tracks g h w r.1 in (step-Legal g i (bank g h) r.0 (run g h) t.timers t.phase).0
