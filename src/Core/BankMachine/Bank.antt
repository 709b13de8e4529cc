-- ===== src/Core/BankMachine/Bank.antt =====
-- The DRAM bank that the commands of a bank machine drive: which row is open, and how long ago it
-- was activated, precharged and written.
pub mod Settle
pub mod Phases
pub mod Protocol
use litedram.Base.{
  ℕ, zero, suc, ◌+◌, ◌%◌, ◌^◌, ◌≤◌, ◌≡◌, Bool, true, false, not, ◌&&◌, Option, none, some, List, [],
  ◌∷◌, leb, if◌then◌else◌,
}
use litedram.Common.Txxd.Elapsed.{AtLeast, age_step}
use litedram.Core.BankMachine.Slicer.{row_of}
use litedram.Core.BankMachine.{
  Settings, Inputs, State, BankMachine, Act, precharge_time, outputs, auto_precharge, cmd_a, run,
}

-- `closing` is an open row with an auto-precharge to come.
pub data Row : Type 0 where
  closed closing : Row
  opened : ℕ → Row

pub record Bank : Type 0 where
  pub row : Row
  pub since_act : Option ℕ
  pub since_pre : Option ℕ
  pub since_write : Option ℕ

abbrev pub power_up : Bank
power_up = record { row = Row.closed; since_act = none; since_pre = none; since_write = none }

-- What the bank sees in a cycle: `column` is a read or a write, with or without auto-precharge;
-- `refreshed` is the end of a refresh.
pub data Event : Type 0 where
  nop precharge refreshed : Event
  activate : ℕ → Event
  column : (write auto : Bool) → Event

-- A DRAM decodes `ras`, `cas` and `we` of an accepted command.
pub decode : (ras cas we auto : Bool) → ℕ → Event
decode true false false auto row = Event.activate row
decode true false true auto row = Event.precharge
decode false true we auto row = Event.column we auto
decode _ _ _ _ _ = Event.nop

-- A refresh ends when the refresher withdraws its request: its Precharge All has closed the bank.
pub leaves_refresh : State → Bool → Bool
leaves_refresh State.refresh req = not req
leaves_refresh _ req = false

unfoldable pub event : Settings → Inputs → BankMachine → Event
unfolding decode leaves_refresh
event g i s =
    let o = outputs g i s in
    if leaves_refresh s.fsm i.refresh_req
    then Event.refreshed
    else if o.valid && i.cmd_ready
    then decode o.ras o.cas o.we (auto_precharge g i s.fsm) (cmd_a g i s % 2 ^ g.geom.rowbits)
    else Event.nop

abbrev pub elapsed : Option ℕ → Option ℕ → Bool
elapsed none age = true
elapsed (some t) none = true
elapsed (some t) (some a) = leb t a

-- An auto-precharge starts by itself as soon as tWTP and tRAS have gone by.
pub settle : Settings → Bank → Bank
settle g b = elim b.row [
  | Row.closing ↦
      if elapsed (some (precharge_time g)) b.since_write && elapsed g.tras b.since_act
      then record {
        row = Row.closed;
        since_act = age_step false b.since_act;
        since_pre = some 1;
        since_write = age_step false b.since_write;
      }
      else record {
        row = Row.closing;
        since_act = age_step false b.since_act;
        since_pre = age_step false b.since_pre;
        since_write = age_step false b.since_write;
      }
  | _ ↦ record {
    row = b.row;
    since_act = age_step false b.since_act;
    since_pre = age_step false b.since_pre;
    since_write = age_step false b.since_write;
  }
]

pub bank_step : Settings → Event → Bank → Bank
unfolding settle
bank_step g Event.nop b = settle g b
bank_step g Event.precharge b = record (settle g b) { row = Row.closed; since_pre = some 1 }
bank_step g Event.refreshed b = record (settle g b) { row = Row.closed; since_pre = none }
bank_step g (Event.activate r) b = record (settle g b) { row = Row.opened r; since_act = some 1 }
bank_step g (Event.column write auto) b = record (settle g b) {
  row = if auto then Row.closing else b.row;
  since_write = age_step write b.since_write;
}

unfoldable pub bank : Settings → List Inputs → Bank
unfolding bank_step event
bank g [] = power_up
bank g (i ∷ h) = bank_step g (event g i (run g h)) (bank g h)

-- When an event is legal: the rules of the row and the times tRCD, tRP, tRC, tRAS and tWTP. `row`
-- is the row that the request is for.
abbrev pub Legal : Settings → ℕ → Bank → Event → Type 0
Legal g row b Event.nop = Unit
Legal g row b Event.refreshed = Unit
Legal g row b Event.precharge =
    ((r : ℕ) × (b.row ≡ Row.opened r))
    × AtLeast g.tras b.since_act
    × AtLeast (some (precharge_time g)) b.since_write
Legal g row b (Event.activate r) =
    (r ≡ row) × (b.row ≡ Row.closed) × AtLeast (some g.trp) b.since_pre × AtLeast g.trc b.since_act
Legal g row b (Event.column write auto) =
    (b.row ≡ Row.opened row) × AtLeast (some g.trcd) b.since_act
