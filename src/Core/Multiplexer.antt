-- ===== src/Core/Multiplexer.antt =====
-- `Multiplexer` of litedram/core/multiplexer.py: grants the bank machines' commands, the reads, the
-- writes and the refreshes, within tRRD, tFAW, tCCD and tWTR. What the arbiters grant, and what the
-- bank machines and the refresher present, are inputs. Phases of reads and writes are constants.
pub mod Chooser
pub mod Spacing
pub mod Fairness
pub mod Steerer
use litedram.Base.{
  ℕ, zero, suc, ◌+◌, ◌-◌, ◌%◌, ◌^◌, Bool, true, false, not, ◌&&◌, ◌||◌, Option, none, some, List,
  [], ◌∷◌, ◌==◌, if◌then◌else◌, after,
}
use litedram.Common.Txxd
use litedram.Common.Txxd.{Txxd}
use litedram.Common.Faw
use litedram.Common.Faw.{Faw}
use litedram.Core.BankMachine.{ceil_div}
use Chooser.{Request, Wants, activate, choose}

-- Each `…_width` is the width of a timing controller's counter.
pub record Settings : Type 0 where
  pub nphases : ℕ
  pub rdphase : ℕ
  pub wrphase : ℕ
  pub cwl : ℕ
  pub read_latency : ℕ
  pub trrd : Option ℕ
  pub tfaw : Option ℕ
  pub tccd : Option ℕ
  pub twtr : ℕ
  pub read_time : ℕ
  pub write_time : ℕ
  pub trrd_width : ℕ
  pub tfaw_width : ℕ
  pub tccd_width : ℕ
  pub twtr_width : ℕ

-- The conditional expression spans the whole sum.
abbrev pub write_to_read : Settings → Option ℕ
write_to_read g = elim g.tccd [
  | some tccd ↦ some (g.twtr + ceil_div g.cwl g.nphases + tccd)
  | none ↦ some 0
]

-- The inputs of one clock cycle. There is at least one bank.
pub record Inputs : Type 0 where
  pub request : Request
  pub requests : List Request
  pub cmd_grant : ℕ
  pub req_grant : ℕ
  pub refresh_gnts : List Bool
  pub refresh_last : Bool

-- `rtw n` is a state of `delayed_enter` with `n` more of them to follow.
pub data State : Type 0 where
  read write refresh wtr : State
  rtw : ℕ → State

pub record Multiplexer : Type 0 where
  pub fsm : State
  pub trrdcon : Txxd
  pub tfawcon : Faw
  pub tccdcon : Txxd
  pub twtrcon : Txxd
  pub read_time : ℕ
  pub write_time : ℕ

unfoldable pub reset : Settings → Multiplexer
reset g = record {
  fsm = State.read;
  trrdcon = Txxd.reset g.trrd;
  tfawcon = Faw.reset g.tfaw;
  tccdcon = Txxd.reset g.tccd;
  twtrcon = Txxd.reset (write_to_read g);
  read_time = 0;
  write_time = 0;
}

abbrev pub ras_allowed : Multiplexer → Bool
ras_allowed s = s.trrdcon.ready && s.tfawcon.ready

abbrev pub cas_allowed : Multiplexer → Bool
cas_allowed s = s.tccdcon.ready

-- The states that grant commands.
abbrev pub grants : State → Bool
grants State.read = true
grants State.write = true
grants _ = false

abbrev pub reading : State → Bool
reading State.read = true
reading _ = false

abbrev pub writing : State → Bool
writing State.write = true
writing _ = false

-- With one phase `choose_req` chooses all commands.
unfoldable pub req_wants : Settings → Multiplexer → Wants
req_wants g s = record {
  reads = reading s.fsm;
  writes = writing s.fsm;
  cmds = g.nphases == 1;
  activates = (g.nphases == 1) && ras_allowed s;
}

unfoldable pub cmd_wants : Multiplexer → Wants
cmd_wants s = record {
  reads = false;
  writes = false;
  cmds = false;
  activates = grants s.fsm && ras_allowed s;
}

unfoldable pub req_cmd : Settings → Inputs → Multiplexer → Request
unfolding choose req_wants
req_cmd g i s = choose (req_wants g s) i.request i.requests i.req_grant

unfoldable pub cmd_cmd : Settings → Inputs → Multiplexer → Request
unfolding choose req_cmd cmd_wants
cmd_cmd g i s =
    if g.nphases == 1 then req_cmd g i s else choose (cmd_wants s) i.request i.requests i.cmd_grant

-- `choose_req.cmd.ready` and `choose_cmd.cmd.ready`.
unfoldable pub req_ready : Settings → Inputs → Multiplexer → Bool
unfolding req_cmd
req_ready g i s =
    grants s.fsm
    && (if g.nphases == 1
        then cas_allowed s && (not (activate (req_cmd g i s)) || ras_allowed s)
        else cas_allowed s)

unfoldable pub cmd_ready : Settings → Inputs → Multiplexer → Bool
unfolding req_ready cmd_cmd
cmd_ready g i s =
    if g.nphases == 1
    then req_ready g i s
    else grants s.fsm && (not (activate (cmd_cmd g i s)) || ras_allowed s)

-- An accepted activate, column access, and write.
unfoldable pub accept_activate : Settings → Inputs → Multiplexer → Bool
unfolding cmd_ready cmd_cmd
accept_activate g i s = ((cmd_cmd g i s).valid && cmd_ready g i s) && activate (cmd_cmd g i s)

unfoldable pub accept_column : Settings → Inputs → Multiplexer → Bool
unfolding req_ready req_cmd
accept_column g i s =
    ((req_cmd g i s).valid && req_ready g i s)
    && ((req_cmd g i s).is_write || (req_cmd g i s).is_read)

unfoldable pub accept_write : Settings → Inputs → Multiplexer → Bool
unfolding req_ready req_cmd
accept_write g i s = ((req_cmd g i s).valid && req_ready g i s) && (req_cmd g i s).is_write

-- `read_available` and `write_available`.
unfoldable pub any_read : List Request → Bool
any_read [] = false
any_read (r ∷ rs) = (r.valid && r.is_read) || any_read rs

unfoldable pub any_write : List Request → Bool
any_write [] = false
any_write (r ∷ rs) = (r.valid && r.is_write) || any_write rs

unfoldable pub every_grant : List Bool → Bool
every_grant [] = true
every_grant (b ∷ bs) = b && every_grant bs

-- `anti_starvation`; the count is lowered only where it is not 0.
abbrev pub max_time : ℕ → ℕ → Bool
max_time timeout time = if timeout == 0 then false else time == 0

unfoldable pub time_step : ℕ → Bool → ℕ → ℕ
time_step timeout en time =
    if timeout == 0
    then time
    else if en
    then (if time == 0 then time else time - 1)
    else timeout - 1

-- `delayed_enter("RTW", "WRITE", d)`.
abbrev pub enter_rtw : ℕ → State
enter_rtw zero = State.write
enter_rtw (suc n) = State.rtw n

-- The next state, from the availabilities, the two time-outs, `go_to_refresh`, `refresher.cmd.last`
-- and `twtrcon.ready`.
unfoldable pub next :
    Settings → (reads writes max_read max_write go_to_refresh last twtr : Bool) → State → State
next g reads writes max_read max_write go_to_refresh last twtr State.read =
    if go_to_refresh
    then State.refresh
    else if writes && (not reads || max_read)
    then enter_rtw (g.read_latency - 1)
    else State.read
next g reads writes max_read max_write go_to_refresh last twtr State.write =
    if go_to_refresh
    then State.refresh
    else if reads && (not writes || max_write)
    then State.wtr
    else State.write
next g reads writes max_read max_write go_to_refresh last twtr State.refresh =
    if last then State.read else State.refresh
next g reads writes max_read max_write go_to_refresh last twtr State.wtr =
    if twtr then State.read else State.wtr
next g reads writes max_read max_write go_to_refresh last twtr (State.rtw n) = enter_rtw n

-- What a phase of the DFI is connected to.
pub data Steer : Type 0 where
  nop cmd req refresh : Steer

-- `steerer.sel[i]`; where phases coincide the command wins.
unfoldable pub sel : Settings → State → ℕ → Steer
sel g State.read i =
    if i == (g.rdphase + g.nphases - 1) % g.nphases
    then Steer.cmd
    else if i == g.rdphase
    then Steer.req
    else Steer.nop
sel g State.write i =
    if i == (g.wrphase + g.nphases - 1) % g.nphases
    then Steer.cmd
    else if i == g.wrphase
    then Steer.req
    else Steer.nop
sel g State.refresh i = if i == 0 then Steer.refresh else Steer.nop
sel g _ i = Steer.nop

unfoldable pub step : Settings → Inputs → Multiplexer → Multiplexer
unfolding next accept_activate accept_column accept_write any_read any_write every_grant time_step
step g i s = record {
  fsm =
      next g (any_read (i.request ∷ i.requests)) (any_write (i.request ∷ i.requests))
        (max_time g.read_time s.read_time) (max_time g.write_time s.write_time)
        (every_grant i.refresh_gnts) i.refresh_last s.twtrcon.ready s.fsm;
  trrdcon = Txxd.step g.trrd g.trrd_width (accept_activate g i s) s.trrdcon;
  tfawcon = Faw.step g.tfaw g.tfaw_width (accept_activate g i s) s.tfawcon;
  tccdcon = Txxd.step g.tccd g.tccd_width (accept_column g i s) s.tccdcon;
  twtrcon = Txxd.step (write_to_read g) g.twtr_width (accept_write g i s) s.twtrcon;
  read_time = time_step g.read_time (reading s.fsm) s.read_time;
  write_time = time_step g.write_time (writing s.fsm) s.write_time;
}

unfoldable pub run : Settings → List Inputs → Multiplexer
unfolding step reset
run g h = after (step g) (reset g) h
