-- ===== src/Core/BankMachine.antt =====
-- `BankMachine` of litedram/core/bankmachine.py: turns the requests for one bank into DRAM commands.
-- The look-ahead FIFO and the one-entry command buffer are components of another library: what they
-- present in a cycle is an input. Ages, timings and the bank that the commands drive are in `Bank`.
pub mod Slicer
pub mod Bank
use litedram.Base.{
  ℕ, zero, suc, ◌+◌, ◌-◌, ◌*◌, ◌/◌, ◌%◌, ◌^◌, Bool, true, false, not, ◌&&◌, ◌||◌, Option, none,
  some, List, ◌==◌, if◌then◌else◌, after, bit_or, max,
}
use litedram.Common.Txxd
use litedram.Common.Txxd.{Txxd}
use Slicer.{Geometry, addressbits, row_of, col_of}

-- The settings that the machine reads. Each `…_width` is the width of a timing controller's counter.
pub record Settings : Type 0 where
  pub geom : Geometry
  pub with_auto_precharge : Bool
  pub cwl : ℕ
  pub nphases : ℕ
  pub twr : ℕ
  pub tccd : ℕ
  pub trp : ℕ
  pub trcd : ℕ
  pub trc : Option ℕ
  pub tras : Option ℕ
  pub twtp_width : ℕ
  pub trc_width : ℕ
  pub tras_width : ℕ

-- `math.ceil(a / b)`.
abbrev pub ceil_div : ℕ → ℕ → ℕ
ceil_div a b = (a + b - 1) / b

-- The write-to-precharge time.
abbrev pub precharge_time : Settings → ℕ
precharge_time g = ceil_div g.cwl g.nphases + g.twr + g.tccd

-- The inputs of one clock cycle.
pub record Inputs : Type 0 where
  pub refresh_req : Bool
  pub cmd_ready : Bool
  pub buffer_valid : Bool
  pub buffer_we : Bool
  pub buffer_addr : ℕ
  pub ahead_valid : Bool
  pub ahead_addr : ℕ

-- `trp n` and `trcd n` are the states of `delayed_enter` with `n` more of them to follow.
pub data State : Type 0 where
  regular precharge autoprecharge activate refresh : State
  trp : ℕ → State
  trcd : ℕ → State

pub record BankMachine : Type 0 where
  pub fsm : State
  pub row : ℕ
  pub row_opened : Bool
  pub twtpcon : Txxd
  pub trccon : Txxd
  pub trascon : Txxd

unfoldable pub reset : Settings → BankMachine
reset g = record {
  fsm = State.regular;
  row = 0;
  row_opened = false;
  twtpcon = Txxd.reset (some (precharge_time g));
  trccon = Txxd.reset g.trc;
  trascon = Txxd.reset g.tras;
}

-- What a state of the control FSM drives: the command, the handshakes, the row tracker, and the
-- next state.
pub record Act : Type 0 where
  pub valid : Bool
  pub is_read : Bool
  pub is_write : Bool
  pub is_cmd : Bool
  pub cas : Bool
  pub ras : Bool
  pub we : Bool
  pub row_col_n_addr_sel : Bool
  pub row_open : Bool
  pub wdata_ready : Bool
  pub rdata_valid : Bool
  pub refresh_gnt : Bool
  pub next : State

-- Every signal that a state does not drive is low.
abbrev pub idle : State → Act
idle s = record {
  valid = false;
  is_read = false;
  is_write = false;
  is_cmd = false;
  cas = false;
  ras = false;
  we = false;
  row_col_n_addr_sel = false;
  row_open = false;
  wdata_ready = false;
  rdata_valid = false;
  refresh_gnt = false;
  next = s;
}

-- `delayed_enter("TRP", "ACTIVATE", d)` and `delayed_enter("TRCD", "REGULAR", d)`.
abbrev pub enter_trp : ℕ → State
enter_trp zero = State.activate
enter_trp (suc n) = State.trp n

abbrev pub enter_trcd : ℕ → State
enter_trcd zero = State.regular
enter_trcd (suc n) = State.trcd n

unfoldable pub row_close : State → Bool
row_close State.precharge = true
row_close State.autoprecharge = true
row_close State.refresh = true
row_close _ = false

unfoldable pub row_hit : Settings → Inputs → ℕ → Bool
row_hit g i row = row == row_of g.geom i.buffer_addr

-- Auto-precharge when the current and the next command are for different rows.
unfoldable pub auto_precharge : Settings → Inputs → State → Bool
unfolding row_close
auto_precharge g i s =
    g.with_auto_precharge
    && ((i.ahead_valid && i.buffer_valid)
        && (not (row_of g.geom i.ahead_addr == row_of g.geom i.buffer_addr) && not (row_close s)))

-- The "REGULAR" state, by `row_opened` and `row_hit`.
unfoldable pub regular_act : Inputs → Bool → Bool → Bool → Act
regular_act i opened hit auto =
    if i.refresh_req
    then idle State.refresh
    else if i.buffer_valid
    then (if opened
        then (if hit
            then record (idle
                (if i.cmd_ready && auto then State.autoprecharge else State.regular)) {
                  valid = true;
                  is_write = i.buffer_we;
                  we = i.buffer_we;
                  wdata_ready = i.buffer_we && i.cmd_ready;
                  is_read = not i.buffer_we;
                  rdata_valid = not i.buffer_we && i.cmd_ready;
                  cas = true;
                }
            else idle State.precharge)
        else idle State.activate)
    else idle State.regular

-- The control FSM. The Booleans are the `ready` outputs of the tWTP, tRC and tRAS controllers.
unfoldable pub act : Settings → Inputs → BankMachine → Bool → Bool → Bool → State → Act
unfolding regular_act auto_precharge row_hit
act g i s twtp trc tras State.regular =
    regular_act i s.row_opened (row_hit g i s.row) (auto_precharge g i State.regular)
act g i s twtp trc tras State.precharge =
    if twtp && tras
    then record (idle (if i.cmd_ready then enter_trp (g.trp - 1) else State.precharge)) {
      valid = true;
      ras = true;
      we = true;
      is_cmd = true;
    }
    else idle State.precharge
act g i s twtp trc tras State.autoprecharge =
    idle (if twtp && tras then enter_trp (g.trp - 1) else State.autoprecharge)
act g i s twtp trc tras State.activate =
    if trc
    then record (idle (if i.cmd_ready then enter_trcd (g.trcd - 1) else State.activate)) {
      row_col_n_addr_sel = true;
      row_open = true;
      valid = true;
      is_cmd = true;
      ras = true;
    }
    else idle State.activate
act g i s twtp trc tras State.refresh =
    record (idle (if i.refresh_req then State.refresh else State.regular)) {
      refresh_gnt = twtp;
      is_cmd = true;
    }
act g i s twtp trc tras (State.trp n) = idle (enter_trp n)
act g i s twtp trc tras (State.trcd n) = idle (enter_trcd n)

unfoldable pub outputs : Settings → Inputs → BankMachine → Act
unfolding act
outputs g i s = act g i s s.twtpcon.ready s.trccon.ready s.trascon.ready s.fsm

-- The command's address: the row, or the column with the auto-precharge flag in A10.
pub cmd_a : Settings → Inputs → BankMachine → ℕ
unfolding outputs auto_precharge
cmd_a g i s =
    (if (outputs g i s).row_col_n_addr_sel
      then row_of g.geom i.buffer_addr
      else bit_or (if auto_precharge g i s.fsm then 2 ^ 10 else 0) (col_of g.geom i.buffer_addr))
    % 2 ^ addressbits g.geom

pub lock : Inputs → Bool
lock i = i.ahead_valid || i.buffer_valid

-- One clock cycle.
unfoldable pub step : Settings → Inputs → BankMachine → BankMachine
unfolding outputs row_close
step g i s =
    let o = outputs g i s in
    record {
      fsm = o.next;
      row =
          if row_close s.fsm
          then s.row
          else if o.row_open
          then row_of g.geom i.buffer_addr % 2 ^ g.geom.rowbits
          else s.row;
      row_opened = if row_close s.fsm then false else if o.row_open then true else s.row_opened;
      twtpcon =
          Txxd.step (some (precharge_time g)) g.twtp_width ((o.valid && i.cmd_ready) && o.is_write)
            s.twtpcon;
      trccon = Txxd.step g.trc g.trc_width ((o.valid && i.cmd_ready) && o.row_open) s.trccon;
      trascon = Txxd.step g.tras g.tras_width ((o.valid && i.cmd_ready) && o.row_open) s.trascon;
    }

unfoldable pub run : Settings → List Inputs → BankMachine
unfolding step reset
run g h = after (step g) (reset g) h
