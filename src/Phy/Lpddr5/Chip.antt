-- ===== src/Phy/Lpddr5/Chip.antt =====
-- The clock cycle of `CommandsSim` of litedram/phy/lpddr5/sim.py: all handlers of a command, the
-- registers of CS and CA, and the FSM of the initialization.
use litedram.Base.{
  ℕ, Bool, true, false, not, ◌&&◌, ◌||◌, Option, none, some, List, ◌∷◌, ◌==◌, if◌then◌else◌, take,
  drop,
}
use litedram.Phy.Wires.{number}
use litedram.Phy.PulseTiming
use litedram.Phy.Lpddr4.Sim.{put, Half, two_step, next_half, first_done, second_done}
use litedram.Phy.Lpddr5.Commands.{zqc_start, zqc_latch}
use litedram.Phy.Lpddr5.Sim.{
  Message, MrwHandler, ActivateHandler, Chip, Edges, note, last_n, mrw_cond1, mrw_cond2, operand,
  put_mr, act_cond1, act_cond2, act_row, precharge_cond, refresh_cond, mpc_cond, cas_cond,
  data_cond, bank_of, data_burst, data_messages, cas_messages,
}

-- A test on the command of the cycle, if there is one.
abbrev on : (Edges → Bool) → Option Edges → Bool
on p none = false
on p (some e) = p e

unfoldable pub mrw_next : Option Edges → MrwHandler → MrwHandler
unfolding mrw_cond1
mrw_next none h = h
mrw_next (some e) h = record {
  half = next_half h.half (mrw_cond1 e);
  ma = if first_done h.half (mrw_cond1 e) then e.ca_n else h.ma;
}

unfoldable pub mrw_matched : Edges → Chip → Bool
unfolding mrw_cond1 mrw_cond2
mrw_matched e c = two_step c.mrw.half (mrw_cond1 e) (mrw_cond2 e)

-- The second part must come within tAAD, 8 cycles.
unfoldable pub act_trigger : Option Edges → ActivateHandler → Bool
unfolding act_cond1
act_trigger o h = first_done h.half (on act_cond1 o)

unfoldable pub timeout : Option Edges → ActivateHandler → Bool
unfolding act_trigger PulseTiming.ready
timeout o h = second_done h.half (PulseTiming.ready 8 (act_trigger o h) h.timer)

abbrev act_half : Half → (trigger timeout command : Bool) → Half
act_half Half.first trigger timeout command = if trigger then Half.second else Half.first
act_half Half.second trigger timeout command =
    if timeout || command then Half.first else Half.second

abbrev first_or : Option Edges → (Edges → List Bool) → Bool → List Bool → List Bool
first_or none f b old = old
first_or (some e) f b old = if b then f e else old

unfoldable pub act_next : Option Edges → ActivateHandler → ActivateHandler
unfolding act_trigger timeout PulseTiming.step
act_next o h =
    let body1 = act_trigger o h in
    record {
      half = act_half h.half body1 (timeout o h) (on (λ e. true) o);
      bank = first_or o (λ e. take 4 e.ca_n) body1 h.bank;
      row1 = first_or o (λ e. drop 3 e.ca_p) body1 h.row1;
      row2 = first_or o (λ e. drop 4 e.ca_n) body1 h.row2;
      timer = PulseTiming.step 8 body1 h.timer;
    }

-- The second part of an activation.
unfoldable pub activates : Edges → Chip → Bool
unfolding act_cond2 timeout
activates e c = second_done c.act.half (act_cond2 e && not (timeout (some e) c.act))

unfoldable pub act_matched : Edges → Chip → Bool
unfolding act_cond1 activates
act_matched e c = first_done c.act.half (act_cond1 e) || activates e c

-- `~reduce(or_, cmd_handlers.values())`.
unfoldable pub no_match : Edges → Chip → Bool
unfolding act_matched precharge_cond refresh_cond mrw_matched data_cond cas_cond mpc_cond
no_match e c = not (
    act_matched e c
    || (precharge_cond e
        || (refresh_cond e || (mrw_matched e c || (data_cond e || (cas_cond e || mpc_cond e))))))

-- `reduce(or_, active_banks)` over the 16 banks.
unfoldable pub some_active : (ℕ → Bool) → Bool
some_active b =
    b 0
    || (b 1
        || (b 2
            || (b 3
                || (b 4
                    || (b 5
                        || (b 6
                            || (b 7
                                || (b 8
                                    || (b 9
                                        || (b 10
                                            || (b 11
                                                || (b 12 || (b 13 || (b 14 || b 15))))))))))))))

unfoldable pub is_zqc : Edges → Bool
unfolding operand
is_zqc e = (operand e == zqc_start) || (operand e == zqc_latch)

abbrev given : Bool → (List Message → List Message) → List Message → List Message
given true f log = f log
given false f log = log

unfoldable pub messages : Edges → Chip → List Message → List Message
unfolding no_match timeout act_cond2 activates precharge_cond refresh_cond some_active mrw_cond2
    data_cond data_messages cas_cond cas_messages mpc_cond is_zqc
messages e c log =
    let d = c.device in
    note (no_match e c) Message.unexpected_command (
      note (second_done c.act.half (not (timeout (some e) c.act) && not (act_cond2 e)))
        Message.waiting_for_second
        (note (activates e c && d.active_banks (number c.act.bank)) Message.act_on_active_bank (
          note (precharge_cond e && (not (last_n e) && not (d.active_banks (bank_of e))))
            Message.pre_on_inactive_bank
            (note (refresh_cond e && some_active d.active_banks) Message.refresh_with_active_banks (
              note (second_done c.mrw.half (not (mrw_cond2 e))) Message.waiting_for_second (
                given (data_cond e) (data_messages e d) (
                  given (cas_cond e) (cas_messages e)
                    (note (mpc_cond e && not (is_zqc e)) Message.unsupported_mpc log))))))))

-- The writes of the handlers.
unfoldable pub mrw_write : Edges → Chip → ℕ → ℕ
unfolding mrw_cond2 operand
mrw_write e c =
    if second_done c.mrw.half (mrw_cond2 e)
    then put_mr c.device.mode_regs (number c.mrw.ma) (operand e)
    else c.device.mode_regs

unfoldable pub row_write : Edges → Chip → ℕ → ℕ
unfolding activates act_row
row_write e c =
    if activates e c
    then put c.device.active_rows (number c.act.bank) (act_row e c.act)
    else c.device.active_rows

unfoldable pub bank_write : Edges → Chip → ℕ → Bool
unfolding activates precharge_cond data_cond
bank_write e c =
    let banks = c.device.active_banks in
    if activates e c
    then put banks (number c.act.bank) true
    else if precharge_cond e
    then (if last_n e then (λ b. false) else put banks (bank_of e) false)
    else if data_cond e && last_n e
    then put banks (bank_of e) false
    else banks

-- All handlers in a cycle, with a command or without; a timeout needs no command.
unfoldable pub handle : Option Edges → Chip → Chip
unfolding mrw_next act_next timeout messages mrw_write row_write bank_write data_cond data_burst
handle none c = record c {
  mrw = mrw_next none c.mrw;
  act = act_next none c.act;
  log = note (timeout none c.act) Message.timeout c.log;
}
handle (some e) c = record {
  mrw = mrw_next (some e) c.mrw;
  act = act_next (some e) c.act;
  device = record {
    mode_regs = mrw_write e c;
    active_banks = bank_write e c;
    active_rows = row_write e c;
  };
  log = messages e c (note (timeout (some e) c.act) Message.timeout c.log);
  bursts = if data_cond e then data_burst e c.device ∷ c.bursts else c.bursts;
}
