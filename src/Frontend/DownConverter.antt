-- ===== src/Frontend/DownConverter.antt =====
-- `LiteDRAMNativePortDownConverter` of litedram/frontend/adapter.py: each command of the wide port
-- becomes `ratio` commands to the narrow one. The data go through converters of another library.
pub mod Split
use litedram.Base.{
  ℕ, zero, suc, ◌+◌, ◌-◌, ◌*◌, ◌%◌, ◌^◌, Bool, true, false, ◌&&◌, List, [], ◌∷◌, ◌==◌,
  if◌then◌else◌, after,
}

-- `to_width` is the width of the narrow port's address, `count_width` that of the count.
pub record Settings : Type 0 where
  pub ratio : ℕ
  pub count_width : ℕ
  pub to_width : ℕ

pub data State : Type 0 where
  idle convert : State

pub record Command : Type 0 where
  pub we : Bool
  pub addr : ℕ

pub record Inputs : Type 0 where
  pub from_valid : Bool
  pub from_cmd : Command
  pub to_ready : Bool

pub record Converter : Type 0 where
  pub fsm : State
  pub cmd_count : ℕ
  pub cmd : Command

abbrev pub reset : Converter
reset = record { fsm = State.idle; cmd_count = 0; cmd = record { we = false; addr = 0 } }

-- `port_from.cmd.ready` and `port_to.cmd.valid`.
abbrev pub from_ready : Converter → Bool
from_ready s = elim s.fsm [ State.idle ↦ true | State.convert ↦ false ]

abbrev pub to_valid : Converter → Bool
to_valid s = elim s.fsm [ State.idle ↦ false | State.convert ↦ true ]

unfoldable pub to_cmd : Settings → Command → ℕ → Command
to_cmd g c count = record { we = c.we; addr = (c.addr * g.ratio + count) % 2 ^ g.to_width }

unfoldable pub step : Settings → Inputs → Converter → Converter
step g i s = elim s.fsm [
  | State.idle ↦
      if i.from_valid then record { fsm = State.convert; cmd_count = 0; cmd = i.from_cmd } else s
  | State.convert ↦
      if i.to_ready
      then record {
        fsm = if s.cmd_count == g.ratio - 1 then State.idle else State.convert;
        cmd_count = (s.cmd_count + 1) % 2 ^ g.count_width;
        cmd = s.cmd;
      }
      else s
]

unfoldable pub run : Settings → List Inputs → Converter
unfolding step
run g h = after (step g) reset h
