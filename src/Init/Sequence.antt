-- ===== src/Init/Sequence.antt =====
-- The steps of an initialization sequence, less their comments, and the named commands `cmds` of
-- litedram/init.py.
use litedram.Base.{ℕ, Bool, true, false, Option, none, some, List, [], ◌∷◌, ◌==◌, if◌then◌else◌}
use litedram.Init.Table.{Table}

-- The flags of `DFII_CONTROL_…` and of `DFII_COMMAND_…`.
pub data Cmd : Type 0 where
  control : (cke odt reset_n : Bool) → Cmd
  command : (ras cas we cs : Bool) → Cmd

abbrev pub precharge_all : Cmd
precharge_all = Cmd.command true false true true

abbrev pub mode_register : Cmd
mode_register = Cmd.command true true true true

abbrev pub auto_refresh : Cmd
auto_refresh = Cmd.command true true false true

abbrev pub unreset : Cmd
unreset = Cmd.control false true true

abbrev pub cke : Cmd
cke = Cmd.control true true true

-- "DFII_COMMAND_WE|DFII_COMMAND_CS".
abbrev pub zq_calibration : Cmd
zq_calibration = Cmd.command false false true true

-- "DFII_CONTROL_ODT".
abbrev pub odt_only : Cmd
odt_only = Cmd.control false true false

-- An address, a bank address, a command and a delay.
pub record Step : Type 0 where
  pub a : ℕ
  pub ba : ℕ
  pub cmd : Cmd
  pub delay : ℕ

abbrev pub at : ℕ → ℕ → Cmd → ℕ → Step
at a ba cmd delay = record { a = a; ba = ba; cmd = cmd; delay = delay }

-- The sequence and the dictionary `mr` of mode registers that is returned with it.
pub record Init : Type 0 where
  pub sequence : List Step
  pub mr : Table

-- What a DRAM has in mode register `ba` after the steps: the last value loaded.
unfoldable pub loaded : ℕ → List Step → Option ℕ
loaded ba [] = none
loaded ba (s ∷ ss) = elim (loaded ba ss) [
  | some v ↦ some v
  | none ↦ elim s.cmd [
    | Cmd.command true true true true ↦ (if s.ba == ba then some s.a else none)
    | _ ↦ none
  ]
]
