-- ===== src/Init/Register.antt =====
-- `reg` of litedram/init.py: a register value from its fields.
pub mod Fields
use litedram.Base.{
  ℕ, ◌+◌, ◌-◌, ◌*◌, ◌^◌, Option, none, some, List, [], ◌∷◌, ◌==◌, ltb, if◌then◌else◌, bit_and,
  bit_or,
}

-- `(bit_offset, bit_width, value)`.
pub record Field : Type 0 where
  pub shift : ℕ
  pub width : ℕ
  pub val : ℕ

abbrev pub mask : Field → ℕ
mask f = (2 ^ f.width - 1) * 2 ^ f.shift

-- The loop of `reg`; an assertion that fails is `none`.
pub reg_loop : List Field → ℕ → ℕ → Option ℕ
reg_loop [] regval written = some regval
reg_loop (f ∷ fields) regval written =
    let rest =
      reg_loop fields (bit_or regval (bit_and (f.val * 2 ^ f.shift) (mask f)))
        (bit_or written (mask f)) in
    if bit_and written (mask f) == 0 then (if ltb f.val (2 ^ f.width) then rest else none) else none

unfoldable pub reg : List Field → Option ℕ
unfolding reg_loop
reg fields = reg_loop fields 0 0
