-- ===== src/Core/BankMachine/Slicer.antt =====
-- `_AddressSlicer` of litedram/core/bankmachine.py, and the geometry settings that it reads.
pub mod Column
use litedram.Base.{ℕ, ◌+◌, ◌-◌, ◌*◌, ◌/◌, ◌%◌, ◌^◌, ltb, if◌then◌else◌, max}

-- `GeomSettings` of litedram/common.py, with the alignment of the controller's addresses.
pub record Geometry : Type 0 where
  pub rowbits : ℕ
  pub colbits : ℕ
  pub address_align : ℕ

abbrev pub addressbits : Geometry → ℕ
addressbits g = max g.rowbits g.colbits

-- `address[split:]`.
unfoldable pub row_of : Geometry → ℕ → ℕ
row_of g address = address / 2 ^ (g.colbits - g.address_align)

-- The column's bits, above `address_align` zeros; a column of more than ten bits skips A10.
unfoldable pub col_of : Geometry → ℕ → ℕ
col_of g address =
    let split = g.colbits - g.address_align in
    let low = 10 - g.address_align in
    if ltb 10 g.colbits
    then address % 2 ^ low * 2 ^ g.address_align + address % 2 ^ split / 2 ^ low * 2 ^ 11
    else address % 2 ^ split * 2 ^ g.address_align
