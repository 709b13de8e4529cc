-- ===== src/Common/Port.antt =====
-- The address of a native port, `LiteDRAMNativePort` of litedram/common.py: its bank and its row and
-- column.
use mathlib.Core.Path.{subst}
use native.Mathlib.Decide.{dec_lt}
use native.Mathlib.Nat.{
  mod-lt, mod-eq_of_lt, div-eq_of_lt, add-mul-div_right, add-mul-mod_self_right, mod-add-div',
  div-div-eq-div-mul,
}
use litedram.Base.{
  two_pow-add, ℕ, zero, suc, ◌+◌, ◌*◌, ◌/◌, ◌%◌, ◌^◌, ◌≤◌, ◌<◌, ◌≡◌, sym, ap, ◌∙◌, arith, ◌==◌, ltb,
  if◌then◌else◌, two_pow-pos,
}

-- `addr[cba_shift:cba_upper]`.
unfoldable pub get_bank_address : (addr bank_bits cba_shift : ℕ) → ℕ
get_bank_address addr bank_bits cba_shift = addr / 2 ^ cba_shift % 2 ^ bank_bits

-- The other bits; `Cat` puts the upper part above `cba_shift` bits.
unfoldable pub get_row_column_address : (addr bank_bits rca_bits cba_shift : ℕ) → ℕ
get_row_column_address addr bank_bits rca_bits cba_shift =
    let cba_upper = cba_shift + bank_bits in
    if ltb cba_shift rca_bits
    then (if cba_shift == 0
        then addr / 2 ^ cba_upper
        else addr % 2 ^ cba_shift + addr / 2 ^ cba_upper * 2 ^ cba_shift)
    else addr % 2 ^ cba_shift

-- The address from its parts.
abbrev pub join : (bank rca bank_bits cba_shift : ℕ) → ℕ
join bank rca bank_bits cba_shift =
    rca % 2 ^ cba_shift + (bank + rca / 2 ^ cba_shift * 2 ^ bank_bits) * 2 ^ cba_shift

-- A number from its digits in a mixed radix: `low` below `m`, then `high`.
low_digit : (low high m : ℕ) → low < m → (low + high * m) % m ≡ low
low_digit low high m h = add-mul-mod_self_right low high m ∙ mod-eq_of_lt h

high_digit : (low high m : ℕ) → low < m → (low + high * m) / m ≡ high
high_digit low high m h =
    add-mul-div_right low high {z = m} (omega arith)
    ∙ omega (arith, div-eq_of_lt {n = low} {m = m} h)

-- The row and column in two digits.
rca_digits :
    (addr bank_bits rca_bits cba_shift : ℕ)
    → cba_shift ≤ rca_bits
    → addr < 2 ^ (rca_bits + bank_bits)
    → get_row_column_address addr bank_bits rca_bits cba_shift
      ≡ addr % 2 ^ cba_shift + addr / 2 ^ (cba_shift + bank_bits) * 2 ^ cba_shift
unfolding get_row_column_address
rca_digits addr bank_bits rca_bits zero le small =
    let one_digit : addr % 2 ^ 0 + addr / 2 ^ (0 + bank_bits) * 2 ^ 0 ≡ addr / 2 ^ (0 + bank_bits) =
      omega arith in
    elim (dec_lt 0 rca_bits) [
      | yes p ↦ ground (arith, one_digit)
      | no q ↦
          let e : rca_bits ≡ 0 = omega arith in
          let z : addr / 2 ^ (0 + bank_bits) ≡ 0 =
            div-eq_of_lt (subst (λ (n : ℕ). addr < 2 ^ (n + bank_bits)) e small) in
          ground (arith, z)
    ]
rca_digits addr bank_bits rca_bits (suc s) le small = elim (dec_lt (suc s) rca_bits) [
  | yes p ↦ ground arith
  | no q ↦
      let e : rca_bits ≡ suc s = omega arith in
      let z : addr / 2 ^ (suc s + bank_bits) ≡ 0 =
        div-eq_of_lt (subst (λ (n : ℕ). addr < 2 ^ (n + bank_bits)) e small) in
      ground (arith, z)
]

join_digits :
    (addr s b : ℕ)
    → let rca : ℕ = addr % 2 ^ s + addr / 2 ^ (s + b) * 2 ^ s in
      join (addr / 2 ^ s % 2 ^ b) rca b s ≡ addr
join_digits addr s b =
    let pos = two_pow-pos s in
    let below : addr % 2 ^ s < 2 ^ s = mod-lt addr pos in
    let high : addr / 2 ^ (s + b) ≡ addr / 2 ^ s / 2 ^ b =
      ap (λ (n : ℕ). addr / n) (two_pow-add s b) ∙ sym (div-div-eq-div-mul addr (2 ^ s) (2 ^ b)) in
    let l = low_digit (addr % 2 ^ s) (addr / 2 ^ (s + b)) (2 ^ s) below in
    let h = high_digit (addr % 2 ^ s) (addr / 2 ^ (s + b)) (2 ^ s) below in
    let q : addr / 2 ^ s % 2 ^ b + addr / 2 ^ (s + b) * 2 ^ b ≡ addr / 2 ^ s =
      ap (λ (n : ℕ). addr / 2 ^ s % 2 ^ b + n * 2 ^ b) high ∙ mod-add-div' (addr / 2 ^ s) (2 ^ b) in
    rw (l, h, q) (mod-add-div' addr (2 ^ s))

-- With the bank's bits at or below the top of the row and column's, an address of the port's width
-- is given back by its bank and its row and column: no two addresses share a place in the DRAM.
pub join-get :
    (addr bank_bits rca_bits cba_shift : ℕ)
    → cba_shift ≤ rca_bits
    → addr < 2 ^ (rca_bits + bank_bits)
    → join
        (get_bank_address addr bank_bits cba_shift)
        (get_row_column_address addr bank_bits rca_bits cba_shift)
        bank_bits
        cba_shift
      ≡ addr
unfolding get_bank_address
join-get addr bank_bits rca_bits cba_shift le small =
    ap (λ (n : ℕ). join (addr / 2 ^ cba_shift % 2 ^ bank_bits) n bank_bits cba_shift)
      (rca_digits addr bank_bits rca_bits cba_shift le small)
    ∙ join_digits addr cba_shift bank_bits
