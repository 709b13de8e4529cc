-- ===== src/Modules/Spd/Fields.antt =====
-- The fields of a byte and the geometry that `DDR3SPDData` and `DDR4SPDData` of litedram/modules.py
-- read from them.
use native.Mathlib.Nat.{
  pow-suc, div-one, pow-succ', mul-div-le, one-le-pow, div-div-eq-div-mul, mod-eq-sub-mul-div,
}
use litedram.Base.{
  ℕ, zero, suc, ◌+◌, ◌-◌, ◌*◌, ◌/◌, ◌%◌, ◌^◌, ◌≤◌, ◌<◌, min, ◌≡◌, refl, sym, ap, ◌∙◌, arith, List,
  [], ◌∷◌, length, nth, bit_and,
}
use litedram.Base.Bits.{and_low}
use litedram.Modules.{Result}
use litedram.Modules.Spd.{read_field, byte, key, ddr3_geometry, ddr4_geometry}

mod_double : (x m : ℕ) → x % (2 * m) ≡ x / 2 % m * 2 + x % 2
mod_double x m =
    let q : x / (2 * m) ≡ x / 2 / m = sym (div-div-eq-div-mul x 2 m) in
    let low : m * (x / 2 / m) ≤ x / 2 = mul-div-le (x / 2) m in
    omega (
      arith,
      mod-eq-sub-mul-div x (2 * m),
      mod-eq-sub-mul-div (x / 2) m,
      ap (λ (k : ℕ). m * k) q,
      low,
    )

zero_mask : (n b : ℕ) → b ≤ n → bit_and b 0 ≡ 0
zero_mask n zero l = omega (arith, and_low 0 0)
zero_mask zero (suc b) l = elim l [ ]
zero_mask (suc n) (suc b) l =
    omega (arith, and_low (suc b) 0, zero_mask n (suc b / 2) (omega arith))

mask : (b n : ℕ) → bit_and b (2 ^ n - 1) ≡ b % 2 ^ n
mask b zero = omega (arith, and_low b 0, zero_mask (b / 2) (b / 2) (omega arith))
mask b (suc n) =
    let e : (2 ^ suc n - 1) / 2 ≡ 2 ^ n - 1 =
      omega (arith, pow-suc 2 n, one-le-pow n 2 (omega arith)) in
    let o : (2 ^ suc n - 1) % 2 ≡ 1 = omega (arith, pow-suc 2 n, one-le-pow n 2 (omega arith)) in
    and_low b (2 ^ suc n - 1)
    ∙ ap (λ m. bit_and (b / 2) m * 2 + min (b % 2) ((2 ^ suc n - 1) % 2)) e
    ∙ omega (arith, mask (b / 2) n, o, mod_double b (2 ^ n), ap (λ (m : ℕ). b % m) (pow-succ' 2 n))

shifted : (b n s : ℕ) → bit_and b ((2 ^ n - 1) * 2 ^ s) / 2 ^ s ≡ b / 2 ^ s % 2 ^ n
shifted b n zero =
    let e : (2 ^ n - 1) * 1 ≡ 2 ^ n - 1 = omega arith in
    omega (arith, ap (bit_and b) e, mask b n, ap (λ (m : ℕ). m % 2 ^ n) (div-one b))
shifted b n (suc s) =
    let m = (2 ^ n - 1) * 2 ^ s in
    let e : (2 ^ n - 1) * 2 ^ suc s ≡ 2 * m =
      omega (arith, ap (λ (t : ℕ). (2 ^ n - 1) * t) (pow-suc 2 s)) in
    let h : bit_and b (2 * m) / 2 ≡ bit_and (b / 2) m =
      omega (
        arith,
        and_low b (2 * m),
        ap (bit_and (b / 2)) (let g : 2 * m / 2 ≡ m = omega arith in g),
      ) in
    ap (λ k. bit_and b k / 2 ^ suc s) e
    ∙ ap (λ (k : ℕ). bit_and b (2 * m) / k) (pow-succ' 2 s)
    ∙ sym (div-div-eq-div-mul (bit_and b (2 * m)) 2 (2 ^ s))
    ∙ ap (λ (k : ℕ). k / 2 ^ s) h
    ∙ shifted (b / 2) n s
    ∙ ap (λ (k : ℕ). k % 2 ^ n)
        (div-div-eq-div-mul b 2 (2 ^ s) ∙ ap (λ (k : ℕ). b / k) (sym (pow-succ' 2 s)))

-- A field of a byte is its bits from the shift on.
pub read_field_lem : (b nbits shift : ℕ) → read_field b nbits shift ≡ b / 2 ^ shift % 2 ^ nbits
unfolding read_field
read_field_lem b nbits shift = shifted b nbits shift

-- A byte within the data, and the codes of the dictionaries.
pub byte_within : (spd : List ℕ) (i : ℕ) → i < length spd → byte spd i ≡ Result.value (nth 0 spd i)
unfolding byte
byte_within [] i l = elim l [ ]
byte_within (b ∷ spd) zero l = refl
byte_within (b ∷ spd) (suc i) l = byte_within spd i (omega arith)

abbrev consecutive : ℕ → ℕ → List ℕ
consecutive a zero = []
consecutive a (suc n) = a ∷ consecutive (a + 1) n

key-consecutive : (a n c : ℕ) → c < n → key (consecutive a n) c ≡ Result.value (a + c)
unfolding key
key-consecutive a zero c l = absurd (omega arith)
key-consecutive a (suc n) zero l = ap Result.value (omega arith)
key-consecutive a (suc n) (suc c) l =
    key-consecutive (a + 1) n c (omega arith) ∙ ap Result.value (omega arith)

-- For data of at least six bytes whose codes of banks, rows and columns the dictionaries have, the
-- banks are 2 to the power of 3 plus bits 4 to 6 of byte 4, the rows of 12 plus bits 3 to 5 of
-- byte 5, and the columns of 9 plus bits 0 to 2 of byte 5.
pub ddr3_geometry_lem :
    (spd : List ℕ)
    → 5 < length spd
    → nth 0 spd 4 / 2 ^ 4 % 2 ^ 3 < 4
    → nth 0 spd 5 / 2 ^ 3 % 2 ^ 3 < 5
    → nth 0 spd 5 / 2 ^ 0 % 2 ^ 3 < 4
    → ddr3_geometry spd
      ≡ Result.value (record {
        nbanks = 2 ^ (3 + nth 0 spd 4 / 2 ^ 4 % 2 ^ 3);
        nrows = 2 ^ (12 + nth 0 spd 5 / 2 ^ 3 % 2 ^ 3);
        ncols = 2 ^ (9 + nth 0 spd 5 / 2 ^ 0 % 2 ^ 3);
      })
unfolding ddr3_geometry
ddr3_geometry_lem spd l bank row col =
    rw
      (
        byte_within spd 4 (omega arith),
        byte_within spd 5 l,
        read_field_lem (nth 0 spd 4) 3 4,
        read_field_lem (nth 0 spd 5) 3 3,
        read_field_lem (nth 0 spd 5) 3 0,
        key-consecutive 3 4 _ bank,
        key-consecutive 12 5 _ row,
        key-consecutive 9 4 _ col,
      )
      refl

-- For data of at least six bytes whose codes of groups, banks, rows and columns the dictionaries
-- have, the banks are 2 to the power of bits 6 and 7 of byte 4, times 2 to the power of 2 plus bits 4
-- and 5, and the rows and columns are read as for DDR3.
ddr4_geometry_lem :
    (spd : List ℕ)
    → 5 < length spd
    → nth 0 spd 4 / 2 ^ 6 % 2 ^ 2 < 3
    → nth 0 spd 4 / 2 ^ 4 % 2 ^ 2 < 2
    → nth 0 spd 5 / 2 ^ 3 % 2 ^ 3 < 7
    → nth 0 spd 5 / 2 ^ 0 % 2 ^ 3 < 4
    → ddr4_geometry spd
      ≡ Result.value (record {
        nbanks = 2 ^ (0 + nth 0 spd 4 / 2 ^ 6 % 2 ^ 2) * 2 ^ (2 + nth 0 spd 4 / 2 ^ 4 % 2 ^ 2);
        nrows = 2 ^ (12 + nth 0 spd 5 / 2 ^ 3 % 2 ^ 3);
        ncols = 2 ^ (9 + nth 0 spd 5 / 2 ^ 0 % 2 ^ 3);
      })
unfolding ddr4_geometry
ddr4_geometry_lem spd l group bank row col =
    rw
      (
        byte_within spd 4 (omega arith),
        byte_within spd 5 l,
        read_field_lem (nth 0 spd 4) 2 6,
        read_field_lem (nth 0 spd 4) 2 4,
        read_field_lem (nth 0 spd 5) 3 3,
        read_field_lem (nth 0 spd 5) 3 0,
        key-consecutive 0 3 _ group,
        key-consecutive 2 2 _ bank,
        key-consecutive 12 7 _ row,
        key-consecutive 9 4 _ col,
      )
      refl
