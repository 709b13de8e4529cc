-- ===== src/Init/Lpddr5/Clocks.antt =====
-- The set of the latencies and the ratio of the clocks in the LPDDR5 mode registers.
use litedram.Base.{ℕ, ◌/◌, ◌%◌, ◌^◌, ◌≡◌, refl, arith, some, [], ◌∷◌, ◌==◌, if◌then◌else◌}
use litedram.Base.Bits.{bit}
use litedram.Init.Table.{lookup, >>=-eq-some}
use litedram.Init.Register.Fields.{reg_reads}
use litedram.Init.Lpddr4.{field}
use litedram.Init.Lpddr4.Tables.{Odt, odt_map}
use litedram.Init.Lpddr5.{mr3, mr18}

-- MR3 selects set A of the write latencies, and MR18 the ratio of the clocks.
pub set_a_lem : (o : Odt) (m : ℕ) → mr3 o ≡ some m → m / 2 ^ 5 % 2 ≡ 0
unfolding mr3
set_a_lem o m e =
    let (strength, q, e1) = >>=-eq-some (odt_map o) _ e in
    let w : _ =
      reg_reads (field 0 3 strength ∷ field 3 2 0b10 ∷ field 5 1 0 ∷ []) m 2 (field 5 1 0) 0 e1 refl
        (omega arith) in
    omega (arith, w)

ratio_bit_lem :
    (ratio r m : ℕ)
    → lookup ratio ((2, 1) ∷ (4, 0) ∷ []) ≡ some r
    → bit m 7 ≡ bit r 0
    → (if m / 2 ^ 7 % 2 == 0 then 4 else 2) ≡ ratio
unfolding lookup
ratio_bit_lem ratio r m q w = ground arith

pub ratio_lem :
    (o : Odt) (ratio m : ℕ) → mr18 o ratio ≡ some m → (if m / 2 ^ 7 % 2 == 0 then 4 else 2) ≡ ratio
unfolding mr18
ratio_lem o ratio m e =
    let (wck, q, e1) = >>=-eq-some (odt_map o) _ e in
    let (r, q2, e2) = >>=-eq-some (lookup ratio ((2, 1) ∷ (4, 0) ∷ [])) _ e1 in
    let w : _ =
      reg_reads (field 0 3 wck ∷ field 3 1 0 ∷ field 4 1 0 ∷ field 6 1 0 ∷ field 7 1 r ∷ []) m 4
        (field 7 1 r) 0 e2 refl (omega arith) in
    ratio_bit_lem ratio r m q2 w
