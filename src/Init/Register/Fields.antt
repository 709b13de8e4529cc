-- ===== src/Init/Register/Fields.antt =====
-- A register that `reg` accepts holds each field at its place, and nothing else.
use mathlib.Core.Path.{subst}
use litedram.Base.{
  get_elem?, some_inj, ℕ, zero, suc, ◌+◌, ◌-◌, ◌*◌, ◌^◌, ◌≤◌, ◌<◌, min, max, ◌≡◌, ◌⊎◌, inl, inr,
  sym, ap, ◌∙◌, arith, some, List, [], ◌∷◌, bit_and, bit_or, two_pow-pos,
}
use litedram.Base.Bits.{
  bit, bit-or, bit-and, bit-lt, bit_of_zero, bit_above, bit-shift, bit-shift_below, bit-mask,
}
use litedram.Init.Register.{Field, mask, reg_loop, reg}

-- Position `k` lies outside a field.
abbrev pub Outside : ℕ → List Field → Type 0
Outside k [] = Unit
Outside k (f ∷ fs) = ((k < f.shift) ⊎ (f.shift + f.width ≤ k)) × Outside k fs

-- `v` reads back as the fields.
abbrev pub Holds : ℕ → List Field → Type 0
Holds v [] = Unit
Holds v (f ∷ fs) = ((j : ℕ) → j < f.width → bit v (f.shift + j) ≡ bit f.val j) × Holds v fs

-- One round of the loop that goes on.
record Round (f : Field) (fs : List Field) (regval written v : ℕ) : Type 0 where
  free : bit_and written (mask f) ≡ 0
  fits : f.val < 2 ^ f.width
  rest :
      reg_loop fs (bit_or regval (bit_and (f.val * 2 ^ f.shift) (mask f))) (bit_or written (mask f))
      ≡ some v

round :
    (f : Field) (fs : List Field) (regval written v : ℕ)
    → reg_loop (f ∷ fs) regval written ≡ some v
    → Round f fs regval written v
unfolding reg_loop
round f fs regval written v e = record {
  free = ground arith;
  fits = ground arith;
  rest = ground arith;
}

mask_inside : (f : Field) (j : ℕ) → j < f.width → bit (mask f) (f.shift + j) ≡ 1
mask_inside f j h = bit-shift (2 ^ f.width - 1) f.shift j ∙ bit-mask f.width j h

mask_outside : (f : Field) (k : ℕ) → (k < f.shift) ⊎ (f.shift + f.width ≤ k) → bit (mask f) k ≡ 0
mask_outside f k (inl h) = bit-shift_below (2 ^ f.width - 1) f.shift k h
mask_outside f k (inr h) =
    ap (bit (mask f)) (let e : k ≡ f.shift + (k - f.shift) = omega arith in e)
    ∙ bit-shift (2 ^ f.width - 1) f.shift (k - f.shift)
    ∙ bit_above (2 ^ f.width - 1) f.width (k - f.shift) (omega (arith, two_pow-pos f.width))
        (omega arith)

free_bit :
    (f : Field) (written k : ℕ)
    → bit_and written (mask f) ≡ 0
    → min (bit written k) (bit (mask f) k) ≡ 0
free_bit f written k e = sym (bit-and written (mask f) k) ∙ ap (λ m. bit m k) e ∙ bit_of_zero k

-- The new bit at `k`.
next_bit :
    (f : Field) (regval k : ℕ)
    → bit (bit_or regval (bit_and (f.val * 2 ^ f.shift) (mask f))) k
      ≡ max (bit regval k) (min (bit (f.val * 2 ^ f.shift) k) (bit (mask f) k))
next_bit f regval k = bit-or regval _ k ∙ ap (max (bit regval k)) (bit-and _ (mask f) k)

-- A bit that is written is not changed any more.
written_kept :
    (fs : List Field) (regval written v k : ℕ)
    → reg_loop fs regval written ≡ some v
    → bit written k ≡ 1
    → bit v k ≡ bit regval k
unfolding reg_loop
written_kept [] regval written v k e w = ground arith
written_kept (f ∷ fs) regval written v k e w =
    let r = round f fs regval written v e in
    let clear : bit (mask f) k ≡ 0 = omega (arith, free_bit f written k r.free) in
    written_kept fs _ _ v k r.rest (omega (arith, bit-or written (mask f) k, bit-lt (mask f) k))
    ∙ omega (arith, next_bit f regval k)

Outside-kept :
    (fs : List Field) (regval written v k : ℕ)
    → reg_loop fs regval written ≡ some v
    → Outside k fs
    → bit v k ≡ bit regval k
unfolding reg_loop
Outside-kept [] regval written v k e o = ground arith
Outside-kept (f ∷ fs) regval written v k e o =
    let r = round f fs regval written v e in
    Outside-kept fs _ _ v k r.rest o.1 ∙ omega (arith, next_bit f regval k, mask_outside f k o.0)

loop-Holds :
    (fs : List Field) (regval written v : ℕ)
    → reg_loop fs regval written ≡ some v
    → ((k : ℕ) → bit regval k ≤ bit written k)
    → Holds v fs
loop-Holds [] regval written v e within = tt
loop-Holds (f ∷ fs) regval written v e within =
    let r = round f fs regval written v e in
    (
      (λ j h.
          let k : ℕ = f.shift + j in
          let set : bit (mask f) k ≡ 1 = mask_inside f j h in
          written_kept fs _ _ v k r.rest
            (omega (arith, bit-or written (mask f) k, bit-lt written k, set))
          ∙ omega (
            arith,
            next_bit f regval k,
            set,
            free_bit f written k r.free,
            within k,
            bit-lt (f.val * 2 ^ f.shift) k,
            bit-shift f.val f.shift j,
          )),
      loop-Holds fs _ _ v r.rest (λ k. omega (
        arith,
        next_bit f regval k,
        bit-or written (mask f) k,
        within k,
        bit-lt (f.val * 2 ^ f.shift) k,
      )),
    )

Holds-at :
    (v : ℕ) (fields : List Field) (i : ℕ) (f : Field) (j : ℕ)
    → Holds v fields
    → get_elem? fields i ≡ some f
    → j < f.width
    → bit v (f.shift + j) ≡ bit f.val j
Holds-at v [] i f j h at_i l = cc
Holds-at v (g ∷ fields) zero f j h at_i l =
    subst (λ x. j < x.width → bit v (x.shift + j) ≡ bit x.val j) (some_inj at_i) (h.0 j) l
Holds-at v (g ∷ fields) (suc i) f j h at_i l = Holds-at v fields i f j h.1 at_i l

-- When `reg` returns a value, the bits of every field stand at its offset in it: no field, earlier
-- or later, overwrites another.
pub reg_reads :
    (fields : List Field) (v i : ℕ) (f : Field) (j : ℕ)
    → reg fields ≡ some v
    → get_elem? fields i ≡ some f
    → j < f.width
    → bit v (f.shift + j) ≡ bit f.val j
unfolding reg
reg_reads fields v i f j e at_i l =
    Holds-at v fields i f j (loop-Holds fields 0 0 v e (λ k. omega arith)) at_i l

-- When `reg` returns a value, every position outside the fields is 0 in it.
reg-Outside : (fields : List Field) (v k : ℕ) → reg fields ≡ some v → Outside k fields → bit v k ≡ 0
unfolding reg
reg-Outside fields v k e o = Outside-kept fields 0 0 v k e o ∙ bit_of_zero k
