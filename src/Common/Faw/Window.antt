-- ===== src/Common/Faw/Window.antt =====
-- At most four activates in any `tfaw` cycles, and no more waiting than that takes.
use native.Mathlib.Nat.{mod-eq_of_lt}
use native.Mathlib.Decide.{dec_le}
use litedram.Base.{
  ℕ, zero, suc, ◌+◌, ◌^◌, ◌≤◌, ◌<◌, ◌≡◌, refl, sym, ap, ◌∙◌, arith, Bool, true, false, some, List,
  [], ◌∷◌, ◌++◌, take, replicate, popcount, length-take-le, take-cons-take, take_all,
  popcount-le-length,
}
use litedram.Common.Faw.{next_ready, run}

-- A history of `valid` inputs in which each activate was made while `ready` was high.
abbrev pub Guarded : ℕ → ℕ → List Bool → Type 0
Guarded tfaw w [] = Unit
Guarded tfaw w (v ∷ h) = (v ≡ true → (run (some tfaw) w h).ready ≡ true) × Guarded tfaw w h

popcount-take-nil : (n : ℕ) → popcount (take n []) ≡ 0
popcount-take-nil zero = refl
popcount-take-nil (suc n) = refl

popcount-take-zeros :
    (n m : ℕ) (h : List Bool) → popcount (take n (h ++ replicate m false)) ≡ popcount (take n h)
popcount-take-zeros zero m h = refl
popcount-take-zeros (suc n) zero [] = refl
popcount-take-zeros (suc n) (suc m) [] = popcount-take-zeros n m [] ∙ popcount-take-nil n
popcount-take-zeros (suc n) m (true ∷ h) = ap suc (popcount-take-zeros n m h)
popcount-take-zeros (suc n) m (false ∷ h) = popcount-take-zeros n m h

-- The window is the history's last `tfaw` cycles.
window-take :
    (tfaw w : ℕ) (h : List Bool)
    → (run (some tfaw) w h).window ≡ take tfaw (h ++ replicate tfaw false)
unfolding run
window-take tfaw w [] = sym (take_all tfaw false)
window-take tfaw w (v ∷ h) =
    ap (λ t. take tfaw (v ∷ t)) (window-take tfaw w h) ∙ take-cons-take tfaw v _

popcount-window :
    (tfaw w : ℕ) (h : List Bool) → popcount (run (some tfaw) w h).window ≡ popcount (take tfaw h)
popcount-window tfaw w h = ap popcount (window-take tfaw w h) ∙ popcount-take-zeros tfaw tfaw h

take-suc_le : (n : ℕ) (h : List Bool) → popcount (take n h) ≤ popcount (take (suc n) h)
take-suc_le zero h = omega arith
take-suc_le (suc n) [] = omega arith
take-suc_le (suc n) (true ∷ h) = omega (arith, take-suc_le n h)
take-suc_le (suc n) (false ∷ h) = omega (arith, take-suc_le n h)

-- What holds of the count of a window and of `ready`.
record Limits (tfaw w : ℕ) (h : List Bool) : Type 0 where
  at_most_four : popcount (take tfaw h) ≤ 4
  four_blocks : popcount (take tfaw h) ≡ 4 → (run (some tfaw) w h).ready ≡ false
  blocked_four : (run (some tfaw) w h).ready ≡ false → 4 ≤ popcount (take (suc tfaw) h)

next_ready_lem :
    (c : ℕ) (v r : Bool)
    → c ≤ 4
    → (c ≡ 4 → r ≡ false)
    → (v ≡ true → r ≡ true)
    → (popcount (v ∷ []) + c ≤ 4)
      × (popcount (v ∷ []) + c ≡ 4 → next_ready c v r ≡ false)
      × (next_ready c v r ≡ false → 4 ≤ popcount (v ∷ []) + c)
unfolding next_ready
next_ready_lem c true r small full guard = ground arith
next_ready_lem c false r small full guard = ground arith

run-ready :
    (tfaw w : ℕ) (v : Bool) (h : List Bool)
    → popcount (take tfaw h) < 2 ^ w
    → (run (some tfaw) w (v ∷ h)).ready
      ≡ next_ready (popcount (take tfaw h)) v (run (some tfaw) w h).ready
unfolding run
run-ready tfaw w v h fits = rw (popcount-window tfaw w h, mod-eq_of_lt fits)

popcount-cons : (v : Bool) (bs : List Bool) → popcount (v ∷ bs) ≡ popcount (v ∷ []) + popcount bs
popcount-cons true bs = omega arith
popcount-cons false bs = omega arith

Limits-cons :
    (tfaw w : ℕ) (v : Bool) (h : List Bool)
    → 5 ≤ tfaw
    → tfaw ≤ 2 ^ w
    → (v ≡ true → (run (some tfaw) w h).ready ≡ true)
    → Limits tfaw w h
    → Limits tfaw w (v ∷ h)
Limits-cons tfaw w v h big fits guard ih = record {
  at_most_four = omega (arith, grow, split, next.0);
  four_blocks = λ e. now ∙ next.1 (omega (arith, grow, split, next.0));
  blocked_four = λ e. omega (arith, split, next.2 (sym now ∙ e));
}
  where
    next :
        (popcount (v ∷ []) + popcount (take tfaw h) ≤ 4)
        × (popcount (v ∷ []) + popcount (take tfaw h) ≡ 4
            → next_ready (popcount (take tfaw h)) v (run (some tfaw) w h).ready ≡ false)
        × (next_ready (popcount (take tfaw h)) v (run (some tfaw) w h).ready ≡ false
            → 4 ≤ popcount (v ∷ []) + popcount (take tfaw h))
    next = next_ready_lem (popcount (take tfaw h)) v _ ih.at_most_four ih.four_blocks guard

    split : popcount (take (suc tfaw) (v ∷ h)) ≡ popcount (v ∷ []) + popcount (take tfaw h)
    split = popcount-cons v (take tfaw h)

    grow : popcount (take tfaw (v ∷ h)) ≤ popcount (take (suc tfaw) (v ∷ h))
    grow = take-suc_le tfaw (v ∷ h)

    now :
        (run (some tfaw) w (v ∷ h)).ready
        ≡ next_ready (popcount (take tfaw h)) v (run (some tfaw) w h).ready
    now = run-ready tfaw w v h (omega (arith, ih.at_most_four))

Limits-of_Guarded :
    (tfaw w : ℕ) (h : List Bool) → 5 ≤ tfaw → tfaw ≤ 2 ^ w → Guarded tfaw w h → Limits tfaw w h
Limits-of_Guarded tfaw w [] big fits g = record {
  at_most_four = omega (arith, popcount-take-nil tfaw);
  four_blocks = λ e. absurd (omega (arith, popcount-take-nil tfaw));
  blocked_four = λ e. unfold run in cc;
}
Limits-of_Guarded tfaw w (v ∷ h) big fits g =
    Limits-cons tfaw w v h big fits g.0 (Limits-of_Guarded tfaw w h big fits g.1)

-- For a `tfaw` that the count's width holds, if each activate was made while `ready` was high,
-- the last `tfaw` cycles hold at most four.
pub at_most_four_activates :
    (tfaw w : ℕ) (h : List Bool) → tfaw ≤ 2 ^ w → Guarded tfaw w h → popcount (take tfaw h) ≤ 4
at_most_four_activates tfaw w h fits g = elim (dec_le 5 tfaw) [
  | yes big ↦ (Limits-of_Guarded tfaw w h big fits g).at_most_four
  | no small ↦ omega (arith, popcount-le-length (take tfaw h), length-take-le tfaw h)
]

-- For a `tfaw` of at least 5 that the count's width holds, if each activate was made while
-- `ready` was high, `ready` is low only when the last `tfaw + 1` cycles hold at least four.
blocked-four_activates :
    (tfaw w : ℕ) (h : List Bool)
    → 5 ≤ tfaw
    → tfaw ≤ 2 ^ w
    → Guarded tfaw w h
    → (run (some tfaw) w h).ready ≡ false
    → 4 ≤ popcount (take (suc tfaw) h)
blocked-four_activates tfaw w h big fits g = (Limits-of_Guarded tfaw w h big fits g).blocked_four
