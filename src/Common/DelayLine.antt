-- ===== src/Common/DelayLine.antt =====
-- Registers in a row: `TappedDelayLine` of litedram/common.py, and the delays of the data handshakes
-- in litedram/core/crossbar.py, which may have no register.
use litedram.Base.{
  ℕ, zero, suc, ◌≡◌, refl, sym, ap, ◌∙◌, arith, List, [], ◌∷◌, ◌++◌, take, replicate, after, nth,
  take_all, take-cons-take, nth-take, nth-append_default,
}

module _ {A : Type 0} (reset : A) (ntaps : ℕ) where
  -- The registers, the first one first.
  unfoldable pub step : A → List A → List A
  step input taps = take ntaps (input ∷ taps)

  unfoldable pub run : List A → List A
  unfolding step
  run h = after step (replicate ntaps reset) h

  -- The last register, or the input where there is none.
  unfoldable pub output : A → List A → A
  output input taps = nth reset (input ∷ taps) ntaps

  run-take : (h : List A) → run h ≡ take ntaps (h ++ replicate ntaps reset)
  unfolding run step
  run-take [] = sym (take_all ntaps reset)
  run-take (x ∷ h) = ap (λ t. take ntaps (x ∷ t)) (run-take h) ∙ take-cons-take ntaps x _

  nth-cons-take : (x : A) (n : ℕ) (xs : List A) → nth reset (x ∷ take n xs) n ≡ nth reset (x ∷ xs) n
  nth-cons-take x zero xs = refl
  nth-cons-take x (suc n) xs = nth-take reset xs (suc n) n (omega arith)

  -- The output is the input of `ntaps` cycles before, and the reset value where the history is
  -- shorter.
  output-nth : (x : A) (h : List A) → output x (run h) ≡ nth reset (x ∷ h) ntaps
  unfolding output
  output-nth x h =
      ap (λ t. nth reset (x ∷ t) ntaps) (run-take h)
      ∙ nth-cons-take x ntaps _
      ∙ nth-append_default reset (x ∷ h) ntaps ntaps
