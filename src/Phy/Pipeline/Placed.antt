-- ===== src/Phy/Pipeline/Placed.antt =====
-- Where the pipeline puts the bits of a command.
use litedram.Base.{
  ℕ, zero, suc, ◌+◌, ◌-◌, ◌≤◌, ◌<◌, ◌≡◌, ◌≢◌, refl, ap, ◌∙◌, arith, Bool, true, false, not, ltb,
  if◌then◌else◌, inl, inr, Bool-cases,
}
use native.Mathlib.Decide.{dec_lt}
use litedram.Phy.Pipeline.{
  Settings, Adapters, Pipeline, any, valids_hist, allowed, step, slipped, output,
}

any-member : (f : ℕ → Bool) (a n k : ℕ) → a ≤ k → k < a + n → f k ≡ true → any f a n ≡ true
any-member f a zero k l h e = absurd (omega arith)
any-member f a (suc n) k l h e = ground (arith, any-member f a n k)

-- All but one are false.
any_none : (f : ℕ → Bool) (n : ℕ) → ((q : ℕ) → q < n → f q ≡ false) → any f 0 n ≡ false
any_none f zero h = refl
any_none f (suc n) h = rw (any_none f n (λ q l. h q (omega arith))) (h (0 + n) (omega arith))

any-single :
    (f : ℕ → Bool) (n p : ℕ) → p < n → ((q : ℕ) → q < n → q ≢ p → f q ≡ false) → any f 0 n ≡ f p
any-single f zero p l h = absurd (omega arith)
any-single f (suc n) p l h = elim (dec_lt p n) [
  | yes k ↦
      let rest = any-single f n p k (λ q a. h q (omega arith)) in
      let out : f (0 + n) ≡ false = h (0 + n) (omega arith) (λ e. absurd (omega (arith, e))) in
      ground (arith, rest, out)
  | no k ↦
      let last : 0 + n ≡ p = omega arith in
      let rest = any_none f n (λ q a. h q (omega arith) (λ e. absurd (omega (arith, e)))) in
      rw rest (ap f last)
]

-- A phase without a command drives nothing, and a command has no more bits than it spans phases.
pub record WellFormed (g : Settings) (i : Adapters) : Type 0 where
  pub silent : (q k : ℕ) → i.valid q ≡ false → i.bits q k ≡ false
  pub short : (q k : ℕ) → g.n_previous < k → i.bits q k ≡ false

-- The line as it is serialized in the cycles after the words of `i` and after those of `i1`.
abbrev pub serial : Settings → Pipeline → Pipeline → ℕ → Bool
unfolding output
serial g s s1 t = if ltb t g.nphases then output g s t else output g s1 (t - g.nphases)

-- A command on the phases before keeps a phase from sending, and a phase that may send has none.
blocked :
    (g : Settings) (i : Adapters) (s : Pipeline) (q k : ℕ)
    → g.n_previous < g.nphases
    → g.nphases + q ≤ k + g.n_previous
    → k < g.nphases + q
    → valids_hist g i s k ≡ true
    → allowed g i s q ≡ false
unfolding allowed
blocked g i s q k m a b e = ap not (
    any-member (valids_hist g i s) (g.nphases + q - g.n_previous) g.n_previous k (omega arith)
      (omega arith) e)

free :
    (g : Settings) (i : Adapters) (s : Pipeline) (p k : ℕ)
    → g.n_previous < g.nphases
    → g.nphases + p ≤ k + g.n_previous
    → k < g.nphases + p
    → allowed g i s p ≡ true
    → valids_hist g i s k ≡ false
free g i s p k m a b e = elim (Bool-cases (valids_hist g i s k)) [
  | inl t ↦ ground (arith, blocked g i s p k m a b t)
  | inr f ↦ f
]

slipped-lt :
    (g : Settings) (s : Pipeline) (j q : ℕ)
    → j < q
    → slipped g s j q ≡ s.older q (g.nphases - q + j)
unfolding slipped
slipped-lt g s j q h = ground arith

slipped-ge :
    (g : Settings) (s : Pipeline) (j q : ℕ) → ¬ (j < q) → slipped g s j q ≡ s.newer q (j - q)
unfolding slipped
slipped-ge g s j q h = ground arith

module _ (g : Settings) (i0 i i1 : Adapters) (s0 : Pipeline) (p e : ℕ) where
  s : Pipeline
  unfolding step
  s = step g i0 s0

  s1 : Pipeline
  unfolding step s
  s1 = step g i s

  s2 : Pipeline
  unfolding step s1
  s2 = step g i1 s1

  -- The words of the cycle before.
  before :
      (q k : ℕ)
      → WellFormed g i0
      → g.n_previous < g.nphases
      → q < g.nphases
      → g.nphases + p ≤ q + k
      → allowed g i s p ≡ true
      → s.newer q k ≡ false
  unfolding s step valids_hist
  before q k w m l a ok = elim (dec_lt g.n_previous k) [
    | yes long ↦ ground (arith, w.short q k long)
    | no fits ↦
        let h = free g i s p q m (omega arith) (omega arith) ok in ground (arith, w.silent q k)
  ]

  -- The other words of the same cycle.
  beside :
      (q k : ℕ)
      → WellFormed g i
      → g.n_previous < g.nphases
      → q + k ≡ p + e
      → e ≤ g.n_previous
      → q ≢ p
      → i.valid p ≡ true
      → allowed g i s p ≡ true
      → s1.newer q k ≡ false
  unfolding s1 step valids_hist
  beside q k w m t short ne v ok = elim (dec_lt g.n_previous k) [
    | yes long ↦ ground (arith, w.short q k long)
    | no fits ↦ elim (dec_lt q p) [
      | yes l ↦
          let h = free g i s p (g.nphases + q) m (omega arith) (omega arith) ok in
          ground (arith, w.silent q k)
      | no r ↦
          let same : g.nphases + p - g.nphases ≡ p = omega arith in
          let h : valids_hist g i s (g.nphases + p) ≡ true = ground (arith, v, ap i.valid same) in
          ground (arith, blocked g i s q (g.nphases + p) m (omega arith) (omega (arith, ne)) h)
    ]
  ]

  -- The words of the cycle after.
  behind :
      (q k : ℕ)
      → g.n_previous < g.nphases
      → p < g.nphases
      → g.nphases + q + k ≡ p + e
      → e ≤ g.n_previous
      → i.valid p ≡ true
      → s2.newer q k ≡ false
  unfolding s2 s1 step valids_hist
  behind q k m l t short v =
      let h : valids_hist g i1 s1 p ≡ true = ground (arith, v) in
      ground (arith, blocked g i1 s1 q p m (omega arith) (omega arith) h)

  -- The bit of the command itself.
  itself : allowed g i s p ≡ true → s1.newer p e ≡ i.bits p e
  unfolding s1 step
  itself ok = rw ok refl

  in_this_word :
      WellFormed g i0
      → WellFormed g i
      → g.n_previous < g.nphases
      → p < g.nphases
      → p + e < g.nphases
      → e ≤ g.n_previous
      → i.valid p ≡ true
      → allowed g i s p ≡ true
      → output g s1 (p + e) ≡ i.bits p e
  unfolding output s1 step
  in_this_word w0 w m l here short v ok =
      let t = p + e in
      let others : (q : ℕ) → q < g.nphases → q ≢ p → slipped g s1 t q ≡ false = λ q a ne.
        elim (dec_lt t q) [
          | yes b ↦ slipped-lt g s1 t q b ∙ before q (g.nphases - q + t) w0 m a (omega arith) ok
          | no b ↦ slipped-ge g s1 t q b ∙ beside q (t - q) w m (omega arith) short ne v ok
        ] in
      any-single (slipped g s1 t) g.nphases p l others
      ∙ slipped-ge g s1 t p (λ b. absurd (omega (arith, b)))
      ∙ ap (s1.newer p) (let d : t - p ≡ e = omega arith in d)
      ∙ itself ok

  in_next_word :
      WellFormed g i
      → g.n_previous < g.nphases
      → p < g.nphases
      → g.nphases ≤ p + e
      → e ≤ g.n_previous
      → i.valid p ≡ true
      → allowed g i s p ≡ true
      → output g s2 (p + e - g.nphases) ≡ i.bits p e
  unfolding output s2 s1 step
  in_next_word w m l there short v ok =
      let j = p + e - g.nphases in
      let others : (q : ℕ) → q < g.nphases → q ≢ p → slipped g s2 j q ≡ false = λ q a ne.
        elim (dec_lt j q) [
          | yes b ↦
              slipped-lt g s2 j q b ∙ beside q (g.nphases - q + j) w m (omega arith) short ne v ok
          | no b ↦ slipped-ge g s2 j q b ∙ behind q (j - q) m l (omega arith) short v
        ] in
      any-single (slipped g s2 j) g.nphases p l others
      ∙ slipped-lt g s2 j p (omega arith)
      ∙ ap (s1.newer p) (let d : g.nphases - p + j ≡ e = omega arith in d)
      ∙ itself ok

-- A command that is valid and allowed is serialized in the phases from its own on, whatever the
-- commands of the phases around it: the pipeline puts its bit `e` in phase `p + e`, in the word of
-- its cycle or, from the last phase on, in the next one. In its cycle and in the one before, a phase
-- without a command drives nothing, and no command has more bits than the phases that are checked
-- and one.
pub serial-bits :
    (g : Settings) (i0 i i1 : Adapters) (s0 : Pipeline) (p e : ℕ)
    → WellFormed g i0
    → WellFormed g i
    → g.n_previous < g.nphases
    → p < g.nphases
    → e ≤ g.n_previous
    → i.valid p ≡ true
    → allowed g i (step g i0 s0) p ≡ true
    → serial g (step g i (step g i0 s0)) (step g i1 (step g i (step g i0 s0))) (p + e) ≡ i.bits p e
unfolding serial s s1 s2
serial-bits g i0 i i1 s0 p e w0 w m l short v ok = elim (dec_lt (p + e) g.nphases) [
  | yes here ↦
      let t : ltb (p + e) g.nphases ≡ true = ground arith in
      rw t (in_this_word g i0 i i1 s0 p e w0 w m l here short v ok)
  | no there ↦
      let f : ltb (p + e) g.nphases ≡ false = ground arith in
      rw f (in_next_word g i0 i i1 s0 p e w m l (omega arith) short v ok)
]
