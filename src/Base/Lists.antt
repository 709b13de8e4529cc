-- ===== src/Base/Lists.antt =====
-- Lists measured and indexed by native numbers, under the library's names.
use Prim.Native.Nat.{ℕ, zero, suc, ◌+◌, ◌≤◌, ◌<◌}
use mathlib.Core.Path.{◌≡◌, refl, ap}
use mathlib.Core.Bool.{Bool, true, false}
use mathlib.Core.List.{List, [], ◌∷◌, ◌++◌}
use mathlib.Core.Option.{Option, none, some}
use native.Mathlib.Omega.{arith}

module _ {ℓ} {A : Type ℓ} where
  abbrev pub length : List A → ℕ
  length [] = 0
  length (x ∷ xs) = suc (length xs)

  abbrev pub get_elem? : List A → ℕ → Option A
  get_elem? [] i = none
  get_elem? (x ∷ xs) zero = some x
  get_elem? (x ∷ xs) (suc i) = get_elem? xs i

  abbrev pub take : ℕ → List A → List A
  take zero xs = []
  take (suc n) [] = []
  take (suc n) (x ∷ xs) = x ∷ take n xs

  abbrev pub drop : ℕ → List A → List A
  drop zero xs = xs
  drop (suc n) [] = []
  drop (suc n) (x ∷ xs) = drop n xs

  abbrev pub tail : List A → List A
  tail [] = []
  tail (x ∷ xs) = xs

  abbrev pub replicate : ℕ → A → List A
  replicate zero a = []
  replicate (suc n) a = a ∷ replicate n a

  pub length-append : (xs ys : List A) → length (xs ++ ys) ≡ length xs + length ys
  length-append [] ys = omega arith
  length-append (x ∷ xs) ys = omega (arith, length-append xs ys)

  pub length-replicate : (n : ℕ) (a : A) → length (replicate n a) ≡ n
  length-replicate zero a = refl
  length-replicate (suc n) a = ap suc (length-replicate n a)

pub length-take-le {ℓ} : {A : Type ℓ} (n : ℕ) (xs : List A) → length (take n xs) ≤ n
length-take-le zero xs = omega arith
length-take-le (suc n) [] = omega arith
length-take-le (suc n) (x ∷ xs) = omega (arith, length-take-le n xs)

pub take-take-suc {ℓ} : {A : Type ℓ} (k : ℕ) (ys : List A) → take k (take (suc k) ys) ≡ take k ys
take-take-suc zero ys = refl
take-take-suc (suc k) [] = refl
take-take-suc (suc k) (y ∷ ys) = ap (λ t. y ∷ t) (take-take-suc k ys)

pub take-cons-take {ℓ} :
    {A : Type ℓ} (n : ℕ) (x : A) (xs : List A) → take n (x ∷ take n xs) ≡ take n (x ∷ xs)
take-cons-take zero x xs = refl
take-cons-take (suc n) x xs = ap (λ t. x ∷ t) (take-take-suc n xs)

pub take_all {ℓ} : {A : Type ℓ} (n : ℕ) (x : A) → take n (replicate n x) ≡ replicate n x
take_all zero x = refl
take_all (suc n) x = ap (λ t. x ∷ t) (take_all n x)

-- The entry at an index, or a default beyond the end.
abbrev pub nth {ℓ} : {A : Type ℓ} → A → List A → ℕ → A
nth d [] i = d
nth d (x ∷ xs) zero = x
nth d (x ∷ xs) (suc i) = nth d xs i

pub nth-replicate {ℓ} : {A : Type ℓ} (d : A) (n i : ℕ) → nth d (replicate n d) i ≡ d
nth-replicate d zero i = refl
nth-replicate d (suc n) zero = refl
nth-replicate d (suc n) (suc i) = nth-replicate d n i

pub nth-append_default {ℓ} :
    {A : Type ℓ} (d : A) (xs : List A) (n i : ℕ) → nth d (xs ++ replicate n d) i ≡ nth d xs i
nth-append_default d [] n i = nth-replicate d n i
nth-append_default d (x ∷ xs) n zero = refl
nth-append_default d (x ∷ xs) n (suc i) = nth-append_default d xs n i

pub nth-take {ℓ} :
    {A : Type ℓ} (d : A) (xs : List A) (n i : ℕ) → i < n → nth d (take n xs) i ≡ nth d xs i
nth-take d xs zero i h = absurd (omega arith)
nth-take d [] (suc n) i h = refl
nth-take d (x ∷ xs) (suc n) zero h = refl
nth-take d (x ∷ xs) (suc n) (suc i) h = nth-take d xs n i (omega arith)

-- The number of true entries.
abbrev pub popcount : List Bool → ℕ
popcount [] = 0
popcount (true ∷ bs) = suc (popcount bs)
popcount (false ∷ bs) = popcount bs

pub popcount-le-length : (bs : List Bool) → popcount bs ≤ length bs
popcount-le-length [] = omega arith
popcount-le-length (true ∷ bs) = omega (arith, popcount-le-length bs)
popcount-le-length (false ∷ bs) = omega (arith, popcount-le-length bs)

pub popcount-replicate : (n : ℕ) → popcount (replicate n false) ≡ 0
popcount-replicate zero = refl
popcount-replicate (suc n) = popcount-replicate n
