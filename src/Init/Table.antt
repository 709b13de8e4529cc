-- ===== src/Init/Table.antt =====
-- Python dictionaries from numbers to numbers, as association lists; a missing key is `none`.
use litedram.Base.{
  ℕ, zero, suc, ◌<◌, ◌≡◌, refl, arith, Bool, true, ◌&&◌, Option, none, some, List, [], ◌∷◌, ◌==◌,
  if◌then◌else◌,
}

abbrev pub Table : Type 0
Table = List (ℕ × ℕ)

unfoldable pub lookup : ℕ → Table → Option ℕ
lookup k [] = none
lookup k ((j, v) ∷ t) = if k == j then some v else lookup k t

-- A test holds at every entry.
unfoldable pub every : (ℕ → ℕ → Bool) → Table → Bool
every p [] = true
every p ((k, v) ∷ t) = p k v && every p t

pub every-lookup :
    (p : ℕ → ℕ → Bool) (t : Table) (k v : ℕ) → every p t ≡ true → lookup k t ≡ some v → p k v ≡ true
unfolding lookup every
every-lookup p [] k v a e = cc
every-lookup p ((j, w) ∷ t) k v a e = ground (arith, every-lookup p t k v)

-- A test holds at every number below a bound.
unfoldable pub below : ℕ → (ℕ → Bool) → Bool
below zero p = true
below (suc n) p = p n && below n p

pub below_lem : (n : ℕ) (p : ℕ → Bool) (x : ℕ) → below n p ≡ true → x < n → p x ≡ true
unfolding below
below_lem zero p x h l = absurd (omega arith)
below_lem (suc n) p x h l = ground (arith, below_lem n p x)

infixl 5 ◌>>=◌
abbrev pub ◌>>=◌ {ℓ κ} : {A : Type ℓ} {B : Type κ} → Option A → (A → Option B) → Option B
none >>= f = none
some a >>= f = f a

-- Inversion of a chain that returns a value.
pub >>=-eq-some {ℓ κ} :
    {A : Type ℓ} {B : Type κ} (m : Option A) (f : A → Option B) {b : B}
    → (m >>= f) ≡ some b
    → (a : A) × (m ≡ some a) × (f a ≡ some b)
>>=-eq-some none f h = cc
>>=-eq-some (some a) f h = (a, refl, h)
