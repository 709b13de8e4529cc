-- ===== src/Init/Load.antt =====
-- The steps that load a table of mode registers, and what they leave in any chip that obeys them.
use litedram.Base.{
  ℕ, ◌<◌, ◌^◌, ◌≡◌, refl, ap, ◌∙◌, arith, Bool, Option, none, some, List, [], ◌∷◌, ◌++◌, ◌==◌,
  if◌then◌else◌, inl, inr, Option-cases,
}
use litedram.Init.Electrical.{get_or}
use litedram.Init.Table.{Table}
use litedram.Init.Sequence.{Step, Cmd, at, mode_register, loaded}

abbrev pub steps_of : Table → List Step
steps_of [] = []
steps_of ((ma, op) ∷ mr) = at op ma mode_register 200 ∷ steps_of mr

-- Addresses and values that pass the assertions of `cmd_mr`, for an address of `w` bits.
abbrev pub Fits : ℕ → Table → Type 0
Fits w [] = Unit
Fits w ((ma, op) ∷ mr) = (ma < 2 ^ w) × (op < 2 ^ 8) × Fits w mr

-- The addresses are those of 64 registers.
abbrev pub Addresses : Table → Type 0
Addresses [] = Unit
Addresses ((ma, op) ∷ mr) = (ma < 64) × Addresses mr

-- Steps that load no register change nothing.
pub loaded-append :
    (k : ℕ) (steps others : List Step)
    → loaded k others ≡ none
    → loaded k (steps ++ others) ≡ loaded k steps
unfolding loaded
loaded-append k [] others e = e
loaded-append k (s ∷ ss) others e = rw (loaded-append k ss others e) refl

pub loaded-control :
    (k a ba delay : ℕ) (cke odt reset_n : Bool) (ss : List Step)
    → loaded k (at a ba (Cmd.control cke odt reset_n) delay ∷ ss) ≡ loaded k ss
unfolding loaded
loaded-control k a ba delay cke odt reset_n ss = elim (Option-cases (loaded k ss)) [
  | inl e ↦ rw e refl
  | inr (v, e) ↦ rw e refl
]

last_write :
    (o : Option ℕ) (f : ℕ → ℕ) (ma op k : ℕ)
    → get_or o (if k == ma then op else f k)
      ≡ get_or (elim o [ some v ↦ some v | none ↦ if ma == k then some op else none ]) (f k)
last_write (some v) f ma op k = refl
last_write none f ma op k = ground arith

-- A chip with a view `V` of it and what a register write does to the view.
module _ {V : Type 0} (load : ℕ → ℕ → V → V) where
  abbrev pub load_table : Table → V → V
  load_table [] v = v
  load_table ((ma, op) ∷ mr) v = load_table mr (load ma op v)

  -- Each register has the value that is loaded last.
  pub load_table-loaded :
      (regs : V → ℕ → ℕ)
      → ((ma op k : ℕ) (v : V)
          → ma < 64
          → regs (load ma op v) k ≡ (if k == ma then op else regs v k))
      → (mr : Table) (v : V) (k : ℕ) → Addresses mr
      → regs (load_table mr v) k ≡ get_or (loaded k (steps_of mr)) (regs v k)
  unfolding loaded
  load_table-loaded regs writes [] v k a = refl
  load_table-loaded regs writes ((ma, op) ∷ mr) v k a =
      load_table-loaded regs writes mr (load ma op v) k a.1
      ∙ ap (get_or (loaded k (steps_of mr))) (writes ma op k v a.0)
      ∙ last_write (loaded k (steps_of mr)) (regs v) ma op k

  -- What no register write changes.
  pub load_table-keeps :
      {A : Type 0} (f : V → A)
      → ((ma op : ℕ) (v : V) → f (load ma op v) ≡ f v)
      → (mr : Table) (v : V) → f (load_table mr v) ≡ f v
  load_table-keeps f keeps [] v = refl
  load_table-keeps f keeps ((ma, op) ∷ mr) v =
      load_table-keeps f keeps mr (load ma op v) ∙ keeps ma op v

  -- A simulator that performs one write performs those of a table; `ready` is its state between two.
  pub performed-steps_of :
      {R S : Type 0} (performed : List Step → S → S) (ready : R → V → S) (w : ℕ)
      → ((ma op : ℕ) (rest : List Step) (r : R) (v : V)
          → ma < 2 ^ w
          → op < 2 ^ 8
          → (r1 : R) × (performed (at op ma mode_register 200 ∷ rest) (ready r v)
              ≡ performed rest (ready r1 (load ma op v))))
      → (mr : Table) (rest : List Step) (r : R) (v : V) → Fits w mr
      → (r1 : R) × (performed (steps_of mr ++ rest) (ready r v)
          ≡ performed rest (ready r1 (load_table mr v)))
  performed-steps_of performed ready w one [] rest r v h = (r, refl)
  performed-steps_of performed ready w one ((ma, op) ∷ mr) rest r v h =
      let (r1, first) = one ma op (steps_of mr ++ rest) r v h.0 h.1 in
      let (r2, more) = performed-steps_of performed ready w one mr rest r1 (load ma op v) h.2 in
      (r2, first ∙ more)
