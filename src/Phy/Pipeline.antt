-- ===== src/Phy/Pipeline.antt =====
-- `CommandsPipeline` of litedram/phy/utils.py, with its `ConstBitSlip`s, for one line of the pads, CS
-- or a bit of CA, that has one bit for each phase, and without the extended check of overlaps. A word
-- is a function from the index of a bit.
pub mod Placed
use litedram.Base.{
  ℕ, zero, suc, ◌+◌, ◌-◌, ◌<◌, Bool, true, false, not, ◌&&◌, ◌||◌, ltb, if◌then◌else◌,
}

-- The phases, which are also the bits of the output, and how many phases before one are checked,
-- `cmd_nphases_span - 1`.
pub record Settings : Type 0 where
  pub nphases : ℕ
  pub n_previous : ℕ

-- The adapters of one controller cycle: by phase, `valid` and the bits of the line.
pub record Adapters : Type 0 where
  pub valid : ℕ → Bool
  pub bits : ℕ → ℕ → Bool

-- `reg` of `valids`, and by phase the older and the newer word of its bitslip.
pub record Pipeline : Type 0 where
  pub valids : ℕ → Bool
  pub older : ℕ → ℕ → Bool
  pub newer : ℕ → ℕ → Bool

-- `reduce(or_, f[a:a+n])`.
abbrev pub any : (ℕ → Bool) → (a n : ℕ) → Bool
any f a zero = false
any f a (suc n) = any f a n || f (a + n)

-- `valids.r`: the valids of the cycle before, then those of this one.
unfoldable pub valids_hist : Settings → Adapters → Pipeline → ℕ → Bool
valids_hist g i s k = if ltb k g.nphases then s.valids k else i.valid (k - g.nphases)

-- No command on the phases before.
unfoldable pub allowed : Settings → Adapters → Pipeline → ℕ → Bool
unfolding valids_hist
allowed g i s phase = not (any (valids_hist g i s) (g.nphases + phase - g.n_previous) g.n_previous)

unfoldable pub step : Settings → Adapters → Pipeline → Pipeline
unfolding allowed
step g i s = record {
  valids = i.valid;
  older = s.newer;
  newer = λ phase k. allowed g i s phase && i.bits phase k;
}

-- Bit `j` of the output of a phase's bitslip: `r[nphases - phase + j]`.
unfoldable pub slipped : Settings → Pipeline → (j phase : ℕ) → Bool
slipped g s j phase =
    if ltb j phase then s.older phase (g.nphases - phase + j) else s.newer phase (j - phase)

-- `reduce(or_, cs_per_adapter)`.
unfoldable pub output : Settings → Pipeline → ℕ → Bool
unfolding slipped
output g s j = any (slipped g s j) 0 g.nphases
