-- ===== src/Init/Electrical.antt =====
-- The electrical settings by name, and settings with a default (`getattr(phy_settings, …, …)`).
use litedram.Base.{ℕ, Option, none, some}

-- "disabled", "high-z", or a number of ohms.
pub data Impedance : Type 0 where
  disabled high_z : Impedance
  ohm : ℕ → Impedance

abbrev pub get_or {ℓ} : {A : Type ℓ} → Option A → A → A
get_or none d = d
get_or (some a) d = a
