-- ===== src/Phy/Lpddr4.antt =====
-- The commands of LPDDR4: litedram/phy/lpddr4.
pub mod Commands
pub mod Sim
pub mod Chip
pub mod Decoded
pub mod Bringup
pub mod Data
