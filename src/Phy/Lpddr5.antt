-- ===== src/Phy/Lpddr5.antt =====
-- The commands of LPDDR5: litedram/phy/lpddr5.
pub mod Commands
pub mod Sim
pub mod Chip
pub mod Cycle
pub mod Decoded
pub mod Bringup
