-- ===== src/Phy.antt =====
-- litedram/phy and litedram/dfii.py: the DFI, and the commands of LPDDR4 and LPDDR5.
pub mod Wires
pub mod Dfi
pub mod Lpddr4
pub mod Lpddr5
pub mod PulseTiming
pub mod Pipeline
