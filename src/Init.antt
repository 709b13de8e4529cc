-- ===== src/Init.antt =====
-- litedram/init.py: the mode registers and the initialization sequences.
pub mod Register
pub mod Table
pub mod Sequence
pub mod Load
pub mod Electrical
pub mod Ddr3
pub mod Ddr4
pub mod Legacy
pub mod Lpddr4
pub mod Lpddr5
