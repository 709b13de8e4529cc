-- ===== src/Core.antt =====
-- litedram/core: the DRAM controller.
pub mod Bandwidth
pub mod BankMachine
pub mod Crossbar
pub mod Multiplexer
pub mod Refresher
