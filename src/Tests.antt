-- ===== src/Tests.antt =====
-- Runs of the models on concrete inputs, and the theorems applied to such inputs.
mod Timings
mod BankMachine
mod Multiplexer
mod Refresher
mod Bandwidth
mod Init
mod Frontend
mod Crossbar
mod Bist
mod Modules
mod Lpddr
mod Pipeline
