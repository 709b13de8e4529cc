-- ===== src/Frontend.antt =====
-- litedram/frontend: the user's side of the controller.
pub mod SyncFifo
pub mod Dma
pub mod DramFifo
pub mod DownConverter
pub mod Bist
