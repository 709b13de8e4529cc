-- ===== src/Common.antt =====
-- litedram/common.py: the timing controllers that the controller's parts share.
pub mod Txxd
pub mod DelayLine
pub mod Faw
pub mod Port
pub mod BitSlip
