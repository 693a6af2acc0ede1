-- ===== src/Transfer.antt =====
-- transfer/transfer_executor.hpp and transfer_executor.cpp: the executor of transfers.
pub mod Mirror
pub mod MirrorTick
pub mod Delivery
pub mod Candidates
pub mod Victims
pub mod Work
pub mod Progress
pub mod Sound
pub mod Steps
pub mod Rails
pub mod State
pub mod Submit
pub mod Control
pub mod Tick
pub mod Drain
