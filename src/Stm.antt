-- ===== src/Stm.antt =====
-- rm_server_stm.hpp: the mixing state machine of a server, one for each session.
pub mod State
pub mod Batch
pub mod Opening
pub mod Compute
pub mod Handler
pub mod Execute
pub mod Progress
mod Rounds
pub mod Returns
mod Tables
mod Swaps
mod Messages
mod Orders
mod Faults
pub mod Kept
mod Cleared
mod Late
pub mod Samples
mod Tests
