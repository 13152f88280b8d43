-- ===== src/Playback/Examples.antt =====
-- Tests of the playback models, and their theorems at concrete inputs.
pub mod Ledger
pub mod Timeline
mod Sessions
pub mod Queues
mod Policies
mod Transitions
mod Failures
