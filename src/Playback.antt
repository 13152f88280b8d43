-- ===== src/Playback.antt =====
-- core/aurorix-playback: the session, its request ledger, its clock, the queues, the transitions and the failures.
pub mod Command
pub mod Requests
pub mod Clock
pub mod Session
pub mod Shuffle
pub mod Queue
pub mod Policy
pub mod Transition
pub mod Failure
mod Examples
