-- ===== src/Playback/Session.antt =====
-- core/aurorix-playback/src/session.rs: the playback-session state machine.
pub mod State
pub mod Steps
pub mod Dispatch
pub mod Worker
pub mod Invariant
pub mod Runs
pub mod Growth
pub mod Once
pub mod Position
pub mod Progress
pub mod Fence
