-- ===== src/Audio.antt =====
-- core/aurorix-audio: the blocks of PCM, the bounded handoff between a worker and the callback.
pub mod Pcm
pub mod Buffer
pub mod Signals
pub mod ClockPublisher
pub mod Realtime
mod Examples
