-- ===== src/Playback/Queue.antt =====
-- core/aurorix-playback/src/queue.rs, `PlaybackQueue`: the ordered queue and its playback policy. A method
-- returns its result and the queue as it leaves it, also where it fails.
mod State
mod Editing
mod Stepping
pub mod Order
pub mod Changes
pub mod Invariant
pub mod Selections
pub mod Runs
pub mod Navigation
pub mod Items
pub mod Edits
unfoldable pub use State.*
unfoldable pub use Editing.*
unfoldable pub use Stepping.*
