-- ===== src/Playback/Session/Invariant.antt =====
-- core/aurorix-playback/src/session.rs: the invariant of the session.
pub mod Recorded
pub mod Started
pub mod Cancelled
pub mod Commands
pub mod Events
use aurorix_music.Prelude.{ℕ, ◌≤◌, ◌<◌, ◌≡◌, Bool, true, false, Option, none, some, is_some, ◌⊎◌}
use aurorix_music.Prelude.Word.{u64_max}
use aurorix_music.Playback.Command.{OperationToken, PlaybackAction}
use aurorix_music.Playback.Requests.{RequestTracker}
use aurorix_music.Playback.Requests.Invariant
use aurorix_music.Playback.Requests.Invariant.{IsLive}
use aurorix_music.Playback.Clock.Timeline
use aurorix_music.Playback.Session.State.{
  SessionState, loading, buffering, paused, WorkerEvent, PendingOperation, pending_token,
  PlaybackSession,
}
use aurorix_music.Playback.Session.Dispatch.{is_empty, is_paused}

-- A pending operation carries the session's generation, excludes an active token, and is live in the
-- ledger. (At the last generation a command that cannot take the next one leaves the ledger ahead.)
abbrev pub PendingFits : PlaybackSession → Option PendingOperation → Type 0
PendingFits s none = Unit {0}
PendingFits s (some p) =
    ((pending_token p).buffer_generation ≡ s.buffer_generation)
    × (s.active_token ≡ none)
    × (s.buffer_generation < u64_max → IsLive s.requests (pending_token p))

abbrev pub ActiveFits : PlaybackSession → Option OperationToken → Type 0
ActiveFits s none = Unit {0}
ActiveFits s (some t) =
    (t.buffer_generation ≡ s.buffer_generation) × (is_some s.current_item ≡ true)

-- The states in which each operation can be pending.
abbrev pub StateFits : SessionState → Option PendingOperation → Type 0
StateFits st none = Unit {0}
StateFits st (some (PendingOperation.play _ _)) = (st ≡ loading) ⊎ (st ≡ buffering)
StateFits st (some (PendingOperation.resume _)) = st ≡ buffering
StateFits st (some (PendingOperation.seek _ position prior _)) =
    ((is_paused prior ≡ true) × (st ≡ paused) ⊎ (is_paused prior ≡ false) × (st ≡ buffering))
    × (position ≤ u64_max)

pub record IsValid (s : PlaybackSession) : Type 0 where
  pub ledger : Invariant.IsValid s.requests
  pub timeline : Timeline.IsValid s.clock
  pub version_word : s.state_version ≤ u64_max
  pub generation_word : s.buffer_generation ≤ u64_max
  pub pending_fits : PendingFits s s.pending
  pub active_fits : ActiveFits s s.active_token
  pub state_fits : StateFits s.state s.pending
  pub selected : is_empty s.state ≡ false → is_some s.current_item ≡ true

-- The arguments of a command and of an event are machine words.
abbrev pub ActionIsWord : PlaybackAction → Type 0
ActionIsWord (PlaybackAction.seek position) = position ≤ u64_max
ActionIsWord _ = Unit {0}
