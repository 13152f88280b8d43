-- ===== src/Playback/Session/State.antt =====
-- core/aurorix-playback/src/session.rs: the session's data. A variant's `token` field and the
-- like are the constructor's arguments, in the source's order.
use aurorix_music.Prelude.{ℕ, Bool, true, false, Option, some, map_option}
use aurorix_music.Playback.Command.{
  RequestId, PlaybackItemId, OperationToken, CommandResult, ResultDisposition,
}
use aurorix_music.Playback.Requests.{RequestTracker, RequestStartError}
use aurorix_music.Playback.Requests
use aurorix_music.Playback.Clock.{PresentationClock, ClockError}

pub data SessionState : Type 0 where
  empty loading buffering playing paused stopped ended failed unavailable : SessionState

-- `SessionState::is_active` and `SessionState::is_terminal`.
abbrev pub is_active : SessionState → Bool
is_active loading = true
is_active buffering = true
is_active playing = true
is_active paused = true
is_active _ = false

abbrev pub is_terminal : SessionState → Bool
is_terminal ended = true
is_terminal failed = true
is_terminal unavailable = true
is_terminal _ = false

pub data WorkerIntent : Type 0 where
  resolve_source : OperationToken → PlaybackItemId → WorkerIntent
  prepare_buffer : OperationToken → PlaybackItemId → ℕ → WorkerIntent
  seek : OperationToken → ℕ → WorkerIntent
  pause stop : OperationToken → WorkerIntent

pub data WorkerEvent : Type 0 where
  source_ready prebuffer_ready : OperationToken → WorkerEvent
  seek_applied : OperationToken → ℕ → WorkerEvent
  source_unavailable failed ended : OperationToken → WorkerEvent

abbrev pub intent_token : WorkerIntent → OperationToken
intent_token (resolve_source t _) = t
intent_token (prepare_buffer t _ _) = t
intent_token (seek t _) = t
intent_token (pause t) = t
intent_token (stop t) = t

abbrev pub event_token : WorkerEvent → OperationToken
event_token (source_ready t) = t
event_token (prebuffer_ready t) = t
event_token (seek_applied t _) = t
event_token (source_unavailable t) = t
event_token (WorkerEvent.failed t) = t
event_token (WorkerEvent.ended t) = t

abbrev pub terminal_state : WorkerEvent → Option SessionState
terminal_state (source_unavailable _) = some unavailable
terminal_state (WorkerEvent.failed _) = some SessionState.failed
terminal_state (WorkerEvent.ended _) = some SessionState.ended
terminal_state _ = Option.none

pub record PlaybackSnapshot : Type 0 where
  pub state : SessionState
  pub current_item : Option PlaybackItemId
  pub clock : PresentationClock
  pub state_version : ℕ
  pub buffer_generation : ℕ
  pub pending_request_id : Option RequestId

pub record SessionUpdate : Type 0 where
  pub result : CommandResult
  pub intent : Option WorkerIntent
  pub snapshot : PlaybackSnapshot

pub record WorkerUpdate : Type 0 where
  pub disposition : ResultDisposition
  pub intent : Option WorkerIntent
  pub snapshot : PlaybackSnapshot

pub data SessionError : Type 0 where
  clock : ClockError → SessionError
  request_tracker : RequestStartError → SessionError
  state_version_exhausted buffer_generation_exhausted : SessionError

-- `play` holds `resumes_from_pause`; `seek` holds the position, the prior state and `applied`.
pub data PendingOperation : Type 0 where
  play : OperationToken → Bool → PendingOperation
  resume : OperationToken → PendingOperation
  seek : OperationToken → ℕ → SessionState → Bool → PendingOperation

abbrev pub pending_token : PendingOperation → OperationToken
pending_token (play t _) = t
pending_token (resume t) = t
pending_token (PendingOperation.seek t _ _ _) = t

pub record PlaybackSession : Type 0 where
  pub state : SessionState
  pub current_item : Option PlaybackItemId
  pub clock : PresentationClock
  pub state_version : ℕ
  pub buffer_generation : ℕ
  pub pending : Option PendingOperation
  pub active_token : Option OperationToken
  pub requests : RequestTracker

pub data ActivationBoundary : Type 0 where
  none resume source_transition : ActivationBoundary

unfoldable pub with_clock : PresentationClock → PlaybackSession
with_clock c = record {
  state = SessionState.empty;
  current_item = Option.none;
  clock = c;
  state_version = 0;
  buffer_generation = 0;
  pending = Option.none;
  active_token = Option.none;
  requests = Requests.new;
}

unfoldable pub make_snapshot : PlaybackSession → PlaybackSnapshot
make_snapshot s = record {
  state = s.state;
  current_item = s.current_item;
  clock = s.clock;
  state_version = s.state_version;
  buffer_generation = s.buffer_generation;
  pending_request_id = map_option (λ p. (pending_token p).request_id) s.pending;
}
