-- ===== src/Playback/Session/Progress.antt =====
-- core/aurorix-playback/src/session.rs: the way of a play command to the playing state.
use aurorix_music.Prelude.{
  ℕ, ◌+◌, ◌≤◌, ◌<◌, ◌≡◌, refl, true, false, ◌&&◌, none, some, arith, [], ◌∷◌,
}
use aurorix_music.Prelude.Word.{u64_max}
use aurorix_music.Playback.Command.{
  RequestId, PlaybackItemId, PlaybackAction, PlaybackCommand, OperationToken,
}
use aurorix_music.Playback.Requests
use aurorix_music.Playback.Requests.{contains}
use aurorix_music.Playback.Clock
use aurorix_music.Playback.Session.State.{PlaybackSession, playing, PendingOperation, WorkerEvent}
use aurorix_music.Playback.Session.Dispatch.{
  dispatch, dispatch_action, dispatch_play, can_play, is_paused, is_item,
}
use aurorix_music.Playback.Session.Worker.{apply_event, apply_source_ready, apply_prebuffer_ready}
use aurorix_music.Playback.Session.Invariant.{IsValid}
use aurorix_music.Playback.Session.Runs.{command, event, step, run, run-IsValid}
use aurorix_music.Playback.Session.Fence.{pending_event_handled}

-- The counters of the session can take the steps of one play operation.
pub record HasRoom (s : PlaybackSession) : Type 0 where
  pub revision : s.requests.next_revision < u64_max
  pub generation : s.buffer_generation + 1 < u64_max
  pub version : s.state_version + 3 ≤ u64_max
  pub epoch : s.clock.clock_epoch < u64_max

-- The token under which the ledger starts the next request.
abbrev pub next_token : PlaybackSession → RequestId → OperationToken
next_token s id = record {
  request_id = id;
  revision = s.requests.next_revision + 1;
  buffer_generation = s.buffer_generation + 1;
}

abbrev pub play_command : RequestId → PlaybackItemId → PlaybackCommand
play_command id item = record { request_id = id; action = PlaybackAction.play (some item) }

-- The session between the phases of a play operation.
record InPhase (s t : PlaybackSession) (token : OperationToken) (item : PlaybackItemId) (n : ℕ)
    : Type 0 where
  pending : t.pending ≡ some (PendingOperation.play token false)
  current : t.current_item ≡ some item
  version : t.state_version ≡ s.state_version + n
  generation : t.buffer_generation ≡ s.buffer_generation + 1
  epoch : t.clock.clock_epoch ≡ s.clock.clock_epoch

play_started :
    (s : PlaybackSession) (id : RequestId) (item : PlaybackItemId)
    → HasRoom s
    → can_play s.state ≡ true
    → contains s.requests id ≡ false
    → (is_paused s.state && is_item s.current_item item) ≡ false
    → InPhase s (step s (command (play_command id item))) (next_token s id) item 1
unfolding step dispatch dispatch_action dispatch_play Requests.start
play_started s id item room can fresh other = ground arith

source_ready_phase :
    (s t : PlaybackSession) (token : OperationToken) (item : PlaybackItemId)
    → HasRoom s
    → IsValid t
    → InPhase s t token item 1
    → InPhase s (step t (event (WorkerEvent.source_ready token))) token item 2
unfolding step apply_event apply_source_ready
source_ready_phase s t token item room v h = ground (
  arith,
  pending_event_handled (WorkerEvent.source_ready token) t (PendingOperation.play token false) v
      (omega (arith, room.generation, h.generation)) h.pending refl,
)

pub record IsPlaying (t : PlaybackSession) (token : OperationToken) (item : PlaybackItemId)
    : Type 0 where
  pub state : t.state ≡ playing
  pub current : t.current_item ≡ some item
  pub position : t.clock.media_position_us ≡ 0
  pub active : t.active_token ≡ some token
  pub pending : t.pending ≡ none

prebuffer_ready_phase :
    (s t : PlaybackSession) (token : OperationToken) (item : PlaybackItemId)
    → HasRoom s
    → IsValid t
    → InPhase s t token item 2
    → IsPlaying (step t (event (WorkerEvent.prebuffer_ready token))) token item
unfolding step apply_event apply_prebuffer_ready Clock.source_transition_to
prebuffer_ready_phase s t token item room v h = ground (
  arith,
  pending_event_handled (WorkerEvent.prebuffer_ready token) t (PendingOperation.play token false) v
      (omega (arith, room.generation, h.generation)) h.pending refl,
)

-- In a valid session with room in its counters, in a state that takes a play command, a fresh request for an
-- item that is not the paused one reaches `Playing` at position zero, with nothing pending, once the worker
-- reports the source and then the prebuffer ready under the token that the command was given.
pub play_reaches-IsPlaying :
    (s : PlaybackSession) (id : RequestId) (item : PlaybackItemId)
    → IsValid s
    → HasRoom s
    → can_play s.state ≡ true
    → contains s.requests id ≡ false
    → (is_paused s.state && is_item s.current_item item) ≡ false
    → IsPlaying
        (run s (
          command (play_command id item)
          ∷ event (WorkerEvent.source_ready (next_token s id))
          ∷ event (WorkerEvent.prebuffer_ready (next_token s id))
          ∷ []))
        (next_token s id)
        item
unfolding run
play_reaches-IsPlaying s id item v room can fresh other =
    let token = next_token s id in
    let play = command (play_command id item) in
    let ready = event (WorkerEvent.source_ready token) in
    let started = play_started s id item room can fresh other in
    let sourced =
      source_ready_phase s (step s play) token item room (run-IsValid s (play ∷ []) (tt, tt) v)
        started in
    prebuffer_ready_phase s (step (step s play) ready) token item room
      (run-IsValid s (play ∷ ready ∷ []) (tt, (tt, tt)) v) sourced
