-- ===== src/Playback/Session/Worker.antt =====
-- core/aurorix-playback/src/session.rs, `PlaybackSession::handle_worker_event` and the handler of each
-- event, and the rendered-frame accounting.
use aurorix_music.Prelude.{
  ℕ, Bool, true, false, not, Option, none, some, ◌==◌, if◌then◌else◌, map_option,
}
use aurorix_music.Prelude.Exec.{◌>>=◌, ◌>>◌, pure, gets}
use aurorix_music.Playback.Command.{
  OperationToken, token_eq, StaleReason, no_current_item, unexpected_worker_event, accepted,
  rejected, stale, is_accepted,
}
use aurorix_music.Playback.Requests
use aurorix_music.Playback.Clock
use aurorix_music.Playback.Session.State.{
  SessionState, buffering, playing, paused, WorkerIntent, WorkerEvent, WorkerUpdate, event_token,
  terminal_state, PendingOperation, pending_token, PlaybackSession, PlaybackSnapshot,
  ActivationBoundary, make_snapshot,
}
use aurorix_music.Playback.Session.Steps.{
  M, on_clock, bump_state_version, mark_applied, worker_update, set_state, set_pending, set_active,
}
use aurorix_music.Playback.Session.Dispatch.{is_paused, is_playing}

unfoldable pub apply_source_ready : PendingOperation → M WorkerUpdate
unfolding bump_state_version worker_update
apply_source_ready (PendingOperation.play token _) s = elim s.current_item [
  | none ↦ worker_update (rejected no_current_item) none s
  | some item ↦
      (do
        set_state buffering
        bump_state_version
        position ← gets (λ s'. s'.clock.media_position_us)
        worker_update (accepted token.revision)
            (some (WorkerIntent.prepare_buffer token item position)))
        s
]
apply_source_ready _ s = worker_update (rejected unexpected_worker_event) none s

-- The state and the clock boundary with which a pending operation becomes active; `none` for a seek
-- that the worker has not applied.
abbrev activation : PendingOperation → Option (SessionState × ActivationBoundary)
activation (PendingOperation.play _ true) = some (playing, ActivationBoundary.resume)
activation (PendingOperation.resume _) = some (playing, ActivationBoundary.resume)
activation (PendingOperation.play _ false) = some (playing, ActivationBoundary.source_transition)
activation (PendingOperation.seek _ _ prior true) =
    some ((if is_paused prior then paused else playing), ActivationBoundary.none)
activation (PendingOperation.seek _ _ _ false) = none

abbrev cross_boundary : ActivationBoundary → M (Unit {0})
cross_boundary ActivationBoundary.none = pure tt
cross_boundary ActivationBoundary.resume = on_clock Clock.resume_boundary
cross_boundary ActivationBoundary.source_transition = on_clock (Clock.source_transition_to 0)

unfoldable pub apply_prebuffer_ready : PendingOperation → M WorkerUpdate
unfolding bump_state_version mark_applied worker_update
apply_prebuffer_ready p = elim (activation p) [
  | none ↦ worker_update (rejected unexpected_worker_event) none
  | some (next, boundary) ↦ do
    cross_boundary boundary
    set_state next
    set_pending none
    mark_applied (pending_token p).request_id
    set_active (some (pending_token p))
    bump_state_version
    worker_update (accepted (pending_token p).revision) none
]

unfoldable pub apply_seek_applied : PendingOperation → ℕ → M WorkerUpdate
unfolding bump_state_version worker_update
apply_seek_applied (PendingOperation.seek token expected prior _) position =
    if not (position == expected)
    then worker_update (stale StaleReason.payload_mismatch) none
    else (do
      on_clock (Clock.seek_to position)
      set_pending (some (PendingOperation.seek token expected prior true))
      if is_paused prior then pure tt else set_state buffering
      bump_state_version
      item ← gets (λ s. s.current_item)
      worker_update (accepted token.revision)
          (map_option (λ i. WorkerIntent.prepare_buffer token i position) item))
apply_seek_applied _ position = worker_update (rejected unexpected_worker_event) none

unfoldable pub apply_terminal_worker_event : PendingOperation → SessionState → M WorkerUpdate
unfolding bump_state_version mark_applied worker_update
apply_terminal_worker_event p state = do
  set_pending none
  set_active none
  set_state state
  mark_applied (pending_token p).request_id
  bump_state_version
  worker_update (accepted (pending_token p).revision) none

unfoldable pub apply_active_terminal_event : OperationToken → SessionState → M WorkerUpdate
unfolding bump_state_version worker_update
apply_active_terminal_event token state = do
  set_active none
  set_state state
  bump_state_version
  worker_update (accepted token.revision) none

-- The last `match` of `handle_worker_event`, at the pending operation.
unfoldable pub apply_event : WorkerEvent → PendingOperation → M WorkerUpdate
apply_event (WorkerEvent.source_ready _) p = apply_source_ready p
apply_event (WorkerEvent.prebuffer_ready _) p = apply_prebuffer_ready p
apply_event (WorkerEvent.seek_applied _ position) p = apply_seek_applied p position
apply_event (WorkerEvent.source_unavailable _) p =
    apply_terminal_worker_event p SessionState.unavailable
apply_event (WorkerEvent.failed _) p = apply_terminal_worker_event p SessionState.failed
apply_event (WorkerEvent.ended _) p = apply_terminal_worker_event p SessionState.ended

-- `self.active_token == Some(token)`.
abbrev pub is_active_token : Option OperationToken → OperationToken → Bool
is_active_token none token = false
is_active_token (some t) token = token_eq t token

-- An event that the active-token branch did not take.
unfoldable pub handle_pending_event : WorkerEvent → M WorkerUpdate
unfolding worker_update
handle_pending_event e s =
    let token = event_token e in
    let disposition = Requests.classify s.requests token s.buffer_generation in
    if not (is_accepted disposition) then worker_update disposition none s else elim s.pending [
      | none ↦ worker_update (stale StaleReason.request_no_longer_pending) none s
      | some p ↦
          if not (token_eq (pending_token p) token)
          then worker_update (stale StaleReason.request_superseded) none s
          else apply_event e p s
    ]

unfoldable pub handle_worker_event : WorkerEvent → M WorkerUpdate
unfolding handle_pending_event worker_update
handle_worker_event e s = elim (terminal_state e) [
  | none ↦ handle_pending_event e s
  | some state ↦
      if is_active_token s.active_token (event_token e)
      then (if not ((event_token e).buffer_generation == s.buffer_generation)
          then worker_update (stale StaleReason.buffer_generation_changed) none s
          else apply_active_terminal_event (event_token e) state s)
      else handle_pending_event e s
]

unfoldable pub record_rendered_frames : ℕ → M PlaybackSnapshot
record_rendered_frames frames s =
    (do
      if is_playing s.state then on_clock (Clock.advance_rendered_frames frames) else pure tt
      gets make_snapshot)
      s

unfoldable pub acknowledge_discontinuity : PlaybackSession → PlaybackSession
acknowledge_discontinuity s = record s { clock = Clock.acknowledge_discontinuity s.clock }
