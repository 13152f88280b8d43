-- ===== src/Playback/Session/Dispatch.antt =====
-- core/aurorix-playback/src/session.rs, `PlaybackSession::dispatch` and the handler of each command.
use aurorix_music.Prelude.{
  ℕ, Bool, true, false, ◌&&◌, not, Option, none, some, ◌==◌, if◌then◌else◌, or_else,
}
use aurorix_music.Prelude.Exec.{ok, ◌>>=◌, ◌>>◌, pure, gets, modify}
use aurorix_music.Prelude.Text.{text_eq}
use aurorix_music.Playback.Command.{
  RequestId, PlaybackItemId, PlaybackAction, PlaybackCommand, OperationToken,
  with_buffer_generation, CancellationOutcome, cancelled_before_commit, invalid_state,
  no_current_item, duplicate_request, unknown_cancellation_target, queue_policy_not_ready, accepted,
  cancelled, rejected,
}
use aurorix_music.Playback.Requests
use aurorix_music.Playback.Clock
use aurorix_music.Playback.Session.State.{
  SessionState, loading, buffering, playing, paused, stopped, WorkerIntent, SessionUpdate,
  PendingOperation, pending_token,
}
use aurorix_music.Playback.Session.Steps.{
  M, on_clock, bump_state_version, bump_buffer_generation, start_request, record_applied_request,
  session_update, rejected_update, set_state, set_pending, set_active,
}

-- The tests on the state that guard the handlers.
abbrev pub can_play : SessionState → Bool
can_play SessionState.empty = true
can_play paused = true
can_play stopped = true
can_play SessionState.ended = true
can_play SessionState.failed = true
can_play SessionState.unavailable = true
can_play _ = false

abbrev pub needs_pause_boundary : SessionState → Bool
needs_pause_boundary loading = true
needs_pause_boundary buffering = true
needs_pause_boundary playing = true
needs_pause_boundary _ = false

abbrev pub can_seek : SessionState → Bool
can_seek loading = true
can_seek buffering = true
can_seek playing = true
can_seek paused = true
can_seek _ = false

abbrev pub is_empty : SessionState → Bool
is_empty SessionState.empty = true
is_empty _ = false

abbrev pub is_paused : SessionState → Bool
is_paused paused = true
is_paused _ = false

abbrev pub is_playing : SessionState → Bool
is_playing playing = true
is_playing _ = false

-- `Empty | Stopped`, where a stop has nothing to retire.
abbrev pub is_idle : SessionState → Bool
is_idle SessionState.empty = true
is_idle stopped = true
is_idle _ = false

-- `current.as_ref() == Some(&item)`.
abbrev pub is_item : Option PlaybackItemId → PlaybackItemId → Bool
is_item none item = false
is_item (some current) item = text_eq current item

-- The common tail of `play`, `resume` and `seek`: the operation becomes pending under a new
-- generation, and nothing is active.
abbrev fenced : OperationToken → M OperationToken
fenced token = do
  bump_buffer_generation
  gets (λ s. with_buffer_generation token s.buffer_generation)

unfoldable pub play_item : RequestId → PlaybackItemId → M SessionUpdate
unfolding start_request bump_buffer_generation bump_state_version session_update
play_item id item s =
    (do
      let resumes = is_paused s.state && is_item s.current_item item
      token ← start_request id
      modify (λ s'. record s' { current_item = some item })
      token' ← fenced token
      set_pending (some (PendingOperation.play token' resumes))
      set_active none
      set_state loading
      bump_state_version
      session_update id (accepted token'.revision) (some (WorkerIntent.resolve_source token' item)))
      s

unfoldable pub dispatch_play : RequestId → Option PlaybackItemId → M SessionUpdate
unfolding play_item rejected_update
dispatch_play id item_id s =
    if not (can_play s.state)
    then rejected_update id invalid_state s
    else elim (or_else item_id s.current_item) [
      | none ↦ rejected_update id no_current_item s
      | some item ↦ play_item id item s
    ]

-- What a pause does in a state with a boundary.
unfoldable pub pause_at_boundary : OperationToken → M OperationToken
unfolding bump_buffer_generation bump_state_version
pause_at_boundary token = do
  on_clock Clock.pause_boundary
  token' ← fenced token
  set_pending none
  set_active none
  set_state paused
  bump_state_version
  pure token'

unfoldable pub dispatch_pause : RequestId → M SessionUpdate
unfolding pause_at_boundary record_applied_request session_update rejected_update
dispatch_pause id s =
    if is_empty s.state
    then rejected_update id invalid_state s
    else (do
      token ← record_applied_request id
      token' ← if needs_pause_boundary s.state then pause_at_boundary token else pure token
      session_update id (accepted token'.revision) (some (WorkerIntent.pause token')))
        s

unfoldable pub resume_item : RequestId → PlaybackItemId → M SessionUpdate
unfolding start_request bump_buffer_generation bump_state_version session_update
resume_item id item = do
  token ← start_request id
  token' ← fenced token
  set_pending (some (PendingOperation.resume token'))
  set_active none
  set_state buffering
  bump_state_version
  position ← gets (λ s. s.clock.media_position_us)
  session_update id (accepted token'.revision)
      (some (WorkerIntent.prepare_buffer token' item position))

unfoldable pub dispatch_resume : RequestId → M SessionUpdate
unfolding resume_item record_applied_request session_update rejected_update
dispatch_resume id s =
    if is_playing s.state
    then (do token ← record_applied_request id; session_update id (accepted token.revision) none) s
    else if not (is_paused s.state)
    then rejected_update id invalid_state s
    else elim s.current_item [
      | none ↦ rejected_update id no_current_item s
      | some item ↦ resume_item id item s
    ]

unfoldable pub seek_current : RequestId → ℕ → M SessionUpdate
unfolding start_request bump_buffer_generation bump_state_version session_update
seek_current id position s =
    (do
      let prior = s.state
      token ← start_request id
      token' ← fenced token
      set_pending (some (PendingOperation.seek token' position prior false))
      set_active none
      if is_paused prior then pure tt else set_state buffering
      bump_state_version
      session_update id (accepted token'.revision) (some (WorkerIntent.seek token' position)))
      s

unfoldable pub dispatch_seek : RequestId → ℕ → M SessionUpdate
unfolding seek_current rejected_update
dispatch_seek id position s =
    if not (can_seek s.state) then rejected_update id invalid_state s else elim s.current_item [
      | none ↦ rejected_update id no_current_item s
      | some _ ↦ seek_current id position s
    ]

unfoldable pub stop_active : OperationToken → M OperationToken
unfolding bump_buffer_generation bump_state_version
stop_active token = do
  token' ← fenced token
  set_pending none
  set_active none
  on_clock Clock.stop_boundary
  set_state stopped
  bump_state_version
  pure token'

unfoldable pub dispatch_stop : RequestId → M SessionUpdate
unfolding stop_active record_applied_request session_update
dispatch_stop id = do
  token ← record_applied_request id
  idle ← gets (λ s. is_idle s.state)
  token' ← if idle then pure token else stop_active token
  session_update id (accepted token'.revision) (some (WorkerIntent.stop token'))

abbrev pub is_unknown : CancellationOutcome → Bool
is_unknown CancellationOutcome.unknown_request = true
is_unknown _ = false

abbrev pub is_before_commit : CancellationOutcome → Bool
is_before_commit cancelled_before_commit = true
is_before_commit _ = false

abbrev pub is_pending_request : Option PendingOperation → RequestId → Bool
is_pending_request none target = false
is_pending_request (some p) target = (pending_token p).request_id == target

-- `requests.cancel`, which cannot fail.
unfoldable pub cancel_request : RequestId → M CancellationOutcome
cancel_request target s =
    let (outcome, t) = Requests.cancel target s.requests in (ok outcome, record s { requests = t })

unfoldable pub retire_pending : M (Unit {0})
unfolding bump_buffer_generation bump_state_version
retire_pending = do
  set_pending none
  bump_buffer_generation
  set_active none
  set_state stopped
  bump_state_version

unfoldable pub cancel_known : RequestId → RequestId → M SessionUpdate
unfolding cancel_request retire_pending record_applied_request session_update
cancel_known id target = do
  outcome ← cancel_request target
  is_target ← gets (λ s. is_pending_request s.pending target)
  if is_target && is_before_commit outcome then retire_pending else pure tt
  record_applied_request id
  session_update id (cancelled target outcome) none

unfoldable pub dispatch_cancel : RequestId → RequestId → M SessionUpdate
unfolding cancel_known rejected_update
dispatch_cancel id target s =
    if id == target
    then rejected_update id unknown_cancellation_target s
    else if is_unknown (Requests.cancellation_outcome s.requests target)
    then rejected_update id unknown_cancellation_target s
    else cancel_known id target s

-- The `match` of `dispatch` on the action.
unfoldable pub dispatch_action : RequestId → PlaybackAction → M SessionUpdate
dispatch_action id (PlaybackAction.play item) = dispatch_play id item
dispatch_action id PlaybackAction.pause = dispatch_pause id
dispatch_action id PlaybackAction.resume = dispatch_resume id
dispatch_action id (PlaybackAction.seek position) = dispatch_seek id position
dispatch_action id PlaybackAction.stop = dispatch_stop id
dispatch_action id (PlaybackAction.cancel target) = dispatch_cancel id target
dispatch_action id _ = rejected_update id queue_policy_not_ready

unfoldable pub dispatch : PlaybackCommand → M SessionUpdate
unfolding dispatch_action session_update
dispatch c s =
    if Requests.contains s.requests c.request_id
    then session_update c.request_id (rejected duplicate_request) none s
    else dispatch_action c.request_id c.action s
