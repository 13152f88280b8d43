-- ===== src/Playback/Session/Growth.antt =====
-- core/aurorix-playback/src/session.rs: the revisions of a session over its calls.
use aurorix_music.Prelude.{ℕ, ◌≤◌, Option, arith, List, [], ◌∷◌}
use aurorix_music.Playback.Command.{
  OperationToken, RejectionReason, PlaybackCommand, PlaybackAction, RequestId, PlaybackItemId,
}
use aurorix_music.Playback.Clock
use aurorix_music.Playback.Session.State.{
  PlaybackSession, SessionState, WorkerEvent, PendingOperation,
}
use aurorix_music.Playback.Session.Steps.{rejected_update}
use aurorix_music.Playback.Session.Dispatch.{
  dispatch, dispatch_action, dispatch_play, dispatch_pause, dispatch_resume, dispatch_seek,
  dispatch_stop, dispatch_cancel,
}
use aurorix_music.Playback.Session.Worker.{
  handle_worker_event, handle_pending_event, apply_event, record_rendered_frames,
  acknowledge_discontinuity, apply_source_ready, apply_prebuffer_ready, apply_seek_applied,
  apply_terminal_worker_event, apply_active_terminal_event,
}
use aurorix_music.Playback.Session.Runs.{
  SessionCall, command, event, rendered, acknowledge, step, run,
}

-- What never goes back.
pub record Grows (s t : PlaybackSession) : Type 0 where
  pub generation : s.buffer_generation ≤ t.buffer_generation
  pub version : s.state_version ≤ t.state_version
  pub epoch : s.clock.clock_epoch ≤ t.clock.clock_epoch

dispatch_play-Grows :
    (id : RequestId) (item : Option PlaybackItemId) (s : PlaybackSession)
    → Grows s (dispatch_play id item s).1
unfolding dispatch_play
dispatch_play-Grows id item s = ground arith

dispatch_pause-Grows : (id : RequestId) (s : PlaybackSession) → Grows s (dispatch_pause id s).1
unfolding dispatch_pause Clock.pause_boundary
dispatch_pause-Grows id s = ground arith

dispatch_resume-Grows : (id : RequestId) (s : PlaybackSession) → Grows s (dispatch_resume id s).1
unfolding dispatch_resume
dispatch_resume-Grows id s = ground arith

dispatch_seek-Grows :
    (id : RequestId) (p : ℕ) (s : PlaybackSession) → Grows s (dispatch_seek id p s).1
unfolding dispatch_seek
dispatch_seek-Grows id p s = ground arith

dispatch_stop-Grows : (id : RequestId) (s : PlaybackSession) → Grows s (dispatch_stop id s).1
unfolding dispatch_stop Clock.stop_boundary
dispatch_stop-Grows id s = ground arith

dispatch_cancel-Grows :
    (id target : RequestId) (s : PlaybackSession) → Grows s (dispatch_cancel id target s).1
unfolding dispatch_cancel
dispatch_cancel-Grows id target s = ground arith

rejected_update-Grows :
    (id : RequestId) (reason : RejectionReason) (s : PlaybackSession)
    → Grows s (rejected_update id reason s).1
unfolding rejected_update
rejected_update-Grows id reason s = ground arith

dispatch_action-Grows :
    (id : RequestId) (a : PlaybackAction) (s : PlaybackSession) → Grows s (dispatch_action id a s).1
unfolding dispatch_action
dispatch_action-Grows id (PlaybackAction.play item) s = dispatch_play-Grows id item s
dispatch_action-Grows id PlaybackAction.pause s = dispatch_pause-Grows id s
dispatch_action-Grows id PlaybackAction.resume s = dispatch_resume-Grows id s
dispatch_action-Grows id (PlaybackAction.seek position) s = dispatch_seek-Grows id position s
dispatch_action-Grows id PlaybackAction.stop s = dispatch_stop-Grows id s
dispatch_action-Grows id (PlaybackAction.cancel target) s = dispatch_cancel-Grows id target s
dispatch_action-Grows id _ s = rejected_update-Grows id _ s

dispatch-Grows : (c : PlaybackCommand) (s : PlaybackSession) → Grows s (dispatch c s).1
unfolding dispatch
dispatch-Grows c s = ground (arith, dispatch_action-Grows c.request_id c.action s)

apply_event-Grows :
    (e : WorkerEvent) (p : PendingOperation) (s : PlaybackSession) → Grows s (apply_event e p s).1
unfolding apply_event apply_source_ready apply_prebuffer_ready apply_seek_applied
    apply_terminal_worker_event Clock.resume_boundary Clock.source_transition_to Clock.seek_to
apply_event-Grows (WorkerEvent.source_ready _) p s = ground arith
apply_event-Grows _ p s = ground arith

apply_active-Grows :
    (t : OperationToken) (st : SessionState) (s : PlaybackSession)
    → Grows s (apply_active_terminal_event t st s).1
unfolding apply_active_terminal_event
apply_active-Grows t st s = ground arith

handle_pending-Grows :
    (e : WorkerEvent) (s : PlaybackSession) → Grows s (handle_pending_event e s).1
unfolding handle_pending_event
handle_pending-Grows e s = grind (arith, apply_event-Grows)

handle-Grows : (e : WorkerEvent) (s : PlaybackSession) → Grows s (handle_worker_event e s).1
unfolding handle_worker_event
handle-Grows e s = grind (arith, handle_pending-Grows, apply_active-Grows)

-- No call takes the generation, the state version or the clock's epoch back.
step-Grows : (s : PlaybackSession) (c : SessionCall) → Grows s (step s c)
unfolding step record_rendered_frames acknowledge_discontinuity Clock.advance_rendered_frames
    Clock.acknowledge_discontinuity
step-Grows s (command c) = dispatch-Grows c s
step-Grows s (event e) = handle-Grows e s
step-Grows s (rendered n) = ground arith
step-Grows s acknowledge = ground arith

-- Over any history the generation, the state version and the clock's epoch only grow.
pub run-Grows : (s : PlaybackSession) (cs : List SessionCall) → Grows s (run s cs)
unfolding run
run-Grows s [] = ground arith
run-Grows s (c ∷ cs) = ground (arith, step-Grows s c, run-Grows (step s c) cs)
