-- ===== src/Playback/Session/Invariant/Commands.antt =====
-- core/aurorix-playback/src/session.rs: the invariant under the commands.
use aurorix_music.Prelude.Exec.{bind-keeps}
use aurorix_music.Prelude.{Bool-cases, inl, inr, ◌≡◌, false, some, arith}
use aurorix_music.Playback.Command.{
  PlaybackCommand, accepted, queue_policy_not_ready, invalid_state, RequestId, OperationToken,
  PlaybackAction,
}
use aurorix_music.Playback.Requests.{RequestTracker, RequestRecord, active, applied}
use aurorix_music.Playback.Requests
use aurorix_music.Playback.Clock.Timeline.{call-IsValid, pause, stop, call}
use aurorix_music.Playback.Clock
use aurorix_music.Playback.Session.State.{WorkerIntent, PlaybackSession}
use aurorix_music.Playback.Session.Steps.{session_update, record_applied_request}
use aurorix_music.Playback.Session.Dispatch.{
  is_empty, pause_at_boundary, dispatch_pause, needs_pause_boundary, dispatch, dispatch_action,
  dispatch_stop, is_idle, stop_active,
}
use aurorix_music.Playback.Session.Invariant.{ActionIsWord, IsValid}
use aurorix_music.Playback.Session.Invariant.Recorded.{
  rejected_update-IsValid, record_applied_request-IsValid,
}
use aurorix_music.Playback.Session.Invariant.Started.{
  dispatch_play-IsValid, dispatch_resume-IsValid, dispatch_seek-IsValid,
}
use aurorix_music.Playback.Session.Invariant.Cancelled.{dispatch_cancel-IsValid}

pause_at_boundary-IsValid :
    (token : OperationToken) (s : PlaybackSession)
    → IsValid s
    → is_empty s.state ≡ false
    → IsValid (pause_at_boundary token s).1
unfolding pause_at_boundary Clock.pause_boundary call
pause_at_boundary-IsValid token s v h = ground (arith, call-IsValid pause s.clock tt v.timeline)

dispatch_pause-IsValid :
    (id : RequestId) (s : PlaybackSession) → IsValid s → IsValid (dispatch_pause id s).1
unfolding dispatch_pause
dispatch_pause-IsValid id s v = elim (Bool-cases (is_empty s.state)) [
  | inl e ↦ rw (e, dispatch_pause) (rejected_update-IsValid id invalid_state s v)
  | inr e ↦
      let v' = record_applied_request-IsValid id s v in
      rw (e, dispatch_pause)
        (bind-keeps IsValid (record_applied_request id) _ s v' λ token _.
          elim (Bool-cases (needs_pause_boundary s.state)) [
            | inl b ↦ rw b (
                bind-keeps IsValid (pause_at_boundary token) _ _
                  (pause_at_boundary-IsValid token _ v' e)
                  (λ _ _. pause_at_boundary-IsValid token _ v' e))
            | inr b ↦ rw b v'
          ])
]

stop_active-IsValid :
    (token : OperationToken) (s : PlaybackSession)
    → IsValid s
    → is_idle s.state ≡ false
    → IsValid (stop_active token s).1
unfolding stop_active Clock.stop_boundary call
stop_active-IsValid token s v h = ground (arith, call-IsValid stop s.clock tt v.timeline)

dispatch_stop-IsValid :
    (id : RequestId) (s : PlaybackSession) → IsValid s → IsValid (dispatch_stop id s).1
unfolding dispatch_stop
dispatch_stop-IsValid id s v =
    let v' = record_applied_request-IsValid id s v in
    bind-keeps IsValid (record_applied_request id) _ s v' λ token _.
      elim (Bool-cases (is_idle s.state)) [
        | inl b ↦ rw b v'
        | inr b ↦ rw b (
            bind-keeps IsValid (stop_active token)
              (λ token'.
                session_update id (accepted token'.revision) (some (WorkerIntent.stop token')))
              (record_applied_request id s).1 (stop_active-IsValid token _ v' b)
              (λ _ _. stop_active-IsValid token _ v' b))
      ]

dispatch_action-IsValid :
    (id : RequestId) (a : PlaybackAction) (s : PlaybackSession)
    → ActionIsWord a
    → IsValid s
    → IsValid (dispatch_action id a s).1
unfolding dispatch_action
dispatch_action-IsValid id (PlaybackAction.play item) s w v = dispatch_play-IsValid id item s v
dispatch_action-IsValid id PlaybackAction.pause s w v = dispatch_pause-IsValid id s v
dispatch_action-IsValid id PlaybackAction.resume s w v = dispatch_resume-IsValid id s v
dispatch_action-IsValid id (PlaybackAction.seek position) s w v =
    dispatch_seek-IsValid id position s w v
dispatch_action-IsValid id PlaybackAction.stop s w v = dispatch_stop-IsValid id s v
dispatch_action-IsValid id (PlaybackAction.cancel target) s w v =
    dispatch_cancel-IsValid id target s v
dispatch_action-IsValid id _ s w v = rejected_update-IsValid id queue_policy_not_ready s v

-- Every command keeps a valid session valid, whether it is accepted, refused or fails with an error
-- half-way through its assignments.
pub dispatch-IsValid :
    (c : PlaybackCommand) (s : PlaybackSession)
    → ActionIsWord c.action
    → IsValid s
    → IsValid (dispatch c s).1
unfolding dispatch
dispatch-IsValid c s w v = elim (Bool-cases (Requests.contains s.requests c.request_id)) [
  | inl e ↦ rw (e, dispatch) v
  | inr e ↦ rw (e, dispatch) (dispatch_action-IsValid c.request_id c.action s w v)
]
