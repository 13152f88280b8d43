-- ===== src/Playback/Session/Once.antt =====
-- core/aurorix-playback/src/session.rs: commands that reuse a request ID.
use aurorix_music.Prelude.{ℕ, ◌≡◌, true, Option, none, arith, Bool-cases, subst, inl, inr}
use aurorix_music.Prelude.Exec.{Result, ok, err}
use aurorix_music.Playback.Command.{
  RequestId, PlaybackItemId, PlaybackAction, PlaybackCommand, RejectionReason, duplicate_request,
  rejected,
}
use aurorix_music.Playback.Requests.{contains}
use aurorix_music.Playback.Requests.Fence.{
  start-Recorded, record_applied-Recorded, record_rejected-Recorded,
}
use aurorix_music.Playback.Session.State.{
  PlaybackSession, SessionError, SessionUpdate, make_snapshot,
}
use aurorix_music.Playback.Session.Steps.{rejected_update}
use aurorix_music.Playback.Session.Dispatch.{
  dispatch, dispatch_action, dispatch_play, dispatch_pause, dispatch_resume, dispatch_seek,
  dispatch_stop, dispatch_cancel,
}

-- A handler that returns has recorded its request.
abbrev Recorded : RequestId → Result SessionError SessionUpdate × PlaybackSession → Type 0
Recorded id (ok u, t) = contains t.requests id ≡ true
Recorded id (err e, t) = Unit {0}

rejected_update-Recorded :
    (id : RequestId) (reason : RejectionReason) (s : PlaybackSession)
    → Recorded id (rejected_update id reason s)
unfolding rejected_update
rejected_update-Recorded id reason s = ground (arith, record_rejected-Recorded id s.requests)

dispatch_play-Recorded :
    (id : RequestId) (item : Option PlaybackItemId) (s : PlaybackSession)
    → Recorded id (dispatch_play id item s)
unfolding dispatch_play
dispatch_play-Recorded id item s = ground (
  arith,
  record_rejected-Recorded id s.requests,
  start-Recorded id s.buffer_generation s.requests,
)

dispatch_pause-Recorded : (id : RequestId) (s : PlaybackSession) → Recorded id (dispatch_pause id s)
unfolding dispatch_pause
dispatch_pause-Recorded id s = ground (
  arith,
  record_rejected-Recorded id s.requests,
  record_applied-Recorded id s.buffer_generation s.requests,
)

dispatch_resume-Recorded :
    (id : RequestId) (s : PlaybackSession) → Recorded id (dispatch_resume id s)
unfolding dispatch_resume
dispatch_resume-Recorded id s = ground (
  arith,
  record_rejected-Recorded id s.requests,
  start-Recorded id s.buffer_generation s.requests,
  record_applied-Recorded id s.buffer_generation s.requests,
)

dispatch_seek-Recorded :
    (id : RequestId) (p : ℕ) (s : PlaybackSession) → Recorded id (dispatch_seek id p s)
unfolding dispatch_seek
dispatch_seek-Recorded id p s = ground (
  arith,
  record_rejected-Recorded id s.requests,
  start-Recorded id s.buffer_generation s.requests,
)

dispatch_stop-Recorded : (id : RequestId) (s : PlaybackSession) → Recorded id (dispatch_stop id s)
unfolding dispatch_stop
dispatch_stop-Recorded id s =
    ground (arith, record_applied-Recorded id s.buffer_generation s.requests)

dispatch_cancel-Recorded :
    (id target : RequestId) (s : PlaybackSession) → Recorded id (dispatch_cancel id target s)
unfolding dispatch_cancel
dispatch_cancel-Recorded id target s =
    grind (arith, record_rejected-Recorded id, record_applied-Recorded id)

dispatch_action-Recorded :
    (id : RequestId) (a : PlaybackAction) (s : PlaybackSession)
    → Recorded id (dispatch_action id a s)
unfolding dispatch_action
dispatch_action-Recorded id (PlaybackAction.play item) s = dispatch_play-Recorded id item s
dispatch_action-Recorded id PlaybackAction.pause s = dispatch_pause-Recorded id s
dispatch_action-Recorded id PlaybackAction.resume s = dispatch_resume-Recorded id s
dispatch_action-Recorded id (PlaybackAction.seek position) s = dispatch_seek-Recorded id position s
dispatch_action-Recorded id PlaybackAction.stop s = dispatch_stop-Recorded id s
dispatch_action-Recorded id (PlaybackAction.cancel target) s = dispatch_cancel-Recorded id target s
dispatch_action-Recorded id _ s = rejected_update-Recorded id _ s

dispatch-Recorded :
    (c : PlaybackCommand) (s : PlaybackSession) → Recorded c.request_id (dispatch c s)
unfolding dispatch
dispatch-Recorded c s = elim (Bool-cases (contains s.requests c.request_id)) [
  | inl e ↦ rw (e, dispatch) e
  | inr e ↦ rw (e, dispatch) (dispatch_action-Recorded c.request_id c.action s)
]

-- After a command was answered, whatever the answer, a second command under its request ID changes
-- nothing and is refused as a duplicate, whatever it asks.
pub dispatch_once :
    (c d : PlaybackCommand) (s t : PlaybackSession) (u : SessionUpdate)
    → dispatch c s ≡ (ok u, t)
    → d.request_id ≡ c.request_id
    → dispatch d t ≡ (
      ok (record {
        result = record { request_id = d.request_id; disposition = rejected duplicate_request };
        intent = none;
        snapshot = make_snapshot t;
      }),
      t,
    )
unfolding dispatch
dispatch_once c d s t u e same = rw (same, known, dispatch)
  where
    known : contains t.requests c.request_id ≡ true
    known = subst (Recorded c.request_id) e (dispatch-Recorded c s)
