-- ===== src/Playback/Session/Position.antt =====
-- core/aurorix-playback/src/session.rs: commands and the media position.
use aurorix_music.Prelude.{ℕ, ◌≡◌, Bool, true, false, not, ◌&&◌, ltb, if◌then◌else◌, Option, arith}
use aurorix_music.Prelude.Word.{u64_max}
use aurorix_music.Playback.Requests
use aurorix_music.Playback.Command.{
  RequestId, PlaybackItemId, PlaybackAction, PlaybackCommand, RejectionReason,
}
use aurorix_music.Playback.Clock
use aurorix_music.Playback.Session.State.{PlaybackSession}
use aurorix_music.Playback.Session.Steps.{rejected_update}
use aurorix_music.Playback.Session.Dispatch.{
  dispatch, dispatch_action, dispatch_play, dispatch_pause, dispatch_resume, dispatch_seek,
  dispatch_stop, dispatch_cancel, is_idle,
}

abbrev pub position : PlaybackSession → ℕ
position s = s.clock.media_position_us

play_position :
    (id : RequestId) (item : Option PlaybackItemId) (s : PlaybackSession)
    → position (dispatch_play id item s).1 ≡ position s
unfolding dispatch_play
play_position id item s = ground arith

pause_position :
    (id : RequestId) (s : PlaybackSession) → position (dispatch_pause id s).1 ≡ position s
unfolding dispatch_pause Clock.pause_boundary
pause_position id s = ground arith

resume_position :
    (id : RequestId) (s : PlaybackSession) → position (dispatch_resume id s).1 ≡ position s
unfolding dispatch_resume
resume_position id s = ground arith

seek_position :
    (id : RequestId) (p : ℕ) (s : PlaybackSession) → position (dispatch_seek id p s).1 ≡ position s
unfolding dispatch_seek
seek_position id p s = ground arith

-- A stop under a new request ID of a session that is not idle raises the revision, the generation and the epoch of
-- the clock, in this order, and each of them can be the last one.
abbrev pub stops_clock : RequestId → PlaybackSession → Bool
stops_clock id s =
    not (is_idle s.state)
    && not (Requests.contains s.requests id)
    && ltb s.requests.next_revision u64_max
    && ltb s.buffer_generation u64_max
    && ltb s.clock.clock_epoch u64_max

stop_position :
    (id : RequestId) (s : PlaybackSession)
    → position (dispatch_stop id s).1 ≡ (if stops_clock id s then 0 else position s)
unfolding dispatch_stop Clock.stop_boundary Requests.record_applied
stop_position id s = ground arith

cancel_position :
    (id target : RequestId) (s : PlaybackSession)
    → position (dispatch_cancel id target s).1 ≡ position s
unfolding dispatch_cancel
cancel_position id target s = ground arith

rejected_position :
    (id : RequestId) (reason : RejectionReason) (s : PlaybackSession)
    → position (rejected_update id reason s).1 ≡ position s
unfolding rejected_update
rejected_position id reason s = ground arith

abbrev pub is_stop : PlaybackAction → Bool
is_stop PlaybackAction.stop = true
is_stop _ = false

action_position :
    (id : RequestId) (a : PlaybackAction) (s : PlaybackSession)
    → position (dispatch_action id a s).1
      ≡ (if is_stop a && stops_clock id s then 0 else position s)
unfolding dispatch_action
action_position id (PlaybackAction.play item) s = play_position id item s
action_position id PlaybackAction.pause s = pause_position id s
action_position id PlaybackAction.resume s = resume_position id s
action_position id (PlaybackAction.seek p) s = seek_position id p s
action_position id PlaybackAction.stop s = stop_position id s
action_position id (PlaybackAction.cancel target) s = cancel_position id target s
action_position id _ s = rejected_position id _ s

-- For every command and session: the media position is zero after a stop, under a request ID that is new, of a
-- session that is not idle and whose revision, generation and epoch of the clock are not at their last value,
-- and after any other command, also one that fails half-way, it is as it was. So a pause and a resume keep it,
-- and a seek moves it only when the worker reports it applied.
pub dispatch_position :
    (c : PlaybackCommand) (s : PlaybackSession)
    → position (dispatch c s).1
      ≡ (if is_stop c.action && stops_clock c.request_id s then 0 else position s)
unfolding dispatch
dispatch_position c s = ground (arith, action_position c.request_id c.action s)
