-- ===== src/Playback/Examples/Sessions.antt =====
-- A session that is asked to play one item.
use aurorix_music.Prelude.{◌&&◌, if◌then◌else◌, ◌≡◌, refl, false, none, some, List, [], ◌∷◌, arith}
use aurorix_music.Prelude.Exec.{ok}
use aurorix_music.Prelude.Map.{lookup, insert}
use aurorix_music.Playback.Command.{
  PlaybackItemId, PlaybackAction, PlaybackCommand, OperationToken, StaleReason, stale, accepted,
  rejected, duplicate_request,
}
use aurorix_music.Playback.Requests
use aurorix_music.Playback.Session.State.{
  PlaybackSession, PendingOperation, WorkerEvent, WorkerIntent, with_clock, make_snapshot,
}
use aurorix_music.Playback.Session.Dispatch.{dispatch, dispatch_play}
use aurorix_music.Playback.Session.Worker.{handle_worker_event, apply_event}
use aurorix_music.Playback.Session.Invariant.{IsValid}
use aurorix_music.Playback.Session.Runs.{
  SessionCall, command, event, rendered, step, run, run_new-IsValid,
}
use aurorix_music.Playback.Session.Fence.{
  Ignored, unaccepted_unchanged, retired-Ignored, pending_event_handled,
}
use aurorix_music.Playback.Session.Position.{position, is_stop, stops_clock, dispatch_position}
use aurorix_music.Playback.Session.Growth.{Grows, run-Grows}
use aurorix_music.Playback.Session.Once.{dispatch_once}
use aurorix_music.Playback.Session.Progress.{play_reaches-IsPlaying, IsPlaying, play_command}
use aurorix_music.Playback.Examples.Timeline.{clock_44k, clock_44k-IsValid}

abbrev item_a : PlaybackItemId
item_a = b'a' ∷ []

abbrev idle : PlaybackSession
idle = with_clock clock_44k

abbrev play_a : List SessionCall
play_a = command (play_command 1 item_a) ∷ []

-- The session that resolves the source of the item.
abbrev resolving : PlaybackSession
resolving = run idle play_a

abbrev token_1 : OperationToken
token_1 = record { request_id = 1; revision = 1; buffer_generation = 1 }

abbrev old_token : OperationToken
old_token = record { request_id = 1; revision = 1; buffer_generation = 0 }

resolving-IsValid : IsValid resolving
resolving-IsValid = run_new-IsValid clock_44k play_a clock_44k-IsValid (tt, tt)

abbrev history : List SessionCall
history =
    command (play_command 1 item_a)
    ∷ event (WorkerEvent.source_ready token_1)
    ∷ rendered 480
    ∷ command (record { request_id = 2; action = PlaybackAction.seek 5000000 })
    ∷ event (WorkerEvent.prebuffer_ready token_1)
    ∷ []

run_new-IsValid_example : IsValid (run idle history)
run_new-IsValid_example =
    run_new-IsValid clock_44k history clock_44k-IsValid
      (tt, (tt, (omega arith, (omega arith, (tt, tt)))))

retired-Ignored_example :
    Ignored
      (run resolving history)
      (handle_worker_event (WorkerEvent.ended old_token) (run resolving history))
unfolding run step dispatch dispatch_play Requests.start lookup insert with_clock
retired-Ignored_example =
    retired-Ignored (WorkerEvent.ended old_token) resolving history resolving-IsValid
      (tt, (tt, (omega arith, (omega arith, (tt, tt))))) (omega arith)

unaccepted_unchanged_example :
    (handle_worker_event (WorkerEvent.source_ready token_1) idle).1 ≡ idle
unfolding handle_worker_event Requests.classify lookup with_clock
unaccepted_unchanged_example =
    unaccepted_unchanged (WorkerEvent.source_ready token_1) idle
      (handle_worker_event (WorkerEvent.source_ready token_1) idle).1
      (record {
        disposition = stale StaleReason.unknown_request;
        intent = none;
        snapshot = make_snapshot idle;
      })
      refl refl

pending_event_handled_example :
    handle_worker_event (WorkerEvent.source_ready token_1) resolving
    ≡ apply_event (WorkerEvent.source_ready token_1) (PendingOperation.play token_1 false) resolving
unfolding run step dispatch dispatch_play Requests.start lookup insert with_clock
pending_event_handled_example =
    pending_event_handled (WorkerEvent.source_ready token_1) resolving
      (PendingOperation.play token_1 false) resolving-IsValid (omega arith) refl refl

run-Grows_example : Grows idle (run idle history)
run-Grows_example = run-Grows idle history

dispatch_once_example :
    dispatch
      (record { request_id = 1; action = PlaybackAction.stop })
      (dispatch (play_command 1 item_a) idle).1
    ≡ (
      ok (record {
        result = record { request_id = 1; disposition = rejected duplicate_request };
        intent = none;
        snapshot = make_snapshot (dispatch (play_command 1 item_a) idle).1;
      }),
      (dispatch (play_command 1 item_a) idle).1,
    )
unfolding dispatch dispatch_play Requests.start lookup insert with_clock
dispatch_once_example =
    dispatch_once (play_command 1 item_a) (record { request_id = 1; action = PlaybackAction.stop })
      idle (dispatch (play_command 1 item_a) idle).1
      (record {
        result = record { request_id = 1; disposition = accepted 1 };
        intent = some (WorkerIntent.resolve_source token_1 item_a);
        snapshot = make_snapshot (dispatch (play_command 1 item_a) idle).1;
      })
      refl refl

play_reaches-IsPlaying_example :
    IsPlaying
      (run idle (
        command (play_command 1 item_a)
        ∷ event (WorkerEvent.source_ready token_1)
        ∷ event (WorkerEvent.prebuffer_ready token_1)
        ∷ []))
      token_1
      item_a
unfolding run with_clock lookup
play_reaches-IsPlaying_example =
    play_reaches-IsPlaying idle 1 item_a (run_new-IsValid clock_44k [] clock_44k-IsValid tt)
      (omega arith) refl refl refl

abbrev stop_command : PlaybackCommand
stop_command = record { request_id = 2; action = PlaybackAction.stop }

dispatch_position_example : position (dispatch stop_command resolving).1 ≡ (
    if is_stop stop_command.action && stops_clock stop_command.request_id resolving
    then 0
    else position resolving)
dispatch_position_example = dispatch_position stop_command resolving
