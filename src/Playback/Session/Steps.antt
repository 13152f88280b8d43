-- ===== src/Playback/Session/Steps.antt =====
-- core/aurorix-playback/src/session.rs: the steps that the handlers of commands and of worker events
-- are made of. A step that fails leaves what was written before it.
use aurorix_music.Prelude.{Option, none}
use aurorix_music.Prelude.Exec.{Exec, ◌>>=◌, ◌>>◌, gets, modify, map_err, ok_or, ok}
use aurorix_music.Prelude.Word.{checked_add}
use aurorix_music.Playback.Command.{
  RequestId, OperationToken, RejectionReason, ResultDisposition, rejected,
}
use aurorix_music.Playback.Requests.{RequestTracker, RequestStartError}
use aurorix_music.Playback.Requests
use aurorix_music.Playback.Clock.{PresentationClock, ClockError}
use aurorix_music.Playback.Session.State.{
  SessionState, WorkerIntent, SessionUpdate, WorkerUpdate, SessionError, request_tracker,
  state_version_exhausted, buffer_generation_exhausted, PendingOperation, PlaybackSession,
  make_snapshot,
}

abbrev pub M : Type 0 → Type 0
M A = Exec PlaybackSession SessionError A

-- A method of the clock, and one of the ledger, run on the session's field.
abbrev pub on_clock : {A : Type 0} → Exec PresentationClock ClockError A → M A
on_clock m s = let (r, c) = m s.clock in (map_err SessionError.clock r, record s { clock = c })

abbrev pub on_requests : {A : Type 0} → Exec RequestTracker RequestStartError A → M A
on_requests m s =
    let (r, t) = m s.requests in (map_err request_tracker r, record s { requests = t })

unfoldable pub bump_state_version : M (Unit {0})
bump_state_version s =
    (do
      version ← ok_or state_version_exhausted (checked_add s.state_version 1)
      modify (λ s'. record s' { state_version = version }))
      s

unfoldable pub bump_buffer_generation : M (Unit {0})
bump_buffer_generation s =
    (do
      generation ← ok_or buffer_generation_exhausted (checked_add s.buffer_generation 1)
      modify (λ s'. record s' { buffer_generation = generation }))
      s

unfoldable pub start_request : RequestId → M OperationToken
start_request id s = on_requests (Requests.start id s.buffer_generation) s

unfoldable pub record_applied_request : RequestId → M OperationToken
record_applied_request id s = on_requests (Requests.record_applied id s.buffer_generation) s

-- `requests.mark_applied`, whose result the source only asserts.
unfoldable pub mark_applied : RequestId → M (Unit {0})
mark_applied id s = (ok tt, record s { requests = (Requests.mark_applied id s.requests).1 })

unfoldable pub session_update :
    RequestId → ResultDisposition → Option WorkerIntent → M SessionUpdate
unfolding make_snapshot
session_update id disposition intent = gets (λ s. record {
  result = record { request_id = id; disposition = disposition };
  intent = intent;
  snapshot = make_snapshot s;
})

unfoldable pub worker_update : ResultDisposition → Option WorkerIntent → M WorkerUpdate
unfolding make_snapshot
worker_update disposition intent =
    gets (λ s. record { disposition = disposition; intent = intent; snapshot = make_snapshot s })

unfoldable pub rejected_update : RequestId → RejectionReason → M SessionUpdate
unfolding session_update
rejected_update id reason = do
  on_requests (Requests.record_rejected id)
  session_update id (rejected reason) none

-- The assignments of the handlers.
abbrev pub set_state : SessionState → M (Unit {0})
set_state st = modify (λ s. record s { state = st })

abbrev pub set_pending : Option PendingOperation → M (Unit {0})
set_pending p = modify (λ s. record s { pending = p })

abbrev pub set_active : Option OperationToken → M (Unit {0})
set_active t = modify (λ s. record s { active_token = t })
