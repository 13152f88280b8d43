-- ===== src/Playback/Session/Invariant/Recorded.antt =====
-- core/aurorix-playback/src/session.rs: the invariant under the recording of a request.
use aurorix_music.Prelude.Exec.{bind-keeps}
use aurorix_music.Prelude.{Option, none, some}
use aurorix_music.Playback.Command.{RequestId, OperationToken, RejectionReason}
use aurorix_music.Playback.Requests.{RequestTracker, RequestRecord, active, applied}
use aurorix_music.Playback.Requests
use aurorix_music.Playback.Requests.Invariant as Ledger
use aurorix_music.Playback.Requests.Invariant.{
  IsLive, record_rejected-IsLive, record_applied-IsLive, cancel-IsLive, cancel-live, start-IsValid,
  record_applied-IsValid, record_rejected-IsValid, cancel-IsValid,
}
use aurorix_music.Playback.Session.State.{PlaybackSession, PendingOperation, pending_token}
use aurorix_music.Playback.Session.Steps.{on_requests, rejected_update, record_applied_request}
use aurorix_music.Playback.Session.Invariant.{IsValid, PendingFits}

-- The pending operation fits as long as what is live in the ledger stays live.
PendingFits-requests :
    (s : PlaybackSession) (t : RequestTracker) (p : Option PendingOperation)
    → ((token : OperationToken) → IsLive s.requests token → IsLive t token)
    → PendingFits s p
    → PendingFits (record s { requests = t }) p
PendingFits-requests s t none keep h = tt
PendingFits-requests s t (some p) keep h = (h.0, h.1, λ room. keep (pending_token p) (h.2 room))

requests-IsValid :
    (s : PlaybackSession) (t : RequestTracker)
    → Ledger.IsValid t
    → ((token : OperationToken) → IsLive s.requests token → IsLive t token)
    → IsValid s
    → IsValid (record s { requests = t })
requests-IsValid s t ledger keep v = record {
  ledger = ledger;
  timeline = v.timeline;
  version_word = v.version_word;
  generation_word = v.generation_word;
  pending_fits = PendingFits-requests s t s.pending keep v.pending_fits;
  active_fits = v.active_fits;
  state_fits = v.state_fits;
  selected = v.selected;
}

pub rejected_update-IsValid :
    (id : RequestId) (reason : RejectionReason) (s : PlaybackSession)
    → IsValid s
    → IsValid (rejected_update id reason s).1
unfolding rejected_update
rejected_update-IsValid id reason s v =
    let v' =
      requests-IsValid s (Requests.record_rejected id s.requests).1
        (record_rejected-IsValid id s.requests v.ledger) (record_rejected-IsLive id s.requests) v in
    bind-keeps IsValid (on_requests (Requests.record_rejected id)) _ s v' (λ _ _. v')

pub record_applied_request-IsValid :
    (id : RequestId) (s : PlaybackSession) → IsValid s → IsValid (record_applied_request id s).1
unfolding record_applied_request
record_applied_request-IsValid id s v =
    requests-IsValid s (Requests.record_applied id s.buffer_generation s.requests).1
      (record_applied-IsValid id s.buffer_generation s.requests v.ledger)
      (record_applied-IsLive id s.buffer_generation s.requests) v
