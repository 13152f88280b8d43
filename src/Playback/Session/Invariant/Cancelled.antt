-- ===== src/Playback/Session/Invariant/Cancelled.antt =====
-- core/aurorix-playback/src/session.rs: the invariant under a cancellation.
use aurorix_music.Prelude.Exec.{bind-keeps, ◌>>◌}
use aurorix_music.Prelude.{
  is_some, ◌&&◌, ◌==◌, Bool-cases, inl, inr, ◌≡◌, true, false, Option, none, some, arith,
}
use aurorix_music.Playback.Command.{
  ResultDisposition, cancelled, unknown_cancellation_target, RequestId,
}
use aurorix_music.Playback.Requests.{RequestTracker, RequestRecord, active, applied}
use aurorix_music.Playback.Requests
use aurorix_music.Playback.Requests.Invariant.{cancel-IsLive, cancel-live, cancel-IsValid}
use aurorix_music.Playback.Session.State.{PlaybackSession, PendingOperation, pending_token}
use aurorix_music.Playback.Session.Steps.{session_update, record_applied_request}
use aurorix_music.Playback.Session.Dispatch.{
  is_pending_request, is_before_commit, is_unknown, cancel_known, dispatch_cancel, retire_pending,
}
use aurorix_music.Playback.Session.Invariant.{IsValid, PendingFits}
use aurorix_music.Playback.Session.Invariant.Recorded.{
  rejected_update-IsValid, record_applied_request-IsValid,
}

-- Retiring the pending operation asks nothing of it.
retire_pending-IsValid :
    (s : PlaybackSession)
    → IsValid (record s { pending = none })
    → is_some s.current_item ≡ true
    → s.active_token ≡ none
    → IsValid (retire_pending s).1
unfolding retire_pending
retire_pending-IsValid s v h a = ground arith

-- A cancellation that does not retire the pending operation leaves it live.
PendingFits-cancel :
    (s : PlaybackSession) (target : RequestId) (p : Option PendingOperation)
    → (is_pending_request p target && is_before_commit (Requests.cancel target s.requests).0)
      ≡ false
    → PendingFits s p
    → PendingFits (record s { requests = (Requests.cancel target s.requests).1 }) p
PendingFits-cancel s target none e h = tt
PendingFits-cancel s target (some p) e h = (
  h.0,
  h.1,
  λ room. elim (Bool-cases ((pending_token p).request_id == target)) [
    | inl same ↦ ground (arith, cancel-live s.requests (pending_token p) (h.2 room))
    | inr other ↦
        cancel-IsLive target s.requests (pending_token p) (λ same. ground arith) (h.2 room)
  ],
)

cancel_request-IsValid :
    (s : PlaybackSession) (target : RequestId)
    → (is_pending_request s.pending target
        && is_before_commit (Requests.cancel target s.requests).0)
      ≡ false
    → IsValid s
    → IsValid (record s { requests = (Requests.cancel target s.requests).1 })
cancel_request-IsValid s target e v = record {
  ledger = cancel-IsValid target s.requests v.ledger;
  timeline = v.timeline;
  version_word = v.version_word;
  generation_word = v.generation_word;
  pending_fits = PendingFits-cancel s target s.pending e v.pending_fits;
  active_fits = v.active_fits;
  state_fits = v.state_fits;
  selected = v.selected;
}

-- A pending operation has a current item and excludes an active token.
pending_facts :
    (s : PlaybackSession) (target : RequestId)
    → IsValid s
    → is_pending_request s.pending target ≡ true
    → (is_some s.current_item ≡ true) × (s.active_token ≡ none)
pending_facts s target v h = ground arith

-- The session with the ledger cancelled and the pending operation dropped.
dropped-IsValid :
    (s : PlaybackSession) (target : RequestId)
    → IsValid s
    → IsValid (record s { requests = (Requests.cancel target s.requests).1; pending = none })
dropped-IsValid s target v = record {
  ledger = cancel-IsValid target s.requests v.ledger;
  timeline = v.timeline;
  version_word = v.version_word;
  generation_word = v.generation_word;
  pending_fits = tt;
  active_fits = v.active_fits;
  state_fits = tt;
  selected = v.selected;
}

-- The tail of a cancellation: the command itself is recorded.
cancel_tail-IsValid :
    (id : RequestId) (d : ResultDisposition) (s : PlaybackSession)
    → IsValid s
    → IsValid ((record_applied_request id >> session_update id d none) s).1
unfolding session_update
cancel_tail-IsValid id d s v =
    let v' = record_applied_request-IsValid id s v in
    bind-keeps IsValid (record_applied_request id) (λ _. session_update id d none) s v' (λ _ _. v')

cancel_known-IsValid :
    (id target : RequestId) (s : PlaybackSession) → IsValid s → IsValid (cancel_known id target s).1
unfolding cancel_known
cancel_known-IsValid id target s v =
    elim (Bool-cases (
      is_pending_request s.pending target
      && is_before_commit (Requests.cancel target s.requests).0)) [
        | inr e ↦
            rw (e, cancel_known) (cancel_tail-IsValid id _ _ (cancel_request-IsValid s target e v))
        | inl e ↦
            let (item, idle) = pending_facts s target v (ground arith) in
            let d = cancelled target (Requests.cancel target s.requests).0 in
            let v' =
              retire_pending-IsValid (record s { requests = (Requests.cancel target s.requests).1 })
                (dropped-IsValid s target v) item idle in
            rw (e, cancel_known)
              (bind-keeps IsValid retire_pending
                (λ _. record_applied_request id >> session_update id d none)
                (record s { requests = (Requests.cancel target s.requests).1 }) v'
                (λ _ _. cancel_tail-IsValid id d _ v'))
      ]

pub dispatch_cancel-IsValid :
    (id target : RequestId) (s : PlaybackSession)
    → IsValid s
    → IsValid (dispatch_cancel id target s).1
unfolding dispatch_cancel
dispatch_cancel-IsValid id target s v =
    let refused = rejected_update-IsValid id unknown_cancellation_target s v in
    elim (Bool-cases (id == target)) [
      | inl e ↦ rw (e, dispatch_cancel) refused
      | inr e ↦ elim (Bool-cases (is_unknown (Requests.cancellation_outcome s.requests target))) [
        | inl u ↦ rw (e, u, dispatch_cancel) refused
        | inr u ↦ rw (e, u, dispatch_cancel) (cancel_known-IsValid id target s v)
      ]
    ]
