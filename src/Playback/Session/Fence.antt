-- ===== src/Playback/Session/Fence.antt =====
-- core/aurorix-playback/src/session.rs: the fence between worker results and the session.
use aurorix_music.Prelude.{
  ◌<◌, ◌≡◌, ◌≢◌, refl, true, false, some, arith, List, Bool-cases, Option-cases, inl, inr, subst,
  ◌==◌,
}
use aurorix_music.Prelude.Exec.{Result, ok, err}
use aurorix_music.Prelude.Word.{u64_max}
use aurorix_music.Playback.Command.{OperationToken, token_eq, is_accepted, accepted}
use aurorix_music.Playback.Requests
use aurorix_music.Playback.Requests.{classify}
use aurorix_music.Playback.Requests.Fence.{record-accepted}
use aurorix_music.Playback.Requests.Invariant.{mark_applied-live}
use aurorix_music.Playback.Session.State.{
  PlaybackSession, SessionState, SessionError, PendingOperation, pending_token, WorkerEvent,
  WorkerUpdate, event_token, terminal_state,
}
use aurorix_music.Playback.Session.Worker.{
  apply_source_ready, apply_prebuffer_ready, apply_seek_applied, apply_terminal_worker_event,
  apply_active_terminal_event, apply_event, handle_pending_event, handle_worker_event,
  is_active_token,
}
use aurorix_music.Playback.Session.Invariant.{IsValid, PendingFits}
use aurorix_music.Playback.Session.Runs.{SessionCall, CallsAreWords, run, run-IsValid}
use aurorix_music.Playback.Session.Growth.{run-Grows}

-- A result that says the event was not accepted comes with the session as it was.
abbrev Unwritten : PlaybackSession → Result SessionError WorkerUpdate × PlaybackSession → Type 0
Unwritten s (ok u, t) = is_accepted u.disposition ≡ false → t ≡ s
Unwritten s (err e, t) = Unit {0}

apply_event-Unwritten :
    (e : WorkerEvent) (p : PendingOperation) (s : PlaybackSession) → Unwritten s (apply_event e p s)
unfolding apply_event apply_source_ready apply_prebuffer_ready apply_seek_applied
    apply_terminal_worker_event
apply_event-Unwritten (WorkerEvent.source_ready _) p s = ground arith
apply_event-Unwritten _ p s = ground arith

apply_active-Unwritten :
    (t : OperationToken) (st : SessionState) (s : PlaybackSession)
    → Unwritten s (apply_active_terminal_event t st s)
unfolding apply_active_terminal_event
apply_active-Unwritten t st s = ground arith

handle_pending-Unwritten :
    (e : WorkerEvent) (s : PlaybackSession) → Unwritten s (handle_pending_event e s)
unfolding handle_pending_event
handle_pending-Unwritten e s =
    elim (Bool-cases (is_accepted (classify s.requests (event_token e) s.buffer_generation))) [
      | inr r ↦ rw (r, handle_pending_event) (λ _. refl)
      | inl r ↦ elim (Option-cases s.pending) [
        | inl n ↦ rw (r, n, handle_pending_event) (λ _. refl)
        | inr (p, h) ↦ elim (Bool-cases (token_eq (pending_token p) (event_token e))) [
          | inr t ↦ rw (r, h, t, handle_pending_event) (λ _. refl)
          | inl t ↦ rw (r, h, t, handle_pending_event) (apply_event-Unwritten e p s)
        ]
      ]
    ]

handle_worker_event-Unwritten :
    (e : WorkerEvent) (s : PlaybackSession) → Unwritten s (handle_worker_event e s)
unfolding handle_worker_event
handle_worker_event-Unwritten e s = elim (Option-cases (terminal_state e)) [
  | inl n ↦ rw (n, handle_worker_event) (handle_pending-Unwritten e s)
  | inr (state, h) ↦ elim (Bool-cases (is_active_token s.active_token (event_token e))) [
    | inr a ↦ rw (h, a, handle_worker_event) (handle_pending-Unwritten e s)
    | inl a ↦ elim (Bool-cases ((event_token e).buffer_generation == s.buffer_generation)) [
      | inr g ↦ rw (h, a, g, handle_worker_event) (λ _. refl)
      | inl g ↦ rw (h, a, g, handle_worker_event) (apply_active-Unwritten (event_token e) state s)
    ]
  ]
]

-- A worker event that is answered by anything but `accepted` (stale, cancelled or rejected, on any
-- branch) leaves every field of the session as it was, valid or not.
pub unaccepted_unchanged :
    (e : WorkerEvent) (s t : PlaybackSession) (u : WorkerUpdate)
    → handle_worker_event e s ≡ (ok u, t)
    → is_accepted u.disposition ≡ false
    → t ≡ s
unaccepted_unchanged e s t u h = subst (Unwritten s) h (handle_worker_event-Unwritten e s)

-- The event was answered, without an error, by something other than `accepted`, and wrote nothing.
abbrev pub Ignored : PlaybackSession → Result SessionError WorkerUpdate × PlaybackSession → Type 0
Ignored s (ok u, t) = (is_accepted u.disposition ≡ false) × (t ≡ s)
Ignored s (err e, t) = ⊥

not_active :
    (s : PlaybackSession) (t : OperationToken)
    → IsValid s
    → t.buffer_generation ≢ s.buffer_generation
    → is_active_token s.active_token t ≡ false
not_active s t v h = ground arith

not_classified :
    (s : PlaybackSession) (t : OperationToken)
    → t.buffer_generation ≢ s.buffer_generation
    → is_accepted (classify s.requests t s.buffer_generation) ≡ false
unfolding classify
not_classified s t h = ground arith

pub other_generation-Ignored :
    (e : WorkerEvent) (s : PlaybackSession)
    → IsValid s
    → (event_token e).buffer_generation ≢ s.buffer_generation
    → Ignored s (handle_worker_event e s)
unfolding handle_worker_event handle_pending_event
other_generation-Ignored e s v h =
    ground (arith, not_active s (event_token e) v h, not_classified s (event_token e) h)

-- A worker event of a generation that a valid session has retired is ignored for ever: after any further
-- calls with machine-word arguments, failures included, it is not accepted, raises no error and writes nothing.
pub retired-Ignored :
    (e : WorkerEvent) (s : PlaybackSession) (cs : List SessionCall)
    → IsValid s
    → CallsAreWords cs
    → (event_token e).buffer_generation < s.buffer_generation
    → Ignored (run s cs) (handle_worker_event e (run s cs))
retired-Ignored e s cs v w h =
    other_generation-Ignored e (run s cs) (run-IsValid s cs w v)
      (λ same. omega (arith, (run-Grows s cs).generation))

token_eq_refl : (t : OperationToken) → token_eq t t ≡ true
token_eq_refl t = ground arith

-- What the invariant says of a pending operation.
pub pending_fits :
    (s : PlaybackSession) (p : PendingOperation)
    → IsValid s
    → s.pending ≡ some p
    → PendingFits s (some p)
pending_fits s p v h = subst (PendingFits s) h v.pending_fits

pending_classified :
    (s : PlaybackSession) (p : PendingOperation)
    → IsValid s
    → s.buffer_generation < u64_max
    → s.pending ≡ some p
    → classify s.requests (pending_token p) s.buffer_generation
      ≡ accepted (pending_token p).revision
pending_classified s p v room h =
    let fits = pending_fits s p v h in
    subst (λ g. classify s.requests (pending_token p) g ≡ accepted (pending_token p).revision)
      fits.0
      (record-accepted s.requests (pending_token p) (pending_token p).revision (fits.2 room).0
        (fits.2 room).1)

pending_handled :
    (e : WorkerEvent) (s : PlaybackSession) (p : PendingOperation)
    → s.pending ≡ some p
    → event_token e ≡ pending_token p
    → classify s.requests (pending_token p) s.buffer_generation
      ≡ accepted (pending_token p).revision
    → handle_pending_event e s ≡ apply_event e p s
unfolding handle_pending_event
pending_handled e s p h same c = ground (arith, token_eq_refl (pending_token p))

-- In a valid session with an operation pending, whose generation is not the last one, an event that carries the
-- token of this operation is answered as the handler of its phase answers it: neither the classification of
-- the token nor its comparison turns it away before.
pub pending_event_handled :
    (e : WorkerEvent) (s : PlaybackSession) (p : PendingOperation)
    → IsValid s
    → s.buffer_generation < u64_max
    → s.pending ≡ some p
    → event_token e ≡ pending_token p
    → handle_worker_event e s ≡ apply_event e p s
unfolding handle_worker_event
pending_event_handled e s p v room h same =
    let idle : is_active_token s.active_token (event_token e) ≡ false =
      rw (pending_fits s p v h).1 in
    let handled = pending_handled e s p h same (pending_classified s p v room h) in
    elim (Option-cases (terminal_state e)) [
      | inl n ↦ rw (n, handle_worker_event) handled
      | inr (state, t) ↦ rw (t, idle, handle_worker_event) handled
    ]

-- In a valid session whose generation is not the last one, the request of the pending operation is one
-- that `mark_applied` marks, so that the assertions on its result hold in the handlers.
pub pending_is_marked :
    (s : PlaybackSession) (p : PendingOperation)
    → IsValid s
    → s.buffer_generation < u64_max
    → s.pending ≡ some p
    → (Requests.mark_applied (pending_token p).request_id s.requests).0 ≡ true
pending_is_marked s p v room h =
    mark_applied-live s.requests (pending_token p) ((pending_fits s p v h).2 room)
