-- ===== src/Playback/Session/Invariant/Events.antt =====
-- core/aurorix-playback/src/session.rs: the invariant under worker events and reports of rendered frames.
use aurorix_music.Prelude.{
  ℕ, ◌≤◌, ◌≡◌, refl, Bool, true, false, some, arith, Bool-cases, Option-cases, ==_iff, subst, inl,
  inr, ◌==◌,
}
use aurorix_music.Prelude.Word.{u64_max}
use aurorix_music.Playback.Command.{OperationToken, token_eq, is_accepted}
use aurorix_music.Playback.Requests.{classify}
use aurorix_music.Playback.Requests.Invariant.{mark_applied-IsValid}
use aurorix_music.Playback.Clock
use aurorix_music.Playback.Clock.{PresentationClock}
use aurorix_music.Playback.Clock.Timeline as Timeline
use aurorix_music.Playback.Clock.Timeline.{call-IsValid, call}
use aurorix_music.Playback.Session.State.{
  SessionState, PlaybackSession, PendingOperation, pending_token, WorkerEvent, event_token,
  terminal_state,
}
use aurorix_music.Playback.Session.Dispatch.{is_empty, is_playing}
use aurorix_music.Playback.Session.Worker.{
  apply_source_ready, apply_prebuffer_ready, apply_seek_applied, apply_terminal_worker_event,
  apply_active_terminal_event, apply_event, handle_pending_event, handle_worker_event,
  record_rendered_frames, is_active_token, acknowledge_discontinuity,
}
use aurorix_music.Playback.Session.Invariant.{IsValid}

apply_source_ready-IsValid :
    (p : PendingOperation) (s : PlaybackSession)
    → IsValid s
    → s.pending ≡ some p
    → IsValid (apply_source_ready p s).1
unfolding apply_source_ready
apply_source_ready-IsValid (PendingOperation.play token resumes) s v h = ground arith
apply_source_ready-IsValid _ s v h = v

apply_prebuffer_ready-IsValid :
    (p : PendingOperation) (s : PlaybackSession)
    → IsValid s
    → s.pending ≡ some p
    → IsValid (apply_prebuffer_ready p s).1
unfolding apply_prebuffer_ready call Clock.resume_boundary Clock.source_transition_to
apply_prebuffer_ready-IsValid (PendingOperation.play token true) s v h = ground (
  arith,
  mark_applied-IsValid token.request_id s.requests v.ledger,
  call-IsValid Timeline.resume s.clock tt v.timeline,
)
apply_prebuffer_ready-IsValid (PendingOperation.play token false) s v h = ground (
  arith,
  mark_applied-IsValid token.request_id s.requests v.ledger,
  call-IsValid (Timeline.transition 0) s.clock (omega arith) v.timeline,
)
apply_prebuffer_ready-IsValid (PendingOperation.resume token) s v h = ground (
  arith,
  mark_applied-IsValid token.request_id s.requests v.ledger,
  call-IsValid Timeline.resume s.clock tt v.timeline,
)
apply_prebuffer_ready-IsValid (PendingOperation.seek token position prior true) s v h =
    ground (arith, mark_applied-IsValid token.request_id s.requests v.ledger)
apply_prebuffer_ready-IsValid (PendingOperation.seek token position prior false) s v h = v

seek_applied-IsValid :
    (token : OperationToken) (position : ℕ) (prior : SessionState) (applied : Bool)
    (s : PlaybackSession)
    → IsValid s
    → s.pending ≡ some (PendingOperation.seek token position prior applied)
    → IsValid (apply_seek_applied (PendingOperation.seek token position prior applied) position s).1
unfolding apply_seek_applied call Clock.seek_to
seek_applied-IsValid token position prior applied s v h =
    let moved = call-IsValid (Timeline.seek position) s.clock in
    record {
      ledger = ground arith;
      timeline = ground (arith, moved);
      version_word = ground arith;
      generation_word = ground arith;
      pending_fits = ground arith;
      active_fits = ground arith;
      state_fits = ground arith;
      selected = ground arith;
    }

apply_seek_applied-IsValid :
    (p : PendingOperation) (position : ℕ) (s : PlaybackSession)
    → IsValid s
    → s.pending ≡ some p
    → IsValid (apply_seek_applied p position s).1
unfolding apply_seek_applied
apply_seek_applied-IsValid (PendingOperation.seek token expected prior applied) position s v h =
    elim (Bool-cases (position == expected)) [
      | inr e ↦ rw (e, apply_seek_applied) v
      | inl e ↦
          let same : position ≡ expected = (==_iff position expected).0 e in
          subst
            (λ x.
              IsValid
                (apply_seek_applied (PendingOperation.seek token x prior applied) position s).1)
            same (seek_applied-IsValid token position prior applied s v (cc))
    ]
apply_seek_applied-IsValid _ position s v h = v

apply_terminal-IsValid :
    (p : PendingOperation) (state : SessionState) (s : PlaybackSession)
    → IsValid s
    → s.pending ≡ some p
    → is_empty state ≡ false
    → IsValid (apply_terminal_worker_event p state s).1
unfolding apply_terminal_worker_event
apply_terminal-IsValid p state s v h e =
    ground (arith, mark_applied-IsValid (pending_token p).request_id s.requests v.ledger)

apply_event-IsValid :
    (e : WorkerEvent) (p : PendingOperation) (s : PlaybackSession)
    → IsValid s
    → s.pending ≡ some p
    → IsValid (apply_event e p s).1
unfolding apply_event
apply_event-IsValid (WorkerEvent.source_ready _) p s v h = apply_source_ready-IsValid p s v h
apply_event-IsValid (WorkerEvent.prebuffer_ready _) p s v h = apply_prebuffer_ready-IsValid p s v h
apply_event-IsValid (WorkerEvent.seek_applied _ position) p s v h =
    apply_seek_applied-IsValid p position s v h
apply_event-IsValid (WorkerEvent.source_unavailable _) p s v h =
    apply_terminal-IsValid p SessionState.unavailable s v h refl
apply_event-IsValid (WorkerEvent.failed _) p s v h =
    apply_terminal-IsValid p SessionState.failed s v h refl
apply_event-IsValid (WorkerEvent.ended _) p s v h =
    apply_terminal-IsValid p SessionState.ended s v h refl

handle_pending_event-IsValid :
    (e : WorkerEvent) (s : PlaybackSession) → IsValid s → IsValid (handle_pending_event e s).1
unfolding handle_pending_event
handle_pending_event-IsValid e s v =
    elim (Bool-cases (is_accepted (classify s.requests (event_token e) s.buffer_generation))) [
      | inr r ↦ rw (r, handle_pending_event) v
      | inl r ↦ elim (Option-cases s.pending) [
        | inl n ↦ rw (r, n, handle_pending_event) v
        | inr (p, h) ↦ elim (Bool-cases (token_eq (pending_token p) (event_token e))) [
          | inr t ↦ rw (r, h, t, handle_pending_event) v
          | inl t ↦ rw (r, h, t, handle_pending_event) (apply_event-IsValid e p s v h)
        ]
      ]
    ]

apply_active_terminal-IsValid :
    (token : OperationToken) (state : SessionState) (s : PlaybackSession)
    → IsValid s
    → is_active_token s.active_token token ≡ true
    → is_empty state ≡ false
    → IsValid (apply_active_terminal_event token state s).1
unfolding apply_active_terminal_event
apply_active_terminal-IsValid token state s v a e = ground arith

terminal_state-ne-empty :
    (e : WorkerEvent) (state : SessionState)
    → terminal_state e ≡ some state
    → is_empty state ≡ false
terminal_state-ne-empty e state h = ground arith

-- Every worker event, current or stale, keeps a valid session valid, also when it fails half-way.
pub handle_worker_event-IsValid :
    (e : WorkerEvent) (s : PlaybackSession) → IsValid s → IsValid (handle_worker_event e s).1
unfolding handle_worker_event
handle_worker_event-IsValid e s v = elim (Option-cases (terminal_state e)) [
  | inl n ↦ rw (n, handle_worker_event) (handle_pending_event-IsValid e s v)
  | inr (state, h) ↦ elim (Bool-cases (is_active_token s.active_token (event_token e))) [
    | inr a ↦ rw (h, a, handle_worker_event) (handle_pending_event-IsValid e s v)
    | inl a ↦ elim (Bool-cases ((event_token e).buffer_generation == s.buffer_generation)) [
      | inr g ↦ rw (h, a, g, handle_worker_event) v
      | inl g ↦
          rw (h, a, g, handle_worker_event)
            (apply_active_terminal-IsValid (event_token e) state s v a
              (terminal_state-ne-empty e state h))
    ]
  ]
]

-- So do reports of rendered frames.
pub record_rendered_frames-IsValid :
    (n : ℕ) (s : PlaybackSession) → n ≤ u64_max → IsValid s → IsValid (record_rendered_frames n s).1
unfolding record_rendered_frames call
record_rendered_frames-IsValid n s w v = elim (Bool-cases (is_playing s.state)) [
  | inr e ↦ rw (e, record_rendered_frames) v
  | inl e ↦
      rw (e, record_rendered_frames)
        (ground (arith, call-IsValid (Timeline.advance n) s.clock w v.timeline))
]

pub acknowledge_discontinuity-IsValid :
    (s : PlaybackSession) → IsValid s → IsValid (acknowledge_discontinuity s)
unfolding acknowledge_discontinuity call
acknowledge_discontinuity-IsValid s v =
    ground (arith, call-IsValid Timeline.acknowledge s.clock tt v.timeline)
