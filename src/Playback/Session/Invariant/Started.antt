-- ===== src/Playback/Session/Invariant/Started.antt =====
-- core/aurorix-playback/src/session.rs: the invariant under the commands that make an operation pending.
use aurorix_music.Prelude.Exec.{Result-cases, bind-keeps}
use aurorix_music.Prelude.{
  leb, Bool-cases, Option-cases, inl, inr, or_else, ℕ, ◌+◌, ◌≤◌, ◌≡◌, refl, true, false, Option,
  some, arith,
}
use aurorix_music.Prelude.Word.{u64_max}
use aurorix_music.Prelude.Map.{lookup-insert}
use aurorix_music.Playback.Command.{no_current_item, invalid_state, RequestId, PlaybackItemId}
use aurorix_music.Playback.Requests.{RequestTracker, RequestRecord, active, applied}
use aurorix_music.Playback.Requests
use aurorix_music.Playback.Requests.Invariant.{start-IsValid}
use aurorix_music.Playback.Session.State.{SessionState, paused, PlaybackSession}
use aurorix_music.Playback.Session.Steps.{record_applied_request}
use aurorix_music.Playback.Session.Dispatch.{
  dispatch_play, play_item, can_play, is_paused, is_playing, dispatch_resume, dispatch_seek,
  can_seek, resume_item, seek_current,
}
use aurorix_music.Playback.Session.Invariant.{StateFits, IsValid}
use aurorix_music.Playback.Session.Invariant.Recorded.{
  rejected_update-IsValid, record_applied_request-IsValid,
}

play_item-IsValid :
    (id : RequestId) (item : PlaybackItemId) (s : PlaybackSession)
    → IsValid s
    → IsValid (play_item id item s).1
unfolding play_item Requests.start
play_item-IsValid id item s v = ground (
  arith,
  start-IsValid id s.buffer_generation s.requests v.ledger,
  lookup-insert id id (record { revision = s.requests.next_revision + 1; state = active })
      s.requests.records,
)

pub dispatch_play-IsValid :
    (id : RequestId) (item : Option PlaybackItemId) (s : PlaybackSession)
    → IsValid s
    → IsValid (dispatch_play id item s).1
unfolding dispatch_play
dispatch_play-IsValid id item s v = elim (Bool-cases (can_play s.state)) [
  | inl e ↦ elim (Option-cases (or_else item s.current_item)) [
    | inl e' ↦ rw (e, e', dispatch_play) (rejected_update-IsValid id no_current_item s v)
    | inr (i, e') ↦ rw (e, e', dispatch_play) (play_item-IsValid id i s v)
  ]
  | inr e ↦ rw (e, dispatch_play) (rejected_update-IsValid id invalid_state s v)
]

resume_item-IsValid :
    (id : RequestId) (item : PlaybackItemId) (s : PlaybackSession)
    → IsValid s
    → s.current_item ≡ some item
    → IsValid (resume_item id item s).1
unfolding resume_item Requests.start
resume_item-IsValid id item s v h = ground (
  arith,
  start-IsValid id s.buffer_generation s.requests v.ledger,
  lookup-insert id id (record { revision = s.requests.next_revision + 1; state = active })
      s.requests.records,
)

eq_of_is_paused : (st : SessionState) → is_paused st ≡ true → st ≡ paused
eq_of_is_paused paused h = refl
eq_of_is_paused _ h = cc

-- A seek in a paused session leaves it paused.
seek_paused-IsValid :
    (id : RequestId) (position : ℕ) (item : PlaybackItemId) (s : PlaybackSession)
    → IsValid s
    → is_paused s.state ≡ true
    → s.current_item ≡ some item
    → position ≤ u64_max
    → IsValid (seek_current id position s).1
unfolding seek_current Requests.start
seek_paused-IsValid id position item s v p h w =
    let started = start-IsValid id s.buffer_generation s.requests v.ledger in
    let kept =
      lookup-insert id id (record { revision = s.requests.next_revision + 1; state = active })
        s.requests.records in
    let q = eq_of_is_paused s.state p in
    rw (p, seek_current)
      (record {
        ledger = ground (arith, started);
        timeline = ground arith;
        version_word = ground arith;
        generation_word = ground arith;
        pending_fits = ground (arith, kept);
        active_fits = ground arith;
        state_fits = ground arith;
        selected = ground arith;
      })

-- In any other it buffers.
seek_moving-StateFits :
    (id : RequestId) (position : ℕ) (s : PlaybackSession)
    → StateFits s.state s.pending
    → is_paused s.state ≡ false
    → position ≤ u64_max
    → StateFits (seek_current id position s).1.state (seek_current id position s).1.pending
unfolding seek_current
seek_moving-StateFits id position s old p w =
    elim (Result-cases (Requests.start id s.buffer_generation s.requests).0) [
      | inl (_, e) ↦ rw (e, seek_current) old
      | inr (_, e) ↦ elim (Bool-cases (leb (s.buffer_generation + 1) u64_max)) [
        | inr full ↦ rw (e, full, seek_current) old
        | inl room ↦ elim (Bool-cases (leb (s.state_version + 1) u64_max)) [
          | inl b ↦ rw (e, room, p, b, seek_current) (inr (p, refl), w)
          | inr b ↦ rw (e, room, p, b, seek_current) (inr (p, refl), w)
        ]
      ]
    ]

seek_moving-IsValid :
    (id : RequestId) (position : ℕ) (item : PlaybackItemId) (s : PlaybackSession)
    → IsValid s
    → is_paused s.state ≡ false
    → s.current_item ≡ some item
    → position ≤ u64_max
    → IsValid (seek_current id position s).1
unfolding seek_current Requests.start
seek_moving-IsValid id position item s v p h w =
    let started = start-IsValid id s.buffer_generation s.requests v.ledger in
    let kept =
      lookup-insert id id (record { revision = s.requests.next_revision + 1; state = active })
        s.requests.records in
    record {
      ledger = rw (p, seek_current) (ground (arith, started));
      timeline = rw (p, seek_current) (ground arith);
      version_word = rw (p, seek_current) (ground arith);
      generation_word = rw (p, seek_current) (ground arith);
      pending_fits = rw (p, seek_current) (ground (arith, kept));
      active_fits = rw (p, seek_current) (ground arith);
      state_fits = seek_moving-StateFits id position s v.state_fits p w;
      selected = rw (p, seek_current) (ground arith);
    }

seek_current-IsValid :
    (id : RequestId) (position : ℕ) (item : PlaybackItemId) (s : PlaybackSession)
    → IsValid s
    → s.current_item ≡ some item
    → position ≤ u64_max
    → IsValid (seek_current id position s).1
seek_current-IsValid id position item s v h w = elim (Bool-cases (is_paused s.state)) [
  | inl p ↦ seek_paused-IsValid id position item s v p h w
  | inr p ↦ seek_moving-IsValid id position item s v p h w
]

pub dispatch_resume-IsValid :
    (id : RequestId) (s : PlaybackSession) → IsValid s → IsValid (dispatch_resume id s).1
unfolding dispatch_resume
dispatch_resume-IsValid id s v = elim (Bool-cases (is_playing s.state)) [
  | inl e ↦
      let v' = record_applied_request-IsValid id s v in
      rw (e, dispatch_resume) (bind-keeps IsValid (record_applied_request id) _ s v' (λ _ _. v'))
  | inr e ↦ elim (Bool-cases (is_paused s.state)) [
    | inr e' ↦ rw (e, e', dispatch_resume) (rejected_update-IsValid id invalid_state s v)
    | inl e' ↦ elim (Option-cases s.current_item) [
      | inl n ↦ rw (e, e', n, dispatch_resume) (rejected_update-IsValid id no_current_item s v)
      | inr (item, h) ↦ rw (e, e', h, dispatch_resume) (resume_item-IsValid id item s v h)
    ]
  ]
]

pub dispatch_seek-IsValid :
    (id : RequestId) (position : ℕ) (s : PlaybackSession)
    → position ≤ u64_max
    → IsValid s
    → IsValid (dispatch_seek id position s).1
unfolding dispatch_seek
dispatch_seek-IsValid id position s w v = elim (Bool-cases (can_seek s.state)) [
  | inr e ↦ rw (e, dispatch_seek) (rejected_update-IsValid id invalid_state s v)
  | inl e ↦ elim (Option-cases s.current_item) [
    | inl n ↦ rw (e, n, dispatch_seek) (rejected_update-IsValid id no_current_item s v)
    | inr (item, h) ↦ rw (e, h, dispatch_seek) (seek_current-IsValid id position item s v h w)
  ]
]
