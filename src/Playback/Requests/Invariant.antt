-- ===== src/Playback/Requests/Invariant.antt =====
-- core/aurorix-playback/src/command.rs: the invariant of the request ledger.
use aurorix_music.Prelude.{
  ℕ, ◌+◌, ◌≤◌, ◌≡◌, ◌≢◌, refl, true, some, List, inl, inr, arith, Option-cases, ◌==◌,
}
use aurorix_music.Prelude.Map.{lookup, insert, lookup-insert}
use aurorix_music.Playback.Command.{RequestId, OperationToken, cancelled_before_commit}
use aurorix_music.Playback.Requests.{
  RequestTracker, RequestRecord, RequestState, active, applied, rejected, start, record_rejected,
  record_applied, mark_applied, cancel, new, outcome_of, put_state,
}

abbrev Records : Type 0
Records = List (RequestId × RequestRecord)

-- No two requests share a revision, and none lies above the counter.
pub record IsNumbered (next : ℕ) (m : Records) : Type 0 where
  pub bounded : (id : RequestId) (r : RequestRecord) → lookup id m ≡ some r → r.revision ≤ next
  pub distinct :
      (i j : RequestId) (r q : RequestRecord)
      → lookup i m ≡ some r
      → lookup j m ≡ some q
      → r.revision ≡ q.revision
      → i ≡ j

pub record IsValid (t : RequestTracker) : Type 0 where
  pub latest_taken : t.latest_revision ≤ t.next_revision
  pub numbered : IsNumbered t.next_revision t.records

-- A new request under the next revision.
IsNumbered-insert :
    (next : ℕ) (m : Records) (id : RequestId) (r : RequestRecord)
    → r.revision ≡ next + 1
    → IsNumbered next m
    → IsNumbered (next + 1) (insert id r m)
IsNumbered-insert next m id r e v = record {
  bounded = λ i q h. ground (arith, lookup-insert id i r m, v.bounded i q);
  distinct = λ i j p q hi hj same. ground (
    arith,
    lookup-insert id i r m,
    lookup-insert id j r m,
    v.bounded i p,
    v.bounded j q,
    v.distinct i j p q,
  );
}

-- A record that keeps its revision.
IsNumbered-put :
    (next : ℕ) (m : Records) (id : RequestId) (r r' : RequestRecord)
    → lookup id m ≡ some r
    → r'.revision ≡ r.revision
    → IsNumbered next m
    → IsNumbered next (insert id r' m)
IsNumbered-put next m id r r' found e v = record {
  bounded = λ i q h. ground (arith, lookup-insert id i r' m, v.bounded i q, v.bounded id r);
  distinct = λ i j p q hi hj same. ground (
    arith,
    lookup-insert id i r' m,
    lookup-insert id j r' m,
    v.distinct i j p q,
    v.distinct id j r q,
    v.distinct i id p r,
  );
}

pub new-IsValid : IsValid new
unfolding lookup
new-IsValid = record {
  latest_taken = omega arith;
  numbered = record { bounded = λ id r h. cc; distinct = λ i j r q hi hj same. cc };
}

pub start-IsValid :
    (id : RequestId) (g : ℕ) (t : RequestTracker) → IsValid t → IsValid (start id g t).1
unfolding start
start-IsValid id g t v = ground (
  arith,
  IsNumbered-insert t.next_revision t.records id
      (record { revision = t.next_revision + 1; state = active }) refl v.numbered,
)

pub record_rejected-IsValid :
    (id : RequestId) (t : RequestTracker) → IsValid t → IsValid (record_rejected id t).1
unfolding record_rejected
record_rejected-IsValid id t v = ground (
  arith,
  IsNumbered-insert t.next_revision t.records id
      (record { revision = t.next_revision + 1; state = rejected }) refl v.numbered,
)

pub record_applied-IsValid :
    (id : RequestId) (g : ℕ) (t : RequestTracker) → IsValid t → IsValid (record_applied id g t).1
unfolding record_applied
record_applied-IsValid id g t v = ground (
  arith,
  IsNumbered-insert t.next_revision t.records id
      (record { revision = t.next_revision + 1; state = applied }) refl v.numbered,
)

put_state-IsValid :
    (t : RequestTracker) (id : RequestId) (r : RequestRecord) (state : RequestState)
    → lookup id t.records ≡ some r
    → IsValid t
    → IsValid (put_state t id r state)
put_state-IsValid t id r state found v = record {
  latest_taken = v.latest_taken;
  numbered = IsNumbered-put _ _ id r _ found refl v.numbered;
}

pub mark_applied-IsValid :
    (id : RequestId) (t : RequestTracker) → IsValid t → IsValid (mark_applied id t).1
unfolding mark_applied
mark_applied-IsValid id t v = elim (Option-cases (lookup id t.records)) [
  | inl e ↦ rw (e, mark_applied) v
  | inr (r, e) ↦ ground (arith, put_state-IsValid t id r applied e v)
]

pub cancel-IsValid : (id : RequestId) (t : RequestTracker) → IsValid t → IsValid (cancel id t).1
unfolding cancel
cancel-IsValid id t v = elim (Option-cases (lookup id t.records)) [
  | inl e ↦ rw (e, cancel) v
  | inr (r, e) ↦ ground (
    arith,
    put_state-IsValid t id r
        (RequestState.cancelled (outcome_of r.state (r.revision == t.latest_revision))) e v,
  )
]

-- The ledger holds the request of a token as its latest, and as not yet applied.
abbrev pub IsLive : RequestTracker → OperationToken → Type 0
IsLive t token =
    (lookup token.request_id t.records
      ≡ some (record { revision = token.revision; state = active }))
    × (token.revision ≡ t.latest_revision)

-- Commands that are answered at once leave a live operation live.
pub record_rejected-IsLive :
    (id : RequestId) (t : RequestTracker) (token : OperationToken)
    → IsLive t token
    → IsLive (record_rejected id t).1 token
unfolding record_rejected
record_rejected-IsLive id t token h = ground (
  arith,
  lookup-insert id token.request_id (record { revision = t.next_revision + 1; state = rejected })
      t.records,
)

pub record_applied-IsLive :
    (id : RequestId) (g : ℕ) (t : RequestTracker) (token : OperationToken)
    → IsLive t token
    → IsLive (record_applied id g t).1 token
unfolding record_applied
record_applied-IsLive id g t token h = ground (
  arith,
  lookup-insert id token.request_id (record { revision = t.next_revision + 1; state = applied })
      t.records,
)

-- So does the cancellation of another request.
pub cancel-IsLive :
    (id : RequestId) (t : RequestTracker) (token : OperationToken)
    → token.request_id ≢ id
    → IsLive t token
    → IsLive (cancel id t).1 token
unfolding cancel
cancel-IsLive id t token other h = elim (Option-cases (lookup id t.records)) [
  | inl e ↦ rw (e, cancel) h
  | inr (r, e) ↦ ground (
    arith,
    lookup-insert id token.request_id
        (record {
          revision = r.revision;
          state = RequestState.cancelled (outcome_of r.state (r.revision == t.latest_revision));
        })
        t.records,
  )
]

-- A live operation can be cancelled before it commits.
pub cancel-live :
    (t : RequestTracker) (token : OperationToken)
    → IsLive t token
    → (cancel token.request_id t).0 ≡ cancelled_before_commit
unfolding cancel
cancel-live t token h = ground arith

-- A live operation is marked applied: the assertion on the result of `mark_applied` holds.
pub mark_applied-live :
    (t : RequestTracker) (token : OperationToken)
    → IsLive t token
    → (mark_applied token.request_id t).0 ≡ true
unfolding mark_applied
mark_applied-live t token h = ground arith
