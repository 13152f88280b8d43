-- ===== src/Playback/Requests.antt =====
-- core/aurorix-playback/src/command.rs, `RequestTracker`: the session's ledger of requests, which
-- classifies cancellations and late worker results.
pub mod Invariant
pub mod Fence
use aurorix_music.Prelude.{
  ℕ, suc, Bool, true, false, ◌&&◌, Option, none, some, List, [], ◌∷◌, ◌==◌, not, if◌then◌else◌, ltb,
}
use aurorix_music.Prelude.Exec.{
  Result, ok, err, Exec, ◌>>=◌, ◌>>◌, pure, raise, gets, modify, ok_or,
}
use aurorix_music.Prelude.Map.{lookup, insert, contains_key}
use aurorix_music.Prelude.Word.{checked_add}
use aurorix_music.Playback.Command.{
  RequestId, OperationToken, StaleReason, CancellationOutcome, cancelled_before_commit,
  already_applied, already_cancelled, outcome_unknown, ResultDisposition, accepted, stale,
}

pub data RequestStartError : Type 0 where
  duplicate_request revision_exhausted : RequestStartError

pub data RequestState : Type 0 where
  active applied rejected : RequestState
  cancelled : CancellationOutcome → RequestState

pub record RequestRecord : Type 0 where
  pub revision : ℕ
  pub state : RequestState

pub record RequestTracker : Type 0 where
  pub next_revision : ℕ
  pub latest_revision : ℕ
  pub records : List (RequestId × RequestRecord)

abbrev pub new : RequestTracker
new = record { next_revision = 0; latest_revision = 0; records = [] }

-- `RequestTracker::contains`.
abbrev pub contains : RequestTracker → RequestId → Bool
contains t id = contains_key id t.records

abbrev M : Type 0 → Type 0
M A = Exec RequestTracker RequestStartError A

-- The common head of the three recording methods: a fresh ID takes the next revision.
reserve : RequestId → M ℕ
reserve id t =
    if contains t id
    then (err duplicate_request, t)
    else ok_or revision_exhausted (checked_add t.next_revision 1) t

unfoldable pub start : RequestId → ℕ → M OperationToken
unfolding reserve
start id generation = do
  revision ← reserve id
  modify (λ t. record t {
    next_revision = revision;
    latest_revision = revision;
    records = insert id (record { revision = revision; state = active }) t.records;
  })
  pure (record { request_id = id; revision = revision; buffer_generation = generation })

unfoldable pub record_rejected : RequestId → M (Unit {0})
unfolding reserve
record_rejected id = do
  revision ← reserve id
  modify (λ t. record t {
    next_revision = revision;
    records = insert id (record { revision = revision; state = rejected }) t.records;
  })

unfoldable pub record_applied : RequestId → ℕ → M OperationToken
unfolding reserve
record_applied id generation = do
  revision ← reserve id
  modify (λ t. record t {
    next_revision = revision;
    records = insert id (record { revision = revision; state = applied }) t.records;
  })
  pure (record { request_id = id; revision = revision; buffer_generation = generation })

abbrev is_active : RequestState → Bool
is_active active = true
is_active _ = false

-- `get_mut`: the record of `id` is replaced.
abbrev put_state : RequestTracker → RequestId → RequestRecord → RequestState → RequestTracker
put_state t id r state = record t { records = insert id (record r { state = state }) t.records }

unfoldable pub mark_applied : RequestId → RequestTracker → Bool × RequestTracker
mark_applied id t = elim (lookup id t.records) [
  | none ↦ (false, t)
  | some r ↦ if is_active r.state then (true, put_state t id r applied) else (false, t)
]

-- What a record says of its cancellation, given the latest revision.
abbrev outcome_of : RequestState → Bool → CancellationOutcome
outcome_of active latest = if latest then cancelled_before_commit else outcome_unknown
outcome_of applied latest = already_applied
outcome_of rejected latest = already_applied
outcome_of (cancelled _) latest = already_cancelled

unfoldable pub cancellation_outcome : RequestTracker → RequestId → CancellationOutcome
cancellation_outcome t id = elim (lookup id t.records) [
  | none ↦ CancellationOutcome.unknown_request
  | some r ↦ outcome_of r.state (r.revision == t.latest_revision)
]

-- Whether `cancel` writes the outcome into the record.
abbrev pub is_recorded : CancellationOutcome → Bool
is_recorded cancelled_before_commit = true
is_recorded outcome_unknown = true
is_recorded _ = false

unfoldable pub cancel : RequestId → RequestTracker → CancellationOutcome × RequestTracker
cancel id t = elim (lookup id t.records) [
  | none ↦ (CancellationOutcome.unknown_request, t)
  | some r ↦
      let outcome = outcome_of r.state (r.revision == t.latest_revision) in
      (outcome, if is_recorded outcome then put_state t id r (cancelled outcome) else t)
]

-- The last match of `classify`; a cancelled record is answered before it.
abbrev classify_current : RequestRecord → ResultDisposition
classify_current r = elim r.state [
  | active ↦ accepted r.revision
  | _ ↦ stale StaleReason.request_no_longer_pending
]

abbrev classify_record : RequestTracker → RequestRecord → OperationToken → ℕ → ResultDisposition
classify_record t r token generation = elim r.state [
  | cancelled outcome ↦ ResultDisposition.cancelled token.request_id outcome
  | _ ↦
      if not (token.buffer_generation == generation)
      then stale StaleReason.buffer_generation_changed
      else if not (r.revision == t.latest_revision)
      then stale StaleReason.request_superseded
      else classify_current r
]

unfoldable pub classify : RequestTracker → OperationToken → ℕ → ResultDisposition
classify t token generation = elim (lookup token.request_id t.records) [
  | none ↦ stale StaleReason.unknown_request
  | some r ↦ classify_record t r token generation
]
