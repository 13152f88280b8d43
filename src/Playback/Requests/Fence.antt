-- ===== src/Playback/Requests/Fence.antt =====
-- core/aurorix-playback/src/command.rs: the fence that the ledger gives to worker results.
use aurorix_music.Prelude.{
  ℕ, ◌+◌, ◌≡◌, ◌≢◌, true, false, some, inl, inr, arith, Option-cases, ◌==◌, if◌then◌else◌,
}
use aurorix_music.Prelude.Exec.{Result, ok, err}
use aurorix_music.Prelude.Map.{lookup, lookup-insert}
use aurorix_music.Playback.Command.{
  RequestId, OperationToken, accepted, cancelled, is_accepted, already_cancelled,
}
use aurorix_music.Playback.Requests.{
  RequestTracker, RequestRecord, RequestState, active, applied, start, record_rejected,
  record_applied, cancel, cancellation_outcome, classify, is_recorded, outcome_of, contains,
}
use aurorix_music.Playback.Requests.Invariant.{IsValid}

-- What an accepted token proves of the ledger.
pub accepted-record :
    (t : RequestTracker) (a : OperationToken) (g n : ℕ)
    → classify t a g ≡ accepted n
    → (lookup a.request_id t.records ≡ some (record { revision = n; state = active }))
      × (n ≡ t.latest_revision)
      × (a.buffer_generation ≡ g)
unfolding classify
accepted-record t a g n h = ground arith

-- Conversely, the record of the latest request is accepted under its own generation.
pub record-accepted :
    (t : RequestTracker) (a : OperationToken) (n : ℕ)
    → lookup a.request_id t.records ≡ some (record { revision = n; state = active })
    → n ≡ t.latest_revision
    → classify t a a.buffer_generation ≡ accepted n
unfolding classify
record-accepted t a n h e = ground arith

-- In a valid ledger all tokens that are accepted belong to one request, whatever generation each is
-- held against: at most one operation can still write into the session.
pub accepted_unique :
    (t : RequestTracker) (a b : OperationToken) (g g' n m : ℕ)
    → IsValid t
    → classify t a g ≡ accepted n
    → classify t b g' ≡ accepted m
    → (a.request_id ≡ b.request_id) × (n ≡ m)
accepted_unique t a b g g' n m v ha hb =
    let (ra, la, _) = accepted-record t a g n ha in
    let (rb, lb, _) = accepted-record t b g' m hb in
    (v.numbered.distinct _ _ _ _ ra rb (omega arith), omega arith)

-- On a valid ledger a successful `start` accepts its own token under the generation that it was given, and no token of
-- another request under any generation: it supersedes all that was pending.
pub start_supersedes :
    (t t' : RequestTracker) (id : RequestId) (g : ℕ) (token b : OperationToken) (h : ℕ)
    → IsValid t
    → start id g t ≡ (ok token, t')
    → b.request_id ≢ id
    → (classify t' token g ≡ accepted token.revision) × (is_accepted (classify t' b h) ≡ false)
unfolding start classify
start_supersedes t t' id g token b h v e other = (
  ground (arith, lookup-insert id id fresh t.records),
  elim (Option-cases (lookup b.request_id t.records)) [
    | inl missing ↦ ground (arith, lookup-insert id b.request_id fresh t.records)
    | inr (r, found) ↦ ground (
      arith,
      lookup-insert id b.request_id fresh t.records,
      v.numbered.bounded b.request_id r found,
      v.latest_taken,
    )
  ],
)
  where
    fresh : RequestRecord
    fresh = record { revision = t.next_revision + 1; state = active }

-- The preview that `cancellation_outcome` gives is what `cancel` then does.
pub cancel-outcome :
    (t : RequestTracker) (id : RequestId) → (cancel id t).0 ≡ cancellation_outcome t id
unfolding cancel cancellation_outcome
cancel-outcome t id = ground arith

-- A cancellation that takes effect is final: the next one finds `already_cancelled` and changes nothing, a
-- token of the request is answered by the outcome at any generation, and the tokens of all other requests
-- are classified as before.
pub cancel_final :
    (t : RequestTracker) (id : RequestId) (a : OperationToken) (g : ℕ)
    → is_recorded (cancel id t).0 ≡ true
    → (cancel id (cancel id t).1 ≡ (already_cancelled, (cancel id t).1))
      × (classify (cancel id t).1 a g
          ≡ (if a.request_id == id then cancelled id (cancel id t).0 else classify t a g))
unfolding cancel classify
cancel_final t id a g h = elim (Option-cases (lookup id t.records)) [
  | inl e ↦ ground arith
  | inr (r, e) ↦
      let r' : RequestRecord = record {
        revision = r.revision;
        state = RequestState.cancelled (outcome_of r.state (r.revision == t.latest_revision));
      } in
      (
        ground (arith, lookup-insert id id r' t.records),
        ground (arith, lookup-insert id a.request_id r' t.records),
      )
]

-- A call that succeeds has recorded its request.
abbrev pub Recorded : {E A : Type 0} → RequestId → Result E A × RequestTracker → Type 0
Recorded id (ok _, t) = contains t id ≡ true
Recorded id (err _, t) = Unit {0}

pub start-Recorded : (id : RequestId) (g : ℕ) (t : RequestTracker) → Recorded id (start id g t)
unfolding start
start-Recorded id g t = ground (
  arith,
  lookup-insert id id (record { revision = t.next_revision + 1; state = active }) t.records,
)

pub record_applied-Recorded :
    (id : RequestId) (g : ℕ) (t : RequestTracker) → Recorded id (record_applied id g t)
unfolding record_applied
record_applied-Recorded id g t = ground (
  arith,
  lookup-insert id id (record { revision = t.next_revision + 1; state = applied }) t.records,
)

pub record_rejected-Recorded :
    (id : RequestId) (t : RequestTracker) → Recorded id (record_rejected id t)
unfolding record_rejected
record_rejected-Recorded id t = ground (
  arith,
  lookup-insert id id (record { revision = t.next_revision + 1; state = RequestState.rejected })
      t.records,
)
