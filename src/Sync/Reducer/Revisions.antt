-- ===== src/Sync/Reducer/Revisions.antt =====
-- core/aurorix-sync/src/reducer.rs: the revision.
use aurorix_music.Prelude.{ℕ, ◌≡◌, ◌⊎◌, Bool}
use aurorix_music.Prelude.Exec.{Result, ok, err}
use aurorix_music.Prelude.Word.{saturating_add}
use aurorix_music.Sync.Mutation.{
  Mutation, Operation, accepted, duplicate, CanonicalResult, ReducerError, Reducer,
  missing_playlist, missing_item,
}
use aurorix_music.Sync.Reducer.{next_revision}

-- What an operation leaves, by its outcome.
abbrev pub Outcome : Operation → Reducer → Result ReducerError CanonicalResult × Reducer → Type 0
Outcome op r (ok res, r') =
    ((r' ≡ r) × (res.status ≡ duplicate))
    ⊎ ((r'.revision ≡ saturating_add r.revision 1)
        × (res.revision ≡ r'.revision)
        × (res.status ≡ accepted))
Outcome op r (err e, r') =
    (r' ≡ r)
    ⊎ ((r' ≡ next_revision r)
        × ((e ≡ missing_playlist op.entity_id) ⊎ ((item : ℕ) × (e ≡ missing_item item))))

-- What a mutation leaves.
abbrev MutationOutcome : ℕ → Reducer → Result ReducerError (ℕ × Bool) × Reducer → Type 0
MutationOutcome entity r (ok _, r') = r'.revision ≡ r.revision
MutationOutcome entity r (err e, r') =
    (r' ≡ r) × ((e ≡ missing_playlist entity) ⊎ ((item : ℕ) × (e ≡ missing_item item)))
