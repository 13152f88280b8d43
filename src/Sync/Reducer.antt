-- ===== src/Sync/Reducer.antt =====
-- core/aurorix-sync/src/reducer.rs: `apply` and the queries. The digest is that of the outbox.
pub mod Replay
pub mod Revisions
pub mod Tombstones
pub mod Items
use aurorix_music.Prelude.{
  ℕ, zero, suc, ◌+◌, Bool, true, false, not, ◌&&◌, Option, none, some, List, [], ◌∷◌, ◌++◌, ◌==◌,
  length, insert_at, is_some, map_option, and_then, or_else, unwrap_or, if◌then◌else◌,
}
use aurorix_music.Prelude.Exec.{Result, ok, err}
use aurorix_music.Prelude.Map.{lookup, insert, remove, contains_key}
use aurorix_music.Prelude.Text.{Text, text_eq}
use aurorix_music.Prelude.TextMap
use aurorix_music.Prelude.Word.{saturating_add}
use aurorix_music.Playback.Command.{trim}
use aurorix_music.Sync.Mutation.{
  Mutation, Operation, ResultStatus, CanonicalResult, ReducerError, Playlist, Reducer, default,
  is_create, is_move, is_blank, names_blank, is_deleted, validate, without, position, move_index,
  mutate_playlist, new_playlist, store_playlist, edit_playlist, mutate, playlist_create,
  playlist_rename, playlist_delete, favorite_set, setting_patch, play_fact_finalize,
  playlist_item_add, playlist_item_remove, playlist_item_move, accepted, duplicate,
  idempotency_key_reused, entity_deleted, missing_playlist, missing_item,
  move_requires_base_version, invalid_name,
}
use aurorix_music.Sync.Digest.{OperationDigest, compute}

abbrev pub canonical : Operation → ℕ → ℕ → Bool → CanonicalResult
canonical op revision version deleted = record {
  operation_id = op.operation_id;
  status = accepted;
  revision = revision;
  entity_id = op.entity_id;
  version = version;
  deleted = deleted;
}

-- `apply` from the mutation on: its result is put on record.
unfoldable pub record_result :
    Operation
    → ℕ
    → Result ReducerError (ℕ × Bool) × Reducer
    → Result ReducerError CanonicalResult × Reducer
record_result op revision (err e, r) = (err e, r)
record_result op revision (ok (version, deleted), r) =
    let result = canonical op revision version deleted in
    (
      ok result,
      record r { operations = insert op.operation_id (compute op.bytes, result) r.operations },
    )

abbrev pub next_revision : Reducer → Reducer
next_revision r = record r { revision = saturating_add r.revision 1 }

-- `apply` with the outcome of `validate`.
unfoldable pub apply_valid :
    Result ReducerError (Unit {0})
    → Operation
    → Reducer
    → Result ReducerError CanonicalResult × Reducer
apply_valid (err e) op r = (err e, r)
apply_valid (ok _) op r =
    let raised = next_revision r in
    record_result op raised.revision (mutate op.entity_id op.mutation raised.revision raised)

-- `apply` for an operation that is not on record.
unfoldable pub apply_new : Operation → Reducer → Result ReducerError CanonicalResult × Reducer
unfolding apply_valid
apply_new op r = apply_valid (validate op r) op r

-- `apply` with what is on record of the operation.
unfoldable pub apply_known :
    Option (OperationDigest × CanonicalResult)
    → Operation
    → Reducer
    → Result ReducerError CanonicalResult × Reducer
apply_known none op r = apply_new op r
apply_known (some (retained, result)) op r =
    if text_eq retained (compute op.bytes)
    then (ok (record result { status = duplicate }), r)
    else (err (idempotency_key_reused op.operation_id), r)

unfoldable pub apply : Operation → Reducer → Result ReducerError CanonicalResult × Reducer
unfolding apply_known
apply op r = apply_known (lookup op.operation_id r.operations) op r

-- The operations one after the other, whatever comes of them.
unfoldable pub apply_all : List Operation → Reducer → Reducer
apply_all [] r = r
apply_all (op ∷ ops) r = apply_all ops (apply op r).1

unfoldable pub playlist_items : ℕ → Reducer → Option (List ℕ)
playlist_items id r = map_option (λ (p : Playlist). p.items) (lookup id r.playlists)

unfoldable pub setting : Text → Reducer → Option Text
setting key r = TextMap.lookup key r.settings
