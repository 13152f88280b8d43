-- ===== src/Sync/Reducer/Tombstones.antt =====
-- core/aurorix-sync/src/reducer.rs: playlists that are deleted.
use native.Mathlib.Decide.{ℕ_discrete}
use aurorix_music.Prelude.{
  ℕ, ◌+◌, ◌≡◌, ◌≢◌, inl, inr, refl, sym, subst, ◌∙◌, Bool, true, Option, none, some, List, [], ◌∷◌,
  Bool-cases, unwrap_or, arith,
}
use aurorix_music.Prelude.Exec.{Result, ok, err}
use aurorix_music.Prelude.Map.{lookup, lookup-insert}
use aurorix_music.Prelude.Text.{Text, text_eq}
use aurorix_music.Sync.Digest.{OperationDigest, compute}
use aurorix_music.Sync.Mutation.{
  Mutation, Operation, CanonicalResult, ReducerError, Playlist, Reducer, validate, mutate,
  edit_playlist, store_playlist, mutate_playlist, new_playlist, is_create, playlist_create,
  favorite_set, setting_patch, play_fact_finalize,
}
use aurorix_music.Sync.Reducer.{
  apply_new, apply_valid, apply_known, record_result, next_revision, apply, apply_all,
}

-- A playlist that is deleted, with its items.
abbrev pub IsTombstone : ℕ → List ℕ → List (ℕ × Text) → Reducer → Type 0
IsTombstone id items media r =
    (p : Playlist) × (lookup id r.playlists ≡ some p)
    × (p.deleted ≡ true)
    × (p.items ≡ items)
    × (p.item_media ≡ media)

module _ (entity id : ℕ) (ne : entity ≢ id) where
  store_other :
      (x : Result ReducerError (Playlist × ℕ × Bool)) (r : Reducer)
      → lookup id (store_playlist entity x r).1.playlists ≡ lookup id r.playlists
  unfolding store_playlist
  store_other (err e) r = refl
  store_other (ok (p, version, deleted)) r =
      lookup-insert entity id p r.playlists ∙ ground (arith, ne)

  edit_other :
      (m : Mutation) (p : Option Playlist) (r : Reducer)
      → lookup id (edit_playlist entity m p r).1.playlists ≡ lookup id r.playlists
  unfolding edit_playlist
  edit_other m none r = refl
  edit_other m (some p) r = store_other (mutate_playlist m p) r

  pub mutate_other :
      (m : Mutation) (revision : ℕ) (r : Reducer)
      → lookup id (mutate entity m revision r).1.playlists ≡ lookup id r.playlists
  unfolding mutate
  mutate_other (favorite_set value) revision r = refl
  mutate_other (setting_patch key value) revision r = refl
  mutate_other play_fact_finalize revision r = refl
  mutate_other (playlist_create name) revision r =
      edit_other (playlist_create name)
        (some (unwrap_or (lookup entity r.playlists) (new_playlist name))) r
  mutate_other m revision r = edit_other m (lookup entity r.playlists) r

module _ (id : ℕ) (items : List ℕ) (media : List (ℕ × Text)) where
  -- A playlist that is created again under its tombstone stays deleted.
  recreated :
      (m : Mutation) (revision : ℕ) (r : Reducer)
      → is_create m ≡ true
      → IsTombstone id items media r
      → IsTombstone id items media (mutate id m revision r).1
  unfolding mutate edit_playlist store_playlist mutate_playlist
  recreated (playlist_create name) revision r c (p, found, deleted, same, kept) = (
    record p { version = p.version + 1; name = name },
    lookup-insert id id _ r.playlists ∙ ground (arith, found),
    deleted,
    same,
    kept,
  )
  recreated m revision r c t = cc

  mutate-IsTombstone :
      (entity : ℕ) (m : Mutation) (revision : ℕ) (r : Reducer)
      → ((entity ≡ id) → is_create m ≡ true)
      → IsTombstone id items media r
      → IsTombstone id items media (mutate entity m revision r).1
  mutate-IsTombstone entity m revision r only t = elim (ℕ_discrete entity id) [
    | yes e ↦
        subst (λ k. IsTombstone id items media (mutate k m revision r).1) (sym e)
          (recreated m revision r (only e) t)
    | no ne ↦ (t.0, mutate_other entity id ne m revision r ∙ t.1, t.2, t.3, t.4)
  ]

  recorded-IsTombstone :
      (op : Operation) (revision : ℕ) (s : Result ReducerError (ℕ × Bool) × Reducer)
      → IsTombstone id items media s.1
      → IsTombstone id items media (record_result op revision s).1
  unfolding record_result
  recorded-IsTombstone op revision (err e, r) t = t
  recorded-IsTombstone op revision (ok (version, deleted), r) t = t

  -- `validate` lets nothing but a creation through to a tombstone.
  valid_create :
      (op : Operation) (r : Reducer)
      → IsTombstone id items media r
      → validate op r ≡ ok tt
      → op.entity_id ≡ id
      → is_create op.mutation ≡ true
  unfolding validate
  valid_create op r (p, found, deleted, same, kept) v e = ground (arith, v, e, found, deleted)

  valid-IsTombstone :
      (v : Result ReducerError (Unit {0})) (op : Operation) (r : Reducer)
      → validate op r ≡ v
      → IsTombstone id items media r
      → IsTombstone id items media (apply_valid v op r).1
  unfolding apply_valid
  valid-IsTombstone (err e) op r h t = t
  valid-IsTombstone (ok tt) op r h t =
      recorded-IsTombstone op (next_revision r).revision
        (mutate op.entity_id op.mutation (next_revision r).revision (next_revision r))
        (mutate-IsTombstone op.entity_id op.mutation (next_revision r).revision (next_revision r)
          (valid_create op r t h) t)

  known-IsTombstone :
      (k : Option (OperationDigest × CanonicalResult)) (op : Operation) (r : Reducer)
      → IsTombstone id items media r
      → IsTombstone id items media (apply_known k op r).1
  unfolding apply_known apply_new
  known-IsTombstone none op r t = valid-IsTombstone (validate op r) op r refl t
  known-IsTombstone (some (retained, result)) op r t =
      elim (Bool-cases (text_eq retained (compute op.bytes))) [
        | inl same ↦ rw same t
        | inr other ↦ rw other t
      ]

  -- For a deleted playlist and any operations: it is still there and deleted, with the same items and media.
  pub IsTombstone-stays :
      (ops : List Operation) (r : Reducer)
      → IsTombstone id items media r
      → IsTombstone id items media (apply_all ops r)
  unfolding apply_all apply
  IsTombstone-stays [] r t = t
  IsTombstone-stays (op ∷ ops) r t =
      IsTombstone-stays ops (apply op r).1
        (known-IsTombstone (lookup op.operation_id r.operations) op r t)
