-- ===== src/Sync/Reducer/Replay.antt =====
-- core/aurorix-sync/src/reducer.rs: operations that are sent again.
use aurorix_music.Prelude.{
  ℕ, ◌≡◌, ◌≢◌, refl, sym, ap, ◌∙◌, Bool, true, Option, none, some, List, [], ◌∷◌, arith,
}
use aurorix_music.Prelude.Exec.{Result, ok, err}
use aurorix_music.Prelude.Map.{lookup, insert, lookup-insert}
use aurorix_music.Prelude.Text.{text_eq, text_eq_iff}
use aurorix_music.Sync.Digest.{OperationDigest, compute}
use aurorix_music.Sync.Mutation.{
  Mutation, Operation, duplicate, CanonicalResult, ReducerError, Reducer, validate, mutate,
  edit_playlist, store_playlist, idempotency_key_reused,
}
use aurorix_music.Sync.Reducer.{
  apply_new, apply_valid, apply_known, record_result, next_revision, canonical, apply, apply_all,
}

mutate_operations :
    (entity : ℕ) (m : Mutation) (revision : ℕ) (r : Reducer)
    → (mutate entity m revision r).1.operations ≡ r.operations
unfolding mutate edit_playlist store_playlist
mutate_operations entity m revision r = ground arith

kept :
    (id : ℕ) (op : Operation) (x : OperationDigest × CanonicalResult)
    (entries : List (ℕ × (OperationDigest × CanonicalResult)))
    → op.operation_id ≢ id
    → lookup id (insert op.operation_id x entries) ≡ lookup id entries
kept id op x entries ne = lookup-insert op.operation_id id x entries ∙ ground (arith, ne)

-- What is recorded of the other operations stays.
recorded_keeps :
    (op : Operation) (revision : ℕ) (s : Result ReducerError (ℕ × Bool) × Reducer) (id : ℕ)
    → op.operation_id ≢ id
    → lookup id (record_result op revision s).1.operations ≡ lookup id s.1.operations
unfolding record_result
recorded_keeps op revision (err e, r) id ne = refl
recorded_keeps op revision (ok (version, deleted), r) id ne = kept id op _ r.operations ne

apply_new_keeps :
    (op : Operation) (r : Reducer) (id : ℕ)
    → op.operation_id ≢ id
    → lookup id (apply_new op r).1.operations ≡ lookup id r.operations
unfolding apply_new
apply_new_keeps op r id ne =
    let raised = next_revision r in
    let changed = mutate op.entity_id op.mutation raised.revision raised in
    ground (
      arith,
      recorded_keeps op raised.revision changed id ne,
      mutate_operations op.entity_id op.mutation raised.revision raised,
    )

apply_keeps :
    (op : Operation) (r : Reducer) (id : ℕ) {x : OperationDigest × CanonicalResult}
    → lookup id r.operations ≡ some x
    → lookup id (apply op r).1.operations ≡ some x
unfolding apply
apply_keeps op r id {x} h = known (lookup op.operation_id r.operations) refl
  where
    known :
        (k : Option (OperationDigest × CanonicalResult))
        → lookup op.operation_id r.operations ≡ k
        → lookup id (apply_known k op r).1.operations ≡ some x
    known none e = apply_new_keeps op r id (λ same. cc) ∙ h
    known (some (retained, result)) e = ground (arith, h)

apply_all_keeps :
    (ops : List Operation) (r : Reducer) (id : ℕ) {x : OperationDigest × CanonicalResult}
    → lookup id r.operations ≡ some x
    → lookup id (apply_all ops r).operations ≡ some x
unfolding apply_all
apply_all_keeps [] r id h = h
apply_all_keeps (op ∷ ops) r id h = apply_all_keeps ops (apply op r).1 id (apply_keeps op r id h)

-- What is on record of an operation that was accepted, or repeated.
abbrev Recorded : Operation → CanonicalResult → Reducer → Type 0
Recorded op res r =
    (found : CanonicalResult) × (lookup op.operation_id r.operations
      ≡ some (compute op.bytes, found))
    × (record found { status = duplicate } ≡ record res { status = duplicate })

recorded_lem :
    (op : Operation) (revision : ℕ) (s : Result ReducerError (ℕ × Bool) × Reducer)
    {res : CanonicalResult}
    → (record_result op revision s).0 ≡ ok res
    → Recorded op res (record_result op revision s).1
unfolding record_result
recorded_lem op revision (err e, r) h = cc
recorded_lem op revision (ok (version, deleted), r) {res} h = (
  canonical op revision version deleted,
  lookup-insert op.operation_id op.operation_id _ r.operations ∙ ground arith,
  ground (arith, h),
)

apply_new_records :
    (op : Operation) (r : Reducer) {res : CanonicalResult}
    → (apply_new op r).0 ≡ ok res
    → Recorded op res (apply_new op r).1
unfolding apply_new
apply_new_records op r {res} h = checked (validate op r) h
  where
    checked :
        (v : Result ReducerError (Unit {0}))
        → (apply_valid v op r).0 ≡ ok res
        → Recorded op res (apply_valid v op r).1
    checked (err e) h = cc
    checked (ok _) h =
        recorded_lem op (next_revision r).revision
          (mutate op.entity_id op.mutation (next_revision r).revision (next_revision r)) h

apply_records :
    (op : Operation) (r : Reducer) {res : CanonicalResult}
    → (apply op r).0 ≡ ok res
    → Recorded op res (apply op r).1
unfolding apply
apply_records op r {res} h = known (lookup op.operation_id r.operations) refl h
  where
    known :
        (k : Option (OperationDigest × CanonicalResult))
        → lookup op.operation_id r.operations ≡ k
        → (apply_known k op r).0 ≡ ok res
        → Recorded op res (apply_known k op r).1
    known none e h = apply_new_records op r h
    known (some (retained, result)) e h =
        (result, ground (arith, e, h, text_eq_iff retained (compute op.bytes)), ground (arith, h))

text_eq_refl : (t : List ℕ) → text_eq t t ≡ true
text_eq_refl t = (text_eq_iff t t).1 refl

apply_repeated :
    (op : Operation) (r : Reducer) {found : CanonicalResult}
    → lookup op.operation_id r.operations ≡ some (compute op.bytes, found)
    → apply op r ≡ (ok (record found { status = duplicate }), r)
unfolding apply
apply_repeated op r e =
    ap (λ k. apply_known k op r) e ∙ ground (arith, text_eq_refl (compute op.bytes))

apply_reused :
    (op : Operation) (r : Reducer) {digest : OperationDigest} {found : CanonicalResult}
    → lookup op.operation_id r.operations ≡ some (digest, found)
    → digest ≢ compute op.bytes
    → apply op r ≡ (err (idempotency_key_reused op.operation_id), r)
unfolding apply
apply_reused op r {digest} e ne =
    ap (λ k. apply_known k op r) e ∙ ground (arith, ne, text_eq_iff digest (compute op.bytes))

-- For an operation that was accepted or repeated, and any operations after it: sent again, it gives the recorded
-- result, marked as a duplicate, and changes nothing; with other bytes of another digest under its identity, the
-- operation is refused and changes nothing.
pub apply_again :
    (op : Operation) (r : Reducer) {res : CanonicalResult}
    → (apply op r).0 ≡ ok res
    → (ops : List Operation)
    → let later = apply_all ops (apply op r).1 in
      (apply op later ≡ (ok (record res { status = duplicate }), later))
      × ((other : Operation)
          → other.operation_id ≡ op.operation_id
          → compute other.bytes ≢ compute op.bytes
          → apply other later ≡ (err (idempotency_key_reused op.operation_id), later))
apply_again op r h ops =
    let (found, known, same) = apply_records op r h in
    let now = apply_all_keeps ops (apply op r).1 op.operation_id known in
    (
      apply_repeated op (apply_all ops (apply op r).1) now
          ∙ ap (λ x. (ok x, apply_all ops (apply op r).1)) same,
      λ other e ne.
          apply_reused other (apply_all ops (apply op r).1)
            (ap (λ i. lookup i (apply_all ops (apply op r).1).operations) e ∙ now) (λ d. ne (sym d))
          ∙ ap (λ i. (err (idempotency_key_reused i), apply_all ops (apply op r).1)) e,
    )
