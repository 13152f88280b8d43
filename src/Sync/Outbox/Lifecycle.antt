-- ===== src/Sync/Outbox/Lifecycle.antt =====
-- core/aurorix-sync/src/outbox.rs: an operation that the outbox took, and what comes after it.
use aurorix_music.Prelude.{
  ℕ, ◌≤◌, ◌≡◌, ◌≢◌, ◌⊎◌, inl, inr, refl, sym, ap, ◌∙◌, none, some, List, [], ◌∷◌, ◌++◌, length,
  get_elem?, Bool-cases, Option-cases, arith,
}
use aurorix_music.Prelude.Exec.{Result, ok, err}
use aurorix_music.Prelude.Text.{Text, text_eq, text_eq_iff}
use aurorix_music.Prelude.TextMap.{lookup, insert, lookup-insert}
use aurorix_music.Sync.Digest.{compute}
use aurorix_music.Sync.Outbox.{
  OutboxOperation, new_operation, pending, OutboxEntry, EnqueueResult, enqueued, already_present,
  OutboxError, Outbox, empty, idempotency_key_reused, entry, enqueue,
}
use aurorix_music.Sync.Outbox.Growth.{
  Call, call_all, rank, IsIndexed, entry_at, enqueue-Grows, call_all-Grows,
}

empty-IsIndexed : IsIndexed empty
unfolding lookup
empty-IsIndexed id i h = cc

get_elem?-last :
    (xs : List OutboxEntry) (x : OutboxEntry) → get_elem? (xs ++ (x ∷ [])) (length xs) ≡ some x
get_elem?-last [] x = refl
get_elem?-last (y ∷ xs) x = get_elem?-last xs x

-- An operation that is in the outbox under an identity.
abbrev pub Holds : Text → List ℕ → OutboxEntry → Outbox → Type 0
Holds id bytes e o =
    (entry id o ≡ some e)
    × (e.operation.operation_bytes ≡ bytes)
    × (e.operation.digest ≡ compute bytes)

enqueue_new :
    (id : Text) (bytes : List ℕ) (o : Outbox)
    → entry id o ≡ none
    → enqueue id bytes o ≡ (
      ok enqueued,
      record {
        entries =
            o.entries ++ (record { operation = new_operation id bytes; state = pending } ∷ []);
        positions = insert id (length o.entries) o.positions;
      },
    )
unfolding enqueue
enqueue_new id bytes o free = ground (arith, free)

-- An identity that is taken: by the same operation, or by another one.
enqueue_held :
    (id : Text) (bytes : List ℕ) (o : Outbox) {e : OutboxEntry}
    → entry id o ≡ some e
    → ((enqueue id bytes o ≡ (ok (already_present e.state), o))
        × (e.operation.operation_bytes ≡ bytes)
        × (e.operation.digest ≡ compute bytes))
      ⊎ ((enqueue id bytes o
            ≡ (err (idempotency_key_reused id e.operation.digest (compute bytes)), o))
          × ((e.operation.operation_bytes ≡ bytes) → e.operation.digest ≢ compute bytes))
unfolding enqueue
enqueue_held id bytes o {e} held = elim (Bool-cases (text_eq e.operation.digest (compute bytes))) [
  | inr other ↦ inr (
    ground (arith, held, other),
    λ same d. cc (other, (text_eq_iff e.operation.digest (compute bytes)).1 d),
  )
  | inl digest ↦ elim (Bool-cases (text_eq e.operation.operation_bytes bytes)) [
    | inr other ↦ inr (
      ground (arith, held, digest, other),
      λ same d. cc (other, (text_eq_iff e.operation.operation_bytes bytes).1 same),
    )
    | inl same ↦ inl (
      ground (arith, held, digest, same),
      (text_eq_iff e.operation.operation_bytes bytes).0 same,
      (text_eq_iff e.operation.digest (compute bytes)).0 digest,
    )
  ]
]

enqueue-Holds :
    (id : Text) (bytes : List ℕ) (o : Outbox) {res : EnqueueResult}
    → (enqueue id bytes o).0 ≡ ok res
    → (e : OutboxEntry) × Holds id bytes e (enqueue id bytes o).1
enqueue-Holds id bytes o h = elim (Option-cases (entry id o)) [
  | inl free ↦
      let new : OutboxEntry = record { operation = new_operation id bytes; state = pending } in
      let pushed : Outbox = record {
        entries = o.entries ++ (new ∷ []);
        positions = insert id (length o.entries) o.positions;
      } in
      (
        new,
        (
          ap (λ (x : Result OutboxError EnqueueResult × Outbox). entry id x.1)
                (enqueue_new id bytes o free)
              ∙ entry_at id pushed (length o.entries)
                  (lookup-insert id id (length o.entries) o.positions
                    ∙ ground (arith, (text_eq_iff id id).1 refl))
                  (get_elem?-last o.entries new),
          refl,
          refl,
        ),
      )
  | inr (e, held) ↦ elim (enqueue_held id bytes o held) [
    | inl (same, b, d) ↦ (
      e,
      (ap (λ (x : Result OutboxError EnqueueResult × Outbox). entry id x.1) same ∙ held, b, d),
    )
    | inr (other, _) ↦ cc (other)
  ]
]

present :
    (id : Text) (bytes : List ℕ) (o : Outbox) {e : OutboxEntry}
    → Holds id bytes e o
    → enqueue id bytes o ≡ (ok (already_present e.state), o)
present id bytes o {e} (held, b, d) = elim (enqueue_held id bytes o held) [
  | inl same ↦ same.0
  | inr other ↦ absurd (other.1 b d)
]

refused :
    (id : Text) (bytes other : List ℕ) (o : Outbox) {e : OutboxEntry}
    → Holds id bytes e o
    → other ≢ bytes
    → enqueue id other o ≡ (err (idempotency_key_reused id (compute bytes) (compute other)), o)
refused id bytes other o {e} (held, b, d) ne = elim (enqueue_held id other o held) [
  | inl same ↦ absurd (ne (sym (same.1) ∙ b))
  | inr reused ↦ reused.0 ∙ ap (λ k. (err (idempotency_key_reused id k (compute other)), o)) d
]

-- For an operation that the outbox took under an identity, after any calls before and after it: the outbox still holds
-- its bytes with their digest, in a state that is no earlier than before. The same operation is found to be present
-- in that state, other bytes under the identity are refused, and neither changes the outbox.
pub enqueued_stays :
    (before after : List Call) (id : Text) (bytes : List ℕ) {res : EnqueueResult}
    → (enqueue id bytes (call_all before empty)).0 ≡ ok res
    → let taken = (enqueue id bytes (call_all before empty)).1 in
      let later = call_all after taken in
      (e e' : OutboxEntry) × Holds id bytes e taken
      × Holds id bytes e' later
      × (rank e.state ≤ rank e'.state)
      × (enqueue id bytes later ≡ (ok (already_present e'.state), later))
      × ((other : List ℕ)
          → other ≢ bytes
          → enqueue id other later
            ≡ (err (idempotency_key_reused id (compute bytes) (compute other)), later))
enqueued_stays before after id bytes h =
    let first = call_all-Grows before empty empty-IsIndexed in
    let taking = enqueue-Grows id bytes (call_all before empty) first.indexed in
    let taken = (enqueue id bytes (call_all before empty)).1 in
    let (e, held) = enqueue-Holds id bytes (call_all before empty) h in
    let rest = call_all-Grows after taken taking.indexed in
    let (e', held', follows) = rest.stays id e held.0 in
    let later = call_all after taken in
    let kept : Holds id bytes e' later = (
      held',
      ap (λ (x : OutboxOperation). x.operation_bytes) follows.0 ∙ held.1,
      ap (λ (x : OutboxOperation). x.digest) follows.0 ∙ held.2,
    ) in
    (
      e,
      e',
      held,
      kept,
      follows.1,
      present id bytes later kept,
      λ other ne. refused id bytes other later kept ne,
    )
