-- ===== src/Sync/Outbox.antt =====
-- core/aurorix-sync/src/outbox.rs: the operations that wait to be sent, each under its identity.
pub mod Growth
pub mod Lifecycle
use aurorix_music.Prelude.{
  ℕ, ◌+◌, Bool, true, false, ◌&&◌, Option, none, some, List, [], ◌∷◌, ◌++◌, length, get_elem?, set,
  and_then, if◌then◌else◌,
}
use aurorix_music.Prelude.Exec.{Result, ok, err}
use aurorix_music.Prelude.Text.{Text, text_eq}
use aurorix_music.Prelude.TextMap.{lookup, insert}
use aurorix_music.Sync.Digest.{OperationDigest, compute}

pub record OutboxOperation : Type 0 where
  pub operation_id : Text
  pub operation_bytes : List ℕ
  pub digest : OperationDigest

abbrev pub new_operation : Text → List ℕ → OutboxOperation
new_operation id bytes = record {
  operation_id = id;
  operation_bytes = bytes;
  digest = compute bytes;
}

pub data OutboxState : Type 0 where
  pending acknowledged archived : OutboxState

pub record OutboxEntry : Type 0 where
  pub operation : OutboxOperation
  pub state : OutboxState

pub data EnqueueResult : Type 0 where
  enqueued : EnqueueResult
  already_present : OutboxState → EnqueueResult

pub data OutboxError : Type 0 where
  idempotency_key_reused : Text → OperationDigest → OperationDigest → OutboxError
  unknown_operation_id archived_operation_cannot_be_acknowledged : Text → OutboxError

pub record Outbox : Type 0 where
  pub entries : List OutboxEntry
  pub positions : List (Text × ℕ)

abbrev pub empty : Outbox
empty = record { entries = []; positions = [] }

-- `positions.get` and the entry there; an index out of range panics.
unfoldable pub entry : Text → Outbox → Option OutboxEntry
entry id o = and_then (lookup id o.positions) (λ position. get_elem? o.entries position)

-- The comparison of bytes, which are numbers like the code points of a text.
unfoldable pub enqueue : Text → List ℕ → Outbox → Result OutboxError EnqueueResult × Outbox
enqueue id bytes o =
    let operation = new_operation id bytes in
    elim (entry id o) [
      | some retained ↦
          if text_eq retained.operation.digest operation.digest
            && text_eq retained.operation.operation_bytes operation.operation_bytes
          then (ok (already_present retained.state), o)
          else (err (idempotency_key_reused id retained.operation.digest operation.digest), o)
      | none ↦ (
        ok enqueued,
        record {
          entries = o.entries ++ (record { operation = operation; state = pending } ∷ []);
          positions = insert id (length o.entries) o.positions;
        },
      )
    ]

abbrev pub is_pending : OutboxEntry → Bool
is_pending e = elim e.state [ pending ↦ true | _ ↦ false ]

-- `Outbox::pending`.
unfoldable pub pending_entries : List OutboxEntry → List OutboxEntry
pending_entries [] = []
pending_entries (e ∷ es) = if is_pending e then e ∷ pending_entries es else pending_entries es

-- A write through `entry_mut`.
unfoldable pub set_state : Text → OutboxState → Outbox → Outbox
set_state id state o = elim (lookup id o.positions) [
  | none ↦ o
  | some position ↦ elim (get_elem? o.entries position) [
    | none ↦ o
    | some e ↦ record o { entries = set o.entries position (record e { state = state }) }
  ]
]

unfoldable pub acknowledge : Text → Outbox → Result OutboxError Bool × Outbox
acknowledge id o = elim (entry id o) [
  | none ↦ (err (unknown_operation_id id), o)
  | some e ↦ elim e.state [
    | pending ↦ (ok true, set_state id acknowledged o)
    | acknowledged ↦ (ok false, o)
    | archived ↦ (err (archived_operation_cannot_be_acknowledged id), o)
  ]
]

unfoldable pub archive : Text → Outbox → Result OutboxError Bool × Outbox
archive id o = elim (entry id o) [
  | none ↦ (err (unknown_operation_id id), o)
  | some e ↦ elim e.state [ archived ↦ (ok false, o) | _ ↦ (ok true, set_state id archived o) ]
]
