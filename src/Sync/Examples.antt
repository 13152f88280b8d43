-- ===== src/Sync/Examples.antt =====
-- A playlist that is made, filled and deleted, and an operation that is sent twice.
use aurorix_music.Prelude.{ℕ, ◌≡◌, ◌≢◌, ◌≤◌, refl, true, false, none, List, [], ◌∷◌}
use aurorix_music.Prelude.Exec.{ok, err}
use aurorix_music.Prelude.Map.{lookup}
use aurorix_music.Prelude.TextMap
use aurorix_music.Sync.Digest.{compute, to_hex}
use aurorix_music.Sync.Outbox
use aurorix_music.Sync.Outbox.{
  OutboxEntry, Outbox, enqueue, entry, empty, already_present, idempotency_key_reused,
}
use aurorix_music.Sync.Outbox.Growth.{Call, acknowledges, archives, enqueues, call_all, rank}
use aurorix_music.Sync.Outbox.Lifecycle.{Holds, enqueued_stays}
use aurorix_music.Sync.Mutation
use aurorix_music.Sync.Mutation.{
  Operation, CanonicalResult, accepted, duplicate, Reducer, Playlist, default, favorite_set,
  playlist_create, playlist_delete, playlist_item_add, playlist_item_move, playlist_item_remove,
  validate, mutate,
}
use aurorix_music.Sync.Reducer.{canonical, apply, apply_all, apply_new, record_result}
use aurorix_music.Sync.Reducer.Replay.{apply_again}
use aurorix_music.Sync.Reducer.Tombstones.{IsTombstone, IsTombstone-stays}
use aurorix_music.Sync.Reducer.Items.{IsSound, reached-IsSound}

abc_digest :
    to_hex (compute (b'a' ∷ b'b' ∷ b'c' ∷ []))
    ≡ b'b' ∷ b'a' ∷ b'7' ∷ b'8' ∷ b'1' ∷ b'6' ∷ b'b' ∷ b'f' ∷ b'8' ∷ b'f' ∷ b'0' ∷ b'1' ∷ b'c'
      ∷ b'f' ∷ b'e' ∷ b'a' ∷ b'4' ∷ b'1' ∷ b'4' ∷ b'1' ∷ b'4' ∷ b'0' ∷ b'd' ∷ b'e' ∷ b'5' ∷ b'd'
      ∷ b'a' ∷ b'e' ∷ b'2' ∷ b'2' ∷ b'2' ∷ b'3' ∷ b'b' ∷ b'0' ∷ b'0' ∷ b'3' ∷ b'6' ∷ b'1' ∷ b'a'
      ∷ b'3' ∷ b'9' ∷ b'6' ∷ b'1' ∷ b'7' ∷ b'7' ∷ b'a' ∷ b'9' ∷ b'c' ∷ b'b' ∷ b'4' ∷ b'1' ∷ b'0'
      ∷ b'f' ∷ b'f' ∷ b'6' ∷ b'1' ∷ b'f' ∷ b'2' ∷ b'0' ∷ b'0' ∷ b'1' ∷ b'5' ∷ b'a' ∷ b'd' ∷ []
unfolding compute to_hex
abc_digest = refl

abbrev favorite : Operation
favorite = record {
  operation_id = 1;
  entity_id = 2;
  bytes = b'a' ∷ [];
  base_entity_version = none;
  mutation = favorite_set true;
}

abbrev create : Operation
create = record {
  operation_id = 2;
  entity_id = 3;
  bytes = b'c' ∷ [];
  base_entity_version = none;
  mutation = playlist_create (b'A' ∷ []);
}

abbrev add : Operation
add = record {
  operation_id = 3;
  entity_id = 3;
  bytes = b'd' ∷ [];
  base_entity_version = none;
  mutation = playlist_item_add 10 (b'm' ∷ []);
}

favorite_accepted : (apply favorite default).0 ≡ ok (canonical favorite 1 1 false)
unfolding apply apply_new record_result validate mutate lookup
favorite_accepted = refl

apply_again_example :
    (apply favorite (apply_all (create ∷ add ∷ []) (apply favorite default).1) ≡ (
      ok (record (canonical favorite 1 1 false) { status = duplicate }),
      apply_all (create ∷ add ∷ []) (apply favorite default).1,
    ))
    × ((other : Operation)
        → other.operation_id ≡ 1
        → compute other.bytes ≢ compute (b'a' ∷ [])
        → apply other (apply_all (create ∷ add ∷ []) (apply favorite default).1) ≡ (
          err (Mutation.idempotency_key_reused 1),
          apply_all (create ∷ add ∷ []) (apply favorite default).1,
        ))
apply_again_example = apply_again favorite default favorite_accepted (create ∷ add ∷ [])

-- A playlist with one item, deleted.
abbrev buried : Reducer
buried = record default {
  playlists =
      (
        3,
        record {
          version = 3;
          name = b'A' ∷ [];
          deleted = true;
          items = 10 ∷ [];
          item_media = (10, b'm' ∷ []) ∷ [];
        },
      )
      ∷ [];
}

buried-IsTombstone : IsTombstone 3 (10 ∷ []) ((10, b'm' ∷ []) ∷ []) buried
unfolding lookup
buried-IsTombstone = (
  record {
    version = 3;
    name = b'A' ∷ [];
    deleted = true;
    items = 10 ∷ [];
    item_media = (10, b'm' ∷ []) ∷ [];
  },
  refl,
  refl,
  refl,
  refl,
)

IsTombstone-stays_example :
    IsTombstone 3 (10 ∷ []) ((10, b'm' ∷ []) ∷ []) (apply_all (create ∷ add ∷ favorite ∷ []) buried)
IsTombstone-stays_example =
    IsTombstone-stays 3 (10 ∷ []) ((10, b'm' ∷ []) ∷ []) (create ∷ add ∷ favorite ∷ []) buried
      buried-IsTombstone

reached-IsSound_example : IsSound (apply_all (create ∷ add ∷ favorite ∷ []) default)
reached-IsSound_example = reached-IsSound (create ∷ add ∷ favorite ∷ [])

first_enqueued : (enqueue (b'x' ∷ []) (1 ∷ []) (call_all [] empty)).0 ≡ ok Outbox.enqueued
unfolding enqueue entry TextMap.lookup call_all
first_enqueued = refl

abbrev sent : Outbox
sent = (enqueue (b'x' ∷ []) (1 ∷ []) (call_all [] empty)).1

abbrev calls : List Call
calls = acknowledges (b'x' ∷ []) ∷ archives (b'x' ∷ []) ∷ enqueues (b'x' ∷ []) (2 ∷ []) ∷ []

enqueued_stays_example :
    (e e' : OutboxEntry) × Holds (b'x' ∷ []) (1 ∷ []) e sent
    × Holds (b'x' ∷ []) (1 ∷ []) e' (call_all calls sent)
    × (rank e.state ≤ rank e'.state)
    × (enqueue (b'x' ∷ []) (1 ∷ []) (call_all calls sent)
        ≡ (ok (already_present e'.state), call_all calls sent))
    × ((other : List ℕ)
        → other ≢ 1 ∷ []
        → enqueue (b'x' ∷ []) other (call_all calls sent) ≡ (
          err (idempotency_key_reused (b'x' ∷ []) (compute (1 ∷ [])) (compute other)),
          call_all calls sent,
        ))
enqueued_stays_example = enqueued_stays [] calls (b'x' ∷ []) (1 ∷ []) first_enqueued
