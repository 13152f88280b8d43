-- ===== src/Sync/Reducer/Items.antt =====
-- core/aurorix-sync/src/reducer.rs: the items of a playlist.
use native.Mathlib.Decide.{ℕ_discrete}
use aurorix_music.Prelude.{
  ℕ, zero, suc, insert_at, ◌++◌, ◌||◌, ◌==◌, if◌then◌else◌, ◌≡◌, inl, inr, refl, sym, subst, ◌∙◌,
  Bool, false, Option, none, some, List, [], ◌∷◌, Bool-cases, unwrap_or, arith,
}
use aurorix_music.Prelude.Exec.{Result, ok, err}
use aurorix_music.Prelude.Map.{contains_key, lookup, lookup-remove, lookup-insert}
use aurorix_music.Prelude.Text.{Text, text_eq}
use aurorix_music.Sync.Digest.{OperationDigest, compute}
use aurorix_music.Sync.Mutation.{
  Mutation, Operation, CanonicalResult, ReducerError, Playlist, Reducer, validate, mutate,
  edit_playlist, store_playlist, mutate_playlist, new_playlist, default, without, move_index,
  playlist_create, favorite_set, setting_patch, play_fact_finalize, playlist_item_add,
  playlist_item_remove, playlist_item_move,
}
use aurorix_music.Sync.Reducer.{
  apply_new, apply_valid, apply_known, record_result, next_revision, apply, apply_all,
}

unfoldable pub occurs : ℕ → List ℕ → Bool
occurs item [] = false
occurs item (x ∷ xs) = x == item || occurs item xs

occurs-append :
    (item : ℕ) (xs ys : List ℕ) → occurs item (xs ++ ys) ≡ occurs item xs || occurs item ys
unfolding occurs
occurs-append item [] ys = refl
occurs-append item (x ∷ xs) ys = ground (arith, occurs-append item xs ys)

occurs-without :
    (item other : ℕ) (xs : List ℕ)
    → occurs item (without other xs) ≡ (if other == item then false else occurs item xs)
unfolding occurs without
occurs-without item other [] = ground arith
occurs-without item other (x ∷ xs) = ground (arith, occurs-without item other xs)

occurs-insert_at :
    (item other : ℕ) (xs : List ℕ) (i : ℕ)
    → occurs item (insert_at xs i other) ≡ other == item || occurs item xs
unfolding occurs
occurs-insert_at item other xs zero = refl
occurs-insert_at item other [] (suc i) = refl
occurs-insert_at item other (x ∷ xs) (suc i) = ground (arith, occurs-insert_at item other xs i)

-- The items of a playlist are those that it has media for.
abbrev pub IsKept : Playlist → Type 0
IsKept p = (item : ℕ) → occurs item p.items ≡ contains_key item p.item_media

IsKept-create : (name : Text) → IsKept (new_playlist name)
unfolding occurs lookup
IsKept-create name item = refl

mutated-IsKept :
    (m : Mutation) (p : Playlist) {p' : Playlist} {version : ℕ} {gone : Bool}
    → IsKept p
    → mutate_playlist m p ≡ ok (p', version, gone)
    → IsKept p'
unfolding mutate_playlist occurs
mutated-IsKept (playlist_item_add added media) p k h item = ground (
  arith,
  h,
  k item,
  occurs-append item p.items (added ∷ []),
  lookup-insert added item media p.item_media,
)
mutated-IsKept (playlist_item_remove gone) p k h item =
    ground
      (arith, h, k item, occurs-without item gone p.items, lookup-remove gone item p.item_media)
mutated-IsKept (playlist_item_move moved before after) p k h item =
    let kept = without moved p.items in
    ground (
      arith,
      h,
      k item,
      k moved,
      occurs-without item moved p.items,
      occurs-insert_at item moved kept (move_index before after kept),
    )
mutated-IsKept m p k h item = ground (arith, h, k item)

abbrev pub IsSound : Reducer → Type 0
IsSound r = (id : ℕ) (p : Playlist) → lookup id r.playlists ≡ some p → IsKept p

store-IsSound :
    (entity : ℕ) (x : Result ReducerError (Playlist × ℕ × Bool)) (r : Reducer)
    → ((p : Playlist) (version : ℕ) (gone : Bool) → x ≡ ok (p, version, gone) → IsKept p)
    → IsSound r
    → IsSound (store_playlist entity x r).1
unfolding store_playlist
store-IsSound entity (err e) r k s id p h = s id p h
store-IsSound entity (ok (p', version, gone)) r k s id p h = elim (ℕ_discrete entity id) [
  | yes e ↦
      subst IsKept {x = p'} {y = p} (ground (arith, h, e, lookup-insert entity id p' r.playlists))
        (k p' version gone refl)
  | no ne ↦ s id p (sym (lookup-insert entity id p' r.playlists ∙ ground (arith, ne)) ∙ h)
]

edit-IsSound :
    (entity : ℕ) (m : Mutation) (p : Option Playlist) (r : Reducer)
    → ((q : Playlist) → p ≡ some q → IsKept q)
    → IsSound r
    → IsSound (edit_playlist entity m p r).1
unfolding edit_playlist
edit-IsSound entity m none r k s = s
edit-IsSound entity m (some p) r k s =
    store-IsSound entity (mutate_playlist m p) r
      (λ p' version gone e. mutated-IsKept m p (k p refl) e) s

created-IsKept :
    (name : Text) (found : Option Playlist)
    → ((p : Playlist) → found ≡ some p → IsKept p)
    → (q : Playlist) → some (unwrap_or found (new_playlist name)) ≡ some q
    → IsKept q
created-IsKept name none k q e =
    subst IsKept {x = new_playlist name} {y = q} (cc) (IsKept-create name)
created-IsKept name (some p) k q e = k q e

mutate-IsSound :
    (entity : ℕ) (m : Mutation) (revision : ℕ) (r : Reducer)
    → IsSound r
    → IsSound (mutate entity m revision r).1
unfolding mutate
mutate-IsSound entity (favorite_set value) revision r s = s
mutate-IsSound entity (setting_patch key value) revision r s = s
mutate-IsSound entity play_fact_finalize revision r s = s
mutate-IsSound entity (playlist_create name) revision r s =
    edit-IsSound entity (playlist_create name)
      (some (unwrap_or (lookup entity r.playlists) (new_playlist name))) r
      (created-IsKept name (lookup entity r.playlists) (s entity)) s
mutate-IsSound entity m revision r s =
    edit-IsSound entity m (lookup entity r.playlists) r (s entity) s

recorded-IsSound :
    (op : Operation) (revision : ℕ) (x : Result ReducerError (ℕ × Bool) × Reducer)
    → IsSound x.1
    → IsSound (record_result op revision x).1
unfolding record_result
recorded-IsSound op revision (err e, r) s = s
recorded-IsSound op revision (ok (version, deleted), r) s = s

valid-IsSound :
    (v : Result ReducerError (Unit {0})) (op : Operation) (r : Reducer)
    → IsSound r
    → IsSound (apply_valid v op r).1
unfolding apply_valid
valid-IsSound (err e) op r s = s
valid-IsSound (ok _) op r s =
    recorded-IsSound op (next_revision r).revision
      (mutate op.entity_id op.mutation (next_revision r).revision (next_revision r))
      (mutate-IsSound op.entity_id op.mutation (next_revision r).revision (next_revision r) s)

known-IsSound :
    (k : Option (OperationDigest × CanonicalResult)) (op : Operation) (r : Reducer)
    → IsSound r
    → IsSound (apply_known k op r).1
unfolding apply_known apply_new
known-IsSound none op r s = valid-IsSound (validate op r) op r s
known-IsSound (some (retained, result)) op r s =
    elim (Bool-cases (text_eq retained (compute op.bytes))) [
      | inl same ↦ rw same s
      | inr other ↦ rw other s
    ]

apply_all-IsSound : (ops : List Operation) (r : Reducer) → IsSound r → IsSound (apply_all ops r)
unfolding apply_all apply
apply_all-IsSound [] r s = s
apply_all-IsSound (op ∷ ops) r s =
    apply_all-IsSound ops (apply op r).1
      (known-IsSound (lookup op.operation_id r.operations) op r s)

default-IsSound : IsSound default
unfolding lookup
default-IsSound id p h = cc

-- For every sequence of operations from the empty state: an item occurs in a playlist just if the playlist has media
-- for it.
pub reached-IsSound : (ops : List Operation) → IsSound (apply_all ops default)
reached-IsSound ops = apply_all-IsSound ops default default-IsSound
