-- ===== src/Sync/Mutation.antt =====
-- core/aurorix-sync/src/reducer.rs: the state of the reducer, the check of an operation and its mutation. An identity
-- is a number.
use aurorix_music.Prelude.{
  ℕ, suc, ◌+◌, Bool, true, false, not, ◌&&◌, Option, none, some, List, [], ◌∷◌, ◌++◌, ◌==◌, length,
  insert_at, is_some, map_option, and_then, or_else, unwrap_or, if◌then◌else◌,
}
use aurorix_music.Prelude.Exec.{Result, ok, err}
use aurorix_music.Prelude.Map.{lookup, insert, remove, contains_key}
use aurorix_music.Prelude.Text.{Text}
use aurorix_music.Prelude.TextMap
use aurorix_music.Playback.Command.{trim}
use aurorix_music.Sync.Digest.{OperationDigest}

pub data Mutation : Type 0 where
  playlist_create playlist_rename : Text → Mutation
  playlist_delete : Mutation
  favorite_set : Bool → Mutation
  setting_patch : Text → Text → Mutation
  play_fact_finalize : Mutation
  playlist_item_add : ℕ → Text → Mutation
  playlist_item_remove : ℕ → Mutation
  playlist_item_move : ℕ → Option ℕ → Option ℕ → Mutation  -- the item, `before` and `after`

pub record Operation : Type 0 where
  pub operation_id : ℕ
  pub entity_id : ℕ
  pub bytes : List ℕ
  pub base_entity_version : Option ℕ
  pub mutation : Mutation

pub data ResultStatus : Type 0 where
  accepted duplicate : ResultStatus

pub record CanonicalResult : Type 0 where
  pub operation_id : ℕ
  pub status : ResultStatus
  pub revision : ℕ
  pub entity_id : ℕ
  pub version : ℕ
  pub deleted : Bool

pub data ReducerError : Type 0 where
  idempotency_key_reused entity_deleted missing_playlist missing_item : ℕ → ReducerError
  move_requires_base_version invalid_name : ReducerError

pub record Playlist : Type 0 where
  pub version : ℕ
  pub name : Text
  pub deleted : Bool
  pub items : List ℕ
  pub item_media : List (ℕ × Text)

pub record Reducer : Type 0 where
  pub revision : ℕ
  pub operations : List (ℕ × (OperationDigest × CanonicalResult))
  pub playlists : List (ℕ × Playlist)
  pub favorites : List (ℕ × Bool)
  pub settings : List (Text × Text)
  pub play_facts : List (ℕ × Unit {0})

abbrev pub default : Reducer
default = record {
  revision = 0;
  operations = [];
  playlists = [];
  favorites = [];
  settings = [];
  play_facts = [];
}

abbrev pub is_create : Mutation → Bool
is_create (playlist_create _) = true
is_create _ = false

abbrev pub is_move : Mutation → Bool
is_move (playlist_item_move _ _ _) = true
is_move _ = false

abbrev pub is_blank : Text → Bool
is_blank t = elim (trim t) [ [] ↦ true | _ ∷ _ ↦ false ]

-- The mutation names a playlist by blanks.
abbrev pub names_blank : Mutation → Bool
names_blank (playlist_create name) = is_blank name
names_blank (playlist_rename name) = is_blank name
names_blank _ = false

abbrev pub is_deleted : ℕ → Reducer → Bool
is_deleted id r = unwrap_or (map_option (λ (p : Playlist). p.deleted) (lookup id r.playlists)) false

unfoldable pub validate : Operation → Reducer → Result ReducerError (Unit {0})
validate op r =
    if is_move op.mutation && not (is_some op.base_entity_version)
    then err move_requires_base_version
    else if is_deleted op.entity_id r && not (is_create op.mutation)
    then err (entity_deleted op.entity_id)
    else if names_blank op.mutation
    then err invalid_name
    else ok tt

-- `items.retain(|id| id != item_id)`.
unfoldable pub without : ℕ → List ℕ → List ℕ
without item [] = []
without item (x ∷ xs) = if x == item then without item xs else x ∷ without item xs

-- `items.iter().position(..)`.
unfoldable pub position : ℕ → List ℕ → Option ℕ
position item [] = none
position item (x ∷ xs) = if x == item then some 0 else map_option suc (position item xs)

unfoldable pub move_index : Option ℕ → Option ℕ → List ℕ → ℕ
unfolding position
move_index before after items =
    unwrap_or
      (or_else (and_then before (λ id. position id items))
        (and_then after (λ id. map_option (λ i. i + 1) (position id items))))
      (length items)

-- What the mutation makes of an existing playlist, with the result.
unfoldable pub mutate_playlist : Mutation → Playlist → Result ReducerError (Playlist × ℕ × Bool)
unfolding without move_index
mutate_playlist (playlist_create name) p =
    ok (record p { version = p.version + 1; name = name }, p.version + 1, p.deleted)
mutate_playlist (playlist_rename name) p =
    ok (record p { version = p.version + 1; name = name }, p.version + 1, p.deleted)
mutate_playlist playlist_delete p =
    ok (record p { version = p.version + 1; deleted = true }, p.version + 1, true)
mutate_playlist (playlist_item_add item media) p = ok (
  record p {
    items = p.items ++ (item ∷ []);
    item_media = insert item media p.item_media;
    version = p.version + 1;
  },
  p.version + 1,
  false,
)
mutate_playlist (playlist_item_remove item) p =
    if not (contains_key item p.item_media)
    then err (missing_item item)
    else ok (
      record p {
        items = without item p.items;
        item_media = remove item p.item_media;
        version = p.version + 1;
      },
      p.version + 1,
      false,
    )
mutate_playlist (playlist_item_move item before after) p =
    if not (contains_key item p.item_media)
    then err (missing_item item)
    else (let kept = without item p.items in
        ok (
          record p {
            items = insert_at kept (move_index before after kept) item;
            version = p.version + 1;
          },
          p.version + 1,
          false,
        ))
mutate_playlist m p = ok (p, p.version, p.deleted)  -- no mutation of a playlist

abbrev pub new_playlist : Text → Playlist
new_playlist name = record {
  version = 0;
  name = name;
  deleted = false;
  items = [];
  item_media = [];
}

-- A playlist as it was changed, put back.
unfoldable pub store_playlist :
    ℕ
    → Result ReducerError (Playlist × ℕ × Bool)
    → Reducer
    → Result ReducerError (ℕ × Bool) × Reducer
store_playlist entity (err e) r = (err e, r)
store_playlist entity (ok (p, version, deleted)) r =
    (ok (version, deleted), record r { playlists = insert entity p r.playlists })

-- The mutations that go by the playlist of the identity.
unfoldable pub edit_playlist :
    ℕ → Mutation → Option Playlist → Reducer → Result ReducerError (ℕ × Bool) × Reducer
edit_playlist entity m none r = (err (missing_playlist entity), r)
edit_playlist entity m (some p) r = store_playlist entity (mutate_playlist m p) r

unfoldable pub mutate : ℕ → Mutation → ℕ → Reducer → Result ReducerError (ℕ × Bool) × Reducer
mutate entity (favorite_set value) revision r =
    (ok (revision, false), record r { favorites = insert entity value r.favorites })
mutate entity (setting_patch key value) revision r =
    (ok (revision, false), record r { settings = TextMap.insert key value r.settings })
mutate entity play_fact_finalize revision r =
    (ok (revision, false), record r { play_facts = insert entity tt r.play_facts })
mutate entity (playlist_create name) revision r =
    edit_playlist entity (playlist_create name)
      (some (unwrap_or (lookup entity r.playlists) (new_playlist name))) r
mutate entity m revision r = edit_playlist entity m (lookup entity r.playlists) r
