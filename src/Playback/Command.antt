-- ===== src/Playback/Command.antt =====
-- core/aurorix-playback/src/command.rs: commands, request identities, tokens and classifications.
-- `RequestId` is the number it wraps; a unit struct's accessors are the record's fields.
use mathlib.Core.List.{reverse}
use aurorix_music.Prelude.{
  ℕ, Bool, true, false, ◌&&◌, ◌||◌, Option, List, [], ◌∷◌, leb, ◌==◌, if◌then◌else◌,
}
use aurorix_music.Prelude.Exec.{Result, ok, err}
use aurorix_music.Prelude.Text.{Text}

abbrev pub RequestId : Type 0
RequestId = ℕ

-- The normalized text of an opaque media identity.
abbrev pub PlaybackItemId : Type 0
PlaybackItemId = Text

pub data PlaybackItemIdError : Type 0 where
  empty : PlaybackItemIdError

-- `char::is_whitespace`: the code points with the property White_Space.
unfoldable pub is_whitespace : ℕ → Bool
is_whitespace c =
    (leb 9 c && leb c 13)
    || c == 32
    || c == 0x85
    || c == 0xa0
    || c == 0x1680
    || (leb 0x2000 c && leb c 0x200a)
    || c == 0x2028
    || c == 0x2029
    || c == 0x202f
    || c == 0x205f
    || c == 0x3000

unfoldable pub trim_start : Text → Text
trim_start [] = []
trim_start (c ∷ cs) = if is_whitespace c then trim_start cs else c ∷ cs

-- `str::trim`.
unfoldable pub trim : Text → Text
unfolding trim_start
trim t = reverse (trim_start (reverse (trim_start t)))

-- `PlaybackItemId::new`.
unfoldable pub new_item_id : Text → Result PlaybackItemIdError PlaybackItemId
new_item_id value = elim (trim value) [ [] ↦ err PlaybackItemIdError.empty | c ∷ cs ↦ ok (c ∷ cs) ]

pub data RepeatMode : Type 0 where
  off one all : RepeatMode

pub data PlaybackAction : Type 0 where
  play : Option PlaybackItemId → PlaybackAction
  pause resume : PlaybackAction
  seek : ℕ → PlaybackAction
  stop next previous : PlaybackAction
  set_queue : List PlaybackItemId → Option ℕ → PlaybackAction
  set_shuffle : Bool → ℕ → PlaybackAction
  set_repeat : RepeatMode → PlaybackAction
  cancel : RequestId → PlaybackAction

pub record PlaybackCommand : Type 0 where
  pub request_id : RequestId
  pub action : PlaybackAction

-- The fence that an asynchronous worker operation carries.
pub record OperationToken : Type 0 where
  pub request_id : RequestId
  pub revision : ℕ
  pub buffer_generation : ℕ

abbrev pub with_buffer_generation : OperationToken → ℕ → OperationToken
with_buffer_generation t g = record t { buffer_generation = g }

pub data StaleReason : Type 0 where
  unknown_request request_superseded buffer_generation_changed : StaleReason
  request_no_longer_pending payload_mismatch : StaleReason

pub data CancellationOutcome : Type 0 where
  cancelled_before_commit already_applied already_cancelled outcome_unknown : CancellationOutcome
  unknown_request : CancellationOutcome

pub data RejectionReason : Type 0 where
  invalid_state no_current_item duplicate_request unknown_cancellation_target : RejectionReason
  already_cancelled queue_policy_not_ready invalid_queue unexpected_worker_event : RejectionReason

pub data ResultDisposition : Type 0 where
  accepted : ℕ → ResultDisposition
  cancelled : RequestId → CancellationOutcome → ResultDisposition
  rejected : RejectionReason → ResultDisposition
  stale : StaleReason → ResultDisposition

pub record CommandResult : Type 0 where
  pub request_id : RequestId
  pub disposition : ResultDisposition

-- `CommandResult::is_accepted`, on the disposition.
abbrev pub is_accepted : ResultDisposition → Bool
is_accepted (accepted _) = true
is_accepted _ = false

-- `self.0 == other.0` of the derived `PartialEq` on tokens.
abbrev pub token_eq : OperationToken → OperationToken → Bool
token_eq a b =
    a.request_id == b.request_id
    && a.revision == b.revision
    && a.buffer_generation == b.buffer_generation
