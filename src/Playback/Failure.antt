-- ===== src/Playback/Failure.antt =====
-- core/aurorix-playback/src/failure.rs: what is decided when an item fails, is skipped or is stopped.
pub mod Decisions
use aurorix_music.Prelude.{
  ℕ, ◌+◌, Bool, true, false, not, Option, none, some, List, get_elem?, if◌then◌else◌,
}
use aurorix_music.Prelude.Exec.{Result, ok, err}
use aurorix_music.Prelude.Text.{text_eq}
use aurorix_music.Playback.Command.{PlaybackItemId}

-- `EndReason` of core/aurorix-model/src/play_fact.rs.
pub data EndReason : Type 0 where
  ended skipped stopped error crash_recovery : EndReason

pub data PlaybackFailure : Type 0 where
  source_loss decoder_error output_unavailable skip stop : PlaybackFailure

pub data QueueAction : Type 0 where
  continue_with : PlaybackItemId → ℕ → QueueAction
  stop_queue : Bool → QueueAction

abbrev pub continues_queue : QueueAction → Bool
continues_queue (continue_with _ _) = true
continues_queue (stop_queue _) = false

pub record FailureDecision : Type 0 where
  pub failed_item : PlaybackItemId
  pub failure : PlaybackFailure
  pub end_reason : EndReason
  pub queue_action : QueueAction
  -- `IdentityRetention`: that the identity stays in the catalog, playlists, favorites and history.
  pub preserved : Bool

pub record FailurePolicy : Type 0 where
  pub continue_on_source_loss : Bool
  pub continue_on_decoder_error : Bool
  pub continue_on_output_unavailable : Bool

abbrev pub default_local : FailurePolicy
default_local = record {
  continue_on_source_loss = true;
  continue_on_decoder_error = true;
  continue_on_output_unavailable = false;
}

abbrev pub continues_after : FailurePolicy → PlaybackFailure → Bool
continues_after p source_loss = p.continue_on_source_loss
continues_after p decoder_error = p.continue_on_decoder_error
continues_after p output_unavailable = p.continue_on_output_unavailable
continues_after p skip = true
continues_after p stop = false

pub data FailurePolicyError : Type 0 where
  current_index_out_of_bounds current_item_mismatch : FailurePolicyError

-- `validate_current_item`, and then what the method decides.
unfoldable pub validate_current_item :
    {A : Type 0} → PlaybackItemId → List PlaybackItemId → ℕ → A → Result FailurePolicyError A
validate_current_item item queue i decision = elim (get_elem? queue i) [
  | none ↦ err current_index_out_of_bounds
  | some queued ↦ if not (text_eq queued item) then err current_item_mismatch else ok decision
]

unfoldable pub next_action : List PlaybackItemId → ℕ → QueueAction
next_action queue i = elim (get_elem? queue (i + 1)) [
  | none ↦ stop_queue true
  | some item ↦ continue_with item (i + 1)
]

abbrev pub Decision : Type 0
Decision = Result FailurePolicyError FailureDecision

unfoldable pub decide :
    PlaybackFailure → PlaybackItemId → List PlaybackItemId → ℕ → FailurePolicy → Decision
unfolding validate_current_item next_action
decide failure item queue i p = validate_current_item item queue i (record {
  failed_item = item;
  failure = failure;
  end_reason = error;
  queue_action = if continues_after p failure then next_action queue i else stop_queue false;
  preserved = true;
})

unfoldable pub skip_item : PlaybackItemId → List PlaybackItemId → ℕ → FailurePolicy → Decision
unfolding validate_current_item next_action
skip_item item queue i p = validate_current_item item queue i (record {
  failed_item = item;
  failure = skip;
  end_reason = skipped;
  queue_action = next_action queue i;
  preserved = true;
})

unfoldable pub stop_item : PlaybackItemId → List PlaybackItemId → ℕ → FailurePolicy → Decision
unfolding validate_current_item
stop_item item queue i p = validate_current_item item queue i (record {
  failed_item = item;
  failure = stop;
  end_reason = stopped;
  queue_action = stop_queue false;
  preserved = true;
})
