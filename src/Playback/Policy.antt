-- ===== src/Playback/Policy.antt =====
-- core/aurorix-playback/src/queue_policy.rs: the deterministic queue policy, which keeps no order but
-- computes it anew at each call. An index that Rust would refuse with a panic is `none`.
pub mod Selection
pub mod Positions
pub mod Agreement
pub mod Edits
use aurorix_music.Prelude.{
  ℕ, ◌+◌, ◌-◌, Bool, true, false, ◌||◌, Option, none, some, List, [], ◌∷◌, leb, ltb, ◌==◌,
  if◌then◌else◌, length, get_elem?, map_option, and_then, unwrap_or, is_some, not,
}
use aurorix_music.Prelude.Exec.{Result, ok, err}
use aurorix_music.Prelude.Text.{text_eq}
use aurorix_music.Prelude.Word.{checked_add}
use aurorix_music.Playback.Command.{PlaybackItemId, RepeatMode}
use aurorix_music.Playback.Shuffle.{order_of}
use aurorix_music.Playback.Queue.{position_of, repeats_all}

abbrev pub previous_restart_threshold_us : ℕ
previous_restart_threshold_us = 3000000

pub data QueueTransition : Type 0 where
  selected restart_current : PlaybackItemId → ℕ → QueueTransition
  end_of_queue empty : QueueTransition

abbrev pub is_end_of_queue : QueueTransition → Bool
is_end_of_queue end_of_queue = true
is_end_of_queue _ = false

pub data QueueError : Type 0 where
  current_index_out_of_bounds : ℕ → ℕ → QueueError
  item_not_found : QueueError

pub record QueuePolicy : Type 0 where
  pub items : List PlaybackItemId
  pub current_index : Option ℕ
  pub shuffle_enabled : Bool
  pub shuffle_seed : ℕ
  pub repeat_mode : RepeatMode

abbrev pub new : QueuePolicy
new = record {
  items = [];
  current_index = none;
  shuffle_enabled = false;
  shuffle_seed = 0;
  repeat_mode = RepeatMode.off;
}

-- The index is there and not below the length.
abbrev out_of_bounds : Option ℕ → ℕ → Bool
out_of_bounds none n = false
out_of_bounds (some i) n = leb n i

unfoldable pub from_items : List PlaybackItemId → Option ℕ → Result QueueError QueuePolicy
from_items items current =
    if out_of_bounds current (length items)
    then err (current_index_out_of_bounds (unwrap_or current 0) (length items))
    else ok (record new { items = items; current_index = current })

unfoldable pub set_items :
    List PlaybackItemId → Option ℕ → QueuePolicy → Result QueueError (Unit {0}) × QueuePolicy
set_items items current p =
    if out_of_bounds current (length items)
    then (err (current_index_out_of_bounds (unwrap_or current 0) (length items)), p)
    else (ok tt, record p { items = items; current_index = current })

-- `items.iter().position(|item| item == item_id)`.
unfoldable pub position_of_item : PlaybackItemId → List PlaybackItemId → Option ℕ
position_of_item item [] = none
position_of_item item (x ∷ xs) =
    if text_eq x item then some 0 else map_option (λ i. i + 1) (position_of_item item xs)

unfoldable pub select_item :
    PlaybackItemId → QueuePolicy → Result QueueError (Unit {0}) × QueuePolicy
unfolding position_of_item
select_item item p = elim (position_of_item item p.items) [
  | none ↦ (err item_not_found, p)
  | some i ↦ (ok tt, record p { current_index = some i })
]

abbrev pub set_shuffle : Bool → ℕ → QueuePolicy → QueuePolicy
set_shuffle enabled seed p = record p { shuffle_enabled = enabled; shuffle_seed = seed }

abbrev pub set_repeat : RepeatMode → QueuePolicy → QueuePolicy
set_repeat mode p = record p { repeat_mode = mode }

abbrev pub effective_indices : QueuePolicy → List ℕ
effective_indices p = order_of (length p.items) p.shuffle_enabled p.shuffle_seed

abbrev pub current_position : List ℕ → QueuePolicy → ℕ
current_position order p = unwrap_or (and_then p.current_index (λ i. position_of i order)) 0

unfoldable pub current_transition : Bool → QueuePolicy → Option QueueTransition
current_transition restart p =
    let index = unwrap_or p.current_index 0 in
    map_option (λ item. if restart then restart_current item index else selected item index)
      (get_elem? p.items index)

abbrev pub Answer : Type 0
Answer = Option (QueueTransition × QueuePolicy)

-- A method that ends in `self.current_transition(restart)`.
abbrev pub answer : Bool → QueuePolicy → Answer
answer restart p = map_option (λ t. (t, p)) (current_transition restart p)

-- `self.current_index = Some(order[position])` and the report of it.
abbrev pub select_position : List ℕ → ℕ → QueuePolicy → Answer
select_position order position p =
    and_then (get_elem? order position) (λ i. answer false (record p { current_index = some i }))

-- The next position within an order of `n` entries.
abbrev pub next_position : ℕ → ℕ → Option ℕ
next_position position n =
    and_then (checked_add position 1) (λ next. if ltb next n then some next else none)

-- `advance` with an item selected.
unfoldable pub advance_selected : List ℕ → QueuePolicy → Answer
unfolding current_transition position_of
advance_selected order p = elim (next_position (current_position order p) (length order)) [
  | some position ↦ select_position order position p
  | none ↦ if repeats_all p.repeat_mode then select_position order 0 p else some (end_of_queue, p)
]

unfoldable pub advance : QueuePolicy → Answer
unfolding advance_selected current_transition
advance p =
    if length p.items == 0
    then some (empty, p)
    else if not (is_some p.current_index)
    then select_position (effective_indices p) 0 p
    else advance_selected (effective_indices p) p

unfoldable pub next : QueuePolicy → Answer
unfolding advance
next = advance

abbrev pub repeats_one : RepeatMode → Bool
repeats_one RepeatMode.one = true
repeats_one _ = false

unfoldable pub on_item_completed : QueuePolicy → Answer
unfolding advance current_transition
on_item_completed p =
    if length p.items == 0 || not (is_some p.current_index)
    then some (empty, p)
    else if repeats_one p.repeat_mode
    then answer true p
    else advance p

-- `previous` at a position of the order.
unfoldable pub previous_from : List ℕ → ℕ → QueuePolicy → Answer
unfolding current_transition
previous_from order position p =
    if position == 0
    then (if repeats_all p.repeat_mode
        then select_position order (length order - 1) p
        else answer true p)
    else select_position order (position - 1) p

unfoldable pub previous : QueuePolicy → Answer
unfolding previous_from position_of
previous p =
    if length p.items == 0
    then some (empty, p)
    else previous_from (effective_indices p) (current_position (effective_indices p) p) p

-- The end of a queue becomes a restart.
abbrev pub restart_at_end : QueueTransition × QueuePolicy → Answer
restart_at_end (t, p) = if is_end_of_queue t then answer true p else some (t, p)

unfoldable pub previous_at : ℕ → QueuePolicy → Answer
unfolding next previous current_transition
previous_at position_us p =
    if length p.items == 0
    then some (empty, p)
    else if not (is_some p.current_index)
    then next p
    else if ltb previous_restart_threshold_us position_us
    then answer true p
    else and_then (previous p) restart_at_end
