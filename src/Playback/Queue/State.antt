-- ===== src/Playback/Queue/State.antt =====
-- core/aurorix-playback/src/queue.rs: the state of the queue, its order and its settings.
use aurorix_music.Prelude.{
  ℕ, ◌+◌, Bool, false, Option, none, some, List, [], ◌∷◌, leb, ◌==◌, if◌then◌else◌, length,
  get_elem?, and_then, map_option,
}
use aurorix_music.Prelude.Exec.{Result, ok, err, Exec}
use aurorix_music.Playback.Command.{PlaybackItemId, RepeatMode}
use aurorix_music.Playback.Shuffle.{order_of}

pub data AdvanceReason : Type 0 where
  manual_next completed : AdvanceReason

-- The item, its logical index and its position in the playback order.
pub data QueueTransition : Type 0 where
  selected restart_current : PlaybackItemId → ℕ → ℕ → QueueTransition
  empty ended : QueueTransition

pub data QueueError : Type 0 where
  index_out_of_bounds : ℕ → ℕ → QueueError

pub record PlaybackQueue : Type 0 where
  pub items : List PlaybackItemId
  pub playback_order : List ℕ
  pub current_index : Option ℕ
  pub current_order_position : Option ℕ
  pub shuffle_enabled : Bool
  pub shuffle_seed : ℕ
  pub repeat_mode : RepeatMode
  pub previous_restart_threshold_us : ℕ

abbrev pub default_threshold_us : ℕ
default_threshold_us = 3000000

unfoldable pub new : PlaybackQueue
new = record {
  items = [];
  playback_order = [];
  current_index = none;
  current_order_position = none;
  shuffle_enabled = false;
  shuffle_seed = 0;
  repeat_mode = RepeatMode.off;
  previous_restart_threshold_us = default_threshold_us;
}

abbrev pub M : Type 0 → Type 0
M A = Exec PlaybackQueue QueueError A

-- `iter().position(|&item| item == wanted)`.
unfoldable pub position_of : ℕ → List ℕ → Option ℕ
position_of a [] = none
position_of a (x ∷ xs) = if x == a then some 0 else map_option (λ i. i + 1) (position_of a xs)

unfoldable pub refresh_current_position : PlaybackQueue → PlaybackQueue
refresh_current_position q = record q {
  current_order_position =
      and_then q.current_index (λ current. position_of current q.playback_order);
}

-- `if let Some(index) = current && index >= len`.
abbrev pub out_of_range : Option ℕ → ℕ → Option ℕ
out_of_range none n = none
out_of_range (some i) n = if leb n i then some i else none

unfoldable pub rebuild_order : Option ℕ → M (Unit {0})
unfolding refresh_current_position
rebuild_order current q = elim (out_of_range current (length q.items)) [
  | some index ↦ (err (index_out_of_bounds index (length q.items)), q)
  | none ↦ (
    ok tt,
    refresh_current_position (record q {
      playback_order = order_of (length q.items) q.shuffle_enabled q.shuffle_seed;
      current_index = current;
    }),
  )
]

unfoldable pub from_items : List PlaybackItemId → Option ℕ → Result QueueError PlaybackQueue
unfolding rebuild_order new
from_items items current = elim (rebuild_order current (record new { items = items })).0 [
  | ok _ ↦ ok (rebuild_order current (record new { items = items })).1
  | err e ↦ err e
]

unfoldable pub current_item : PlaybackQueue → Option PlaybackItemId
current_item q = and_then q.current_index (λ i. get_elem? q.items i)

unfoldable pub set_shuffle : Bool → ℕ → M (Unit {0})
unfolding rebuild_order
set_shuffle enabled seed q =
    rebuild_order q.current_index (record q { shuffle_enabled = enabled; shuffle_seed = seed })

unfoldable pub set_repeat_mode : RepeatMode → PlaybackQueue → PlaybackQueue
set_repeat_mode mode q = record q { repeat_mode = mode }

unfoldable pub set_previous_restart_threshold_us : ℕ → PlaybackQueue → PlaybackQueue
set_previous_restart_threshold_us t q = record q { previous_restart_threshold_us = t }
