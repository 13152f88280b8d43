-- ===== src/Playback/Examples/Queues.antt =====
-- A queue of three items.
use aurorix_music.Prelude.{ℕ, ◌<◌, ◌≡◌, refl, true, false, some, [], ◌∷◌, arith}
use aurorix_music.Playback.Command.{RepeatMode}
use aurorix_music.Playback.Shuffle.{order_of, splitmix64, swap, range, shuffle_down, mix}
use aurorix_music.Playback.Shuffle.Order.{IsOrder, order_of-IsOrder}
use aurorix_music.Playback.Queue.{PlaybackQueue, current_item, replace, next, previous}
use aurorix_music.Playback.Queue.Invariant.{IsValid}
use aurorix_music.Playback.Queue.Runs.{removes, moves, step, step-IsValid}
use aurorix_music.Playback.Queue.Edits.{step-current_item, replace_refused_tears}
use aurorix_music.Playback.Queue.Navigation.{previous-next, skip, skips_visit_all}

abbrev pub three_items : PlaybackQueue
three_items = record {
  items = (b'a' ∷ []) ∷ (b'b' ∷ []) ∷ (b'c' ∷ []) ∷ [];
  playback_order = 0 ∷ 1 ∷ 2 ∷ [];
  current_index = some 1;
  current_order_position = some 1;
  shuffle_enabled = false;
  shuffle_seed = 0;
  repeat_mode = RepeatMode.all;
  previous_restart_threshold_us = 3000000;
}

pub three_items-IsValid : IsValid three_items
three_items-IsValid = record {
  order = record { size = refl; each = λ a. ground arith };
  selection = refl;
  sized = omega arith;
}

shuffled_order : order_of 5 true 42 ≡ 1 ∷ 2 ∷ 0 ∷ 4 ∷ 3 ∷ []
unfolding order_of splitmix64 swap range shuffle_down mix
shuffled_order = refl

order_of-IsOrder_example : IsOrder 5 (order_of 5 true 42)
order_of-IsOrder_example = order_of-IsOrder 5 true 42

step-IsValid_example : IsValid (step three_items (moves 0 2))
step-IsValid_example = step-IsValid three_items (moves 0 2) tt three_items-IsValid

step-current_item_example : current_item (step three_items (removes 0)) ≡ current_item three_items
step-current_item_example =
    step-current_item three_items (removes 0) three_items-IsValid tt (λ e. ground arith)

replace_refused_tears_example : ¬ IsValid (replace ((b'z' ∷ []) ∷ []) (some 1) three_items).1
replace_refused_tears_example =
    (replace_refused_tears ((b'z' ∷ []) ∷ []) 1 three_items three_items-IsValid (omega arith)
      (λ e. omega arith)).1

previous-next_example : (previous 0 (next three_items).1).1 ≡ three_items
previous-next_example =
    previous-next three_items 1 0 three_items-IsValid refl (omega arith) (omega arith)

skips_visit_all_example : (k : ℕ) × (k < 3) × ((skip k three_items).current_index ≡ some 0)
skips_visit_all_example =
    skips_visit_all three_items 1 0 three_items-IsValid refl refl (omega arith)
