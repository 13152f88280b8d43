-- ===== src/Playback/Queue/Runs.antt =====
-- core/aurorix-playback/src/queue.rs: the calls on a queue and its invariant.
use aurorix_music.Prelude.{
  ℕ, ◌≤◌, ◌<◌, ◌≡◌, Bool, Option, none, some, List, map, arith, inl, inr, Bool-cases, Option-cases,
  leb, ◌==◌, length, get_elem?, length-insert_at, length-remove_at, insert_at, remove_at,
  map_option,
}
use aurorix_music.Prelude.Word.{u64_max}
use aurorix_music.Playback.Command.{PlaybackItemId, RepeatMode}
use aurorix_music.Playback.Shuffle.Order.{get_elem?-some-lt}
use aurorix_music.Playback.Queue.{
  PlaybackQueue, set_shuffle, append, insert, remove, move_item, select, first, advance_next,
  AdvanceReason, previous, replace, move_current, remap_index_after_move, set_repeat_mode,
  set_previous_restart_threshold_us,
}
use aurorix_music.Playback.Queue.Order.{move-IsOrder}
use aurorix_music.Playback.Queue.Invariant.{
  IsValid, InRange, current-InRange, branch-IsValid, refresh-IsValid, rebuild-IsValid,
  set_shuffle-IsValid, replace-IsValid,
}
use aurorix_music.Playback.Queue.Changes.{append-IsValid, insert-IsValid, remove-IsValid}
use aurorix_music.Playback.Queue.Selections.{
  select-IsValid, first-IsValid, advance_next-IsValid, previous-IsValid,
}

pub move-InRange :
    (n from to : ℕ) (c : Option ℕ)
    → from < n
    → to < n
    → n ≤ u64_max
    → InRange c n
    → InRange (map_option (move_current from to) c) n
move-InRange n from to none hf ht s r = tt
move-InRange n from to (some i) hf ht s r = ground arith

-- The length of a list after an item was taken out and put back.
pub length-moved :
    (items : List PlaybackItemId) (from to : ℕ) (item : PlaybackItemId)
    → from < length items
    → length (insert_at (remove_at items from) to item) ≡ length items
length-moved items from to item h =
    omega (arith, length-insert_at (remove_at items from) to item, length-remove_at items from h)

move_item-IsValid : (from to : ℕ) (q : PlaybackQueue) → IsValid q → IsValid (move_item from to q).1
unfolding move_item
move_item-IsValid from to q v = elim (Option-cases (get_elem? q.items from)) [
  | inl e ↦ rw (e, move_item) v
  | inr (item, e) ↦ elim (Bool-cases (leb (length q.items) to)) [
    | inl b ↦ rw (e, b, move_item) v
    | inr b ↦ elim (Bool-cases (from == to)) [
      | inl c ↦ rw (e, b, c, move_item) v
      | inr c ↦
          let hf = get_elem?-some-lt q.items from item e in
          let ht : to < length q.items = ground arith in
          let n = length (insert_at (remove_at q.items from) to item) in
          let same : n ≡ length q.items = length-moved q.items from to item hf in
          let current = map_option (move_current from to) q.current_index in
          let range : InRange current n = rw same (
            move-InRange (length q.items) from to q.current_index hf ht v.sized
              (current-InRange q v)) in
          let sized : n ≤ u64_max = omega (arith, v.sized) in
          rw (e, b, c, move_item)
            (branch-IsValid q.shuffle_enabled _ _
              (refresh-IsValid
                (record q {
                  items = insert_at (remove_at q.items from) to item;
                  playback_order = map (λ i. remap_index_after_move i from to) q.playback_order;
                  current_index = current;
                })
                (rw same (move-IsOrder (length q.items) from to q.playback_order hf ht v.order))
                range sized)
              (rebuild-IsValid current
                (record q { items = insert_at (remove_at q.items from) to item }) range sized).1)
    ]
  ]
]

-- The calls on a queue that change it.
pub data QueueCall : Type 0 where
  replaces : List PlaybackItemId → Option ℕ → QueueCall
  appends : PlaybackItemId → QueueCall
  inserts : ℕ → PlaybackItemId → QueueCall
  removes selects : ℕ → QueueCall
  moves : ℕ → ℕ → QueueCall
  shuffles : Bool → ℕ → QueueCall
  repeats : RepeatMode → QueueCall
  threshold : ℕ → QueueCall
  starts : QueueCall
  advances : AdvanceReason → QueueCall
  goes_back : ℕ → QueueCall

unfoldable pub step : PlaybackQueue → QueueCall → PlaybackQueue
step q (replaces items current) = (replace items current q).1
step q (appends item) = (append item q).1
step q (inserts index item) = (insert index item q).1
step q (removes index) = (remove index q).1
step q (selects index) = (select index q).1
step q (moves from to) = (move_item from to q).1
step q (shuffles enabled seed) = (set_shuffle enabled seed q).1
step q (repeats mode) = set_repeat_mode mode q
step q (threshold us) = set_previous_restart_threshold_us us q
step q starts = (first q).1
step q (advances reason) = (advance_next reason q).1
step q (goes_back us) = (previous us q).1

-- What a call asks for: a replacement names an item of its own list, and there is room for a new item.
-- All other arguments are free, out of range or not.
abbrev pub CallFits : PlaybackQueue → QueueCall → Type 0
CallFits q (replaces items current) = InRange current (length items) × (length items ≤ u64_max)
CallFits q (appends item) = length q.items < u64_max
CallFits q (inserts index item) = length q.items < u64_max
CallFits q _ = Unit {0}

-- Every call, refused or not, keeps a valid queue valid, where a replacement names an item of its own list
-- and there is room for a new item: the playback order is a permutation of the logical indices and the
-- current position is that of the current index.
pub step-IsValid :
    (q : PlaybackQueue) (c : QueueCall) → CallFits q c → IsValid q → IsValid (step q c)
unfolding step set_repeat_mode set_previous_restart_threshold_us
step-IsValid q (replaces items current) h v = (replace-IsValid items current q h.0 h.1).1
step-IsValid q (appends item) h v = append-IsValid item q h v
step-IsValid q (inserts index item) h v = insert-IsValid index item q h v
step-IsValid q (removes index) h v = remove-IsValid index q v
step-IsValid q (selects index) h v = select-IsValid index q v
step-IsValid q (moves from to) h v = move_item-IsValid from to q v
step-IsValid q (shuffles enabled seed) h v = (set_shuffle-IsValid enabled seed q v).1
step-IsValid q (repeats mode) h v = record {
  order = v.order;
  selection = v.selection;
  sized = v.sized;
}
step-IsValid q (threshold us) h v = record {
  order = v.order;
  selection = v.selection;
  sized = v.sized;
}
step-IsValid q starts h v = first-IsValid q v
step-IsValid q (advances reason) h v = advance_next-IsValid reason q v
step-IsValid q (goes_back us) h v = previous-IsValid us q v
