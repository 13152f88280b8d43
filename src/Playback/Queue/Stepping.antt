-- ===== src/Playback/Queue/Stepping.antt =====
-- core/aurorix-playback/src/queue.rs: the methods that select.
use aurorix_music.Prelude.{
  ℕ, ◌+◌, ◌-◌, Bool, true, false, ◌&&◌, Option, none, some, [], ◌∷◌, ltb, leb, if◌then◌else◌,
  length, get_elem?, and_then, map_option, unwrap_or,
}
use aurorix_music.Prelude.Exec.{ok, err}
use aurorix_music.Playback.Command.{RepeatMode}
use aurorix_music.Playback.Queue.State.{
  AdvanceReason, QueueTransition, PlaybackQueue, M, position_of, completed, manual_next, selected,
  restart_current, empty, ended, index_out_of_bounds,
}

-- The transition that reports the selection, `None` where there is none.
unfoldable pub selected_transition : Bool → PlaybackQueue → Option QueueTransition
selected_transition restart q = and_then q.current_index λ index.
    and_then (get_elem? q.items index) λ item.
      map_option
        (λ position.
          if restart then restart_current item index position else selected item index position)
        q.current_order_position

-- `.unwrap_or(QueueTransition::Empty)` after a selection.
abbrev pub report : Bool → PlaybackQueue → QueueTransition × PlaybackQueue
report restart q = (unwrap_or (selected_transition restart q) empty, q)

unfoldable pub select : ℕ → M QueueTransition
unfolding selected_transition position_of
select index q =
    if leb (length q.items) index
    then (err (index_out_of_bounds index (length q.items)), q)
    else (let q' = record q {
      current_index = some index;
      current_order_position = position_of index q.playback_order;
    } in
        (ok (unwrap_or (selected_transition false q') empty), q'))

-- The selection of a position in the playback order.
abbrev pub at_position : ℕ → PlaybackQueue → QueueTransition × PlaybackQueue
at_position p q =
    report false
      (record q { current_order_position = some p; current_index = get_elem? q.playback_order p })

unfoldable pub first : PlaybackQueue → QueueTransition × PlaybackQueue
unfolding selected_transition
first q = elim q.playback_order [
  | [] ↦ (empty, record q { current_index = none; current_order_position = none })
  | _ ∷ _ ↦ at_position 0 q
]

abbrev pub repeats_one : AdvanceReason → RepeatMode → Bool
repeats_one completed RepeatMode.one = true
repeats_one _ _ = false

abbrev pub repeats_all : RepeatMode → Bool
repeats_all RepeatMode.all = true
repeats_all _ = false

-- `advance_next` at a known position.
unfoldable pub advance_from : AdvanceReason → ℕ → PlaybackQueue → QueueTransition × PlaybackQueue
unfolding selected_transition
advance_from reason p q =
    if repeats_one reason q.repeat_mode
    then report true q
    else if ltb (p + 1) (length q.playback_order)
    then at_position (p + 1) q
    else if repeats_all q.repeat_mode
    then at_position 0 q
    else (ended, q)

unfoldable pub advance_next : AdvanceReason → PlaybackQueue → QueueTransition × PlaybackQueue
unfolding first advance_from
advance_next reason q = elim q.current_order_position [
  | none ↦ first q
  | some p ↦ advance_from reason p q
]

unfoldable pub next : PlaybackQueue → QueueTransition × PlaybackQueue
unfolding advance_next
next = advance_next manual_next

unfoldable pub complete_current : PlaybackQueue → QueueTransition × PlaybackQueue
unfolding advance_next
complete_current = advance_next completed

unfoldable pub previous_from : ℕ → ℕ → PlaybackQueue → QueueTransition × PlaybackQueue
unfolding selected_transition
previous_from position_us p q =
    if ltb q.previous_restart_threshold_us position_us
    then report true q
    else if ltb 0 p
    then at_position (p - 1) q
    else if repeats_all q.repeat_mode && ltb 0 (length q.playback_order)
    then at_position (length q.playback_order - 1) q
    else report true q

unfoldable pub previous : ℕ → PlaybackQueue → QueueTransition × PlaybackQueue
unfolding previous_from
previous position_us q = elim q.current_order_position [
  | none ↦ (empty, q)
  | some p ↦ previous_from position_us p q
]
