-- ===== src/Playback/Queue/Editing.antt =====
-- core/aurorix-playback/src/queue.rs: the methods that change the items.
use aurorix_music.Prelude.{
  ℕ, ◌+◌, ◌-◌, ◌&&◌, Option, none, some, List, [], ◌∷◌, ◌++◌, map, min, ltb, leb, ◌==◌,
  if◌then◌else◌, length, get_elem?, insert_at, remove_at, map_option,
}
use aurorix_music.Prelude.Exec.{ok, err, ◌>>◌, pure}
use aurorix_music.Prelude.Word.{saturating_add}
use aurorix_music.Playback.Command.{PlaybackItemId}
use aurorix_music.Playback.Queue.State.{
  M, refresh_current_position, rebuild_order, index_out_of_bounds,
}

unfoldable pub replace : List PlaybackItemId → Option ℕ → M (Unit {0})
unfolding rebuild_order
replace items current q = rebuild_order current (record q { items = items })

unfoldable pub append : PlaybackItemId → M (Unit {0})
unfolding rebuild_order refresh_current_position
append item q =
    let q' = record q { items = q.items ++ item ∷ [] } in
    if q.shuffle_enabled
    then (
      ok tt,
      refresh_current_position
          (record q' { playback_order = q.playback_order ++ length q.items ∷ [] }),
    )
    else rebuild_order q.current_index q'

-- How an insertion at `index` shifts a logical index; the source saturates for the current one.
abbrev pub shift_up : ℕ → ℕ → ℕ
shift_up index i = if leb index i then i + 1 else i

abbrev pub shift_current_up : ℕ → ℕ → ℕ
shift_current_up index i = if leb index i then saturating_add i 1 else i

unfoldable pub insert : ℕ → PlaybackItemId → M (Unit {0})
unfolding rebuild_order refresh_current_position
insert index item q =
    if ltb (length q.items) index
    then (err (index_out_of_bounds index (length q.items)), q)
    else (let q' = record q { items = insert_at q.items index item } in
        let current = map_option (shift_current_up index) q.current_index in
        if q.shuffle_enabled
        then (
          ok tt,
          refresh_current_position (record q' {
            playback_order = map (shift_up index) q.playback_order ++ index ∷ [];
            current_index = current;
          }),
        )
        else rebuild_order current q')

-- `retain(|&item| item != index)`.
unfoldable pub without : ℕ → List ℕ → List ℕ
without index [] = []
without index (x ∷ xs) = if x == index then without index xs else x ∷ without index xs

abbrev pub shift_down : ℕ → ℕ → ℕ
shift_down index i = if ltb index i then i - 1 else i

-- The selection after the removal that leaves `n` items.
abbrev pub current_after_remove : ℕ → ℕ → Option ℕ → Option ℕ
current_after_remove n index none = none
current_after_remove n index (some current) =
    if n == 0
    then none
    else if ltb index current
    then some (current - 1)
    else if current == index
    then some (min current (n - 1))
    else some current

unfoldable pub remove : ℕ → M PlaybackItemId
unfolding rebuild_order refresh_current_position without
remove index q = elim (get_elem? q.items index) [
  | none ↦ (err (index_out_of_bounds index (length q.items)), q)
  | some removed ↦
      let q' = record q { items = remove_at q.items index } in
      let current = current_after_remove (length q'.items) index q.current_index in
      if q.shuffle_enabled
      then (
        ok removed,
        refresh_current_position (record q' {
          playback_order = map (shift_down index) (without index q.playback_order);
          current_index = current;
        }),
      )
      else (do rebuild_order current; pure removed) q'
]

abbrev pub remap_index_after_move : ℕ → ℕ → ℕ → ℕ
remap_index_after_move index from to =
    if index == from
    then to
    else if ltb from to && ltb from index && leb index to
    then index - 1
    else if ltb to from && leb to index && ltb index from
    then index + 1
    else index

-- The current index after a move; the source saturates where the order's entries are plainly raised.
abbrev pub move_current : ℕ → ℕ → ℕ → ℕ
move_current from to current =
    if current == from
    then to
    else if ltb from current && leb current to
    then current - 1
    else if leb to current && ltb current from
    then saturating_add current 1
    else current

unfoldable pub move_item : ℕ → ℕ → M (Unit {0})
unfolding rebuild_order refresh_current_position
move_item from to q = elim (get_elem? q.items from) [
  | none ↦ (err (index_out_of_bounds from (length q.items)), q)
  | some item ↦
      if leb (length q.items) to
      then (err (index_out_of_bounds to (length q.items)), q)
      else if from == to
      then (ok tt, q)
      else (let q' = record q { items = insert_at (remove_at q.items from) to item } in
          let current = map_option (move_current from to) q.current_index in
          if q.shuffle_enabled
          then (
            ok tt,
            refresh_current_position (record q' {
              playback_order = map (λ i. remap_index_after_move i from to) q.playback_order;
              current_index = current;
            }),
          )
          else rebuild_order current q')
]
