-- ===== src/Playback/Queue/Edits.antt =====
-- core/aurorix-playback/src/queue.rs: what an edit of the queue makes of the current item.
use aurorix_music.Prelude.{
  ℕ, ◌+◌, ◌≤◌, ◌<◌, ◌≡◌, ◌≢◌, refl, ap, ◌∙◌, some, List, [], ◌∷◌, ◌++◌, arith, inl, inr, Bool-cases,
  Option-cases, ltb, leb, ◌==◌, length, get_elem?, insert_at, remove_at, length-remove_at,
  length-insert_at, map_option, subst,
}
use aurorix_music.Prelude.Exec.{Result, err, bind-keeps, pure}
use aurorix_music.Prelude.Word.{u64_max}
use aurorix_music.Playback.Command.{PlaybackItemId}
use aurorix_music.Playback.Shuffle.Order.{get_elem?-some-lt}
use aurorix_music.Playback.Queue.{
  PlaybackQueue, QueueError, current_item, replace, index_out_of_bounds, refresh_current_position,
  rebuild_order, set_shuffle, append, insert, remove, move_item, shift_current_up, move_current,
  current_after_remove, set_repeat_mode, set_previous_restart_threshold_us,
}
use aurorix_music.Playback.Queue.Invariant.{IsValid, InRange, current-InRange}
use aurorix_music.Playback.Queue.Changes.{InRange-mono, length_snoc, shift-InRange, remove-InRange}
use aurorix_music.Playback.Queue.Runs.{
  QueueCall, replaces, appends, inserts, removes, selects, moves, shuffles, repeats, threshold,
  starts, advances, goes_back, step, CallFits, move-InRange, length-moved,
}
use aurorix_music.Playback.Queue.Items.{
  item_at, append_item, insert_item, move_item_at, remove_item, rebuild_item, branch_item,
}

-- The edits that may not change the current item: all but the removal of its own index, and a replacement.
abbrev pub Spares : PlaybackQueue → QueueCall → Type 0
Spares q (appends _) = Unit {0}
Spares q (inserts _ _) = Unit {0}
Spares q (moves _ _) = Unit {0}
Spares q (shuffles _ _) = Unit {0}
Spares q (repeats _) = Unit {0}
Spares q (threshold _) = Unit {0}
Spares q (removes index) = q.current_index ≢ some index
Spares q _ = ⊥

append-current_item :
    (item : PlaybackItemId) (q : PlaybackQueue)
    → InRange q.current_index (length q.items)
    → length q.items < u64_max
    → current_item (append item q).1 ≡ current_item q
unfolding append refresh_current_position current_item
append-current_item item q r s = branch_item q.shuffle_enabled _ _ kept (
    rebuild_item q.current_index (record q { items = q.items ++ item ∷ [] })
      (InRange-mono q.current_index (length q.items) _ (omega (arith, length_snoc q.items item)) r)
    ∙ kept)
  where
    kept : item_at (q.items ++ item ∷ []) q.current_index ≡ item_at q.items q.current_index
    kept = append_item q.items item q.current_index r

insert-current_item :
    (index : ℕ) (item : PlaybackItemId) (q : PlaybackQueue)
    → InRange q.current_index (length q.items)
    → length q.items < u64_max
    → current_item (insert index item q).1 ≡ current_item q
unfolding insert refresh_current_position current_item
insert-current_item index item q r s = elim (Bool-cases (ltb (length q.items) index)) [
  | inl e ↦ rw (e, insert)
  | inr e ↦
      let current = map_option (shift_current_up index) q.current_index in
      let kept : item_at (insert_at q.items index item) current ≡ item_at q.items q.current_index =
        insert_item q.items item index q.current_index (ground arith) s r in
      let range : InRange current (length (insert_at q.items index item)) =
        rw (length-insert_at q.items index item)
          (shift-InRange index (length q.items) q.current_index s r) in
      rw (e, insert)
        (branch_item q.shuffle_enabled _ _ kept
          (rebuild_item current (record q { items = insert_at q.items index item }) range ∙ kept))
]

move-current_item :
    (from to : ℕ) (q : PlaybackQueue)
    → InRange q.current_index (length q.items)
    → length q.items ≤ u64_max
    → current_item (move_item from to q).1 ≡ current_item q
unfolding move_item refresh_current_position current_item
move-current_item from to q r s = elim (Option-cases (get_elem? q.items from)) [
  | inl e ↦ rw (e, move_item)
  | inr (item, e) ↦ elim (Bool-cases (leb (length q.items) to)) [
    | inl b ↦ rw (e, b, move_item)
    | inr b ↦ elim (Bool-cases (from == to)) [
      | inl c ↦ rw (e, b, c, move_item)
      | inr c ↦
          let ht : to < length q.items = ground arith in
          let hf = get_elem?-some-lt q.items from item e in
          let current = map_option (move_current from to) q.current_index in
          let items' = insert_at (remove_at q.items from) to item in
          let kept : item_at items' current ≡ item_at q.items q.current_index =
            move_item_at q.items item from to q.current_index e ht s r in
          let range : InRange current (length items') =
            rw (length-moved q.items from to item hf)
              (move-InRange (length q.items) from to q.current_index hf ht s r) in
          rw (e, b, c, move_item)
            (branch_item q.shuffle_enabled _ _ kept
              (rebuild_item current (record q { items = items' }) range ∙ kept))
    ]
  ]
]

remove-current_item :
    (index : ℕ) (q : PlaybackQueue)
    → InRange q.current_index (length q.items)
    → q.current_index ≢ some index
    → current_item (remove index q).1 ≡ current_item q
unfolding remove refresh_current_position current_item
remove-current_item index q r h = elim (Option-cases (get_elem? q.items index)) [
  | inl e ↦ rw (e, remove)
  | inr (removed, e) ↦
      let l = get_elem?-some-lt q.items index removed e in
      let fewer : length (remove_at q.items index) + 1 ≡ length q.items =
        length-remove_at q.items index l in
      let current = current_after_remove (length (remove_at q.items index)) index q.current_index in
      let kept : item_at (remove_at q.items index) current ≡ item_at q.items q.current_index =
        remove_item q.items index q.current_index h l r in
      let range : InRange current (length (remove_at q.items index)) =
        remove-InRange (length (remove_at q.items index)) index q.current_index (omega arith)
          (rw fewer r) in
      let again =
        rebuild_item current (record q { items = remove_at q.items index }) range ∙ kept in
      rw (e, remove)
        (branch_item q.shuffle_enabled _ _ kept (
          bind-keeps (λ x. current_item x ≡ item_at q.items q.current_index) (rebuild_order current)
            (λ _. pure removed) _ again (λ _ _. again)))
]

-- An append, an insertion, a move, the removal of another index and a change of the shuffle, the repeat mode
-- or the threshold keep the current item of a valid queue, in range or refused, shuffled or not, where there
-- is room for a new item.
pub step-current_item :
    (q : PlaybackQueue) (c : QueueCall)
    → IsValid q
    → CallFits q c
    → Spares q c
    → current_item (step q c) ≡ current_item q
unfolding step set_shuffle set_repeat_mode set_previous_restart_threshold_us current_item
step-current_item q (appends item) v f k = append-current_item item q (current-InRange q v) f
step-current_item q (inserts index item) v f k =
    insert-current_item index item q (current-InRange q v) f
step-current_item q (removes index) v f k = remove-current_item index q (current-InRange q v) k
step-current_item q (moves from to) v f k =
    move-current_item from to q (current-InRange q v) v.sized
step-current_item q (shuffles enabled seed) v f k =
    rebuild_item q.current_index (record q { shuffle_enabled = enabled; shuffle_seed = seed })
      (current-InRange q v)
step-current_item q (repeats mode) v f k = refl
step-current_item q (threshold us) v f k = refl
step-current_item q (replaces items current) v f k = absurd k
step-current_item q (selects index) v f k = absurd k
step-current_item q starts v f k = absurd k
step-current_item q (advances reason) v f k = absurd k
step-current_item q (goes_back us) v f k = absurd k

-- A replacement whose current index lies outside its list is refused, but not undone: the queue holds the
-- new items with the old playback order, and is no longer valid if the lengths differ.
pub replace_refused_tears :
    (items : List PlaybackItemId) (i : ℕ) (q : PlaybackQueue)
    → IsValid q
    → length items ≤ i
    → length items ≢ length q.items
    → (replace items (some i) q
        ≡ (err (index_out_of_bounds i (length items)), record q { items = items }))
      × ¬ IsValid (replace items (some i) q).1
unfolding replace rebuild_order
replace_refused_tears items i q v h other =
    (torn, λ w. other (omega (arith, v.order.size, broken w)))
  where
    torn :
        replace items (some i) q
        ≡ (err (index_out_of_bounds i (length items)), record q { items = items })
    torn = ground arith

    broken : IsValid (replace items (some i) q).1 → length q.playback_order ≡ length items
    broken w =
        (subst IsValid (ap (λ (x : Result QueueError (Unit {0}) × PlaybackQueue). x.1) torn)
          w).order.size
