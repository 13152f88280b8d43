-- ===== src/Playback/Queue/Changes.antt =====
-- core/aurorix-playback/src/queue.rs: the invariant under the methods that change the items.
use aurorix_music.Prelude.{
  ℕ, ◌+◌, ◌≤◌, ◌<◌, ◌≡◌, Option, none, some, List, [], ◌∷◌, ◌++◌, map, arith, inl, inr, Bool-cases,
  Option-cases, ltb, length, get_elem?, length-append, length-insert_at, length-remove_at,
  insert_at, remove_at, map_option,
}
use aurorix_music.Prelude.Exec.{bind-keeps, pure}
use aurorix_music.Prelude.Word.{u64_max}
use aurorix_music.Playback.Command.{PlaybackItemId}
use aurorix_music.Playback.Shuffle.Order.{get_elem?-some-lt}
use aurorix_music.Playback.Queue.{
  PlaybackQueue, rebuild_order, append, insert, remove, shift_up, shift_down, without,
  shift_current_up, current_after_remove,
}
use aurorix_music.Playback.Queue.Order.{append-IsOrder, insert-IsOrder, remove-IsOrder}
use aurorix_music.Playback.Queue.Invariant.{
  IsValid, InRange, refresh-IsValid, current-InRange, branch-IsValid, rebuild-IsValid,
}

pub InRange-mono : (c : Option ℕ) (m n : ℕ) → m ≤ n → InRange c m → InRange c n
InRange-mono none m n h r = tt
InRange-mono (some i) m n h r = omega arith

pub length_snoc :
    (items : List PlaybackItemId) (item : PlaybackItemId)
    → length (items ++ item ∷ []) ≡ length items + 1
length_snoc items item = omega (arith, length-append items (item ∷ []))

pub append-IsValid :
    (item : PlaybackItemId) (q : PlaybackQueue)
    → length q.items < u64_max
    → IsValid q
    → IsValid (append item q).1
unfolding append
append-IsValid item q room v =
    branch-IsValid q.shuffle_enabled _ _
      (refresh-IsValid
        (record q {
          items = q.items ++ item ∷ [];
          playback_order = q.playback_order ++ length q.items ∷ [];
        })
        (rw (length_snoc q.items item) (append-IsOrder (length q.items) q.playback_order v.order))
        range sized)
      (rebuild-IsValid q.current_index (record q { items = q.items ++ item ∷ [] }) range sized).1
  where
    range : InRange q.current_index (length (q.items ++ item ∷ []))
    range =
        InRange-mono q.current_index (length q.items) _ (omega (arith, length_snoc q.items item))
          (current-InRange q v)

    sized : length (q.items ++ item ∷ []) ≤ u64_max
    sized = omega (arith, length_snoc q.items item)

pub shift-InRange :
    (index n : ℕ) (c : Option ℕ)
    → n < u64_max
    → InRange c n
    → InRange (map_option (shift_current_up index) c) (n + 1)
shift-InRange index n none h r = tt
shift-InRange index n (some i) h r = ground arith

pub insert-IsValid :
    (index : ℕ) (item : PlaybackItemId) (q : PlaybackQueue)
    → length q.items < u64_max
    → IsValid q
    → IsValid (insert index item q).1
unfolding insert
insert-IsValid index item q room v = elim (Bool-cases (ltb (length q.items) index)) [
  | inl e ↦ rw (e, insert) v
  | inr e ↦
      rw (e, insert)
        (branch-IsValid q.shuffle_enabled _ _
          (refresh-IsValid
            (record q {
              items = insert_at q.items index item;
              playback_order = map (shift_up index) q.playback_order ++ index ∷ [];
              current_index = map_option (shift_current_up index) q.current_index;
            })
            (rw (length-insert_at q.items index item)
              (insert-IsOrder (length q.items) index q.playback_order (ground arith) v.order))
            range sized)
          (rebuild-IsValid (map_option (shift_current_up index) q.current_index)
            (record q { items = insert_at q.items index item }) range sized).1)
]
  where
    range :
        InRange
          (map_option (shift_current_up index) q.current_index)
          (length (insert_at q.items index item))
    range =
        rw (length-insert_at q.items index item)
          (shift-InRange index (length q.items) q.current_index room (current-InRange q v))

    sized : length (insert_at q.items index item) ≤ u64_max
    sized = omega (arith, length-insert_at q.items index item)

pub remove-InRange :
    (n index : ℕ) (c : Option ℕ)
    → index ≤ n
    → InRange c (n + 1)
    → InRange (current_after_remove n index c) n
remove-InRange n index none h r = tt
remove-InRange n index (some i) h r = ground arith

pub remove-IsValid : (index : ℕ) (q : PlaybackQueue) → IsValid q → IsValid (remove index q).1
unfolding remove
remove-IsValid index q v = elim (Option-cases (get_elem? q.items index)) [
  | inl e ↦ rw (e, remove) v
  | inr (removed, e) ↦
      let fewer : length (remove_at q.items index) + 1 ≡ length q.items =
        length-remove_at q.items index (get_elem?-some-lt q.items index removed e) in
      let n = length (remove_at q.items index) in
      let below : index ≤ n = omega (arith, get_elem?-some-lt q.items index removed e) in
      let current = current_after_remove n index q.current_index in
      let range : InRange current n =
        remove-InRange n index q.current_index below (rw fewer (current-InRange q v)) in
      let sized : n ≤ u64_max = omega (arith, v.sized) in
      let again =
        (rebuild-IsValid current (record q { items = remove_at q.items index }) range sized).1 in
      rw (e, remove)
        (branch-IsValid q.shuffle_enabled _ _
          (refresh-IsValid
            (record q {
              items = remove_at q.items index;
              playback_order = map (shift_down index) (without index q.playback_order);
              current_index = current;
            })
            (remove-IsOrder n index q.playback_order below (rw fewer v.order)) range sized)
          (bind-keeps IsValid (rebuild_order current) (λ _. pure removed) _ again (λ _ _. again)))
]
