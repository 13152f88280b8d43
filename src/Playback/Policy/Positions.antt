-- ===== src/Playback/Policy/Positions.antt =====
-- core/aurorix-playback/src/queue_policy.rs and queue.rs: the policy and the queue at a position of their order.
use aurorix_music.Prelude.{
  ℕ, zero, suc, ◌+◌, ◌-◌, ◌≤◌, ◌<◌, ◌≡◌, refl, sym, Bool, true, false, none, some, List, [], ◌∷◌,
  arith, inl, inr, Bool-cases, length, get_elem?, ◌==◌, ltb, ◌∙◌,
}
use aurorix_music.Prelude.Word.{u64_max}
use aurorix_music.Playback.Shuffle.Order.{
  IsOrder, occurrences, occurrences-get, order-bound, get_elem?-lt,
}
use aurorix_music.Playback.Queue.{
  PlaybackQueue, position_of, at_position, repeats_all, report, selected_transition, previous_from,
  advance_from,
}
use aurorix_music.Playback.Queue
use aurorix_music.Playback.Queue.Invariant.{IsValid}
use aurorix_music.Playback.Queue.Navigation.{current-at}
use aurorix_music.Playback.Queue.Selections.{position-lt}
use aurorix_music.Playback.Policy.{
  QueuePolicy, QueueTransition, Answer, answer, select_position, effective_indices,
  current_position, current_transition, next_position, previous_restart_threshold_us,
}
use aurorix_music.Playback.Policy

-- The policy with the items, the selection and the modes of a queue.
abbrev pub policy_of : PlaybackQueue → QueuePolicy
policy_of q = record {
  items = q.items;
  current_index = q.current_index;
  shuffle_enabled = q.shuffle_enabled;
  shuffle_seed = q.shuffle_seed;
  repeat_mode = q.repeat_mode;
}

-- A transition of the queue without the position in the order.
abbrev pub transition_of : Queue.QueueTransition → QueueTransition
transition_of (Queue.selected item i p) = QueueTransition.selected item i
transition_of (Queue.restart_current item i p) = QueueTransition.restart_current item i
transition_of Queue.empty = QueueTransition.empty
transition_of Queue.ended = QueueTransition.end_of_queue

abbrev pub answer_of : Queue.QueueTransition × PlaybackQueue → Answer
answer_of (t, q) = some (transition_of t, policy_of q)

-- In an order an index stands where it was found.
position_of_unique :
    (xs : List ℕ) (p i : ℕ)
    → occurrences i xs ≤ 1
    → get_elem? xs p ≡ some i
    → position_of i xs ≡ some p
unfolding position_of
position_of_unique [] p i h e = cc
position_of_unique (x ∷ xs) zero i h e = ground arith
position_of_unique (x ∷ xs) (suc p) i h e =
    ground (arith, position_of_unique xs p i, occurrences-get xs p i e)

position_of-IsOrder :
    (n : ℕ) (xs : List ℕ) (p i : ℕ)
    → IsOrder n xs
    → get_elem? xs p ≡ some i
    → position_of i xs ≡ some p
position_of-IsOrder n xs p i o e = position_of_unique xs p i (ground (arith, o.each i)) e

pub report_agrees :
    (restart : Bool) (q : PlaybackQueue) (i p : ℕ)
    → q.current_index ≡ some i
    → q.current_order_position ≡ some p
    → i < length q.items
    → answer restart (policy_of q) ≡ answer_of (report restart q)
unfolding current_transition selected_transition
report_agrees true q i p e f h =
    let (item, found) = get_elem?-lt q.items i h in
    rw (e, f, found, current_transition, selected_transition) refl
report_agrees false q i p e f h =
    let (item, found) = get_elem?-lt q.items i h in
    rw (e, f, found, current_transition, selected_transition) refl

at_position_agrees :
    (q : PlaybackQueue) (m : ℕ)
    → IsValid q
    → m < length q.playback_order
    → select_position q.playback_order m (policy_of q) ≡ answer_of (at_position m q)
at_position_agrees q m v h =
    let (j, found) = get_elem?-lt q.playback_order m h in
    rw found (
      report_agrees false (record q { current_order_position = some m; current_index = some j }) j m
        refl refl (order-bound (length q.items) q.playback_order m j v.order found))

pub current_position-position :
    (q : PlaybackQueue) (p : ℕ)
    → IsValid q
    → q.current_order_position ≡ some p
    → current_position q.playback_order (policy_of q) ≡ p
current_position-position q p v e =
    let (i, found) = get_elem?-lt q.playback_order p (position-lt q p v e) in
    rw
      (
        sym (current-at q p v e),
        found,
        position_of-IsOrder (length q.items) q.playback_order p i v.order found,
      )
      refl

next_position-within : (p n : ℕ) → n ≤ u64_max → p + 1 < n → next_position p n ≡ some (p + 1)
next_position-within p n h b = ground arith

next_position-last : (p n : ℕ) → n ≤ p + 1 → next_position p n ≡ none
next_position-last p n b = ground arith

pub advance_agrees :
    (q : PlaybackQueue) (reason : Queue.AdvanceReason) (p : ℕ)
    → IsValid q
    → q.current_order_position ≡ some p
    → Queue.repeats_one reason q.repeat_mode ≡ false
    → Policy.advance_selected q.playback_order (policy_of q) ≡ answer_of (advance_from reason p q)
unfolding advance_from Policy.advance_selected
advance_agrees q reason p v e one =
    let at = current_position-position q p v e in
    let n = length q.playback_order in
    elim (Bool-cases (ltb (p + 1) n)) [
      | inl b ↦
          rw
            (
              at,
              one,
              b,
              next_position-within p n (omega (arith, v.order.size, v.sized)) (ground arith),
              Policy.advance_selected,
              advance_from,
            )
            (at_position_agrees q (p + 1) v (ground arith))
      | inr b ↦ elim (Bool-cases (repeats_all q.repeat_mode)) [
        | inl r ↦
            rw
              (
                Policy.advance_selected,
                advance_from,
                at,
                one,
                b,
                next_position-last p n (ground arith),
                r,
              )
              (at_position_agrees q 0 v (omega (arith, position-lt q p v e)))
        | inr r ↦
            rw
              (
                Policy.advance_selected,
                advance_from,
                at,
                one,
                b,
                next_position-last p n (ground arith),
                r,
              )
              refl
      ]
    ]

pub previous_agrees :
    (q : PlaybackQueue) (i p us : ℕ)
    → IsValid q
    → q.current_index ≡ some i
    → q.current_order_position ≡ some p
    → us ≤ q.previous_restart_threshold_us
    → Policy.previous_from q.playback_order p (policy_of q) ≡ answer_of (Queue.previous_from us p q)
unfolding Policy.previous_from Queue.previous_from
previous_agrees q i p us v c e t =
    let h = position-lt q p v e in
    let fits : ltb q.previous_restart_threshold_us us ≡ false = ground arith in
    let item : i < length q.items =
      order-bound (length q.items) q.playback_order p i v.order (current-at q p v e ∙ c) in
    elim (Bool-cases (p == 0)) [
      | inr z ↦
          let some_before : ltb 0 p ≡ true = ground arith in
          rw (z, fits, some_before, Policy.previous_from, Queue.previous_from)
            (at_position_agrees q (p - 1) v (omega (arith, h)))
      | inl z ↦
          let first : ltb 0 p ≡ false = ground arith in
          let filled : ltb 0 (length q.playback_order) ≡ true = ground arith in
          elim (Bool-cases (repeats_all q.repeat_mode)) [
            | inl r ↦
                rw (z, fits, first, r, filled, Policy.previous_from, Queue.previous_from)
                  (at_position_agrees q (length q.playback_order - 1) v (omega (arith, h)))
            | inr r ↦
                rw (z, fits, first, r, Policy.previous_from, Queue.previous_from)
                  (report_agrees true q i p c e item)
          ]
    ]
