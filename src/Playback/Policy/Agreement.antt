-- ===== src/Playback/Policy/Agreement.antt =====
-- core/aurorix-playback/src/queue_policy.rs and queue.rs: the navigation of the policy beside that of the queue.
use aurorix_music.Prelude.{
  ℕ, ◌≤◌, ◌<◌, ◌≡◌, refl, sym, Bool, true, false, some, arith, inl, inr, Bool-cases, length,
  is_some, ◌==◌, ltb, ap, ◌∙◌,
}
use aurorix_music.Playback.Command.{RepeatMode}
use aurorix_music.Playback.Shuffle.{order_of}
use aurorix_music.Playback.Shuffle.Order.{order-bound, get_elem?-lt}
use aurorix_music.Playback.Queue.{
  PlaybackQueue, position_of, at_position, repeats_all, report, selected_transition, previous_from,
  advance_from,
}
use aurorix_music.Playback.Queue
use aurorix_music.Playback.Queue.Invariant.{IsValid}
use aurorix_music.Playback.Queue.Navigation.{current-at}
use aurorix_music.Playback.Queue.Selections.{position-lt}
use aurorix_music.Playback.Policy.{
  QueuePolicy, QueueTransition, Answer, answer, select_position, effective_indices,
  current_position, current_transition, next_position, previous_restart_threshold_us,
}
use aurorix_music.Playback.Policy
use aurorix_music.Playback.Policy.Selection.{Navigation, skips, completes, goes_back_at, navigate}
use aurorix_music.Playback.Policy.Positions.{
  policy_of, transition_of, answer_of, report_agrees, current_position-position, advance_agrees,
  previous_agrees,
}

-- The navigation of the queue; the policy's plain `previous` is the queue's at the start of an item.
unfoldable pub queue_navigate : Navigation → PlaybackQueue → Queue.QueueTransition × PlaybackQueue
queue_navigate skips q = Queue.next q
queue_navigate completes q = Queue.complete_current q
queue_navigate Navigation.goes_back q = Queue.previous 0 q
queue_navigate (goes_back_at us) q = Queue.previous us q

skips_agree :
    (q : PlaybackQueue) (p : ℕ)
    → IsValid q
    → q.playback_order ≡ order_of (length q.items) q.shuffle_enabled q.shuffle_seed
    → q.current_order_position ≡ some p
    → Policy.next (policy_of q) ≡ answer_of (Queue.next q)
unfolding Policy.next Policy.advance Queue.next
skips_agree q p v o e =
    let (i, found) = get_elem?-lt q.playback_order p (position-lt q p v e) in
    let c : q.current_index ≡ some i = sym (current-at q p v e) ∙ found in
    let filled : (length q.items == 0) ≡ false =
      ground (arith, position-lt q p v e, v.order.size) in
    rw (filled, ap is_some c, e, Policy.next, Policy.advance, Queue.next, Queue.advance_next)
      (rw⁻¹ o (advance_agrees q Queue.manual_next p v e refl))

repeats_one_agrees : (m : RepeatMode) → Policy.repeats_one m ≡ Queue.repeats_one Queue.completed m
repeats_one_agrees RepeatMode.off = refl
repeats_one_agrees RepeatMode.one = refl
repeats_one_agrees RepeatMode.all = refl

completes_agree :
    (q : PlaybackQueue) (p : ℕ)
    → IsValid q
    → q.playback_order ≡ order_of (length q.items) q.shuffle_enabled q.shuffle_seed
    → q.current_order_position ≡ some p
    → Policy.on_item_completed (policy_of q) ≡ answer_of (Queue.complete_current q)
unfolding Policy.on_item_completed Queue.complete_current
completes_agree q p v o e =
    let (i, found) = get_elem?-lt q.playback_order p (position-lt q p v e) in
    let c : q.current_index ≡ some i = sym (current-at q p v e) ∙ found in
    let filled : (length q.items == 0) ≡ false =
      ground (arith, position-lt q p v e, v.order.size) in
    let item : i < length q.items =
      order-bound (length q.items) q.playback_order p i v.order found in
    elim (Bool-cases (Queue.repeats_one Queue.completed q.repeat_mode)) [
      | inl r ↦
          rw
            (
              Policy.on_item_completed,
              filled,
              ap is_some c,
              repeats_one_agrees q.repeat_mode,
              e,
              Queue.complete_current,
              Queue.advance_next,
              advance_from,
              r,
            )
            (report_agrees true q i p c e item)
      | inr r ↦
          rw
            (
              Policy.on_item_completed,
              Policy.advance,
              filled,
              ap is_some c,
              repeats_one_agrees q.repeat_mode,
              r,
              e,
              Queue.complete_current,
              Queue.advance_next,
            )
            (rw⁻¹ o (advance_agrees q Queue.completed p v e r))
    ]

goes_back_agrees :
    (q : PlaybackQueue) (p us : ℕ)
    → IsValid q
    → q.playback_order ≡ order_of (length q.items) q.shuffle_enabled q.shuffle_seed
    → q.current_order_position ≡ some p
    → us ≤ q.previous_restart_threshold_us
    → Policy.previous (policy_of q) ≡ answer_of (Queue.previous us q)
unfolding Policy.previous Queue.previous
goes_back_agrees q p us v o e t =
    let (i, found) = get_elem?-lt q.playback_order p (position-lt q p v e) in
    let c : q.current_index ≡ some i = sym (current-at q p v e) ∙ found in
    let filled : (length q.items == 0) ≡ false =
      ground (arith, position-lt q p v e, v.order.size) in
    rw (filled, e, Policy.previous, Queue.previous)
      (rw⁻¹ o (rw (current_position-position q p v e) (previous_agrees q i p us v c e t)))

report_goes_on :
    (r : Bool) (q : PlaybackQueue) → Policy.is_end_of_queue (transition_of (report r q).0) ≡ false
unfolding selected_transition
report_goes_on r q = ground arith

previous_goes_on :
    (us p : ℕ) (q : PlaybackQueue)
    → Policy.is_end_of_queue (transition_of (Queue.previous_from us p q).0) ≡ false
unfolding Queue.previous_from
previous_goes_on us p q = grind (arith, report_goes_on)

goes_back_at_agrees :
    (q : PlaybackQueue) (p us : ℕ)
    → IsValid q
    → q.playback_order ≡ order_of (length q.items) q.shuffle_enabled q.shuffle_seed
    → q.current_order_position ≡ some p
    → q.previous_restart_threshold_us ≡ previous_restart_threshold_us
    → Policy.previous_at us (policy_of q) ≡ answer_of (Queue.previous us q)
unfolding Policy.previous_at Queue.previous Queue.previous_from
goes_back_at_agrees q p us v o e same =
    let (i, found) = get_elem?-lt q.playback_order p (position-lt q p v e) in
    let c : q.current_index ≡ some i = sym (current-at q p v e) ∙ found in
    let filled : (length q.items == 0) ≡ false =
      ground (arith, position-lt q p v e, v.order.size) in
    let item : i < length q.items =
      order-bound (length q.items) q.playback_order p i v.order found in
    elim (Bool-cases (ltb previous_restart_threshold_us us)) [
      | inl b ↦
          let late : ltb q.previous_restart_threshold_us us ≡ true = rw same b in
          rw
            (
              Policy.previous_at,
              filled,
              ap is_some c,
              b,
              e,
              Queue.previous,
              Queue.previous_from,
              late,
            )
            (report_agrees true q i p c e item)
      | inr b ↦
          let early : us ≤ q.previous_restart_threshold_us = ground arith in
          rw (Policy.previous_at, filled, ap is_some c, b, e, Queue.previous)
            (rw⁻¹ o (
              rw
                (
                  current_position-position q p v e,
                  previous_agrees q i p us v c e early,
                  previous_goes_on us p q,
                )
                refl))
    ]

-- For a valid queue with an item selected, the default threshold and the playback order that its length, its
-- shuffle mode and its seed give, the policy with the same items and modes makes every step of the queue:
-- it reports the same transition, position aside, and is left with the selection of the queue.
pub navigation_agrees :
    (c : Navigation) (q : PlaybackQueue) (p : ℕ)
    → IsValid q
    → q.playback_order ≡ order_of (length q.items) q.shuffle_enabled q.shuffle_seed
    → q.current_order_position ≡ some p
    → q.previous_restart_threshold_us ≡ previous_restart_threshold_us
    → navigate c (policy_of q) ≡ answer_of (queue_navigate c q)
unfolding navigate queue_navigate
navigation_agrees skips q p v o e same = skips_agree q p v o e
navigation_agrees completes q p v o e same = completes_agree q p v o e
navigation_agrees Navigation.goes_back q p v o e same = goes_back_agrees q p 0 v o e (omega arith)
navigation_agrees (goes_back_at us) q p v o e same = goes_back_at_agrees q p us v o e same
