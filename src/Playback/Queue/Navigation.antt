-- ===== src/Playback/Queue/Navigation.antt =====
-- core/aurorix-playback/src/queue.rs: where `next`, `complete_current` and `previous` go.
use aurorix_music.Prelude.{
  ℕ, zero, suc, ◌+◌, ◌-◌, ◌%◌, ◌≤◌, ◌<◌, ◌≡◌, refl, sym, ap, ◌∙◌, true, Option, none, some, arith,
  inl, inr, Bool-cases, Option-cases, ltb, leb, if◌then◌else◌, length, get_elem?, subst,
}
use native.Mathlib.Nat.{mod-eq_of_lt, add-mod_right}
use aurorix_music.Playback.Shuffle.Order.{get_elem?-some-lt}
use aurorix_music.Playback.Queue.{
  PlaybackQueue, QueueTransition, position_of, next, previous, repeats_all, at_position,
}
use aurorix_music.Playback.Queue.Order.{position_of-some, position_of-none}
use aurorix_music.Playback.Queue.Invariant.{IsValid, SelectionFits}
use aurorix_music.Playback.Queue.Selections.{position-lt}

-- The current index of a valid selection is the entry at its position.
pub current-at :
    (q : PlaybackQueue) (p : ℕ)
    → IsValid q
    → q.current_order_position ≡ some p
    → get_elem? q.playback_order p ≡ q.current_index
current-at q p v e =
    go q.current_index (subst (SelectionFits q.playback_order q.current_index) e v.selection)
  where
    go :
        (c : Option ℕ)
        → SelectionFits q.playback_order c (some p)
        → get_elem? q.playback_order p ≡ c
    go none s = absurd s
    go (some i) s = s

next_within :
    (q : PlaybackQueue) (p : ℕ)
    → q.current_order_position ≡ some p
    → p + 1 < length q.playback_order
    → next q ≡ at_position (p + 1) q
unfolding next
next_within q p e h = ground arith

next_wraps :
    (q : PlaybackQueue) (p : ℕ)
    → q.current_order_position ≡ some p
    → length q.playback_order ≤ p + 1
    → repeats_all q.repeat_mode ≡ true
    → next q ≡ at_position 0 q
unfolding next
next_wraps q p e h r = ground arith

-- In a valid queue, `next` from a position that is not the last, followed by `previous` at a media position
-- that does not restart the item, is back where it was: the queue is the same in every field.
pub previous-next :
    (q : PlaybackQueue) (p us : ℕ)
    → IsValid q
    → q.current_order_position ≡ some p
    → p + 1 < length q.playback_order
    → us ≤ q.previous_restart_threshold_us
    → (previous us (next q).1).1 ≡ q
unfolding previous
previous-next q p us v e h t = rw (next_within q p e h) (ground (arith, current-at q p v e))

-- `k` manual skips.
pub skip : ℕ → PlaybackQueue → PlaybackQueue
skip zero q = q
skip (suc k) q = skip k (next q).1

-- The position after one more skip in a circle of `n`.
abbrev advance_mod : ℕ → ℕ → ℕ
advance_mod n p = if ltb (p + 1) n then p + 1 else 0

next-cycles :
    (q : PlaybackQueue) (p : ℕ)
    → q.current_order_position ≡ some p
    → repeats_all q.repeat_mode ≡ true
    → (next q).1 ≡ (at_position (advance_mod (length q.playback_order) p) q).1
next-cycles q p e r = elim (Bool-cases (ltb (p + 1) (length q.playback_order))) [
  | inl b ↦
      rw b (ap (λ (x : QueueTransition × PlaybackQueue). x.1) (next_within q p e (ground arith)))
  | inr b ↦
      rw b (ap (λ (x : QueueTransition × PlaybackQueue). x.1) (next_wraps q p e (ground arith) r))
]

-- The queue with the selection at a position.
abbrev spot : PlaybackQueue → ℕ → PlaybackQueue
spot q p = (at_position p q).1

spot_self :
    (q : PlaybackQueue) (p : ℕ) → IsValid q → q.current_order_position ≡ some p → spot q p ≡ q
spot_self q p v e = ground (arith, current-at q p v e)

advance_mod_lem : (n p k : ℕ) → p < n → (advance_mod n p + k) % n ≡ (p + suc k) % n
advance_mod_lem n p k h = elim (Bool-cases (ltb (p + 1) n)) [
  | inl b ↦ rw b (ap (λ (x : ℕ). x % n) (omega arith))
  | inr b ↦
      let last : p + 1 ≡ n = ground arith in
      rw b (
        ap (λ (x : ℕ). x % n) (omega arith)
        ∙ sym (add-mod_right k n)
        ∙ ap (λ (x : ℕ). x % n) (omega arith))
]

skip-spot :
    (k : ℕ) (q : PlaybackQueue) (p : ℕ)
    → p < length q.playback_order
    → repeats_all q.repeat_mode ≡ true
    → skip k (spot q p) ≡ spot q ((p + k) % length q.playback_order)
unfolding skip
skip-spot zero q p h r =
    ap (spot q) (sym (ap (λ (x : ℕ). x % length q.playback_order) (omega arith) ∙ mod-eq_of_lt h))
skip-spot (suc k) q p h r =
    let n = length q.playback_order in
    ap (skip k) (next-cycles (spot q p) p refl r)
    ∙ skip-spot k q (advance_mod n p) (ground arith) r
    ∙ ap (spot q) (advance_mod_lem n p k h)

-- How many steps lead from one place of a circle to another.
distance : (n p j : ℕ) → p < n → j < n → (k : ℕ) × (k < n) × ((p + k) % n ≡ j)
distance n p j hp hj = elim (Bool-cases (leb p j)) [
  | inl b ↦
      let le : p ≤ j = ground arith in
      (j - p, omega arith, ap (λ (x : ℕ). x % n) (omega arith) ∙ mod-eq_of_lt hj)
  | inr b ↦
      let gt : j < p = ground arith in
      (
        j + n - p,
        omega arith,
        ap (λ (x : ℕ). x % n) (omega arith) ∙ add-mod_right j n ∙ mod-eq_of_lt hj,
      )
]

-- With repeat-all and an item selected in a valid queue, manual skips go round the whole queue: every logical index
-- becomes current after fewer skips than there are items.
pub skips_visit_all :
    (q : PlaybackQueue) (p i : ℕ)
    → IsValid q
    → q.current_order_position ≡ some p
    → repeats_all q.repeat_mode ≡ true
    → i < length q.items
    → (k : ℕ) × (k < length q.items) × ((skip k q).current_index ≡ some i)
skips_visit_all q p i v e r h = elim (Option-cases (position_of i q.playback_order)) [
  | inl missing ↦
      absurd (ground (arith, position_of-none i q.playback_order missing, v.order.each i))
  | inr (j, found) ↦
      let n = length q.playback_order in
      let hp : p < n = position-lt q p v e in
      let here : get_elem? q.playback_order j ≡ some i =
        position_of-some i q.playback_order j found in
      let hj : j < n = get_elem?-some-lt q.playback_order j i here in
      let round = distance n p j hp hj in
      (
        round.0,
        omega (arith, round.1, v.order.size),
        ap (λ (x : PlaybackQueue). x.current_index)
              (ap (skip round.0) (sym (spot_self q p v e))
                ∙ skip-spot round.0 q p hp r
                ∙ ap (spot q) round.2)
            ∙ here,
      )
]
