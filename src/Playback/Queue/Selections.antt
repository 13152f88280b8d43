-- ===== src/Playback/Queue/Selections.antt =====
-- core/aurorix-playback/src/queue.rs: the invariant under the methods that select.
use aurorix_music.Prelude.{
  ℕ, ◌+◌, ◌-◌, ◌<◌, ◌≡◌, refl, Bool, true, false, ◌&&◌, Option, none, some, List, [], ◌∷◌, arith,
  ◌⊎◌, inl, inr, Bool-cases, Option-cases, ltb, leb, if◌then◌else◌, length, get_elem?, subst,
}
use aurorix_music.Playback.Shuffle.Order.{get_elem?-lt, get_elem?-some-lt}
use aurorix_music.Playback.Queue.{
  PlaybackQueue, position_of, select, first, advance_from, advance_next, AdvanceReason, previous,
  previous_from, at_position, repeats_one, repeats_all,
}
use aurorix_music.Playback.Queue.Order.{position_of-some, position_of-none}
use aurorix_music.Playback.Queue.Invariant.{IsValid, SelectionFits}

-- A selection of a position of the order.
at_position-IsValid :
    (p : ℕ) (q : PlaybackQueue)
    → p < length q.playback_order
    → IsValid q
    → IsValid (at_position p q).1
at_position-IsValid p q h v = record { order = v.order; selection = fits; sized = v.sized }
  where
    fits : SelectionFits q.playback_order (get_elem? q.playback_order p) (some p)
    fits = let (i, e) = get_elem?-lt q.playback_order p h in rw e e

pub select-IsValid : (index : ℕ) (q : PlaybackQueue) → IsValid q → IsValid (select index q).1
unfolding select
select-IsValid index q v = elim (Bool-cases (leb (length q.items) index)) [
  | inl e ↦ rw (e, select) v
  | inr e ↦ elim (Option-cases (position_of index q.playback_order)) [
    | inl n ↦ absurd (ground (arith, position_of-none index q.playback_order n, v.order.each index))
    | inr (p, h) ↦
        rw (e, h, select)
          (record {
            order = v.order;
            selection = position_of-some index q.playback_order p h;
            sized = v.sized;
          })
  ]
]

order-cases : (xs : List ℕ) → (xs ≡ []) ⊎ ((x : ℕ) × (ys : List ℕ) × (xs ≡ x ∷ ys))
order-cases [] = inl refl
order-cases (x ∷ xs) = inr (x, xs, refl)

pub first_nonempty :
    (q : PlaybackQueue) (x : ℕ) (xs : List ℕ)
    → q.playback_order ≡ x ∷ xs
    → first q ≡ at_position 0 q
unfolding first
first_nonempty q x xs e = ground arith

pub first-IsValid : (q : PlaybackQueue) → IsValid q → IsValid (first q).1
unfolding first
first-IsValid q v = elim (order-cases q.playback_order) [
  | inl e ↦ rw (e, first) (record { order = v.order; selection = tt; sized = v.sized })
  | inr (x, xs, e) ↦ rw (first_nonempty q x xs e) (at_position-IsValid 0 q (rw e (omega arith)) v)
]

-- The position of a valid selection lies in the order.
pub position-lt :
    (q : PlaybackQueue) (p : ℕ)
    → IsValid q
    → q.current_order_position ≡ some p
    → p < length q.playback_order
position-lt q p v e =
    go q.current_index (subst (SelectionFits q.playback_order q.current_index) e v.selection)
  where
    go : (c : Option ℕ) → SelectionFits q.playback_order c (some p) → p < length q.playback_order
    go none s = absurd s
    go (some i) s = get_elem?-some-lt q.playback_order p i s

if-IsValid :
    {A : Type 0} (b : Bool) (x y : A × PlaybackQueue)
    → (b ≡ true → IsValid x.1)
    → (b ≡ false → IsValid y.1)
    → IsValid (if b then x else y).1
if-IsValid true x y hx hy = hx refl
if-IsValid false x y hx hy = hy refl

advance_from-IsValid :
    (reason : AdvanceReason) (p : ℕ) (q : PlaybackQueue)
    → p < length q.playback_order
    → IsValid q
    → IsValid (advance_from reason p q).1
unfolding advance_from
advance_from-IsValid reason p q h v =
    if-IsValid (repeats_one reason q.repeat_mode) _ _ (λ _. v)
      λ _.
        if-IsValid (ltb (p + 1) (length q.playback_order)) _ _
          (λ more. at_position-IsValid (p + 1) q (ground arith) v)
          λ _.
            if-IsValid (repeats_all q.repeat_mode) _ _
              (λ _. at_position-IsValid 0 q (omega arith) v) (λ _. v)

pub advance_next-IsValid :
    (reason : AdvanceReason) (q : PlaybackQueue) → IsValid q → IsValid (advance_next reason q).1
unfolding advance_next
advance_next-IsValid reason q v = elim (Option-cases q.current_order_position) [
  | inl e ↦ rw (e, advance_next) (first-IsValid q v)
  | inr (p, e) ↦ rw (e, advance_next) (advance_from-IsValid reason p q (position-lt q p v e) v)
]

previous_from-IsValid :
    (us p : ℕ) (q : PlaybackQueue)
    → p < length q.playback_order
    → IsValid q
    → IsValid (previous_from us p q).1
unfolding previous_from
previous_from-IsValid us p q h v =
    if-IsValid (ltb q.previous_restart_threshold_us us) _ _ (λ _. v)
      λ _.
        if-IsValid (ltb 0 p) _ _ (λ _. at_position-IsValid (p - 1) q (omega arith) v)
          λ _.
            if-IsValid (repeats_all q.repeat_mode && ltb 0 (length q.playback_order)) _ _
              (λ _. at_position-IsValid (length q.playback_order - 1) q (omega arith) v) (λ _. v)

pub previous-IsValid : (us : ℕ) (q : PlaybackQueue) → IsValid q → IsValid (previous us q).1
unfolding previous
previous-IsValid us q v = elim (Option-cases q.current_order_position) [
  | inl e ↦ rw (e, previous) v
  | inr (p, e) ↦ rw (e, previous) (previous_from-IsValid us p q (position-lt q p v e) v)
]
