-- ===== src/Playback/Policy/Selection.antt =====
-- core/aurorix-playback/src/queue_policy.rs: the navigation of the policy, its answers and its selection.
use aurorix_music.Prelude.{
  ℕ, ◌-◌, ◌≤◌, ◌<◌, ◌≡◌, ◌≢◌, refl, ◌∙◌, Bool, true, false, Option, none, some, arith, inl, inr,
  Bool-cases, Option-cases, length, get_elem?, is_some, and_then, ◌==◌, ltb, subst,
}
use aurorix_music.Playback.Shuffle.Order.{
  order_of-IsOrder, order-bound, get_elem?-lt, get_elem?-some-lt,
}
use aurorix_music.Playback.Queue.{repeats_all, position_of}
use aurorix_music.Playback.Queue.Order.{position_of-some}
use aurorix_music.Playback.Queue.Invariant.{InRange}
use aurorix_music.Playback.Policy.{
  QueuePolicy, QueueTransition, selected, restart_current, end_of_queue, empty, Answer, answer,
  select_position, effective_indices, current_position, advance, advance_selected, next,
  on_item_completed, previous, previous_from, previous_at, current_transition, next_position,
  repeats_one, previous_restart_threshold_us, restart_at_end,
}

-- The navigation methods.
pub data Navigation : Type 0 where
  skips completes goes_back : Navigation
  goes_back_at : ℕ → Navigation

unfoldable pub navigate : Navigation → QueuePolicy → Answer
navigate skips p = next p
navigate completes p = on_item_completed p
navigate goes_back p = previous p
navigate (goes_back_at us) p = previous_at us p

abbrev pub IsValid : QueuePolicy → Type 0
IsValid p = InRange p.current_index (length p.items)

-- A transition says what the policy has selected.
abbrev pub Describes : QueueTransition → QueuePolicy → Type 0
Describes (selected item i) p = (p.current_index ≡ some i) × (get_elem? p.items i ≡ some item)
Describes (restart_current item i) p =
    (p.current_index ≡ some i) × (get_elem? p.items i ≡ some item)
Describes end_of_queue p = is_some p.current_index ≡ true
Describes empty p = p.current_index ≡ none

-- The method returned, on the same items, and reports the selection.
abbrev pub Answers : QueuePolicy → Answer → Type 0
Answers p none = ⊥
Answers p (some (t, p')) = (p'.items ≡ p.items) × IsValid p' × Describes t p'

abbrev pub Selects : QueuePolicy → Navigation → Type 0
Selects p goes_back = p.current_index ≢ none
Selects p _ = Unit {0}

pub answer-Answers :
    (restart : Bool) (p : QueuePolicy) (i : ℕ)
    → p.current_index ≡ some i
    → i < length p.items
    → Answers p (answer restart p)
unfolding current_transition
answer-Answers restart p i e h =
    let (item, found) = get_elem?-lt p.items i h in
    rw (e, found, current_transition) (elim restart [ true ↦ ground arith | false ↦ ground arith ])

select_position-Answers :
    (p : QueuePolicy) (position : ℕ)
    → position < length p.items
    → Answers p (select_position (effective_indices p) position p)
select_position-Answers p position h =
    let order = order_of-IsOrder (length p.items) p.shuffle_enabled p.shuffle_seed in
    let (i, found) = get_elem?-lt (effective_indices p) position (omega (arith, order.size)) in
    rw found (
      answer-Answers false (record p { current_index = some i }) i refl
        (order-bound (length p.items) (effective_indices p) position i order found))

next_position-lt : (c n m : ℕ) → next_position c n ≡ some m → m < n
next_position-lt c n m h = ground arith

advance_selected-Answers :
    (p : QueuePolicy)
    → IsValid p
    → 0 < length p.items
    → is_some p.current_index ≡ true
    → Answers p (advance_selected (effective_indices p) p)
unfolding advance_selected
advance_selected-Answers p v h s =
    let order = effective_indices p in
    let size = (order_of-IsOrder (length p.items) p.shuffle_enabled p.shuffle_seed).size in
    elim (Option-cases (next_position (current_position order p) (length order))) [
      | inr (m, e) ↦
          rw (e, advance_selected)
            (select_position-Answers p m
              (omega (arith, size, next_position-lt (current_position order p) (length order) m e)))
      | inl e ↦ elim (Bool-cases (repeats_all p.repeat_mode)) [
        | inl r ↦ rw (e, r, advance_selected) (select_position-Answers p 0 h)
        | inr r ↦ rw (e, r, advance_selected) (refl, v, s)
      ]
    ]

empty_unselected : (p : QueuePolicy) → IsValid p → length p.items ≡ 0 → p.current_index ≡ none
empty_unselected p v z = ground arith

advance-Answers : (p : QueuePolicy) → IsValid p → Answers p (advance p)
unfolding advance
advance-Answers p v = elim (Bool-cases (length p.items == 0)) [
  | inl z ↦ rw (z, advance) (refl, v, empty_unselected p v (ground arith))
  | inr z ↦ elim (Bool-cases (is_some p.current_index)) [
    | inl s ↦ rw (z, s, advance) (advance_selected-Answers p v (ground arith) s)
    | inr s ↦ rw (z, s, advance) (select_position-Answers p 0 (ground arith))
  ]
]

previous_from-Answers :
    (p : QueuePolicy) (position i : ℕ)
    → p.current_index ≡ some i
    → i < length p.items
    → position ≤ length p.items
    → Answers p (previous_from (effective_indices p) position p)
unfolding previous_from
previous_from-Answers p position i e h b =
    let size = (order_of-IsOrder (length p.items) p.shuffle_enabled p.shuffle_seed).size in
    elim (Bool-cases (position == 0)) [
      | inl z ↦ elim (Bool-cases (repeats_all p.repeat_mode)) [
        | inl r ↦
            rw (z, r, previous_from)
              (select_position-Answers p (length (effective_indices p) - 1) (omega (arith, size)))
        | inr r ↦ rw (z, r, previous_from) (answer-Answers true p i e h)
      ]
      | inr z ↦
          rw (z, previous_from) (select_position-Answers p (position - 1) (ground (arith, size)))
    ]

current_position-le : (p : QueuePolicy) → current_position (effective_indices p) p ≤ length p.items
current_position-le p = elim (Option-cases p.current_index) [
  | inl e ↦ rw e (omega arith)
  | inr (i, e) ↦ elim (Option-cases (position_of i (effective_indices p))) [
    | inl n ↦ rw (e, n) (omega arith)
    | inr (m, f) ↦
        let order = order_of-IsOrder (length p.items) p.shuffle_enabled p.shuffle_seed in
        let below =
          get_elem?-some-lt (effective_indices p) m i
            (position_of-some i (effective_indices p) m f) in
        rw (e, f) (omega (arith, order.size, below))
  ]
]

previous-Answers : (p : QueuePolicy) → IsValid p → p.current_index ≢ none → Answers p (previous p)
unfolding previous
previous-Answers p v s = elim (Option-cases p.current_index) [
  | inl e ↦ absurd (s e)
  | inr (i, e) ↦ elim (Bool-cases (length p.items == 0)) [
    | inl z ↦ rw (z, previous) (refl, v, empty_unselected p v (ground arith))
    | inr z ↦
        rw (z, previous)
          (previous_from-Answers p (current_position (effective_indices p) p) i e
            (subst (λ c. InRange c (length p.items)) e v) (current_position-le p))
  ]
]

index_of : (c : Option ℕ) → is_some c ≡ true → (i : ℕ) × (c ≡ some i)
index_of none h = cc
index_of (some i) h = (i, refl)

restart-Answers :
    (p : QueuePolicy) → IsValid p → is_some p.current_index ≡ true → Answers p (answer true p)
restart-Answers p v s =
    let (i, e) = index_of p.current_index s in
    answer-Answers true p i e (subst (λ c. InRange c (length p.items)) e v)

completed-Answers : (p : QueuePolicy) → IsValid p → Answers p (on_item_completed p)
unfolding on_item_completed
completed-Answers p v = elim (Bool-cases (is_some p.current_index)) [
  | inl s ↦ elim (Bool-cases (length p.items == 0)) [
    | inl z ↦ rw (z, on_item_completed) (refl, v, empty_unselected p v (ground arith))
    | inr z ↦ elim (Bool-cases (repeats_one p.repeat_mode)) [
      | inl r ↦ rw (z, s, r, on_item_completed) (restart-Answers p v s)
      | inr r ↦ rw (z, s, r, on_item_completed) (advance_selected-Answers p v (ground arith) s)
    ]
  ]
  | inr s ↦ elim (Bool-cases (length p.items == 0)) [
    | inl z ↦ rw (z, on_item_completed) (refl, v, empty_unselected p v (ground arith))
    | inr z ↦ rw (z, s, on_item_completed) (refl, v, ground arith)
  ]
]

trans-Answers : (p p' : QueuePolicy) (a : Answer) → p'.items ≡ p.items → Answers p' a → Answers p a
trans-Answers p p' none e h = h
trans-Answers p p' (some (t, p'')) e (h, v, d) = (h ∙ e, v, d)

restart_at_end-Answers :
    (p : QueuePolicy) (a : Answer) → Answers p a → Answers p (and_then a restart_at_end)
restart_at_end-Answers p none h = h
restart_at_end-Answers p (some (end_of_queue, p')) (e, v, d) =
    trans-Answers p p' (answer true p') e (restart-Answers p' v d)
restart_at_end-Answers p (some (empty, p')) h = h
restart_at_end-Answers p (some (selected item i, p')) h = h
restart_at_end-Answers p (some (restart_current item i, p')) h = h

previous_at-Answers : (us : ℕ) (p : QueuePolicy) → IsValid p → Answers p (previous_at us p)
unfolding previous_at next
previous_at-Answers us p v = elim (Bool-cases (length p.items == 0)) [
  | inl z ↦ rw (z, previous_at) (refl, v, empty_unselected p v (ground arith))
  | inr z ↦ elim (Bool-cases (is_some p.current_index)) [
    | inr s ↦ rw (z, s, previous_at) (select_position-Answers p 0 (ground arith))
    | inl s ↦ elim (Bool-cases (ltb previous_restart_threshold_us us)) [
      | inl b ↦ rw (z, s, b, previous_at) (restart-Answers p v s)
      | inr b ↦
          rw (z, s, b, previous_at)
            (restart_at_end-Answers p _ (
              let (i, e) = index_of p.current_index s in
              previous_from-Answers p (current_position (effective_indices p) p) i e
                (subst (λ c. InRange c (length p.items)) e v) (current_position-le p)))
    ]
  ]
]

-- On a valid policy, with an item selected where the method is `previous`, every navigation method
-- returns, without an index out of range, keeps the items and a valid selection, and the transition that
-- it reports names the item that is current afterwards.
pub navigate-Answers :
    (c : Navigation) (p : QueuePolicy) → IsValid p → Selects p c → Answers p (navigate c p)
unfolding navigate next
navigate-Answers skips p v s = advance-Answers p v
navigate-Answers completes p v s = completed-Answers p v
navigate-Answers goes_back p v s = previous-Answers p v s
navigate-Answers (goes_back_at us) p v s = previous_at-Answers us p v
