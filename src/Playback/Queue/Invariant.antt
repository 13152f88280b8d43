-- ===== src/Playback/Queue/Invariant.antt =====
-- core/aurorix-playback/src/queue.rs: the invariant of the queue.
use aurorix_music.Prelude.{
  ℕ, ◌≤◌, ◌<◌, ◌≡◌, refl, Bool, true, false, Option, none, some, List, arith, inl, inr,
  Option-cases, leb, if◌then◌else◌, length, get_elem?, and_then,
}
use aurorix_music.Prelude.Exec.{Result, ok}
use aurorix_music.Prelude.Word.{u64_max}
use aurorix_music.Playback.Command.{PlaybackItemId}
use aurorix_music.Playback.Shuffle.{order_of}
use aurorix_music.Playback.Shuffle.Order.{IsOrder, order_of-IsOrder, order-bound}
use aurorix_music.Playback.Queue.{
  PlaybackQueue, QueueError, new, position_of, refresh_current_position, rebuild_order, set_shuffle,
  replace,
}
use aurorix_music.Playback.Queue.Order.{position_of-some, position_of-none}

-- The current position is where the current index stands in the playback order; there is one exactly when
-- there is a current index.
abbrev pub SelectionFits : List ℕ → Option ℕ → Option ℕ → Type 0
SelectionFits order none none = Unit {0}
SelectionFits order (some i) (some p) = get_elem? order p ≡ some i
SelectionFits order _ _ = ⊥

pub record IsValid (q : PlaybackQueue) : Type 0 where
  pub order : IsOrder (length q.items) q.playback_order
  pub selection : SelectionFits q.playback_order q.current_index q.current_order_position
  pub sized : length q.items ≤ u64_max

-- A logical index of the queue, if there is one.
abbrev pub InRange : Option ℕ → ℕ → Type 0
InRange none n = Unit {0}
InRange (some i) n = i < n

refresh-SelectionFits :
    (n : ℕ) (order : List ℕ) (current : Option ℕ)
    → IsOrder n order
    → InRange current n
    → SelectionFits order current (and_then current (λ c. position_of c order))
refresh-SelectionFits n order none h r = tt
refresh-SelectionFits n order (some c) h r = elim (Option-cases (position_of c order)) [
  | inl e ↦ absurd (ground (arith, position_of-none c order e, h.each c))
  | inr (p, e) ↦ rw e (position_of-some c order p e)
]

pub refresh-IsValid :
    (q : PlaybackQueue)
    → IsOrder (length q.items) q.playback_order
    → InRange q.current_index (length q.items)
    → length q.items ≤ u64_max
    → IsValid (refresh_current_position q)
unfolding refresh_current_position
refresh-IsValid q o r s = record {
  order = o;
  selection = refresh-SelectionFits (length q.items) q.playback_order q.current_index o r;
  sized = s;
}

-- The current index of a valid queue is a logical index.
pub current-InRange : (q : PlaybackQueue) → IsValid q → InRange q.current_index (length q.items)
current-InRange q v = go q.current_index q.current_order_position v.selection
  where
    go : (c p : Option ℕ) → SelectionFits q.playback_order c p → InRange c (length q.items)
    go none p s = tt
    go (some i) (some p) s = order-bound (length q.items) q.playback_order p i v.order s
    go (some i) none s = absurd s

-- The queue that a successful rebuild refreshes.
abbrev rebuilt : Option ℕ → PlaybackQueue → PlaybackQueue
rebuilt current q = record q {
  playback_order = order_of (length q.items) q.shuffle_enabled q.shuffle_seed;
  current_index = current;
}

rebuilt-IsValid :
    (current : Option ℕ) (q : PlaybackQueue)
    → InRange current (length q.items)
    → length q.items ≤ u64_max
    → IsValid (refresh_current_position (rebuilt current q))
rebuilt-IsValid current q r s =
    refresh-IsValid (rebuilt current q)
      (order_of-IsOrder (length q.items) q.shuffle_enabled q.shuffle_seed) r s

pub branch-IsValid :
    {A : Type 0} (b : Bool) (x y : Result QueueError A × PlaybackQueue)
    → IsValid x.1
    → IsValid y.1
    → IsValid (if b then x else y).1
branch-IsValid true x y hx hy = hx
branch-IsValid false x y hx hy = hy

-- A rebuild of a selection in range succeeds and gives a valid queue, whatever the order was.
pub rebuild-IsValid :
    (current : Option ℕ) (q : PlaybackQueue)
    → InRange current (length q.items)
    → length q.items ≤ u64_max
    → ((rebuild_order current q).0 ≡ ok tt) × IsValid (rebuild_order current q).1
unfolding rebuild_order
rebuild-IsValid none q r s = (refl, rebuilt-IsValid none q r s)
rebuild-IsValid (some i) q r s =
    let within : leb (length q.items) i ≡ false = ground arith in
    rw (within, rebuild_order) (refl, rebuilt-IsValid (some i) q r s)

pub new-IsValid : IsValid new
unfolding new
new-IsValid = record {
  order = record { size = refl; each = λ a. ground arith };
  selection = tt;
  sized = omega arith;
}

pub set_shuffle-IsValid :
    (enabled : Bool) (seed : ℕ) (q : PlaybackQueue)
    → IsValid q
    → ((set_shuffle enabled seed q).0 ≡ ok tt) × IsValid (set_shuffle enabled seed q).1
unfolding set_shuffle
set_shuffle-IsValid enabled seed q v =
    rebuild-IsValid q.current_index _ (current-InRange q v) v.sized

pub replace-IsValid :
    (items : List PlaybackItemId) (current : Option ℕ) (q : PlaybackQueue)
    → InRange current (length items)
    → length items ≤ u64_max
    → ((replace items current q).0 ≡ ok tt) × IsValid (replace items current q).1
unfolding replace
replace-IsValid items current q r s = rebuild-IsValid current (record q { items = items }) r s
