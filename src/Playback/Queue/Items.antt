-- ===== src/Playback/Queue/Items.antt =====
-- core/aurorix-playback/src/queue.rs: where an item stands after an edit.
use aurorix_music.Prelude.{
  ℕ, zero, suc, ◌≤◌, ◌<◌, ◌≡◌, ◌≢◌, refl, sym, ap, ◌∙◌, Bool, true, false, Option, none, some, List,
  [], ◌∷◌, ◌++◌, arith, inl, inr, Bool-cases, ◌==◌, if◌then◌else◌, length, get_elem?, insert_at,
  remove_at, length-remove_at, map_option, and_then,
}
use aurorix_music.Prelude.Word.{u64_max}
use aurorix_music.Playback.Command.{PlaybackItemId}
use aurorix_music.Playback.Shuffle.Order.{get_elem?-some-lt}
use aurorix_music.Playback.Queue.{
  PlaybackQueue, current_item, rebuild_order, shift_up, shift_down, shift_current_up, move_current,
  current_after_remove,
}
use aurorix_music.Playback.Queue.Invariant.{InRange}

module _ {A : Type 0} where
  get_elem?-insert_at :
      (xs : List A) (i c : ℕ) (v : A)
      → i ≤ length xs
      → get_elem? (insert_at xs i v) (shift_up i c) ≡ get_elem? xs c
  get_elem?-insert_at xs zero c v h = ground arith
  get_elem?-insert_at [] (suc i) c v h = absurd (omega arith)
  get_elem?-insert_at (x ∷ xs) (suc i) zero v h = ground arith
  get_elem?-insert_at (x ∷ xs) (suc i) (suc c) v h = ground (arith, get_elem?-insert_at xs i c v)

  get_elem?-insert_at_self :
      (xs : List A) (i : ℕ) (v : A) → i ≤ length xs → get_elem? (insert_at xs i v) i ≡ some v
  get_elem?-insert_at_self xs zero v h = refl
  get_elem?-insert_at_self [] (suc i) v h = absurd (omega arith)
  get_elem?-insert_at_self (x ∷ xs) (suc i) v h = get_elem?-insert_at_self xs i v (omega arith)

  get_elem?-remove_at :
      (xs : List A) (i c : ℕ) → c ≢ i → get_elem? (remove_at xs i) (shift_down i c) ≡ get_elem? xs c
  get_elem?-remove_at [] i c h = refl
  get_elem?-remove_at (x ∷ xs) zero zero h = absurd (h refl)
  get_elem?-remove_at (x ∷ xs) zero (suc c) h = ground arith
  get_elem?-remove_at (x ∷ xs) (suc i) zero h = ground arith
  get_elem?-remove_at (x ∷ xs) (suc i) (suc zero) h = ground (arith, get_elem?-remove_at xs i zero)
  get_elem?-remove_at (x ∷ xs) (suc i) (suc (suc c)) h =
      ground (arith, get_elem?-remove_at xs i (suc c))

  get_elem?-append :
      (xs ys : List A) (c : ℕ) → c < length xs → get_elem? (xs ++ ys) c ≡ get_elem? xs c
  get_elem?-append [] ys c h = elim h [ ]
  get_elem?-append (x ∷ xs) ys zero h = refl
  get_elem?-append (x ∷ xs) ys (suc c) h = get_elem?-append xs ys c (omega arith)

-- A move is a removal and an insertion, also for the indices.
move_current_lem :
    (from to c : ℕ)
    → c ≢ from
    → c < u64_max
    → move_current from to c ≡ shift_up to (shift_down from c)
move_current_lem from to c h s = ground arith

moved-item :
    (items : List PlaybackItemId) (from to c : ℕ) (item : PlaybackItemId)
    → get_elem? items from ≡ some item
    → to < length items
    → c < length items
    → length items ≤ u64_max
    → get_elem? (insert_at (remove_at items from) to item) (move_current from to c)
      ≡ get_elem? items c
moved-item items from to c item e ht hc s = elim (Bool-cases (c == from)) [
  | inl same ↦
      let here : c ≡ from = ground arith in
      rw (same) (
        get_elem?-insert_at_self (remove_at items from) to item room
        ∙ sym e
        ∙ ap (get_elem? items) (sym here))
  | inr other ↦
      let apart : c ≢ from = λ x. ground arith in
      rw (move_current_lem from to c apart (omega arith)) (
        get_elem?-insert_at (remove_at items from) to (shift_down from c) item room
        ∙ get_elem?-remove_at items from c apart)
]
  where
    room : to ≤ length (remove_at items from)
    room = omega (arith, length-remove_at items from (get_elem?-some-lt items from item e))

-- A selection by index, read after a change of the items and of the index.
abbrev pub item_at : List PlaybackItemId → Option ℕ → Option PlaybackItemId
item_at items c = and_then c (λ i. get_elem? items i)

pub append_item :
    (items : List PlaybackItemId) (item : PlaybackItemId) (c : Option ℕ)
    → InRange c (length items)
    → item_at (items ++ item ∷ []) c ≡ item_at items c
append_item items item none h = refl
append_item items item (some i) h = get_elem?-append items (item ∷ []) i h

pub insert_item :
    (items : List PlaybackItemId) (item : PlaybackItemId) (index : ℕ) (c : Option ℕ)
    → index ≤ length items
    → length items < u64_max
    → InRange c (length items)
    → item_at (insert_at items index item) (map_option (shift_current_up index) c) ≡ item_at items c
insert_item items item index none h s r = refl
insert_item items item index (some i) h s r =
    ground (arith, get_elem?-insert_at items index i item h)

pub move_item_at :
    (items : List PlaybackItemId) (item : PlaybackItemId) (from to : ℕ) (c : Option ℕ)
    → get_elem? items from ≡ some item
    → to < length items
    → length items ≤ u64_max
    → InRange c (length items)
    → item_at (insert_at (remove_at items from) to item) (map_option (move_current from to) c)
      ≡ item_at items c
move_item_at items item from to none e ht s r = refl
move_item_at items item from to (some i) e ht s r = moved-item items from to i item e ht r s

pub remove_item :
    (items : List PlaybackItemId) (index : ℕ) (c : Option ℕ)
    → c ≢ some index
    → index < length items
    → InRange c (length items)
    → item_at
        (remove_at items index)
        (current_after_remove (length (remove_at items index)) index c)
      ≡ item_at items c
remove_item items index none h l r = refl
remove_item items index (some i) h l r =
    let apart : i ≢ index = λ e. h (ap some e) in
    ground (arith, get_elem?-remove_at items index i apart, length-remove_at items index l)

-- A rebuild shows the item of the index that it is given.
pub rebuild_item :
    (current : Option ℕ) (q : PlaybackQueue)
    → InRange current (length q.items)
    → current_item (rebuild_order current q).1 ≡ item_at q.items current
unfolding rebuild_order current_item
rebuild_item none q r = refl
rebuild_item (some i) q r = ground arith

pub branch_item :
    {B : Type 0} (b : Bool) (x y : B × PlaybackQueue) {i : Option PlaybackItemId}
    → current_item x.1 ≡ i
    → current_item y.1 ≡ i
    → current_item (if b then x else y).1 ≡ i
branch_item true x y hx hy = hx
branch_item false x y hx hy = hy
