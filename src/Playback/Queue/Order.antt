-- ===== src/Playback/Queue/Order.antt =====
-- core/aurorix-playback/src/queue.rs: what an insertion, a removal and a move make of the playback order.
use aurorix_music.Prelude.{
  ℕ, zero, suc, ◌+◌, ◌-◌, ◌≤◌, ◌<◌, ◌≡◌, refl, none, some, List, [], ◌∷◌, ◌++◌, map, arith, ltb,
  ◌==◌, if◌then◌else◌, length, get_elem?, length-append,
}
use aurorix_music.Playback.Shuffle.Order.{occurrences, once, IsOrder, occurrences-append}
use aurorix_music.Playback.Queue.{
  position_of, without, shift_up, shift_down, remap_index_after_move,
}

length-map : (f : ℕ → ℕ) (xs : List ℕ) → length (map f xs) ≡ length xs
length-map f [] = refl
length-map f (x ∷ xs) = omega (arith, length-map f xs)

pub append-IsOrder : (n : ℕ) (xs : List ℕ) → IsOrder n xs → IsOrder (n + 1) (xs ++ n ∷ [])
append-IsOrder n xs h = record {
  size = omega (arith, length-append xs (n ∷ []), h.size);
  each = λ a. ground (arith, occurrences-append a xs (n ∷ []), h.each a);
}

occurrences-shift_up :
    (a index : ℕ) (xs : List ℕ)
    → occurrences a (map (shift_up index) xs)
      ≡ (if ltb a index then occurrences a xs else if a == index then 0 else occurrences (a - 1) xs)
occurrences-shift_up a index [] = ground arith
occurrences-shift_up a index (x ∷ xs) = ground (arith, occurrences-shift_up a index xs)

pub insert-IsOrder :
    (n index : ℕ) (xs : List ℕ)
    → index ≤ n
    → IsOrder n xs
    → IsOrder (n + 1) (map (shift_up index) xs ++ index ∷ [])
insert-IsOrder n index xs le h = record {
  size = omega (
    arith,
    length-append (map (shift_up index) xs) (index ∷ []),
    length-map (shift_up index) xs,
    h.size,
  );
  each = λ a. ground (
    arith,
    occurrences-append a (map (shift_up index) xs) (index ∷ []),
    occurrences-shift_up a index xs,
    h.each a,
    h.each (a - 1),
  );
}

length-without :
    (index : ℕ) (xs : List ℕ) → length (without index xs) + occurrences index xs ≡ length xs
unfolding without
length-without index [] = omega arith
length-without index (x ∷ xs) = ground (arith, length-without index xs)

occurrences-shift_down :
    (a index : ℕ) (xs : List ℕ)
    → occurrences a (map (shift_down index) (without index xs))
      ≡ (if ltb a index then occurrences a xs else occurrences (a + 1) xs)
unfolding without
occurrences-shift_down a index [] = ground arith
occurrences-shift_down a index (x ∷ xs) = ground (arith, occurrences-shift_down a index xs)

pub remove-IsOrder :
    (n index : ℕ) (xs : List ℕ)
    → index ≤ n
    → IsOrder (n + 1) xs
    → IsOrder n (map (shift_down index) (without index xs))
remove-IsOrder n index xs le h = record {
  size = ground (
    arith,
    length-map (shift_down index) (without index xs),
    length-without index xs,
    h.size,
    h.each index,
  );
  each = λ a. ground (arith, occurrences-shift_down a index xs, h.each a, h.each (a + 1));
}

-- A move back is the inverse of the move.
remap_inverse :
    (i a from to : ℕ)
    → (remap_index_after_move i from to == a) ≡ (i == remap_index_after_move a to from)
remap_inverse i a from to = ground arith

occurrences-remap :
    (a from to : ℕ) (xs : List ℕ)
    → occurrences a (map (λ i. remap_index_after_move i from to) xs)
      ≡ occurrences (remap_index_after_move a to from) xs
occurrences-remap a from to [] = refl
occurrences-remap a from to (x ∷ xs) =
    rw (remap_inverse x a from to, occurrences-remap a from to xs)

once-remap :
    (n a from to : ℕ) → from < n → to < n → once n (remap_index_after_move a to from) ≡ once n a
once-remap n a from to hf ht = ground arith

pub move-IsOrder :
    (n from to : ℕ) (xs : List ℕ)
    → from < n
    → to < n
    → IsOrder n xs
    → IsOrder n (map (λ i. remap_index_after_move i from to) xs)
move-IsOrder n from to xs hf ht h = record {
  size = omega (arith, length-map (λ i. remap_index_after_move i from to) xs, h.size);
  each = λ a. omega (
    arith,
    occurrences-remap a from to xs,
    h.each (remap_index_after_move a to from),
    once-remap n a from to hf ht,
  );
}

-- `position` finds an index that stands in the order, and only there.
pub position_of-some :
    (a : ℕ) (xs : List ℕ) (p : ℕ) → position_of a xs ≡ some p → get_elem? xs p ≡ some a
unfolding position_of
position_of-some a [] p h = cc
position_of-some a (x ∷ xs) zero h = ground arith
position_of-some a (x ∷ xs) (suc p) h = ground (arith, position_of-some a xs p)

pub position_of-none : (a : ℕ) (xs : List ℕ) → position_of a xs ≡ none → occurrences a xs ≡ 0
unfolding position_of
position_of-none a [] h = refl
position_of-none a (x ∷ xs) h = ground (arith, position_of-none a xs)
