-- ===== src/Playback/Shuffle/Order.antt =====
-- core/aurorix-playback/src/queue.rs and queue_policy.rs: playback orders and the shuffle.
use aurorix_music.Prelude.{
  ℕ, zero, suc, ◌+◌, ◌-◌, ◌%◌, ◌<◌, ◌≡◌, refl, Bool, true, false, ◌&&◌, some, List, [], ◌∷◌, ◌++◌,
  arith, inl, inr, Option-cases, ltb, leb, ◌==◌, if◌then◌else◌, length, get_elem?, set,
}
use aurorix_music.Playback.Shuffle.{swap, range, shuffle_down, order_of, splitmix64}

abbrev pub occurrences : ℕ → List ℕ → ℕ
occurrences a [] = 0
occurrences a (x ∷ xs) = (if x == a then 1 else 0) + occurrences a xs

abbrev pub once : ℕ → ℕ → ℕ
once n a = if ltb a n then 1 else 0

pub record IsOrder (n : ℕ) (xs : List ℕ) : Type 0 where
  pub size : length xs ≡ n
  pub each : (a : ℕ) → occurrences a xs ≡ once n a

pub occurrences-append :
    (a : ℕ) (xs ys : List ℕ) → occurrences a (xs ++ ys) ≡ occurrences a xs + occurrences a ys
occurrences-append a [] ys = omega arith
occurrences-append a (x ∷ xs) ys = omega (arith, occurrences-append a xs ys)

occurrences-range :
    (a from n : ℕ)
    → occurrences a (range from n) ≡ (if leb from a && ltb a (from + n) then 1 else 0)
unfolding range
occurrences-range a from zero = ground arith
occurrences-range a from (suc n) = ground (arith, occurrences-range a (from + 1) n)

length-range : (from n : ℕ) → length (range from n) ≡ n
unfolding range
length-range from zero = refl
length-range from (suc n) = omega (arith, length-range (from + 1) n)

range-IsOrder : (n : ℕ) → IsOrder n (range 0 n)
range-IsOrder n = record {
  size = length-range 0 n;
  each = λ a. ground (arith, occurrences-range a 0 n);
}

length-set : (xs : List ℕ) (i v : ℕ) → length (set xs i v) ≡ length xs
length-set [] i v = refl
length-set (x ∷ xs) zero v = refl
length-set (x ∷ xs) (suc i) v = omega (arith, length-set xs i v)

occurrences-set :
    (a : ℕ) (xs : List ℕ) (i v b : ℕ)
    → get_elem? xs i ≡ some b
    → occurrences a (set xs i v) + (if b == a then 1 else 0)
      ≡ occurrences a xs + (if v == a then 1 else 0)
occurrences-set a [] i v b h = cc
occurrences-set a (x ∷ xs) zero v b h = ground arith
occurrences-set a (x ∷ xs) (suc i) v b h = ground (arith, occurrences-set a xs i v b h)

get_elem?-set :
    (xs : List ℕ) (i j v b : ℕ)
    → get_elem? xs j ≡ some b
    → get_elem? (set xs i v) j ≡ (if i == j then some v else some b)
get_elem?-set [] i j v b h = cc
get_elem?-set (x ∷ xs) zero zero v b h = ground arith
get_elem?-set (x ∷ xs) zero (suc j) v b h = ground arith
get_elem?-set (x ∷ xs) (suc i) zero v b h = ground arith
get_elem?-set (x ∷ xs) (suc i) (suc j) v b h = ground (arith, get_elem?-set xs i j v b h)

occurrences-swap : (a : ℕ) (xs : List ℕ) (i j : ℕ) → occurrences a (swap xs i j) ≡ occurrences a xs
unfolding swap
occurrences-swap a xs i j = elim (Option-cases (get_elem? xs i)) [
  | inl e ↦ rw (e, swap)
  | inr (x, e) ↦ elim (Option-cases (get_elem? xs j)) [
    | inl e' ↦ rw (e, e', swap)
    | inr (y, e') ↦
        rw (e, e', swap)
          (ground (
            arith,
            occurrences-set a xs i y x e,
            occurrences-set a (set xs i y) j x y,
            get_elem?-set xs i j y y e',
          ))
  ]
]

length-swap : (xs : List ℕ) (i j : ℕ) → length (swap xs i j) ≡ length xs
unfolding swap
length-swap xs i j = elim (Option-cases (get_elem? xs i)) [
  | inl e ↦ rw (e, swap)
  | inr (x, e) ↦ elim (Option-cases (get_elem? xs j)) [
    | inl e' ↦ rw (e, e', swap)
    | inr (y, e') ↦ rw (e, e', swap) (omega (arith, length-set (set xs i y) j x, length-set xs i y))
  ]
]

shuffle_down-IsOrder :
    (n i state : ℕ) (xs : List ℕ) → IsOrder n xs → IsOrder n (shuffle_down i state xs)
unfolding shuffle_down
shuffle_down-IsOrder n zero state xs h = h
shuffle_down-IsOrder n (suc i) state xs h =
    let (random, state') = splitmix64 state in
    shuffle_down-IsOrder n i state' (swap xs (suc i) (random % (i + 2))) (record {
      size = omega (arith, length-swap xs (suc i) (random % (i + 2)), h.size);
      each = λ a. omega (arith, occurrences-swap a xs (suc i) (random % (i + 2)), h.each a);
    })

-- For every number of items and every seed, shuffled or not, the playback order is a permutation of the
-- logical indices.
pub order_of-IsOrder : (n : ℕ) (enabled : Bool) (seed : ℕ) → IsOrder n (order_of n enabled seed)
unfolding order_of
order_of-IsOrder n true seed = shuffle_down-IsOrder n (n - 1) seed (range 0 n) (range-IsOrder n)
order_of-IsOrder n false seed = range-IsOrder n

-- An index that stands in an order is below its bound, and every index below the bound stands in it.
pub occurrences-get : (xs : List ℕ) (p a : ℕ) → get_elem? xs p ≡ some a → 0 < occurrences a xs
occurrences-get [] p a h = cc
occurrences-get (x ∷ xs) zero a h = ground arith
occurrences-get (x ∷ xs) (suc p) a h = ground (arith, occurrences-get xs p a h)

pub order-bound : (n : ℕ) (xs : List ℕ) (p a : ℕ) → IsOrder n xs → get_elem? xs p ≡ some a → a < n
order-bound n xs p a h e = ground (arith, occurrences-get xs p a e, h.each a)

pub get_elem?-lt :
    {A : Type 0} (xs : List A) (p : ℕ) → p < length xs → (a : A) × (get_elem? xs p ≡ some a)
get_elem?-lt [] p h = elim h [ ]
get_elem?-lt (x ∷ xs) zero h = (x, refl)
get_elem?-lt (x ∷ xs) (suc p) h = get_elem?-lt xs p (omega arith)

pub get_elem?-some-lt :
    {A : Type 0} (xs : List A) (p : ℕ) (a : A) → get_elem? xs p ≡ some a → p < length xs
get_elem?-some-lt [] p a h = cc
get_elem?-some-lt (x ∷ xs) zero a h = omega arith
get_elem?-some-lt (x ∷ xs) (suc p) a h = omega (arith, get_elem?-some-lt xs p a h)
