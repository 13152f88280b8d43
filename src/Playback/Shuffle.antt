-- ===== src/Playback/Shuffle.antt =====
-- core/aurorix-playback/src/queue.rs and queue_policy.rs: the SplitMix64 generator and the shuffled order.
-- An index is a `usize` of 64 bits, so that the conversions between it and `u64` are the identity.
pub mod Order
use Prim.Native.Nat.{bit_xor}
use aurorix_music.Prelude.{
  ℕ, zero, suc, ◌+◌, ◌-◌, ◌*◌, ◌/◌, ◌%◌, ◌^◌, List, [], ◌∷◌, Option, none, some, get_elem?, set,
  length, Bool, if◌then◌else◌,
}
use aurorix_music.Prelude.Word.{wrapping_add, wrapping_mul}

-- The output at a state that was stepped already.
unfoldable pub mix : ℕ → ℕ
mix state =
    let a = wrapping_mul (bit_xor state (state / 2 ^ 30)) 0xbf58476d1ce4e5b9 in
    let b = wrapping_mul (bit_xor a (a / 2 ^ 27)) 0x94d049bb133111eb in bit_xor b (b / 2 ^ 31)

-- `splitmix64(&mut state)`: the number, and the state that it leaves.
unfoldable pub splitmix64 : ℕ → ℕ × ℕ
unfolding mix
splitmix64 state = let state' = wrapping_add state 0x9e3779b97f4a7c15 in (mix state', state')

-- `slice::swap`; an index out of range, where Rust panics, changes nothing.
unfoldable pub swap : {A : Type 0} → List A → ℕ → ℕ → List A
swap xs i j = elim (get_elem? xs i) [
  | none ↦ xs
  | some a ↦ elim (get_elem? xs j) [ none ↦ xs | some b ↦ set (set xs i b) j a ]
]

-- `(from..from + n).collect()`.
unfoldable pub range : ℕ → ℕ → List ℕ
range from zero = []
range from (suc n) = from ∷ range (from + 1) n

-- The Fisher-Yates loop from index `i` down to 1: at each index a number of the generator picks the
-- partner, at or below the index.
unfoldable pub shuffle_down : ℕ → ℕ → List ℕ → List ℕ
shuffle_down zero state order = order
shuffle_down (suc i) state order =
    let (random, state') = splitmix64 state in
    shuffle_down i state' (swap order (suc i) (random % (i + 2)))

-- The playback order of `n` items.
unfoldable pub order_of : ℕ → Bool → ℕ → List ℕ
unfolding range shuffle_down
order_of n enabled seed = if enabled then shuffle_down (n - 1) seed (range 0 n) else range 0 n
