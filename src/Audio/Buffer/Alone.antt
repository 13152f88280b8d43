-- ===== src/Audio/Buffer/Alone.antt =====
-- core/aurorix-audio/src/buffer.rs: a thread that runs with no other between its accesses, against the methods
-- as single calls.
use aurorix_music.Prelude.{
  ℕ, zero, suc, ◌+◌, ◌*◌, ◌≤◌, ◌<◌, ◌≡◌, refl, ap, ◌∙◌, inl, inr, true, false, Bool-cases,
  Option-cases, none, some, ◌==◌, leb, arith,
}
use native.Mathlib.Nat.{zero-add, suc-add}
use aurorix_music.Audio.Buffer.{
  AudioBuffer, vacant, in_use, set_slot_state, reset_block, first_in_use, empty_slots,
  try_advance_generation,
}
use aurorix_music.Audio.Buffer.Steps.{
  Coordinator, checked, flagged, scanning, emptying, storing_vacant, storing_generation, releasing,
  asks, advances, coordinator_step,
}

-- The coordinator makes `m` accesses.
unfoldable pub coordinate : ℕ → AudioBuffer × Coordinator → AudioBuffer × Coordinator
unfolding coordinator_step
coordinate zero s = s
coordinate (suc m) (b, k) = coordinate m (coordinator_step advances b k)

-- The coordinator gets from one point to the other in at most so many accesses.
abbrev pub Reaches : ℕ → AudioBuffer × Coordinator → AudioBuffer × Coordinator → Type 0
Reaches bound s t = (m : ℕ) × (coordinate m s ≡ t) × (m ≤ bound)

pub longer : {m n : ℕ} (s t : AudioBuffer × Coordinator) → Reaches m s t → m ≤ n → Reaches n s t
longer s t (a, e, le) h = (a, e, omega arith)

pub then_access :
    {bound : ℕ} (b : AudioBuffer) (k : Coordinator) (t : AudioBuffer × Coordinator)
    {s : AudioBuffer × Coordinator}
    → coordinator_step advances b k ≡ s
    → Reaches bound s t
    → Reaches (suc bound) (b, k) t
unfolding coordinate
then_access b k t e (m, f, le) = (suc m, ap (coordinate m) e ∙ f, omega arith)

pub arrived : {s : AudioBuffer × Coordinator} (bound : ℕ) → Reaches bound s s
unfolding coordinate
arrived bound = (0, refl, omega arith)

pub released :
    (b : AudioBuffer) → Reaches 1 (b, releasing) (record b { resetting = false }, Coordinator.idle)
unfolding coordinator_step
released b = then_access b releasing _ refl (arrived 0)

scan_found :
    (d i g : ℕ) (b : AudioBuffer) (j : ℕ)
    → b.slot_count ≡ i + d
    → first_in_use d i b ≡ some j
    → Reaches (suc d) (b, scanning g i) (record b { resetting = false }, Coordinator.idle)
unfolding first_in_use coordinator_step
scan_found zero i g b j e h = cc
scan_found (suc d) i g b j e h = elim (Bool-cases (in_use (b.slots i).state)) [
  | inl used ↦
      longer (b, scanning g i) _ (then_access b (scanning g i) _ (ground arith) (released b))
        (omega arith)
  | inr free ↦
      then_access b (scanning g i) _ (ground arith)
        (scan_found d (i + 1) g b j (omega arith) (ground (arith, h)))
]

pub scan_free :
    (d i g : ℕ) (b : AudioBuffer)
    → b.slot_count ≡ i + d
    → first_in_use d i b ≡ none
    → Reaches (suc d) (b, scanning g i) (b, emptying g 0)
unfolding first_in_use coordinator_step
scan_free zero i g b e h = then_access b (scanning g i) _ (ground arith) (arrived 0)
scan_free (suc d) i g b e h =
    then_access b (scanning g i) _ (ground arith)
      (scan_free d (i + 1) g b (ground arith) (ground (arith, h)))

pub empties :
    (d i g : ℕ) (b : AudioBuffer)
    → b.slot_count ≡ i + d
    → Reaches
        (2 * d + 3)
        (b, emptying g i)
        (record (empty_slots d i g b) { generation = g; resetting = false }, Coordinator.idle)
unfolding empty_slots coordinator_step
empties zero i g b e =
    then_access b (emptying g i) _ (ground arith)
      (then_access b (storing_generation g) _ refl (released _))
empties (suc d) i g b e =
    let emptied : AudioBuffer = set_slot_state i vacant (reset_block i g b) in
    let rest = empties d (i + 1) g emptied (omega arith) in
    longer (b, emptying g i) _
      (then_access b (emptying g i) _ (ground arith)
        (then_access (reset_block i g b) (storing_vacant g i) _ refl rest))
      (omega arith)

coordinate_add :
    (m n : ℕ) (s : AudioBuffer × Coordinator) → coordinate (m + n) s ≡ coordinate n (coordinate m s)
unfolding coordinate
coordinate_add zero n s = rw zero-add
coordinate_add (suc m) n (b, k) = rw suc-add (coordinate_add m n (coordinator_step advances b k))

pub in_turn :
    {m n : ℕ} (s t u : AudioBuffer × Coordinator)
    → Reaches m s t
    → Reaches n t u
    → Reaches (m + n) s u
in_turn s t u (a, e, le) (c, f, le') =
    (a + c, coordinate_add a c s ∙ ap (coordinate c) e ∙ f, omega arith)

between :
    {m n : ℕ} (s t s' t' : AudioBuffer × Coordinator)
    → s ≡ s'
    → t' ≡ t
    → Reaches m s' t'
    → m ≤ n
    → Reaches n s t
between s t s' t' p q (a, e, le) h = (a, ap (coordinate a) p ∙ e ∙ q, omega arith)

pub flags :
    {bound : ℕ} (g : ℕ) (b : AudioBuffer) {t : AudioBuffer × Coordinator}
    → b.resetting ≡ false
    → Reaches bound (record b { resetting = true }, flagged g) t
    → Reaches (suc bound) (b, checked g) t
unfolding coordinator_step
flags g b h r = then_access b (checked g) _ (ground arith) r

-- The part of the call that owns `resetting`.
advance_flagged :
    (g : ℕ) (b : AudioBuffer)
    → b.generation < g
    → b.resetting ≡ false
    → Reaches
        (3 * b.slot_count + 6)
        (coordinator_step (asks g) b Coordinator.idle)
        ((try_advance_generation g b).1, Coordinator.idle)
unfolding try_advance_generation coordinator_step
advance_flagged g b later unset =
    let b1 : AudioBuffer = record b { resetting = true } in
    elim (Bool-cases (b.endpoint_entries == 0)) [
      | inr busy ↦
          between _ _ (b, checked g) (record b { resetting = false }, Coordinator.idle)
            (ground arith) (ground arith)
            (flags g b unset (
              then_access b1 (flagged g) (record b { resetting = false }, Coordinator.idle)
                (ground (arith, busy)) (released b1)))
            (omega arith)
      | inl out ↦ elim (Option-cases (first_in_use b.slot_count 0 b1)) [
        | inl e ↦
            between _ _ (b, checked g)
              (
                record (empty_slots b.slot_count 0 g b1) { generation = g; resetting = false },
                Coordinator.idle,
              )
              (ground arith) (ground (arith, e))
              (flags g b unset (
                then_access b1 (flagged g)
                  (
                    record (empty_slots b.slot_count 0 g b1) { generation = g; resetting = false },
                    Coordinator.idle,
                  )
                  {s = (b1, scanning g 0)} (ground (arith, out))
                  (in_turn (b1, scanning g 0) (b1, emptying g 0) _
                    (scan_free b.slot_count 0 g b1 (omega arith) e)
                    (empties b.slot_count 0 g b1 (omega arith)))))
              (omega arith)
        | inr (j, e) ↦
            between _ _ (b, checked g) (record b { resetting = false }, Coordinator.idle)
              (ground arith) (ground (arith, e))
              (flags g b unset (
                then_access b1 (flagged g) (record b { resetting = false }, Coordinator.idle)
                  {s = (b1, scanning g 0)} (ground (arith, out))
                  (scan_found b.slot_count 0 g b1 j (omega arith) e)))
              (omega arith)
      ]
    ]

-- For every generation asked for and every state of the pool: a coordinator that is not interrupted comes back within
-- three accesses for each slot and six more, and leaves the pool as the call of `try_advance_generation` does.
pub advance_alone :
    (g : ℕ) (b : AudioBuffer)
    → (m : ℕ) × (coordinate m (coordinator_step (asks g) b Coordinator.idle)
        ≡ ((try_advance_generation g b).1, Coordinator.idle))
      × (m ≤ 3 * b.slot_count + 6)
unfolding try_advance_generation coordinator_step
advance_alone g b = elim (Bool-cases (leb g b.generation)) [
  | inl old ↦
      between _ _ (b, Coordinator.idle) _ (ground arith) (ground arith) (arrived 0) (omega arith)
  | inr later ↦ elim (Bool-cases b.resetting) [
    | inl set ↦
        between _ _ (b, checked g) (b, Coordinator.idle) (ground arith) (ground arith)
          (then_access b (checked g) _ (ground arith) (arrived 0)) (omega arith)
    | inr unset ↦ advance_flagged g b (ground (arith, later)) unset
  ]
]
