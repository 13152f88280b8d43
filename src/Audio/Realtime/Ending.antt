-- ===== src/Audio/Realtime/Ending.antt =====
-- core/aurorix-audio/src/realtime.rs: how many rounds the loop of `render` makes, whatever it finds in the pool.
use aurorix_music.Prelude.{
  ℕ, zero, suc, ◌+◌, ◌%◌, ◌≤◌, ◌<◌, ◌≡◌, ◌⊎◌, inl, inr, Bool-cases, Option-cases, none, refl, ap,
  sym, subst, true, false, ltb, ltb→lt, ◌==◌, arith,
}
use aurorix_music.Audio.Realtime.Player.{loop_again, loop_stops}
use aurorix_music.Audio.Buffer.{AudioBuffer, reading, set_slot_state, finish_render, is_ready}
use aurorix_music.Audio.Realtime.{
  RealtimeConsumer, RenderLoop, render_loop, render_round, go_on, hold_active, copy_active,
  try_acquire_active_block, begin, render_fuel, with_fault,
}
use aurorix_music.Audio.Signals.{stale_block}
use aurorix_music.Audio.Realtime.Rounds.{acquired, acquired_block}
use aurorix_music.Audio.Realtime.Measure.{
  ready_slots_lt, ready_slots_bound, held_bound, held_blocks, rounds_left, Nearer, copy-Nearer,
}

module _ (requested : ℕ) (s : RenderLoop) (e : s.consumer.active ≡ none)
    (room : s.copied_frames < requested)
    (lt : s.consumer.next_slot < s.consumer.buffer.slot_count) where
  abbrev b : AudioBuffer
  b = s.consumer.buffer

  abbrev r : ℕ
  r = s.consumer.next_slot

  -- The next slot cannot be claimed.
  not_acquired :
      (b.resetting ≡ true) ⊎ (is_ready (b.slots r).state ≡ false)
      → try_acquire_active_block s ≡ (false, s)
  unfolding try_acquire_active_block
  not_acquired (inl h) = ground (arith, h)
  not_acquired (inr h) = ground (arith, h)

  stopped-Nearer :
      (b.resetting ≡ true) ⊎ (is_ready (b.slots r).state ≡ false)
      → Nearer requested s (go_on requested (try_acquire_active_block s))
  unfolding go_on
  stopped-Nearer h =
      subst (λ o. Nearer requested s (go_on requested o)) (sym (not_acquired h))
        (λ again. ground (arith, again))

  abbrev dropped : RenderLoop
  dropped = record s {
    consumer = with_fault stale_block (record (s.consumer) {
      buffer = finish_render r (set_slot_state r reading b);
      next_slot = (r + 1) % b.slot_count;
    });
    discarded_stale_blocks = s.discarded_stale_blocks + 1;
  }

  module _ (open_pool : b.resetting ≡ false) (full : is_ready (b.slots r).state ≡ true) where
    acquired_stale :
        ((b.slots r).block.generation == b.generation) ≡ false
        → try_acquire_active_block s ≡ (true, dropped)
    unfolding try_acquire_active_block
    acquired_stale stale = ground (arith, open_pool, full, stale)

    acquired_fresh :
        ((b.slots r).block.generation == b.generation) ≡ true
        → try_acquire_active_block s ≡ (true, record s { consumer = acquired s.consumer })
    unfolding try_acquire_active_block
    acquired_fresh fresh = ground (arith, open_pool, full, fresh)

    dropped-Nearer : Nearer requested s (true, dropped)
    dropped-Nearer again = (
      omega (
        arith,
        ready_slots_lt b.slot_count r b (finish_render r (set_slot_state r reading b)) lt
            (λ j h. ground (arith, h)) full (ground arith),
      ),
      omega (arith, lt),
    )

    stale-Nearer : Nearer requested s (go_on requested (true, dropped))
    unfolding go_on
    stale-Nearer =
        let onward : go_on requested (true, dropped) ≡ (true, dropped) = ground (arith, e) in
        subst (Nearer requested s) (sym onward) dropped-Nearer

    fresh-Nearer :
        Nearer requested s (go_on requested (true, record s { consumer = acquired s.consumer }))
    unfolding go_on
    fresh-Nearer again =
        let (less, next) =
          copy-Nearer requested (acquired_block s.consumer)
            (record s { consumer = acquired s.consumer }) refl room (omega (arith, lt)) again in
        (
          omega (
            arith,
            less,
            ready_slots_lt b.slot_count r b (set_slot_state r reading b) lt
                (λ j h. ground (arith, h)) full (ground arith),
            ap held_blocks e,
          ),
          next,
        )

  acquire-Nearer : Nearer requested s (go_on requested (try_acquire_active_block s))
  acquire-Nearer = elim (Bool-cases b.resetting) [
    | inl shut ↦ stopped-Nearer (inl shut)
    | inr open_pool ↦ elim (Bool-cases (is_ready (b.slots r).state)) [
      | inr empty ↦ stopped-Nearer (inr empty)
      | inl full ↦ elim (Bool-cases ((b.slots r).block.generation == b.generation)) [
        | inr stale ↦
            subst (λ o. Nearer requested s (go_on requested o))
              (sym (acquired_stale open_pool full stale)) (stale-Nearer open_pool full)
        | inl fresh ↦
            subst (λ o. Nearer requested s (go_on requested o))
              (sym (acquired_fresh open_pool full fresh)) (fresh-Nearer open_pool full)
      ]
    ]
  ]

-- A round that goes on is nearer to the end, whatever the pool holds.
round-Nearer :
    (requested : ℕ) (s : RenderLoop)
    → s.copied_frames < requested
    → s.consumer.next_slot < s.consumer.buffer.slot_count
    → Nearer requested s (render_round requested s)
unfolding render_round hold_active go_on
round-Nearer requested s room lt = elim (Option-cases s.consumer.active) [
  | inl e ↦
      subst (λ o. Nearer requested s (go_on requested (hold_active o s))) (sym e)
        (acquire-Nearer requested s e room lt)
  | inr (a, e) ↦
      let onward : go_on requested (true, s) ≡ copy_active requested a s = ground (arith, e) in
      subst (λ o. Nearer requested s (go_on requested (hold_active o s))) (sym e)
        (subst (Nearer requested s) (sym onward) (copy-Nearer requested a s e room lt))
]

-- The loop of the source, without fuel: `k` rounds lead from one state of its variables to the one that it is left
-- in, because all frames were copied or because a round ends it.
pub data Exits (requested : ℕ) : ℕ → RenderLoop → RenderLoop → Type 0 where
  all_copied : (s : RenderLoop) → requested ≤ s.copied_frames → Exits requested 0 s s
  broken_off :
      (s s' : RenderLoop)
      → s.copied_frames < requested
      → render_round requested s ≡ (false, s')
      → Exits requested 1 s s'
  another_round :
      (k : ℕ) (s s' t : RenderLoop)
      → s.copied_frames < requested
      → render_round requested s ≡ (true, s')
      → Exits requested k s' t
      → Exits requested (suc k) s t

-- The loop is left after at most one round more than there are left.
abbrev LeavesWithin : ℕ → ℕ → RenderLoop → RenderLoop → Type 0
LeavesWithin bound requested s t = (k : ℕ) × Exits requested k s t × (k ≤ bound)

loop-Exits :
    (fuel requested : ℕ) (s : RenderLoop)
    → s.consumer.next_slot < s.consumer.buffer.slot_count
    → rounds_left requested s ≤ fuel
    → LeavesWithin (rounds_left requested s + 1) requested s (render_loop fuel requested s)
loop-Exits zero requested s lt left =
    let all : requested ≤ s.copied_frames = omega (arith, left) in
    subst (LeavesWithin (rounds_left requested s + 1) requested s)
      (sym (loop_stops 0 requested s all)) (0, all_copied s all, omega arith)
loop-Exits (suc fuel) requested s lt left = elim (Bool-cases (ltb s.copied_frames requested)) [
  | inr full ↦
      let all : requested ≤ s.copied_frames = ground (arith, full) in
      subst (LeavesWithin (rounds_left requested s + 1) requested s)
        (sym (loop_stops (suc fuel) requested s all)) (0, all_copied s all, omega arith)
  | inl below ↦
      let room : s.copied_frames < requested = ltb→lt _ _ below in
      let o = render_round requested s in
      elim (Bool-cases o.0) [
        | inr stop ↦
            let ends : o ≡ (false, o.1) = ap (λ x. (x, o.1)) stop in
            subst (LeavesWithin (rounds_left requested s + 1) requested s)
              (sym (loop_again fuel requested s o.1 false room ends))
              (1, broken_off s o.1 room ends, omega arith)
        | inl onward ↦
            let (less, next) = round-Nearer requested s room lt onward in
            let goes : o ≡ (true, o.1) = ap (λ x. (x, o.1)) onward in
            let (k, exits, bound) =
              loop-Exits fuel requested o.1 next (omega (arith, less, left)) in
            subst (LeavesWithin (rounds_left requested s + 1) requested s)
              (sym (loop_again fuel requested s o.1 true room goes))
              (suc k, another_round k s o.1 _ room goes exits, omega (arith, bound, less))
      ]
]

-- For a callback whose next slot is one of the pool, with blocks of any state and generation in it, and an output of
-- any length: the loop of the source, without fuel, is left after a number of rounds that is at most the frames
-- requested, the slots and two, and leaves its variables as the loop on `render_fuel` does.
pub render_loop-Exits :
    (n requested : ℕ) (c : RealtimeConsumer)
    → c.next_slot < c.buffer.slot_count
    → (k : ℕ) × Exits requested k
        (begin n c)
        (render_loop (render_fuel requested c.buffer) requested (begin n c))
      × (k ≤ requested + c.buffer.slot_count + 2)
render_loop-Exits n requested c lt =
    let few : rounds_left requested (begin n c) ≤ requested + c.buffer.slot_count + 1 =
      omega (arith, ready_slots_bound c.buffer.slot_count c.buffer, held_bound c.active) in
    let (k, exits, bound) =
      loop-Exits (render_fuel requested c.buffer) requested (begin n c) lt (omega (arith, few)) in
    (k, exits, omega (arith, bound, few))
