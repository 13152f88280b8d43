-- ===== src/Audio/Realtime/Measure.antt =====
-- core/aurorix-audio/src/realtime.rs: how near the loop of `render` is to its end, and a round on a block.
use aurorix_music.Prelude.{
  ℕ, zero, suc, ◌+◌, ◌-◌, ◌*◌, ◌≤◌, ◌<◌, ◌≡◌, inl, inr, Bool, Bool-cases, Option, none, some, List,
  ◌++◌, refl, ap, subst, true, false, if◌then◌else◌, not, leb, ◌==◌, arith,
}
use aurorix_music.Prelude.Exec.{Result, ok, err}
use aurorix_music.Audio.Buffer.{AudioBuffer, finish_render, is_ready}
use aurorix_music.Audio.Pcm.{PcmError, take, drop}
use aurorix_music.Audio.Realtime.{
  ActiveBlock, RealtimeConsumer, RenderLoop, copy_active, advance_active, finish_active,
  take_copied, with_fault,
}
use aurorix_music.Audio.Signals.{stale_block}

-- How many of the first `m` slots are ready.
unfoldable pub ready_slots : ℕ → AudioBuffer → ℕ
ready_slots zero b = 0
ready_slots (suc m) b = (if is_ready (b.slots m).state then 1 else 0) + ready_slots m b

-- No slot becomes ready.
abbrev pub Drains : AudioBuffer → AudioBuffer → Type 0
Drains b b' = (j : ℕ) → is_ready (b.slots j).state ≡ false → is_ready (b'.slots j).state ≡ false

ready_slots_le : (m : ℕ) (b b' : AudioBuffer) → Drains b b' → ready_slots m b' ≤ ready_slots m b
unfolding ready_slots
ready_slots_le zero b b' d = omega arith
ready_slots_le (suc m) b b' d = ground (arith, d m, ready_slots_le m b b' d)

pub ready_slots_lt :
    (m i : ℕ) (b b' : AudioBuffer)
    → i < m
    → Drains b b'
    → is_ready (b.slots i).state ≡ true
    → is_ready (b'.slots i).state ≡ false
    → ready_slots m b' < ready_slots m b
unfolding ready_slots
ready_slots_lt zero i b b' lt d e e' = absurd (omega (arith, lt))
ready_slots_lt (suc m) i b b' lt d e e' = elim (Bool-cases (i == m)) [
  | inl at ↦
      let here : i ≡ m = ground (arith, at) in
      ground (
        arith,
        subst (λ j. is_ready (b.slots j).state ≡ true) here e,
        subst (λ j. is_ready (b'.slots j).state ≡ false) here e',
        ready_slots_le m b b' d,
      )
  | inr ne ↦
      let below : i < m = ground (arith, ne, lt) in
      ground (arith, d m, ready_slots_lt m i b b' below d e e')
]

pub ready_slots_bound : (m : ℕ) (b : AudioBuffer) → ready_slots m b ≤ m
unfolding ready_slots
ready_slots_bound zero b = omega arith
ready_slots_bound (suc m) b = ground (arith, ready_slots_bound m b)

abbrev pub held_blocks : Option ActiveBlock → ℕ
held_blocks none = 0
held_blocks (some _) = 1

pub held_bound : (a : Option ActiveBlock) → held_blocks a ≤ 1
held_bound none = omega arith
held_bound (some a) = omega arith

-- The frames still asked for, the slots that are ready and the block at hand.
abbrev pub rounds_left : ℕ → RenderLoop → ℕ
rounds_left requested s =
    (requested - s.copied_frames)
    + ready_slots s.consumer.buffer.slot_count s.consumer.buffer
    + held_blocks s.consumer.active

-- The loop goes on nearer to its end.
abbrev pub Nearer : ℕ → RenderLoop → Bool × RenderLoop → Type 0
Nearer requested s (again, s') =
    again ≡ true
    → (rounds_left requested s' < rounds_left requested s)
      × (s'.consumer.next_slot < s'.consumer.buffer.slot_count)

choose :
    {A : Type 0} (P : A → Type 0) (test : Bool) {x y : A}
    → P x
    → (test ≡ false → P y)
    → P (if test then x else y)
choose P true p q = p
choose P false p q = q refl

-- What a block that is copied from, or ends, leaves of the consumer.
abbrev Leaves : RealtimeConsumer → ℕ → RealtimeConsumer → Type 0
Leaves c held c' =
    (ready_slots c'.buffer.slot_count c'.buffer ≤ ready_slots c.buffer.slot_count c.buffer)
    × (held_blocks c'.active ≤ held)
    × (c'.next_slot ≡ c.next_slot)
    × (c'.buffer.slot_count ≡ c.buffer.slot_count)

finish-Leaves : (a : ActiveBlock) (c : RealtimeConsumer) → Leaves c 0 (finish_active a c)
finish-Leaves a c = (
  ready_slots_le c.buffer.slot_count c.buffer (finish_render a.ready.index c.buffer)
      (λ j h. ground (arith, h)),
  omega arith,
  refl,
  refl,
)

advance-Leaves :
    (a : ActiveBlock) (n : ℕ) (c : RealtimeConsumer) → Leaves c 1 (advance_active a n c)
advance-Leaves a n c =
    choose (Leaves c 1) (leb a.ready.valid_frames (a.consumed_frames + n))
      ((finish-Leaves a c).0, omega arith, refl, refl) (λ _. (omega arith, omega arith, refl, refl))

module _ (requested : ℕ) (a : ActiveBlock) (s : RenderLoop) (e : s.consumer.active ≡ some a)
    (room : s.copied_frames < requested)
    (lt : s.consumer.next_slot < s.consumer.buffer.slot_count) where
  one_held : held_blocks s.consumer.active ≡ 1
  one_held = ap held_blocks e

  -- The block ends.
  finished-Nearer :
      (s' : RenderLoop)
      → Leaves s.consumer 0 s'.consumer
      → s'.copied_frames ≡ s.copied_frames
      → Nearer requested s (true, s')
  finished-Nearer s' (less, held, next, count) same again =
      (omega (arith, less, held, same, one_held), omega (arith, next, count, lt))

  -- Frames were copied.
  copied-Nearer :
      (s' : RenderLoop)
      → Leaves s.consumer 1 s'.consumer
      → s.copied_frames < s'.copied_frames
      → Nearer requested s (true, s')
  copied-Nearer s' (less, held, next, count) more again =
      (omega (arith, less, held, more, room, one_held), omega (arith, next, count, lt))

  taken-Nearer : (r : Result PcmError ℕ × List ℕ) → Nearer requested s (take_copied requested a r s)
  unfolding take_copied
  taken-Nearer (err _, filled) again = ground (arith, again)
  taken-Nearer (ok n, filled) again =
      choose (Nearer requested s) (n == 0)
        (finished-Nearer (record s { consumer = finish_active a s.consumer })
          (finish-Leaves a s.consumer) refl)
        (λ some_frames.
          copied-Nearer
            (record s {
              consumer = advance_active a n s.consumer;
              output =
                  take (s.copied_frames * s.consumer.buffer.format.channels) s.output
                  ++ filled
                  ++ drop (requested * s.consumer.buffer.format.channels) s.output;
              copied_frames = s.copied_frames + n;
            })
            (advance-Leaves a n s.consumer) (ground (arith, some_frames)))
        again

  pub copy-Nearer : Nearer requested s (copy_active requested a s)
  unfolding copy_active
  copy-Nearer =
      choose (Nearer requested s) (not (a.ready.generation == s.consumer.buffer.generation))
        (finished-Nearer
          (record s {
            consumer = with_fault stale_block (finish_active a s.consumer);
            discarded_stale_blocks = s.discarded_stale_blocks + 1;
          })
          (finish-Leaves a s.consumer) refl)
        (λ _. taken-Nearer _)
