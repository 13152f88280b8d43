-- ===== src/Audio/Realtime/Exchange/Taking.antt =====
-- core/aurorix-audio/src/buffer.rs: the calls of a producer for one block, before the callback.
use aurorix_music.Prelude.{
  ℕ, ◌+◌, ◌*◌, ◌/◌, ◌%◌, ◌≤◌, ◌<◌, ◌≡◌, ◌≢◌, inl, inr, Bool-cases, Option, none, some, refl, ap,
  ap₂, ◌∙◌, sym, subst, true, false, List, ◌++◌, ◌==◌, length, arith,
}
use aurorix_music.Audio.Buffer.{
  AudioBuffer, BufferSlot, ready, reading, is_vacant, is_ready, vacant, try_acquire,
}
use aurorix_music.Audio.Pcm.{AudioBlock, take, drop}
use aurorix_music.Audio.Realtime.{ActiveBlock, RealtimeConsumer}
use aurorix_music.Audio.Realtime.Stream.{slot_samples, queued, pending, active_rest}
use aurorix_music.Audio.Realtime.Ring.{IsRing, published-IsRing, dist_refl}
use aurorix_music.Audio.Realtime.Rounds.{IsReadable, IsPlayable, IsHeld}
use aurorix_music.Audio.Realtime.Feeding.{fed, feed_lem, length-overwrite}
use aurorix_music.Audio.Realtime.Appending.{is_full, queued_appends}
use aurorix_music.Audio.Realtime.Keeping.{IsKept}
use mathlib.Core.List.{append_assoc}
use aurorix_music.Audio.Realtime.Exchange.{feed}

-- `IsPlayable` for the block of a slot.
abbrev IsPlayableBlock : AudioBuffer → AudioBlock → Type 0
IsPlayableBlock b block =
    (block.generation ≡ b.generation)
    × (0 < block.valid_frames)
    × (block.format.channels ≡ b.format.channels)
    × (block.valid_frames * b.format.channels ≤ length block.samples)

module _ (frames w : ℕ) (values : List ℕ) (c : RealtimeConsumer) (readable : IsReadable c)
    (v : IsKept frames w c) where
  -- The producer's next slot is not vacant.
  pub feed_refused :
      is_vacant (c.buffer.slots w).state ≡ false → feed values w c.buffer ≡ (false, w, c.buffer)
  unfolding feed try_acquire
  feed_refused h = ground (arith, h, readable.open_pool)

  module _ (free : (c.buffer.slots w).state ≡ vacant) (some_samples : 0 < length values)
      (aligned : length values % c.buffer.format.channels ≡ 0)
      (fits : length values / c.buffer.format.channels ≤ frames) where
    abbrev pub after_feed : RealtimeConsumer
    after_feed = record c { buffer = fed c.buffer w values }

    fits_slot : length values / c.buffer.format.channels ≤ (c.buffer.slots w).block.capacity_frames
    fits_slot = rw ((v.sized w).1) fits

    pub feed_taken :
        feed values w c.buffer ≡ (true, (w + 1) % c.buffer.slot_count, fed c.buffer w values)
    unfolding feed
    feed_taken =
        let (acquires, publishes, _, _, _, _) =
          feed_lem c.buffer w values readable.open_pool free readable.channels ((v.sized w).0)
            ((v.sized w).2) aligned fits_slot some_samples in
        ground (arith, acquires, publishes)

    fed_block :
        IsPlayable (fed c.buffer w values) w × (slot_samples (fed c.buffer w values) w ≡ values)
    fed_block =
        let (_, _, _, playable, samples, _) =
          feed_lem c.buffer w values readable.open_pool free readable.channels ((v.sized w).0)
            ((v.sized w).2) aligned fits_slot some_samples in
        (playable, samples)

    other_slots : (j : ℕ) → j ≢ w → (fed c.buffer w values).slots j ≡ c.buffer.slots j
    other_slots j ne = ground (arith, ne)

    -- What holds of the slot that was filled, and of every slot before, holds of every slot.
    all_slots :
        (P : BufferSlot → Type 0)
        → P ((fed c.buffer w values).slots w)
        → ((j : ℕ) → P (c.buffer.slots j))
        → (j : ℕ) → P ((fed c.buffer w values).slots j)
    all_slots P new old j = elim (Bool-cases (j == w)) [
      | inl e ↦
          let at : j ≡ w = ground (arith, e) in
          subst (λ i. P ((fed c.buffer w values).slots i)) (sym at) new
      | inr ne ↦ subst P (sym (other_slots j (ground (arith, ne)))) (old j)
    ]

    IsHeld-elsewhere :
        (a : Option ActiveBlock)
        → IsHeld c.buffer a
        → IsHeld (fed c.buffer w values) a
          × (active_rest a (fed c.buffer w values) ≡ active_rest a c.buffer)
    IsHeld-elsewhere none h = (tt, refl)
    IsHeld-elsewhere (some a) h =
        let apart : a.ready.index ≢ w = ground (arith, h, free) in
        let same = sym (other_slots a.ready.index apart) in
        (
          subst
              (λ (slot : BufferSlot).
                (slot.state ≡ reading)
                × IsPlayableBlock c.buffer slot.block
                × (a.ready.valid_frames ≡ slot.block.valid_frames)
                × (a.ready.generation ≡ c.buffer.generation)
                × (a.consumed_frames < a.ready.valid_frames))
              same h,
          ap
              (λ (slot : BufferSlot).
                drop (a.consumed_frames * c.buffer.format.channels)
                  (take (slot.block.valid_frames * c.buffer.format.channels) slot.block.samples))
              (sym same),
        )

    pub feed-IsReadable : IsReadable after_feed
    feed-IsReadable = record {
      channels = readable.channels;
      next_lt = readable.next_lt;
      open_pool = readable.open_pool;
      blocks =
          all_slots (λ slot. slot.state ≡ ready → IsPlayableBlock c.buffer slot.block)
            (λ _. fed_block.0) readable.blocks;
      held = (IsHeld-elsewhere c.active readable.held).0;
    }

    fed-IsRing :
        IsRing c.buffer.slot_count
          (is_full (fed c.buffer w values))
          c.next_slot
          ((w + 1) % c.buffer.slot_count)
          (v.run_length + 1)
    fed-IsRing =
        published-IsRing c.buffer.slot_count (is_full c.buffer) (is_full (fed c.buffer w values))
          c.next_slot w v.run_length v.ring (ground (arith, free)) (ground arith)
          (λ j ne. ground (arith, ne))

    pub feed-IsKept : IsKept frames ((w + 1) % c.buffer.slot_count) after_feed
    feed-IsKept = record {
      run_length = v.run_length + 1;
      ring = fed-IsRing;
      sized =
          all_slots
            (λ slot.
              (slot.block.format.channels ≡ c.buffer.format.channels)
              × (slot.block.capacity_frames ≡ frames)
              × (slot.block.capacity_frames * c.buffer.format.channels ≤ length slot.block.samples))
            (ground (arith, v.sized w, length-overwrite (c.buffer.slots w).block.samples values))
            v.sized;
    }

    pub feed_appends : pending after_feed ≡ pending c ++ values
    feed_appends =
        ap₂ (λ xs ys. xs ++ ys) ((IsHeld-elsewhere c.active readable.held).1)
          (queued_appends c.buffer (fed c.buffer w values) c.next_slot w v.run_length refl v.ring
              (omega (arith, fed-IsRing.few)) (ground arith)
              (λ j ne. (
                ap (λ (slot : BufferSlot). is_ready slot.state) (other_slots j ne),
                ap
                    (λ (slot : BufferSlot).
                      take (slot.block.valid_frames * c.buffer.format.channels) slot.block.samples)
                    (other_slots j ne),
              ))
              c.buffer.slot_count c.next_slot readable.next_lt
              (omega (arith, dist_refl c.buffer.slot_count c.next_slot))
              (omega (arith, dist_refl c.buffer.slot_count c.next_slot))
            ∙ ap (λ xs. queued c.buffer.slot_count c.next_slot c.buffer ++ xs) (fed_block.1))
        ∙ sym (append_assoc (active_rest c.active c.buffer) _ values)
