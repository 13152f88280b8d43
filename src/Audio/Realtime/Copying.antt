-- ===== src/Audio/Realtime/Copying.antt =====
-- core/aurorix-audio/src/realtime.rs: a round that copies frames of the block at hand.
use native.Mathlib.Nat.{add-mul, mul-le-mul_right, sub-add-eq}
use mathlib.Core.List.{append_assoc, append-nil}
use aurorix_music.Prelude.{
  ℕ, ◌+◌, ◌-◌, ◌*◌, ◌≤◌, ◌<◌, ◌≡◌, refl, ap, ap₂, subst, length-append, ◌∙◌, sym, true, some, List,
  [], ◌++◌, leb, length, min, arith, leb→le, inl, inr, Bool-cases,
}
use aurorix_music.Prelude.Exec.{ok}
use aurorix_music.Audio.Pcm.{AudioBlock, drop, take, zeroes, copy_frames_to}
use aurorix_music.Audio.Buffer.{AudioBuffer, reading, finish_render}
use aurorix_music.Audio.Realtime.{
  ActiveBlock, RealtimeConsumer, RenderLoop, copy_active, take_copied, advance_active,
}
use aurorix_music.Audio.Realtime.Rounds.{IsReadable, IsHeld}
use aurorix_music.Audio.Realtime.Stream.{slot_samples, queued, active_rest, pending, queued_same}
use aurorix_music.Audio.Realtime.Slices.{
  length-copied_samples, copy_frames_to-zeroes, drop-take, drop_all, length-take, take-append,
  drop-append, take_all, length-zeroes,
}

finished_queue :
    (b : AudioBuffer) (i m s : ℕ)
    → (b.slots i).state ≡ reading
    → queued m s (finish_render i b) ≡ queued m s b
finished_queue b i m s h = queued_same b (finish_render i b) refl (λ j. ground (arith, h)) m s

module _ (c : RealtimeConsumer) (a : ActiveBlock) (v : IsReadable c)
    (held : IsHeld c.buffer (some a)) (n : ℕ) where
  advanced-IsReadable : c.active ≡ some a → IsReadable (advance_active a n c)
  advanced-IsReadable e = elim (Bool-cases (leb a.ready.valid_frames (a.consumed_frames + n))) [
    | inl done ↦ rw done (record {
      channels = v.channels;
      next_lt = v.next_lt;
      open_pool = v.open_pool;
      blocks = λ j r. ground (arith, v.blocks j);
      held = tt;
    })
    | inr more ↦ rw more (record {
      channels = v.channels;
      next_lt = v.next_lt;
      open_pool = v.open_pool;
      blocks = v.blocks;
      held = ground (arith, held);
    })
  ]

  used_up :
      a.ready.valid_frames ≤ a.consumed_frames + n
      → drop
          ((a.consumed_frames + n) * c.buffer.format.channels)
          (slot_samples c.buffer a.ready.index)
        ≡ []
  used_up le =
      let block : AudioBlock = (c.buffer.slots a.ready.index).block in
      let far : block.valid_frames * c.buffer.format.channels
          ≤ (a.consumed_frames + n) * c.buffer.format.channels =
        mul-le-mul_right c.buffer.format.channels (omega (arith, held, le)) in
      let long : length (slot_samples c.buffer a.ready.index)
          ≡ block.valid_frames * c.buffer.format.channels =
        length-take (block.valid_frames * c.buffer.format.channels) block.samples (held.1.3) in
      drop_all ((a.consumed_frames + n) * c.buffer.format.channels)
        (slot_samples c.buffer a.ready.index) (omega (arith, far, long))

  advanced_pending :
      pending (advance_active a n c)
      ≡ drop
          ((a.consumed_frames + n) * c.buffer.format.channels)
          (slot_samples c.buffer a.ready.index)
        ++ queued c.buffer.slot_count c.next_slot c.buffer
  advanced_pending = elim (Bool-cases (leb a.ready.valid_frames (a.consumed_frames + n))) [
    | inl done ↦
        rw (done, used_up (leb→le _ _ done))
          (finished_queue c.buffer a.ready.index c.buffer.slot_count c.next_slot held.0)
    | inr more ↦ rw more
  ]

-- The loop has written the samples before `pending`, and silence from there on.
pub record Rendered (channels : ℕ) (stream : List ℕ) (requested : ℕ) (s : RenderLoop) : Type 0 where
  pub readable : IsReadable s.consumer
  pub same_channels : s.consumer.buffer.format.channels ≡ channels
  pub in_range : s.copied_frames ≤ requested
  pub fresh : s.discarded_stale_blocks ≡ 0
  pub written : List ℕ
  pub written_length : length written ≡ s.copied_frames * channels
  pub silence : s.output ≡ written ++ zeroes ((requested - s.copied_frames) * channels)
  pub remains : written ++ pending s.consumer ≡ stream

module _ (stream : List ℕ) (requested : ℕ) (s : RenderLoop) (a : ActiveBlock)
    (r : Rendered s.consumer.buffer.format.channels stream requested s)
    (room : s.copied_frames < requested) (e : s.consumer.active ≡ some a) where
  abbrev pub channels : ℕ
  channels = s.consumer.buffer.format.channels

  abbrev pub block : AudioBlock
  block = (s.consumer.buffer.slots a.ready.index).block

  abbrev pub n : ℕ
  n = min (block.valid_frames - a.consumed_frames) (requested - s.copied_frames)

  abbrev pub samples : List ℕ
  samples =
      take (n * block.format.channels)
        (drop (a.consumed_frames * block.format.channels) block.samples)

  held : IsHeld s.consumer.buffer (some a)
  held = subst (IsHeld s.consumer.buffer) e r.readable.held

  split_count :
      requested * channels ≡ s.copied_frames * channels + (requested - s.copied_frames) * channels
  split_count =
      let parts : s.copied_frames + (requested - s.copied_frames) ≡ requested =
        omega (arith, room) in
      omega (
        arith,
        add-mul s.copied_frames (requested - s.copied_frames) channels,
        ap (λ (t : ℕ). t * channels) parts,
      )

  output_length : length s.output ≡ requested * channels
  output_length = rw r.silence (
      omega (
        arith,
        length-append {0} r.written (zeroes ((requested - s.copied_frames) * channels)),
        length-zeroes ((requested - s.copied_frames) * channels),
        r.written_length,
        split_count,
      ))

  abbrev pub after : RenderLoop
  after = record s {
    consumer = advance_active a n s.consumer;
    output = r.written ++ (samples ++ zeroes ((requested - s.copied_frames - n) * channels)) ++ [];
    copied_frames = s.copied_frames + n;
  }

  before : take (s.copied_frames * channels) s.output ≡ r.written
  before = rw r.silence (
      take-append r.written (zeroes ((requested - s.copied_frames) * channels))
        (s.copied_frames * channels) (omega (arith, r.written_length)))

  beyond : drop (requested * channels) s.output ≡ []
  beyond = drop_all (requested * channels) s.output (omega (arith, output_length))

  destination :
      drop (s.copied_frames * channels) (take (requested * channels) s.output)
      ≡ zeroes ((requested - s.copied_frames) * channels)
  destination =
      ap (drop (s.copied_frames * channels))
        (take_all (requested * channels) s.output (omega (arith, output_length)) ∙ r.silence)
      ∙ drop-append r.written (zeroes ((requested - s.copied_frames) * channels))
          (s.copied_frames * channels) (omega (arith, r.written_length))

  copied_lem :
      copy_frames_to block a.consumed_frames
        (drop (s.copied_frames * channels) (take (requested * channels) s.output))
      ≡ (ok n, samples ++ zeroes ((requested - s.copied_frames - n) * channels))
  copied_lem =
      ap (copy_frames_to block a.consumed_frames) destination
      ∙ subst
          (λ k.
            copy_frames_to block a.consumed_frames (zeroes ((requested - s.copied_frames) * k))
            ≡ (ok n, samples ++ zeroes ((requested - s.copied_frames - n) * k)))
          (held.1.2)
          (copy_frames_to-zeroes block a.consumed_frames (requested - s.copied_frames)
            (omega (arith, r.readable.channels, held)) (omega (arith, held))
            (subst (λ k. block.valid_frames * k ≤ length block.samples) (sym (held.1.2))
              (held.1.3)))

  pub copy_active_lem : copy_active requested a s ≡ (true, after)
  unfolding copy_active take_copied
  copy_active_lem = ground (arith, copied_lem, before, beyond, held, room)

  rest_cut :
      drop (a.consumed_frames * channels) (slot_samples s.consumer.buffer a.ready.index)
      ≡ samples
        ++ drop ((a.consumed_frames + n) * channels) (slot_samples s.consumer.buffer a.ready.index)
  rest_cut =
      drop-take (a.consumed_frames * channels) (n * channels) (block.valid_frames * channels)
        block.samples (rw (← add-mul) (mul-le-mul_right channels (ground (arith, held)))) (held.1.3)
      ∙ ap₂
          (λ k m.
            take (n * k) (drop (a.consumed_frames * k) block.samples)
            ++ drop m (slot_samples s.consumer.buffer a.ready.index))
          (sym (held.1.2)) (sym (add-mul a.consumed_frames n channels))

  samples_length : length samples ≡ n * channels
  samples_length =
      subst (λ k. length samples ≡ n * k) (held.1.2)
        (length-copied_samples block a.consumed_frames (requested - s.copied_frames)
          (omega (arith, r.readable.channels, held)) (omega (arith, held))
          (subst (λ k. block.valid_frames * k ≤ length block.samples) (sym (held.1.2)) (held.1.3)))

  still_remains : (r.written ++ samples) ++ pending (advance_active a n s.consumer) ≡ stream
  still_remains =
      ap (λ p. (r.written ++ samples) ++ p) (advanced_pending s.consumer a r.readable held n)
      ∙ (append_assoc r.written samples _
          ∙ ap (λ p. r.written ++ p) (sym (append_assoc samples _ _)))
      ∙ ap
          (λ p.
            r.written
            ++ (p ++ queued s.consumer.buffer.slot_count s.consumer.next_slot s.consumer.buffer))
          (sym rest_cut)
      ∙ ap
          (λ b.
            r.written
            ++ (active_rest b s.consumer.buffer
                ++ queued s.consumer.buffer.slot_count s.consumer.next_slot s.consumer.buffer))
          (sym e)
      ∙ r.remains

  pub after-Rendered : Rendered channels stream requested after
  after-Rendered = record {
    readable = advanced-IsReadable s.consumer a r.readable held n e;
    same_channels = ground arith;
    in_range = ground (arith, room);
    fresh = r.fresh;
    written = r.written ++ samples;
    written_length = omega (
      arith,
      length-append {0} r.written samples,
      samples_length,
      r.written_length,
      add-mul s.copied_frames n channels,
    );
    silence =
        append-nil _
        ∙ sym (append_assoc r.written samples _)
        ∙ ap (λ k. (r.written ++ samples) ++ zeroes (k * channels))
            (sym (sub-add-eq requested s.copied_frames n));
    remains = still_remains;
  }

  pub copied_more : s.copied_frames < after.copied_frames
  copied_more = ground (arith, held, room)
