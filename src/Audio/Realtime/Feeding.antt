-- ===== src/Audio/Realtime/Feeding.antt =====
-- core/aurorix-audio/src/buffer.rs and pcm.rs: a block on its way from the producer to the callback.
use native.Mathlib.Nat.{mul-le-mul_right, mod-add-div', zero-mul}
use aurorix_music.Prelude.{
  ℕ, suc, ◌+◌, ◌*◌, ◌/◌, ◌%◌, ◌≤◌, ◌<◌, ◌≡◌, ◌≢◌, refl, ap, ◌∙◌, sym, subst, false, some, List, [],
  ◌∷◌, length, arith,
}
use aurorix_music.Prelude.Exec.{Result, ok}
use aurorix_music.Audio.Pcm.{
  AudioBlock, PcmError, overwrite, take, drop, write_interleaved, copy_to, copy_frames_to,
}
use aurorix_music.Audio.Buffer.{
  AudioBuffer, vacant, writing, ready, ProducerLease, set_slot_state, set_block, reset_block,
  try_acquire, lease_write, lease_publish,
}
use aurorix_music.Audio.Realtime.Stream.{slot_samples}
use aurorix_music.Audio.Realtime.Rounds.{IsPlayable}

take-overwrite :
    (cells values : List ℕ)
    → length values ≤ length cells
    → take (length values) (overwrite cells values) ≡ values
unfolding take overwrite
take-overwrite cells [] h = refl
take-overwrite [] (v ∷ vs) h = elim h [ ]
take-overwrite (c ∷ cells) (v ∷ vs) h = ap (λ t. v ∷ t) (take-overwrite cells vs (omega arith))

pub length-overwrite : (cells values : List ℕ) → length (overwrite cells values) ≡ length cells
unfolding overwrite
length-overwrite cells [] = refl
length-overwrite [] (v ∷ vs) = refl
length-overwrite (c ∷ cells) (v ∷ vs) = ap suc (length-overwrite cells vs)

overwrite_all :
    (cells values : List ℕ) → length cells ≡ length values → overwrite cells values ≡ values
unfolding overwrite
overwrite_all [] [] h = refl
overwrite_all (c ∷ cells) [] h = absurd (omega arith)
overwrite_all [] (v ∷ vs) h = absurd (omega arith)
overwrite_all (c ∷ cells) (v ∷ vs) h = ap (λ t. v ∷ t) (overwrite_all cells vs (omega arith))

abbrev copied : ℕ → List ℕ → Result PcmError ℕ × List ℕ
copied n out = (ok n, out)

module _ (b : AudioBlock) (values : List ℕ) (channels : 0 < b.format.channels)
    (room : b.capacity_frames * b.format.channels ≤ length b.samples)
    (aligned : length values % b.format.channels ≡ 0)
    (fits : length values / b.format.channels ≤ b.capacity_frames) where
  abbrev frames : ℕ
  frames = length values / b.format.channels

  abbrev written_block : AudioBlock
  written_block = record b { samples = overwrite b.samples values; valid_frames = frames }

  whole : length values ≡ frames * b.format.channels
  whole = omega (arith, mod-add-div' (length values) b.format.channels, aligned)

  pub write_lem :
      write_interleaved values b
      ≡ (ok frames, record b { samples = overwrite b.samples values; valid_frames = frames })
  unfolding write_interleaved
  write_lem = ground (arith, aligned, fits)

  enough : length values ≤ length b.samples
  enough = omega (
    arith,
    whole,
    room,
    mul-le-mul_right {m = frames} {n = b.capacity_frames} b.format.channels fits,
  )

  copied_out :
      (destination : List ℕ)
      → length destination ≡ length values
      → copy_frames_to written_block 0 destination ≡ (
        ok frames,
        overwrite destination (
            take
              (frames * b.format.channels)
              (drop (0 * b.format.channels) (overwrite b.samples values))),
      )
  unfolding copy_frames_to
  copied_out destination same = rw (same, aligned) (ground arith)

  copied_values :
      (destination : List ℕ)
      → length destination ≡ length values
      → overwrite destination (
          take
            (frames * b.format.channels)
            (drop (0 * b.format.channels) (overwrite b.samples values)))
        ≡ values
  unfolding drop
  copied_values destination same =
      rw (zero-mul, ← whole, take-overwrite b.samples values enough)
        (overwrite_all destination values same)

  -- For a block with room for its capacity and values of whole frames that fit: a copy of the valid samples into a
  -- destination of that length gives the values back, and both calls return the number of frames.
  pub copy_to-write_interleaved :
      (destination : List ℕ)
      → length destination ≡ length values
      → let (r, b') = write_interleaved values b in
        (r ≡ ok (length values / b.format.channels))
        × (copy_to b' destination ≡ (ok (length values / b.format.channels), values))
  unfolding copy_to
  copy_to-write_interleaved destination same =
      subst
        (λ (x : Result PcmError ℕ × AudioBlock).
          (x.0 ≡ ok frames) × (copy_frames_to x.1 0 destination ≡ (ok frames, values)))
        (sym write_lem)
        (
          refl,
          copied_out destination same
              ∙ ap (λ out. copied frames out) (copied_values destination same),
        )

-- The lease of a vacant slot, the pool with it, the block once values are written, and the pool once they are
-- published.
abbrev pub taken : AudioBuffer → ℕ → ProducerLease
taken b i = record { index = i; generation = b.generation }

abbrev pub leased : AudioBuffer → ℕ → AudioBuffer
leased b i = reset_block i b.generation (set_slot_state i writing b)

abbrev pub filled_block : AudioBuffer → ℕ → List ℕ → AudioBlock
filled_block b i values = record ((b.slots i).block) {
  generation = b.generation;
  samples = overwrite (b.slots i).block.samples values;
  valid_frames = length values / b.format.channels;
}

abbrev pub fed : AudioBuffer → ℕ → List ℕ → AudioBuffer
fed b i values = set_slot_state i ready (set_block i (filled_block b i values) (leased b i))

-- A vacant slot of an open pool, and values for it.
module _ (b : AudioBuffer) (i : ℕ) (values : List ℕ) (open_pool : b.resetting ≡ false)
    (free : (b.slots i).state ≡ vacant) (channels : 0 < b.format.channels)
    (same_channels : (b.slots i).block.format.channels ≡ b.format.channels)
    (room : (b.slots i).block.capacity_frames * b.format.channels
      ≤ length (b.slots i).block.samples)
    (aligned : length values % b.format.channels ≡ 0)
    (fits : length values / b.format.channels ≤ (b.slots i).block.capacity_frames)
    (some_frames : 0 < length values) where
  acquires : try_acquire i b ≡ (some (taken b i), (leased b i))
  unfolding try_acquire
  acquires = ground (arith, open_pool, free)

  whole_values : length values ≡ length values / b.format.channels * b.format.channels
  whole_values = omega (arith, mod-add-div' (length values) b.format.channels, aligned)

  writes_values :
      lease_write values (taken b i) (leased b i)
      ≡ (ok (length values / b.format.channels), set_block i (filled_block b i values) (leased b i))
  unfolding lease_write
  writes_values = rw same_channels (ground (arith, same_channels, aligned, fits))

  frames_pos : 0 < length values / b.format.channels
  frames_pos = grind (arith, whole_values)

  publishes_block :
      lease_publish (taken b i) i (set_block i (filled_block b i values) (leased b i)) ≡ (
        ok tt,
        (i + 1) % b.slot_count,
        set_slot_state i ready (set_block i (filled_block b i values) (leased b i)),
      )
  unfolding lease_publish
  publishes_block = ground (arith, frames_pos)

  long : length values ≤ length (b.slots i).block.samples
  long = omega (
    arith,
    whole_values,
    room,
    mul-le-mul_right {m = length values / b.format.channels} {n = (b.slots i).block.capacity_frames}
        b.format.channels fits,
  )

  fed_block : ((fed b i values).slots i).block ≡ (filled_block b i values)
  fed_block = ground arith

  fed-IsPlayable : IsPlayable (fed b i values) i
  fed-IsPlayable =
      subst
        (λ (block : AudioBlock).
          (block.generation ≡ b.generation)
          × (0 < block.valid_frames)
          × (block.format.channels ≡ b.format.channels)
          × (block.valid_frames * b.format.channels ≤ length block.samples))
        (sym fed_block)
        (
          refl,
          frames_pos,
          same_channels,
          rw (length-overwrite (b.slots i).block.samples values, ← whole_values) long,
        )

  fed_samples : slot_samples (fed b i values) i ≡ values
  fed_samples =
      ap (λ (block : AudioBlock). take (block.valid_frames * b.format.channels) block.samples)
        fed_block
      ∙ ap (λ k. take k (overwrite (b.slots i).block.samples values)) (sym whole_values)
      ∙ take-overwrite (b.slots i).block.samples values long

  -- For an open pool, a vacant slot whose block has room, and values of whole frames that fit: the producer acquires
  -- the slot, its write and its publication succeed, and it goes to the next slot. The slot is then ready, its block
  -- can be rendered and its valid samples are the values, and the other slots are as they were.
  pub feed_lem :
      (try_acquire i b ≡ (some (taken b i), (leased b i)))
      × (lease_publish (taken b i) i (lease_write values (taken b i) (leased b i)).1
          ≡ (ok tt, (i + 1) % b.slot_count, (fed b i values)))
      × (((fed b i values).slots i).state ≡ ready)
      × IsPlayable (fed b i values) i
      × (slot_samples (fed b i values) i ≡ values)
      × ((j : ℕ) → j ≢ i → (fed b i values).slots j ≡ b.slots j)
  feed_lem = (
    acquires,
    ap (λ (x : Result PcmError ℕ × AudioBuffer). lease_publish (taken b i) i x.1) writes_values
        ∙ publishes_block,
    ground arith,
    fed-IsPlayable,
    fed_samples,
    λ j ne. ground (arith, ne),
  )
