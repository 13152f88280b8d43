-- ===== src/Playback/Transition/Mixer.antt =====
-- core/aurorix-playback/src/transition.rs: the crossfade mixer, over any arithmetic of samples.
use aurorix_music.Prelude.{
  ℕ, zero, suc, ◌+◌, ◌-◌, ◌*◌, ◌/◌, ◌%◌, ◌≤◌, ◌<◌, ◌≡◌, refl, ◌||◌, ◌&&◌, not, none, some, List, [],
  ◌∷◌, arith, ◌==◌, leb, ltb, if◌then◌else◌, length, get_elem?, set, Bool-cases, inl, inr, ap, ◌∙◌,
  unwrap_or,
}
use native.Mathlib.Nat.{div-eq_of_lt-le}
use aurorix_music.Prelude.Exec.{Result, ok, err}
use aurorix_music.Prelude.Word.{checked_mul, u64_max}
use aurorix_music.Playback.Transition.{
  TransitionError, invalid_channel_count, misaligned_samples, frame_count_overflow,
  output_too_short,
}

-- `f32`: what the mixer computes with.
pub record Arithmetic : Type 1 where
  pub Sample : Type 0
  pub silence : Sample
  pub unit_gain : Sample
  pub of_frame : ℕ → Sample
  pub plus : Sample → Sample → Sample
  pub minus : Sample → Sample → Sample
  pub times : Sample → Sample → Sample
  pub over : Sample → Sample → Sample

-- `CrossfadeMixer::new`; a mixer is its number of channels.
unfoldable pub new_mixer : ℕ → Result TransitionError ℕ
new_mixer channels = if channels == 0 then err invalid_channel_count else ok channels

module _ (F : Arithmetic) where
  -- The gain of the next item at a frame.
  abbrev pub progress : ℕ → ℕ → F.Sample
  progress frames frame =
      if leb frames 1 then F.unit_gain else F.over (F.of_frame frame) (F.of_frame (frames - 1))

  -- The sample at an index, at the gain of its frame.
  abbrev pub mixed : List F.Sample → List F.Sample → F.Sample → ℕ → F.Sample
  mixed current following next_gain index =
      F.plus
        (F.times (unwrap_or (get_elem? current index) F.silence) (F.minus F.unit_gain next_gain))
        (F.times (unwrap_or (get_elem? following index) F.silence) next_gain)

  -- The inner loop: `n` channels from an index on.
  unfoldable pub mix_channels :
      List F.Sample → List F.Sample → F.Sample → ℕ → ℕ → List F.Sample → List F.Sample
  mix_channels current following gain zero index output = output
  mix_channels current following gain (suc n) index output =
      mix_channels current following gain n (index + 1)
        (set output index (mixed current following gain index))

  -- The outer loop: `n` frames from a frame on.
  unfoldable pub mix_frames :
      ℕ → List F.Sample → List F.Sample → ℕ → ℕ → ℕ → List F.Sample → List F.Sample
  unfolding mix_channels
  mix_frames channels current following frames zero frame output = output
  mix_frames channels current following frames (suc n) frame output =
      mix_frames channels current following frames n (frame + 1)
        (mix_channels current following (progress frames frame) channels (frame * channels) output)

  unfoldable pub mix_into :
      ℕ → List F.Sample → List F.Sample → List F.Sample → ℕ → Result TransitionError (List F.Sample)
  unfolding mix_frames
  mix_into channels current following output frames =
      if not (length current % channels == 0)
        || not (length following % channels == 0)
        || not (length output % channels == 0)
      then err misaligned_samples
      else elim (checked_mul frames channels) [
        | none ↦ err frame_count_overflow
        | some required ↦
            if ltb (length output) required
            then err (output_too_short required (length output))
            else ok (mix_frames channels current following frames frames 0 output)
      ]

  length-set : (xs : List F.Sample) (i : ℕ) (v : F.Sample) → length (set xs i v) ≡ length xs
  length-set [] i v = refl
  length-set (x ∷ xs) zero v = refl
  length-set (x ∷ xs) (suc i) v = omega (arith, length-set xs i v)

  get_elem?-set :
      (xs : List F.Sample) (i j : ℕ) (v : F.Sample)
      → i < length xs
      → get_elem? (set xs i v) j ≡ (if i == j then some v else get_elem? xs j)
  get_elem?-set [] i j v h = elim h [ ]
  get_elem?-set (x ∷ xs) zero zero v h = refl
  get_elem?-set (x ∷ xs) zero (suc j) v h = ground arith
  get_elem?-set (x ∷ xs) (suc i) zero v h = ground arith
  get_elem?-set (x ∷ xs) (suc i) (suc j) v h = ground (arith, get_elem?-set xs i j v)

  length-mix_channels :
      (current following : List F.Sample) (gain : F.Sample) (n index : ℕ) (output : List F.Sample)
      → length (mix_channels current following gain n index output) ≡ length output
  unfolding mix_channels
  length-mix_channels current following gain zero index output = refl
  length-mix_channels current following gain (suc n) index output = omega (
    arith,
    length-mix_channels current following gain n (index + 1)
        (set output index (mixed current following gain index)),
    length-set output index (mixed current following gain index),
  )

  get_elem?-mix_channels :
      (current following : List F.Sample) (gain : F.Sample) (n index i : ℕ) (output : List F.Sample)
      → index + n ≤ length output
      → get_elem? (mix_channels current following gain n index output) i ≡ (
          if not (ltb i index) && ltb i (index + n)
          then some (mixed current following gain i)
          else get_elem? output i)
  unfolding mix_channels
  get_elem?-mix_channels current following gain zero index i output h = ground arith
  get_elem?-mix_channels current following gain (suc n) index i output h =
      let sample = mixed current following gain index in
      let room : index + 1 + n ≤ length (set output index sample) =
        omega (arith, h, length-set output index sample) in
      let rest =
        get_elem?-mix_channels current following gain n (index + 1) i (set output index sample)
          room in
      let written = get_elem?-set output index i sample (omega arith) in
      elim (Bool-cases (index == i)) [
        | inl same ↦
            let here : index ≡ i = ground arith in
            rest ∙ ground (arith, written, ap (λ k. mixed current following gain k) here)
        | inr other ↦ rest ∙ ground (arith, written)
      ]

  get_elem?-mix_frames :
      (channels frames : ℕ) (current following : List F.Sample) (n frame i : ℕ)
      (output : List F.Sample)
      → 0 < channels
      → (frame + n) * channels ≤ length output
      → get_elem? (mix_frames channels current following frames n frame output) i ≡ (
          if not (ltb i (frame * channels)) && ltb i ((frame + n) * channels)
          then some (mixed current following (progress frames (i / channels)) i)
          else get_elem? output i)
  unfolding mix_frames
  get_elem?-mix_frames channels frames current following zero frame i output c h = ground arith
  get_elem?-mix_frames channels frames current following (suc n) frame i output c h =
      let gain = progress frames frame in
      let output' = mix_channels current following gain channels (frame * channels) output in
      let one : (frame + 1) * channels ≡ frame * channels + channels = omega arith in
      let all : (frame + suc n) * channels ≡ frame * channels + channels + n * channels =
        omega arith in
      let all' : (frame + 1 + n) * channels ≡ frame * channels + channels + n * channels =
        omega arith in
      let room : (frame + 1 + n) * channels ≤ length output' = omega (
        arith,
        h,
        all,
        all',
        length-mix_channels current following gain channels (frame * channels) output,
      ) in
      let rest =
        get_elem?-mix_frames channels frames current following n (frame + 1) i output' c room in
      let here =
        get_elem?-mix_channels current following gain channels (frame * channels) i output
          (omega (arith, h, all)) in
      elim (Bool-cases (not (ltb i (frame * channels)) && ltb i (frame * channels + channels))) [
        | inl inside ↦
            let low : frame * channels ≤ i = ground arith in
            let high : i < (frame + 1) * channels = ground (arith, one) in
            let at : i / channels ≡ frame = div-eq_of_lt-le channels low high in
            rest
            ∙ ground (
              arith,
              here,
              one,
              all,
              all',
              ap (λ k. mixed current following (progress frames k) i) at,
            )
        | inr outside ↦ rest ∙ ground (arith, here, one, all, all')
      ]

  -- The mixer answered with a list as long as its output, which holds the mix of its index where one of the
  -- frames covers it, at the gain of the frame, and what stood there everywhere else.
  abbrev pub Mixes : ℕ → ℕ → List F.Sample → List F.Sample → List F.Sample → List F.Sample → Type 0
  Mixes channels frames current following output mixed_output =
      (length mixed_output ≡ length output)
      × ((i : ℕ)
          → get_elem? mixed_output i ≡ (
              if ltb i (frames * channels)
              then some (mixed current following (progress frames (i / channels)) i)
              else get_elem? output i))

  length-mix_frames :
      (channels frames : ℕ) (current following : List F.Sample) (n frame : ℕ)
      (output : List F.Sample)
      → length (mix_frames channels current following frames n frame output) ≡ length output
  unfolding mix_frames
  length-mix_frames channels frames current following zero frame output = refl
  length-mix_frames channels frames current following (suc n) frame output =
      length-mix_frames channels frames current following n (frame + 1) _
      ∙ length-mix_channels current following (progress frames frame) channels (frame * channels)
          output

  -- With at least one channel and frame-aligned slices, at a number of samples that is a machine word and fits
  -- into the output, the mixer succeeds, and every sample of its output is the mix of its index, at the gain of
  -- its frame, below the frames asked for, and untouched above them.
  pub mix_into-Mixes :
      (channels frames : ℕ) (current following output : List F.Sample)
      → 0 < channels
      → length current % channels ≡ 0
      → length following % channels ≡ 0
      → length output % channels ≡ 0
      → frames * channels ≤ length output
      → length output ≤ u64_max
      → (r : List F.Sample) × (mix_into channels current following output frames ≡ ok r)
        × Mixes channels frames current following output r
  unfolding mix_into
  mix_into-Mixes channels frames current following output c a b d fits w = (
    mix_frames channels current following frames frames 0 output,
    ground arith,
    (
      length-mix_frames channels frames current following frames 0 output,
      λ i.
          get_elem?-mix_frames channels frames current following frames 0 i output c
            (omega (arith, fits))
          ∙ ground arith,
    ),
  )
