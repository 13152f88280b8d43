-- ===== src/Audio/Pcm.antt =====
-- core/aurorix-audio/src/pcm.rs: the interleaved block of fixed capacity. A sample is the bit pattern of its
-- `f32`, as the atomic cells hold it, so that `to_bits` and `from_bits` are the identity.
use aurorix_music.Prelude.{
  ℕ, zero, suc, ◌-◌, ◌*◌, ◌/◌, ◌%◌, min, Bool, not, Option, none, some, List, [], ◌∷◌, ◌==◌, ltb,
  if◌then◌else◌, length, get_elem?,
}
use aurorix_music.Prelude.Exec.{Result, ok, err}
use aurorix_music.Prelude.Word.{checked_mul}

pub record PcmFormat : Type 0 where
  pub sample_rate_hz : ℕ
  pub channels : ℕ

abbrev pub sample_count_for_frames : PcmFormat → ℕ → Option ℕ
sample_count_for_frames f frames = checked_mul frames f.channels

pub data PcmError : Type 0 where
  zero_capacity sample_count_overflow : PcmError
  frame_count_exceeds_capacity : ℕ → ℕ → PcmError
  sample_count_not_frame_aligned : ℕ → ℕ → PcmError

pub record AudioBlock : Type 0 where
  pub format : PcmFormat
  pub capacity_frames : ℕ
  pub valid_frames : ℕ
  pub generation : ℕ
  pub samples : List ℕ

-- `n` cells that hold zero.
unfoldable pub zeroes : ℕ → List ℕ
zeroes zero = []
zeroes (suc n) = 0 ∷ zeroes n

unfoldable pub new : PcmFormat → ℕ → Result PcmError AudioBlock
unfolding zeroes
new format capacity =
    if capacity == 0 then err zero_capacity else elim (sample_count_for_frames format capacity) [
      | none ↦ err sample_count_overflow
      | some n ↦ ok (record {
        format = format;
        capacity_frames = capacity;
        valid_frames = 0;
        generation = 0;
        samples = zeroes n;
      })
    ]

abbrev pub valid_sample_count : AudioBlock → ℕ
valid_sample_count b = b.valid_frames * b.format.channels

abbrev pub is_empty : AudioBlock → Bool
is_empty b = b.valid_frames == 0

unfoldable pub sample_at : AudioBlock → ℕ → Option ℕ
sample_at b i = if ltb i (valid_sample_count b) then get_elem? b.samples i else none

unfoldable pub set_valid_frames : ℕ → AudioBlock → Result PcmError (Unit {0}) × AudioBlock
set_valid_frames frames b =
    if ltb b.capacity_frames frames
    then (err (frame_count_exceeds_capacity frames b.capacity_frames), b)
    else (ok tt, record b { valid_frames = frames })

-- The stores through `zip`: cells and values side by side, as far as both go.
unfoldable pub overwrite : List ℕ → List ℕ → List ℕ
overwrite cells [] = cells
overwrite [] (v ∷ vs) = []
overwrite (c ∷ cells) (v ∷ vs) = v ∷ overwrite cells vs

unfoldable pub write_interleaved : List ℕ → AudioBlock → Result PcmError ℕ × AudioBlock
unfolding overwrite
write_interleaved values b =
    let channels = b.format.channels in
    if not (length values % channels == 0)
    then (err (sample_count_not_frame_aligned (length values) channels), b)
    else (let frames = length values / channels in
        if ltb b.capacity_frames frames
        then (err (frame_count_exceeds_capacity frames b.capacity_frames), b)
        else (ok frames, record b { samples = overwrite b.samples values; valid_frames = frames }))

-- `slice[from..]` and `slice[..n]`.
unfoldable pub drop : ℕ → List ℕ → List ℕ
drop zero xs = xs
drop (suc n) [] = []
drop (suc n) (x ∷ xs) = drop n xs

unfoldable pub take : ℕ → List ℕ → List ℕ
take zero xs = []
take (suc n) [] = []
take (suc n) (x ∷ xs) = x ∷ take n xs

-- The result and the destination as it is left.
unfoldable pub copy_frames_to : AudioBlock → ℕ → List ℕ → Result PcmError ℕ × List ℕ
unfolding overwrite drop take
copy_frames_to b offset destination =
    let channels = b.format.channels in
    if not (length destination % channels == 0)
    then (err (sample_count_not_frame_aligned (length destination) channels), destination)
    else (let frames = min (b.valid_frames - offset) (length destination / channels) in
        (
          ok frames,
          overwrite destination (take (frames * channels) (drop (offset * channels) b.samples)),
        ))

unfoldable pub copy_to : AudioBlock → List ℕ → Result PcmError ℕ × List ℕ
copy_to b destination = copy_frames_to b 0 destination

abbrev pub reset : ℕ → AudioBlock → AudioBlock
reset generation b = record b { valid_frames = 0; generation = generation }

unfoldable pub clear_valid_samples : AudioBlock → AudioBlock
unfolding overwrite zeroes
clear_valid_samples b = record b {
  samples = overwrite b.samples (zeroes (valid_sample_count b));
  valid_frames = 0;
}
