-- ===== src/Playback/Transition.antt =====
-- core/aurorix-playback/src/transition.rs: the prebuffer, the facts of a prepared item and the planner of
-- transitions.
pub mod Planning
pub mod Mixer
use aurorix_music.Prelude.{
  ℕ, ◌-◌, ◌/◌, Bool, true, false, ◌&&◌, not, Option, none, some, ◌==◌, leb, ltb, if◌then◌else◌,
}
use aurorix_music.Prelude.Exec.{Result, ok, err}
use aurorix_music.Prelude.Word.{checked_add, checked_mul, saturating_add, saturating_mul}

pub data TransitionError : Type 0 where
  invalid_sample_rate invalid_channel_count frame_count_overflow : TransitionError
  misaligned_samples : TransitionError
  output_too_short : ℕ → ℕ → TransitionError

pub record PrebufferTarget : Type 0 where
  pub sample_rate_hz : ℕ
  pub target_frames : ℕ

unfoldable pub from_milliseconds : ℕ → ℕ → Result TransitionError PrebufferTarget
from_milliseconds rate ms =
    if rate == 0 then err invalid_sample_rate else elim (checked_mul rate ms) [
      | none ↦ err frame_count_overflow
      | some numerator ↦ elim (checked_add numerator 999) [
        | none ↦ err frame_count_overflow
        | some rounded ↦ ok (record { sample_rate_hz = rate; target_frames = rounded / 1000 })
      ]
    ]

pub record PrebufferState : Type 0 where
  pub buffered_frames : ℕ
  pub target : PrebufferTarget

abbrev pub new_prebuffer : PrebufferTarget → PrebufferState
new_prebuffer target = record { buffered_frames = 0; target = target }

abbrev pub set_buffered_frames : ℕ → PrebufferState → PrebufferState
set_buffered_frames frames b = record b { buffered_frames = frames }

unfoldable pub add_buffered_frames : ℕ → PrebufferState → PrebufferState
add_buffered_frames frames b = record b {
  buffered_frames = saturating_add b.buffered_frames frames;
}

unfoldable pub consume_frames : ℕ → PrebufferState → PrebufferState
consume_frames frames b = record b { buffered_frames = b.buffered_frames - frames }

abbrev pub is_ready : PrebufferState → Bool
is_ready b = leb b.target.target_frames b.buffered_frames

unfoldable pub fill_ratio_millionths : PrebufferState → ℕ
fill_ratio_millionths b =
    if b.target.target_frames == 0
    then 1000000
    else (let ratio = saturating_mul b.buffered_frames 1000000 / b.target.target_frames in
        if ltb 1000000 ratio then 1000000 else ratio)

pub record CodecDelayPadding : Type 0 where
  pub decoder_delay_frames : ℕ
  pub encoder_padding_frames : ℕ
  pub is_known : Bool

abbrev pub known : ℕ → ℕ → CodecDelayPadding
known delay padding = record {
  decoder_delay_frames = delay;
  encoder_padding_frames = padding;
  is_known = true;
}

abbrev pub unknown : CodecDelayPadding
unknown = record { decoder_delay_frames = 0; encoder_padding_frames = 0; is_known = false }

pub record PreparedNext : Type 0 where
  pub item_index : ℕ
  pub buffer_generation : ℕ
  pub prebuffer : PrebufferState
  pub delay_padding : CodecDelayPadding

abbrev pub gapless_ready : PreparedNext → Bool
gapless_ready n = is_ready n.prebuffer && n.delay_padding.is_known

pub record CrossfadePolicy : Type 0 where
  pub enabled : Bool
  pub duration_ms : ℕ

unfoldable pub new_crossfade : Bool → ℕ → CrossfadePolicy
new_crossfade enabled duration = record {
  enabled = enabled && not (duration == 0);
  duration_ms = if enabled then duration else 0;
}

pub data TransitionDecision : Type 0 where
  gapless : ℕ → TransitionDecision
  crossfade : ℕ → ℕ → TransitionDecision
  buffering no_transition : TransitionDecision

abbrev pub decision_index : TransitionDecision → Option ℕ
decision_index (gapless i) = some i
decision_index (crossfade i _) = some i
decision_index _ = none

abbrev pub is_mixed_dsp : TransitionDecision → Bool
is_mixed_dsp (crossfade _ _) = true
is_mixed_dsp _ = false

abbrev pub bit_perfect_eligible : TransitionDecision → Bool
bit_perfect_eligible (gapless _) = true
bit_perfect_eligible _ = false

-- `TransitionPlanner::decide`; a planner is its crossfade policy.
unfoldable pub decide : CrossfadePolicy → ℕ → Option PreparedNext → TransitionDecision
decide policy generation none = no_transition
decide policy generation (some n) =
    if not (n.buffer_generation == generation)
    then buffering
    else if policy.enabled
    then (if is_ready n.prebuffer then crossfade n.item_index policy.duration_ms else buffering)
    else if gapless_ready n
    then gapless n.item_index
    else buffering
