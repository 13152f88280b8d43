-- ===== src/Playback/Clock.antt =====
-- core/aurorix-playback/src/clock.rs: the presentation clock. `PlaybackRate` is the number of
-- millionths it wraps.
pub mod Timeline
use aurorix_music.Prelude.{
  ℕ, ◌+◌, ◌*◌, ◌/◌, ◌^◌, ◌-◌, Bool, true, false, Option, none, some, ◌==◌, leb, if◌then◌else◌,
}
use aurorix_music.Prelude.Exec.{
  Result, ok, err, Exec, ◌>>=◌, ◌>>◌, pure, raise, gets, modify, ok_or,
}
use aurorix_music.Prelude.Word.{u64_max, checked_add}

pub data DiscontinuityReason : Type 0 where
  seek pause resume stop source_transition output_restart : DiscontinuityReason
  underrun_recovery playback_rate_changed sample_rate_changed : DiscontinuityReason

pub data ClockError : Type 0 where
  invalid_sample_rate invalid_playback_rate epoch_exhausted : ClockError
  frame_overflow position_overflow : ClockError

abbrev pub normal_rate : ℕ
normal_rate = 1000000

-- `PlaybackRate::from_millionths`.
pub from_millionths : ℕ → Result ClockError ℕ
from_millionths value = if value == 0 then err invalid_playback_rate else ok value

pub record PresentationClock : Type 0 where
  pub clock_epoch : ℕ
  pub rendered_frames : ℕ
  pub media_position_us : ℕ
  pub playback_rate : ℕ
  pub output_sample_rate : ℕ
  pub estimated_output_latency_frames : ℕ
  pub discontinuity : Bool
  pub discontinuity_reason : Option DiscontinuityReason
  pub timeline_base_position_us : ℕ

unfoldable pub with_latency : ℕ → ℕ → Result ClockError PresentationClock
with_latency rate latency =
    if rate == 0
    then err invalid_sample_rate
    else ok (record {
      clock_epoch = 0;
      rendered_frames = 0;
      media_position_us = 0;
      playback_rate = normal_rate;
      output_sample_rate = rate;
      estimated_output_latency_frames = latency;
      discontinuity = false;
      discontinuity_reason = none;
      timeline_base_position_us = 0;
    })

unfoldable pub new : ℕ → Result ClockError PresentationClock
unfolding with_latency
new rate = with_latency rate 0

abbrev M : Type 0
M = Exec PresentationClock ClockError (Unit {0})

abbrev u128_max : ℕ
u128_max = 2 ^ 128 - 1

-- `u128` arithmetic that reports an overflow.
abbrev within_u128 : ℕ → Result ClockError ℕ
within_u128 n = if leb n u128_max then ok n else err position_overflow

unfoldable pub position_for_frames : PresentationClock → ℕ → Result ClockError ℕ
position_for_frames c frames = elim (within_u128 (frames * c.playback_rate)) [
  | err e ↦ err e
  | ok product ↦ elim (within_u128 (c.timeline_base_position_us + product / c.output_sample_rate)) [
    | err e ↦ err e
    | ok position ↦ if leb position u64_max then ok position else err position_overflow
  ]
]

-- `expression?` on a value that needs no state.
abbrev lift : {A : Type 0} → Result ClockError A → Exec PresentationClock ClockError A
lift r c = (r, c)

unfoldable pub advance_rendered_frames : ℕ → M
advance_rendered_frames frames c =
    if frames == 0
    then (ok tt, c)
    else (do
      rendered ← ok_or frame_overflow (checked_add c.rendered_frames frames)
      position ← lift (position_for_frames c rendered)
      modify (λ c'. record c' { rendered_frames = rendered; media_position_us = position }))
        c

unfoldable pub begin_epoch : DiscontinuityReason → ℕ → M
begin_epoch reason position c =
    (do
      epoch ← ok_or epoch_exhausted (checked_add c.clock_epoch 1)
      modify (λ c'. record c' {
        clock_epoch = epoch;
        rendered_frames = 0;
        media_position_us = position;
        timeline_base_position_us = position;
        discontinuity = true;
        discontinuity_reason = some reason;
      }))
      c

-- The boundaries that the session marks.
unfoldable pub seek_to : ℕ → M
unfolding begin_epoch
seek_to position = begin_epoch seek position

unfoldable pub pause_boundary : M
unfolding begin_epoch
pause_boundary c = begin_epoch pause c.media_position_us c

unfoldable pub resume_boundary : M
unfolding begin_epoch
resume_boundary c = begin_epoch resume c.media_position_us c

unfoldable pub source_transition_to : ℕ → M
unfolding begin_epoch
source_transition_to position = begin_epoch source_transition position

unfoldable pub restart_output : M
unfolding begin_epoch
restart_output c = begin_epoch output_restart c.media_position_us c

unfoldable pub recover_underrun : M
unfolding begin_epoch
recover_underrun c = begin_epoch underrun_recovery c.media_position_us c

unfoldable pub stop_boundary : M
unfolding begin_epoch
stop_boundary = begin_epoch stop 0

unfoldable pub set_playback_rate : ℕ → M
unfolding begin_epoch
set_playback_rate rate c =
    if rate == c.playback_rate
    then (ok tt, c)
    else (do
      begin_epoch playback_rate_changed c.media_position_us
      modify (λ c'. record c' { playback_rate = rate }))
        c

unfoldable pub set_output_sample_rate : ℕ → M
unfolding begin_epoch
set_output_sample_rate rate c =
    if rate == 0
    then (err invalid_sample_rate, c)
    else if rate == c.output_sample_rate
    then (ok tt, c)
    else (do
      begin_epoch sample_rate_changed c.media_position_us
      modify (λ c'. record c' { output_sample_rate = rate }))
        c

unfoldable pub set_output_latency_frames : ℕ → PresentationClock → PresentationClock
set_output_latency_frames frames c = record c { estimated_output_latency_frames = frames }

unfoldable pub acknowledge_discontinuity : PresentationClock → PresentationClock
acknowledge_discontinuity c = record c { discontinuity = false; discontinuity_reason = none }
