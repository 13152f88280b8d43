-- ===== src/Playback/Examples/Timeline.antt =====
-- The presentation clock at 44.1 kHz.
use aurorix_music.Prelude.{◌+◌, ◌≡◌, refl, false, none, arith}
use aurorix_music.Prelude.Exec.{ok}
use aurorix_music.Playback.Clock.{
  PresentationClock, normal_rate, position_for_frames, advance_rendered_frames,
}
use aurorix_music.Playback.Clock.Timeline.{
  IsValid, seek, call, call-IsValid, advance_split, Advances, advance-Advances,
}

abbrev pub clock_44k : PresentationClock
clock_44k = record {
  clock_epoch = 0;
  rendered_frames = 0;
  media_position_us = 0;
  playback_rate = normal_rate;
  output_sample_rate = 44100;
  estimated_output_latency_frames = 0;
  discontinuity = false;
  discontinuity_reason = none;
  timeline_base_position_us = 0;
}

pub clock_44k-IsValid : IsValid clock_44k
clock_44k-IsValid = omega arith

call-IsValid_example : IsValid (call (seek 5000000) clock_44k).1
call-IsValid_example = call-IsValid (seek 5000000) clock_44k (omega arith) clock_44k-IsValid

-- 50 frames are 1133 microseconds and 100 frames are 2267, one more than twice as many.
after_50 : (advance_rendered_frames 50 clock_44k).1.media_position_us ≡ 1133
unfolding advance_rendered_frames position_for_frames
after_50 = refl

advance_split_example :
    advance_rendered_frames (50 + 50) clock_44k
    ≡ (ok tt, record clock_44k { rendered_frames = 100; media_position_us = 2267 })
unfolding advance_rendered_frames position_for_frames
advance_split_example =
    advance_split 50 50 clock_44k
      (record clock_44k { rendered_frames = 50; media_position_us = 1133 })
      (record clock_44k { rendered_frames = 100; media_position_us = 2267 }) refl refl

advance-Advances_example : Advances 50 clock_44k (advance_rendered_frames 50 clock_44k)
advance-Advances_example = advance-Advances 50 clock_44k clock_44k-IsValid
