-- ===== src/Audio/Signals.antt =====
-- core/aurorix-audio/src/realtime.rs: the clock sample, the faults and the signals of the callback. Each method is one
-- call.
use aurorix_music.Prelude.{ℕ, Bool, true, false, Option, none, some, ◌==◌, if◌then◌else◌}
use aurorix_music.Prelude.Word.{wrapping_add}

pub record CompactClockSample : Type 0 where
  pub clock_epoch : ℕ
  pub rendered_frames : ℕ
  pub media_position_frames : ℕ
  pub output_sample_rate_hz : ℕ
  pub estimated_output_latency_frames : ℕ

abbrev pub new_sample : ℕ → ℕ → ℕ → ℕ → CompactClockSample
new_sample epoch position rate latency = record {
  clock_epoch = epoch;
  rendered_frames = 0;
  media_position_frames = position;
  output_sample_rate_hz = rate;
  estimated_output_latency_frames = latency;
}

pub data RealtimeFault : Type 0 where
  output_frame_misalignment stale_block decoder_failure output_unavailable : RealtimeFault

abbrev pub no_fault : ℕ
no_fault = 0

unfoldable pub code : RealtimeFault → ℕ
code output_frame_misalignment = 1
code stale_block = 2
code decoder_failure = 3
code output_unavailable = 4

unfoldable pub from_code : ℕ → Option RealtimeFault
from_code c =
    if c == 1
    then some output_frame_misalignment
    else if c == 2
    then some stale_block
    else if c == 3
    then some decoder_failure
    else if c == 4
    then some output_unavailable
    else none

pub record RealtimeSignals : Type 0 where
  pub underrun_pending : Bool
  pub underrun_sequence : ℕ
  pub latest_missing_frames : ℕ
  pub fault : ℕ

abbrev pub no_signals : RealtimeSignals
no_signals = record {
  underrun_pending = false;
  underrun_sequence = 0;
  latest_missing_frames = 0;
  fault = no_fault;
}

unfoldable pub publish_underrun : ℕ → RealtimeSignals → RealtimeSignals
publish_underrun missing s = record s {
  latest_missing_frames = missing;
  underrun_sequence = wrapping_add s.underrun_sequence 1;
  underrun_pending = true;
}

unfoldable pub publish_fault : RealtimeFault → RealtimeSignals → RealtimeSignals
unfolding code
publish_fault f s = if s.fault == no_fault then record s { fault = code f } else s

pub record UnderrunSignal : Type 0 where
  pub sequence : ℕ
  pub missing_frames : ℕ

unfoldable pub take_underrun : RealtimeSignals → Option UnderrunSignal × RealtimeSignals
take_underrun s = (
  if s.underrun_pending
      then some
          (record { sequence = s.underrun_sequence; missing_frames = s.latest_missing_frames })
      else none,
  record s { underrun_pending = false },
)

unfoldable pub take_fault : RealtimeSignals → Option RealtimeFault × RealtimeSignals
unfolding from_code
take_fault s = (from_code s.fault, record s { fault = no_fault })
