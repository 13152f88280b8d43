-- ===== src/Audio/Realtime.antt =====
-- core/aurorix-audio/src/realtime.rs: what the callback reads from the pool and what it publishes. Each method is one
-- call, and the pool, the clock and the signals that an endpoint shares are fields of its state.
pub mod Stream
pub mod Slices
pub mod Rounds
pub mod Copying
pub mod Rendering
pub mod Player
pub mod Serving
pub mod Feeding
pub mod Ring
pub mod Keeping
pub mod Appending
pub mod Exchange
pub mod Measure
pub mod Ending
use aurorix_music.Prelude.{
  ℕ, zero, suc, ◌+◌, ◌-◌, ◌*◌, ◌/◌, ◌%◌, ◌^◌, min, Bool, true, false, not, ◌&&◌, Option, none, some,
  List, [], ◌∷◌, ◌++◌, ◌==◌, leb, ltb, if◌then◌else◌, length,
}
use aurorix_music.Prelude.Exec.{Result, ok, err}
use aurorix_music.Prelude.Word.{saturating_add, wrapping_add}
use aurorix_music.Audio.Pcm.{PcmError, zeroes, drop, take, copy_frames_to}
use aurorix_music.Audio.Buffer.{AudioBuffer, ReadyBlock, try_begin_render, finish_render}
use aurorix_music.Audio.Signals.{
  output_frame_misalignment, stale_block, CompactClockSample, new_sample, RealtimeFault, no_fault,
  code, from_code, RealtimeSignals, no_signals, publish_underrun, publish_fault, UnderrunSignal,
  take_underrun, take_fault,
}

pub record RealtimeTimeline : Type 0 where
  pub clock_epoch : ℕ
  pub media_position_frames : ℕ
  pub estimated_output_latency_frames : ℕ

pub record ActiveBlock : Type 0 where
  pub ready : ReadyBlock
  pub consumed_frames : ℕ

pub record RenderOutcome : Type 0 where
  pub requested_frames : ℕ
  pub rendered_media_frames : ℕ
  pub silent_frames : ℕ
  pub discarded_stale_blocks : ℕ
  pub output_frame_aligned : Bool

-- The clock is the sample that it holds.
pub record RealtimeConsumer : Type 0 where
  pub buffer : AudioBuffer
  pub clock : CompactClockSample
  pub signals : RealtimeSignals
  pub next_slot : ℕ
  pub active : Option ActiveBlock
  pub timeline : RealtimeTimeline
  pub rendered_frames : ℕ

abbrev pub new_consumer :
    AudioBuffer → CompactClockSample → RealtimeSignals → RealtimeTimeline → RealtimeConsumer
new_consumer buffer clock signals timeline = record {
  buffer = buffer;
  clock = clock;
  signals = signals;
  next_slot = 0;
  active = none;
  timeline = timeline;
  rendered_frames = 0;
}

unfoldable pub release_active_block : RealtimeConsumer → RealtimeConsumer
release_active_block c = elim c.active [
  | none ↦ c
  | some a ↦ record c { buffer = finish_render a.ready.index c.buffer; active = none }
]

unfoldable pub reset_timeline : RealtimeTimeline → RealtimeConsumer → RealtimeConsumer
unfolding release_active_block
reset_timeline timeline c = record (release_active_block c) {
  timeline = timeline;
  rendered_frames = 0;
}

unfoldable pub publish_clock : ℕ → ℕ → RealtimeConsumer → RealtimeConsumer
publish_clock output_frames media_frames c =
    let rendered = saturating_add c.rendered_frames output_frames in
    let position = saturating_add c.timeline.media_position_frames media_frames in
    record c {
      rendered_frames = rendered;
      timeline = record (c.timeline) { media_position_frames = position };
      clock = record {
        clock_epoch = c.timeline.clock_epoch;
        rendered_frames = rendered;
        media_position_frames = position;
        output_sample_rate_hz = c.buffer.format.sample_rate_hz;
        estimated_output_latency_frames = c.timeline.estimated_output_latency_frames;
      };
    }

-- The variables of the loop in `render`.
pub record RenderLoop : Type 0 where
  pub consumer : RealtimeConsumer
  pub output : List ℕ
  pub copied_frames : ℕ
  pub discarded_stale_blocks : ℕ

abbrev pub with_fault : RealtimeFault → RealtimeConsumer → RealtimeConsumer
with_fault f c = record c { signals = publish_fault f c.signals }

unfoldable pub try_acquire_active_block : RenderLoop → Bool × RenderLoop
unfolding try_begin_render
try_acquire_active_block s =
    let c = s.consumer in
    let (ready, b) = try_begin_render c.next_slot c.buffer in
    elim ready [
      | none ↦ (false, record s { consumer = record c { buffer = b } })
      | some block ↦
          let moved = record c { buffer = b; next_slot = (c.next_slot + 1) % b.slot_count } in
          (
            true,
            if not (block.generation == b.generation)
                then record s {
                  consumer =
                      with_fault stale_block
                        (record moved { buffer = finish_render block.index b });
                  discarded_stale_blocks = s.discarded_stale_blocks + 1;
                }
                else record s {
                  consumer = record moved {
                    active = some (record { ready = block; consumed_frames = 0 });
                  };
                },
          )
    ]

abbrev pub finish_active : ActiveBlock → RealtimeConsumer → RealtimeConsumer
finish_active a c = record c { buffer = finish_render a.ready.index c.buffer; active = none }

-- The block after `copied` more frames of it.
abbrev pub advance_active : ActiveBlock → ℕ → RealtimeConsumer → RealtimeConsumer
advance_active a copied c =
    if leb a.ready.valid_frames (a.consumed_frames + copied)
    then finish_active a c
    else record c { active = some (record a { consumed_frames = a.consumed_frames + copied }) }

-- The body of the loop with what came of the copy: its result, and the destination as it is left.
unfoldable pub take_copied :
    ℕ → ActiveBlock → Result PcmError ℕ × List ℕ → RenderLoop → Bool × RenderLoop
take_copied requested a (err _, filled) s = (
  false,
  record s { consumer = finish_active a (with_fault output_frame_misalignment s.consumer) },
)
take_copied requested a (ok n, filled) s =
    if n == 0 then (true, record s { consumer = finish_active a s.consumer }) else (
      true,
      record s {
        consumer = advance_active a n s.consumer;
        output =
            take (s.copied_frames * s.consumer.buffer.format.channels) s.output
            ++ filled
            ++ drop (requested * s.consumer.buffer.format.channels) s.output;
        copied_frames = s.copied_frames + n;
      },
    )

-- The body of the loop from the check of the generation on, and whether it goes on.
unfoldable pub copy_active : ℕ → ActiveBlock → RenderLoop → Bool × RenderLoop
copy_active requested a s =
    let c = s.consumer in
    if not (a.ready.generation == c.buffer.generation)
    then (
      true,
      record s {
        consumer = with_fault stale_block (finish_active a c);
        discarded_stale_blocks = s.discarded_stale_blocks + 1;
      },
    )
    else (let channels = c.buffer.format.channels in
        let start = s.copied_frames * channels in
        take_copied requested a
          (copy_frames_to (c.buffer.slots a.ready.index).block a.consumed_frames
            (drop start (take (requested * channels) s.output)))
          s)

-- The block at hand, or the next one.
unfoldable pub hold_active : Option ActiveBlock → RenderLoop → Bool × RenderLoop
hold_active (some _) s = (true, s)
hold_active none s = try_acquire_active_block s

-- The loop's body from the acquisition on.
unfoldable pub go_on : ℕ → Bool × RenderLoop → Bool × RenderLoop
go_on requested (acquired, s) =
    if not acquired
    then (false, s)
    else elim s.consumer.active [ none ↦ (true, s) | some a ↦ copy_active requested a s ]

-- The body of the loop.
unfoldable pub render_round : ℕ → RenderLoop → Bool × RenderLoop
render_round requested s = go_on requested (hold_active s.consumer.active s)

unfoldable pub render_loop : ℕ → ℕ → RenderLoop → RenderLoop
render_loop zero requested s = s
render_loop (suc fuel) requested s = elim (ltb s.copied_frames requested) [
  | false ↦ s
  | true ↦
      let (again, s') = render_round requested s in
      elim again [ true ↦ render_loop fuel requested s' | false ↦ s' ]
]

-- A round copies a frame, gives a slot back, or ends the loop.
abbrev pub render_fuel : ℕ → AudioBuffer → ℕ
render_fuel requested b = requested + b.slot_count + 2

-- `render` from the end of its loop on.
unfoldable pub conclude : ℕ → RenderLoop → RenderOutcome × List ℕ × RealtimeConsumer
conclude requested s =
    let silent = requested - s.copied_frames in
    let signalled =
      if ltb 0 silent
      then record (s.consumer) {
        signals = publish_underrun (min silent (2 ^ 32 - 1)) s.consumer.signals;
      }
      else s.consumer in
    (
      record {
        requested_frames = requested;
        rendered_media_frames = s.copied_frames;
        silent_frames = silent;
        discarded_stale_blocks = s.discarded_stale_blocks;
        output_frame_aligned = true;
      },
      s.output,
      publish_clock requested s.copied_frames signalled,
    )

-- The loop's variables as `render` starts it, for an output of `n` samples.
abbrev pub begin : ℕ → RealtimeConsumer → RenderLoop
begin n c = record {
  consumer = c;
  output = zeroes n;
  copied_frames = 0;
  discarded_stale_blocks = 0;
}

-- The outcome and the output as it is left, for an output slice of the length given.
unfoldable pub render : List ℕ → RealtimeConsumer → RenderOutcome × List ℕ × RealtimeConsumer
render slice c =
    let channels = c.buffer.format.channels in
    let requested = length slice / channels in
    if not (length slice % channels == 0)
    then (
      record {
        requested_frames = requested;
        rendered_media_frames = 0;
        silent_frames = requested;
        discarded_stale_blocks = 0;
        output_frame_aligned = false;
      },
      zeroes (length slice),
      publish_clock 0 0 (with_fault output_frame_misalignment c),
    )
    else conclude requested
        (render_loop (render_fuel requested c.buffer) requested (begin (length slice) c))
