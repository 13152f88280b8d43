-- ===== src/Audio/Examples.antt =====
-- A pool of two slots of four frames in stereo, and a callback that renders from it.
mod Clock
mod Exchange
use aurorix_music.Prelude.{
  ℕ, ◌+◌, ◌≡◌, ◌≢◌, ◌≤◌, inl, refl, true, false, none, some, List, [], ◌∷◌, ◌++◌, ◌==◌,
  if◌then◌else◌, ◌*◌, ◌%◌, arith,
}
use aurorix_music.Prelude.Exec.{ok}
use aurorix_music.Audio.Pcm.{PcmFormat, AudioBlock, zeroes, take, drop}
use aurorix_music.Audio.Pcm
use aurorix_music.Audio.Buffer.{
  AudioBuffer, vacant, ready, new, try_advance_generation, try_acquire, lease_write, lease_publish,
}
use aurorix_music.Audio.Buffer.Steps.{
  Choice, asks, advances, Thread, produces, first_coordinates, Coordinator, run, step, initial,
  coordinator_step,
}
use aurorix_music.Audio.Buffer.Invariant.{writes_slot, reads_slot, owns_flag}
use aurorix_music.Audio.Buffer.Exclusion.{
  is_emptying, AreApart, AreCurrent, reset_excludes, owners_apart, loans_current,
}
use aurorix_music.Audio.Buffer.Alone.{coordinate, advance_alone}
use aurorix_music.Audio.Buffer.Lowering.{generation_falls}
use aurorix_music.Audio.Realtime.{RealtimeConsumer, render}
use aurorix_music.Audio.Realtime.Stream.{pending, queued, slot_samples}
use aurorix_music.Audio.Realtime.Rounds.{IsReadable, IsPlayable}
use aurorix_music.Audio.Realtime.Player.{serve}
use aurorix_music.Audio.Realtime.Serving.{Serves, render-Serves}
use aurorix_music.Audio.Realtime.Feeding.{taken, leased, fed, feed_lem}

abbrev pub stereo : PcmFormat
stereo = record { sample_rate_hz = 48000; channels = 2 }

abbrev blank : AudioBlock
blank = record {
  format = stereo;
  capacity_frames = 4;
  valid_frames = 0;
  generation = 0;
  samples = 0 ∷ 0 ∷ 0 ∷ 0 ∷ 0 ∷ 0 ∷ 0 ∷ 0 ∷ [];
}

abbrev pub pool : AudioBuffer
pool = record {
  format = stereo;
  slot_count = 2;
  slots = λ i. record { state = vacant; block = blank };
  capacity_frames_per_block = 4;
  generation = 0;
  resetting = false;
  endpoint_entries = 0;
}

pub pool_made : new stereo 2 4 ≡ ok pool
unfolding new Pcm.new zeroes
pool_made = refl

-- The first coordinator asks for generation 5 and comes to empty the slots; the producer tries to enter meanwhile.
abbrev resetting_schedule : List (Thread × Choice)
resetting_schedule =
    (first_coordinates, asks 5)
    ∷ (first_coordinates, advances)
    ∷ (produces, advances)
    ∷ (first_coordinates, advances)
    ∷ (first_coordinates, advances)
    ∷ (first_coordinates, advances)
    ∷ (first_coordinates, advances)
    ∷ (first_coordinates, advances)
    ∷ []

emptying_reached : is_emptying (run (initial pool) resetting_schedule).first ≡ true
unfolding run step
emptying_reached = refl

reset_excludes_example :
    (writes_slot (run (initial pool) resetting_schedule).producer ≡ false)
    × (reads_slot (run (initial pool) resetting_schedule).consumer ≡ false)
    × (owns_flag (run (initial pool) resetting_schedule).first
          + owns_flag (run (initial pool) resetting_schedule).second
        ≡ 1)
reset_excludes_example =
    reset_excludes stereo 2 4 pool_made resetting_schedule (inl emptying_reached)

-- The producer claims the first slot.
abbrev claiming_schedule : List (Thread × Choice)
claiming_schedule =
    (produces, advances)
    ∷ (produces, advances)
    ∷ (produces, advances)
    ∷ (produces, advances)
    ∷ (produces, advances)
    ∷ (produces, advances)
    ∷ (produces, advances)
    ∷ []

owners_apart_example : AreApart (run (initial pool) claiming_schedule)
owners_apart_example = owners_apart stereo 2 4 pool_made claiming_schedule

loans_current_example : AreCurrent (run (initial pool) claiming_schedule)
loans_current_example = loans_current stereo 2 4 pool_made claiming_schedule

advance_alone_example :
    (m : ℕ) × (coordinate m (coordinator_step (asks 5) pool Coordinator.idle)
      ≡ ((try_advance_generation 5 pool).1, Coordinator.idle))
    × (m ≤ 3 * pool.slot_count + 6)
advance_alone_example = advance_alone 5 pool

generation_falls_example :
    (before after : List (Thread × Choice)) × ((run (initial pool) before).buffer.generation ≡ 9)
    × ((run (initial pool) (before ++ after)).buffer.generation ≡ 4)
generation_falls_example = generation_falls stereo 2 4 pool_made 4 9 (omega arith) (omega arith)

-- The first slot holds two frames.
abbrev two_frames : AudioBlock
two_frames = record blank { valid_frames = 2; samples = 11 ∷ 12 ∷ 13 ∷ 14 ∷ 0 ∷ 0 ∷ 0 ∷ 0 ∷ [] }

abbrev filled : AudioBuffer
filled = record pool {
  slots = λ i.
      if i == 0
      then record { state = ready; block = two_frames }
      else record { state = vacant; block = blank };
}

abbrev pub callback : RealtimeConsumer
callback = record {
  buffer = filled;
  clock = record {
    clock_epoch = 1;
    rendered_frames = 0;
    media_position_frames = 0;
    output_sample_rate_hz = 48000;
    estimated_output_latency_frames = 0;
  };
  signals = record {
    underrun_pending = false;
    underrun_sequence = 0;
    latest_missing_frames = 0;
    fault = 0;
  };
  next_slot = 0;
  active = none;
  timeline = record {
    clock_epoch = 1;
    media_position_frames = 0;
    estimated_output_latency_frames = 0;
  };
  rendered_frames = 0;
}

filled-IsPlayable : (j : ℕ) → (filled.slots j).state ≡ ready → IsPlayable filled j
filled-IsPlayable j h = ground (arith, h)

callback-IsReadable : IsReadable callback
callback-IsReadable = record {
  channels = omega arith;
  next_lt = omega arith;
  open_pool = refl;
  blocks = filled-IsPlayable;
  held = tt;
}

-- An output of three frames, of which the pool has two.
abbrev slice : List ℕ
slice = 7 ∷ 7 ∷ 7 ∷ 7 ∷ 7 ∷ 7 ∷ []

render-Serves_example : Serves 6 callback (render slice callback)
render-Serves_example = render-Serves slice callback callback-IsReadable refl

abbrev four_samples : List ℕ
four_samples = 21 ∷ 22 ∷ 23 ∷ 24 ∷ []

feed_lem_example :
    (try_acquire 1 filled ≡ (some (taken filled 1), leased filled 1))
    × (lease_publish
          (taken filled 1)
          1
          (lease_write four_samples (taken filled 1) (leased filled 1)).1
        ≡ (ok tt, (1 + 1) % 2, fed filled 1 four_samples))
    × (((fed filled 1 four_samples).slots 1).state ≡ ready)
    × IsPlayable (fed filled 1 four_samples) 1
    × (slot_samples (fed filled 1 four_samples) 1 ≡ four_samples)
    × ((j : ℕ) → j ≢ 1 → (fed filled 1 four_samples).slots j ≡ filled.slots j)
feed_lem_example =
    feed_lem filled 1 four_samples refl refl (omega arith) refl (omega arith) refl (omega arith)
      (omega arith)
