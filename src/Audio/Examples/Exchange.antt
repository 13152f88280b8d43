-- ===== src/Audio/Examples/Exchange.antt =====
-- Three blocks for a pool of two slots, and three outputs.
use aurorix_music.Prelude.{ℕ, ◌≤◌, ◌==◌, if◌then◌else◌, ◌+◌, ◌≡◌, refl, List, [], ◌∷◌, arith}
use aurorix_music.Audio.Pcm.{zeroes, take, drop, copy_frames_to, write_interleaved, overwrite}
use aurorix_music.Audio.Buffer.{
  AudioBuffer, ready, try_acquire, try_begin_write, try_enter_endpoint_transition, lease_write,
  lease_publish, publish, try_begin_render,
}
use aurorix_music.Audio.Signals.{no_signals, new_sample}
use aurorix_music.Audio.Realtime
use aurorix_music.Audio.Realtime.{RealtimeTimeline, RealtimeConsumer, new_consumer}
use aurorix_music.Audio.Realtime.Exchange.{
  Call, feeds, renders, taken, refused, played, feed, exchange, IsQueue,
}
use aurorix_music.Audio.Realtime.Exchange.Fresh.{exchange_new-IsQueue}
use aurorix_music.Audio.Realtime.Ending.{Exits, render_loop-Exits}
use aurorix_music.Audio.Examples.{stereo, pool, pool_made}

abbrev from_start : RealtimeTimeline
from_start = record {
  clock_epoch = 1;
  media_position_frames = 0;
  estimated_output_latency_frames = 0;
}

abbrev calls : List Call
calls =
    feeds (1 ∷ 2 ∷ 3 ∷ 4 ∷ [])
    ∷ feeds (5 ∷ 6 ∷ [])
    ∷ feeds (7 ∷ 8 ∷ [])
    ∷ renders (0 ∷ 0 ∷ [])
    ∷ renders (0 ∷ 0 ∷ 0 ∷ 0 ∷ [])
    ∷ renders (0 ∷ 0 ∷ [])
    ∷ []

exchanged :
    exchange calls 0 (new_consumer pool (new_sample 1 0 48000 0) no_signals from_start)
    ≡ taken (1 ∷ 2 ∷ 3 ∷ 4 ∷ [])
      ∷ taken (5 ∷ 6 ∷ [])
      ∷ refused
      ∷ played 2 (1 ∷ 2 ∷ [])
      ∷ played 4 (3 ∷ 4 ∷ 5 ∷ 6 ∷ [])
      ∷ played 2 (0 ∷ 0 ∷ [])
      ∷ []
unfolding exchange feed try_acquire try_begin_write try_enter_endpoint_transition lease_write
    lease_publish publish write_interleaved overwrite zeroes take drop copy_frames_to
    Realtime.render Realtime.render_loop Realtime.render_round Realtime.go_on Realtime.hold_active
    Realtime.copy_active Realtime.take_copied Realtime.try_acquire_active_block Realtime.conclude
    Realtime.publish_clock try_begin_render
exchanged = refl

exchange_new-IsQueue_example :
    IsQueue (exchange calls 0 (new_consumer pool (new_sample 1 0 48000 0) no_signals from_start)) []
exchange_new-IsQueue_example =
    exchange_new-IsQueue stereo 2 4 pool_made (omega arith) (new_sample 1 0 48000 0) no_signals
      from_start calls
      (
        omega arith,
        refl,
        omega arith,
        (
          omega arith,
          refl,
          omega arith,
          (omega arith, refl, omega arith, (refl, (refl, (refl, tt)))),
        ),
      )

-- The first slot of the pool holds a block of another generation.
abbrev stale_pool : AudioBuffer
stale_pool = record pool {
  slots = λ i.
      if i == 0
      then record {
        state = ready;
        block = record ((pool.slots 0).block) { generation = 3; valid_frames = 1 };
      }
      else pool.slots i;
}

render_loop-Exits_example :
    let c = new_consumer stale_pool (new_sample 1 0 48000 0) no_signals from_start in
    (k : ℕ) × Exits 3 k
      (Realtime.begin 6 c)
      (Realtime.render_loop (Realtime.render_fuel 3 stale_pool) 3 (Realtime.begin 6 c))
    × (k ≤ 3 + 2 + 2)
render_loop-Exits_example =
    render_loop-Exits 6 3 (new_consumer stale_pool (new_sample 1 0 48000 0) no_signals from_start)
      (omega arith)
