-- ===== src/Audio/Realtime/Exchange/Fresh.antt =====
-- core/aurorix-audio/src/buffer.rs and realtime.rs: the producer and the callback on a new pool.
use aurorix_music.Prelude.{ℕ, ◌*◌, ◌≤◌, ◌<◌, ◌≡◌, refl, ap, sym, subst, List, [], length, arith}
use aurorix_music.Prelude.Exec.{ok}
use aurorix_music.Audio.Pcm.{PcmFormat, AudioBlock, zeroes}
use aurorix_music.Audio.Pcm
use aurorix_music.Audio.Buffer.{AudioBuffer, is_ready, new}
use aurorix_music.Audio.Buffer.Exclusion.{new_counts, new_vacant}
use aurorix_music.Audio.Signals.{CompactClockSample, RealtimeSignals}
use aurorix_music.Audio.Realtime.{RealtimeConsumer, RealtimeTimeline, new_consumer}
use aurorix_music.Audio.Realtime.Stream.{pending}
use aurorix_music.Audio.Realtime.Ring.{dist_refl}
use aurorix_music.Audio.Realtime.Rounds.{IsReadable}
use aurorix_music.Audio.Realtime.Slices.{length-zeroes}
use aurorix_music.Audio.Realtime.Rendering.{queued_empty}
use aurorix_music.Audio.Realtime.Keeping.{IsKept, IsSized}
use aurorix_music.Audio.Realtime.Exchange.{Call, exchange, IsQueue, AreWhole}
use aurorix_music.Audio.Realtime.Exchange.Order.{exchange-IsQueue}

module _ (format : PcmFormat) (slots frames : ℕ) {b : AudioBuffer}
    (h : new format slots frames ≡ ok b) (channels : 0 < format.channels)
    (clock : CompactClockSample) (signals : RealtimeSignals) (timeline : RealtimeTimeline) where
  abbrev c : RealtimeConsumer
  c = new_consumer b clock signals timeline

  new_format : b.format ≡ format
  unfolding new
  new_format = ground (arith, h)

  new_block : (j : ℕ) → Pcm.new format frames ≡ ok (b.slots j).block
  unfolding new Pcm.new
  new_block j = ground (arith, h)

  sized_block :
      (block : AudioBlock)
      → Pcm.new format frames ≡ ok block
      → (block.format.channels ≡ format.channels)
        × (block.capacity_frames ≡ frames)
        × (block.capacity_frames * format.channels ≤ length block.samples)
  unfolding Pcm.new
  sized_block block e = ground (arith, e, length-zeroes (frames * format.channels))

  new-IsSized : IsSized frames b
  new-IsSized j = rw new_format (sized_block (b.slots j).block (new_block j))

  new-IsReadable : IsReadable c
  new-IsReadable = record {
    channels = rw new_format channels;
    next_lt = omega (arith, new_counts format slots frames h);
    open_pool = (new_counts format slots frames h).3;
    blocks = λ j e. ground (arith, e, new_vacant format slots frames h j);
    held = tt;
  }

  new-IsKept : IsKept frames 0 c
  new-IsKept = record {
    run_length = 0;
    ring = record {
      few = omega arith;
      reader_lt = omega (arith, new_counts format slots frames h);
      writer_lt = omega (arith, new_counts format slots frames h);
      after = λ _. dist_refl b.slot_count 0;
      around = λ _. refl;
      run_full = λ j lt d. absurd (omega (arith, d));
      rest_free = λ j lt d. ap is_ready (new_vacant format slots frames h j);
    };
    sized = new-IsSized;
  }

  new_empty : pending c ≡ []
  new_empty = queued_empty b b.slot_count 0 (ap is_ready (new_vacant format slots frames h 0))

  -- For a pool that `new` makes in a format with channels, a callback that begins on it, and any sequence of calls,
  -- blocks of whole frames that fit and are not empty and outputs of whole frames: the blocks that are taken and the
  -- outputs are those of one queue of samples, first in, first out, empty at first, with silence where it runs out.
  pub exchange_new-IsQueue :
      (calls : List Call) → AreWhole format.channels frames calls → IsQueue (exchange calls 0 c) []
  exchange_new-IsQueue calls whole = subst (IsQueue (exchange calls 0 c)) new_empty (
      exchange-IsQueue frames 0 calls c new-IsReadable new-IsKept
        (subst (λ (f : PcmFormat). AreWhole f.channels frames calls) (sym new_format) whole))
