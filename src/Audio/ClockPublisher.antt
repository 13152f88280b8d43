-- ===== src/Audio/ClockPublisher.antt =====
-- core/aurorix-audio/src/realtime.rs: `CompactClockPublisher`, as single calls and one access at a time. A reader
-- stores nothing, so that any number of readers are each as one reader beside the writer. The accesses take
-- effect in one order that both threads agree on.
pub mod Coherence
pub mod Alone
use aurorix_music.Prelude.{ℕ, ◌%◌, not, ◌==◌, Option, none, some, List, [], ◌∷◌, if◌then◌else◌}
use aurorix_music.Prelude.Word.{wrapping_add}
use aurorix_music.Audio.Signals.{CompactClockSample}

-- The cells of a sample are the fields of `cells`.
pub record CompactClockPublisher : Type 0 where
  pub sequence : ℕ
  pub cells : CompactClockSample

abbrev pub new_publisher : CompactClockSample → CompactClockPublisher
new_publisher first = record { sequence = 0; cells = first }

-- `sequence.fetch_add(1)`.
abbrev pub count : CompactClockPublisher → CompactClockPublisher
count p = record p { sequence = wrapping_add p.sequence 1 }

unfoldable pub publish : CompactClockSample → CompactClockPublisher → CompactClockPublisher
publish sample p = count (record (count p) { cells = sample })

unfoldable pub try_latest : CompactClockPublisher → Option CompactClockSample
try_latest p =
    if not (p.sequence % 2 == 0)
    then none
    else (let after = p.sequence in if p.sequence == after then some p.cells else none)

-- Where the writer stands in `publish`, by the store that it made last.
pub data Writer : Type 0 where
  idle : Writer
  counted epoch_stored rendered_stored position_stored rate_stored latency_stored :
      CompactClockSample → Writer

-- Where the reader stands in `try_latest`, with what it has loaded, the count first.
pub data Reader : Type 0 where
  answered : Option CompactClockSample → Reader
  sequence_loaded : ℕ → Reader
  epoch_loaded : ℕ → ℕ → Reader
  rendered_loaded : ℕ → ℕ → ℕ → Reader
  position_loaded : ℕ → ℕ → ℕ → ℕ → Reader
  rate_loaded : ℕ → ℕ → ℕ → ℕ → ℕ → Reader
  sample_loaded : ℕ → CompactClockSample → Reader

-- The sample is the one to publish where the writer is idle.
unfoldable pub writer_step :
    CompactClockSample → CompactClockPublisher → Writer → CompactClockPublisher × Writer
writer_step sample p idle = (count p, counted sample)
writer_step _ p (counted s) =
    (record p { cells = record (p.cells) { clock_epoch = s.clock_epoch } }, epoch_stored s)
writer_step _ p (epoch_stored s) = (
  record p { cells = record (p.cells) { rendered_frames = s.rendered_frames } },
  rendered_stored s,
)
writer_step _ p (rendered_stored s) = (
  record p { cells = record (p.cells) { media_position_frames = s.media_position_frames } },
  position_stored s,
)
writer_step _ p (position_stored s) = (
  record p { cells = record (p.cells) { output_sample_rate_hz = s.output_sample_rate_hz } },
  rate_stored s,
)
writer_step _ p (rate_stored s) = (
  record p {
    cells = record (p.cells) {
      estimated_output_latency_frames = s.estimated_output_latency_frames;
    };
  },
  latency_stored s,
)
writer_step _ p (latency_stored s) = (count p, idle)

-- A reader that has its answer begins the next call.
unfoldable pub reader_step : CompactClockPublisher → Reader → Reader
reader_step p (answered _) =
    if not (p.sequence % 2 == 0) then answered none else sequence_loaded p.sequence
reader_step p (sequence_loaded b) = epoch_loaded b p.cells.clock_epoch
reader_step p (epoch_loaded b e) = rendered_loaded b e p.cells.rendered_frames
reader_step p (rendered_loaded b e r) = position_loaded b e r p.cells.media_position_frames
reader_step p (position_loaded b e r m) = rate_loaded b e r m p.cells.output_sample_rate_hz
reader_step p (rate_loaded b e r m h) = sample_loaded b (record {
  clock_epoch = e;
  rendered_frames = r;
  media_position_frames = m;
  output_sample_rate_hz = h;
  estimated_output_latency_frames = p.cells.estimated_output_latency_frames;
})
reader_step p (sample_loaded b s) = answered (if b == p.sequence then some s else none)

-- The publisher, its two threads, and the samples whose publication has ended, the latest first.
pub record Clocks : Type 0 where
  pub publisher : CompactClockPublisher
  pub writer : Writer
  pub reader : Reader
  pub published : List CompactClockSample

pub data Move : Type 0 where
  writes : CompactClockSample → Move
  reads : Move

abbrev pub ended : Writer → List CompactClockSample → List CompactClockSample
ended (latency_stored s) past = s ∷ past
ended _ past = past

unfoldable pub step : Clocks → Move → Clocks
unfolding writer_step reader_step
step c (writes sample) =
    let (p, w) = writer_step sample c.publisher c.writer in
    record c { publisher = p; writer = w; published = ended c.writer c.published }
step c reads = record c { reader = reader_step c.publisher c.reader }

unfoldable pub run : Clocks → List Move → Clocks
unfolding step
run c [] = c
run c (m ∷ moves) = run (step c m) moves

abbrev pub initial : CompactClockSample → Clocks
initial first = record {
  publisher = new_publisher first;
  writer = idle;
  reader = answered none;
  published = first ∷ [];
}
