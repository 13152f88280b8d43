-- ===== src/Audio/ClockPublisher/Alone.antt =====
-- core/aurorix-audio/src/realtime.rs: a call on the clock with no other between its accesses.
use aurorix_music.Prelude.{
  ◌%◌, ◌^◌, ◌<◌, ◌≡◌, refl, ap, sym, ◌∙◌, length, Option, some, List, [], ◌∷◌, arith,
}
use aurorix_music.Audio.Signals.{CompactClockSample}
use aurorix_music.Audio.ClockPublisher.{
  CompactClockPublisher, publish, try_latest, idle, answered, writer_step, reader_step, Clocks,
  Move, writes, reads, step, run, initial,
}
use aurorix_music.Audio.ClockPublisher.Coherence.{latest, idle-even, run-Coherent, initial-Coherent}

-- The seven accesses of a call.
abbrev pub seven : Move → List Move
seven m = m ∷ m ∷ m ∷ m ∷ m ∷ m ∷ m ∷ []

-- Where the writer is idle, its seven accesses with nothing between them are the call of `publish`, and
-- the sample is the one published last.
pub publish_alone :
    (s : CompactClockSample) (c : Clocks)
    → c.writer ≡ idle
    → run c (seven (writes s))
      ≡ record c { publisher = publish s c.publisher; published = s ∷ c.published }
unfolding run step writer_step publish
publish_alone s c h = rw h refl

-- Where the count is even, the seven accesses of a reader with nothing between them are the call of `try_latest`.
pub read_alone :
    (c : Clocks) (before : Option CompactClockSample)
    → c.reader ≡ answered before
    → c.publisher.sequence % 2 ≡ 0
    → run c (seven reads) ≡ record c { reader = answered (try_latest c.publisher) }
unfolding run step reader_step try_latest
read_alone c before h even = ground (arith, h, even)

try_latest-even : (p : CompactClockPublisher) → p.sequence % 2 ≡ 0 → try_latest p ≡ some p.cells
unfolding try_latest
try_latest-even p even = ground (arith, even)

-- From the first sample on, after any interleaving of fewer than 2^64 accesses that leaves the callback idle and the
-- reader between two calls: a reader that makes the seven accesses of its next call undisturbed answers with the
-- sample that was published last.
pub reads_latest :
    (first : CompactClockSample) (moves : List Move) (before : Option CompactClockSample)
    → length moves < 2 ^ 64
    → (run (initial first) moves).writer ≡ idle
    → (run (initial first) moves).reader ≡ answered before
    → (run (run (initial first) moves) (seven reads)).reader
      ≡ answered (latest (run (initial first) moves).published)
reads_latest first moves before lt stopped between =
    let c = run (initial first) moves in
    let v = run-Coherent (initial first) moves (initial-Coherent first (length moves) lt) in
    let (even, e) = idle-even c.publisher c.writer c.published stopped v.writer in
    ap (λ (d : Clocks). d.reader) (read_alone c before between even)
    ∙ ap answered (try_latest-even c.publisher even ∙ sym e)
