-- ===== src/Audio/ClockPublisher/Coherence.antt =====
-- core/aurorix-audio/src/realtime.rs: what a reader of the clock gets while the callback publishes.
use aurorix_music.Prelude.{
  ℕ, ◌+◌, ◌%◌, ◌^◌, ◌≤◌, ◌<◌, ◌≡◌, ◌≢◌, suc, refl, ap, subst, sym, ◌∙◌, Option, none, some, List,
  [], ◌∷◌, length, arith,
}
use aurorix_music.Audio.Signals.{CompactClockSample}
use aurorix_music.Audio.ClockPublisher.{
  CompactClockPublisher, Writer, idle, counted, epoch_stored, rendered_stored, position_stored,
  rate_stored, latency_stored, Reader, answered, sequence_loaded, epoch_loaded, rendered_loaded,
  position_loaded, rate_loaded, sample_loaded, writer_step, reader_step, Clocks, Move, writes,
  reads, ended, step, run, initial,
}

abbrev pub latest : List CompactClockSample → Option CompactClockSample
latest [] = none
latest (s ∷ _) = some s

-- The cells that hold the sample that the writer publishes.
abbrev pub Stored : CompactClockSample → Writer → Type 0
Stored c (epoch_stored s) = c.clock_epoch ≡ s.clock_epoch
Stored c (rendered_stored s) =
    (c.clock_epoch ≡ s.clock_epoch) × (c.rendered_frames ≡ s.rendered_frames)
Stored c (position_stored s) =
    (c.clock_epoch ≡ s.clock_epoch)
    × (c.rendered_frames ≡ s.rendered_frames)
    × (c.media_position_frames ≡ s.media_position_frames)
Stored c (rate_stored s) =
    (c.clock_epoch ≡ s.clock_epoch)
    × (c.rendered_frames ≡ s.rendered_frames)
    × (c.media_position_frames ≡ s.media_position_frames)
    × (c.output_sample_rate_hz ≡ s.output_sample_rate_hz)
Stored c (latency_stored s) = c ≡ s
Stored c _ = Unit

-- The count is even just where the writer is idle, and the cells are then the sample published last.
abbrev pub Writes : CompactClockPublisher → Writer → List CompactClockSample → Type 0
Writes p idle past = (p.sequence % 2 ≡ 0) × (latest past ≡ some p.cells)
Writes p w past = (p.sequence % 2 ≡ 1) × Stored p.cells w

-- What a reader has loaded is in the cells if the count is still the one that it loaded.
abbrev pub Sees : ℕ → CompactClockPublisher → Type 0 → Type 0
Sees before p A = (before % 2 ≡ 0) × (before ≤ p.sequence) × (before ≡ p.sequence → A)

abbrev pub Reads : CompactClockPublisher → Reader → Type 0
Reads p (answered _) = Unit
Reads p (sequence_loaded b) = Sees b p Unit
Reads p (epoch_loaded b e) = Sees b p (e ≡ p.cells.clock_epoch)
Reads p (rendered_loaded b e r) =
    Sees b p ((e ≡ p.cells.clock_epoch) × (r ≡ p.cells.rendered_frames))
Reads p (position_loaded b e r m) = Sees b p (
    (e ≡ p.cells.clock_epoch) × (r ≡ p.cells.rendered_frames) × (m ≡ p.cells.media_position_frames))
Reads p (rate_loaded b e r m h) = Sees b p (
    (e ≡ p.cells.clock_epoch)
    × (r ≡ p.cells.rendered_frames)
    × (m ≡ p.cells.media_position_frames)
    × (h ≡ p.cells.output_sample_rate_hz))
Reads p (sample_loaded b s) = Sees b p (s ≡ p.cells)

-- After a store or a count no reader finds the count that it loaded.
abbrev Overtakes : CompactClockPublisher → CompactClockPublisher → Type 0
Overtakes p p' = (b : ℕ) → b % 2 ≡ 0 → b ≤ p.sequence → (b ≤ p'.sequence) × (b ≢ p'.sequence)

Sees-overtaken :
    {b : ℕ} (p p' : CompactClockPublisher) {A B : Type 0}
    → Overtakes p p'
    → Sees b p A
    → Sees b p' B
Sees-overtaken {b} p p' over (even, le, _) =
    (even, (over b even le).0, λ e. elim ((over b even le).1 e) [ ])

Reads-overtaken :
    (p p' : CompactClockPublisher) (r : Reader) → Overtakes p p' → Reads p r → Reads p' r
Reads-overtaken p p' (answered _) over h = tt
Reads-overtaken p p' (sequence_loaded b) over h = Sees-overtaken p p' over h
Reads-overtaken p p' (epoch_loaded b e) over h = Sees-overtaken p p' over h
Reads-overtaken p p' (rendered_loaded b e r) over h = Sees-overtaken p p' over h
Reads-overtaken p p' (position_loaded b e r m) over h = Sees-overtaken p p' over h
Reads-overtaken p p' (rate_loaded b e r m a) over h = Sees-overtaken p p' over h
Reads-overtaken p p' (sample_loaded b s) over h = Sees-overtaken p p' over h

-- The count before the count goes round.
abbrev HasRoom : CompactClockPublisher → Type 0
HasRoom p = p.sequence + 1 < 2 ^ 64

next_count : (n : ℕ) → n + 1 < 2 ^ 64 → (n + 1) % 2 ^ 64 ≡ n + 1
next_count n h = omega arith

writer_step-Overtakes :
    (s : CompactClockSample) (p : CompactClockPublisher) (w : Writer)
    (past : List CompactClockSample)
    → HasRoom p
    → Writes p w past
    → Overtakes p (writer_step s p w).0
unfolding writer_step
writer_step-Overtakes s p idle past room h b even le = (omega arith, omega arith)
writer_step-Overtakes s p (counted x) past room h b even le = (omega arith, omega arith)
writer_step-Overtakes s p (epoch_stored x) past room h b even le = (omega arith, omega arith)
writer_step-Overtakes s p (rendered_stored x) past room h b even le = (omega arith, omega arith)
writer_step-Overtakes s p (position_stored x) past room h b even le = (omega arith, omega arith)
writer_step-Overtakes s p (rate_stored x) past room h b even le = (omega arith, omega arith)
writer_step-Overtakes s p (latency_stored x) past room h b even le = (omega arith, omega arith)

writer_step-Writes :
    (s : CompactClockSample) (p : CompactClockPublisher) (w : Writer)
    (past : List CompactClockSample)
    → HasRoom p
    → Writes p w past
    → Writes (writer_step s p w).0 (writer_step s p w).1 (ended w past)
unfolding writer_step
writer_step-Writes s p idle past room (even, _) = (omega arith, tt)
writer_step-Writes s p (counted x) past room (odd, _) = (odd, refl)
writer_step-Writes s p (epoch_stored x) past room (odd, e) = (odd, (e, refl))
writer_step-Writes s p (rendered_stored x) past room (odd, (e, r)) = (odd, (e, r, refl))
writer_step-Writes s p (position_stored x) past room (odd, (e, r, m)) = (odd, (e, r, m, refl))
writer_step-Writes s p (rate_stored x) past room (odd, (e, r, m, h)) = (odd, cc)
writer_step-Writes s p (latency_stored x) past room (odd, e) = (omega arith, ap some (sym e))

-- The count grows by one at most.
writer_step-sequence :
    (s : CompactClockSample) (p : CompactClockPublisher) (w : Writer)
    → HasRoom p
    → (writer_step s p w).0.sequence ≤ p.sequence + 1
unfolding writer_step
writer_step-sequence s p w room = ground arith

reader_step-Reads : (p : CompactClockPublisher) (r : Reader) → Reads p r → Reads p (reader_step p r)
unfolding reader_step
reader_step-Reads p (answered _) h = ground arith
reader_step-Reads p (sequence_loaded b) (even, le, _) = (even, le, λ _. refl)
reader_step-Reads p (epoch_loaded b e) (even, le, f) = (even, le, λ q. (f q, refl))
reader_step-Reads p (rendered_loaded b e r) (even, le, f) =
    (even, le, λ q. ((f q).0, (f q).1, refl))
reader_step-Reads p (position_loaded b e r m) (even, le, f) =
    (even, le, λ q. ((f q).0, (f q).1, (f q).2, refl))
reader_step-Reads p (rate_loaded b e r m h) (even, le, f) =
    (even, le, λ q. cc ((f q).0, (f q).1, (f q).2, (f q).3))
reader_step-Reads p (sample_loaded b s) h = tt

-- What holds between two accesses, with so many more to come.
pub record Coherent (c : Clocks) (left : ℕ) : Type 0 where
  pub room : c.publisher.sequence + left < 2 ^ 64
  pub writer : Writes c.publisher c.writer c.published
  pub reader : Reads c.publisher c.reader

-- `left` more steps do not bring the count round.
HasRoom-left : (c : Clocks) (left : ℕ) → Coherent c (suc left) → HasRoom c.publisher
HasRoom-left c left v = omega (arith, v.room)

step-Coherent :
    (c : Clocks) (m : Move) (left : ℕ) → Coherent c (suc left) → Coherent (step c m) left
unfolding step
step-Coherent c (writes s) left v =
    let room = HasRoom-left c left v in
    record {
      room = omega (arith, v.room, writer_step-sequence s c.publisher c.writer room);
      writer = writer_step-Writes s c.publisher c.writer c.published room v.writer;
      reader =
          Reads-overtaken c.publisher (writer_step s c.publisher c.writer).0 c.reader
            (writer_step-Overtakes s c.publisher c.writer c.published room v.writer) v.reader;
    }
step-Coherent c reads left v = record {
  room = omega (arith, v.room);
  writer = v.writer;
  reader = reader_step-Reads c.publisher c.reader v.reader;
}

pub run-Coherent :
    (c : Clocks) (moves : List Move) → Coherent c (length moves) → Coherent (run c moves) 0
unfolding run
run-Coherent c [] v = v
run-Coherent c (m ∷ moves) v = run-Coherent (step c m) moves (step-Coherent c m (length moves) v)

pub initial-Coherent :
    (first : CompactClockSample) (left : ℕ) → left < 2 ^ 64 → Coherent (initial first) left
initial-Coherent first left h = record { room = omega arith; writer = (refl, refl); reader = tt }

even-idle :
    (p : CompactClockPublisher) (w : Writer) (past : List CompactClockSample)
    → p.sequence % 2 ≡ 0
    → Writes p w past
    → (w ≡ idle) × (latest past ≡ some p.cells)
even-idle p idle past even (_, e) = (refl, e)
even-idle p (counted s) past even (odd, _) = ground arith
even-idle p (epoch_stored s) past even (odd, _) = ground arith
even-idle p (rendered_stored s) past even (odd, _) = ground arith
even-idle p (position_stored s) past even (odd, _) = ground arith
even-idle p (rate_stored s) past even (odd, _) = ground arith
even-idle p (latency_stored s) past even (odd, _) = ground arith

pub idle-even :
    (p : CompactClockPublisher) (w : Writer) (past : List CompactClockSample)
    → w ≡ idle
    → Writes p w past
    → (p.sequence % 2 ≡ 0) × (latest past ≡ some p.cells)
idle-even p w past h v = subst (λ w'. Writes p w' past) h v

-- A reader that answers with a sample has loaded the cells as they are, under an even count.
answer_read :
    (p : CompactClockPublisher) (r : Reader) (x : CompactClockSample)
    → Reads p r
    → reader_step p r ≡ answered (some x)
    → (p.sequence % 2 ≡ 0) × (x ≡ p.cells)
unfolding reader_step
answer_read p (answered _) x v h = ground (arith, h)
answer_read p (sequence_loaded b) x v h = ground (arith, h)
answer_read p (epoch_loaded b e) x v h = ground (arith, h)
answer_read p (rendered_loaded b e r) x v h = ground (arith, h)
answer_read p (position_loaded b e r m) x v h = ground (arith, h)
answer_read p (rate_loaded b e r m a) x v h = ground (arith, h)
answer_read p (sample_loaded b s) x (even, le, f) h = ground (arith, h, f)

-- From the first sample on, for any interleaving of fewer than 2^64 accesses of the callback and a reader: a reader
-- whose next access answers with a sample answers with the sample whose publication ended last, whole, and the
-- callback is then not publishing.
pub answer_latest :
    (first x : CompactClockSample) (moves : List Move)
    → length moves < 2 ^ 64
    → (step (run (initial first) moves) reads).reader ≡ answered (some x)
    → ((run (initial first) moves).writer ≡ idle)
      × (latest (run (initial first) moves).published ≡ some x)
unfolding step
answer_latest first x moves lt h =
    let c = run (initial first) moves in
    let v = run-Coherent (initial first) moves (initial-Coherent first (length moves) lt) in
    let (even, e) = answer_read c.publisher c.reader x v.reader h in
    let (stopped, l) = even-idle c.publisher c.writer c.published even v.writer in
    (stopped, l ∙ ap some (sym e))
