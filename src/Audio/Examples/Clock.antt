-- ===== src/Audio/Examples/Clock.antt =====
-- A clock whose second sample is published while a reader reads.
use aurorix_music.Prelude.{◌≡◌, refl, none, some, List, [], ◌∷◌, ◌++◌, arith}
use aurorix_music.Audio.Signals.{CompactClockSample, new_sample}
use aurorix_music.Audio.ClockPublisher.{idle, answered, Move, writes, reads, step, run, initial}
use aurorix_music.Audio.ClockPublisher.Coherence.{latest, answer_latest}
use aurorix_music.Audio.ClockPublisher.Alone.{seven, reads_latest}

abbrev first_sample : CompactClockSample
first_sample = new_sample 1 0 48000 20

abbrev second_sample : CompactClockSample
second_sample = record first_sample { rendered_frames = 480; media_position_frames = 480 }

-- A read that a publication overtakes, and then all but the last access of another.
abbrev overtaken : List Move
overtaken =
    reads ∷ reads ∷ (seven (writes second_sample) ++ (reads ∷ reads ∷ reads ∷ reads ∷ reads ∷ []))

overtaken_read : (run (initial first_sample) overtaken).reader ≡ answered none
unfolding run step
overtaken_read = refl

abbrev before_answer : List Move
before_answer = overtaken ++ (reads ∷ reads ∷ reads ∷ reads ∷ reads ∷ reads ∷ [])

answered_second :
    (step (run (initial first_sample) before_answer) reads).reader ≡ answered (some second_sample)
unfolding run step
answered_second = refl

answer_latest_example :
    ((run (initial first_sample) before_answer).writer ≡ idle)
    × (latest (run (initial first_sample) before_answer).published ≡ some second_sample)
answer_latest_example =
    answer_latest first_sample second_sample before_answer (omega arith) answered_second

writer_stopped : (run (initial first_sample) overtaken).writer ≡ idle
unfolding run step
writer_stopped = refl

reads_latest_example :
    (run (run (initial first_sample) overtaken) (seven reads)).reader
    ≡ answered (latest (run (initial first_sample) overtaken).published)
reads_latest_example =
    reads_latest first_sample overtaken none (omega arith) writer_stopped overtaken_read
