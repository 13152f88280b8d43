-- ===== src/Playback/Examples/Failures.antt =====
-- Failures in a queue of three items.
use aurorix_music.Prelude.{◌≡◌, true, some, List, [], ◌∷◌}
use aurorix_music.Playback.Command.{PlaybackItemId}
use aurorix_music.Playback.Failure.{default_local, stop_queue, decoder_error}
use aurorix_music.Playback.Failure.Decisions.{
  Settles, fails, settle, settle-Settles, skip_on, skip_on_lem,
}

abbrev three : List PlaybackItemId
three = (b'a' ∷ []) ∷ (b'b' ∷ []) ∷ (b'c' ∷ []) ∷ []

settle-Settles_example :
    Settles
      (fails decoder_error)
      default_local
      (b'b' ∷ [])
      three
      1
      (settle (fails decoder_error) (b'b' ∷ []) three 1 default_local)
settle-Settles_example = settle-Settles (fails decoder_error) (b'b' ∷ []) three 1 default_local

skip_on_lem_example :
    skip_on 2 three default_local (b'a' ∷ []) 0
    ≡ ((b'b' ∷ []) ∷ (b'c' ∷ []) ∷ [], some (stop_queue true))
skip_on_lem_example = skip_on_lem [] (b'a' ∷ []) ((b'b' ∷ []) ∷ (b'c' ∷ []) ∷ []) default_local
