-- ===== src/Playback/Examples/Transitions.antt =====
-- Transitions at 48 kHz, and the mixer over whole-number samples.
use aurorix_music.Prelude.{
  ℕ, ◌+◌, ◌-◌, ◌*◌, ◌/◌, ◌≡◌, ◌↔◌, ◌⊎◌, refl, true, false, some, List, [], ◌∷◌, arith,
}
use aurorix_music.Prelude.Exec.{ok}
use aurorix_music.Playback.Transition.{
  PrebufferState, PreparedNext, CrossfadePolicy, is_ready, decide, decision_index, known,
}
use aurorix_music.Playback.Transition.Planning.{decide_iff}
use aurorix_music.Playback.Transition.Mixer.{Arithmetic, Mixes, mix_into, mix_into-Mixes}

abbrev full_buffer : PrebufferState
full_buffer = record {
  buffered_frames = 4800;
  target = record { sample_rate_hz = 48000; target_frames = 4800 };
}

abbrev prepared : PreparedNext
prepared = record {
  item_index = 3;
  buffer_generation = 7;
  prebuffer = full_buffer;
  delay_padding = known 528 100;
}

abbrev no_crossfade : CrossfadePolicy
no_crossfade = record { enabled = false; duration_ms = 0 }

decide_iff_example : (decision_index (decide no_crossfade 7 (some prepared)) ≡ some 3) ↔ (
    (prepared.item_index ≡ 3)
    × (prepared.buffer_generation ≡ 7)
    × (is_ready full_buffer ≡ true)
    × ((no_crossfade.enabled ≡ true) ⊎ (prepared.delay_padding.is_known ≡ true)))
decide_iff_example = decide_iff no_crossfade 7 3 prepared

abbrev whole : Arithmetic
whole = record {
  Sample = ℕ;
  silence = 0;
  unit_gain = 1;
  of_frame = λ n. n;
  plus = λ a b. a + b;
  minus = λ a b. a - b;
  times = λ a b. a * b;
  over = λ a b. a / b;
}

mix_into-Mixes_example :
    (r : List ℕ) × (mix_into whole 1 (10 ∷ 20 ∷ []) (30 ∷ []) (0 ∷ 0 ∷ 5 ∷ []) 2 ≡ ok r)
    × Mixes whole 1 2 (10 ∷ 20 ∷ []) (30 ∷ []) (0 ∷ 0 ∷ 5 ∷ []) r
mix_into-Mixes_example =
    mix_into-Mixes whole 1 2 (10 ∷ 20 ∷ []) (30 ∷ []) (0 ∷ 0 ∷ 5 ∷ []) (omega arith) refl refl refl
      (omega arith) (omega arith)
