-- ===== src/Playback/Examples/Policies.antt =====
-- The policy on the queue of three items.
use aurorix_music.Prelude.{◌≡◌, refl, arith}
use aurorix_music.Playback.Shuffle.{order_of, range}
use aurorix_music.Playback.Policy.Selection.{
  Answers, skips, goes_back_at, navigate, navigate-Answers,
}
use aurorix_music.Playback.Policy.Agreement.{queue_navigate, navigation_agrees}
use aurorix_music.Playback.Policy.Positions.{policy_of, answer_of}
use aurorix_music.Playback.Examples.Queues.{three_items, three_items-IsValid}

navigate-Answers_example : Answers (policy_of three_items) (navigate skips (policy_of three_items))
navigate-Answers_example = navigate-Answers skips (policy_of three_items) (omega arith) tt

navigation_agrees_example :
    navigate (goes_back_at 5000) (policy_of three_items)
    ≡ answer_of (queue_navigate (goes_back_at 5000) three_items)
unfolding order_of range
navigation_agrees_example =
    navigation_agrees (goes_back_at 5000) three_items 1 three_items-IsValid refl refl refl
