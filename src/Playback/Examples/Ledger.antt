-- ===== src/Playback/Examples/Ledger.antt =====
-- The request ledger on two requests.
use aurorix_music.Prelude.{◌≡◌, refl, false, arith}
use aurorix_music.Prelude.Map.{lookup, insert}
use aurorix_music.Playback.Command.{OperationToken, accepted, is_accepted}
use aurorix_music.Playback.Requests.{RequestTracker, start, classify, new}
use aurorix_music.Playback.Requests.Invariant.{IsValid, new-IsValid, start-IsValid}
use aurorix_music.Playback.Requests.Fence.{start_supersedes}

-- Request 7 was started under generation 0.
abbrev one_started : RequestTracker
one_started = (start 7 0 new).1

abbrev first_token : OperationToken
first_token = record { request_id = 7; revision = 1; buffer_generation = 0 }

abbrev second_token : OperationToken
second_token = record { request_id = 9; revision = 2; buffer_generation = 1 }

one_started-IsValid : IsValid one_started
one_started-IsValid = start-IsValid 7 0 new new-IsValid

start_supersedes_example :
    (classify (start 9 1 one_started).1 second_token 1 ≡ accepted 2)
    × (is_accepted (classify (start 9 1 one_started).1 first_token 0) ≡ false)
unfolding start lookup insert
start_supersedes_example =
    start_supersedes one_started (start 9 1 one_started).1 9 1 second_token first_token 0
      one_started-IsValid refl (λ e. omega arith)
