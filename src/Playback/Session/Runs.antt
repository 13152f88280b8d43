-- ===== src/Playback/Session/Runs.antt =====
-- The life of a session: any sequence of commands, worker events and reports of rendered frames, in any
-- interleaving. A call that fails leaves the session as its assignments left it.
use aurorix_music.Prelude.{ℕ, ◌≤◌, arith, List, [], ◌∷◌}
use aurorix_music.Prelude.Word.{u64_max}
use aurorix_music.Playback.Command.{PlaybackCommand}
use aurorix_music.Playback.Clock.{PresentationClock}
use aurorix_music.Playback.Clock.Timeline as Timeline
use aurorix_music.Playback.Requests.Invariant as Ledger
use aurorix_music.Playback.Session.State.{PlaybackSession, WorkerEvent, with_clock}
use aurorix_music.Playback.Session.Dispatch.{dispatch}
use aurorix_music.Playback.Session.Worker.{
  handle_worker_event, record_rendered_frames, acknowledge_discontinuity,
}
use aurorix_music.Playback.Session.Invariant.{IsValid, ActionIsWord}
use aurorix_music.Playback.Session.Invariant.Commands.{dispatch-IsValid}
use aurorix_music.Playback.Session.Invariant.Events.{
  handle_worker_event-IsValid, record_rendered_frames-IsValid, acknowledge_discontinuity-IsValid,
}

pub data SessionCall : Type 0 where
  command : PlaybackCommand → SessionCall
  event : WorkerEvent → SessionCall
  rendered : ℕ → SessionCall
  acknowledge : SessionCall

unfoldable pub step : PlaybackSession → SessionCall → PlaybackSession
step s (command c) = (dispatch c s).1
step s (event e) = (handle_worker_event e s).1
step s (rendered n) = (record_rendered_frames n s).1
step s acknowledge = acknowledge_discontinuity s

unfoldable pub run : PlaybackSession → List SessionCall → PlaybackSession
run s [] = s
run s (c ∷ cs) = run (step s c) cs

-- The numbers that callers supply are machine words.
abbrev pub CallIsWord : SessionCall → Type 0
CallIsWord (command c) = ActionIsWord c.action
CallIsWord (rendered n) = n ≤ u64_max
CallIsWord _ = Unit {0}

abbrev pub CallsAreWords : List SessionCall → Type 0
CallsAreWords [] = Unit {0}
CallsAreWords (c ∷ cs) = CallIsWord c × CallsAreWords cs

step-IsValid :
    (s : PlaybackSession) (c : SessionCall) → CallIsWord c → IsValid s → IsValid (step s c)
unfolding step
step-IsValid s (command c) w v = dispatch-IsValid c s w v
step-IsValid s (event e) w v = handle_worker_event-IsValid e s v
step-IsValid s (rendered n) w v = record_rendered_frames-IsValid n s w v
step-IsValid s acknowledge w v = acknowledge_discontinuity-IsValid s v

pub run-IsValid :
    (s : PlaybackSession) (cs : List SessionCall)
    → CallsAreWords cs
    → IsValid s
    → IsValid (run s cs)
unfolding run
run-IsValid s [] w v = v
run-IsValid s (c ∷ cs) w v = run-IsValid (step s c) cs w.1 (step-IsValid s c w.0 v)

with_clock-IsValid : (c : PresentationClock) → Timeline.IsValid c → IsValid (with_clock c)
unfolding with_clock
with_clock-IsValid c h = record {
  ledger = Ledger.new-IsValid;
  timeline = h;
  version_word = omega arith;
  generation_word = omega arith;
  pending_fits = tt;
  active_fits = tt;
  state_fits = tt;
  selected = λ e. cc;
}

-- From a new session around a valid clock, every history of calls with machine-word arguments, with
-- failures at any point, leads to a valid session.
pub run_new-IsValid :
    (c : PresentationClock) (cs : List SessionCall)
    → Timeline.IsValid c
    → CallsAreWords cs
    → IsValid (run (with_clock c) cs)
run_new-IsValid c cs h w = run-IsValid (with_clock c) cs w (with_clock-IsValid c h)
