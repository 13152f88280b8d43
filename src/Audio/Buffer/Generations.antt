-- ===== src/Audio/Buffer/Generations.antt =====
-- core/aurorix-audio/src/buffer.rs: the generation of the pool under one coordinator and under two.
use aurorix_music.Prelude.{ℕ, ◌≤◌, ◌<◌, ◌≡◌, sym, subst, List, [], ◌∷◌, arith}
use aurorix_music.Audio.Buffer.{AudioBuffer}
use aurorix_music.Audio.Buffer.Steps.{
  Producer, Consumer, Coordinator, checked, flagged, scanning, emptying, storing_vacant,
  storing_generation, Choice, Thread, produces, consumes, first_coordinates, second_coordinates,
  System, step, producer_step, consumer_step, coordinator_step, run,
}

-- The generation that the coordinator is about to store is later than that of the pool.
abbrev Ahead : ℕ → Coordinator → Type 0
Ahead now (checked g) = now < g
Ahead now (flagged g) = now < g
Ahead now (scanning g i) = now < g
Ahead now (emptying g i) = now < g
Ahead now (storing_vacant g i) = now < g
Ahead now (storing_generation g) = now < g
Ahead now _ = Unit

-- The second coordinator is never scheduled.
abbrev pub IsSole : List (Thread × Choice) → Type 0
IsSole [] = Unit
IsSole ((second_coordinates, c) ∷ schedule) = ⊥
IsSole ((_, c) ∷ schedule) = IsSole schedule

produced_generation :
    (c : Choice) (b : AudioBuffer) (p : Producer) (w : ℕ)
    → (producer_step c b p w).0.generation ≡ b.generation
unfolding producer_step
produced_generation c b p w = ground arith

consumed_generation :
    (c : Choice) (b : AudioBuffer) (p : Consumer) (r : ℕ)
    → (consumer_step c b p r).0.generation ≡ b.generation
unfolding consumer_step
consumed_generation c b p r = ground arith

coordinated_generation :
    (c : Choice) (b : AudioBuffer) (k : Coordinator)
    → Ahead b.generation k
    → (b.generation ≤ (coordinator_step c b k).0.generation)
      × Ahead (coordinator_step c b k).0.generation (coordinator_step c b k).1
unfolding coordinator_step
coordinated_generation c b k h = ground arith

step_generation :
    (s : System) (t : Thread) (c : Choice)
    → IsSole ((t, c) ∷ [])
    → Ahead s.buffer.generation s.first
    → (s.buffer.generation ≤ (step s t c).buffer.generation)
      × Ahead (step s t c).buffer.generation (step s t c).first
unfolding step
step_generation s produces c o h =
    rw (produced_generation c s.buffer s.producer s.next_write) (omega arith, h)
step_generation s consumes c o h =
    rw (consumed_generation c s.buffer s.consumer s.next_read) (omega arith, h)
step_generation s second_coordinates c o h = elim o [ ]
step_generation s first_coordinates c o h = coordinated_generation c s.buffer s.first h

IsSole-cons :
    (t : Thread) (c : Choice) (schedule : List (Thread × Choice))
    → IsSole ((t, c) ∷ schedule)
    → IsSole ((t, c) ∷ []) × IsSole schedule
IsSole-cons produces c schedule o = (tt, o)
IsSole-cons consumes c schedule o = (tt, o)
IsSole-cons first_coordinates c schedule o = (tt, o)
IsSole-cons second_coordinates c schedule o = elim o [ ]

run_generation :
    (s : System) (schedule : List (Thread × Choice))
    → IsSole schedule
    → Ahead s.buffer.generation s.first
    → (s.buffer.generation ≤ (run s schedule).buffer.generation)
      × Ahead (run s schedule).buffer.generation (run s schedule).first
unfolding run
run_generation s [] o h = (omega arith, h)
run_generation s ((t, c) ∷ schedule) o h =
    let sole : IsSole ((t, c) ∷ []) × IsSole schedule = IsSole-cons t c schedule o in
    let now = step_generation s t c sole.0 h in
    let later = run_generation (step s t c) schedule sole.1 now.1 in
    (omega (arith, now.0, later.0), later.1)

-- From any state of the pool in which the first coordinator has not begun, for any schedule that leaves the second
-- one out: the generation of the pool never falls.
pub sole_generation_grows :
    (s : System) (before after : List (Thread × Choice))
    → s.first ≡ Coordinator.idle
    → IsSole before
    → IsSole after
    → (run s before).buffer.generation ≤ (run (run s before) after).buffer.generation
sole_generation_grows s before after e o o' =
    (run_generation (run s before) after o'
      (run_generation s before o (subst (Ahead s.buffer.generation) (sym e) tt)).1).0
