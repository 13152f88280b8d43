-- ===== src/Audio/Buffer/Lowering.antt =====
-- core/aurorix-audio/src/buffer.rs: two calls of `try_advance_generation` of which one is interrupted between the
-- check of its generation and the compare-exchange on `resetting`.
use aurorix_music.Prelude.{
  ℕ, zero, suc, ◌+◌, ◌*◌, ◌<◌, ◌≡◌, refl, ap, ◌∙◌, true, false, none, List, [], ◌∷◌, ◌++◌, arith,
}
use aurorix_music.Prelude.Exec.{ok}
use aurorix_music.Audio.Pcm.{PcmFormat}
use aurorix_music.Audio.Buffer.{
  AudioBuffer, vacant, set_slot_state, reset_block, first_in_use, empty_slots, new,
}
use aurorix_music.Audio.Buffer.Steps.{
  Coordinator, checked, flagged, scanning, emptying, Choice, asks, advances, Thread,
  first_coordinates, second_coordinates, System, step, run, initial, coordinator_step,
}
use aurorix_music.Audio.Buffer.Alone.{
  coordinate, Reaches, then_access, in_turn, scan_free, empties, flags,
}
use aurorix_music.Audio.Buffer.Exclusion.{new_counts, new_vacant}

abbrev times : ℕ → Thread × Choice → List (Thread × Choice)
times zero x = []
times (suc m) x = x ∷ times m x

run_first :
    (m : ℕ) (s : System)
    → run s (times m (first_coordinates, advances)) ≡ record s {
      buffer = (coordinate m (s.buffer, s.first)).0;
      first = (coordinate m (s.buffer, s.first)).1;
    }
unfolding run coordinate step
run_first zero s = refl
run_first (suc m) s = run_first m (step s first_coordinates advances)

run_second :
    (m : ℕ) (s : System)
    → run s (times m (second_coordinates, advances)) ≡ record s {
      buffer = (coordinate m (s.buffer, s.second)).0;
      second = (coordinate m (s.buffer, s.second)).1;
    }
unfolding run coordinate step
run_second zero s = refl
run_second (suc m) s = run_second m (step s second_coordinates advances)

run-append : (s : System) (xs ys : List (Thread × Choice)) → run s (xs ++ ys) ≡ run (run s xs) ys
unfolding run
run-append s [] ys = refl
run-append s ((t, c) ∷ xs) ys = run-append (step s t c) xs ys

-- Every slot is vacant.
abbrev IsVacated : AudioBuffer → Type 0
IsVacated b = (j : ℕ) → (b.slots j).state ≡ vacant

vacated_unused : (d i : ℕ) (b : AudioBuffer) → IsVacated b → first_in_use d i b ≡ none
unfolding first_in_use
vacated_unused zero i b h = refl
vacated_unused (suc d) i b h = ground (arith, h i, vacated_unused d (i + 1) b h)

emptied-IsVacated : (d i g : ℕ) (b : AudioBuffer) → IsVacated b → IsVacated (empty_slots d i g b)
unfolding empty_slots
emptied-IsVacated zero i g b h = h
emptied-IsVacated (suc d) i g b h =
    emptied-IsVacated d (i + 1) g (set_slot_state i vacant (reset_block i g b))
      (λ j. ground (arith, h j))

emptied_entries :
    (d i g : ℕ) (b : AudioBuffer) → (empty_slots d i g b).endpoint_entries ≡ b.endpoint_entries
unfolding empty_slots
emptied_entries zero i g b = refl
emptied_entries (suc d) i g b =
    emptied_entries d (i + 1) g (set_slot_state i vacant (reset_block i g b))

-- The pool that a reset leaves.
abbrev reset_pool : ℕ → AudioBuffer → AudioBuffer
reset_pool g b = record (empty_slots b.slot_count 0 g (record b { resetting = true })) {
  generation = g;
  resetting = false;
}

completes :
    (g : ℕ) (b : AudioBuffer)
    → IsVacated b
    → b.resetting ≡ false
    → b.endpoint_entries ≡ 0
    → Reaches
        (suc (suc (suc b.slot_count + (2 * b.slot_count + 3))))
        (b, checked g)
        (reset_pool g b, Coordinator.idle)
unfolding coordinator_step
completes g b h unset out =
    let b1 : AudioBuffer = record b { resetting = true } in
    flags g b unset (
      then_access b1 (flagged g) (reset_pool g b, Coordinator.idle) {s = (b1, scanning g 0)}
        (ground (arith, out))
        (in_turn (b1, scanning g 0) (b1, emptying g 0) _
          (scan_free b.slot_count 0 g b1 (omega arith) (vacated_unused b.slot_count 0 b1 h))
          (empties b.slot_count 0 g b1 (omega arith))))

asked :
    (b : AudioBuffer) (g : ℕ)
    → b.generation < g
    → coordinator_step (asks g) b Coordinator.idle ≡ (b, checked g)
unfolding coordinator_step
asked b g h = ground arith

both_checked :
    (b : AudioBuffer) (g h : ℕ)
    → b.generation < g
    → b.generation < h
    → step (step (initial b) first_coordinates (asks g)) second_coordinates (asks h)
      ≡ record (initial b) { first = checked g; second = checked h }
unfolding step
both_checked b g h below_g below_h =
    ap (λ s. step s second_coordinates (asks h))
      (ap (λ (x : AudioBuffer × Coordinator). record (initial b) { buffer = x.0; first = x.1 })
        (asked b g below_g))
    ∙ ap
        (λ (x : AudioBuffer × Coordinator). record (initial b) {
          buffer = x.0;
          first = checked g;
          second = x.1;
        })
        (asked b h below_h)

rises :
    (b : AudioBuffer) (g h : ℕ)
    → b.generation < g
    → b.generation < h
    → (m : ℕ) → coordinate m (b, checked h) ≡ (reset_pool h b, Coordinator.idle)
    → run (initial b) (
        (first_coordinates, asks g)
        ∷ (second_coordinates, asks h)
        ∷ times m (second_coordinates, advances))
      ≡ record (initial b) { buffer = reset_pool h b; first = checked g }
unfolding run
rises b g h below_g below_h m up =
    ap (λ s. run s (times m (second_coordinates, advances))) (both_checked b g h below_g below_h)
    ∙ run_second m (record (initial b) { first = checked g; second = checked h })
    ∙ ap
        (λ (x : AudioBuffer × Coordinator). record (initial b) {
          buffer = x.0;
          first = checked g;
          second = x.1;
        })
        up

-- For a pool that `new` makes and generations 0 < g < h: a schedule in which one coordinator is interrupted after
-- its check of g, the other advances the generation to h, and the first goes on and lowers it to g.
pub generation_falls :
    (format : PcmFormat) (slots frames : ℕ) {b : AudioBuffer}
    → new format slots frames ≡ ok b
    → (g h : ℕ) → 0 < g
    → g < h
    → (before after : List (Thread × Choice)) × ((run (initial b) before).buffer.generation ≡ h)
      × ((run (initial b) (before ++ after)).buffer.generation ≡ g)
generation_falls format slots frames {b} e g h pos lt =
    let counts = new_counts format slots frames e in
    let vacated : IsVacated b = new_vacant format slots frames e in
    let (m, up, _) = completes h b vacated (counts.3) (counts.2) in
    let (n, down, _) =
      completes g (reset_pool h b)
        (emptied-IsVacated b.slot_count 0 h (record b { resetting = true }) vacated) refl
        (emptied_entries b.slot_count 0 h (record b { resetting = true }) ∙ counts.2) in
    let before : List (Thread × Choice) =
      (first_coordinates, asks g)
      ∷ (second_coordinates, asks h)
      ∷ times m (second_coordinates, advances) in
    let raised : run (initial b) before
        ≡ record (initial b) { buffer = reset_pool h b; first = checked g } =
      rises b g h (omega (arith, counts)) (omega (arith, counts)) m up in
    (
      before,
      times n (first_coordinates, advances),
      ap (λ (s : System). s.buffer.generation) raised,
      ap (λ (s : System). s.buffer.generation)
            (run-append (initial b) before (times n (first_coordinates, advances))
              ∙ ap (λ s. run s (times n (first_coordinates, advances))) raised
              ∙ run_first n (record (initial b) { buffer = reset_pool h b; first = checked g }))
          ∙ ap (λ (x : AudioBuffer × Coordinator). x.0.generation) down,
    )
