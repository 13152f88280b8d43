-- ===== src/Audio/Realtime/Keeping.antt =====
-- core/aurorix-audio/src/realtime.rs: what `render` leaves of the pool that the producer relies on.
use aurorix_music.Prelude.{
  ℕ, zero, suc, ◌+◌, ◌-◌, ◌*◌, ◌/◌, ◌%◌, ◌≤◌, ◌<◌, ◌≡◌, inl, inr, Bool, Bool-cases, Option-cases,
  refl, ap, ◌∙◌, sym, subst, true, false, some, List, length, leb, ltb, if◌then◌else◌, ltb→lt,
  arith,
}
use aurorix_music.Audio.Buffer.{AudioBuffer, is_ready, ready}
use aurorix_music.Audio.Realtime.{
  ActiveBlock, RealtimeConsumer, RenderLoop, RenderOutcome, render, render_loop, render_round,
  go_on, hold_active, copy_active, advance_active, finish_active, begin, conclude, render_fuel,
  publish_clock,
}
use aurorix_music.Audio.Realtime.Ring.{IsRing, same-IsRing, claimed-IsRing}
use aurorix_music.Audio.Realtime.Rounds.{IsReadable, IsHeld, acquired, acquire_some, acquired_block}
use aurorix_music.Audio.Realtime.Copying
use aurorix_music.Audio.Realtime.Copying.{Rendered, copy_active_lem}
use aurorix_music.Audio.Realtime.Rendering.{continues, acquired-Rendered, stops_empty}
use aurorix_music.Audio.Realtime.Player.{Round-any, loop_again, loop_stops}
use aurorix_music.Audio.Realtime.Stream.{pending}
use aurorix_music.Audio.Realtime.Serving.{render_aligned, aligned_length, begin-Rendered}
use aurorix_music.Audio.Realtime.Appending.{is_full}

-- Every block has the format of the pool and room for so many frames.
abbrev pub IsSized : ℕ → AudioBuffer → Type 0
IsSized frames b =
    (j : ℕ)
    → ((b.slots j).block.format.channels ≡ b.format.channels)
      × ((b.slots j).block.capacity_frames ≡ frames)
      × ((b.slots j).block.capacity_frames * b.format.channels ≤ length (b.slots j).block.samples)

-- The ready slots are the run from the callback's next slot to slot `w`, and the blocks have room.
pub record IsKept (frames w : ℕ) (c : RealtimeConsumer) : Type 0 where
  pub run_length : ℕ
  pub ring : IsRing c.buffer.slot_count (is_full c.buffer) c.next_slot w run_length
  pub sized : IsSized frames c.buffer

pub acquired-IsKept :
    (frames w : ℕ) (c : RealtimeConsumer)
    → (c.buffer.slots c.next_slot).state ≡ ready
    → IsKept frames w c
    → IsKept frames w (acquired c)
acquired-IsKept frames w c h v = record {
  run_length = v.run_length - 1;
  ring =
      claimed-IsRing c.buffer.slot_count (is_full c.buffer) (is_full (acquired c).buffer)
        c.next_slot w v.run_length v.ring (ground (arith, h)) (ground arith)
        (λ j ne. ground (arith, ne));
  sized = λ j. ground (arith, v.sized j);
}

finished-IsKept :
    (frames w : ℕ) (a : ActiveBlock) (c : RealtimeConsumer)
    → IsHeld c.buffer (some a)
    → IsKept frames w c
    → IsKept frames w (finish_active a c)
finished-IsKept frames w a c held v = record {
  run_length = v.run_length;
  ring =
      same-IsRing c.buffer.slot_count (is_full c.buffer) (is_full (finish_active a c).buffer)
        c.next_slot w v.run_length (λ j. ground (arith, held)) v.ring;
  sized = λ j. ground (arith, v.sized j);
}

-- A block that goes on and a block that ends.
either :
    (P : RealtimeConsumer → Type 0) (test : Bool) {x y : RealtimeConsumer}
    → P x
    → P y
    → P (if test then x else y)
either P true p q = p
either P false p q = q

pub advanced-IsKept :
    (frames w n : ℕ) (a : ActiveBlock) (c : RealtimeConsumer)
    → IsHeld c.buffer (some a)
    → IsKept frames w c
    → IsKept frames w (advance_active a n c)
advanced-IsKept frames w n a c held v =
    either (IsKept frames w) (leb a.ready.valid_frames (a.consumed_frames + n))
      (finished-IsKept frames w a c held v)
      (record { run_length = v.run_length; ring = v.ring; sized = v.sized })

module _ (frames w : ℕ) (stream : List ℕ) (requested : ℕ) (s : RenderLoop)
    (r : Rendered s.consumer.buffer.format.channels stream requested s)
    (room : s.copied_frames < requested) (v : IsKept frames w s.consumer) where
  copy-IsKept :
      (a : ActiveBlock)
      → s.consumer.active ≡ some a
      → IsKept frames w (copy_active requested a s).1.consumer
  copy-IsKept a e =
      subst (λ (o : Bool × RenderLoop). IsKept frames w o.1.consumer)
        (sym (copy_active_lem stream requested s a r room e))
        (advanced-IsKept frames w (Copying.n stream requested s a r room e) a s.consumer
          (subst (IsHeld s.consumer.buffer) e r.readable.held) v)

module _ (frames w : ℕ) (stream : List ℕ) (requested : ℕ) (s : RenderLoop)
    (r : Rendered s.consumer.buffer.format.channels stream requested s)
    (room : s.copied_frames < requested) (v : IsKept frames w s.consumer) where
  pub round-IsKept : IsKept frames w (render_round requested s).1.consumer
  unfolding render_round hold_active
  round-IsKept = elim (Option-cases s.consumer.active) [
    | inr (a, e) ↦
        subst (λ (o : Bool × RenderLoop). IsKept frames w o.1.consumer)
          (sym (ap (λ o. go_on requested (hold_active o s)) e ∙ continues stream requested s e))
          (copy-IsKept frames w stream requested s r room v a e)
    | inl e ↦ elim (Bool-cases (is_ready (s.consumer.buffer.slots s.consumer.next_slot).state)) [
      | inr empty ↦
          subst (λ (o : Bool × RenderLoop). IsKept frames w o.1.consumer)
            (sym (stops_empty stream requested s r room e empty)) v
      | inl full ↦
          let s1 : RenderLoop = record s { consumer = acquired s.consumer } in
          let ready_now : (s.consumer.buffer.slots s.consumer.next_slot).state ≡ ready =
            ground (arith, full) in
          subst (λ (o : Bool × RenderLoop). IsKept frames w o.1.consumer)
            (sym (
              ap (λ o. go_on requested (hold_active o s)) e
              ∙ ap (go_on requested) (acquire_some s r.readable ready_now)
              ∙ continues stream requested s1 refl))
            (copy-IsKept frames w stream requested s1
              (acquired-Rendered stream requested s r e ready_now) room
              (acquired-IsKept frames w s.consumer ready_now v) (acquired_block s.consumer) refl)
    ]
  ]

loop-IsKept :
    (frames w fuel channels : ℕ) (stream : List ℕ) (requested : ℕ) (s : RenderLoop)
    → Rendered channels stream requested s
    → IsKept frames w s.consumer
    → IsKept frames w (render_loop fuel requested s).consumer
unfolding render_loop
loop-IsKept frames w zero channels stream requested s r v = v
loop-IsKept frames w (suc fuel) channels stream requested s r v =
    elim (Bool-cases (ltb s.copied_frames requested)) [
      | inr full ↦
          subst (λ (t : RenderLoop). IsKept frames w t.consumer)
            (sym (loop_stops (suc fuel) requested s (ground (arith, full)))) v
      | inl room ↦
          let more : s.copied_frames < requested = ltb→lt _ _ room in
          let kept : IsKept frames w (render_round requested s).1.consumer =
            round-IsKept frames w stream requested s
              (subst (λ k. Rendered k stream requested s) (sym r.same_channels) r) more v in
          elim (Round-any channels stream requested s r more) [
            | inr (e, _) ↦
                subst (λ (t : RenderLoop). IsKept frames w t.consumer)
                  (sym (loop_again fuel requested s s false more e)) v
            | inl (s', e, r', _) ↦
                subst (λ (t : RenderLoop). IsKept frames w t.consumer)
                  (sym (loop_again fuel requested s s' true more e))
                  (loop-IsKept frames w fuel channels stream requested s' r'
                    (subst (λ (o : Bool × RenderLoop). IsKept frames w o.1.consumer) e kept))
          ]
    ]

conclude-IsKept :
    (frames w requested : ℕ) (s : RenderLoop)
    → IsKept frames w s.consumer
    → IsKept frames w (conclude requested s).2
unfolding conclude publish_clock
conclude-IsKept frames w requested s v = elim (Bool-cases (ltb 0 (requested - s.copied_frames))) [
  | inl silent ↦ rw silent (record { run_length = v.run_length; ring = v.ring; sized = v.sized })
  | inr full ↦ rw full (record { run_length = v.run_length; ring = v.ring; sized = v.sized })
]

-- For a callback with readable blocks and an output of whole frames, a pool whose ready slots are a run up to slot
-- `w` is one again after the call.
pub render-IsKept :
    (frames w : ℕ) (slice : List ℕ) (c : RealtimeConsumer)
    → IsReadable c
    → length slice % c.buffer.format.channels ≡ 0
    → IsKept frames w c
    → IsKept frames w (render slice c).2
render-IsKept frames w slice c readable aligned v =
    let requested = length slice / c.buffer.format.channels in
    subst (λ (o : RenderOutcome × List ℕ × RealtimeConsumer). IsKept frames w o.2)
      (sym (render_aligned slice c aligned))
      (subst
        (λ n.
          IsKept frames w
            (conclude requested
              (render_loop (render_fuel requested c.buffer) requested (begin n c))).2)
        (sym (aligned_length slice c.buffer.format.channels aligned))
        (conclude-IsKept frames w requested _ (
          loop-IsKept frames w (render_fuel requested c.buffer) c.buffer.format.channels (pending c)
            requested (begin (requested * c.buffer.format.channels) c)
            (begin-Rendered requested c readable) v)))
