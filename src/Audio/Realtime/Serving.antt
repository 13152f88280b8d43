-- ===== src/Audio/Realtime/Serving.antt =====
-- core/aurorix-audio/src/realtime.rs: one call of `render`.
use native.Mathlib.Nat.{zero-mul, sub-zero, mul-div_cancel, mod-add-div'}
use aurorix_music.Prelude.{
  ℕ, ◌+◌, ◌-◌, ◌*◌, ◌/◌, ◌%◌, ◌<◌, ◌≡◌, refl, ap₂, subst, ◌∙◌, sym, List, [], ltb, length, min,
  arith, inl, inr, Bool-cases,
}
use aurorix_music.Audio.Realtime.{
  RealtimeConsumer, RenderLoop, RenderOutcome, begin, conclude, render_loop, render, render_fuel,
  publish_clock,
}
use aurorix_music.Audio.Realtime.Stream.{pending}
use aurorix_music.Audio.Realtime.Rounds.{IsReadable}
use aurorix_music.Audio.Realtime.Copying.{Rendered}
use aurorix_music.Audio.Realtime.Player.{Finished, loop_finishes, serve, served_count, served_lem}

pub begin-Rendered :
    (requested : ℕ) (c : RealtimeConsumer)
    → IsReadable c
    → Rendered c.buffer.format.channels
        (pending c)
        requested
        (begin (requested * c.buffer.format.channels) c)
begin-Rendered requested c v = record {
  readable = v;
  same_channels = refl;
  in_range = omega arith;
  fresh = refl;
  written = [];
  written_length = rw zero-mul;
  silence = rw sub-zero;
  remains = refl;
}

rendered :
    (requested : ℕ) (c : RealtimeConsumer)
    → IsReadable c
    → Finished c.buffer.format.channels (pending c) requested (
        render_loop
          (render_fuel requested c.buffer)
          requested
          (begin (requested * c.buffer.format.channels) c))
rendered requested c v =
    loop_finishes (render_fuel requested c.buffer) c.buffer.format.channels (pending c) requested
      (begin (requested * c.buffer.format.channels) c) (begin-Rendered requested c v) (omega arith)

-- What a call of `render` gives that serves the stream.
abbrev pub Serves : ℕ → RealtimeConsumer → RenderOutcome × List ℕ × RealtimeConsumer → Type 0
Serves n c (outcome, out, c') =
    ((out, pending c') ≡ serve n (pending c))
    × (outcome.rendered_media_frames * c.buffer.format.channels ≡ min n (length (pending c)))
    × (outcome.rendered_media_frames + outcome.silent_frames ≡ n / c.buffer.format.channels)
    × (outcome.discarded_stale_blocks ≡ 0)
    × (c'.buffer.format.channels ≡ c.buffer.format.channels)
    × IsReadable c'

-- What `conclude` leaves for the next call.
concluded :
    (requested : ℕ) (s : RenderLoop) {channels : ℕ}
    → IsReadable s.consumer
    → s.consumer.buffer.format.channels ≡ channels
    → let c' = (conclude requested s).2 in
      (pending c' ≡ pending s.consumer) × (c'.buffer.format.channels ≡ channels) × IsReadable c'
unfolding conclude publish_clock
concluded requested s v e = elim (Bool-cases (ltb 0 (requested - s.copied_frames))) [
  | inl silent ↦ rw silent (
    refl,
    e,
    record {
      channels = v.channels;
      next_lt = v.next_lt;
      open_pool = v.open_pool;
      blocks = v.blocks;
      held = v.held;
    },
  )
  | inr full ↦ rw full (
    refl,
    e,
    record {
      channels = v.channels;
      next_lt = v.next_lt;
      open_pool = v.open_pool;
      blocks = v.blocks;
      held = v.held;
    },
  )
]

conclude-Serves :
    (requested : ℕ) (c : RealtimeConsumer) (s : RenderLoop)
    → 0 < c.buffer.format.channels
    → Finished c.buffer.format.channels (pending c) requested s
    → Serves (requested * c.buffer.format.channels) c (conclude requested s)
unfolding conclude
conclude-Serves requested c s pos (r, done) =
    let next = concluded requested s r.readable r.same_channels in
    let served = served_lem r done in
    (
      ap₂ (λ out rest. (out, rest)) served.0 (next.0 ∙ served.1),
      served_count r done,
      omega (arith, r.in_range, mul-div_cancel requested pos),
      r.fresh,
      next.1,
      next.2,
    )

pub aligned_length :
    (slice : List ℕ) (channels : ℕ)
    → length slice % channels ≡ 0
    → length slice ≡ length slice / channels * channels
aligned_length slice channels h = omega (arith, mod-add-div' (length slice) channels, h)

pub render_aligned :
    (slice : List ℕ) (c : RealtimeConsumer)
    → length slice % c.buffer.format.channels ≡ 0
    → let requested = length slice / c.buffer.format.channels in
      render slice c
      ≡ conclude requested
          (render_loop (render_fuel requested c.buffer) requested (begin (length slice) c))
unfolding render
render_aligned slice c h = ground (arith, h)

-- For a callback with readable blocks and an output of whole frames: `render` writes what the player writes for that
-- many samples and keeps what it keeps, its outcome counts the frames copied and the silence, no block is found
-- stale, and the blocks are readable again.
pub render-Serves :
    (slice : List ℕ) (c : RealtimeConsumer)
    → IsReadable c
    → length slice % c.buffer.format.channels ≡ 0
    → Serves (length slice) c (render slice c)
render-Serves slice c v aligned =
    let requested = length slice / c.buffer.format.channels in
    let whole = aligned_length slice c.buffer.format.channels aligned in
    subst (Serves (length slice) c) (sym (render_aligned slice c aligned)) (
      subst
        (λ n.
          Serves n c (
            conclude requested
              (render_loop (render_fuel requested c.buffer) requested (begin n c))))
        (sym whole) (conclude-Serves requested c _ v.channels (rendered requested c v)))
