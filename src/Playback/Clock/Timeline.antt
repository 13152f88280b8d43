-- ===== src/Playback/Clock/Timeline.antt =====
-- core/aurorix-playback/src/clock.rs: the invariant of the clock, its epochs and its media position.
use aurorix_music.Prelude.{
  ℕ, ◌+◌, ◌*◌, ◌/◌, ◌^◌, ◌≤◌, ◌<◌, ◌≡◌, ◌≢◌, ◌⊎◌, inl, inr, refl, ap, subst, sym, ◌∙◌, Bool-cases,
  true, arith, leb, ◌==◌, if◌then◌else◌,
}
use native.Mathlib.Nat.{mul-le-mul, mul-le-mul_right, div-le_self, div-add-mod, mod-lt, add_assoc}
use aurorix_music.Prelude.Exec.{Result, ok, err}
use aurorix_music.Prelude.Word.{u64_max}
use aurorix_music.Playback.Clock.{
  PresentationClock, ClockError, frame_overflow, position_overflow, with_latency,
  position_for_frames, advance_rendered_frames, seek_to, pause_boundary, resume_boundary,
  source_transition_to, restart_output, recover_underrun, stop_boundary, set_playback_rate,
  set_output_sample_rate, set_output_latency_frames, acknowledge_discontinuity, M,
}

-- The methods that a session or a worker calls on the clock, with their arguments.
pub data ClockCall : Type 0 where
  advance seek transition rate sample_rate latency : ℕ → ClockCall
  pause resume restart recover stop acknowledge : ClockCall

unfoldable pub call : ClockCall → M
call (advance n) c = advance_rendered_frames n c
call (seek p) c = seek_to p c
call (transition p) c = source_transition_to p c
call (rate r) c = set_playback_rate r c
call (sample_rate r) c = set_output_sample_rate r c
call (latency n) c = (ok tt, set_output_latency_frames n c)
call pause c = pause_boundary c
call resume c = resume_boundary c
call restart c = restart_output c
call recover c = recover_underrun c
call stop c = stop_boundary c
call acknowledge c = (ok tt, acknowledge_discontinuity c)

-- The arguments are machine words, and a rate is positive, as `PlaybackRate` makes sure.
abbrev pub IsWord : ClockCall → Type 0
IsWord (rate r) = (0 < r) × (r < 2 ^ 32)
IsWord (sample_rate r) = r < 2 ^ 32
IsWord (advance n) = n ≤ u64_max
IsWord (seek n) = n ≤ u64_max
IsWord (transition n) = n ≤ u64_max
IsWord (latency n) = n ≤ u64_max
IsWord _ = Unit {0}

pub record IsValid (c : PresentationClock) : Type 0 where
  pub sampled : 0 < c.output_sample_rate
  pub rated : 0 < c.playback_rate
  pub rate_word : c.playback_rate < 2 ^ 32
  pub epoch_word : c.clock_epoch ≤ u64_max
  pub frames_word : c.rendered_frames ≤ u64_max
  pub base_word : c.timeline_base_position_us ≤ u64_max
  pub position_word : c.media_position_us ≤ u64_max
  pub position :
      c.media_position_us
      ≡ c.timeline_base_position_us + c.rendered_frames * c.playback_rate / c.output_sample_rate

pub with_latency-IsValid : (sr n : ℕ) (c : PresentationClock) → with_latency sr n ≡ ok c → IsValid c
unfolding with_latency
with_latency-IsValid sr n c h = ground arith

product_bound : (f r : ℕ) → f ≤ u64_max → r < 2 ^ 32 → f * r ≤ u64_max * 2 ^ 32
product_bound f r h k = let k' : r ≤ 2 ^ 32 = omega arith in mul-le-mul h k'

-- On a valid clock and at a 64-bit number of frames the 128-bit products and sums of `position_for_frames` never overflow: the
-- call fails exactly when the position itself is no 64-bit number.
pub position_for_frames_lem :
    (c : PresentationClock) (f : ℕ)
    → IsValid c
    → f ≤ u64_max
    → position_for_frames c f ≡ (
        let position = c.timeline_base_position_us + f * c.playback_rate / c.output_sample_rate in
        if leb position u64_max then ok position else err position_overflow)
unfolding position_for_frames
position_for_frames_lem c f v h = ground (
  arith,
  product_bound f c.playback_rate h v.rate_word,
  div-le_self (f * c.playback_rate) c.output_sample_rate,
)

-- Every call with machine-word arguments, failed or not, keeps a valid clock valid: the media position is
-- the function of the base, the frames and the rates that the record states.
pub call-IsValid :
    (op : ClockCall) (c : PresentationClock) → IsWord op → IsValid c → IsValid (call op c).1
unfolding call advance_rendered_frames seek_to source_transition_to set_playback_rate
    set_output_sample_rate set_output_latency_frames acknowledge_discontinuity pause_boundary
    resume_boundary restart_output recover_underrun stop_boundary
call-IsValid (advance n) c w v = ground (arith, position_for_frames_lem c (c.rendered_frames + n) v)
call-IsValid (rate r) c w v = ground arith
call-IsValid op c w v = ground arith

-- A call that fails leaves the clock as it was.
pub call_error_unchanged :
    (op : ClockCall) (c : PresentationClock) (e : ClockError)
    → (call op c).0 ≡ err e
    → (call op c).1 ≡ c
unfolding call advance_rendered_frames seek_to source_transition_to set_playback_rate
    set_output_sample_rate pause_boundary resume_boundary restart_output recover_underrun
    stop_boundary
call_error_unchanged (advance n) c e h = ground arith
call_error_unchanged op c e h = ground arith

-- A call either stays in its epoch, where the timeline's base and both rates are kept and the frames only
-- grow, or begins the next epoch, with no frame rendered, a discontinuity to report and a new base.
pub call_epoch :
    (op : ClockCall) (c : PresentationClock)
    → let d = (call op c).1 in
      ((d.clock_epoch ≡ c.clock_epoch)
        × (d.timeline_base_position_us ≡ c.timeline_base_position_us)
        × (d.playback_rate ≡ c.playback_rate)
        × (d.output_sample_rate ≡ c.output_sample_rate)
        × (c.rendered_frames ≤ d.rendered_frames))
      ⊎ ((d.clock_epoch ≡ c.clock_epoch + 1)
          × (d.rendered_frames ≡ 0)
          × (d.media_position_us ≡ d.timeline_base_position_us)
          × (d.discontinuity ≡ true))
unfolding call advance_rendered_frames seek_to source_transition_to set_playback_rate
    set_output_sample_rate set_output_latency_frames acknowledge_discontinuity pause_boundary
    resume_boundary restart_output recover_underrun stop_boundary
call_epoch (advance n) c = ground arith
call_epoch op c = ground arith

-- Rendering in two steps is rendering in one: the position depends on the total of the frames alone, so
-- that no rounding accumulates.
pub advance_split :
    (a b : ℕ) (c d e : PresentationClock)
    → advance_rendered_frames a c ≡ (ok tt, d)
    → advance_rendered_frames b d ≡ (ok tt, e)
    → advance_rendered_frames (a + b) c ≡ (ok tt, e)
unfolding advance_rendered_frames position_for_frames
advance_split a b c d e p q = ground (arith, add_assoc c.rendered_frames a b)

floor_error :
    (b n d : ℕ) → 0 < d → ((b + n / d) * d ≤ b * d + n) × (b * d + n < (b + n / d + 1) * d)
floor_error b n d h =
    (omega (arith, div-add-mod n d, mod-lt n h), omega (arith, div-add-mod n d, mod-lt n h))

-- The exact media position at a number of frames, in fractions of a microsecond of which there are as many as the
-- sample rate.
abbrev pub exact : PresentationClock → ℕ → ℕ
exact c frames = c.timeline_base_position_us * c.output_sample_rate + frames * c.playback_rate

-- What a report of `n` rendered frames gives.
abbrev pub Advances :
    ℕ → PresentationClock → Result ClockError (Unit {0}) × PresentationClock → Type 0
Advances n c (ok _, d) =
    (d ≡ record c {
      rendered_frames = c.rendered_frames + n;
      media_position_us = d.media_position_us;
    })
    × (d.media_position_us * c.output_sample_rate ≤ exact c (c.rendered_frames + n))
    × (exact c (c.rendered_frames + n) < (d.media_position_us + 1) * c.output_sample_rate)
    × (c.rendered_frames + n ≤ u64_max)
    × (d.media_position_us ≤ u64_max)
Advances n c (err e, d) =
    (d ≡ c)
    × (((e ≡ frame_overflow) × (u64_max < c.rendered_frames + n))
        ⊎ ((e ≡ position_overflow)
            × ((u64_max + 1) * c.output_sample_rate ≤ exact c (c.rendered_frames + n))))

unfitting : (b n d : ℕ) → 0 < d → u64_max < b + n / d → (u64_max + 1) * d ≤ b * d + n
unfitting b n d h over = omega (
  arith,
  mul-le-mul_right {m = u64_max + 1} {n = b + n / d} d (omega (arith, over)),
  (floor_error b n d h).0,
)

module _ (n : ℕ) (c : PresentationClock) (v : IsValid c) where
  abbrev frames : ℕ
  frames = c.rendered_frames + n

  abbrev floor_position : ℕ
  floor_position = c.timeline_base_position_us + frames * c.playback_rate / c.output_sample_rate

  bounds :
      (floor_position * c.output_sample_rate ≤ exact c frames)
      × (exact c frames < (floor_position + 1) * c.output_sample_rate)
  bounds =
      floor_error c.timeline_base_position_us (frames * c.playback_rate) c.output_sample_rate
        v.sampled

  no_frame : n ≡ 0 → Advances n c (ok tt, c)
  no_frame e =
      let all : frames ≡ c.rendered_frames = omega (arith, e) in
      let same : c.media_position_us ≡ floor_position =
        v.position
        ∙ ap (λ f. c.timeline_base_position_us + f * c.playback_rate / c.output_sample_rate)
            (sym all) in
      (
        ap (λ f. record c { rendered_frames = f }) (sym all),
        subst (λ p. p * c.output_sample_rate ≤ exact c frames) (sym same) (bounds.0),
        subst (λ p. exact c frames < (p + 1) * c.output_sample_rate) (sym same) (bounds.1),
        omega (arith, all, v.frames_word),
        v.position_word,
      )

  some_frames :
      n ≢ 0
      → frames ≤ u64_max
      → advance_rendered_frames n c ≡ (
          if leb floor_position u64_max
          then (ok tt, record c { rendered_frames = frames; media_position_us = floor_position })
          else (err position_overflow, c))
  unfolding advance_rendered_frames
  some_frames ne fits = ground (arith, ne, fits, position_for_frames_lem c frames v fits)

  too_many : u64_max < frames → n ≢ 0 → advance_rendered_frames n c ≡ (err frame_overflow, c)
  unfolding advance_rendered_frames
  too_many over ne = ground (arith, over, ne)

-- A report of rendered frames to a valid clock counts them and puts the position at the exact rational position of all
-- the frames since the base, rounded down to a microsecond. It fails only where the frames, or else the
-- exact position, do not fit 64 bits, and then changes nothing.
pub advance-Advances :
    (n : ℕ) (c : PresentationClock) → IsValid c → Advances n c (advance_rendered_frames n c)
unfolding advance_rendered_frames
advance-Advances n c v = elim (Bool-cases (n == 0)) [
  | inl z ↦ let e : n ≡ 0 = ground (arith, z) in rw (z, advance_rendered_frames) (no_frame n c v e)
  | inr z ↦
      let ne : n ≢ 0 = ground (arith, z) in
      elim (Bool-cases (leb (c.rendered_frames + n) u64_max)) [
        | inr over ↦
            let above : u64_max < c.rendered_frames + n = ground (arith, over) in
            subst (Advances n c) (sym (too_many n c v above ne)) (refl, inl (refl, above))
        | inl fits ↦
            let room : c.rendered_frames + n ≤ u64_max = ground (arith, fits) in
            subst (Advances n c) (sym (some_frames n c v ne room))
              (elim (Bool-cases (leb (floor_position n c v) u64_max)) [
                | inl low ↦
                    rw low (refl, (bounds n c v).0, (bounds n c v).1, room, ground (arith, low))
                | inr high ↦
                    rw high (refl, inr (refl, unfitting _ _ _ v.sampled (ground (arith, high))))
              ])
      ]
]
