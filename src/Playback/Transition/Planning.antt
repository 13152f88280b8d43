-- ===== src/Playback/Transition/Planning.antt =====
-- core/aurorix-playback/src/transition.rs: how long a prebuffer is, and which transition is planned.
use aurorix_music.Prelude.{
  ℕ, ◌+◌, ◌*◌, ◌/◌, ◌%◌, ◌^◌, ◌≤◌, ◌<◌, ◌≡◌, ◌↔◌, ◌⊎◌, true, false, some, arith, Bool-cases, inl,
  inr, ◌==◌,
}
use native.Mathlib.Nat.{mul-le-mul, le-div_iff_mul-le, div-add-mod, mod-lt}
use aurorix_music.Prelude.Exec.{Result, ok, err}
use aurorix_music.Prelude.Word.{saturating_mul}
use aurorix_music.Playback.Transition.{
  PrebufferTarget, PrebufferState, PreparedNext, CrossfadePolicy, TransitionError,
  from_milliseconds, is_ready, fill_ratio_millionths, decide, decision_index, bit_perfect_eligible,
  is_mixed_dsp,
}

-- The target of a duration is not shorter than it, and by less than one frame.
abbrev pub Covers : ℕ → ℕ → Result TransitionError PrebufferTarget → Type 0
Covers rate ms (ok t) =
    (t.sample_rate_hz ≡ rate)
    × (rate * ms ≤ t.target_frames * 1000)
    × (t.target_frames * 1000 < rate * ms + 1000)
Covers rate ms (err e) = ⊥

-- At a positive 32-bit rate and a 32-bit duration a target is computed without overflow, and it is the least
-- number of frames that is not shorter than the duration.
pub from_milliseconds-Covers :
    (rate ms : ℕ)
    → 0 < rate
    → rate < 2 ^ 32
    → ms < 2 ^ 32
    → Covers rate ms (from_milliseconds rate ms)
unfolding from_milliseconds
from_milliseconds-Covers rate ms h r m =
    let bound : rate * ms ≤ 4294967295 * 4294967295 =
      let r' : rate ≤ 4294967295 = omega arith in
      let m' : ms ≤ 4294967295 = omega arith in mul-le-mul r' m' in
    let rest : (rate * ms + 999) % 1000 < 1000 = mod-lt (rate * ms + 999) (omega arith) in
    ground (arith, bound, div-add-mod (rate * ms + 999) 1000, rest)

-- The planner selects an item exactly when it was prepared for the current generation, has reached its
-- target and either crossfades or has known delay and padding.
pub decide_iff :
    (policy : CrossfadePolicy) (g i : ℕ) (n : PreparedNext)
    → (decision_index (decide policy g (some n)) ≡ some i) ↔ (
        (n.item_index ≡ i)
        × (n.buffer_generation ≡ g)
        × (is_ready n.prebuffer ≡ true)
        × ((policy.enabled ≡ true) ⊎ (n.delay_padding.is_known ≡ true)))
unfolding decide
decide_iff policy g i n = ground arith

-- A decision that keeps the output bit-perfect is a gapless one: it was made without crossfade, at the current
-- generation, for an item with a full prebuffer and known delay and padding.
pub bit_perfect_lem :
    (policy : CrossfadePolicy) (g : ℕ) (n : PreparedNext)
    → bit_perfect_eligible (decide policy g (some n)) ≡ true
    → (policy.enabled ≡ false)
      × (n.buffer_generation ≡ g)
      × (is_ready n.prebuffer ≡ true)
      × (n.delay_padding.is_known ≡ true)
      × (is_mixed_dsp (decide policy g (some n)) ≡ false)
unfolding decide
bit_perfect_lem policy g n h = ground arith

-- A target of fewer than 2^64 millionths of a frame is full, in millionths, exactly when it is reached.
pub fill_ratio_iff :
    (b : PrebufferState)
    → b.target.target_frames * 1000000 < 2 ^ 64
    → (fill_ratio_millionths b ≡ 1000000) ↔ (is_ready b ≡ true)
unfolding fill_ratio_millionths
fill_ratio_iff b h = elim (Bool-cases (b.target.target_frames == 0)) [
  | inl z ↦ rw (z, fill_ratio_millionths) (ground arith)
  | inr z ↦
      let scaled = saturating_mul b.buffered_frames 1000000 in
      let full : (1000000 ≤ scaled / b.target.target_frames)
          ↔ (1000000 * b.target.target_frames ≤ scaled) =
        le-div_iff_mul-le (ground arith) in
      rw (z, fill_ratio_millionths) (ground (arith, full))
]
