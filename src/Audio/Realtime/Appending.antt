-- ===== src/Audio/Realtime/Appending.antt =====
-- core/aurorix-audio/src/buffer.rs: what the callback has before it once the producer has published a block.
use mathlib.Core.List.{append-nil, append_assoc}
use aurorix_music.Prelude.{
  ℕ, zero, suc, ◌+◌, ◌%◌, ◌≤◌, ◌<◌, ◌≡◌, ◌≢◌, inl, inr, Bool, Bool-cases, refl, ap, ◌∙◌, true,
  false, [], ◌++◌, ◌==◌, arith,
}
use aurorix_music.Audio.Buffer.{AudioBuffer, is_ready}
use aurorix_music.Audio.Realtime.Stream.{slot_samples, queued, dist}
use aurorix_music.Audio.Realtime.Ring.{IsRing, dist_lt, dist_inj, dist_succ}
use aurorix_music.Audio.Realtime.Rendering.{queued_empty}

-- The slots of the pool that are ready.
abbrev pub is_full : AudioBuffer → ℕ → Bool
is_full b j = is_ready (b.slots j).state

module _ (b b' : AudioBuffer) (r w k : ℕ) (same : b'.slot_count ≡ b.slot_count)
    (v : IsRing b.slot_count (is_full b) r w k) (below : k < b.slot_count)
    (filled : is_full b' w ≡ true)
    (others : (j : ℕ)
      → j ≢ w
      → (is_full b' j ≡ is_full b j) × (slot_samples b' j ≡ slot_samples b j)) where
  abbrev n : ℕ
  n = b.slot_count

  writer_free : is_full b w ≡ false
  writer_free = v.rest_free w v.writer_lt (omega (arith, v.after below))

  -- The queue ends behind the slot that was filled.
  behind : (m : ℕ) → suc m + k ≡ n → queued m ((w + 1) % n) b' ≡ []
  unfolding queued
  behind zero h = refl
  behind (suc m) h =
      let next : dist n r ((w + 1) % n) ≡ k + 1 =
        dist_succ n r w v.reader_lt v.writer_lt (omega (arith, v.after below, h))
        ∙ ap (λ d. d + 1) (v.after below) in
      let apart : (w + 1) % n ≢ w = λ e. omega (arith, ap (dist n r) e, next, v.after below) in
      queued_empty b' (suc m) ((w + 1) % n) (
        (others ((w + 1) % n) apart).0
        ∙ v.rest_free ((w + 1) % n) (omega (arith, v.writer_lt)) (omega (arith, next)))

  pub queued_appends :
      (m s : ℕ)
      → s < n
      → dist n r s ≤ k
      → m + dist n r s ≡ n
      → queued m s b' ≡ queued m s b ++ slot_samples b' w
  unfolding queued
  queued_appends zero s lt le e = absurd (omega (arith, e, dist_lt n r s v.reader_lt lt))
  queued_appends (suc m) s lt le e = elim (Bool-cases (s == w)) [
    | inl at ↦
        let at_end : suc m + k ≡ n = ground (arith, at, e, v.after below) in
        ground (
          arith,
          at,
          writer_free,
          filled,
          append-nil (slot_samples b' w),
          behind m (omega (arith, at_end)),
          same,
        )
    | inr before ↦
        let apart : s ≢ w = ground (arith, before) in
        let near : dist n r s < k =
          ground (arith, le, apart, dist_inj n r s w v.reader_lt lt v.writer_lt, v.after below) in
        let next = dist_succ n r s v.reader_lt lt (omega (arith, near, below)) in
        ground (
          arith,
          v.run_full s lt near,
          others s apart,
          queued_appends m ((s + 1) % n) (omega arith) (omega (arith, next, near))
              (omega (arith, next, e)),
          append_assoc (slot_samples b s) (queued m ((s + 1) % n) b) (slot_samples b' w),
          same,
        )
  ]
