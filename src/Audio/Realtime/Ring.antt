-- ===== src/Audio/Realtime/Ring.antt =====
-- core/aurorix-audio/src/buffer.rs: the ready slots as a run on the ring, from the callback's next slot to the
-- producer's.
use aurorix_music.Prelude.{
  ℕ, ◌+◌, ◌-◌, ◌%◌, ◌≤◌, ◌<◌, ◌≡◌, ◌≢◌, inl, inr, Bool, Bool-cases, ap, ◌∙◌, true, false, ◌==◌, ltb,
  arith,
}
use aurorix_music.Audio.Realtime.Stream.{dist, next_index}

pub dist_lt : (n r s : ℕ) → r < n → s < n → dist n r s < n
unfolding dist
dist_lt n r s h k = ground arith

pub dist_inj : (n r s t : ℕ) → r < n → s < n → t < n → dist n r s ≡ dist n r t → s ≡ t
unfolding dist
dist_inj n r s t h k l e = ground arith

-- One slot on.
pub dist_succ :
    (n r s : ℕ) → r < n → s < n → dist n r s + 1 < n → dist n r ((s + 1) % n) ≡ dist n r s + 1
unfolding dist
dist_succ n r s h k lt = rw (next_index n s k) (ground arith)

-- The last slot before `r` is followed by `r`.
dist_last : (n r s : ℕ) → r < n → s < n → dist n r s + 1 ≡ n → (s + 1) % n ≡ r
unfolding dist
dist_last n r s h k e = rw (next_index n s k) (ground arith)

pub dist_refl : (n r : ℕ) → dist n r r ≡ 0
unfolding dist
dist_refl n r = ground arith

-- The distance from one slot further on.
dist_from : (n r s : ℕ) → r < n → s < n → s ≢ r → dist n ((r + 1) % n) s + 1 ≡ dist n r s
unfolding dist
dist_from n r s h k ne = rw (next_index n r h) (ground (arith, ne))

dist_self : (n r : ℕ) → r < n → dist n ((r + 1) % n) r + 1 ≡ n
unfolding dist
dist_self n r h = rw (next_index n r h) (ground arith)

-- Of `n` slots, those that are full are the `k` slots from slot `r` on, and slot `w` comes after them.
pub record IsRing (n : ℕ) (full : ℕ → Bool) (r w k : ℕ) : Type 0 where
  pub few : k ≤ n
  pub reader_lt : r < n
  pub writer_lt : w < n
  pub after : k < n → dist n r w ≡ k
  pub around : k ≡ n → w ≡ r
  pub run_full : (j : ℕ) → j < n → dist n r j < k → full j ≡ true
  pub rest_free : (j : ℕ) → j < n → k ≤ dist n r j → full j ≡ false

pub same-IsRing :
    (n : ℕ) (full full' : ℕ → Bool) (r w k : ℕ)
    → ((j : ℕ) → full' j ≡ full j)
    → IsRing n full r w k
    → IsRing n full' r w k
same-IsRing n full full' r w k same v = record {
  few = v.few;
  reader_lt = v.reader_lt;
  writer_lt = v.writer_lt;
  after = v.after;
  around = v.around;
  run_full = λ j lt d. same j ∙ v.run_full j lt d;
  rest_free = λ j lt d. same j ∙ v.rest_free j lt d;
}

module _ (n : ℕ) (full full' : ℕ → Bool) (r w k : ℕ) (v : IsRing n full r w k) where
  -- The first slot of the run is taken out.
  module _ (first : full r ≡ true) (out : full' r ≡ false)
      (others : (j : ℕ) → j ≢ r → full' j ≡ full j) where
    some_full : 0 < k
    some_full = ground (arith, v.rest_free r v.reader_lt, dist_refl n r, first)

    claimed_after : k - 1 < n → dist n ((r + 1) % n) w ≡ k - 1
    claimed_after h = elim (Bool-cases (ltb k n)) [
      | inl below ↦
          let apart : w ≢ r = ground (arith, v.after, below, some_full, dist_refl n r) in
          ground (arith, v.after, below, dist_from n r w v.reader_lt v.writer_lt apart)
      | inr all ↦ ground (arith, v.around, all, v.few, dist_self n r v.reader_lt)
    ]

    claimed_run : (j : ℕ) → j < n → dist n ((r + 1) % n) j < k - 1 → full' j ≡ true
    claimed_run j lt d = elim (Bool-cases (j == r)) [
      | inl e ↦ ground (arith, e, d, dist_self n r v.reader_lt, v.few)
      | inr ne ↦
          let apart : j ≢ r = ground (arith, ne) in
          others j apart ∙ v.run_full j lt (omega (arith, d, dist_from n r j v.reader_lt lt apart))
    ]

    claimed_rest : (j : ℕ) → j < n → k - 1 ≤ dist n ((r + 1) % n) j → full' j ≡ false
    claimed_rest j lt d = elim (Bool-cases (j == r)) [
      | inl e ↦ ground (arith, e, out)
      | inr ne ↦
          let apart : j ≢ r = ground (arith, ne) in
          others j apart ∙ v.rest_free j lt (omega (arith, d, dist_from n r j v.reader_lt lt apart))
    ]

    pub claimed-IsRing : IsRing n full' ((r + 1) % n) w (k - 1)
    claimed-IsRing = record {
      few = omega (arith, v.few);
      reader_lt = omega (arith, v.reader_lt);
      writer_lt = v.writer_lt;
      after = claimed_after;
      around = omega (arith, v.few, some_full);
      run_full = claimed_run;
      rest_free = claimed_rest;
    }

  -- The slot after the run is filled.
  module _ (free : full w ≡ false) (filled : full' w ≡ true)
      (others : (j : ℕ) → j ≢ w → full' j ≡ full j) where
    some_free : k < n
    some_free =
        ground (arith, v.few, v.run_full w v.writer_lt, dist_lt n r w v.reader_lt v.writer_lt, free)

    published_run : (j : ℕ) → j < n → dist n r j < k + 1 → full' j ≡ true
    published_run j lt d = elim (Bool-cases (j == w)) [
      | inl e ↦ ground (arith, e, filled)
      | inr ne ↦
          let apart : j ≢ w = ground (arith, ne) in
          others j apart
          ∙ v.run_full j lt (
              ground
                (arith, d, dist_inj n r j w v.reader_lt lt v.writer_lt, v.after some_free, apart))
    ]

    published_rest : (j : ℕ) → j < n → k + 1 ≤ dist n r j → full' j ≡ false
    published_rest j lt d = elim (Bool-cases (j == w)) [
      | inl e ↦ ground (arith, e, d, v.after some_free)
      | inr ne ↦ others j (ground (arith, ne)) ∙ v.rest_free j lt (omega (arith, d))
    ]

    pub published-IsRing : IsRing n full' r ((w + 1) % n) (k + 1)
    published-IsRing = record {
      few = omega (arith, some_free);
      reader_lt = v.reader_lt;
      writer_lt = omega (arith, v.writer_lt);
      after = λ h.
          dist_succ n r w v.reader_lt v.writer_lt (omega (arith, h, v.after some_free))
          ∙ ap (λ d. d + 1) (v.after some_free);
      around = λ h. dist_last n r w v.reader_lt v.writer_lt (omega (arith, h, v.after some_free));
      run_full = published_run;
      rest_free = published_rest;
    }
