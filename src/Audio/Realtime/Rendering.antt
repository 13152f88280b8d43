-- ===== src/Audio/Realtime/Rendering.antt =====
-- core/aurorix-audio/src/realtime.rs: the callback against a player that holds its samples as one list.
use aurorix_music.Prelude.{
  ℕ, zero, suc, ◌<◌, ◌≡◌, ◌⊎◌, refl, ap, ◌∙◌, true, false, none, some, List, [], ◌++◌, arith, inl,
  inr, Bool-cases, Option-cases,
}
use aurorix_music.Audio.Buffer.{AudioBuffer, ready, is_ready}
use aurorix_music.Audio.Realtime.{
  ActiveBlock, RenderLoop, go_on, hold_active, copy_active, render_round,
}
use aurorix_music.Audio.Realtime.Stream.{queued, pending, active_rest}
use aurorix_music.Audio.Realtime.Rounds.{
  acquire_none, acquire_some, acquired, acquired_block, acquired-IsReadable, acquired_pending,
}
use aurorix_music.Audio.Realtime.Copying
use aurorix_music.Audio.Realtime.Copying.{Rendered, copy_active_lem, after-Rendered, copied_more}

-- A round copies frames, or finds that there is nothing left.
abbrev pub Round : ℕ → List ℕ → ℕ → RenderLoop → Type 0
Round channels stream requested s =
    ((s' : RenderLoop) × (render_round requested s ≡ (true, s'))
      × Rendered channels stream requested s'
      × (s.copied_frames < s'.copied_frames))
    ⊎ ((render_round requested s ≡ (false, s)) × (pending s.consumer ≡ []))

pub queued_empty :
    (b : AudioBuffer) (m r : ℕ) → is_ready (b.slots r).state ≡ false → queued m r b ≡ []
unfolding queued
queued_empty b zero r h = refl
queued_empty b (suc m) r h = rw h

module _ (stream : List ℕ) (requested : ℕ) (s : RenderLoop) where
  copies :
      (a : ActiveBlock)
      → Rendered s.consumer.buffer.format.channels stream requested s
      → s.copied_frames < requested
      → s.consumer.active ≡ some a
      → (s' : RenderLoop) × (copy_active requested a s ≡ (true, s'))
        × Rendered s.consumer.buffer.format.channels stream requested s'
        × (s.copied_frames < s'.copied_frames)
  copies a r room e = (
    Copying.after stream requested s a r room e,
    copy_active_lem stream requested s a r room e,
    after-Rendered stream requested s a r room e,
    copied_more stream requested s a r room e,
  )

  pub acquired-Rendered :
      Rendered s.consumer.buffer.format.channels stream requested s
      → s.consumer.active ≡ none
      → (s.consumer.buffer.slots s.consumer.next_slot).state ≡ ready
      → Rendered s.consumer.buffer.format.channels stream requested
          (record s { consumer = acquired s.consumer })
  acquired-Rendered r e h = record {
    readable = acquired-IsReadable s.consumer r.readable h;
    same_channels = refl;
    in_range = r.in_range;
    fresh = r.fresh;
    written = r.written;
    written_length = r.written_length;
    silence = r.silence;
    remains = ap (λ p. r.written ++ p) (acquired_pending s.consumer r.readable e h) ∙ r.remains;
  }

  pub continues :
      {a : ActiveBlock}
      → s.consumer.active ≡ some a
      → go_on requested (true, s) ≡ copy_active requested a s
  unfolding go_on
  continues e = ground (arith, e)

module _ (stream : List ℕ) (requested : ℕ) (s : RenderLoop)
    (r : Rendered s.consumer.buffer.format.channels stream requested s)
    (room : s.copied_frames < requested) where
  Round-active :
      (a : ActiveBlock)
      → s.consumer.active ≡ some a
      → Round s.consumer.buffer.format.channels stream requested s
  unfolding render_round hold_active
  Round-active a e =
      let (s', step, r', more) = copies stream requested s a r room e in
      inl (
        s',
        ap (λ o. go_on requested (hold_active o s)) e ∙ continues stream requested s e ∙ step,
        r',
        more,
      )

  Round-full :
      s.consumer.active ≡ none
      → (s.consumer.buffer.slots s.consumer.next_slot).state ≡ ready
      → Round s.consumer.buffer.format.channels stream requested s
  unfolding render_round hold_active
  Round-full e full =
      let s1 : RenderLoop = record s { consumer = acquired s.consumer } in
      let (s', step, r', more) =
        copies stream requested s1 (acquired_block s.consumer)
          (acquired-Rendered stream requested s r e full) room refl in
      inl (
        s',
        ap (λ o. go_on requested (hold_active o s)) e
            ∙ ap (go_on requested) (acquire_some s r.readable full)
            ∙ continues stream requested s1 refl
            ∙ step,
        r',
        more,
      )

  pub stops_empty :
      s.consumer.active ≡ none
      → is_ready (s.consumer.buffer.slots s.consumer.next_slot).state ≡ false
      → render_round requested s ≡ (false, s)
  unfolding render_round hold_active go_on
  stops_empty e empty =
      ap (λ o. go_on requested (hold_active o s)) e
      ∙ ap (go_on requested) (acquire_none s r.readable empty)

  Round-empty :
      s.consumer.active ≡ none
      → is_ready (s.consumer.buffer.slots s.consumer.next_slot).state ≡ false
      → Round s.consumer.buffer.format.channels stream requested s
  Round-empty e empty = inr (
    stops_empty e empty,
    ap
          (λ a.
            active_rest a s.consumer.buffer
            ++ queued s.consumer.buffer.slot_count s.consumer.next_slot s.consumer.buffer)
          e
        ∙ queued_empty s.consumer.buffer s.consumer.buffer.slot_count s.consumer.next_slot empty,
  )

  pub round_lem : Round s.consumer.buffer.format.channels stream requested s
  round_lem = elim (Option-cases s.consumer.active) [
    | inr (a, e) ↦ Round-active a e
    | inl e ↦ elim (Bool-cases (is_ready (s.consumer.buffer.slots s.consumer.next_slot).state)) [
      | inr empty ↦ Round-empty e empty
      | inl full ↦ Round-full e (ground (arith, full))
    ]
  ]
