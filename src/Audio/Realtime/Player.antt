-- ===== src/Audio/Realtime/Player.antt =====
-- core/aurorix-audio/src/realtime.rs: the callback against a player that holds its
-- samples as one list.
use mathlib.Core.List.{append-nil}
use native.Mathlib.Nat.{add-mul}
use aurorix_music.Prelude.{
  ℕ, zero, suc, ◌+◌, ◌-◌, ◌*◌, ◌≤◌, ◌<◌, ◌≡◌, ◌⊎◌, refl, ap, ap₂, subst, length-append, ◌∙◌, sym,
  Bool, true, false, List, [], ◌++◌, ltb, length, min, arith, inl, inr, Bool-cases, ltb→lt,
}
use aurorix_music.Audio.Pcm.{drop, take, zeroes}
use aurorix_music.Audio.Realtime.{RenderLoop, render_round, render_loop}
use aurorix_music.Audio.Realtime.Stream.{pending}
use aurorix_music.Audio.Realtime.Copying.{Rendered}
use aurorix_music.Audio.Realtime.Slices.{take-append, drop-append, take_all, drop_all}
use aurorix_music.Audio.Realtime.Rendering.{Round, round_lem}

-- The loop has written all it was asked for, or all that there was.
abbrev pub Finished : ℕ → List ℕ → ℕ → RenderLoop → Type 0
Finished channels stream requested s =
    Rendered channels stream requested s
    × ((s.copied_frames ≡ requested) ⊎ (pending s.consumer ≡ []))

pub Round-any :
    (channels : ℕ) (stream : List ℕ) (requested : ℕ) (s : RenderLoop)
    → Rendered channels stream requested s
    → s.copied_frames < requested
    → Round channels stream requested s
Round-any channels stream requested s r room =
    subst (λ k. Round k stream requested s) r.same_channels
      (round_lem stream requested s
        (subst (λ k. Rendered k stream requested s) (sym r.same_channels) r) room)

pub loop_again :
    (fuel requested : ℕ) (s s' : RenderLoop) (again : Bool)
    → s.copied_frames < requested
    → render_round requested s ≡ (again, s')
    → render_loop (suc fuel) requested s
      ≡ (elim again [ true ↦ render_loop fuel requested s' | false ↦ s' ])
unfolding render_loop
loop_again fuel requested s s' again room e = ground (arith, e, room)

pub loop_stops :
    (fuel requested : ℕ) (s : RenderLoop)
    → requested ≤ s.copied_frames
    → render_loop fuel requested s ≡ s
unfolding render_loop
loop_stops zero requested s h = refl
loop_stops (suc fuel) requested s h = ground arith

pub loop_finishes :
    (fuel channels : ℕ) (stream : List ℕ) (requested : ℕ) (s : RenderLoop)
    → Rendered channels stream requested s
    → requested - s.copied_frames < fuel
    → Finished channels stream requested (render_loop fuel requested s)
loop_finishes zero channels stream requested s r h = elim h [ ]
loop_finishes (suc fuel) channels stream requested s r h =
    elim (Bool-cases (ltb s.copied_frames requested)) [
      | inr full ↦
          subst (Finished channels stream requested)
            (sym (loop_stops (suc fuel) requested s (ground (arith, full))))
            (r, inl (ground (arith, full, r.in_range)))
      | inl room ↦ elim (Round-any channels stream requested s r (ltb→lt _ _ room)) [
        | inr (e, out) ↦
            subst (Finished channels stream requested)
              (sym (loop_again fuel requested s s false (ltb→lt _ _ room) e)) (r, inr out)
        | inl (s', e, r', more) ↦
            subst (Finished channels stream requested)
              (sym (loop_again fuel requested s s' true (ltb→lt _ _ room) e))
              (loop_finishes fuel channels stream requested s' r'
                (omega (arith, more, ltb→lt _ _ room)))
      ]
    ]

-- A player that holds its samples as one list: what it writes where `n` samples are asked for, and what it keeps.
unfoldable pub serve : ℕ → List ℕ → List ℕ × List ℕ
unfolding take drop zeroes
serve n stream = (take n stream ++ zeroes (n - length stream), drop n stream)

module _ {channels : ℕ} {stream : List ℕ} {requested : ℕ} {s : RenderLoop}
    (r : Rendered channels stream requested s) where
  room :
      requested * channels ≡ s.copied_frames * channels + (requested - s.copied_frames) * channels
  room =
      let parts : s.copied_frames + (requested - s.copied_frames) ≡ requested =
        omega (arith, r.in_range) in
      omega (
        arith,
        add-mul s.copied_frames (requested - s.copied_frames) channels,
        ap (λ (t : ℕ). t * channels) parts,
      )

  stream_length : length stream ≡ s.copied_frames * channels + length (pending s.consumer)
  stream_length = omega (
    arith,
    ap (λ (p : List ℕ). length p) r.remains,
    length-append {0} r.written (pending s.consumer),
    r.written_length,
  )

  -- All of the output was written.
  served_full :
      s.copied_frames ≡ requested
      → (s.output ≡ (serve (requested * channels) stream).0)
        × (pending s.consumer ≡ (serve (requested * channels) stream).1)
  unfolding serve
  served_full e =
      let all : requested * channels ≡ length r.written =
        omega (arith, r.written_length, ap (λ (t : ℕ). t * channels) e) in
      (
        r.silence
            ∙ ap₂ (λ xs k. xs ++ zeroes k)
                (sym (take-append r.written (pending s.consumer) (requested * channels) all)
                  ∙ ap (take (requested * channels)) r.remains)
                (omega (arith, room, all, stream_length, r.written_length)),
        sym (drop-append r.written (pending s.consumer) (requested * channels) all)
            ∙ ap (drop (requested * channels)) r.remains,
      )

  -- The stream was used up.
  served_short :
      pending s.consumer ≡ []
      → (s.output ≡ (serve (requested * channels) stream).0)
        × (pending s.consumer ≡ (serve (requested * channels) stream).1)
  unfolding serve
  served_short e =
      let all : r.written ≡ stream =
        sym (append-nil r.written) ∙ ap (λ p. r.written ++ p) (sym e) ∙ r.remains in
      let long : length stream ≤ requested * channels =
        omega (arith, room, stream_length, ap (λ (p : List ℕ). length p) e) in
      (
        r.silence
            ∙ ap₂ (λ xs k. xs ++ zeroes k) (all ∙ sym (take_all (requested * channels) stream long))
                (omega (arith, room, stream_length, ap (λ (p : List ℕ). length p) e)),
        e ∙ sym (drop_all (requested * channels) stream long),
      )

  pub served_count :
      (s.copied_frames ≡ requested) ⊎ (pending s.consumer ≡ [])
      → s.copied_frames * channels ≡ min (requested * channels) (length stream)
  served_count (inl e) = ground (arith, stream_length, ap (λ (t : ℕ). t * channels) e)
  served_count (inr e) = ground (arith, stream_length, ap (λ (p : List ℕ). length p) e, room)

pub served_lem :
    {channels : ℕ} {stream : List ℕ} {requested : ℕ} {s : RenderLoop}
    (r : Rendered channels stream requested s)
    → (s.copied_frames ≡ requested) ⊎ (pending s.consumer ≡ [])
    → (s.output ≡ (serve (requested * channels) stream).0)
      × (pending s.consumer ≡ (serve (requested * channels) stream).1)
served_lem r (inl e) = served_full r e
served_lem r (inr e) = served_short r e
