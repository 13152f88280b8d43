-- ===== src/Audio/Realtime/Exchange/Order.antt =====
-- core/aurorix-audio/src/buffer.rs and realtime.rs: the order of the samples between the producer and the callback.
use aurorix_music.Prelude.{
  ℕ, ◌+◌, ◌%◌, ◌≡◌, inl, inr, Bool, Bool-cases, ap, sym, subst, List, [], ◌∷◌, if◌then◌else◌, arith,
}
use aurorix_music.Audio.Buffer.{AudioBuffer, is_vacant, vacant}
use aurorix_music.Audio.Realtime.{RealtimeConsumer, render}
use aurorix_music.Audio.Realtime.Stream.{pending}
use aurorix_music.Audio.Realtime.Rounds.{IsReadable}
use aurorix_music.Audio.Realtime.Serving.{render-Serves}
use aurorix_music.Audio.Realtime.Keeping.{IsKept, render-IsKept}
use aurorix_music.Audio.Realtime.Exchange.{
  Call, feeds, renders, taken, refused, exchange, IsQueue, AreWhole,
}
use aurorix_music.Audio.Realtime.Exchange.Taking.{
  feed_refused, feed_taken, feed-IsReadable, feed-IsKept, feed_appends, after_feed,
}

-- For a callback with readable blocks, a pool whose ready slots are a run up to the producer's next slot, and any
-- sequence of calls, blocks that fit and outputs of whole frames: the blocks that are taken and the outputs
-- are those of one queue of samples, first in, first out, with silence where it is empty.
pub exchange-IsQueue :
    (frames w : ℕ) (calls : List Call) (c : RealtimeConsumer)
    → IsReadable c
    → IsKept frames w c
    → AreWhole c.buffer.format.channels frames calls
    → IsQueue (exchange calls w c) (pending c)
unfolding exchange IsQueue
exchange-IsQueue frames w [] c readable v a = tt
exchange-IsQueue frames w (feeds values ∷ calls) c readable v (some_samples, aligned, fits, a) =
    let outcome = λ (o : Bool × ℕ × AudioBuffer).
      IsQueue
        ((if o.0 then taken values else refused) ∷ exchange calls o.1 (record c { buffer = o.2 }))
        (pending c) in
    elim (Bool-cases (is_vacant (c.buffer.slots w).state)) [
      | inr busy ↦
          subst outcome (sym (feed_refused frames w values c readable v busy))
            (exchange-IsQueue frames w calls c readable v a)
      | inl vacant_slot ↦
          let free : (c.buffer.slots w).state ≡ vacant = ground (arith, vacant_slot) in
          subst outcome
            (sym (feed_taken frames w values c readable v free some_samples aligned fits))
            (subst
              (IsQueue (
                exchange calls ((w + 1) % c.buffer.slot_count)
                  (after_feed frames w values c readable v free some_samples aligned fits)))
              (feed_appends frames w values c readable v free some_samples aligned fits)
              (exchange-IsQueue frames ((w + 1) % c.buffer.slot_count) calls _
                (feed-IsReadable frames w values c readable v free some_samples aligned fits)
                (feed-IsKept frames w values c readable v free some_samples aligned fits) a))
    ]
exchange-IsQueue frames w (renders slice ∷ calls) c readable v (aligned, a) =
    let now = render-Serves slice c readable aligned in
    (
      ap (λ (x : List ℕ × List ℕ). x.0) (now.0),
      subst (IsQueue (exchange calls w (render slice c).2))
          (ap (λ (x : List ℕ × List ℕ). x.1) (now.0))
          (exchange-IsQueue frames w calls (render slice c).2 (now.5)
            (render-IsKept frames w slice c readable aligned v)
            (subst (λ k. AreWhole k frames calls) (sym (now.4)) a)),
    )
