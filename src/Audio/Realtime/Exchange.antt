-- ===== src/Audio/Realtime/Exchange.antt =====
-- core/aurorix-audio/src/buffer.rs and realtime.rs: the calls of a producer that feeds the pool and of the callback
-- that renders from it, in any order.
pub mod Taking
pub mod Order
pub mod Fresh
use aurorix_music.Prelude.{
  ℕ, zero, suc, ◌+◌, ◌*◌, ◌/◌, ◌%◌, ◌≤◌, ◌<◌, ◌≡◌, ◌≢◌, ◌⊎◌, inl, inr, Bool, Bool-cases, Option,
  none, some, refl, ap, ap₂, ◌∙◌, sym, subst, true, false, List, [], ◌∷◌, ◌++◌, ◌==◌, length,
  if◌then◌else◌, arith,
}
use aurorix_music.Prelude.Exec.{ok, err}
use aurorix_music.Audio.Buffer.{
  AudioBuffer, BufferSlot, ready, reading, is_vacant, is_ready, vacant, try_acquire, lease_write,
  lease_publish,
}
use aurorix_music.Audio.Pcm.{AudioBlock, take, drop}
use aurorix_music.Audio.Realtime.{ActiveBlock, RealtimeConsumer, render}
use aurorix_music.Audio.Realtime.Stream.{slot_samples, queued, dist, pending, active_rest}
use aurorix_music.Audio.Realtime.Ring.{IsRing, published-IsRing, dist_refl}
use aurorix_music.Audio.Realtime.Rounds.{IsReadable, IsPlayable, IsHeld}
use aurorix_music.Audio.Realtime.Player.{serve}
use aurorix_music.Audio.Realtime.Serving.{render-Serves}
use aurorix_music.Audio.Realtime.Feeding.{fed, feed_lem, length-overwrite}
use aurorix_music.Audio.Realtime.Appending.{is_full, queued_appends}
use aurorix_music.Audio.Realtime.Keeping.{IsKept, render-IsKept}
use mathlib.Core.List.{append_assoc}

-- A block for the producer, or an output slice for the callback.
pub data Call : Type 0 where
  feeds renders : List ℕ → Call

-- What came of a call: the block was taken, the producer's next slot was not free, or so many samples were asked for
-- and the output was written.
pub data Event : Type 0 where
  taken : List ℕ → Event
  refused : Event
  played : ℕ → List ℕ → Event

-- The producer's calls for a block: whether it was published, the next slot and the pool.
unfoldable pub feed : List ℕ → ℕ → AudioBuffer → Bool × ℕ × AudioBuffer
feed values w b =
    let (acquired, b1) = try_acquire w b in
    elim acquired [
      | none ↦ (false, w, b1)
      | some l ↦
          let (published, w', b3) = lease_publish l w (lease_write values l b1).1 in
          (elim published [ ok _ ↦ true | err _ ↦ false ], w', b3)
    ]

unfoldable pub exchange : List Call → ℕ → RealtimeConsumer → List Event
unfolding feed
exchange [] w c = []
exchange (feeds values ∷ calls) w c =
    let (published, w', b) = feed values w c.buffer in
    (if published then taken values else refused) ∷ exchange calls w' (record c { buffer = b })
exchange (renders slice ∷ calls) w c =
    let (_, out, c') = render slice c in played (length slice) out ∷ exchange calls w c'

-- The events of a queue of samples: a block is put at its end, an output is its first samples and then silence.
unfoldable pub IsQueue : List Event → List ℕ → Type 0
IsQueue [] stream = Unit
IsQueue (taken values ∷ events) stream = IsQueue events (stream ++ values)
IsQueue (refused ∷ events) stream = IsQueue events stream
IsQueue (played n out ∷ events) stream =
    (out ≡ (serve n stream).0) × IsQueue events (serve n stream).1

-- Blocks and outputs are of whole frames, and a block is not empty and fits.
abbrev pub AreWhole : ℕ → ℕ → List Call → Type 0
AreWhole channels frames [] = Unit
AreWhole channels frames (feeds values ∷ calls) =
    (0 < length values)
    × (length values % channels ≡ 0)
    × (length values / channels ≤ frames)
    × AreWhole channels frames calls
AreWhole channels frames (renders slice ∷ calls) =
    (length slice % channels ≡ 0) × AreWhole channels frames calls
