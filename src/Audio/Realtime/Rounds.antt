-- ===== src/Audio/Realtime/Rounds.antt =====
-- core/aurorix-audio/src/realtime.rs: the rounds of the loop in `render`.
use native.Mathlib.Nat.{zero-mul}
use aurorix_music.Prelude.{
  ℕ, suc, ◌+◌, ◌-◌, ◌*◌, ◌%◌, ◌≤◌, ◌<◌, ◌≡◌, refl, ap, ◌∙◌, sym, true, false, Option, none, some,
  ◌++◌, length, arith,
}
use aurorix_music.Audio.Pcm.{drop}
use aurorix_music.Audio.Buffer.{AudioBuffer, ready, reading, is_ready, set_slot_state}
use aurorix_music.Audio.Realtime.{
  ActiveBlock, RealtimeConsumer, RenderLoop, try_acquire_active_block,
}
use aurorix_music.Audio.Realtime.Stream.{slot_samples, queued, active_rest, pending, queued_next}

-- A block that can be rendered.
abbrev pub IsPlayable : AudioBuffer → ℕ → Type 0
IsPlayable b j =
    ((b.slots j).block.generation ≡ b.generation)
    × (0 < (b.slots j).block.valid_frames)
    × ((b.slots j).block.format.channels ≡ b.format.channels)
    × ((b.slots j).block.valid_frames * b.format.channels ≤ length (b.slots j).block.samples)

-- The block at hand is one that can be rendered, with frames left.
abbrev pub IsHeld : AudioBuffer → Option ActiveBlock → Type 0
IsHeld b none = Unit
IsHeld b (some a) =
    ((b.slots a.ready.index).state ≡ reading)
    × IsPlayable b a.ready.index
    × (a.ready.valid_frames ≡ (b.slots a.ready.index).block.valid_frames)
    × (a.ready.generation ≡ b.generation)
    × (a.consumed_frames < a.ready.valid_frames)

-- What the callback finds while no generation is being stored.
pub record IsReadable (c : RealtimeConsumer) : Type 0 where
  pub channels : 0 < c.buffer.format.channels
  pub next_lt : c.next_slot < c.buffer.slot_count
  pub open_pool : c.buffer.resetting ≡ false
  pub blocks : (j : ℕ) → (c.buffer.slots j).state ≡ ready → IsPlayable c.buffer j
  pub held : IsHeld c.buffer c.active

pub acquire_none :
    (s : RenderLoop)
    → IsReadable s.consumer
    → is_ready (s.consumer.buffer.slots s.consumer.next_slot).state ≡ false
    → try_acquire_active_block s ≡ (false, s)
unfolding try_acquire_active_block
acquire_none s v h = ground (arith, v.open_pool, h)

-- The block that the callback has just claimed.
abbrev pub acquired_block : RealtimeConsumer → ActiveBlock
acquired_block c =
    let block = (c.buffer.slots c.next_slot).block in
    record {
      ready = record {
        index = c.next_slot;
        valid_frames = block.valid_frames;
        generation = block.generation;
      };
      consumed_frames = 0;
    }

abbrev pub acquired : RealtimeConsumer → RealtimeConsumer
acquired c = record c {
  buffer = set_slot_state c.next_slot reading c.buffer;
  next_slot = (c.next_slot + 1) % c.buffer.slot_count;
  active = some (acquired_block c);
}

pub acquire_some :
    (s : RenderLoop)
    → IsReadable s.consumer
    → (s.consumer.buffer.slots s.consumer.next_slot).state ≡ ready
    → try_acquire_active_block s ≡ (true, record s { consumer = acquired s.consumer })
unfolding try_acquire_active_block
acquire_some s v h = ground (arith, v.open_pool, h, v.blocks s.consumer.next_slot h)

pub acquired-IsReadable :
    (c : RealtimeConsumer)
    → IsReadable c
    → (c.buffer.slots c.next_slot).state ≡ ready
    → IsReadable (acquired c)
acquired-IsReadable c v h = record {
  channels = v.channels;
  next_lt = ground (arith, v.next_lt);
  open_pool = v.open_pool;
  blocks = λ j e. ground (arith, v.blocks j);
  held = ground (arith, v.blocks c.next_slot h);
}

ready_step :
    (b : AudioBuffer) (r m : ℕ)
    → (b.slots r).state ≡ ready
    → queued (suc m) r b ≡ slot_samples b r ++ queued m ((r + 1) % b.slot_count) b
unfolding queued
ready_step b r m h = ground (arith, h)

first_samples :
    (c : RealtimeConsumer)
    → drop (0 * c.buffer.format.channels) (slot_samples (acquired c).buffer c.next_slot)
      ≡ slot_samples c.buffer c.next_slot
unfolding drop
first_samples c = rw zero-mul (ground arith)

-- The queue as its first block and the rest, which the claim of that block leaves.
queued_claimed :
    (b : AudioBuffer) (r m : ℕ)
    → b.slot_count ≡ suc m
    → r < b.slot_count
    → (b.slots r).state ≡ ready
    → queued b.slot_count r b
      ≡ slot_samples b r
        ++ queued b.slot_count ((r + 1) % b.slot_count) (set_slot_state r reading b)
unfolding queued
queued_claimed b r m count lt h =
    ap (λ n. queued n r b) count
    ∙ ready_step b r m h
    ∙ ap (λ q. slot_samples b r ++ q)
        (sym (
          ap (λ n. queued n ((r + 1) % b.slot_count) (set_slot_state r reading b)) count
          ∙ queued_next b (set_slot_state r reading b) m r count refl lt
              (λ j ne. ground (arith, ne)) (ground arith)))

pub acquired_pending :
    (c : RealtimeConsumer)
    → IsReadable c
    → c.active ≡ none
    → (c.buffer.slots c.next_slot).state ≡ ready
    → pending (acquired c) ≡ pending c
acquired_pending c v e h =
    let samples : drop (0 * c.buffer.format.channels) (slot_samples (acquired c).buffer c.next_slot)
        ≡ slot_samples c.buffer c.next_slot =
      first_samples c in
    ap
      (λ xs.
        xs
        ++ queued c.buffer.slot_count ((c.next_slot + 1) % c.buffer.slot_count)
            (set_slot_state c.next_slot reading c.buffer))
      samples
    ∙ sym (
        queued_claimed c.buffer c.next_slot (c.buffer.slot_count - 1) (omega (arith, v.next_lt))
          v.next_lt h)
    ∙ ap (λ a. active_rest a c.buffer ++ queued c.buffer.slot_count c.next_slot c.buffer) (sym e)
