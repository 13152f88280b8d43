-- ===== src/Audio/Realtime/Stream.antt =====
-- core/aurorix-audio/src/realtime.rs: the samples that the callback has before it, as one list.
use aurorix_music.Prelude.{
  ℕ, zero, suc, ◌+◌, ◌-◌, ◌*◌, ◌%◌, ◌≤◌, ◌<◌, ◌≡◌, ◌≢◌, refl, ap, sym, ◌∙◌, true, false, Option,
  none, some, List, [], ◌++◌, ◌==◌, leb, if◌then◌else◌, arith,
}
use aurorix_music.Audio.Pcm.{drop, take}
use aurorix_music.Audio.Buffer.{AudioBuffer, is_ready}
use aurorix_music.Audio.Realtime.{ActiveBlock, RealtimeConsumer}

-- The valid samples of the slot's block.
abbrev pub slot_samples : AudioBuffer → ℕ → List ℕ
slot_samples b r =
    take ((b.slots r).block.valid_frames * b.format.channels) (b.slots r).block.samples

-- The samples of the ready slots, from slot `r` on as far as they go, among the next `m` slots.
unfoldable pub queued : ℕ → ℕ → AudioBuffer → List ℕ
queued zero r b = []
queued (suc m) r b =
    if is_ready (b.slots r).state
    then slot_samples b r ++ queued m ((r + 1) % b.slot_count) b
    else []

-- What is left of the block at hand.
abbrev pub active_rest : Option ActiveBlock → AudioBuffer → List ℕ
active_rest none b = []
active_rest (some a) b = drop (a.consumed_frames * b.format.channels) (slot_samples b a.ready.index)

abbrev pub pending : RealtimeConsumer → List ℕ
pending c = active_rest c.active c.buffer ++ queued c.buffer.slot_count c.next_slot c.buffer

-- How far slot `s` is before slot `r` on the ring.
unfoldable pub dist : ℕ → ℕ → ℕ → ℕ
dist n s r = if leb s r then r - s else r + n - s

pub next_index : (n s : ℕ) → s < n → (s + 1) % n ≡ (if s + 1 == n then 0 else s + 1)
next_index n s h = grind arith

dist_zero : (n s r : ℕ) → s < n → r < n → dist n s r ≡ 0 → s ≡ r
unfolding dist
dist_zero n s r h k e = ground arith

dist_pos : (n s r : ℕ) → 0 < dist n s r → s ≢ r
unfolding dist
dist_pos n s r h e = ground arith

dist_next : (n s r : ℕ) → s < n → r < n → s ≢ r → dist n ((s + 1) % n) r + 1 ≡ dist n s r
unfolding dist
dist_next n s r h k ne = rw (next_index n s h) (ground (arith, ne))

dist_around : (n r : ℕ) → r < n → dist n ((r + 1) % n) r + 1 ≡ n
unfolding dist
dist_around n r h = rw (next_index n r h) (ground arith)

-- Two pools agree on the slot, as far as the queue reads it.
abbrev Agrees : AudioBuffer → AudioBuffer → ℕ → Type 0
Agrees b b' j =
    (is_ready (b'.slots j).state ≡ is_ready (b.slots j).state)
    × ((is_ready (b.slots j).state ≡ true) → slot_samples b' j ≡ slot_samples b j)

module _ (b b' : AudioBuffer) (same : b'.slot_count ≡ b.slot_count) where
  pub queued_same : ((j : ℕ) → Agrees b b' j) → (m s : ℕ) → queued m s b' ≡ queued m s b
  unfolding queued
  queued_same h zero s = refl
  queued_same h (suc m) s = ground (arith, h s, queued_same h m ((s + 1) % b.slot_count), same)

  -- The queue up to a slot does not depend on the slot.
  queued_before :
      (r : ℕ)
      → r < b.slot_count
      → ((j : ℕ) → j ≢ r → Agrees b b' j)
      → (m s : ℕ) → s < b.slot_count
      → m ≤ dist b.slot_count s r
      → queued m s b' ≡ queued m s b
  unfolding queued
  queued_before r lt h zero s k le = refl
  queued_before r lt h (suc m) s k le =
      let away : s ≢ r = dist_pos b.slot_count s r (omega arith) in
      let near = dist_next b.slot_count s r k lt away in
      let rest =
        queued_before r lt h m ((s + 1) % b.slot_count) (omega arith) (omega (arith, near)) in
      ground (arith, h s away, rest, same)

-- The queue ends at a slot that is not ready.
queued_stop :
    (b : AudioBuffer) (r : ℕ)
    → r < b.slot_count
    → is_ready (b.slots r).state ≡ false
    → (m s : ℕ) → s < b.slot_count
    → m ≡ dist b.slot_count s r
    → queued (suc m) s b ≡ queued m s b
unfolding queued
queued_stop b r lt h zero s k e = ground (arith, dist_zero b.slot_count s r k lt (sym e), h)
queued_stop b r lt h (suc m) s k e =
    let away : s ≢ r = dist_pos b.slot_count s r (omega arith) in
    let near = dist_next b.slot_count s r k lt away in
    ap (λ q. if is_ready (b.slots s).state then slot_samples b s ++ q else [])
      (queued_stop b r lt h m ((s + 1) % b.slot_count) (omega arith) (omega (arith, near)))

-- The first slot of the queue, once it is no longer ready.
pub queued_next :
    (b b' : AudioBuffer) (m r : ℕ)
    → b.slot_count ≡ suc m
    → b'.slot_count ≡ b.slot_count
    → r < b.slot_count
    → ((j : ℕ) → j ≢ r → Agrees b b' j)
    → is_ready (b'.slots r).state ≡ false
    → queued (suc m) ((r + 1) % b.slot_count) b' ≡ queued m ((r + 1) % b.slot_count) b
queued_next b b' m r count same lt h taken =
    let around = dist_around b.slot_count r lt in
    queued_stop b' r (omega arith) taken m ((r + 1) % b.slot_count) (omega arith)
      (rw same (omega arith))
    ∙ queued_before b b' same r lt h m ((r + 1) % b.slot_count) (omega arith) (omega arith)
