-- ===== src/Audio/Buffer/Invariant.antt =====
-- core/aurorix-audio/src/buffer.rs: what holds between the accesses to shared memory, however the threads are
-- interleaved.
pub mod Producing
pub mod Consuming
pub mod Coordinating
use aurorix_music.Prelude.{
  ℕ, ◌+◌, ◌-◌, ◌%◌, ◌≤◌, ◌<◌, ◌≡◌, ◌⊎◌, refl, Bool, true, false, ◌==◌, if◌then◌else◌, List, [], ◌∷◌,
  arith,
}
use aurorix_music.Audio.Pcm.{AudioBlock}
use aurorix_music.Audio.Buffer.{AudioBuffer, SlotState, vacant, writing, ready, reading}
use aurorix_music.Audio.Buffer.Steps.{
  Entry, loaded, entered, inside, backing, leaving, Abort, dropped, failed, repeated, Producer,
  entry, claimed, clearing, lease, publishing, aborting, resetting_block, vacating, Consumer,
  holding, finishing, Coordinator, checked, flagged, scanning, emptying, storing_vacant,
  storing_generation, releasing, System,
}

-- The endpoint is counted in `endpoint_entries`.
abbrev pub counted : Entry → ℕ
counted loaded = 0
counted _ = 1

abbrev pub producer_counted : Producer → ℕ
producer_counted (Producer.entry e) = counted e
producer_counted _ = 0

abbrev pub consumer_counted : Consumer → ℕ
consumer_counted (Consumer.entry e) = counted e
consumer_counted _ = 0

-- The endpoint may claim a slot, or has just tried to.
abbrev pub claims : Entry → Bool
claims inside = true
claims (leaving _) = true
claims _ = false

abbrev pub producer_claims : Producer → Bool
producer_claims (Producer.entry e) = claims e
producer_claims _ = false

abbrev pub consumer_claims : Consumer → Bool
consumer_claims (Consumer.entry e) = claims e
consumer_claims _ = false

-- The abort of a lease that still owns its slot.
abbrev pub owns_slot : Abort → Bool
owns_slot repeated = false
owns_slot _ = true

-- The producer owns its slot.
abbrev pub writes_slot : Producer → Bool
writes_slot Producer.idle = false
writes_slot (Producer.entry (leaving claim)) = claim
writes_slot (Producer.entry _) = false
writes_slot (aborting why) = owns_slot why
writes_slot (Producer.resetting_block g why) = owns_slot why
writes_slot (Producer.vacating why) = owns_slot why
writes_slot _ = true

-- The producer aborts a lease whose slot it has given back.
abbrev pub repeats : Producer → Bool
repeats (aborting repeated) = true
repeats (Producer.resetting_block g repeated) = true
repeats (Producer.vacating repeated) = true
repeats _ = false

-- The consumer owns its slot.
abbrev pub reads_slot : Consumer → Bool
reads_slot Consumer.idle = false
reads_slot (Consumer.entry (leaving claim)) = claim
reads_slot (Consumer.entry _) = false
reads_slot _ = true

-- The coordinator has set `resetting`.
abbrev pub owns_flag : Coordinator → ℕ
owns_flag Coordinator.idle = 0
owns_flag (checked g) = 0
owns_flag _ = 1

-- The coordinator is about to empty the slot, and has reset its block.
abbrev pub overwrites : Coordinator → ℕ → Bool
overwrites (storing_vacant g i) j = i == j
overwrites _ j = false

-- What the producer has loaded agrees with the pool.
abbrev pub WriterFresh : AudioBuffer → Producer → ℕ → Type 0
WriterFresh b (clearing g) w = g ≡ b.generation
WriterFresh b (lease g) w = (g ≡ b.generation) × ((b.slots w).block.generation ≡ b.generation)
WriterFresh b publishing w = (b.slots w).block.generation ≡ b.generation
WriterFresh b _ w = Unit

abbrev pub ReaderFresh : AudioBuffer → Consumer → ℕ → Type 0
ReaderFresh b (Consumer.entry (leaving true)) r = (b.slots r).block.generation ≡ b.generation
ReaderFresh b (holding g) r = g ≡ b.generation
ReaderFresh b _ r = Unit

-- The endpoints and their slots.
pub record Endpoints (n : ℕ) (b : AudioBuffer) (p : Producer) (w : ℕ) (c : Consumer) (r : ℕ)
    : Type 0 where
  pub size : b.slot_count ≡ n
  pub w_lt : w < n
  pub r_lt : r < n
  pub entries : b.endpoint_entries ≡ producer_counted p + consumer_counted c
  pub writer : writes_slot p ≡ true → (b.slots w).state ≡ writing
  pub reader : reads_slot c ≡ true → (b.slots r).state ≡ reading
  pub only_writer : (j : ℕ) → (b.slots j).state ≡ writing → (j ≡ w) × (writes_slot p ≡ true)
  pub only_reader : (j : ℕ) → (b.slots j).state ≡ reading → (j ≡ r) × (reads_slot c ≡ true)
  pub given_back : repeats p ≡ true → (b.slots w).state ≡ vacant
  pub writer_fresh : WriterFresh b p w
  pub reader_fresh : ReaderFresh b c r

-- No endpoint is between its entry and its claim.
abbrev pub IsQuiet : Producer → Consumer → Type 0
IsQuiet p c = (producer_claims p ≡ false) × (consumer_claims c ≡ false)

-- No endpoint owns a slot, and the first `i` slots are vacant.
abbrev pub IsStopped : AudioBuffer → Producer → Consumer → ℕ → Type 0
IsStopped b p c i =
    (writes_slot p ≡ false)
    × (reads_slot c ≡ false)
    × ((j : ℕ) → j < i → (b.slots j).state ≡ vacant)

-- What a coordinator has found out.
abbrev pub Finds : ℕ → AudioBuffer → Producer → ℕ → Consumer → ℕ → Coordinator → Type 0
Finds n b p w c r (scanning g i) =
    IsQuiet p c × ((writes_slot p ≡ true) → i ≤ w) × ((reads_slot c ≡ true) → i ≤ r)
Finds n b p w c r (emptying g i) = IsQuiet p c × IsStopped b p c i × (i ≤ n)
Finds n b p w c r (storing_vacant g i) = IsQuiet p c × IsStopped b p c i × (i < n)
Finds n b p w c r (storing_generation g) = IsQuiet p c × IsStopped b p c n
Finds n b p w c r _ = Unit

-- The whole pool, with its two coordinators.
pub record Inv (n : ℕ) (b : AudioBuffer) (p : Producer) (w : ℕ) (c : Consumer) (r : ℕ)
    (k l : Coordinator) : Type 0 where
  pub endpoints : Endpoints n b p w c r
  pub flag : (if b.resetting then 1 else 0) ≡ owns_flag k + owns_flag l
  pub first_finds : Finds n b p w c r k
  pub second_finds : Finds n b p w c r l
  pub fresh :
      (j : ℕ)
      → j < n
      → (b.slots j).state ≡ ready
      → overwrites k j ≡ false
      → overwrites l j ≡ false
      → (b.slots j).block.generation ≡ b.generation

abbrev pub SystemInv : ℕ → System → Type 0
SystemInv n s = Inv n s.buffer s.producer s.next_write s.consumer s.next_read s.first s.second

-- The flag is set while a coordinator owns it.
pub owned_flag :
    {f : Bool} (k l : Coordinator)
    → (if f then 1 else 0) ≡ owns_flag k + owns_flag l
    → (owns_flag k ≡ 1) ⊎ (owns_flag l ≡ 1)
    → f ≡ true
owned_flag {f} k l h o = ground (arith)
