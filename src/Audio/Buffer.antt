-- ===== src/Audio/Buffer.antt =====
-- core/aurorix-audio/src/buffer.rs: the pool of slots between one producer and one consumer, each method as
-- one call. The pool of slots is a function of the index.
pub mod Steps
pub mod Invariant
pub mod Exclusion
pub mod Generations
pub mod Alone
pub mod Lowering
use aurorix_music.Prelude.{
  ℕ, zero, suc, ◌+◌, ◌-◌, ◌*◌, ◌%◌, ◌≤◌, ◌<◌, Bool, true, false, not, ◌||◌, Option, none, some,
  List, ◌==◌, leb, ltb, if◌then◌else◌, and_then, unwrap_or, map_option,
}
use aurorix_music.Prelude.Exec.{Result, ok, err}
use aurorix_music.Prelude.Word.{u64_max, checked_mul}
use aurorix_music.Audio.Pcm.{
  PcmFormat, PcmError, AudioBlock, sample_count_for_frames, is_empty, reset,
}
use aurorix_music.Audio.Pcm

abbrev pub min_buffer_slots : ℕ
min_buffer_slots = 2

abbrev pub max_buffer_slots : ℕ
max_buffer_slots = 256

abbrev pub max_block_frames : ℕ
max_block_frames = 16384

abbrev pub max_buffer_bytes : ℕ
max_buffer_bytes = 67108864

-- The state cell of a slot.
pub data SlotState : Type 0 where
  vacant writing ready reading : SlotState

abbrev pub is_vacant : SlotState → Bool
is_vacant vacant = true
is_vacant _ = false

abbrev pub is_ready : SlotState → Bool
is_ready ready = true
is_ready _ = false

-- A worker or the callback owns the slot.
abbrev pub in_use : SlotState → Bool
in_use writing = true
in_use reading = true
in_use _ = false

pub record BufferSlot : Type 0 where
  pub state : SlotState
  pub block : AudioBlock

pub data BufferError : Type 0 where
  too_few_slots too_many_slots too_many_frames_per_block memory_limit_exceeded : ℕ → BufferError
  pcm : PcmError → BufferError

pub data PublishError : Type 0 where
  stale_generation : ℕ → ℕ → PublishError
  empty_block : PublishError

pub data BufferGenerationError : Type 0 where
  generation_not_advanced : ℕ → ℕ → BufferGenerationError
  reset_in_progress endpoint_transition_in_progress : BufferGenerationError
  slot_in_use : ℕ → SlotState → BufferGenerationError

pub record AudioBuffer : Type 0 where
  pub format : PcmFormat
  pub slot_count : ℕ
  pub slots : ℕ → BufferSlot
  pub capacity_frames_per_block : ℕ
  pub generation : ℕ
  pub resetting : Bool
  pub endpoint_entries : ℕ

abbrev pub update : {A : Type 0} → (ℕ → A) → ℕ → A → ℕ → A
update f i v j = if i == j then v else f j

abbrev pub set_slot_state : ℕ → SlotState → AudioBuffer → AudioBuffer
set_slot_state i st b = record b { slots = update b.slots i (record (b.slots i) { state = st }) }

abbrev pub set_block : ℕ → AudioBlock → AudioBuffer → AudioBuffer
set_block i block b = record b { slots = update b.slots i (record (b.slots i) { block = block }) }

-- `slot.block.reset(generation)`.
abbrev pub reset_block : ℕ → ℕ → AudioBuffer → AudioBuffer
reset_block i generation b = set_block i (reset generation (b.slots i).block) b

-- The bytes of all sample cells, `usize::MAX` where they overflow.
abbrev pub requested_bytes : ℕ → ℕ → ℕ
requested_bytes samples slots =
    unwrap_or (and_then (checked_mul samples 4) (λ n. checked_mul n slots)) u64_max

unfoldable pub new : PcmFormat → ℕ → ℕ → Result BufferError AudioBuffer
unfolding Pcm.new
new format slots frames =
    if ltb slots min_buffer_slots
    then err (too_few_slots slots)
    else if ltb max_buffer_slots slots
    then err (too_many_slots slots)
    else if frames == 0
    then err (pcm Pcm.zero_capacity)
    else if ltb max_block_frames frames
    then err (too_many_frames_per_block frames)
    else elim (sample_count_for_frames format frames) [
      | none ↦ err (pcm Pcm.sample_count_overflow)
      | some samples ↦
          if ltb max_buffer_bytes (requested_bytes samples slots)
          then err (memory_limit_exceeded (requested_bytes samples slots))
          else elim (Pcm.new format frames) [
            | err e ↦ err (pcm e)
            | ok block ↦ ok (record {
              format = format;
              slot_count = slots;
              slots = λ i. record { state = vacant; block = block };
              capacity_frames_per_block = frames;
              generation = 0;
              resetting = false;
              endpoint_entries = 0;
            })
          ]
    ]

-- Whether the endpoint may go on; one that may not has left again.
unfoldable pub try_enter_endpoint_transition : AudioBuffer → Bool × AudioBuffer
try_enter_endpoint_transition b =
    if b.resetting
    then (false, b)
    else (true, record b { endpoint_entries = b.endpoint_entries + 1 })

abbrev pub leave_endpoint_transition : AudioBuffer → AudioBuffer
leave_endpoint_transition b = record b { endpoint_entries = b.endpoint_entries - 1 }

-- `compare_exchange` on the state cell.
unfoldable pub try_begin_write : ℕ → AudioBuffer → Option ℕ × AudioBuffer
unfolding try_enter_endpoint_transition
try_begin_write i b =
    let (entered, b1) = try_enter_endpoint_transition b in
    if not entered
    then (none, b1)
    else if not (is_vacant (b1.slots i).state)
    then (none, leave_endpoint_transition b1)
    else (let b2 = leave_endpoint_transition (set_slot_state i writing b1) in
        (some b2.generation, reset_block i b2.generation b2))

abbrev pub abort_write : ℕ → AudioBuffer → AudioBuffer
abort_write i b = set_slot_state i vacant (reset_block i b.generation b)

unfoldable pub publish : ℕ → ℕ → AudioBuffer → Result PublishError (Unit {0}) × AudioBuffer
publish i generation b =
    if not (b.generation == generation) || not ((b.slots i).block.generation == generation)
    then (err (stale_generation generation b.generation), abort_write i b)
    else if is_empty (b.slots i).block
    then (err empty_block, abort_write i b)
    else (ok tt, set_slot_state i ready b)

pub record ReadyBlock : Type 0 where
  pub index : ℕ
  pub valid_frames : ℕ
  pub generation : ℕ

unfoldable pub try_begin_render : ℕ → AudioBuffer → Option ReadyBlock × AudioBuffer
unfolding try_enter_endpoint_transition
try_begin_render i b =
    let (entered, b1) = try_enter_endpoint_transition b in
    if not entered
    then (none, b1)
    else if not (is_ready (b1.slots i).state)
    then (none, leave_endpoint_transition b1)
    else (
      some (record {
        index = i;
        valid_frames = (b1.slots i).block.valid_frames;
        generation = (b1.slots i).block.generation;
      }),
      leave_endpoint_transition (set_slot_state i reading b1),
    )

abbrev pub finish_render : ℕ → AudioBuffer → AudioBuffer
finish_render i b = set_slot_state i vacant (reset_block i b.generation b)

-- The first of the `n` slots from `i` on that a worker or the callback owns.
unfoldable pub first_in_use : ℕ → ℕ → AudioBuffer → Option ℕ
first_in_use zero i b = none
first_in_use (suc n) i b = if in_use (b.slots i).state then some i else first_in_use n (i + 1) b

-- The loop that empties the `n` slots from `i` on.
unfoldable pub empty_slots : ℕ → ℕ → ℕ → AudioBuffer → AudioBuffer
empty_slots zero i generation b = b
empty_slots (suc n) i generation b =
    empty_slots n (i + 1) generation (set_slot_state i vacant (reset_block i generation b))

unfoldable pub try_advance_generation :
    ℕ → AudioBuffer → Result BufferGenerationError (Unit {0}) × AudioBuffer
unfolding first_in_use empty_slots
try_advance_generation requested b =
    if leb requested b.generation
    then (err (generation_not_advanced b.generation requested), b)
    else if b.resetting
    then (err reset_in_progress, b)
    else if not (b.endpoint_entries == 0)
    then (err endpoint_transition_in_progress, record b { resetting = false })
    else (let b1 = record b { resetting = true } in
        elim (first_in_use b1.slot_count 0 b1) [
          | some i ↦ (err (slot_in_use i (b1.slots i).state), record b1 { resetting = false })
          | none ↦ (
            ok tt,
            record (empty_slots b1.slot_count 0 requested b1) {
              generation = requested;
              resetting = false;
            },
          )
        ])

pub record ProducerLease : Type 0 where
  pub index : ℕ
  pub generation : ℕ

-- `AudioProducer::try_acquire`, at the producer's next slot.
unfoldable pub try_acquire : ℕ → AudioBuffer → Option ProducerLease × AudioBuffer
unfolding try_begin_write
try_acquire next_slot b =
    let (acquired, b') = try_begin_write next_slot b in
    (map_option (λ g. record { index = next_slot; generation = g }) acquired, b')

-- `ProducerLease::write_interleaved`.
unfoldable pub lease_write : List ℕ → ProducerLease → AudioBuffer → Result PcmError ℕ × AudioBuffer
unfolding Pcm.write_interleaved
lease_write values l b =
    let (r, block) = Pcm.write_interleaved values (b.slots l.index).block in
    (r, set_block l.index block b)

-- A lease that is dropped unfinished.
abbrev pub drop_lease : ProducerLease → AudioBuffer → AudioBuffer
drop_lease l b = abort_write l.index b

-- `ProducerLease::publish`: the result, the producer's next slot and the pool. A lease whose publication
-- failed has been aborted already, and is aborted again as it is dropped.
unfoldable pub lease_publish :
    ProducerLease → ℕ → AudioBuffer → Result PublishError (Unit {0}) × ℕ × AudioBuffer
unfolding publish
lease_publish l next_slot b =
    let (r, b') = publish l.index l.generation b in
    elim r [
      | ok _ ↦ (ok tt, (next_slot + 1) % b.slot_count, b')
      | err e ↦ (err e, next_slot, drop_lease l b')
    ]
