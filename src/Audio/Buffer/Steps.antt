-- ===== src/Audio/Buffer/Steps.antt =====
-- core/aurorix-audio/src/buffer.rs: the same methods, one access to shared memory at a time, so that the
-- producer, the consumer and two coordinators can be interleaved. The accesses take effect in one order
-- that all threads agree on; a block is written whole, since its state cell gives it to one thread.
use aurorix_music.Prelude.{
  ℕ, ◌+◌, ◌-◌, ◌%◌, Bool, true, false, not, ◌||◌, ◌==◌, leb, ltb, if◌then◌else◌, List, [], ◌∷◌,
}
use aurorix_music.Audio.Pcm.{AudioBlock, is_empty}
use aurorix_music.Audio.Buffer.{
  AudioBuffer, is_vacant, is_ready, in_use, vacant, writing, ready, reading, set_slot_state,
  set_block, reset_block,
}

-- Where an endpoint stands in `try_enter_endpoint_transition` and the rest of the claim of a slot.
pub data Entry : Type 0 where
  loaded : Entry  -- saw `resetting` unset
  entered : Entry  -- has added itself to `endpoint_entries`
  inside : Entry  -- saw `resetting` unset again, before the compare-exchange
  backing : Entry  -- saw it set, before it takes itself out
  leaving : Bool → Entry  -- after the compare-exchange, before it takes itself out

-- Why a lease is aborted: it is dropped, its publication failed, or it is dropped after that.
pub data Abort : Type 0 where
  dropped failed repeated : Abort

-- Where the producer stands, with what it has loaded.
pub data Producer : Type 0 where
  idle : Producer
  entry : Entry → Producer
  claimed : Producer  -- before it loads the generation
  clearing : ℕ → Producer  -- before it resets the block
  lease : ℕ → Producer
  publishing : Producer  -- the checks of `publish` passed, before the store of the state
  aborting : Abort → Producer  -- before it loads the generation
  resetting_block : ℕ → Abort → Producer
  vacating : Abort → Producer

pub data Consumer : Type 0 where
  idle : Consumer
  entry : Entry → Consumer
  holding : ℕ → Consumer  -- a ready block, of the generation captured
  finishing : Consumer
  resetting_block : ℕ → Consumer
  vacating : Consumer

-- A coordinator that asks for a generation.
pub data Coordinator : Type 0 where
  idle : Coordinator
  checked : ℕ → Coordinator  -- the generation is an advance
  flagged : ℕ → Coordinator  -- has set `resetting`
  scanning : ℕ → ℕ → Coordinator  -- no endpoint was inside; the slot to look at
  emptying : ℕ → ℕ → Coordinator  -- all slots are free; the slot to reset
  storing_vacant : ℕ → ℕ → Coordinator
  storing_generation : ℕ → Coordinator
  releasing : Coordinator

pub record System : Type 0 where
  pub buffer : AudioBuffer
  pub producer : Producer
  pub next_write : ℕ
  pub consumer : Consumer
  pub next_read : ℕ
  pub first : Coordinator
  pub second : Coordinator

-- What a thread does next where the code leaves it open: the producer writes frames, publishes or drops its
-- lease, the consumer renders on or finishes its block, and a coordinator asks for a generation.
pub data Choice : Type 0 where
  advances finishes : Choice
  writes : AudioBlock → Choice
  asks : ℕ → Choice

abbrev pub leave : AudioBuffer → AudioBuffer
leave b = record b { endpoint_entries = b.endpoint_entries - 1 }

abbrev pub Moves : Type 0 → Type 0
Moves P = AudioBuffer × P × ℕ

unfoldable pub producer_step : Choice → AudioBuffer → Producer → ℕ → Moves Producer
producer_step c b Producer.idle w =
    if b.resetting then (b, Producer.idle, w) else (b, Producer.entry loaded, w)
producer_step c b (Producer.entry loaded) w =
    (record b { endpoint_entries = b.endpoint_entries + 1 }, Producer.entry entered, w)
producer_step c b (Producer.entry entered) w =
    if b.resetting then (b, Producer.entry backing, w) else (b, Producer.entry inside, w)
producer_step c b (Producer.entry inside) w =
    if is_vacant (b.slots w).state
    then (set_slot_state w writing b, Producer.entry (leaving true), w)
    else (b, Producer.entry (leaving false), w)
producer_step c b (Producer.entry backing) w = (leave b, Producer.idle, w)
producer_step c b (Producer.entry (leaving true)) w = (leave b, claimed, w)
producer_step c b (Producer.entry (leaving false)) w = (leave b, Producer.idle, w)
producer_step c b claimed w = (b, clearing b.generation, w)
producer_step c b (clearing g) w = (reset_block w g b, lease g, w)
producer_step (writes block) b (lease g) w =
    (set_block w (record block { generation = (b.slots w).block.generation }) b, lease g, w)
producer_step advances b (lease g) w =
    if not (b.generation == g)
      || not ((b.slots w).block.generation == g)
      || is_empty (b.slots w).block
    then (b, aborting failed, w)
    else (b, publishing, w)
producer_step c b (lease g) w = (b, aborting dropped, w)
producer_step c b publishing w = (set_slot_state w ready b, Producer.idle, (w + 1) % b.slot_count)
producer_step c b (aborting why) w = (b, Producer.resetting_block b.generation why, w)
producer_step c b (Producer.resetting_block g why) w = (reset_block w g b, Producer.vacating why, w)
producer_step c b (Producer.vacating failed) w = (set_slot_state w vacant b, aborting repeated, w)
producer_step c b (Producer.vacating dropped) w = (set_slot_state w vacant b, Producer.idle, w)
producer_step c b (Producer.vacating repeated) w = (set_slot_state w vacant b, Producer.idle, w)

unfoldable pub consumer_step : Choice → AudioBuffer → Consumer → ℕ → Moves Consumer
consumer_step c b Consumer.idle r =
    if b.resetting then (b, Consumer.idle, r) else (b, Consumer.entry loaded, r)
consumer_step c b (Consumer.entry loaded) r =
    (record b { endpoint_entries = b.endpoint_entries + 1 }, Consumer.entry entered, r)
consumer_step c b (Consumer.entry entered) r =
    if b.resetting then (b, Consumer.entry backing, r) else (b, Consumer.entry inside, r)
consumer_step c b (Consumer.entry inside) r =
    if is_ready (b.slots r).state
    then (set_slot_state r reading b, Consumer.entry (leaving true), r)
    else (b, Consumer.entry (leaving false), r)
consumer_step c b (Consumer.entry backing) r = (leave b, Consumer.idle, r)
consumer_step c b (Consumer.entry (leaving true)) r =
    (leave b, holding (b.slots r).block.generation, r)
consumer_step c b (Consumer.entry (leaving false)) r = (leave b, Consumer.idle, r)
consumer_step finishes b (holding g) r = (b, finishing, r)
consumer_step c b (holding g) r = if b.generation == g then (b, holding g, r) else (b, finishing, r)
consumer_step c b finishing r = (b, Consumer.resetting_block b.generation, r)
consumer_step c b (Consumer.resetting_block g) r = (reset_block r g b, Consumer.vacating, r)
consumer_step c b Consumer.vacating r =
    (set_slot_state r vacant b, Consumer.idle, (r + 1) % b.slot_count)

unfoldable pub coordinator_step : Choice → AudioBuffer → Coordinator → AudioBuffer × Coordinator
coordinator_step (asks g) b Coordinator.idle =
    if leb g b.generation then (b, Coordinator.idle) else (b, checked g)
coordinator_step c b Coordinator.idle = (b, Coordinator.idle)
coordinator_step c b (checked g) =
    if b.resetting then (b, Coordinator.idle) else (record b { resetting = true }, flagged g)
coordinator_step c b (flagged g) =
    if b.endpoint_entries == 0 then (b, scanning g 0) else (b, releasing)
coordinator_step c b (scanning g i) =
    if ltb i b.slot_count
    then (if in_use (b.slots i).state then (b, releasing) else (b, scanning g (i + 1)))
    else (b, emptying g 0)
coordinator_step c b (emptying g i) =
    if ltb i b.slot_count
    then (reset_block i g b, storing_vacant g i)
    else (b, storing_generation g)
coordinator_step c b (storing_vacant g i) = (set_slot_state i vacant b, emptying g (i + 1))
coordinator_step c b (storing_generation g) = (record b { generation = g }, releasing)
coordinator_step c b releasing = (record b { resetting = false }, Coordinator.idle)

pub data Thread : Type 0 where
  produces consumes first_coordinates second_coordinates : Thread

unfoldable pub step : System → Thread → Choice → System
unfolding producer_step consumer_step coordinator_step
step s produces c =
    let (b, p, w) = producer_step c s.buffer s.producer s.next_write in
    record s { buffer = b; producer = p; next_write = w }
step s consumes c =
    let (b, p, r) = consumer_step c s.buffer s.consumer s.next_read in
    record s { buffer = b; consumer = p; next_read = r }
step s first_coordinates c =
    let (b, k) = coordinator_step c s.buffer s.first in record s { buffer = b; first = k }
step s second_coordinates c =
    let (b, k) = coordinator_step c s.buffer s.second in record s { buffer = b; second = k }

-- The schedule of the threads.
unfoldable pub run : System → List (Thread × Choice) → System
unfolding step
run s [] = s
run s ((t, c) ∷ schedule) = run (step s t c) schedule

abbrev pub initial : AudioBuffer → System
initial b = record {
  buffer = b;
  producer = Producer.idle;
  next_write = 0;
  consumer = Consumer.idle;
  next_read = 0;
  first = Coordinator.idle;
  second = Coordinator.idle;
}
