-- ===== src/Lib.antt =====
-- The playback core of Aurorix Music and what stands on either side of it.
-- - core/aurorix-playback: the session that executes playback commands and takes in the results of
--   workers, the request ledger that tells current results from stale ones, the presentation clock, the
--   queue and the queue policy with their shuffled order, the transitions from one item to the next and
--   the policy on failures.
-- - core/aurorix-audio: the PCM blocks, the pool of blocks that a producer, the realtime callback and a
--   coordinator share without a lock, and the callback that renders from it.
-- - core/aurorix-sync: the outbox of operations that wait for the server, with the SHA-256 digest that
--   identifies their bytes, and the reducer that applies operations to settings and playlists.
--
-- Parts and their files:
-- - Prelude and its children: Boolean tests, lists with numeric indices, results and state passing (`Exec`,
--   a state with an error that keeps what was written before it, as a Rust method does that returns early
--   with `?`), maps, text, 64-bit words.
-- - Playback/Command: the vocabulary of core/aurorix-playback/src/command.rs (`PlaybackCommand`,
--   `OperationToken`, `ResultDisposition`, ...) and `PlaybackItemId::new` (`new_item_id`).
-- - Playback/Requests: `RequestTracker` of the same file, one function per method. Requests/Invariant has
--   its invariant, Requests/Fence is about its classification of tokens.
-- - Playback/Clock: `PresentationClock` of core/aurorix-playback/src/clock.rs. Clock/Timeline has the
--   invariant and the media position.
-- - Playback/Session: `PlaybackSession` of core/aurorix-playback/src/session.rs. State holds its types,
--   Steps the steps the handlers share, Dispatch the command handlers, Worker the worker-event handlers.
--   Invariant and its children are about its invariant, Runs about the histories of calls, and Growth,
--   Once, Position, Progress and Fence about its counters, repeated requests, the media position, the way
--   of a play command and late worker results.
-- - Playback/Shuffle: SplitMix64 and the Fisher-Yates order of queue.rs and queue_policy.rs; Shuffle/Order
--   is about orders as permutations.
-- - Playback/Queue: `PlaybackQueue` of core/aurorix-playback/src/queue.rs: State has its fields and order,
--   Editing the methods that change the items, Stepping those that select. There are Order, Invariant, Changes
--   and Selections for its validity, Runs for the calls, Navigation for next and previous, Items and Edits
--   for what an edit does to the current item.
-- - Playback/Policy: `QueuePolicy` of core/aurorix-playback/src/queue_policy.rs, which computes its order at
--   each call. Selection is about what navigation reports, Edits about what an edit leaves, Positions and
--   Agreement compare it with the queue.
-- - Playback/Transition: the prebuffer, the transition planner and, in Mixer, the crossfade mixer of
--   core/aurorix-playback/src/transition.rs; Planning is about targets and decisions. The mixer takes the
--   arithmetic of `f32` as a parameter.
-- - Playback/Failure: `FailurePolicy` of core/aurorix-playback/src/failure.rs; Decisions is about its
--   decisions and about runs of skips.
-- - Audio/Pcm: `AudioBlock` of core/aurorix-audio/src/pcm.rs.
-- - Audio/Buffer: `AudioBuffer`, `AudioProducer` and `ProducerLease` of core/aurorix-audio/src/buffer.rs, one
--   function per method, each run to its end. Buffer/Steps cuts the same methods at their accesses to shared
--   memory: each endpoint is a data type of the points it can stand at, and a step of the system is a step
--   of one of them. Invariant and its children are about the invariant of the system, Exclusion and
--   Generations about its runs, Lowering about two coordinators, and Alone compares the steps of a
--   coordinator that nobody interrupts with the method.
-- - Audio/Signals: `RealtimeSignals` and the clock sample of core/aurorix-audio/src/realtime.rs.
-- - Audio/ClockPublisher: `CompactClockPublisher` of that file, as single calls and one access at a time,
--   between the callback and a reader; Coherence and Alone are about what the reader gets.
-- - Audio/Realtime: `RealtimeConsumer` of the same file, with `render` and the parts of its loop. Stream has
--   the queue of frames that a pool stands for, Slices, Rounds, Copying and Rendering are about the loop,
--   Player and Serving about one call, Measure and Ending about the number of rounds, Feeding about the producer, and Exchange and its children, with Ring,
--   Appending and Keeping, about the calls of a producer and of the callback in any order.
-- - Sync/Digest: `sha256` and `OperationDigest` of core/aurorix-sync/src/outbox.rs.
-- - Sync/Outbox: `Outbox` of the same file; Growth and Lifecycle are about its entries over many calls.
-- - Sync/Mutation: the mutations of core/aurorix-sync/src/reducer.rs and what they do to a playlist.
-- - Sync/Reducer: `Reducer` of that file; Replay, Revisions, Tombstones and Items are about `apply`.
-- - Playback/Examples, Audio/Examples and Sync/Examples: concrete runs.
--
-- How they interact: a session owns a ledger and a clock. A command reserves a revision in the ledger and,
-- where it starts work, raises the buffer generation of the session; the token of the work carries both. A
-- worker event carries the token back; the session asks the ledger to classify it under the current
-- generation and hands it to the handler of its phase only when it is the token of the pending operation.
-- The queue, the policy and the planner are components of their own, which the session does not call: it
-- rejects the queue commands. A producer leases a vacant slot of the pool, fills its block and publishes it;
-- the callback renders ready slots of the current generation and gives them back; a coordinator raises the
-- generation, as the session does with its own. The outbox and the reducer take the same digest of an
-- operation's bytes to tell a repetition from a conflict.
--
-- Correspondence: a record has the fields of its struct, a data type the variants of its enum, and a
-- function the name of its method, the receiver last (`seek_to`, `source_transition_to`, `restart_output`
-- and `recover_underrun` are the clock's `seek`, `source_transition`, `output_restart` and
-- `underrun_recovery`, whose names are also those of discontinuity reasons). A long handler is cut at its
-- `match` or its accepted branch into a function of its own. Accessors are record projections.
--
-- Bounds: numbers are natural numbers, and every checked, saturating or wrapping operation of the source is
-- written with its bound 2^32 - 1, 2^64 - 1 or 2^128 - 1; the `version += 1` of a playlist is not bounded.
-- A `usize` has 64 bits. Recursion is structural, but for the loop of `render`, which runs on fuel: each
-- round copies a frame, gives a slot back or ends the loop, so `render_fuel`, the frames requested plus the
-- slots plus two, is more than the rounds there can be. A `BTreeMap` is an association list in the order of
-- its keys when they are numbers, and in the order of insertion when they are texts, whose order nothing
-- modelled reads. A text is the list of its code points, bytes are numbers, a UUID is its number, and a sample
-- is its 32 bits. Where Rust would panic (an index out of range), `swap` returns its argument, the methods
-- of `QueuePolicy` return `none`, and the outbox finds no entry.
--
-- Memory: Buffer/Steps and ClockPublisher order all accesses to the shared atomics totally, which the Acquire
-- and Release orderings of the source promise for each atomic alone. The threads are one producer and one
-- consumer, as the endpoint types admit, and two coordinators, and for the clock its one writer and a
-- reader, since a reader stores nothing. The consumer of Audio/Realtime holds the last sample of its clock as
-- a value.
--
-- Not modelled: the locks of the playback core (callers hold the session exclusively), `Display` and other
-- formatting, the rest of core/aurorix-audio (decoders, seek, recovery, output reports), the snapshots of
-- core/aurorix-sync, the library, search, storage, transport and platform crates.
pub mod Prelude
pub mod Playback
pub mod Audio
pub mod Sync
