-- ===== src/Audio/Buffer/Exclusion.antt =====
-- core/aurorix-audio/src/buffer.rs: the slots and the generation, however the producer, the consumer and two
-- coordinators are interleaved.
use aurorix_music.Prelude.{
  ℕ, ◌+◌, ◌≤◌, ◌≡◌, ◌≢◌, ◌⊎◌, inl, inr, refl, subst, Bool, true, false, List, [], ◌∷◌, arith,
}
use aurorix_music.Prelude.Exec.{ok}
use aurorix_music.Audio.Pcm.{PcmFormat, is_empty}
use aurorix_music.Audio.Buffer.{AudioBuffer, vacant, writing, reading, new}
use aurorix_music.Audio.Buffer.Steps.{
  Producer, Consumer, Coordinator, checked, flagged, scanning, emptying, storing_vacant,
  storing_generation, releasing, lease, publishing, holding, aborting, failed, Choice, advances,
  Thread, produces, consumes, first_coordinates, second_coordinates, System, step, producer_step,
  consumer_step, run, initial,
}
use aurorix_music.Audio.Buffer.Invariant.{
  SystemInv, Inv, Finds, owns_flag, WriterFresh, ReaderFresh, writes_slot, reads_slot,
}
use aurorix_music.Audio.Buffer.Invariant.Producing.{produce-Inv}
use aurorix_music.Audio.Buffer.Invariant.Consuming.{consume-Inv}
use aurorix_music.Audio.Buffer.Invariant.Coordinating.{coordinate-Inv}

-- The coordinators play the same part.
swap-Inv :
    {n : ℕ} {b : AudioBuffer} {p : Producer} {w : ℕ} {c : Consumer} {r : ℕ} {k l : Coordinator}
    → Inv n b p w c r k l
    → Inv n b p w c r l k
swap-Inv v = record {
  endpoints = v.endpoints;
  flag = omega (arith, v.flag);
  first_finds = v.second_finds;
  second_finds = v.first_finds;
  fresh = λ j lt h ol ok. v.fresh j lt h ok ol;
}

step-Inv :
    (n : ℕ) (s : System) (t : Thread) (ch : Choice) → SystemInv n s → SystemInv n (step s t ch)
unfolding step
step-Inv n s produces ch v = produce-Inv ch v.endpoints v
step-Inv n s consumes ch v = consume-Inv ch v.endpoints v
step-Inv n s first_coordinates ch v = coordinate-Inv ch v
step-Inv n s second_coordinates ch v = swap-Inv (coordinate-Inv ch (swap-Inv v))

run-Inv :
    (n : ℕ) (s : System) (schedule : List (Thread × Choice))
    → SystemInv n s
    → SystemInv n (run s schedule)
unfolding run
run-Inv n s [] v = v
run-Inv n s ((t, ch) ∷ schedule) v = run-Inv n (step s t ch) schedule (step-Inv n s t ch v)

module _ (format : PcmFormat) (slots frames : ℕ) {b : AudioBuffer}
    (h : new format slots frames ≡ ok b) where
  pub new_counts :
      (b.slot_count ≡ slots)
      × (2 ≤ slots)
      × (b.endpoint_entries ≡ 0)
      × (b.resetting ≡ false)
      × (b.generation ≡ 0)
  unfolding new
  new_counts = ground (arith, h)

  pub new_vacant : (j : ℕ) → (b.slots j).state ≡ vacant
  unfolding new
  new_vacant j = ground (arith, h)

  initial-Inv : SystemInv slots (initial b)
  initial-Inv = record {
    endpoints = record {
      size = new_counts.0;
      w_lt = omega (arith, new_counts);
      r_lt = omega (arith, new_counts);
      entries = new_counts.2;
      writer = λ e. cc;
      reader = λ e. cc;
      only_writer = λ j e. cc (new_vacant j);
      only_reader = λ j e. cc (new_vacant j);
      given_back = λ e. cc;
      writer_fresh = tt;
      reader_fresh = tt;
    };
    flag = rw new_counts.3 refl;
    first_finds = tt;
    second_finds = tt;
    fresh = λ j lt e f g. cc (new_vacant j);
  }

  -- Whatever `new` accepts and however the threads are scheduled, the pool is consistent between any two accesses.
  pub reachable-Inv :
      (schedule : List (Thread × Choice)) → SystemInv slots (run (initial b) schedule)
  reachable-Inv schedule = run-Inv slots (initial b) schedule initial-Inv

-- The coordinator has seen every slot free and has not stored its generation yet.
abbrev pub is_emptying : Coordinator → Bool
is_emptying (emptying g i) = true
is_emptying (storing_vacant g i) = true
is_emptying (storing_generation g) = true
is_emptying _ = false

emptying_stops :
    (n : ℕ) (b : AudioBuffer) (p : Producer) (w : ℕ) (c : Consumer) (r : ℕ) (k : Coordinator)
    → Finds n b p w c r k
    → is_emptying k ≡ true
    → (writes_slot p ≡ false) × (reads_slot c ≡ false) × (owns_flag k ≡ 1)
emptying_stops n b p w c r (emptying g i) f h = (f.1.0, f.1.1, refl)
emptying_stops n b p w c r (storing_vacant g i) f h = (f.1.0, f.1.1, refl)
emptying_stops n b p w c r (storing_generation g) f h = (f.1.0, f.1.1, refl)
emptying_stops n b p w c r Coordinator.idle f h = cc
emptying_stops n b p w c r (checked g) f h = cc
emptying_stops n b p w c r (flagged g) f h = cc
emptying_stops n b p w c r (scanning g i) f h = cc
emptying_stops n b p w c r releasing f h = cc

module _ {n : ℕ} {s : System} (v : SystemInv n s) where
  open v use {endpoints, flag, first_finds, second_finds}

  stops :
      (is_emptying s.first ≡ true) ⊎ (is_emptying s.second ≡ true)
      → (writes_slot s.producer ≡ false)
        × (reads_slot s.consumer ≡ false)
        × (owns_flag s.first + owns_flag s.second ≡ 1)
  stops (inl h) =
      let f =
        emptying_stops n s.buffer s.producer s.next_write s.consumer s.next_read s.first first_finds
          h in
      (f.0, f.1, ground (arith, f, flag))
  stops (inr h) =
      let f =
        emptying_stops n s.buffer s.producer s.next_write s.consumer s.next_read s.second
          second_finds h in
      (f.0, f.1, ground (arith, f, flag))

  publishes :
      {g : ℕ}
      → s.producer ≡ lease g
      → ((step s produces advances).producer ≡ publishing)
        ⊎ (((step s produces advances).producer ≡ aborting failed)
            × (is_empty (s.buffer.slots s.next_write).block ≡ true))
  unfolding step producer_step
  publishes {g} h =
      let f = subst (λ p. WriterFresh s.buffer p s.next_write) h endpoints.writer_fresh in
      rw h (ground (arith, f))

  renders : {g : ℕ} → s.consumer ≡ holding g → (step s consumes advances).consumer ≡ holding g
  unfolding step consumer_step
  renders {g} h =
      let f = subst (λ c. ReaderFresh s.buffer c s.next_read) h endpoints.reader_fresh in
      rw h (ground (arith, f))

  apart : writes_slot s.producer ≡ true → reads_slot s.consumer ≡ true → s.next_write ≢ s.next_read
  apart p c e = cc (endpoints.writer p, endpoints.reader c)

-- Slots in use belong to their endpoints, and the endpoints own different ones.
abbrev pub AreApart : System → Type 0
AreApart s =
    ((j : ℕ)
      → (s.buffer.slots j).state ≡ writing
      → (j ≡ s.next_write) × (writes_slot s.producer ≡ true))
    × ((j : ℕ)
        → (s.buffer.slots j).state ≡ reading
        → (j ≡ s.next_read) × (reads_slot s.consumer ≡ true))
    × ((writes_slot s.producer ≡ true)
        → (reads_slot s.consumer ≡ true)
        → s.next_write ≢ s.next_read)

-- A lease that is published is aborted only if its block is empty, and a block that is rendered is
-- not found stale.
abbrev pub AreCurrent : System → Type 0
AreCurrent s =
    ((g : ℕ)
      → s.producer ≡ lease g
      → ((step s produces advances).producer ≡ publishing)
        ⊎ (((step s produces advances).producer ≡ aborting failed)
            × (is_empty (s.buffer.slots s.next_write).block ≡ true)))
    × ((g : ℕ) → s.consumer ≡ holding g → (step s consumes advances).consumer ≡ holding g)

module _ (format : PcmFormat) (slots frames : ℕ) {b : AudioBuffer}
    (h : new format slots frames ≡ ok b) (schedule : List (Thread × Choice)) where
  v : SystemInv slots (run (initial b) schedule)
  v = reachable-Inv format slots frames h schedule

  -- For a pool that `new` makes and any schedule of the four threads: while a coordinator empties the slots or
  -- stores its generation, the producer owns no slot, the consumer owns none, and just one coordinator owns
  -- `resetting`.
  pub reset_excludes :
      (is_emptying (run (initial b) schedule).first ≡ true)
        ⊎ (is_emptying (run (initial b) schedule).second ≡ true)
      → (writes_slot (run (initial b) schedule).producer ≡ false)
        × (reads_slot (run (initial b) schedule).consumer ≡ false)
        × (owns_flag (run (initial b) schedule).first + owns_flag (run (initial b) schedule).second
            ≡ 1)
  reset_excludes = stops v

  -- For a pool that `new` makes and any schedule: a slot in the writing state is the producer's next slot, which it
  -- owns, a slot in the reading state is the consumer's, and the two never own the same slot.
  pub owners_apart : AreApart (run (initial b) schedule)
  owners_apart = (v.endpoints.only_writer, v.endpoints.only_reader, apart v)

  -- For a pool that `new` makes and any schedule: a lease that is published passes the checks of its generation, so
  -- that it is aborted only if its block is empty, and a block that is being rendered is never found to be stale.
  pub loans_current : AreCurrent (run (initial b) schedule)
  loans_current = (λ g. publishes v, λ g. renders v)
