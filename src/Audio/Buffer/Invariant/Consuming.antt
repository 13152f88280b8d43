-- ===== src/Audio/Buffer/Invariant/Consuming.antt =====
-- core/aurorix-audio/src/buffer.rs: the accesses that the consumer makes.
use aurorix_music.Prelude.{ℕ, ◌+◌, ◌<◌, ◌≡◌, refl, inl, inr, true, false, arith}
use aurorix_music.Audio.Buffer.{AudioBuffer, vacant, writing, ready, reading}
use aurorix_music.Audio.Buffer.Steps.{
  Producer, Consumer, Coordinator, checked, flagged, scanning, emptying, storing_vacant,
  storing_generation, releasing, Choice, consumer_step,
}
use aurorix_music.Audio.Buffer.Invariant.{
  Inv, owned_flag, Endpoints, Finds, owns_flag, overwrites, writes_slot, reads_slot,
  producer_counted, consumer_counted, consumer_claims, WriterFresh, ReaderFresh, repeats,
}

-- While the consumer may claim a slot no coordinator resets a block.
claiming_overwrites :
    (n : ℕ) (b : AudioBuffer) (p : Producer) (w : ℕ) (c : Consumer) (r : ℕ) (k : Coordinator)
    (j : ℕ)
    → Finds n b p w c r k
    → consumer_claims c ≡ true
    → overwrites k j ≡ false
claiming_overwrites n b p w c r (storing_vacant g i) j h m = cc (h.0.1)
claiming_overwrites n b p w c r Coordinator.idle j h m = refl
claiming_overwrites n b p w c r (checked g) j h m = refl
claiming_overwrites n b p w c r (flagged g) j h m = refl
claiming_overwrites n b p w c r (scanning g i) j h m = refl
claiming_overwrites n b p w c r (emptying g i) j h m = refl
claiming_overwrites n b p w c r (storing_generation g) j h m = refl
claiming_overwrites n b p w c r releasing j h m = refl

-- The consumer's part of the pool, after an access.
module _ {n : ℕ} {b : AudioBuffer} {p : Producer} {w : ℕ} {c : Consumer} {r : ℕ} (ch : Choice)
    (e : Endpoints n b p w c r) where
  abbrev pub b' : AudioBuffer
  unfolding consumer_step
  b' = (consumer_step ch b c r).0

  abbrev pub c' : Consumer
  unfolding consumer_step
  c' = (consumer_step ch b c r).1

  abbrev pub r' : ℕ
  unfolding consumer_step
  r' = (consumer_step ch b c r).2

  consumed_range : (b'.slot_count ≡ n) × (r' < n)
  unfolding consumer_step
  consumed_range = ground (arith, e.size, e.r_lt)

  consumed_entries : b'.endpoint_entries ≡ producer_counted p + consumer_counted c'
  unfolding consumer_step
  consumed_entries = ground (arith, e.entries)

  consumed_writer : (writes_slot p ≡ true → (b'.slots w).state ≡ writing)
  unfolding consumer_step
  consumed_writer h = ground (arith, e.writer, e.reader)

  consumed_reader : (reads_slot c' ≡ true → (b'.slots r').state ≡ reading)
  unfolding consumer_step
  consumed_reader h = ground (arith, e.reader)

  consumed_only_writer : (j : ℕ) → (b'.slots j).state ≡ writing → (j ≡ w) × (writes_slot p ≡ true)
  unfolding consumer_step
  consumed_only_writer j h = ground (arith, e.only_writer j)

  consumed_only_reader : (j : ℕ) → (b'.slots j).state ≡ reading → (j ≡ r') × (reads_slot c' ≡ true)
  unfolding consumer_step
  consumed_only_reader j h = ground (arith, e.only_reader j, e.only_reader r)

  consumed_given_back : (repeats p ≡ true → (b'.slots w).state ≡ vacant)
  unfolding consumer_step
  consumed_given_back h = ground (arith, e.given_back)

  consumed-WriterFresh : WriterFresh b' p w
  unfolding consumer_step
  consumed-WriterFresh = ground (arith, e.writer_fresh, e.writer, e.reader)

  -- The block that is claimed is fresh, as no coordinator has reset it.
  consumed-ReaderFresh :
      (consumer_claims c ≡ true
        → (b.slots r).state ≡ ready
        → (b.slots r).block.generation ≡ b.generation)
      → ReaderFresh b' c' r'
  unfolding consumer_step
  consumed-ReaderFresh f = ground (arith, e.reader_fresh, e.reader, f)

  pub consumed-Endpoints :
      (consumer_claims c ≡ true
        → (b.slots r).state ≡ ready
        → (b.slots r).block.generation ≡ b.generation)
      → Endpoints n b' p w c' r'
  consumed-Endpoints f = record {
    size = consumed_range.0;
    w_lt = e.w_lt;
    r_lt = consumed_range.1;
    entries = consumed_entries;
    writer = consumed_writer;
    reader = consumed_reader;
    only_writer = consumed_only_writer;
    only_reader = consumed_only_reader;
    given_back = consumed_given_back;
    writer_fresh = consumed-WriterFresh;
    reader_fresh = consumed-ReaderFresh f;
  }

  -- A coordinator that owns the flag keeps the consumer out.
  consumed-Finds :
      (k : Coordinator)
      → (owns_flag k ≡ 1 → b.resetting ≡ true)
      → Finds n b p w c r k
      → Finds n b' p w c' r' k
  unfolding consumer_step
  consumed-Finds (scanning g i) f h = ground (arith, f)
  consumed-Finds (emptying g i) f h =
      (ground (arith, f), (h.1.0, ground (arith, f), λ j lt. ground (arith, f, h.1.2 j)), h.2)
  consumed-Finds (storing_vacant g i) f h =
      (ground (arith, f), (h.1.0, ground (arith, f), λ j lt. ground (arith, f, h.1.2 j)), h.2)
  consumed-Finds (storing_generation g) f h =
      (ground (arith, f), (h.1.0, ground (arith, f), λ j lt. ground (arith, f, h.1.2 j)))
  consumed-Finds Coordinator.idle f h = tt
  consumed-Finds (checked g) f h = tt
  consumed-Finds (flagged g) f h = tt
  consumed-Finds releasing f h = tt

  consumed_fresh :
      (j : ℕ)
      → ((b.slots j).state ≡ ready → (b.slots j).block.generation ≡ b.generation)
      → (b'.slots j).state ≡ ready
      → (b'.slots j).block.generation ≡ b'.generation
  unfolding consumer_step
  consumed_fresh j f h = ground (arith, e.reader_fresh, e.reader, f)

  consumed_flag : b'.resetting ≡ b.resetting
  unfolding consumer_step
  consumed_flag = ground arith

  -- The whole pool, after an access of the consumer.
  pub consume-Inv : {k l : Coordinator} → Inv n b p w c r k l → Inv n b' p w c' r' k l
  consume-Inv {k} {l} v = record {
    endpoints = consumed-Endpoints (λ m s.
        v.fresh r e.r_lt s (claiming_overwrites n b p w c r k r v.first_finds m)
          (claiming_overwrites n b p w c r l r v.second_finds m));
    flag = rw consumed_flag v.flag;
    first_finds = consumed-Finds k (λ o. owned_flag k l v.flag (inl o)) v.first_finds;
    second_finds = consumed-Finds l (λ o. owned_flag k l v.flag (inr o)) v.second_finds;
    fresh = λ j lt h ok om. consumed_fresh j (λ s. v.fresh j lt s ok om) h;
  }
