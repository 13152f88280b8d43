-- ===== src/Audio/Buffer/Invariant/Producing.antt =====
-- core/aurorix-audio/src/buffer.rs: the accesses that the producer makes.
use aurorix_music.Prelude.{ℕ, ◌+◌, ◌<◌, ◌≡◌, inl, inr, true, arith}
use aurorix_music.Audio.Buffer.{AudioBuffer, vacant, writing, ready, reading}
use aurorix_music.Audio.Buffer.Steps.{
  Producer, Consumer, Coordinator, checked, flagged, scanning, emptying, storing_vacant,
  storing_generation, releasing, Choice, producer_step,
}
use aurorix_music.Audio.Buffer.Invariant.{
  Inv, owned_flag, Endpoints, Finds, owns_flag, writes_slot, reads_slot, producer_counted,
  consumer_counted, WriterFresh, ReaderFresh, repeats,
}

-- The producer's part of the pool, after an access.
module _ {n : ℕ} {b : AudioBuffer} {p : Producer} {w : ℕ} {c : Consumer} {r : ℕ} (ch : Choice)
    (e : Endpoints n b p w c r) where
  abbrev pub b' : AudioBuffer
  unfolding producer_step
  b' = (producer_step ch b p w).0

  abbrev pub p' : Producer
  unfolding producer_step
  p' = (producer_step ch b p w).1

  abbrev pub w' : ℕ
  unfolding producer_step
  w' = (producer_step ch b p w).2

  produced_range : (b'.slot_count ≡ n) × (w' < n)
  unfolding producer_step
  produced_range = ground (arith, e.size, e.w_lt)

  produced_entries : b'.endpoint_entries ≡ producer_counted p' + consumer_counted c
  unfolding producer_step
  produced_entries = ground (arith, e.entries)

  produced_writer : (writes_slot p' ≡ true → (b'.slots w').state ≡ writing)
  unfolding producer_step
  produced_writer h = ground (arith, e.writer)

  produced_reader : (reads_slot c ≡ true → (b'.slots r).state ≡ reading)
  unfolding producer_step
  produced_reader h = ground (arith, e.reader, e.writer, e.given_back)

  produced_only_writer : (j : ℕ) → (b'.slots j).state ≡ writing → (j ≡ w') × (writes_slot p' ≡ true)
  unfolding producer_step
  produced_only_writer j h = ground (arith, e.only_writer j, e.only_writer w)

  produced_only_reader : (j : ℕ) → (b'.slots j).state ≡ reading → (j ≡ r) × (reads_slot c ≡ true)
  unfolding producer_step
  produced_only_reader j h = ground (arith, e.only_reader j)

  produced_given_back : (repeats p' ≡ true → (b'.slots w').state ≡ vacant)
  unfolding producer_step
  produced_given_back h = ground (arith, e.given_back)

  produced-WriterFresh : WriterFresh b' p' w'
  unfolding producer_step
  produced-WriterFresh = ground (arith, e.writer_fresh)

  produced-ReaderFresh : ReaderFresh b' c r
  unfolding producer_step
  produced-ReaderFresh = ground (arith, e.reader_fresh, e.reader, e.writer, e.given_back)

  pub produced-Endpoints : Endpoints n b' p' w' c r
  produced-Endpoints = record {
    size = produced_range.0;
    w_lt = produced_range.1;
    r_lt = e.r_lt;
    entries = produced_entries;
    writer = produced_writer;
    reader = produced_reader;
    only_writer = produced_only_writer;
    only_reader = produced_only_reader;
    given_back = produced_given_back;
    writer_fresh = produced-WriterFresh;
    reader_fresh = produced-ReaderFresh;
  }

  -- A coordinator that owns the flag keeps the producer out.
  produced-Finds :
      (k : Coordinator)
      → (owns_flag k ≡ 1 → b.resetting ≡ true)
      → Finds n b p w c r k
      → Finds n b' p' w' c r k
  unfolding producer_step
  produced-Finds (scanning g i) f h = ground (arith, f)
  produced-Finds (emptying g i) f h =
      (ground (arith, f), (ground (arith, f), h.1.1, λ j lt. ground (arith, f, h.1.2 j)), h.2)
  produced-Finds (storing_vacant g i) f h =
      (ground (arith, f), (ground (arith, f), h.1.1, λ j lt. ground (arith, f, h.1.2 j)), h.2)
  produced-Finds (storing_generation g) f h =
      (ground (arith, f), (ground (arith, f), h.1.1, λ j lt. ground (arith, f, h.1.2 j)))
  produced-Finds Coordinator.idle f h = tt
  produced-Finds (checked g) f h = tt
  produced-Finds (flagged g) f h = tt
  produced-Finds releasing f h = tt

  produced_fresh :
      (j : ℕ)
      → ((b.slots j).state ≡ ready → (b.slots j).block.generation ≡ b.generation)
      → (b'.slots j).state ≡ ready
      → (b'.slots j).block.generation ≡ b'.generation
  unfolding producer_step
  produced_fresh j f h = ground (arith, e.writer_fresh, e.writer, e.given_back, f)

  produced_flag : b'.resetting ≡ b.resetting
  unfolding producer_step
  produced_flag = ground arith

  -- The whole pool, after an access of the producer.
  pub produce-Inv : {k l : Coordinator} → Inv n b p w c r k l → Inv n b' p' w' c r k l
  produce-Inv {k} {l} v = record {
    endpoints = produced-Endpoints;
    flag = rw produced_flag v.flag;
    first_finds = produced-Finds k (λ o. owned_flag k l v.flag (inl o)) v.first_finds;
    second_finds = produced-Finds l (λ o. owned_flag k l v.flag (inr o)) v.second_finds;
    fresh = λ j lt h ok om. produced_fresh j (λ s. v.fresh j lt s ok om) h;
  }
