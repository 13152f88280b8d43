-- ===== src/Audio/Buffer/Invariant/Coordinating.antt =====
-- core/aurorix-audio/src/buffer.rs: the accesses that a coordinator makes.
use aurorix_music.Prelude.{
  ℕ, ◌+◌, ◌<◌, ◌≡◌, ◌⊎◌, sym, subst, refl, Bool-cases, ltb, inl, inr, true, false, if◌then◌else◌,
  arith,
}
use aurorix_music.Audio.Buffer.{AudioBuffer, vacant, writing, ready, reading}
use aurorix_music.Audio.Buffer.Steps.{
  Producer, Consumer, Coordinator, checked, flagged, scanning, emptying, storing_vacant,
  storing_generation, releasing, Choice, asks, coordinator_step,
}
use aurorix_music.Audio.Buffer.Invariant.{
  Inv, Endpoints, Finds, owns_flag, overwrites, writes_slot, reads_slot, producer_counted,
  consumer_counted, WriterFresh, ReaderFresh, repeats,
}

-- A coordinator that does not own the flag has found nothing out.
unflagged_Finds :
    (n : ℕ) (b : AudioBuffer) (p : Producer) (w : ℕ) (c : Consumer) (r : ℕ) (k : Coordinator)
    → owns_flag k ≡ 0
    → Finds n b p w c r k
unflagged_Finds n b p w c r Coordinator.idle o = tt
unflagged_Finds n b p w c r (checked g) o = tt
unflagged_Finds n b p w c r (flagged g) o = tt
unflagged_Finds n b p w c r releasing o = tt
unflagged_Finds n b p w c r (scanning g i) o = cc
unflagged_Finds n b p w c r (emptying g i) o = cc
unflagged_Finds n b p w c r (storing_vacant g i) o = cc
unflagged_Finds n b p w c r (storing_generation g) o = cc

owns_flag-cases : (k : Coordinator) → (owns_flag k ≡ 0) ⊎ (owns_flag k ≡ 1)
owns_flag-cases Coordinator.idle = inl refl
owns_flag-cases (checked g) = inl refl
owns_flag-cases (flagged g) = inr refl
owns_flag-cases (scanning g i) = inr refl
owns_flag-cases (emptying g i) = inr refl
owns_flag-cases (storing_vacant g i) = inr refl
owns_flag-cases (storing_generation g) = inr refl
owns_flag-cases releasing = inr refl

-- The slots that the coordinator has emptied.
abbrev Emptied : ℕ → Coordinator → ℕ → Type 0
Emptied n (emptying g i) j = j < i
Emptied n (storing_vacant g i) j = j < i
Emptied n (storing_generation g) j = j < n
Emptied n _ j = ⊥

found_vacant :
    (n : ℕ) (b : AudioBuffer) (p : Producer) (w : ℕ) (c : Consumer) (r : ℕ) (k : Coordinator)
    (j : ℕ)
    → Finds n b p w c r k
    → Emptied n k j
    → (b.slots j).state ≡ vacant
found_vacant n b p w c r Coordinator.idle j h lt = elim lt [ ]
found_vacant n b p w c r (checked g) j h lt = elim lt [ ]
found_vacant n b p w c r (flagged g) j h lt = elim lt [ ]
found_vacant n b p w c r (scanning g i) j h lt = elim lt [ ]
found_vacant n b p w c r releasing j h lt = elim lt [ ]
found_vacant n b p w c r (emptying g i) j h lt = h.1.2 j lt
found_vacant n b p w c r (storing_vacant g i) j h lt = h.1.2 j lt
found_vacant n b p w c r (storing_generation g) j h lt = h.1.2 j lt

-- What the coordinator has found out after an access of its own.
module _ (n : ℕ) (b : AudioBuffer) (p : Producer) (w : ℕ) (c : Consumer) (r : ℕ)
    (e : Endpoints n b p w c r) where
  abbrev FindsAfter : Choice → Coordinator → Type 0
  unfolding coordinator_step
  FindsAfter ch k = Finds n (coordinator_step ch b k).0 p w c r (coordinator_step ch b k).1

  scanned-Finds :
      (ch : Choice) (g i : ℕ) → Finds n b p w c r (scanning g i) → FindsAfter ch (scanning g i)
  unfolding coordinator_step
  scanned-Finds ch g i h = elim (Bool-cases (ltb i b.slot_count)) [
    | inl more ↦ rw more (ground (arith, e.writer, e.reader))
    | inr done ↦ rw done (
      h.0,
      (ground (arith, e.w_lt, e.size), ground (arith, e.r_lt, e.size), λ j lt. elim lt [ ]),
      omega arith,
    )
  ]

  emptied-Finds :
      (ch : Choice) (g i : ℕ) → Finds n b p w c r (emptying g i) → FindsAfter ch (emptying g i)
  unfolding coordinator_step
  emptied-Finds ch g i h = elim (Bool-cases (ltb i b.slot_count)) [
    | inl more ↦
        rw more (h.0, (h.1.0, h.1.1, λ j lt. ground (arith, h.1.2 j)), ground (arith, e.size))
    | inr done ↦ rw done (h.0, (h.1.0, h.1.1, λ j lt. h.1.2 j (ground (arith, e.size))))
  ]

  coordinated-Finds : (ch : Choice) (k : Coordinator) → Finds n b p w c r k → FindsAfter ch k
  unfolding coordinator_step
  coordinated-Finds (asks g) Coordinator.idle h = ground arith
  coordinated-Finds ch Coordinator.idle h = tt
  coordinated-Finds ch (checked g) h = ground arith
  coordinated-Finds ch (flagged g) h = ground (arith, e.entries)
  coordinated-Finds ch (scanning g i) h = scanned-Finds ch g i h
  coordinated-Finds ch (emptying g i) h = emptied-Finds ch g i h
  coordinated-Finds ch (storing_vacant g i) h =
      (h.0, (h.1.0, h.1.1, λ j lt. ground (arith, h.1.2 j)), omega arith)
  coordinated-Finds ch (storing_generation g) h = tt
  coordinated-Finds ch releasing h = tt

-- The pool after an access of the coordinator.
module _ {n : ℕ} {b : AudioBuffer} {p : Producer} {w : ℕ} {c : Consumer} {r : ℕ} {k l : Coordinator}
    (ch : Choice) (v : Inv n b p w c r k l) where
  abbrev pub b' : AudioBuffer
  unfolding coordinator_step
  b' = (coordinator_step ch b k).0

  abbrev pub k' : Coordinator
  unfolding coordinator_step
  k' = (coordinator_step ch b k).1

  coordinated_counts :
      (b'.slot_count ≡ n) × (b'.endpoint_entries ≡ producer_counted p + consumer_counted c)
  unfolding coordinator_step
  coordinated_counts = ground (arith, v.endpoints.size, v.endpoints.entries)

  coordinated_flag : (if b'.resetting then 1 else 0) ≡ owns_flag k' + owns_flag l
  unfolding coordinator_step
  coordinated_flag = ground (arith, v.flag)

  coordinated_writer : (writes_slot p ≡ true → (b'.slots w).state ≡ writing)
  unfolding coordinator_step
  coordinated_writer h = ground (arith, v.endpoints.writer, v.first_finds)

  coordinated_reader : (reads_slot c ≡ true → (b'.slots r).state ≡ reading)
  unfolding coordinator_step
  coordinated_reader h = ground (arith, v.endpoints.reader, v.first_finds)

  coordinated_only_writer :
      (j : ℕ) → (b'.slots j).state ≡ writing → (j ≡ w) × (writes_slot p ≡ true)
  unfolding coordinator_step
  coordinated_only_writer j h = ground (arith, v.endpoints.only_writer j)

  coordinated_only_reader : (j : ℕ) → (b'.slots j).state ≡ reading → (j ≡ r) × (reads_slot c ≡ true)
  unfolding coordinator_step
  coordinated_only_reader j h = ground (arith, v.endpoints.only_reader j)

  coordinated_given_back : (repeats p ≡ true → (b'.slots w).state ≡ vacant)
  unfolding coordinator_step
  coordinated_given_back h = ground (arith, v.endpoints.given_back)

  coordinated-WriterFresh : WriterFresh b' p w
  unfolding coordinator_step
  coordinated-WriterFresh = ground (arith, v.endpoints.writer_fresh, v.first_finds)

  coordinated-ReaderFresh : ReaderFresh b' c r
  unfolding coordinator_step
  coordinated-ReaderFresh = ground (arith, v.endpoints.reader_fresh, v.first_finds)

  coordinated-Endpoints : Endpoints n b' p w c r
  coordinated-Endpoints = record {
    size = coordinated_counts.0;
    w_lt = v.endpoints.w_lt;
    r_lt = v.endpoints.r_lt;
    entries = coordinated_counts.1;
    writer = coordinated_writer;
    reader = coordinated_reader;
    only_writer = coordinated_only_writer;
    only_reader = coordinated_only_reader;
    given_back = coordinated_given_back;
    writer_fresh = coordinated-WriterFresh;
    reader_fresh = coordinated-ReaderFresh;
  }

  coordinated_fresh :
      (j : ℕ)
      → j < n
      → (b'.slots j).state ≡ ready
      → overwrites k' j ≡ false
      → overwrites l j ≡ false
      → (b'.slots j).block.generation ≡ b'.generation
  unfolding coordinator_step
  coordinated_fresh j lt h ok om =
      ground (arith, v.fresh j, found_vacant n b p w c r k j v.first_finds)

  -- A coordinator without the flag leaves the pool as it is while the other has it.
  kept_pool : owns_flag l ≡ 1 → b' ≡ b
  unfolding coordinator_step
  kept_pool o = ground (arith, v.flag)

  other_Finds : Finds n b' p w c r l
  other_Finds = elim (owns_flag-cases l) [
    | inl o ↦ unflagged_Finds n b' p w c r l o
    | inr o ↦ subst (λ x. Finds n x p w c r l) (sym (kept_pool o)) v.second_finds
  ]

  -- The whole pool, after an access of the coordinator.
  pub coordinate-Inv : Inv n b' p w c r k' l
  unfolding k' FindsAfter
  coordinate-Inv = record {
    endpoints = coordinated-Endpoints;
    flag = coordinated_flag;
    first_finds = coordinated-Finds n b p w c r v.endpoints ch k v.first_finds;
    second_finds = other_Finds;
    fresh = coordinated_fresh;
  }
