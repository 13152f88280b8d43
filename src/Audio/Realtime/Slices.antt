-- ===== src/Audio/Realtime/Slices.antt =====
-- core/aurorix-audio/src/pcm.rs: slices of samples, as `copy_frames_to` takes them.
use aurorix_music.Prelude.{
  ℕ, zero, suc, ◌+◌, ◌-◌, ◌*◌, ◌≤◌, ◌<◌, ◌≡◌, refl, ap, ◌∙◌, List, [], ◌∷◌, ◌++◌, length, min,
  arith,
}
use native.Mathlib.Nat.{
  suc-add, sub-zero, suc-sub-suc, add-mul, mul-div_cancel, mul-mod_left, mul-le-mul_right,
}
use aurorix_music.Prelude.Exec.{Result, ok}
use aurorix_music.Audio.Pcm.{PcmError, AudioBlock, drop, take, zeroes, overwrite, copy_frames_to}

pub length-zeroes : (n : ℕ) → length (zeroes n) ≡ n
unfolding zeroes
length-zeroes zero = refl
length-zeroes (suc n) = ap suc (length-zeroes n)

pub length-take : (n : ℕ) (xs : List ℕ) → n ≤ length xs → length (take n xs) ≡ n
unfolding take
length-take zero xs h = refl
length-take (suc n) [] h = elim h [ ]
length-take (suc n) (x ∷ xs) h = ap suc (length-take n xs (omega arith))

pub length-drop : (n : ℕ) (xs : List ℕ) → length (drop n xs) ≡ length xs - n
unfolding drop
length-drop zero xs = omega arith
length-drop (suc n) [] = omega arith
length-drop (suc n) (x ∷ xs) = omega (arith, length-drop n xs)

pub take_all : (n : ℕ) (xs : List ℕ) → length xs ≤ n → take n xs ≡ xs
unfolding take
take_all zero [] h = refl
take_all zero (x ∷ xs) h = absurd (omega arith)
take_all (suc n) [] h = refl
take_all (suc n) (x ∷ xs) h = ap (λ t. x ∷ t) (take_all n xs (omega arith))

pub drop_all : (n : ℕ) (xs : List ℕ) → length xs ≤ n → drop n xs ≡ []
unfolding drop
drop_all zero [] h = refl
drop_all zero (x ∷ xs) h = absurd (omega arith)
drop_all (suc n) [] h = refl
drop_all (suc n) (x ∷ xs) h = drop_all n xs (omega arith)

pub take-append : (xs ys : List ℕ) (n : ℕ) → n ≡ length xs → take n (xs ++ ys) ≡ xs
unfolding take
take-append [] ys zero h = refl
take-append [] ys (suc n) h = absurd (omega arith)
take-append (x ∷ xs) ys zero h = absurd (omega arith)
take-append (x ∷ xs) ys (suc n) h = ap (λ t. x ∷ t) (take-append xs ys n (omega arith))

pub drop-append : (xs ys : List ℕ) (n : ℕ) → n ≡ length xs → drop n (xs ++ ys) ≡ ys
unfolding drop
drop-append [] ys zero h = refl
drop-append [] ys (suc n) h = absurd (omega arith)
drop-append (x ∷ xs) ys zero h = absurd (omega arith)
drop-append (x ∷ xs) ys (suc n) h = drop-append xs ys n (omega arith)

take_cut :
    (n c : ℕ) (xs : List ℕ) → n ≤ c → c ≤ length xs → take c xs ≡ take n xs ++ drop n (take c xs)
unfolding drop take
take_cut zero c xs h k = refl
take_cut (suc n) zero xs h k = absurd (omega arith)
take_cut (suc n) (suc c) [] h k = elim k [ ]
take_cut (suc n) (suc c) (x ∷ xs) h k =
    ap (λ t. x ∷ t) (take_cut n c xs (omega arith) (omega arith))

-- A slice of a prefix, cut in two.
pub drop-take :
    (a n c : ℕ) (xs : List ℕ)
    → a + n ≤ c
    → c ≤ length xs
    → drop a (take c xs) ≡ take n (drop a xs) ++ drop (a + n) (take c xs)
unfolding drop take
drop-take zero zero c xs h k = refl
drop-take zero (suc n) zero xs h k = absurd (omega arith)
drop-take zero (suc n) (suc c) [] h k = elim k [ ]
drop-take zero (suc n) (suc c) (x ∷ xs) h k =
    ground (arith, take_cut n c xs (omega arith) (omega arith))
drop-take (suc a) n zero xs h k = absurd (omega arith)
drop-take (suc a) n (suc c) [] h k = elim k [ ]
drop-take (suc a) n (suc c) (x ∷ xs) h k =
    rw suc-add (drop-take a n c xs (omega arith) (omega arith))

pub overwrite-zeroes :
    (k : ℕ) (ys : List ℕ) → length ys ≤ k → overwrite (zeroes k) ys ≡ ys ++ zeroes (k - length ys)
unfolding overwrite zeroes
overwrite-zeroes zero [] h = refl
overwrite-zeroes (suc k) [] h = rw sub-zero
overwrite-zeroes zero (y ∷ ys) h = absurd (omega arith)
overwrite-zeroes (suc k) (y ∷ ys) h =
    rw suc-sub-suc (ap (λ t. y ∷ t) (overwrite-zeroes k ys (omega arith)))

abbrev success : ℕ → List ℕ → Result PcmError ℕ × List ℕ
success n out = (ok n, out)

-- The frames that a copy into silence moves, and how the destination is left.
module _ (b : AudioBlock) (offset room : ℕ) (channels : 0 < b.format.channels)
    (more : offset < b.valid_frames)
    (fits : b.valid_frames * b.format.channels ≤ length b.samples) where
  abbrev pub moved : ℕ
  moved = min (b.valid_frames - offset) room

  abbrev pub copied_samples : List ℕ
  copied_samples = take (moved * b.format.channels) (drop (offset * b.format.channels) b.samples)

  moved_fits :
      offset * b.format.channels + moved * b.format.channels ≤ b.valid_frames * b.format.channels
  moved_fits = rw (← add-mul) (mul-le-mul_right b.format.channels (ground arith))

  pub length-copied_samples : length copied_samples ≡ moved * b.format.channels
  length-copied_samples =
      length-take (moved * b.format.channels) (drop (offset * b.format.channels) b.samples)
        (omega (arith, moved_fits, length-drop (offset * b.format.channels) b.samples, fits))

  moved-le : moved * b.format.channels ≤ room * b.format.channels
  moved-le = mul-le-mul_right b.format.channels (ground arith)

  silence_left :
      room * b.format.channels - length copied_samples ≡ (room - moved) * b.format.channels
  silence_left =
      let parts : (room - moved) + moved ≡ room = ground arith in
      omega (
        arith,
        length-copied_samples,
        add-mul (room - moved) moved b.format.channels,
        ap (λ (t : ℕ). t * b.format.channels) parts,
      )

  pub copy_frames_to-zeroes :
      copy_frames_to b offset (zeroes (room * b.format.channels))
      ≡ (ok moved, copied_samples ++ zeroes ((room - moved) * b.format.channels))
  unfolding copy_frames_to
  copy_frames_to-zeroes =
      rw (length-zeroes, mul-mod_left, mul-div_cancel room channels)
        (ap (λ (out : List ℕ). success moved out)
          (overwrite-zeroes (room * b.format.channels) copied_samples
              (omega (arith, length-copied_samples, moved-le))
            ∙ ap (λ k. copied_samples ++ zeroes k) silence_left))
