-- ===== src/Sync/Digest.antt =====
-- core/aurorix-sync/src/outbox.rs: the digest of an operation's bytes. A byte and a word are numbers; the arithmetic
-- on words is modulo 2 ^ 32.
use Prim.Native.Nat.{bit_and, bit_xor}
use aurorix_music.Prelude.{
  ℕ, zero, suc, ◌+◌, ◌-◌, ◌*◌, ◌/◌, ◌%◌, ◌^◌, List, [], ◌∷◌, ◌++◌, length, get_elem?, unwrap_or,
}
use aurorix_music.Prelude.Text.{Text}

abbrev pub digest_len : ℕ
digest_len = 32

abbrev pub initial_hash : List ℕ
initial_hash =
    0x6a09e667 ∷ 0xbb67ae85 ∷ 0x3c6ef372 ∷ 0xa54ff53a ∷ 0x510e527f ∷ 0x9b05688c ∷ 0x1f83d9ab
    ∷ 0x5be0cd19 ∷ []

abbrev pub round_constants : List ℕ
round_constants =
    0x428a2f98 ∷ 0x71374491 ∷ 0xb5c0fbcf ∷ 0xe9b5dba5 ∷ 0x3956c25b ∷ 0x59f111f1 ∷ 0x923f82a4
    ∷ 0xab1c5ed5 ∷ 0xd807aa98 ∷ 0x12835b01 ∷ 0x243185be ∷ 0x550c7dc3 ∷ 0x72be5d74 ∷ 0x80deb1fe
    ∷ 0x9bdc06a7 ∷ 0xc19bf174 ∷ 0xe49b69c1 ∷ 0xefbe4786 ∷ 0x0fc19dc6 ∷ 0x240ca1cc ∷ 0x2de92c6f
    ∷ 0x4a7484aa ∷ 0x5cb0a9dc ∷ 0x76f988da ∷ 0x983e5152 ∷ 0xa831c66d ∷ 0xb00327c8 ∷ 0xbf597fc7
    ∷ 0xc6e00bf3 ∷ 0xd5a79147 ∷ 0x06ca6351 ∷ 0x14292967 ∷ 0x27b70a85 ∷ 0x2e1b2138 ∷ 0x4d2c6dfc
    ∷ 0x53380d13 ∷ 0x650a7354 ∷ 0x766a0abb ∷ 0x81c2c92e ∷ 0x92722c85 ∷ 0xa2bfe8a1 ∷ 0xa81a664b
    ∷ 0xc24b8b70 ∷ 0xc76c51a3 ∷ 0xd192e819 ∷ 0xd6990624 ∷ 0xf40e3585 ∷ 0x106aa070 ∷ 0x19a4c116
    ∷ 0x1e376c08 ∷ 0x2748774c ∷ 0x34b0bcb5 ∷ 0x391c0cb3 ∷ 0x4ed8aa4a ∷ 0x5b9cca4f ∷ 0x682e6ff3
    ∷ 0x748f82ee ∷ 0x78a5636f ∷ 0x84c87814 ∷ 0x8cc70208 ∷ 0x90befffa ∷ 0xa4506ceb ∷ 0xbef9a3f7
    ∷ 0xc67178f2 ∷ []

abbrev pub wrapping_add32 : ℕ → ℕ → ℕ
wrapping_add32 a b = (a + b) % 2 ^ 32

-- `u32::rotate_right`, by fewer than 32 bits.
abbrev pub rotate_right : ℕ → ℕ → ℕ
rotate_right n x = x / 2 ^ n + x % 2 ^ n * 2 ^ (32 - n)

abbrev pub complement : ℕ → ℕ
complement x = 2 ^ 32 - 1 - x

-- `to_be_bytes` of `n` bytes.
unfoldable pub to_be_bytes : ℕ → ℕ → List ℕ
to_be_bytes zero x = []
to_be_bytes (suc n) x = x / 256 ^ n % 256 ∷ to_be_bytes n x

unfoldable pub replicate : ℕ → ℕ → List ℕ
replicate zero x = []
replicate (suc n) x = x ∷ replicate n x

-- The message with the bit 1, zeroes up to a multiple of 64 bytes, and its length in bits.
unfoldable pub padded : List ℕ → List ℕ
unfolding to_be_bytes replicate
padded input =
    let padding_len = (64 - (length input + 1 + 8) % 64) % 64 in
    input ++ (0x80 ∷ (replicate padding_len 0 ++ to_be_bytes 8 (length input * 8)))

-- The words of a chunk, four bytes to one.
unfoldable pub words : ℕ → List ℕ → List ℕ
words zero bytes = []
words (suc n) (a ∷ b ∷ c ∷ d ∷ rest) = (a * 2 ^ 24 + b * 2 ^ 16 + c * 2 ^ 8 + d) ∷ words n rest
words (suc n) bytes = []

abbrev pub word_at : List ℕ → ℕ → ℕ
word_at ws i = unwrap_or (get_elem? ws i) 0

-- `schedule[index]` from the words before it, the latest first.
unfoldable pub schedule_word : List ℕ → ℕ
schedule_word latest =
    let w15 = word_at latest 14 in
    let w2 = word_at latest 1 in
    let small_sigma_0 =
      bit_xor (bit_xor (rotate_right 7 w15) (rotate_right 18 w15)) (w15 / 2 ^ 3) in
    let small_sigma_1 = bit_xor (bit_xor (rotate_right 17 w2) (rotate_right 19 w2)) (w2 / 2 ^ 10) in
    wrapping_add32
      (wrapping_add32 (wrapping_add32 (word_at latest 15) small_sigma_0) (word_at latest 6))
      small_sigma_1

-- The words of the schedule, the latest first.
unfoldable pub extend_schedule : ℕ → List ℕ → List ℕ
unfolding schedule_word
extend_schedule zero latest = latest
extend_schedule (suc n) latest = extend_schedule n (schedule_word latest ∷ latest)

-- The variables of the compression loop.
pub record Working : Type 0 where
  pub a : ℕ
  pub b : ℕ
  pub c : ℕ
  pub d : ℕ
  pub e : ℕ
  pub f : ℕ
  pub g : ℕ
  pub h : ℕ

unfoldable pub round : ℕ → ℕ → Working → Working
round constant word w =
    let big_sigma_1 =
      bit_xor (bit_xor (rotate_right 6 w.e) (rotate_right 11 w.e)) (rotate_right 25 w.e) in
    let choose = bit_xor (bit_and w.e w.f) (bit_and (complement w.e) w.g) in
    let temporary_1 =
      wrapping_add32
        (wrapping_add32 (wrapping_add32 (wrapping_add32 w.h big_sigma_1) choose) constant) word in
    let big_sigma_0 =
      bit_xor (bit_xor (rotate_right 2 w.a) (rotate_right 13 w.a)) (rotate_right 22 w.a) in
    let majority = bit_xor (bit_xor (bit_and w.a w.b) (bit_and w.a w.c)) (bit_and w.b w.c) in
    let temporary_2 = wrapping_add32 big_sigma_0 majority in
    record {
      a = wrapping_add32 temporary_1 temporary_2;
      b = w.a;
      c = w.b;
      d = w.c;
      e = wrapping_add32 w.d temporary_1;
      f = w.e;
      g = w.f;
      h = w.g;
    }

unfoldable pub rounds : List ℕ → List ℕ → Working → Working
unfolding round
rounds [] ws w = w
rounds (k ∷ ks) [] w = w
rounds (k ∷ ks) (x ∷ ws) w = rounds ks ws (round k x w)

unfoldable pub reversed : List ℕ → List ℕ → List ℕ
reversed [] done = done
reversed (x ∷ xs) done = reversed xs (x ∷ done)

-- A chunk of 64 bytes added to the hash.
unfoldable pub compress : List ℕ → Working → Working
unfolding words extend_schedule rounds reversed
compress chunk hash =
    let schedule = reversed (extend_schedule 48 (reversed (words 16 chunk) [])) [] in
    let w = rounds round_constants schedule hash in
    record {
      a = wrapping_add32 hash.a w.a;
      b = wrapping_add32 hash.b w.b;
      c = wrapping_add32 hash.c w.c;
      d = wrapping_add32 hash.d w.d;
      e = wrapping_add32 hash.e w.e;
      f = wrapping_add32 hash.f w.f;
      g = wrapping_add32 hash.g w.g;
      h = wrapping_add32 hash.h w.h;
    }

unfoldable pub skip_bytes : ℕ → List ℕ → List ℕ
skip_bytes zero bytes = bytes
skip_bytes (suc n) [] = []
skip_bytes (suc n) (x ∷ bytes) = skip_bytes n bytes

-- The `n` chunks of a padded message.
unfoldable pub compress_chunks : ℕ → List ℕ → Working → Working
unfolding compress skip_bytes
compress_chunks zero bytes hash = hash
compress_chunks (suc n) bytes hash = compress_chunks n (skip_bytes 64 bytes) (compress bytes hash)

unfoldable pub sha256 : List ℕ → List ℕ
unfolding compress_chunks padded
sha256 input =
    let message = padded input in
    let w = compress_chunks (length message / 64) message (record {
      a = word_at initial_hash 0;
      b = word_at initial_hash 1;
      c = word_at initial_hash 2;
      d = word_at initial_hash 3;
      e = word_at initial_hash 4;
      f = word_at initial_hash 5;
      g = word_at initial_hash 6;
      h = word_at initial_hash 7;
    }) in
    to_be_bytes 4 w.a
    ++ (to_be_bytes 4 w.b
        ++ (to_be_bytes 4 w.c
            ++ (to_be_bytes 4 w.d
                ++ (to_be_bytes 4 w.e
                    ++ (to_be_bytes 4 w.f ++ (to_be_bytes 4 w.g ++ to_be_bytes 4 w.h))))))

-- The digest is its 32 bytes.
abbrev pub OperationDigest : Type 0
OperationDigest = List ℕ

unfoldable pub compute : List ℕ → OperationDigest
unfolding sha256
compute bytes = sha256 bytes

-- `HEX[n]`, as a code point.
abbrev pub hex_digit : ℕ → ℕ
hex_digit n =
    word_at
      (b'0' ∷ b'1' ∷ b'2' ∷ b'3' ∷ b'4' ∷ b'5' ∷ b'6' ∷ b'7' ∷ b'8' ∷ b'9' ∷ b'a' ∷ b'b' ∷ b'c'
        ∷ b'd' ∷ b'e' ∷ b'f' ∷ [])
      n

unfoldable pub to_hex : OperationDigest → Text
to_hex [] = []
to_hex (byte ∷ bytes) = hex_digit (byte / 16) ∷ hex_digit (byte % 16) ∷ to_hex bytes
