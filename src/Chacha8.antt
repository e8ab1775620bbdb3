-- ===== src/Chacha8.antt =====
-- src/crypto/chacha8.c: the ChaCha stream cipher with eight rounds, on a little-endian machine.
pub mod Bytes
pub mod Blocks
pub mod Stream
use lira.Prelude.{
  ℕ, zero, suc, ◌+◌, ◌-◌, ◌*◌, ◌/◌, ◌%◌, ◌^◌, bit_xor, ltb, leb, ◌==◌, if◌then◌else◌, Option, none,
  some, ◌>>=◌, List, [], ◌∷◌, ◌++◌, length, take, drop,
}
use lira.IntUtil.{rol32}

-- The variables x0 to x15, and j0 to j15.
pub data Words : Type 0 where
  words : ℕ → ℕ → ℕ → ℕ → ℕ → ℕ → ℕ → ℕ → ℕ → ℕ → ℕ → ℕ → ℕ → ℕ → ℕ → ℕ → Words

-- Four bytes as a word, lowest first; `none` reads past the end.
unfoldable pub head_word : List ℕ → Option ℕ
head_word (b0 ∷ b1 ∷ b2 ∷ b3 ∷ rest) = some (b0 + b1 * 2 ^ 8 + b2 * 2 ^ 16 + b3 * 2 ^ 24)
head_word bytes = none

-- U8TO32_LITTLE(p + i).
unfoldable pub word_at : List ℕ → ℕ → Option ℕ
word_at p i = head_word (drop i p)

-- U32TO8_LITTLE, for the words in order.
unfoldable pub store : List ℕ → List ℕ
store [] = []
store (x ∷ xs) = x % 2 ^ 8 ∷ x / 2 ^ 8 % 2 ^ 8 ∷ x / 2 ^ 16 % 2 ^ 8 ∷ x / 2 ^ 24 % 2 ^ 8 ∷ store xs

unfoldable pub plus : ℕ → ℕ → ℕ
plus v w = (v + w) % 2 ^ 32

unfoldable pub quarter_round : ℕ → ℕ → ℕ → ℕ → ℕ × ℕ × ℕ × ℕ
quarter_round a0 b0 c0 d0 =
    let a1 = plus a0 b0 in
    let d1 = rol32 (bit_xor d0 a1) 16 in
    let c1 = plus c0 d1 in
    let b1 = rol32 (bit_xor b0 c1) 12 in
    let a2 = plus a1 b1 in
    let d2 = rol32 (bit_xor d1 a2) 8 in
    let c2 = plus c1 d2 in let b2 = rol32 (bit_xor b1 c2) 7 in (a2, b2, c2, d2)

-- The eight quarter rounds of one turn of the loop.
unfoldable pub double_round : Words → Words
double_round (words x0 x1 x2 x3 x4 x5 x6 x7 x8 x9 x10 x11 x12 x13 x14 x15) =
    let (a0, a4, a8, a12) = quarter_round x0 x4 x8 x12 in
    let (a1, a5, a9, a13) = quarter_round x1 x5 x9 x13 in
    let (a2, a6, a10, a14) = quarter_round x2 x6 x10 x14 in
    let (a3, a7, a11, a15) = quarter_round x3 x7 x11 x15 in
    let (b0, b5, b10, b15) = quarter_round a0 a5 a10 a15 in
    let (b1, b6, b11, b12) = quarter_round a1 a6 a11 a12 in
    let (b2, b7, b8, b13) = quarter_round a2 a7 a8 a13 in
    let (b3, b4, b9, b14) = quarter_round a3 a4 a9 a14 in
    words b0 b1 b2 b3 b4 b5 b6 b7 b8 b9 b10 b11 b12 b13 b14 b15

-- for (i = 8; i > 0; i -= 2)
unfoldable pub rounds : ℕ → Words → Words
rounds zero x = x
rounds (suc zero) x = double_round x
rounds (suc (suc i)) x = rounds i (double_round x)

-- x0 = PLUS(x0, j0), and so on.
unfoldable pub plus_words : Words → Words → List ℕ
plus_words (words x0 x1 x2 x3 x4 x5 x6 x7 x8 x9 x10 x11 x12 x13 x14 x15)
      (words j0 j1 j2 j3 j4 j5 j6 j7 j8 j9 j10 j11 j12 j13 j14 j15) =
    plus x0 j0
    ∷ plus x1 j1
    ∷ plus x2 j2
    ∷ plus x3 j3
    ∷ plus x4 j4
    ∷ plus x5 j5
    ∷ plus x6 j6
    ∷ plus x7 j7
    ∷ plus x8 j8
    ∷ plus x9 j9
    ∷ plus x10 j10
    ∷ plus x11 j11
    ∷ plus x12 j12
    ∷ plus x13 j13
    ∷ plus x14 j14
    ∷ plus x15 j15
    ∷ []

unfoldable pub core : Words → List ℕ
core j = plus_words (rounds 8 j) j

-- x0 = XOR(x0, U8TO32_LITTLE(data + 0)), and so on.
unfoldable pub xor_data : List ℕ → List ℕ → Option (List ℕ)
xor_data [] data_bytes = some []
xor_data (x ∷ xs) data_bytes = do
  w ← head_word data_bytes
  rest ← xor_data xs (drop 4 data_bytes)
  some (bit_xor x w ∷ rest)

abbrev pub sigma : List ℕ
sigma = 101 ∷ 120 ∷ 112 ∷ 97 ∷ 110 ∷ 100 ∷ 32 ∷ 51 ∷ 50 ∷ 45 ∷ 98 ∷ 121 ∷ 116 ∷ 101 ∷ 32 ∷ 107 ∷ []

unfoldable pub setup : List ℕ → List ℕ → Option Words
setup key iv = do
  j0 ← word_at sigma 0
  j1 ← word_at sigma 4
  j2 ← word_at sigma 8
  j3 ← word_at sigma 12
  j4 ← word_at key 0
  j5 ← word_at key 4
  j6 ← word_at key 8
  j7 ← word_at key 12
  j8 ← word_at key 16
  j9 ← word_at key 20
  j10 ← word_at key 24
  j11 ← word_at key 28
  j14 ← word_at iv 0
  j15 ← word_at iv 4
  some (words j0 j1 j2 j3 j4 j5 j6 j7 j8 j9 j10 j11 0 0 j14 j15)

-- j12 = PLUSONE(j12), and j13 as well when j12 comes to 0.
unfoldable pub next_counter : Words → Words
next_counter (words j0 j1 j2 j3 j4 j5 j6 j7 j8 j9 j10 j11 j12 j13 j14 j15) =
    let k12 = plus j12 1 in
    let k13 = if k12 == 0 then plus j13 1 else j13 in
    words j0 j1 j2 j3 j4 j5 j6 j7 j8 j9 j10 j11 k12 k13 j14 j15

-- The loop over blocks; a block that is not full is worked on in `tmp`.
unfoldable pub chacha8_loop : ℕ → List ℕ → List ℕ → Words → Option (List ℕ)
chacha8_loop zero tmp bytes j = none
chacha8_loop (suc fuel) tmp bytes j =
    let block = if ltb (length bytes) 64 then bytes ++ drop (length bytes) tmp else bytes in
    let rest = chacha8_loop fuel tmp (drop 64 bytes) (next_counter j) in
    do
      xs ← xor_data (core j) block
      if leb (length bytes) 64
          then some (take (length bytes) (store xs))
          else (rest >>= λ more. some (store xs ++ more))

-- `bytes` is the buffer of `length` bytes, `tmp` what the array held before; the result is `cipher`.
unfoldable pub chacha8 : List ℕ → List ℕ → List ℕ → List ℕ → Option (List ℕ)
chacha8 tmp bytes key iv =
    if length bytes == 0
    then some []
    else (setup key iv >>= λ j. chacha8_loop (suc (length bytes / 64)) tmp bytes j)
