-- ===== src/Base58/Inverse.antt =====
-- src/common/base58.cpp: decode_block and encode_block are inverse to each other.
use lira.Prelude.{
  ℕ, ◌*◌, ◌^◌, ◌≤◌, ◌<◌, ◌≡◌, refl, sym, ap, subst, ◌∙◌, Bool, true, false, not, ◌&&◌, ltb, leb,
  ltb→lt, leb→le, ◌==◌, ==_iff, inl, inr, some, some-injective, assert_inv, bind_inv, List, [], ◌∷◌,
  length, length-append, length-map, lt-cases, All, arith,
}
use lira.Prelude.Bits.{holds_below, holds_below_sound}
use mathlib.Core.List.{reverse, reverse-cons, reverse-reverse}
use native.Mathlib.Nat.{pow-le-pow_right}
use lira.Base58.{decode_loop, decode_block, decoded_block_sizes, uint_64_to_8be}
use lira.Base58.Digits.{
  InBase, digits_of, value, digits_of-value, value-digits_of, length-digits_of, digits_of-InBase,
}
use lira.Base58.Letters.{and_inv, letter, encoded_size, encoded_size_lem, decoded_block_sizes_inv}
use lira.Base58.Block.{letters, uint_64_to_8be_lem}
use lira.Base58.Decode.{decode-letters, accepted}

pub length-letters : (n num : ℕ) → length (letters n num) ≡ n
length-letters n num = length-map (digits_of 58 n num) letter ∙ length-digits_of 58 n num

bytes_bits_table : holds_below (λ n. 2 ^ (8 * n) == 256 ^ n) 9 ≡ true
unfolding holds_below
bytes_bits_table = refl

bytes_bits : (n : ℕ) → n ≤ 8 → 2 ^ (8 * n) ≡ 256 ^ n
bytes_bits n h =
    let test = holds_below_sound (λ n. 2 ^ (8 * n) == 256 ^ n) 9 n (omega arith) bytes_bits_table in
    (==_iff _ _).0 test

decode_block_run :
    (block : List ℕ) (n num : ℕ)
    → 0 < length block
    → length block ≤ 11
    → decoded_block_sizes (length block) ≡ some n
    → 0 < n
    → n ≤ 8
    → decode_loop (reverse block) 0 1 ≡ some num
    → num < 256 ^ n
    → decode_block block ≡ some (uint_64_to_8be num n)
unfolding decode_block
decode_block_run block n num pos len size some_bytes most loop fits =
    let t1 : leb 1 (length block) ≡ true = ground arith in
    let t2 : leb (length block) 11 ≡ true = ground arith in
    let t3 : ltb 0 n ≡ true = ground arith in
    let t4 : leb (256 ^ n) num ≡ false = ground arith in
    rw (t1, t2, size, t3, loop, bytes_bits n most, t4) (ground arith)

length-reverse : (xs : List ℕ) → length (reverse xs) ≡ length xs
length-reverse [] = refl
length-reverse (x ∷ xs) =
    ap length (reverse-cons x xs)
    ∙ omega (arith, length-append (reverse xs) (x ∷ []), length-reverse xs)

-- decode_block of what encode_block makes.
pub decode-encoded :
    (bytes : List ℕ)
    → 0 < length bytes
    → length bytes ≤ 8
    → All (InBase 256) bytes
    → decode_block (letters (encoded_size (length bytes)) (value 256 0 bytes)) ≡ some bytes
decode-encoded bytes pos len all =
    let n = length bytes in
    let num = value 256 0 bytes in
    let (size, back, room, most, some_size) = encoded_size_lem n pos len in
    let (digits, fits) = digits_of-value 256 (omega arith) n bytes refl all in
    let word : 256 ^ n ≤ 256 ^ 8 = pow-le-pow_right {n = 256} (omega arith) {i = n} {j = 8} len in
    let width = length-letters (encoded_size n) num in
    decode_block_run (letters (encoded_size n) num) n num (omega (arith, width, some_size))
      (omega (arith, width, most)) (ap decoded_block_sizes width ∙ back) pos len
      (decode-letters (encoded_size n) num 0 1 (omega (arith, fits, room)) (omega arith)
          (omega (arith, fits, word))
        ∙ ap some (omega arith))
      fits
    ∙ ap some (uint_64_to_8be_lem n num ∙ digits)

abbrev small_test : ℕ → ℕ → Bool
small_test n num = not (ltb n 8 && leb (2 ^ (8 * n)) num)

decode_block_inv :
    (block bytes : List ℕ)
    → decode_block block ≡ some bytes
    → (n : ℕ) × (num : ℕ) × (0 < length block)
      × (length block ≤ 11)
      × (decoded_block_sizes (length block) ≡ some n)
      × (0 < n)
      × (decode_loop (reverse block) 0 1 ≡ some num)
      × (small_test n num ≡ true)
      × (uint_64_to_8be num n ≡ bytes)
unfolding decode_block
decode_block_inv block bytes done =
    let (t1, k1) = assert_inv _ _ done in
    let (low, high) = and_inv _ _ t1 in
    let (n, size, k2) = bind_inv _ _ k1 in
    let (t2, k3) = assert_inv _ _ k2 in
    let (num, loop, k4) = bind_inv _ _ k3 in
    let (t3, k5) = assert_inv _ _ k4 in
    (n, num, leb→le _ _ low, leb→le _ _ high, size, ltb→lt _ _ t2, loop, t3, some-injective _ _ k5)

-- A block that is accepted is the encoding of the bytes that it gives.
pub decode_block-inverse :
    (block bytes : List ℕ)
    → decode_block block ≡ some bytes
    → (0 < length bytes)
      × (length bytes ≤ 8)
      × All (InBase 256) bytes
      × (block ≡ letters (encoded_size (length bytes)) (value 256 0 bytes))
decode_block-inverse block bytes done =
    let (n, num, some_letters, most, size, some_bytes, loop, test, same) =
      decode_block_inv block bytes done in
    let (few, width) = decoded_block_sizes_inv (length block) n most size in
    let (v, sum, word, fits, back) =
      accepted 0 (length block) 0 num (reverse block) (length-reverse block) (omega arith)
        (omega arith) loop in
    let exact : num ≡ v = omega (arith, sum) in
    let small : num < 256 ^ n = elim (lt-cases n 8) [
      | inl less ↦ below n num few less test
      | inr full ↦ let all : n ≡ 8 = omega (arith, few, full) in rw all (omega (arith, word))
    ] in
    let whole : bytes ≡ digits_of 256 n num = sym same ∙ uint_64_to_8be_lem n num in
    let len : length bytes ≡ n = ap length whole ∙ length-digits_of 256 n num in
    (
      omega (arith, len, some_bytes),
      omega (arith, len, few),
      subst (All (InBase 256)) (sym whole) (digits_of-InBase 256 (omega arith) n num),
      sym (reverse-reverse block)
          ∙ ap reverse (sym back)
          ∙ reverse-reverse (letters (length block) v)
          ∙ ap (λ (t : ℕ). letters t v) (sym width ∙ ap encoded_size (sym len))
          ∙ ap (letters (encoded_size (length bytes))) (
              sym exact
              ∙ sym (ap (value 256 0) whole ∙ value-digits_of 256 (omega arith) n num small)),
    )
  where
    below : (n num : ℕ) → n ≤ 8 → n < 8 → small_test n num ≡ true → num < 256 ^ n
    below n num few less test = rw (sym (bytes_bits n few)) (ground (arith, test))
