-- ===== src/Base58/Block.antt =====
-- src/common/base58.cpp: one block is encoded as its number in base 58, and decoded back.
use lira.Prelude.{
  ℕ, zero, suc, ◌+◌, ◌*◌, ◌/◌, ◌%◌, ◌^◌, bit_or, ◌≤◌, ◌<◌, ◌≡◌, refl, sym, ap, ◌∙◌, true, ltb, leb,
  some, List, [], ◌∷◌, ◌++◌, map, length, append_assoc, append-nil, get_elem?, set, replicate, All,
  arith,
}
use lira.Prelude.Bits.{shift_bit_or}
use mathlib.Core.List.{map-append}
use native.Mathlib.Nat.{pow-suc, pow-le-pow_right}
use lira.Base58.{alphabet, be_loop, uint_8be_to_64, uint_64_to_8be, encode_loop, encode_block}
use lira.Base58.Digits.{InBase, digits_of, value, digits_of-value}
use lira.Base58.Letters.{letter, letter_lem, encoded_size, encoded_size_lem}

pub uint_64_to_8be_lem : (n num : ℕ) → uint_64_to_8be num n ≡ digits_of 256 n num
unfolding uint_64_to_8be digits_of
uint_64_to_8be_lem zero num = refl
uint_64_to_8be_lem (suc n) num =
    ap (λ (t : List ℕ). t ++ ((num % 256) ∷ [])) (uint_64_to_8be_lem n (num / 256))

pub be_loop_lem :
    (k acc : ℕ) (bytes : List ℕ)
    → acc < 256 ^ k
    → k + length bytes ≤ 8
    → All (InBase 256) bytes
    → be_loop acc bytes ≡ value 256 acc bytes
unfolding be_loop value
be_loop_lem k acc [] h len all = refl
be_loop_lem k acc (b ∷ bs) h len (small, all) =
    let wide : 256 ^ suc k ≤ 256 ^ 8 =
      pow-le-pow_right {n = 256} (omega arith) {i = suc k} {j = 8} (omega arith) in
    let power = pow-suc 256 k in
    let exact : acc * 2 ^ 8 % 2 ^ 64 ≡ acc * 2 ^ 8 = omega (arith, wide, power) in
    let joined : bit_or (acc * 2 ^ 8) b ≡ acc * 256 + b = shift_bit_or 8 acc b small in
    rw (exact, joined)
      (be_loop_lem (suc k) (acc * 256 + b) bs (omega (arith, power)) (omega arith) all)

-- The letters of a number.
abbrev pub letters : ℕ → ℕ → List ℕ
letters n num = map letter (digits_of 58 n num)

pub letters-suc :
    (n num : ℕ) → letters (suc n) num ≡ letters n (num / 58) ++ (letter (num % 58) ∷ [])
unfolding digits_of
letters-suc n num = map-append letter (digits_of 58 n (num / 58)) ((num % 58) ∷ [])

replicate-end : (n a : ℕ) → replicate n a ++ (a ∷ []) ≡ replicate (suc n) a
replicate-end zero a = refl
replicate-end (suc n) a = ap (◌∷◌ a) (replicate-end n a)

ones : (n : ℕ) → letters n 0 ≡ replicate n 49
unfolding digits_of letter
ones zero = refl
ones (suc n) = letters-suc n 0 ∙ ap (λ (t : List ℕ). t ++ (49 ∷ [])) (ones n) ∙ replicate-end n 49

set-replicate :
    (i a v : ℕ) (tail : List ℕ)
    → set (replicate (suc i) a ++ tail) i v ≡ replicate i a ++ (v ∷ tail)
set-replicate zero a v tail = refl
set-replicate (suc i) a v tail = ap (◌∷◌ a) (set-replicate i a v tail)

encode_stop : (fuel i : ℕ) (res : List ℕ) → encode_loop (suc fuel) 0 i res ≡ some res
unfolding encode_loop
encode_stop fuel zero res = refl
encode_stop fuel (suc i) res = ground arith

encode_more :
    (fuel num i c : ℕ) (res : List ℕ)
    → 0 < num
    → get_elem? alphabet (num % 58) ≡ some c
    → encode_loop (suc fuel) num (suc i) res ≡ encode_loop fuel (num / 58) i (set res i c)
unfolding encode_loop
encode_more fuel num i c res pos there =
    let test : ltb 0 num ≡ true = ground arith in rw (test, there) refl

pub encode_loop_lem :
    (fuel num i : ℕ) (tail : List ℕ)
    → i < fuel
    → num < 58 ^ i
    → encode_loop fuel num i (replicate i 49 ++ tail) ≡ some (letters i num ++ tail)
encode_loop_lem zero num i tail enough fits = absurd (omega arith)
encode_loop_lem (suc fuel) zero i tail enough fits =
    encode_stop fuel i (replicate i 49 ++ tail)
    ∙ ap (λ (t : List ℕ). some (t ++ tail)) (sym (ones i))
encode_loop_lem (suc fuel) (suc n) zero tail enough fits = absurd (omega (arith, fits))
encode_loop_lem (suc fuel) (suc n) (suc i) tail enough fits =
    let num = suc n in
    let smaller : num / 58 < 58 ^ i = omega (arith, pow-suc 58 i, fits) in
    let (there, back) = letter_lem (num % 58) (omega arith) in
    encode_more fuel num i (letter (num % 58)) (replicate (suc i) 49 ++ tail) (omega arith) there
    ∙ ap (encode_loop fuel (num / 58) i) (set-replicate i 49 (letter (num % 58)) tail)
    ∙ encode_loop_lem fuel (num / 58) i (letter (num % 58) ∷ tail) (omega arith) smaller
    ∙ ap some (
        sym (append_assoc (letters i (num / 58)) (letter (num % 58) ∷ []) tail)
        ∙ ap (λ (t : List ℕ). t ++ tail) (sym (letters-suc i num)))

-- A block of 1 to 8 bytes is encoded as the letters of its number.
pub encode_block_lem :
    (bytes : List ℕ)
    → 0 < length bytes
    → length bytes ≤ 8
    → All (InBase 256) bytes
    → encode_block bytes ≡ some (letters (encoded_size (length bytes)) (value 256 0 bytes))
unfolding encode_block uint_8be_to_64
encode_block_lem bytes pos len all =
    let t1 : leb 1 (length bytes) ≡ true = ground arith in
    let t2 : leb (length bytes) 8 ≡ true = ground arith in
    let (size, back, room, most, some_size) = encoded_size_lem (length bytes) pos len in
    let number : be_loop 0 bytes ≡ value 256 0 bytes =
      be_loop_lem 0 0 bytes (omega arith) (omega arith) all in
    let (digits, fits) = digits_of-value 256 (omega arith) (length bytes) bytes refl all in
    rw (t1, t2, number, size)
      (ap (encode_loop 12 (value 256 0 bytes) (encoded_size (length bytes)))
          (sym (append-nil (replicate (encoded_size (length bytes)) 49)))
        ∙ encode_loop_lem 12 (value 256 0 bytes) (encoded_size (length bytes)) [] (omega arith)
            (omega (arith, fits, room))
        ∙ ap some (append-nil (letters (encoded_size (length bytes)) (value 256 0 bytes))))
