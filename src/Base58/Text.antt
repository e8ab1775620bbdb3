-- ===== src/Base58/Text.antt =====
-- src/common/base58.cpp: encode and decode, block by block.
use lira.Prelude.{
  ℕ, zero, suc, ◌+◌, ◌-◌, ◌*◌, ◌/◌, ◌%◌, ◌≤◌, ◌<◌, ◌≡◌, refl, sym, ap, ◌∙◌, inl, inr, true, false,
  ltb, ◌==◌, lt-cases, Option, some, List, [], ◌∷◌, ◌++◌, length, length-append, length-take,
  length-drop, take, drop, take-append-drop, take_append, drop_append, All, arith,
}
use lira.Base58.{decode_block, encode_block, decoded_block_sizes, by_blocks, encode, decode}
use lira.Base58.Digits.{InBase, value}
use lira.Base58.Letters.{encoded_size, encoded_size_lem, short_size_lem, full_size, empty_size}
use lira.Base58.Block.{letters, encode_block_lem}
use lira.Base58.Inverse.{length-letters, decode-encoded}

pub All-take : (P : ℕ → Type 0) (n : ℕ) (xs : List ℕ) → All P xs → All P (take n xs)
All-take P zero xs all = tt
All-take P (suc n) [] all = tt
All-take P (suc n) (x ∷ xs) (p, all) = (p, All-take P n xs all)

All-drop : (P : ℕ → Type 0) (n : ℕ) (xs : List ℕ) → All P xs → All P (drop n xs)
All-drop P zero xs all = all
All-drop P (suc n) [] all = tt
All-drop P (suc n) (x ∷ xs) (p, all) = All-drop P n xs all

pub All-join : (P : ℕ → Type 0) (xs ys : List ℕ) → All P xs → All P ys → All P (xs ++ ys)
All-join P [] ys all all' = all'
All-join P (x ∷ xs) ys (p, all) all' = (p, All-join P xs ys all all')

-- One block of either direction.
pub blocks_run :
    (block : List ℕ → Option (List ℕ)) (size full : ℕ) (first second text rest : List ℕ)
    → length first ≡ size
    → block first ≡ some text
    → by_blocks block size full second ≡ some rest
    → by_blocks block size (suc full) (first ++ second) ≡ some (text ++ rest)
unfolding by_blocks
blocks_run block size full first second text rest len e1 e2 =
    rw (take_append size first second len, drop_append size first second len, e1, e2) refl

pub last_run :
    (block : List ℕ → Option (List ℕ)) (size : ℕ) (text : List ℕ)
    → 0 < length text
    → by_blocks block size 0 text ≡ block text
unfolding by_blocks
last_run block size text pos = let test : ltb 0 (length text) ≡ true = ground arith in rw test refl

pub empty_run : (block : List ℕ → Option (List ℕ)) (size : ℕ) → by_blocks block size 0 [] ≡ some []
unfolding by_blocks
empty_run block size = refl

-- The encoding of a text with `full` full blocks, and its decoding.
encoded_blocks :
    (full : ℕ) (text : List ℕ)
    → 8 * full ≤ length text
    → length text < 8 * full + 8
    → All (InBase 256) text
    → (enc : List ℕ) × (by_blocks encode_block 8 full text ≡ some enc)
      × (length enc ≡ 11 * full + encoded_size (length text - 8 * full))
      × (by_blocks decode_block 11 full enc ≡ some text)
encoded_blocks zero [] low high all =
    ([], empty_run encode_block 8, omega (arith, empty_size), empty_run decode_block 11)
encoded_blocks zero (x ∷ xs) low high all =
    let text = x ∷ xs in
    let enc = letters (encoded_size (length text)) (value 256 0 text) in
    let (size, back, room, most, some_size) =
      encoded_size_lem (length text) (omega arith) (omega arith) in
    let width = length-letters (encoded_size (length text)) (value 256 0 text) in
    (
      enc,
      last_run encode_block 8 text (omega arith)
          ∙ encode_block_lem text (omega arith) (omega arith) all,
      width
          ∙ ap encoded_size {x = length text} {y = length text - 8 * 0} (omega arith)
          ∙ omega arith,
      last_run decode_block 11 enc (omega (arith, width, some_size))
          ∙ decode-encoded text (omega arith) (omega arith) all,
    )
encoded_blocks (suc full) text low high all =
    let first = take 8 text in
    let behind = drop 8 text in
    let n8 : length first ≡ 8 = omega (arith, length-take 8 text) in
    let n : length behind ≡ length text - 8 = length-drop 8 text in
    let all8 = All-take (InBase 256) 8 text all in
    let (enc, run, len, back) =
      encoded_blocks full behind (omega (arith, n)) (omega (arith, n))
        (All-drop (InBase 256) 8 text all) in
    let letters8 = letters (encoded_size (length first)) (value 256 0 first) in
    let width : length letters8 ≡ 11 =
      length-letters (encoded_size (length first)) (value 256 0 first)
      ∙ ap encoded_size n8
      ∙ full_size in
    (
      letters8 ++ enc,
      ap (by_blocks encode_block 8 (suc full)) (sym (take-append-drop 8 text))
          ∙ blocks_run encode_block 8 full first behind letters8 enc n8
              (encode_block_lem first (omega (arith, n8)) (omega (arith, n8)) all8) run,
      omega (
        arith,
        length-append letters8 enc,
        width,
        len,
        ap encoded_size {x = length behind - 8 * full} {y = length text - 8 * suc full}
            (omega (arith, n)),
      ),
      blocks_run decode_block 11 full letters8 enc first behind width
            (decode-encoded first (omega (arith, n8)) (omega (arith, n8)) all8) back
          ∙ ap some (take-append-drop 8 text),
    )

pub encode_run :
    (text enc : List ℕ)
    → 0 < length text
    → by_blocks encode_block 8 (length text / 8) text ≡ some enc
    → encode text ≡ some enc
unfolding encode
encode_run text enc pos run =
    let test : (length text == 0) ≡ false = ground arith in rw (test, run) refl

decode_run :
    (enc text : List ℕ) (size : ℕ)
    → 0 < length enc
    → decoded_block_sizes (length enc % 11) ≡ some size
    → by_blocks decode_block 11 (length enc / 11) enc ≡ some text
    → decode enc ≡ some text
unfolding decode
decode_run enc text size pos sized run =
    let test : (length enc == 0) ≡ false = ground arith in rw (test, sized, run) refl

some_letters : (full r : ℕ) → 0 < 8 * full + r → r < 8 → 0 < 11 * full + encoded_size r
some_letters full r some_text small = elim (lt-cases 0 r) [
  | inl pos ↦
      let (size, back, room, most, some_size) = encoded_size_lem r pos (omega arith) in
      omega (arith, some_size)
  | inr nothing ↦ omega (arith, nothing)
]

-- `encode` of any bytes ends without a failed assertion, and `decode` gives the bytes back.
pub decode-encode :
    (text : List ℕ)
    → All (InBase 256) text
    → (enc : List ℕ) × (encode text ≡ some enc) × (decode enc ≡ some text)
unfolding encode decode
decode-encode [] all = ([], refl, refl)
decode-encode (x ∷ xs) all =
    let text = x ∷ xs in
    let full = length text / 8 in
    let (enc, run, len, back) = encoded_blocks full text (omega arith) (omega arith) all in
    let (short, sized) = short_size_lem (length text - 8 * full) (omega arith) in
    let rest : length enc % 11 ≡ encoded_size (length text - 8 * full) =
      omega (arith, len, short) in
    let same_full : length enc / 11 ≡ full = omega (arith, len, short) in
    let pos : 0 < length enc =
      omega (arith, len, some_letters full (length text - 8 * full) (omega arith) (omega arith)) in
    (
      enc,
      encode_run text enc (omega arith) run,
      decode_run enc text (length text - 8 * full) pos (ap decoded_block_sizes rest ∙ sized)
          (ap (λ (t : ℕ). by_blocks decode_block 11 t enc) same_full ∙ back),
    )
