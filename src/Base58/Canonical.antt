-- ===== src/Base58/Canonical.antt =====
-- src/common/base58.cpp: decode accepts nothing but what encode makes.
use lira.Prelude.{
  ℕ, zero, suc, ◌+◌, ◌-◌, ◌*◌, ◌/◌, ◌%◌, ◌≤◌, ◌<◌, ◌≡◌, refl, sym, ap, subst, ◌∙◌, inl, inr, false,
  ◌==◌, lt-cases, Option, some, some-injective, bind_inv, List, [], ◌∷◌, ◌++◌, length,
  length-append, length-take, length-drop, take, drop, take-append-drop, All, arith,
}
use lira.Base58.{decode_block, encode_block, decoded_block_sizes, by_blocks, encode, decode}
use lira.Base58.Digits.{InBase, value}
use lira.Base58.Letters.{encoded_size, short_size_lem, full_size}
use lira.Base58.Block.{encode_block_lem}
use lira.Base58.Inverse.{length-letters, decode_block-inverse}
use lira.Base58.Text.{All-join, blocks_run, last_run, empty_run, encode_run}

blocks_inv :
    (block : List ℕ → Option (List ℕ)) (size full : ℕ) (text out : List ℕ)
    → by_blocks block size (suc full) text ≡ some out
    → (first : List ℕ) × (rest : List ℕ) × (block (take size text) ≡ some first)
      × (by_blocks block size full (drop size text) ≡ some rest)
      × (first ++ rest ≡ out)
unfolding by_blocks
blocks_inv block size full text out done =
    let (first, e1, k1) = bind_inv _ _ done in
    let (rest, e2, k2) = bind_inv _ _ k1 in (first, rest, e1, e2, some-injective _ _ k2)

-- What is accepted is the encoding of what it gives.
accepted_blocks :
    (full : ℕ) (enc text : List ℕ)
    → 11 * full ≤ length enc
    → length enc < 11 * full + 11
    → by_blocks decode_block 11 full enc ≡ some text
    → (by_blocks encode_block 8 full text ≡ some enc)
      × (8 * full ≤ length text)
      × (length text < 8 * full + 8)
      × All (InBase 256) text
accepted_blocks zero [] text low high done =
    let nothing : [] ≡ text = some-injective _ _ (sym (empty_run decode_block 11) ∙ done) in
    subst
      (λ (t : List ℕ).
        (by_blocks encode_block 8 0 t ≡ some [])
        × (8 * 0 ≤ length t)
        × (length t < 8 * 0 + 8)
        × All (InBase 256) t)
      nothing (empty_run encode_block 8, omega arith, omega arith, tt)
accepted_blocks zero (c ∷ cs) text low high done =
    let enc = c ∷ cs in
    let (pos, most, all, same) =
      decode_block-inverse enc text (sym (last_run decode_block 11 enc (omega arith)) ∙ done) in
    let width : length enc ≡ encoded_size (length text) =
      ap length same ∙ length-letters (encoded_size (length text)) (value 256 0 text) in
    (
      last_run encode_block 8 text pos ∙ encode_block_lem text pos most all ∙ ap some (sym same),
      omega arith,
      omega (arith, not_full (length text) (length enc) most (omega arith) width),
      all,
    )
  where
    not_full : (n m : ℕ) → n ≤ 8 → m < 11 → m ≡ encoded_size n → n < 8
    not_full n m most small width = elim (lt-cases n 8) [
      | inl less ↦ less
      | inr full ↦ absurd (
          omega (
            arith,
            width,
            small,
            full_size,
            ap encoded_size {x = n} {y = 8} (omega (arith, most, full)),
          ))
    ]
accepted_blocks (suc full) enc text low high done =
    let (first, rest, e1, e2, joined) = blocks_inv decode_block 11 full enc text done in
    let (pos, most, all, same) = decode_block-inverse (take 11 enc) first e1 in
    let n11 : length (take 11 enc) ≡ 11 = omega (arith, length-take 11 enc) in
    let n : length (drop 11 enc) ≡ length enc - 11 = length-drop 11 enc in
    let (run, low', high', all') =
      accepted_blocks full (drop 11 enc) rest (omega (arith, n)) (omega (arith, n)) e2 in
    let width : 11 ≡ encoded_size (length first) =
      sym n11 ∙ ap length same ∙ length-letters (encoded_size (length first)) (value 256 0 first) in
    let n8 : length first ≡ 8 = full_block (length first) pos most width in
    let len : length text ≡ 8 + length rest =
      sym (ap length joined) ∙ length-append first rest ∙ ap (λ (t : ℕ). t + length rest) n8 in
    (
      ap (by_blocks encode_block 8 (suc full)) (sym joined)
          ∙ blocks_run encode_block 8 full first rest (take 11 enc) (drop 11 enc) n8
              (encode_block_lem first pos most all ∙ ap some (sym same)) run
          ∙ ap some (take-append-drop 11 enc),
      omega (arith, len, low'),
      omega (arith, len, high'),
      subst (All (InBase 256)) joined (All-join (InBase 256) first rest all all'),
    )
  where
    full_block : (n : ℕ) → 0 < n → n ≤ 8 → 11 ≡ encoded_size n → n ≡ 8
    full_block n pos most width = elim (lt-cases n 8) [
      | inl less ↦
          let (short, sized) = short_size_lem n less in absurd (omega (arith, short, width))
      | inr full ↦ omega (arith, full, most)
    ]

decode_inv :
    (enc text : List ℕ)
    → 0 < length enc
    → decode enc ≡ some text
    → by_blocks decode_block 11 (length enc / 11) enc ≡ some text
unfolding decode
decode_inv enc text pos done =
    let test : (length enc == 0) ≡ false = ground arith in
    let (size, sized, run) =
      bind_inv (decoded_block_sizes (length enc % 11))
        (λ (t : ℕ). by_blocks decode_block 11 (length enc / 11) enc) (rw test at done) in
    run

-- A string that `decode` accepts is what `encode` makes of the bytes that it gives, so no two
-- strings stand for the same bytes.
pub encode-decode :
    (enc text : List ℕ) → decode enc ≡ some text → (encode text ≡ some enc) × All (InBase 256) text
unfolding decode encode
encode-decode [] text done =
    let nothing : [] ≡ text = some-injective _ _ done in
    subst (λ (t : List ℕ). (encode t ≡ some []) × All (InBase 256) t) nothing (refl, tt)
encode-decode (c ∷ cs) text done =
    let enc = c ∷ cs in
    let full = length enc / 11 in
    let (run, low, high, all) =
      accepted_blocks full enc text (omega arith) (omega arith)
        (decode_inv enc text (omega arith) done) in
    let same_full : length text / 8 ≡ full = omega (arith, low, high) in
    (
      encode_run text enc (some_bytes full text c cs low run)
          (ap (λ (t : ℕ). by_blocks encode_block 8 t text) same_full ∙ run),
      all,
    )
  where
    some_bytes :
        (full : ℕ) (text : List ℕ) (c : ℕ) (cs : List ℕ)
        → 8 * full ≤ length text
        → by_blocks encode_block 8 full text ≡ some (c ∷ cs)
        → 0 < length text
    some_bytes full (x ∷ xs) c cs low run = omega arith
    some_bytes zero [] c cs low run =
        absurd
          (omega (arith, ap length (some-injective _ _ (sym (empty_run encode_block 8) ∙ run))))
    some_bytes (suc full) [] c cs low run = absurd (omega arith)
