-- ===== src/Chacha8/Stream.antt =====
-- src/crypto/chacha8.c: the cipher is an exclusive or with the stream of its blocks.
use lira.Prelude.{
  ℕ, zero, suc, ◌+◌, ◌*◌, ◌/◌, ◌^◌, ◌≤◌, ◌≡◌, refl, sym, ap, ◌∙◌, arith, some, some-injective,
  subst, false, List, [], ◌∷◌, length, drop, All, ◌==◌, length-append, length-drop,
}
use lira.Prelude.Xor.{IsByte}
use lira.Chacha8.{
  Words, words, sigma, head_word, word_at, store, core, setup, chacha8_loop, chacha8,
}
use lira.Chacha8.Blocks.{at_block, key_stream, All-append_IsByte, length-block, chacha8_loop_lem}
use lira.Chacha8.Bytes.{
  zip_xor, store-IsByte, zip_xor_nothing, length-zip_xor, zip_xor-IsByte, zip_xor_twice,
}

-- A key of 32 bytes and an initial vector of 8 are read inside their bounds.
head_word_lem : (bytes : List ℕ) → 4 ≤ length bytes → (w : ℕ) × (head_word bytes ≡ some w)
unfolding head_word
head_word_lem [] long = absurd (omega arith)
head_word_lem (b0 ∷ []) long = absurd (omega arith)
head_word_lem (b0 ∷ b1 ∷ []) long = absurd (omega arith)
head_word_lem (b0 ∷ b1 ∷ b2 ∷ []) long = absurd (omega arith)
head_word_lem (b0 ∷ b1 ∷ b2 ∷ b3 ∷ rest) long = (b0 + b1 * 2 ^ 8 + b2 * 2 ^ 16 + b3 * 2 ^ 24, refl)

word_at_lem : (p : List ℕ) (i : ℕ) → i + 4 ≤ length p → (w : ℕ) × (word_at p i ≡ some w)
unfolding word_at
word_at_lem p i fits = head_word_lem (drop i p) (omega (arith, length-drop i p))

setup_lem :
    (key iv : List ℕ)
    → length key ≡ 32
    → length iv ≡ 8
    → (j : Words) × (setup key iv ≡ some j) × (at_block j 0 ≡ j)
unfolding setup at_block
setup_lem key iv full_key full_iv =
    let (s0, e0) = word_at_lem sigma 0 (omega arith) in
    let (s1, e1) = word_at_lem sigma 4 (omega arith) in
    let (s2, e2) = word_at_lem sigma 8 (omega arith) in
    let (s3, e3) = word_at_lem sigma 12 (omega arith) in
    let (k0, f0) = word_at_lem key 0 (omega arith) in
    let (k1, f1) = word_at_lem key 4 (omega arith) in
    let (k2, f2) = word_at_lem key 8 (omega arith) in
    let (k3, f3) = word_at_lem key 12 (omega arith) in
    let (k4, f4) = word_at_lem key 16 (omega arith) in
    let (k5, f5) = word_at_lem key 20 (omega arith) in
    let (k6, f6) = word_at_lem key 24 (omega arith) in
    let (k7, f7) = word_at_lem key 28 (omega arith) in
    let (v0, g0) = word_at_lem iv 0 (omega arith) in
    let (v1, g1) = word_at_lem iv 4 (omega arith) in
    (
      words s0 s1 s2 s3 k0 k1 k2 k3 k4 k5 k6 k7 0 0 v0 v1,
      rw (e0, e1, e2, e3, f0, f1, f2, f3, f4, f5, f6, f7, g0, g1) refl,
      refl,
    )

-- The cipher reads and writes inside its buffers, ends, and is the exclusive or of the text with
-- the blocks of the key and the initial vector, numbered from 0, whatever `tmp` held.
pub chacha8_lem :
    (tmp bytes key iv : List ℕ)
    → length tmp ≡ 64
    → All IsByte tmp
    → All IsByte bytes
    → length key ≡ 32
    → length iv ≡ 8
    → (j : Words) × (setup key iv ≡ some j)
      × (chacha8 tmp bytes key iv ≡ some (zip_xor (key_stream j (suc (length bytes / 64)) 0) bytes))
unfolding chacha8
chacha8_lem tmp [] key iv full ht hb full_key full_iv =
    let (j, run, start) = setup_lem key iv full_key full_iv in
    (j, run, ap some (sym (zip_xor_nothing (key_stream j 1 0))))
chacha8_lem tmp (b ∷ bs) key iv full ht hb full_key full_iv =
    let (j, run, start) = setup_lem key iv full_key full_iv in
    let blocks = suc (length bs) / 64 in
    let loop = chacha8_loop_lem blocks 0 tmp (b ∷ bs) j full ht hb (omega arith) in
    let stream = zip_xor (key_stream j (suc blocks) 0) (b ∷ bs) in
    let from_start : chacha8_loop (suc blocks) tmp (b ∷ bs) j ≡ some stream =
      subst (λ (s : Words). chacha8_loop (suc blocks) tmp (b ∷ bs) s ≡ some stream) start loop in
    let nonempty : (suc (length bs) == 0) ≡ false = ground arith in
    (j, run, rw (nonempty, run) from_start)

length-key_stream : (j : Words) (n k : ℕ) → length (key_stream j n k) ≡ n * 64
unfolding key_stream
length-key_stream j zero k = refl
length-key_stream j (suc n) k =
    length-append (store (core (at_block j k))) _
    ∙ omega (arith, length-block (at_block j k), length-key_stream j n (suc k))

key_stream-IsByte : (j : Words) (n k : ℕ) → All IsByte (key_stream j n k)
unfolding key_stream
key_stream-IsByte j zero k = tt
key_stream-IsByte j (suc n) k =
    All-append_IsByte _ _ (store-IsByte (core (at_block j k))) (key_stream-IsByte j n (suc k))

-- Text of the same length under the same stream.
same_stream :
    (j k : Words) (cipher bytes : List ℕ)
    → k ≡ j
    → length cipher ≡ length bytes
    → zip_xor (key_stream j (suc (length bytes / 64)) 0) cipher ≡ bytes
    → zip_xor (key_stream k (suc (length cipher / 64)) 0) cipher ≡ bytes
same_stream j k cipher bytes same len h = rw (same, len) h

-- A text that is encrypted, and encrypted again with the same key and initial vector, is the text
-- it was, whatever the array `tmp` held in each of the two calls.
pub chacha8-chacha8 :
    (tmp other bytes key iv : List ℕ)
    → length tmp ≡ 64
    → length other ≡ 64
    → All IsByte tmp
    → All IsByte other
    → All IsByte bytes
    → length key ≡ 32
    → length iv ≡ 8
    → (cipher : List ℕ) × (chacha8 tmp bytes key iv ≡ some cipher)
      × (length cipher ≡ length bytes)
      × (chacha8 other cipher key iv ≡ some bytes)
chacha8-chacha8 tmp other bytes key iv full full_other ht ho hb full_key full_iv =
    let (j, run, first) = chacha8_lem tmp bytes key iv full ht hb full_key full_iv in
    let stream = key_stream j (suc (length bytes / 64)) 0 in
    let fits : length bytes ≤ length stream =
      omega (arith, length-key_stream j (suc (length bytes / 64)) 0) in
    let same_length = length-zip_xor stream bytes fits in
    let bytes_out = zip_xor-IsByte stream bytes (key_stream-IsByte j _ 0) hb in
    let (j', run', second) =
      chacha8_lem other (zip_xor stream bytes) key iv full_other ho bytes_out full_key full_iv in
    (
      zip_xor stream bytes,
      first,
      same_length,
      second
          ∙ ap some (
              same_stream j j' (zip_xor stream bytes) bytes (some-injective _ _ (sym run' ∙ run))
                same_length (zip_xor_twice stream bytes fits)),
    )
