-- ===== src/Chacha8/Bytes.antt =====
-- src/crypto/chacha8.c: words and bytes under exclusive or.
use lira.Prelude.{
  ℕ, suc, ◌+◌, ◌*◌, ◌/◌, ◌%◌, ◌^◌, ◌≤◌, ◌≡◌, refl, ap, ◌∙◌, arith, bit_xor, some, List, [], ◌∷◌,
  ◌++◌, length, take, drop, All,
}
use lira.Prelude.Xor.{bit_xor-mod, bit_xor-div, bit_xor-InWidth, bit_xor_twice, IsByte}
use lira.Chacha8.{Words, words, head_word, store, xor_data, core, plus_words, rounds}

-- Exclusive or byte by byte, up to the end of the shorter list.
unfoldable pub zip_xor : List ℕ → List ℕ → List ℕ
zip_xor [] bytes = []
zip_xor (k ∷ ks) [] = []
zip_xor (k ∷ ks) (b ∷ bs) = bit_xor k b ∷ zip_xor ks bs

-- Byte `i` of an exclusive or of words.
byte_xor :
    (i x w : ℕ) → bit_xor x w / 2 ^ i % 2 ^ 8 ≡ bit_xor (x / 2 ^ i % 2 ^ 8) (w / 2 ^ i % 2 ^ 8)
byte_xor i x w = ap (λ (t : ℕ). t % 2 ^ 8) (bit_xor-div i x w) ∙ bit_xor-mod 8 _ _

pub xor_data_lem :
    (xs bytes : List ℕ)
    → length xs * 4 ≤ length bytes
    → All IsByte bytes
    → (ws : List ℕ) × (xor_data xs bytes ≡ some ws) × (store ws ≡ zip_xor (store xs) bytes)
unfolding xor_data store zip_xor head_word
xor_data_lem [] bytes fits small = ([], refl, refl)
xor_data_lem (x ∷ xs) [] fits small = absurd (omega arith)
xor_data_lem (x ∷ xs) (b0 ∷ []) fits small = absurd (omega arith)
xor_data_lem (x ∷ xs) (b0 ∷ b1 ∷ []) fits small = absurd (omega arith)
xor_data_lem (x ∷ xs) (b0 ∷ b1 ∷ b2 ∷ []) fits small = absurd (omega arith)
xor_data_lem (x ∷ xs) (b0 ∷ b1 ∷ b2 ∷ b3 ∷ bytes) fits (h0, (h1, (h2, (h3, small)))) =
    let (ws, run, same) = xor_data_lem xs bytes (omega arith) small in
    let w = b0 + b1 * 2 ^ 8 + b2 * 2 ^ 16 + b3 * 2 ^ 24 in
    let e0 : w % 2 ^ 8 ≡ b0 = omega arith in
    let e1 : w / 2 ^ 8 % 2 ^ 8 ≡ b1 = omega arith in
    let e2 : w / 2 ^ 16 % 2 ^ 8 ≡ b2 = omega arith in
    let e3 : w / 2 ^ 24 % 2 ^ 8 ≡ b3 = omega arith in
    (
      bit_xor x w ∷ ws,
      rw run refl,
      rw (same, bit_xor-mod 8 x w, byte_xor 8 x w, byte_xor 16 x w, byte_xor 24 x w, e0, e1, e2, e3)
          refl,
    )

length-plus_words : (x y : Words) → length (plus_words x y) ≡ 16
unfolding plus_words
length-plus_words (words x0 x1 x2 x3 x4 x5 x6 x7 x8 x9 x10 x11 x12 x13 x14 x15)
      (words j0 j1 j2 j3 j4 j5 j6 j7 j8 j9 j10 j11 j12 j13 j14 j15) =
    refl

pub length-core : (j : Words) → length (core j) ≡ 16
unfolding core
length-core j = length-plus_words (rounds 8 j) j

pub length-store : (xs : List ℕ) → length (store xs) ≡ length xs * 4
unfolding store
length-store [] = refl
length-store (x ∷ xs) = omega (arith, length-store xs)

pub store-IsByte : (xs : List ℕ) → All IsByte (store xs)
unfolding store
store-IsByte [] = tt
store-IsByte (x ∷ xs) = (omega arith, (omega arith, (omega arith, (omega arith, store-IsByte xs))))

-- A key stream in two parts.
pub zip_xor-append :
    (ks more bytes : List ℕ)
    → zip_xor (ks ++ more) bytes
      ≡ zip_xor ks (take (length ks) bytes) ++ zip_xor more (drop (length ks) bytes)
unfolding zip_xor
zip_xor-append [] more bytes = refl
zip_xor-append (k ∷ ks) [] [] = refl
zip_xor-append (k ∷ ks) (m ∷ more) [] = refl
zip_xor-append (k ∷ ks) more (b ∷ bs) = ap (λ t. bit_xor k b ∷ t) (zip_xor-append ks more bs)

-- A text within the stream.
pub length-zip_xor :
    (ks bytes : List ℕ) → length bytes ≤ length ks → length (zip_xor ks bytes) ≡ length bytes
unfolding zip_xor
length-zip_xor [] [] fits = refl
length-zip_xor [] (b ∷ bs) fits = absurd (omega arith)
length-zip_xor (k ∷ ks) [] fits = refl
length-zip_xor (k ∷ ks) (b ∷ bs) fits = ap suc (length-zip_xor ks bs (omega arith))

-- What follows in the stream or in the text does not count.
pub zip_xor_spare :
    (ks more bytes spare : List ℕ)
    → length bytes ≤ length ks
    → take (length bytes) (zip_xor ks (bytes ++ spare)) ≡ zip_xor (ks ++ more) bytes
unfolding zip_xor
zip_xor_spare [] [] [] spare fits = refl
zip_xor_spare [] (m ∷ more) [] spare fits = refl
zip_xor_spare (k ∷ ks) more [] spare fits = refl
zip_xor_spare [] more (b ∷ bs) spare fits = absurd (omega arith)
zip_xor_spare (k ∷ ks) more (b ∷ bs) spare fits =
    ap (λ t. bit_xor k b ∷ t) (zip_xor_spare ks more bs spare (omega arith))

pub zip_xor_twice :
    (ks bytes : List ℕ) → length bytes ≤ length ks → zip_xor ks (zip_xor ks bytes) ≡ bytes
unfolding zip_xor
zip_xor_twice [] [] fits = refl
zip_xor_twice [] (b ∷ bs) fits = absurd (omega arith)
zip_xor_twice (k ∷ ks) [] fits = refl
zip_xor_twice (k ∷ ks) (b ∷ bs) fits =
    rw (bit_xor_twice k b, zip_xor_twice ks bs (omega arith)) refl

pub zip_xor-IsByte :
    (ks bytes : List ℕ) → All IsByte ks → All IsByte bytes → All IsByte (zip_xor ks bytes)
unfolding zip_xor
zip_xor-IsByte [] bytes hk hb = tt
zip_xor-IsByte (k ∷ ks) [] hk hb = tt
zip_xor-IsByte (k ∷ ks) (b ∷ bs) (hk, more) (hb, rest) =
    (bit_xor-InWidth 8 k b hk hb, zip_xor-IsByte ks bs more rest)

-- A text beyond the stream is cut at its end.
pub zip_xor-take : (ks bytes : List ℕ) → zip_xor ks (take (length ks) bytes) ≡ zip_xor ks bytes
unfolding zip_xor
zip_xor-take [] bytes = refl
zip_xor-take (k ∷ ks) [] = refl
zip_xor-take (k ∷ ks) (b ∷ bs) = ap (λ t. bit_xor k b ∷ t) (zip_xor-take ks bs)

pub zip_xor_nothing : (ks : List ℕ) → zip_xor ks [] ≡ []
unfolding zip_xor
zip_xor_nothing [] = refl
zip_xor_nothing (k ∷ ks) = refl
