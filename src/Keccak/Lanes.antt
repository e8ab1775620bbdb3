-- ===== src/Keccak/Lanes.antt =====
-- src/crypto/keccak.c: what a block does to the state, lane by lane, apart from the code.
use lira.Prelude.{
  ℕ, zero, suc, ◌+◌, ◌*◌, ◌/◌, ◌≤◌, ◌≡◌, refl, sym, ap, ◌∙◌, arith, bit_xor, some, List, [], ◌∷◌,
  ◌++◌, length, take, drop, drop-plus, append_assoc, length-append, length-drop,
}
use lira.Keccak.{for_loop, load, xor_into, absorb_word, absorb_block, keccakf}
use lira.Keccak.Padding.{get_elem?-middle, write-middle}

-- Bytes as a number, lowest first.
unfoldable pub value : List ℕ → ℕ
value [] = 0
value (b ∷ bytes) = b + 256 * value bytes

-- The first `n` words of eight bytes.
unfoldable pub words : ℕ → List ℕ → List ℕ
words zero bytes = []
words (suc n) bytes = value (take 8 bytes) ∷ words n (drop 8 bytes)

-- Words into the first lanes of the state; the other lanes stay.
unfoldable pub xor_words : List ℕ → List ℕ → List ℕ
xor_words [] st = st
xor_words (w ∷ ws) [] = []
xor_words (w ∷ ws) (x ∷ st) = bit_xor x w ∷ xor_words ws st

load-value :
    (count : ℕ) (bytes : List ℕ)
    → count ≤ length bytes
    → load count bytes ≡ some (value (take count bytes))
unfolding load value
load-value zero bytes h = refl
load-value (suc count) [] h = absurd (omega arith)
load-value (suc count) (b ∷ bytes) h = rw (load-value count bytes (omega arith)) refl

one_word :
    (bytes before after : List ℕ) (x i : ℕ)
    → length before ≡ i
    → 8 ≤ length (drop (8 * i) bytes)
    → absorb_word bytes i (before ++ (x ∷ after))
      ≡ some (before ++ (bit_xor x (value (take 8 (drop (8 * i) bytes))) ∷ after))
unfolding absorb_word xor_into
one_word bytes before after x i len long =
    rw (load-value 8 (drop (8 * i) bytes) long, sym len, get_elem?-middle before after x)
      (write-middle before after x (bit_xor x (value (take 8 (drop (8 * length before) bytes)))))

words_into :
    (count i : ℕ) (bytes before after : List ℕ)
    → length before ≡ i
    → 8 * (i + count) ≤ length bytes
    → count ≤ length after
    → for_loop count 1 (absorb_word bytes) i (before ++ after)
      ≡ some (before ++ xor_words (words count (drop (8 * i) bytes)) after)
unfolding for_loop words xor_words
words_into zero i bytes before after len long room = refl
words_into (suc count) i bytes before [] len long room = absurd (omega arith)
words_into (suc count) i bytes before (x ∷ after) len long room =
    let v = bit_xor x (value (take 8 (drop (8 * i) bytes))) in
    let first =
      one_word bytes before after x i len (omega (arith, length-drop (8 * i) bytes, long)) in
    let more =
      words_into count (i + 1) bytes (before ++ (v ∷ [])) after
        (omega (arith, length-append before (v ∷ []), len)) (omega arith) (omega arith) in
    let next : drop (8 * (i + 1)) bytes ≡ drop 8 (drop (8 * i) bytes) =
      ap (λ (k : ℕ). drop k bytes) (omega arith) ∙ drop-plus (8 * i) 8 bytes in
    let rest = words count (drop (8 * (i + 1)) bytes) in
    rw first (
      ap (for_loop count 1 (absorb_word bytes) (i + 1)) (sym (append_assoc before (v ∷ []) after))
      ∙ more
      ∙ ap some (append_assoc before (v ∷ []) (xor_words rest after))
      ∙ ap (λ (t : List ℕ). some (before ++ (v ∷ xor_words (words count t) after))) next)

-- The code's loop over the words of a block, and the permutation.
pub absorb_block-words :
    (n rsiz : ℕ) (bc bytes st : List ℕ)
    → rsiz ≡ 8 * n
    → rsiz ≤ 200
    → rsiz ≤ length bytes
    → length st ≡ 25
    → absorb_block bc rsiz bytes st ≡ keccakf bc (xor_words (words n bytes) st) 24
unfolding absorb_block
absorb_block-words n rsiz bc bytes st same small long len =
    let count : rsiz / 8 ≡ n = omega arith in
    rw (count, words_into n 0 bytes [] st refl (omega arith) (omega arith)) refl
