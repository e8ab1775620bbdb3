-- ===== src/Runs/Ciphers.antt =====
-- src/crypto/chacha8.c on fixed inputs.
use lira.Prelude.{ℕ, zero, suc, length, ◌≡◌, refl, some, List, [], ◌∷◌, replicate, All, arith}
use lira.Prelude.Xor.{IsByte}
use lira.IntUtil.{rol32}
use lira.Chacha8.Blocks.{key_stream}
use lira.Chacha8.Bytes.{zip_xor}
use lira.Chacha8.Stream.{chacha8_lem, chacha8-chacha8}
use lira.Chacha8.{
  Words, head_word, word_at, store, plus, quarter_round, double_round, rounds, plus_words, core,
  xor_data, setup, next_counter, chacha8_loop, chacha8,
}

nines : All IsByte (replicate 64 9)
nines = nines_of 64
  where
    nines_of : (n : ℕ) → All IsByte (replicate n 9)
    nines_of zero = tt
    nines_of (suc n) = (omega arith, nines_of n)

-- The first bytes of the stream of a zero key and a zero iv.
zero_stream :
    chacha8 (replicate 64 9) (replicate 4 0) (replicate 32 0) (replicate 8 0)
    ≡ some (62 ∷ 0 ∷ 239 ∷ 47 ∷ [])
unfolding chacha8 chacha8_loop setup word_at head_word store plus quarter_round double_round rounds
    plus_words core xor_data next_counter rol32
zero_stream = refl

chacha8_lem_example :
    (j : Words) × (setup (replicate 32 0) (replicate 8 0) ≡ some j)
    × (chacha8 (replicate 64 9) (5 ∷ 6 ∷ []) (replicate 32 0) (replicate 8 0)
        ≡ some (zip_xor (key_stream j 1 0) (5 ∷ 6 ∷ [])))
chacha8_lem_example =
    chacha8_lem (replicate 64 9) (5 ∷ 6 ∷ []) (replicate 32 0) (replicate 8 0) refl nines
      (omega arith, (omega arith, tt)) refl refl

chacha8-chacha8_example :
    (cipher : List ℕ) × (chacha8 (replicate 64 9) (5 ∷ 6 ∷ []) (replicate 32 0) (replicate 8 0)
      ≡ some cipher)
    × (length cipher ≡ 2)
    × (chacha8 (replicate 64 9) cipher (replicate 32 0) (replicate 8 0) ≡ some (5 ∷ 6 ∷ []))
chacha8-chacha8_example =
    chacha8-chacha8 (replicate 64 9) (replicate 64 9) (5 ∷ 6 ∷ []) (replicate 32 0) (replicate 8 0)
      refl refl nines nines (omega arith, (omega arith, tt)) refl refl
