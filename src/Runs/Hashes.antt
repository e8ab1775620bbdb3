-- ===== src/Runs/Hashes.antt =====
-- src/crypto/keccak.c on fixed inputs.
use lira.Prelude.{length, ℕ, ◌≡◌, refl, ◌>>=◌, some, List, [], ◌∷◌, replicate, take, arith}
use lira.Keccak.Padding.{pad_bytes}
use lira.Keccak.Sponge.{sponge, keccak_lem}
use lira.Keccak.{
  rotl64, keccak, rate, absorb_loop, last_block, absorb_block, absorb_word, load, keccakf,
  keccak_round, chi_row, copy_cell, chi_cell, rho_pi, theta_column, theta_parity, xor_into, write,
  for_loop, word_bytes, state_bytes,
}

-- The Keccak hash of 32 bytes of nothing begins c5 d2 46 01 86 f7 23 3c.
empty_hash :
    (keccak (replicate 144 9) (replicate 5 9) [] 32 >>= λ md. some (take 8 md))
    ≡ some (0xc5 ∷ 0xd2 ∷ 0x46 ∷ 0x01 ∷ 0x86 ∷ 0xf7 ∷ 0x23 ∷ 0x3c ∷ [])
unfolding keccak rate absorb_loop last_block absorb_block absorb_word load keccakf keccak_round
    chi_row copy_cell chi_cell rho_pi theta_column theta_parity xor_into write for_loop word_bytes
    state_bytes rotl64
empty_hash = refl

keccak_lem_example :
    (st : List ℕ) × (sponge 1 17 (5 ∷ 6 ∷ pad_bytes 136 2) (replicate 25 0) ≡ some st)
    × (keccak (replicate 144 9) (replicate 5 9) (5 ∷ 6 ∷ []) 32 ≡ some (take 32 (state_bytes st)))
    × (length (take 32 (state_bytes st)) ≡ 32)
unfolding rate
keccak_lem_example =
    keccak_lem (replicate 144 9) (replicate 5 9) (5 ∷ 6 ∷ []) 32 17 refl refl refl (omega arith)
      (omega arith)
