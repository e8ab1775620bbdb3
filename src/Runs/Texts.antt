-- ===== src/Runs/Texts.antt =====
-- src/common/base58.cpp on short strings.
use lira.Prelude.{ℕ, ◌≡◌, refl, some, none, List, [], ◌∷◌, replicate, All, arith}
use lira.IntUtil.{combine, mul128}
use lira.Base58.{
  fill_table, look_up, reverse_alphabet, decoded_block_sizes, be_loop, uint_8be_to_64,
  uint_64_to_8be, encode_loop, encode_block, decode_loop, decode_block, by_blocks, encode, decode,
  encode_addr, decode_addr,
}
use lira.Base58.Digits.{InBase}
use lira.Base58.Text.{decode-encode}
use lira.Base58.Canonical.{encode-decode}
use lira.Base58.Address.{decode_addr-encode_addr}

encode_two : encode (255 ∷ 0 ∷ []) ≡ some (76 ∷ 81 ∷ 88 ∷ [])
unfolding encode by_blocks encode_block uint_8be_to_64 be_loop encode_loop
encode_two = refl

-- "LQX" stands for those two bytes, and "zzz" for a number that two bytes do not hold.
decode_two : decode (76 ∷ 81 ∷ 88 ∷ []) ≡ some (255 ∷ 0 ∷ [])
unfolding decode by_blocks decode_block decoded_block_sizes look_up fill_table decode_loop
    reverse_alphabet mul128 combine uint_64_to_8be
decode_two = refl

decode_over : decode (122 ∷ 122 ∷ 122 ∷ []) ≡ none
unfolding decode by_blocks decode_block decoded_block_sizes look_up fill_table decode_loop
    reverse_alphabet mul128 combine uint_64_to_8be
decode_over = refl

decode-encode_example :
    (enc : List ℕ) × (encode (255 ∷ 0 ∷ []) ≡ some enc) × (decode enc ≡ some (255 ∷ 0 ∷ []))
decode-encode_example = decode-encode (255 ∷ 0 ∷ []) (omega arith, (omega arith, tt))

encode-decode_example :
    (encode (255 ∷ 0 ∷ []) ≡ some (76 ∷ 81 ∷ 88 ∷ [])) × All (InBase 256) (255 ∷ 0 ∷ [])
encode-decode_example = encode-decode (76 ∷ 81 ∷ 88 ∷ []) (255 ∷ 0 ∷ []) decode_two

-- A hash for the example: the length in every byte.
abbrev sample_hash : List ℕ → List ℕ
sample_hash text = replicate 32 7

sample_bytes : (text : List ℕ) → All (InBase 256) (sample_hash text)
sample_bytes text = omega arith

decode_addr-encode_addr_example :
    (addr : List ℕ) × (encode_addr sample_hash 18 (1 ∷ 2 ∷ 3 ∷ []) ≡ some addr)
    × (decode_addr sample_hash addr ≡ some (18, (1 ∷ 2 ∷ 3 ∷ [])))
decode_addr-encode_addr_example =
    decode_addr-encode_addr sample_hash (λ s. refl) sample_bytes 18 (1 ∷ 2 ∷ 3 ∷ []) (omega arith)
      (omega arith, (omega arith, (omega arith, tt)))
