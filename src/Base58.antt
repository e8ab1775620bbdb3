-- ===== src/Base58.antt =====
-- src/common/base58.cpp: blocks of at most 8 bytes as blocks of at most 11 letters, and addresses,
-- which are a tag and bytes with a checksum. A string is the list of its bytes; `none` is the
-- result false, or a failed assertion. The hash of a string is the parameter `cn_fast_hash`.
pub mod Digits
pub mod Letters
pub mod Block
pub mod Decode
pub mod Inverse
pub mod Text
pub mod Canonical
pub mod Address
use lira.Prelude.{
  ℕ, zero, suc, ◌+◌, ◌-◌, ◌*◌, ◌/◌, ◌%◌, ◌^◌, bit_or, Bool, true, false, not, ◌&&◌, ◌||◌, ltb, leb,
  ◌==◌, if◌then◌else◌, Option, none, some, ◌>>=◌, ◌>>◌, assert, List, [], ◌∷◌, ◌++◌, length,
  get_elem?, set, take, drop, replicate,
}
use mathlib.Core.List.{reverse}
use lira.IntUtil.{mul128}
use lira.Varint.{Code, count, write_varint, read_varint}

-- "123456789ABCDEFGHJKLMNPQRSTUVWXYZabcdefghijkmnopqrstuvwxyz"
abbrev pub alphabet : List ℕ
alphabet =
    49 ∷ 50 ∷ 51 ∷ 52 ∷ 53 ∷ 54 ∷ 55 ∷ 56 ∷ 57 ∷ 65 ∷ 66 ∷ 67 ∷ 68 ∷ 69 ∷ 70 ∷ 71 ∷ 72 ∷ 74 ∷ 75
    ∷ 76 ∷ 77 ∷ 78 ∷ 80 ∷ 81 ∷ 82 ∷ 83 ∷ 84 ∷ 85 ∷ 86 ∷ 87 ∷ 88 ∷ 89 ∷ 90 ∷ 97 ∷ 98 ∷ 99 ∷ 100 ∷ 101
    ∷ 102 ∷ 103 ∷ 104 ∷ 105 ∷ 106 ∷ 107 ∷ 109 ∷ 110 ∷ 111 ∷ 112 ∷ 113 ∷ 114 ∷ 115 ∷ 116 ∷ 117 ∷ 118
    ∷ 119 ∷ 120 ∷ 121 ∷ 122 ∷ []

abbrev pub alphabet_size : ℕ
alphabet_size = 58

abbrev pub encoded_block_sizes : List ℕ
encoded_block_sizes = 0 ∷ 2 ∷ 3 ∷ 5 ∷ 6 ∷ 7 ∷ 9 ∷ 10 ∷ 11 ∷ []

abbrev pub full_block_size : ℕ
full_block_size = 8

abbrev pub full_encoded_block_size : ℕ
full_encoded_block_size = 11

abbrev pub addr_checksum_size : ℕ
addr_checksum_size = 4

-- The constructors of the two tables: entry `keys[i] - base` is `i`, from `i` on; -1 is `none`.
unfoldable pub fill_table : ℕ → List ℕ → ℕ → List (Option ℕ) → List (Option ℕ)
fill_table base [] i table = table
fill_table base (key ∷ keys) i table =
    fill_table base keys (suc i) (set table (key - base) (some i))

-- An entry of a table, -1 behind its end.
unfoldable pub look_up : List (Option ℕ) → ℕ → Option ℕ
look_up table i = get_elem? table i >>= λ entry. entry

-- A letter below '1' wraps to an index behind the end.
unfoldable pub reverse_alphabet : ℕ → Option ℕ
reverse_alphabet letter =
    let entry = look_up (fill_table 49 alphabet 0 (replicate (122 - 49 + 1) none)) (letter - 49) in
    if ltb letter 49 then none else entry

unfoldable pub decoded_block_sizes : ℕ → Option ℕ
decoded_block_sizes size =
    look_up (fill_table 0 encoded_block_sizes 0 (replicate (full_encoded_block_size + 1) none)) size

-- The switch of `uint_8be_to_64`: res <<= 8; res |= *data++, once for each byte.
unfoldable pub be_loop : ℕ → List ℕ → ℕ
be_loop res [] = res
be_loop res (byte ∷ bytes) = be_loop (bit_or (res * 2 ^ 8 % 2 ^ 64) byte) bytes

unfoldable pub uint_8be_to_64 : List ℕ → Option ℕ
uint_8be_to_64 bytes = do
  assert (leb 1 (length bytes) && leb (length bytes) 8)
  some (be_loop 0 bytes)

-- The lowest `size` bytes, highest first.
unfoldable pub uint_64_to_8be : ℕ → ℕ → List ℕ
uint_64_to_8be num zero = []
uint_64_to_8be num (suc size) = uint_64_to_8be (num / 2 ^ 8) size ++ ((num % 2 ^ 8) ∷ [])

-- while (0 < num) { ...; res[i] = alphabet[remainder]; --i; } with `left` for i + 1. `none` is a
-- write before the start of the result, or a lack of fuel.
unfoldable pub encode_loop : ℕ → ℕ → ℕ → List ℕ → Option (List ℕ)
encode_loop zero num left res = none
encode_loop (suc fuel) num zero res = if ltb 0 num then none else some res
encode_loop (suc fuel) num (suc i) res =
    let more = get_elem? alphabet (num % alphabet_size) >>= λ letter.
    encode_loop fuel (num / alphabet_size) i (set res i letter) in
    if ltb 0 num then more else some res

-- `res` is filled with alphabet[0] by `encode`. A 64-bit number has at most 11 digits.
unfoldable pub encode_block : List ℕ → Option (List ℕ)
encode_block block = do
  assert (leb 1 (length block) && leb (length block) full_block_size)
  num ← uint_8be_to_64 block
  size ← get_elem? encoded_block_sizes (length block)
  encode_loop 12 num size (replicate size 49)

-- for (size_t i = size - 1; i < size; --i), over the letters from the last one on.
unfoldable pub decode_loop : List ℕ → ℕ → ℕ → Option ℕ
decode_loop [] res_num order = some res_num
decode_loop (letter ∷ letters) res_num order = reverse_alphabet letter >>= λ digit.
    mul128 order digit >>= λ (product_lo, product_hi).
    let tmp = (res_num + product_lo) % 2 ^ 64 in
    let more = decode_loop letters tmp (order * alphabet_size % 2 ^ 64) in
    if ltb tmp res_num || not (product_hi == 0) then none else more

unfoldable pub decode_block : List ℕ → Option (List ℕ)
decode_block block = do
  assert (leb 1 (length block) && leb (length block) full_encoded_block_size)
  res_size ← decoded_block_sizes (length block)
  assert (ltb 0 res_size)
  res_num ← decode_loop (reverse block) 0 1
  assert (not (ltb res_size full_block_size && leb (2 ^ (8 * res_size)) res_num))
  some (uint_64_to_8be res_num res_size)

-- The loop over the full blocks, then the last one if there is one.
unfoldable pub by_blocks : (List ℕ → Option (List ℕ)) → ℕ → ℕ → List ℕ → Option (List ℕ)
by_blocks block size zero text = if ltb 0 (length text) then block text else some []
by_blocks block size (suc full) text = do
  first ← block (take size text)
  rest ← by_blocks block size full (drop size text)
  some (first ++ rest)

unfoldable pub encode : List ℕ → Option (List ℕ)
encode text =
    let blocks = by_blocks encode_block full_block_size (length text / full_block_size) text in
    if length text == 0 then some [] else blocks

unfoldable pub decode : List ℕ → Option (List ℕ)
decode enc =
    let blocks = decoded_block_sizes (length enc % full_encoded_block_size) >>= λ size.
    by_blocks decode_block full_encoded_block_size (length enc / full_encoded_block_size) enc in
    if length enc == 0 then some [] else blocks

-- std::string::operator==
unfoldable pub same_text : List ℕ → List ℕ → Bool
same_text [] [] = true
same_text [] (y ∷ ys) = false
same_text (x ∷ xs) [] = false
same_text (x ∷ xs) (y ∷ ys) = x == y && same_text xs ys

-- if (read <= 0) return false; data = addr_data.substr(read)
unfoldable pub after_tag : List ℕ → Code × ℕ × List ℕ → Option (ℕ × List ℕ)
after_tag text (count read, tag, rest) = if read == 0 then none else some (tag, drop read text)
after_tag text (other, tag, rest) = none

module _ (cn_fast_hash : List ℕ → List ℕ) where
  unfoldable pub encode_addr : ℕ → List ℕ → Option (List ℕ)
  encode_addr tag text = do
    head ← write_varint 64 tag
    encode ((head ++ text) ++ take addr_checksum_size (cn_fast_hash (head ++ text)))

  unfoldable pub decode_addr : List ℕ → Option (ℕ × List ℕ)
  decode_addr addr = do
    addr_data ← decode addr
    assert (not (leb (length addr_data) addr_checksum_size))
    let kept = length addr_data - addr_checksum_size
    let checksum = drop kept addr_data
    let body = take kept addr_data
    assert (same_text (take addr_checksum_size (cn_fast_hash body)) checksum)
    after_tag body (read_varint 64 body)
