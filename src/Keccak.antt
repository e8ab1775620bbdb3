-- ===== src/Keccak.antt =====
-- src/crypto/keccak.c: the permutation and the sponge, on a little-endian machine. An array is a list
-- of its elements, and a read or a write outside it is `none`.
pub mod Loops
pub mod Permutation
pub mod Absorb
pub mod Padding
pub mod Lanes
pub mod Sponge
use lira.Prelude.{
  ℕ, zero, suc, ◌+◌, ◌-◌, ◌*◌, ◌/◌, ◌%◌, ◌^◌, bit_and, bit_or, bit_xor, ltb, leb, ◌==◌,
  if◌then◌else◌, ◌&&◌, Option, none, some, ◌>>=◌, ◌>>◌, assert, List, [], ◌∷◌, ◌++◌, length,
  get_elem?, set, take, drop, replicate,
}

abbrev pub keccakf_rndc : List ℕ
keccakf_rndc =
    0x1 ∷ 0x8082 ∷ 0x800000000000808a ∷ 0x8000000080008000 ∷ 0x808b ∷ 0x80000001
    ∷ 0x8000000080008081 ∷ 0x8000000000008009 ∷ 0x8a ∷ 0x88 ∷ 0x80008009 ∷ 0x8000000a ∷ 0x8000808b
    ∷ 0x800000000000008b ∷ 0x8000000000008089 ∷ 0x8000000000008003 ∷ 0x8000000000008002
    ∷ 0x8000000000000080 ∷ 0x800a ∷ 0x800000008000000a ∷ 0x8000000080008081 ∷ 0x8000000000008080
    ∷ 0x80000001 ∷ 0x8000000080008008 ∷ []

abbrev pub keccakf_rotc : List ℕ
keccakf_rotc =
    1 ∷ 3 ∷ 6 ∷ 10 ∷ 15 ∷ 21 ∷ 28 ∷ 36 ∷ 45 ∷ 55 ∷ 2 ∷ 14 ∷ 27 ∷ 41 ∷ 56 ∷ 8 ∷ 25 ∷ 43 ∷ 62 ∷ 18
    ∷ 39 ∷ 61 ∷ 20 ∷ 44 ∷ []

abbrev pub keccakf_piln : List ℕ
keccakf_piln =
    10 ∷ 7 ∷ 11 ∷ 17 ∷ 18 ∷ 3 ∷ 5 ∷ 16 ∷ 8 ∷ 21 ∷ 24 ∷ 4 ∷ 15 ∷ 23 ∷ 19 ∷ 13 ∷ 12 ∷ 2 ∷ 20 ∷ 14 ∷ 22
    ∷ 9 ∷ 6 ∷ 1 ∷ []

abbrev pub keccak_rounds : ℕ
keccak_rounds = 24

abbrev pub hash_data_area : ℕ
hash_data_area = 136

unfoldable pub rotl64 : ℕ → ℕ → ℕ
rotl64 x y = bit_or (x * 2 ^ y % 2 ^ 64) (x / 2 ^ (64 - y))

-- `count` rounds of a `for` loop whose variable starts at `i` and grows by `step`.
unfoldable pub for_loop {ℓ} : {S : Type ℓ} → ℕ → ℕ → (ℕ → S → Option S) → ℕ → S → Option S
for_loop zero step body i s = some s
for_loop (suc count) step body i s = body i s >>= λ s'. for_loop count step body (i + step) s'

-- xs[i] = v
unfoldable pub write : List ℕ → ℕ → ℕ → Option (List ℕ)
write xs i v = if ltb i (length xs) then some (set xs i v) else none

-- xs[i] ^= v
unfoldable pub xor_into : List ℕ → ℕ → ℕ → Option (List ℕ)
xor_into xs i v = do x ← get_elem? xs i; write xs i (bit_xor x v)

-- bc[i] = st[i] ^ st[i + 5] ^ st[i + 10] ^ st[i + 15] ^ st[i + 20]
unfoldable pub theta_parity : List ℕ → ℕ → List ℕ → Option (List ℕ)
theta_parity st i bc = do
  a ← get_elem? st i
  b ← get_elem? st (i + 5)
  c ← get_elem? st (i + 10)
  d ← get_elem? st (i + 15)
  e ← get_elem? st (i + 20)
  write bc i (bit_xor (bit_xor (bit_xor (bit_xor a b) c) d) e)

-- One column under its two neighbours.
unfoldable pub theta_column : List ℕ → ℕ → List ℕ → Option (List ℕ)
theta_column bc i st = do
  left ← get_elem? bc ((i + 4) % 5)
  right ← get_elem? bc ((i + 1) % 5)
  for_loop 5 5 (λ j s. xor_into s (j + i) (bit_xor left (rotl64 right 1))) 0 st

-- t and st: st[j] = ROTL64(t, rotc[i]), and t is what st[j] was.
unfoldable pub rho_pi : ℕ → ℕ × List ℕ → Option (ℕ × List ℕ)
rho_pi i (t, st) = do
  j ← get_elem? keccakf_piln i
  moved ← get_elem? st j
  turn ← get_elem? keccakf_rotc i
  st' ← write st j (rotl64 t turn)
  some (moved, st')

-- st[j + i] ^= (~bc[(i + 1) % 5]) & bc[(i + 2) % 5]
unfoldable pub chi_cell : List ℕ → ℕ → ℕ → List ℕ → Option (List ℕ)
chi_cell bc j i st = do
  next ← get_elem? bc ((i + 1) % 5)
  second ← get_elem? bc ((i + 2) % 5)
  xor_into st (j + i) (bit_and (2 ^ 64 - 1 - next) second)

-- bc[i] = st[j + i]
unfoldable pub copy_cell : List ℕ → ℕ → ℕ → List ℕ → Option (List ℕ)
copy_cell st j i bc = do x ← get_elem? st (j + i); write bc i x

unfoldable pub chi_row : ℕ → List ℕ × List ℕ → Option (List ℕ × List ℕ)
chi_row j (bc, st) = do
  bc' ← for_loop 5 1 (copy_cell st j) 0 bc
  st' ← for_loop 5 1 (chi_cell bc' j) 0 st
  some (bc', st')

-- One round: theta, rho and pi, chi, iota. bc[0] is `t` of the last step of rho and pi.
unfoldable pub keccak_round : ℕ → List ℕ × List ℕ → Option (List ℕ × List ℕ)
keccak_round round (bc, st) = do
  parity ← for_loop 5 1 (theta_parity st) 0 bc
  mixed ← for_loop 5 1 (theta_column parity) 0 st
  first ← get_elem? mixed 1
  moved ← for_loop 24 1 rho_pi 0 (first, mixed)
  kept ← write parity 0 moved.0
  rows ← for_loop 5 5 chi_row 0 (kept, moved.1)
  constant ← get_elem? keccakf_rndc round
  st' ← xor_into rows.1 0 constant
  some (rows.0, st')

-- `bc` is what that array holds at the start.
unfoldable pub keccakf : List ℕ → List ℕ → ℕ → Option (List ℕ)
keccakf bc st rounds = do last ← for_loop rounds 1 keccak_round 0 (bc, st); some last.1

-- `count` bytes as a number, lowest first.
unfoldable pub load : ℕ → List ℕ → Option ℕ
load zero bytes = some 0
load (suc count) [] = none
load (suc count) (b ∷ bytes) = load count bytes >>= λ high. some (b + 2 ^ 8 * high)

-- st[i] ^= ((uint64_t *) in)[i]
unfoldable pub absorb_word : List ℕ → ℕ → List ℕ → Option (List ℕ)
absorb_word bytes i st = do w ← load 8 (drop (8 * i) bytes); xor_into st i w

-- A block of `rsiz` bytes into the state, and the permutation.
unfoldable pub absorb_block : List ℕ → ℕ → List ℕ → List ℕ → Option (List ℕ)
absorb_block bc rsiz bytes st = do
  st' ← for_loop (rsiz / 8) 1 (absorb_word bytes) 0 st
  keccakf bc st' keccak_rounds

-- for ( ; inlen >= rsiz; inlen -= rsiz, in += rsiz)
unfoldable pub absorb_loop : ℕ → List ℕ → ℕ → List ℕ → List ℕ → Option (List ℕ × List ℕ)
absorb_loop zero bc rsiz bytes st = none
absorb_loop (suc fuel) bc rsiz bytes st =
    if leb rsiz (length bytes)
    then (absorb_block bc rsiz bytes st >>= λ st'. absorb_loop fuel bc rsiz (drop rsiz bytes) st')
    else some (bytes, st)

-- The array `temp` with the last bytes and their padding.
unfoldable pub last_block : List ℕ → ℕ → List ℕ → Option (List ℕ)
last_block temp rsiz bytes = do
  assert (leb (length bytes) (length temp))
  marked ← write (bytes ++ drop (length bytes) temp) (length bytes) 1
  let inlen = length bytes + 1
  assert (leb inlen rsiz && leb rsiz (length temp))
  let filled = (take inlen marked ++ replicate (rsiz - inlen) 0) ++ drop rsiz marked
  end ← get_elem? filled (rsiz - 1)
  write filled (rsiz - 1) (bit_or end 0x80)

-- The bytes of the words in order, lowest first.
unfoldable pub word_bytes : ℕ → ℕ → List ℕ
word_bytes zero x = []
word_bytes (suc count) x = x % 2 ^ 8 ∷ word_bytes count (x / 2 ^ 8)

unfoldable pub state_bytes : List ℕ → List ℕ
state_bytes [] = []
state_bytes (x ∷ xs) = word_bytes 8 x ++ state_bytes xs

-- sizeof(state_t) == mdlen ? HASH_DATA_AREA : 200 - 2 * mdlen, and `none` for a rate that is not
-- positive: the loop would not end.
unfoldable pub rate : ℕ → Option ℕ
rate mdlen =
    if 200 == mdlen
    then some hash_data_area
    else if ltb (2 * mdlen) 200
    then some (200 - 2 * mdlen)
    else none

-- `temp` and `bc` are what those arrays hold at the start; the result is `md`.
unfoldable pub keccak : List ℕ → List ℕ → List ℕ → ℕ → Option (List ℕ)
keccak temp bc bytes mdlen = do
  rsiz ← rate mdlen
  absorbed ← absorb_loop (suc (length bytes / rsiz)) bc rsiz bytes (replicate 25 0)
  block ← last_block temp rsiz absorbed.0
  st ← absorb_block bc rsiz block absorbed.1
  assert (leb mdlen 200)
  some (take mdlen (state_bytes st))

pub keccak1600 : List ℕ → List ℕ → List ℕ → Option (List ℕ)
keccak1600 temp bc bytes = keccak temp bc bytes 200
