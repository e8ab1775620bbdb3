-- ===== src/Varint.antt =====
-- src/common/varint.h: unsigned integers in groups of seven bits, lowest first, with the top bit
-- set on every byte but the last. `bits` is std::numeric_limits<T>::digits.
pub mod Bytes
pub mod RoundTrip
pub mod Canonical
use lira.Prelude.{
  ℕ, zero, suc, ◌+◌, ◌-◌, ◌*◌, ◌/◌, ◌%◌, ◌^◌, bit_and, bit_or, Bool, not, ◌&&◌, leb, ◌==◌,
  if◌then◌else◌, Option, none, some, ◌>>=◌, List, [], ◌∷◌,
}

-- One byte of the loop: (static_cast<char>(i) & 0x7f) | 0x80.
pub inner_byte : ℕ → ℕ
inner_byte i = bit_or (bit_and (i % 256) 0x7f) 0x80

-- while (i >= 0x80) { ...; i >>= 7; } and the last byte. `none` is a lack of fuel.
unfoldable pub write_loop : ℕ → ℕ → Option (List ℕ)
write_loop zero i = none
write_loop (suc fuel) i =
    let more = write_loop fuel (i / 2 ^ 7) >>= λ rest. some (inner_byte i ∷ rest) in
    if leb 0x80 i then more else some ((i % 256) ∷ [])

unfoldable pub write_varint : ℕ → ℕ → Option (List ℕ)
unfolding write_loop inner_byte
write_varint bits i = write_loop (suc bits) i

-- What `read_varint` returns: the number of bytes read, also where the input ended inside the
-- number, or -1, or -2.
pub data Code : Type 0 where
  count : ℕ → Code
  overflow : Code
  non_canonical : Code

-- i |= static_cast<T>(byte & 0x7f) << shift
pub add_group : ℕ → ℕ → ℕ → ℕ → ℕ
add_group bits i byte shift = bit_or i (bit_and byte 0x7f * 2 ^ shift % 2 ^ bits)

-- The loop over the input that is left; `i` and the rest of the input are the results by reference.
pub read_loop : ℕ → List ℕ → ℕ → ℕ → ℕ → Code × ℕ × List ℕ
read_loop bits [] shift i read = (count read, i, [])
read_loop bits (byte ∷ rest) shift i read =
    let i' = add_group bits i byte shift in
    let more = read_loop bits rest (shift + 7) i' (suc read) in
    if leb bits (shift + 7) && leb (2 ^ (bits - shift)) byte
    then (overflow, i, rest)
    else if byte == 0 && not (shift == 0)
    then (non_canonical, i, rest)
    else if bit_and byte 0x80 == 0
    then (count (suc read), i', rest)
    else more

unfoldable pub read_varint : ℕ → List ℕ → Code × ℕ × List ℕ
unfolding read_loop add_group
read_varint bits input = read_loop bits input 0 0 0
