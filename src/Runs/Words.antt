-- ===== src/Runs/Words.antt =====
-- src/common/varint.h and src/common/int-util.h at concrete numbers.
use lira.Prelude.{
  ℕ, ◌+◌, ◌-◌, ◌*◌, ◌^◌, ◌<◌, ◌≡◌, refl, arith, ◌⊎◌, some, List, [], ◌∷◌, ◌++◌, length,
}
use lira.Varint.{count, overflow, non_canonical, write_varint, read_varint}
use lira.Varint.RoundTrip.{read_varint-write_varint}
use lira.Varint.Canonical.{Continues, read_varint_canonical}
use lira.IntUtil.{mul128, div128_32}
use lira.IntUtil.Product.{IsProduct, mul128_lem}
use lira.IntUtil.Quotient.{IsQuotient, div128_32_lem}

write_300 : write_varint 64 300 ≡ some (0xac ∷ 0x02 ∷ [])
unfolding write_varint
write_300 = refl

read_300 : read_varint 64 (0xac ∷ 0x02 ∷ 9 ∷ []) ≡ (count 2, 300, 9 ∷ [])
unfolding read_varint
read_300 = refl

read_padded : read_varint 64 (0x80 ∷ 0x00 ∷ []) ≡ (non_canonical, 0, [])
unfolding read_varint
read_padded = refl

read_wide : read_varint 8 (0xff ∷ 0x02 ∷ []) ≡ (overflow, 127, [])
unfolding read_varint
read_wide = refl

-- The end of the input is reported like a success.
read_cut : read_varint 64 (0x85 ∷ []) ≡ (count 1, 5, [])
unfolding read_varint
read_cut = refl

read_varint-write_varint_example :
    (bs : List ℕ) × (write_varint 64 300 ≡ some bs)
    × (read_varint 64 (bs ++ (9 ∷ [])) ≡ (count (length bs), 300, 9 ∷ []))
read_varint-write_varint_example =
    read_varint-write_varint 64 300 (9 ∷ []) (omega arith) (omega arith)

read_varint_canonical_example :
    Continues (0xac ∷ 0x02 ∷ 9 ∷ [])
    ⊎ ((bs : List ℕ) × (write_varint 64 300 ≡ some bs)
        × (0xac ∷ 0x02 ∷ 9 ∷ [] ≡ bs ++ (9 ∷ []))
        × (2 ≡ length bs)
        × (300 < 2 ^ 64))
read_varint_canonical_example =
    read_varint_canonical 64 2 300 (0xac ∷ 0x02 ∷ 9 ∷ []) (9 ∷ []) (omega arith) (omega arith)
      read_300

abbrev top : ℕ
top = 2 ^ 64 - 1

mul128_lem_example : (p : ℕ × ℕ) × (mul128 top top ≡ some p) × IsProduct (top * top) p
mul128_lem_example = mul128_lem top top (omega arith) (omega arith)

div128_32_lem_example :
    (q : ℕ × ℕ × ℕ) × (div128_32 top 5 1000 ≡ some q) × IsQuotient (top * 2 ^ 64 + 5) 1000 q
div128_32_lem_example =
    div128_32_lem top 5 1000 (omega arith) (omega arith) (omega arith) (omega arith)
