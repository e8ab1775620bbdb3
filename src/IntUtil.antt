-- ===== src/IntUtil.antt =====
-- src/common/int-util.h: rotations, and 128-bit products and quotients from 64-bit words.
pub mod Product
pub mod Quotient
use lira.Prelude.{
  ℕ, ◌+◌, ◌-◌, ◌*◌, ◌/◌, ◌%◌, ◌^◌, bit_or, ltb, leb, ◌==◌, if◌then◌else◌, Option, none, some, ◌>>=◌,
  ◌>>◌, assert,
}

-- x << (r & 31) | x >> (-r & 31), for r from 0 on.
unfoldable pub rol32 : ℕ → ℕ → ℕ
rol32 x r = bit_or (x * 2 ^ (r % 32) % 2 ^ 32) (x / 2 ^ ((32 - r % 32) % 32))

pub hi_dword : ℕ → ℕ
hi_dword val = val / 2 ^ 32

-- val & 0xFFFFFFFF
pub lo_dword : ℕ → ℕ
lo_dword val = val % 2 ^ 32

-- The low and the high word from the four partial products, with the carries.
unfoldable pub combine : ℕ → ℕ → ℕ → ℕ → ℕ × ℕ
combine ac ad bc bd =
    let adbc = (ad + bc) % 2 ^ 64 in
    let adbc_carry : ℕ = if ltb adbc ad then 1 else 0 in
    let product_lo = (bd + adbc * 2 ^ 32 % 2 ^ 64) % 2 ^ 64 in
    let product_lo_carry : ℕ = if ltb product_lo bd then 1 else 0 in
    (product_lo, (ac + adbc / 2 ^ 32 + adbc_carry * 2 ^ 32 % 2 ^ 64 + product_lo_carry) % 2 ^ 64)

-- (product_lo, product_hi); `none` is the failure of `assert(ac <= *product_hi)`.
unfoldable pub mul128 : ℕ → ℕ → Option (ℕ × ℕ)
unfolding hi_dword lo_dword
mul128 multiplier multiplicand =
    let a = hi_dword multiplier in
    let b = lo_dword multiplier in
    let c = hi_dword multiplicand in
    let d = lo_dword multiplicand in
    let ac = a * c % 2 ^ 64 in
    let product = combine ac (a * d % 2 ^ 64) (b * c % 2 ^ 64) (b * d % 2 ^ 64) in
    do assert (leb ac product.1); some product

-- (quotient, remainder); a division by 0 is `none`.
unfoldable pub div_with_reminder : ℕ → ℕ → ℕ → Option (ℕ × ℕ)
div_with_reminder dividend divisor remainder =
    let whole = bit_or dividend (remainder * 2 ^ 32 % 2 ^ 64) in
    if divisor == 0 then none else some (whole / divisor, whole % divisor)

-- (quotient_hi, quotient_lo, remainder)
unfoldable pub div128_32 : ℕ → ℕ → ℕ → Option (ℕ × ℕ × ℕ)
unfolding hi_dword lo_dword
div128_32 dividend_hi dividend_lo divisor = do
  (q3, r3) ← div_with_reminder (hi_dword dividend_hi) divisor 0
  (q2, r2) ← div_with_reminder (lo_dword dividend_hi) divisor r3
  (q1, r1) ← div_with_reminder (hi_dword dividend_lo) divisor r2
  (q0, r0) ← div_with_reminder (lo_dword dividend_lo) divisor r1
  some (bit_or (q3 * 2 ^ 32 % 2 ^ 64) q2, bit_or (q1 * 2 ^ 32 % 2 ^ 64) q0, r0)
