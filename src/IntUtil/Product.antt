-- ===== src/IntUtil/Product.antt =====
-- `mul128` is the product.
use lira.Prelude.{le→leb, ℕ, ◌+◌, ◌-◌, ◌*◌, ◌/◌, ◌%◌, ◌^◌, ◌≤◌, ◌<◌, ◌≡◌, arith, some}
use lira.IntUtil.{combine, mul128}

abbrev Small : ℕ → Type 0
Small p = p ≤ (2 ^ 32 - 1) * (2 ^ 32 - 1)

abbrev pub IsProduct : ℕ → ℕ × ℕ → Type 0
IsProduct total (lo, hi) = (lo + hi * 2 ^ 64 ≡ total) × (lo < 2 ^ 64) × (hi < 2 ^ 64)

combine_lem :
    (ac ad bc bd : ℕ)
    → Small ac
    → Small ad
    → Small bc
    → Small bd
    → IsProduct (ac * 2 ^ 64 + (ad + bc) * 2 ^ 32 + bd) (combine ac ad bc bd)
      × (ac ≤ (combine ac ad bc bd).1)
unfolding combine
combine_lem ac ad bc bd h1 h2 h3 h4 = ground arith

Small-product : (a b : ℕ) → a < 2 ^ 32 → b < 2 ^ 32 → Small (a * b)
Small-product a b ha hb = grind arith

no_wrap : (p : ℕ) → Small p → p % 2 ^ 64 ≡ p
no_wrap p h = omega arith

-- A product is the sum of the products of the halves.
halves_product :
    (m n : ℕ)
    → m * n
      ≡ m / 2 ^ 32 * (n / 2 ^ 32) * 2 ^ 64
        + (m / 2 ^ 32 * (n % 2 ^ 32) + m % 2 ^ 32 * (n / 2 ^ 32)) * 2 ^ 32
        + m % 2 ^ 32 * (n % 2 ^ 32)
halves_product m n =
    expand (m / 2 ^ 32) (m % 2 ^ 32) (n / 2 ^ 32) (n % 2 ^ 32) m n (omega arith) (omega arith)
  where
    expand :
        (a b c d x y : ℕ)
        → x ≡ a * 2 ^ 32 + b
        → y ≡ c * 2 ^ 32 + d
        → x * y ≡ a * c * 2 ^ 64 + (a * d + b * c) * 2 ^ 32 + b * d
    expand a b c d x y p q = rw (p, q) (omega arith)

-- On 64-bit words `mul128` passes its assertion, and its two words are the whole product.
pub mul128_lem :
    (m n : ℕ) → m < 2 ^ 64 → n < 2 ^ 64 → (p : ℕ × ℕ) × (mul128 m n ≡ some p) × IsProduct (m * n) p
unfolding mul128
mul128_lem m n hm hn = (
  combine ac ad bc bd,
  rw (no_wrap ac sac, no_wrap ad sad, no_wrap bc sbc, no_wrap bd sbd) (rw (le→leb ac _ correct.1)),
  rw (halves_product m n) correct.0,
)
  where
    ac : ℕ
    ac = m / 2 ^ 32 * (n / 2 ^ 32)

    ad : ℕ
    ad = m / 2 ^ 32 * (n % 2 ^ 32)

    bc : ℕ
    bc = m % 2 ^ 32 * (n / 2 ^ 32)

    bd : ℕ
    bd = m % 2 ^ 32 * (n % 2 ^ 32)

    sac : Small ac
    sac = Small-product (m / 2 ^ 32) (n / 2 ^ 32) (omega arith) (omega arith)

    sad : Small ad
    sad = Small-product (m / 2 ^ 32) (n % 2 ^ 32) (omega arith) (omega arith)

    sbc : Small bc
    sbc = Small-product (m % 2 ^ 32) (n / 2 ^ 32) (omega arith) (omega arith)

    sbd : Small bd
    sbd = Small-product (m % 2 ^ 32) (n % 2 ^ 32) (omega arith) (omega arith)

    correct :
        IsProduct (ac * 2 ^ 64 + (ad + bc) * 2 ^ 32 + bd) (combine ac ad bc bd)
        × (ac ≤ (combine ac ad bc bd).1)
    correct = combine_lem ac ad bc bd sac sad sbc sbd
