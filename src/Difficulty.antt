-- ===== src/Difficulty.antt =====
-- src/cryptonote_core/difficulty.cpp: the test of a proof of work. A hash is its four 64-bit words,
-- lowest first, as swap64le reads them.
pub mod Target
pub mod Retarget
pub mod Next
use lira.Prelude.{
  ℕ, ◌+◌, ◌-◌, ◌*◌, ◌/◌, ◌%◌, ◌^◌, Bool, true, false, not, ◌&&◌, ◌||◌, ltb, ◌==◌, if◌then◌else◌,
}

-- (low, high)
unfoldable pub mul : ℕ → ℕ → ℕ × ℕ
mul a b = let res = a * b % 2 ^ 128 in (res % 2 ^ 64, res / 2 ^ 64)

unfoldable pub cadd : ℕ → ℕ → Bool
cadd a b = ltb ((a + b) % 2 ^ 64) a

unfoldable pub cadc : ℕ → ℕ → Bool → Bool
cadc a b c = ltb ((a + b) % 2 ^ 64) a || (c && (a + b) % 2 ^ 64 == 2 ^ 64 - 1)

-- The carries from the words of the four products.
unfoldable pub carries : ℕ × ℕ → ℕ × ℕ → ℕ × ℕ → ℕ → Bool
carries first second third top =
    let carry = cadd first.1 second.0 in
    let carry' = cadc second.1 third.0 carry in not (cadc third.1 top carry')

unfoldable pub check_hash : ℕ → ℕ → ℕ → ℕ → ℕ → Bool
check_hash w0 w1 w2 w3 difficulty =
    let highest = mul w3 difficulty in
    let rest = carries (mul w0 difficulty) (mul w1 difficulty) (mul w2 difficulty) highest.0 in
    if not (highest.1 == 0) then false else rest
