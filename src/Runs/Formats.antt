-- ===== src/Runs/Formats.antt =====
-- src/cryptonote_core/Currency.cpp: amounts as strings, over plain functions for the library's.
use lira.Prelude.{
  ℕ, zero, suc, ◌+◌, ◌-◌, ◌*◌, ◌/◌, ◌%◌, ◌^◌, ◌≤◌, ◌<◌, ◌≡◌, refl, ap, ◌∙◌, arith, ltb, leb, ◌&&◌,
  ◌||◌, ◌==◌, lt→ltb, le→not_ltb, lt-cases, inl, inr, if◌then◌else◌, Bool, false, Option, none,
  some, List, [], ◌∷◌, ◌++◌, length, All, length-append,
}
use lira.Decimals.{
  find_first_of, ends_in_zero, drop_zeros, padded, format_amount, read_units, read_fraction,
  parse_amount,
}
use lira.Decimals.RoundTrip.{IsDigit, IsGraph, parse_amount-format_amount}

-- The last digit behind the others; the fuel is the number itself.
abbrev digits : ℕ → ℕ → List ℕ
digits zero a = (48 + a % 10) ∷ []
digits (suc fuel) a =
    let rest = digits fuel (a / 10) in (if ltb a 10 then [] else rest) ++ ((48 + a % 10) ∷ [])

abbrev to_string : ℕ → List ℕ
to_string a = digits a a

abbrev value : ℕ → List ℕ → ℕ
value acc [] = acc
value acc (c ∷ s) = value (acc * 10 + (c - 48)) s

abbrev from_string : List ℕ → Option ℕ
from_string s = if ltb (value 0 s) (2 ^ 64) then some (value 0 s) else none

abbrev is_blank : ℕ → Bool
is_blank c = c == 32 || (leb 9 c && leb c 13)

abbrev trim_left : List ℕ → List ℕ
trim_left [] = []
trim_left (c ∷ s) = let rest = trim_left s in if is_blank c then rest else (c ∷ s)

abbrev trim_right : List ℕ → List ℕ
trim_right [] = []
trim_right (c ∷ s) =
    let rest = trim_right s in if is_blank c && (length rest == 0) then [] else (c ∷ rest)

abbrev trim : List ℕ → List ℕ
trim s = trim_left (trim_right s)

-- 1.5 and its neighbours, with three decimal places: 49 is the digit 1, 46 the point.
formats :
    (format_amount to_string 3 1500 ≡ 49 ∷ 46 ∷ 53 ∷ 48 ∷ 48 ∷ [])
    × (parse_amount trim from_string 3 (32 ∷ 49 ∷ 46 ∷ 53 ∷ []) ≡ some 1500)
    × (parse_amount trim from_string 3 (49 ∷ 46 ∷ 53 ∷ 48 ∷ 48 ∷ 48 ∷ []) ≡ some 1500)
    × (parse_amount trim from_string 3 (49 ∷ 46 ∷ 53 ∷ 48 ∷ 48 ∷ 49 ∷ []) ≡ none)
    × (parse_amount trim from_string 3 (49 ∷ []) ≡ some 1000)
    × (parse_amount trim from_string 3 [] ≡ none)
unfolding find_first_of ends_in_zero drop_zeros padded format_amount read_units read_fraction
    parse_amount
formats = (refl, refl, refl, refl, refl, refl)

value-append : (s : List ℕ) (acc c : ℕ) → value acc (s ++ (c ∷ [])) ≡ value acc s * 10 + (c - 48)
value-append [] acc c = refl
value-append (x ∷ s) acc c = value-append s (acc * 10 + (x - 48)) c

value-digits : (fuel a : ℕ) → a ≤ fuel → value 0 (digits fuel a) ≡ a
value-digits zero a le = omega arith
value-digits (suc fuel) a le = elim (lt-cases a 10) [
  | inl small ↦ rw (lt→ltb a 10 small) (omega arith)
  | inr large ↦ rw (le→not_ltb a 10 large) (
      value-append (digits fuel (a / 10)) 0 (48 + a % 10)
      ∙ omega (arith, value-digits fuel (a / 10) (omega arith)))
]

digits-IsDigit : (fuel a : ℕ) → All IsDigit (digits fuel a) × (0 < length (digits fuel a))
unfolding IsDigit
digits-IsDigit zero a = (((omega arith, omega arith), tt), omega arith)
digits-IsDigit (suc fuel) a =
    let (more, some_digit) = digits-IsDigit fuel (a / 10) in
    elim (lt-cases a 10) [
      | inl small ↦ rw (lt→ltb a 10 small) (((omega arith, omega arith), tt), omega arith)
      | inr large ↦ rw (le→not_ltb a 10 large) (
        with_last (digits fuel (a / 10)) more,
        omega (arith, length-append (digits fuel (a / 10)) ((48 + a % 10) ∷ [])),
      )
    ]
  where
    with_last : (s : List ℕ) → All IsDigit s → All IsDigit (s ++ ((48 + a % 10) ∷ []))
    with_last [] all = ((omega arith, omega arith), tt)
    with_last (c ∷ s) (first, all) = (first, with_last s all)

writes : (a : ℕ) → All IsDigit (to_string a) × (0 < length (to_string a))
writes a = digits-IsDigit a a

reads : (a : ℕ) → a < 2 ^ 64 → from_string (to_string a) ≡ some a
reads a small = rw (value-digits a a (omega arith)) (rw (lt→ltb a (2 ^ 64) small) refl)

no_blank : (c : ℕ) → IsGraph c → is_blank c ≡ false
unfolding IsGraph
no_blank c (low, high) = ground (arith, low)

keeps_right : (s : List ℕ) → All IsGraph s → trim_right s ≡ s
keeps_right [] all = refl
keeps_right (c ∷ s) (first, all) = rw (no_blank c first) (ap (◌∷◌ c) (keeps_right s all))

keeps : (s : List ℕ) → All IsGraph s → trim s ≡ s
keeps s all = ap trim_left (keeps_right s all) ∙ left s all
  where
    left : (t : List ℕ) → All IsGraph t → trim_left t ≡ t
    left [] all = refl
    left (c ∷ t) (first, all) = rw (no_blank c first) refl

parse_amount-format_amount_example :
    parse_amount trim from_string 3 (format_amount to_string 3 1500) ≡ some 1500
parse_amount-format_amount_example =
    parse_amount-format_amount to_string trim from_string writes keeps reads
      (λ s all some_digit. refl) 3 1500 (omega arith)
