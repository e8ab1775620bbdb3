-- ===== src/Decimals/RoundTrip.antt =====
-- src/cryptonote_core/Currency.cpp: parseAmount reads what formatAmount wrote.
use lira.Prelude.{
  ℕ, zero, suc, ◌+◌, ◌-◌, ◌^◌, ◌≤◌, ◌<◌, ◌≡◌, refl, ap, ◌∙◌, arith, ltb, ◌==◌, le→not_ltb,
  Bool-cases, inl, inr, false, Option, some, List, [], ◌∷◌, ◌++◌, length, take, drop, replicate,
  All, length-append, length-take, length-drop, length-replicate, take_append, take-append-drop,
}
use lira.Decimals.{
  point, digit_zero, find_first_of, drop_zeros, padded, format_amount, read_units, read_fraction,
  parse_amount,
}

-- '0' to '9'.
unfoldable pub IsDigit : ℕ → Type 0
IsDigit c = (48 ≤ c) × (c ≤ 57)

-- A printable byte that is no blank.
unfoldable pub IsGraph : ℕ → Type 0
IsGraph c = (33 ≤ c) × (c ≤ 126)

digit-IsGraph : (s : List ℕ) → All IsDigit s → All IsGraph s
unfolding IsDigit IsGraph
digit-IsGraph [] all = tt
digit-IsGraph (c ∷ s) ((low, high), all) = ((omega arith, omega arith), digit-IsGraph s all)

All-append : (P : ℕ → Type 0) (s t : List ℕ) → All P s → All P t → All P (s ++ t)
All-append P [] t all more = more
All-append P (c ∷ s) t (first, all) more = (first, All-append P s t all more)

All-take : (P : ℕ → Type 0) (n : ℕ) (s : List ℕ) → All P s → All P (take n s)
All-take P zero s all = tt
All-take P (suc n) [] all = tt
All-take P (suc n) (c ∷ s) (first, all) = (first, All-take P n s all)

All-drop : (P : ℕ → Type 0) (n : ℕ) (s : List ℕ) → All P s → All P (drop n s)
All-drop P zero s all = all
All-drop P (suc n) [] all = tt
All-drop P (suc n) (c ∷ s) (first, all) = All-drop P n s all

-- The first point is the one that was inserted.
find_first_of-append :
    (s t : List ℕ) → All IsDigit s → find_first_of point (s ++ (point ∷ t)) ≡ some (length s)
unfolding find_first_of IsDigit
find_first_of-append [] t all = refl
find_first_of-append (c ∷ s) t ((low, high), all) =
    let other : (c == point) ≡ false = ground (arith, low) in
    rw (other, find_first_of-append s t all) refl

drop_zeros_none : (places n : ℕ) (s : List ℕ) → n ≤ places → drop_zeros places n s ≡ (s, n)
unfolding drop_zeros
drop_zeros_none places zero s le = refl
drop_zeros_none places (suc n) s le = rw (le→not_ltb places (suc n) le) refl

drop_past : (w t : List ℕ) (c : ℕ) → drop (suc (length w)) (w ++ (c ∷ t)) ≡ t
drop_past [] t c = refl
drop_past (x ∷ w) t c = drop_past w t c

-- A string with all decimal places.
parse_pointed :
    (trim : List ℕ → List ℕ) (get_xtype_from_string : List ℕ → Option ℕ)
    → ((s : List ℕ) → All IsGraph s → trim s ≡ s)
    → (places : ℕ) (w t : List ℕ) → All IsDigit w
    → All IsDigit t
    → length t ≡ places
    → 0 < length w
    → parse_amount trim get_xtype_from_string places (w ++ (point ∷ t))
      ≡ get_xtype_from_string (w ++ t)
unfolding parse_amount read_fraction read_units IsGraph
parse_pointed trim get keeps places w t before after full some_digit =
    let str = w ++ (point ∷ t) in
    let kept : trim str ≡ str = keeps str (
      All-append IsGraph w (point ∷ t) (digit-IsGraph w before)
        ((omega arith, omega arith), digit-IsGraph t after)) in
    let size : length str ≡ suc (length w + length t) =
      omega (arith, length-append w (point ∷ t)) in
    let fraction : length str - length w - 1 ≡ places = omega (arith, size, full) in
    let whole : take (length w) str ≡ w = take_append (length w) w (point ∷ t) refl in
    let not_empty : (length (w ++ t) == 0) ≡ false =
      ground (arith, length-append w t, some_digit) in
    let dropped : drop_zeros places (length str - length w - 1) str ≡ (str, places) =
      ap (λ (n : ℕ). drop_zeros places n str) fraction
      ∙ drop_zeros_none places places str (omega arith) in
    let parts : take (length w) str ++ drop (suc (length w)) str ≡ w ++ t =
      rw (whole, drop_past w t point) refl in
    rw
      (
        parse_amount,
        kept,
        find_first_of-append w t before,
        kept,
        dropped,
        le→not_ltb places places (omega arith),
        parts,
        not_empty,
      )
      refl

module _ (to_string : ℕ → List ℕ) (trim : List ℕ → List ℕ)
    (get_xtype_from_string : List ℕ → Option ℕ)
    (writes : (a : ℕ) → All IsDigit (to_string a) × (0 < length (to_string a)))
    (keeps : (s : List ℕ) → All IsGraph s → trim s ≡ s)
    (reads : (a : ℕ) → a < 2 ^ 64 → get_xtype_from_string (to_string a) ≡ some a)
    (leading : (s : List ℕ)
      → All IsDigit s
      → 0 < length s
      → get_xtype_from_string (digit_zero ∷ s) ≡ get_xtype_from_string s)
    (places : ℕ) where
  zeros :
      (k : ℕ) (s : List ℕ)
      → All IsDigit s
      → 0 < length s
      → All IsDigit (replicate k digit_zero ++ s)
        × (get_xtype_from_string (replicate k digit_zero ++ s) ≡ get_xtype_from_string s)
  unfolding IsDigit
  zeros zero s all some_digit = (all, refl)
  zeros (suc k) s all some_digit =
      let (more, same) = zeros k s all some_digit in
      (
        ((omega arith, omega arith), more),
        leading (replicate k digit_zero ++ s) more
              (omega (arith, length-append (replicate k digit_zero) s))
            ∙ same,
      )

  -- The digits with their leading zeros.
  padded_lem :
      (a : ℕ)
      → a < 2 ^ 64
      → All IsDigit (padded to_string places a)
        × (places < length (padded to_string places a))
        × (get_xtype_from_string (padded to_string places a) ≡ some a)
  unfolding padded
  padded_lem a small =
      let s = to_string a in
      let (all, some_digit) = writes a in
      elim (Bool-cases (ltb (length s) (places + 1))) [
        | inl h ↦
            let k = places + 1 - length s in
            let (more, same) = zeros k s all some_digit in
            rw h (
              more,
              omega
                  (arith, length-append (replicate k digit_zero) s, length-replicate k digit_zero),
              same ∙ reads a small,
            )
        | inr h ↦ rw h (all, ground arith, reads a small)
      ]

  -- If to_string gives digits that get_xtype_from_string reads, also behind zeros, and trim keeps a
  -- string without blanks: for any number of decimal places, parseAmount reads each amount of 64 bits
  -- from what formatAmount writes.
  pub parse_amount-format_amount :
      (a : ℕ)
      → a < 2 ^ 64
      → parse_amount trim get_xtype_from_string places (format_amount to_string places a) ≡ some a
  unfolding format_amount
  parse_amount-format_amount a small =
      let s = padded to_string places a in
      let n = length s - places in
      let (all, long, value) = padded_lem a small in
      parse_pointed trim get_xtype_from_string keeps places (take n s) (drop n s)
        (All-take IsDigit n s all) (All-drop IsDigit n s all) (omega (arith, length-drop n s))
        (omega (arith, length-take n s))
      ∙ ap get_xtype_from_string (take-append-drop n s)
      ∙ value
