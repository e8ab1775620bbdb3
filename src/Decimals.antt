-- ===== src/Decimals.antt =====
-- src/cryptonote_core/Currency.cpp: formatAmount and parseAmount. A string is the list of its bytes.
pub mod RoundTrip
use lira.Prelude.{
  ℕ, zero, suc, ◌+◌, ◌-◌, ltb, ◌&&◌, ◌==◌, if◌then◌else◌, Bool, true, false, Option, none, some,
  List, [], ◌∷◌, ◌++◌, length, get_elem?, take, drop, replicate,
}

abbrev pub point : ℕ
point = 46

abbrev pub digit_zero : ℕ
digit_zero = 48

unfoldable pub find_first_of : ℕ → List ℕ → Option ℕ
find_first_of c [] = none
find_first_of c (x ∷ xs) =
    let rest = find_first_of c xs in
    if x == c then some 0 else elim rest [ none ↦ none | some i ↦ some (suc i) ]

-- Whether back() is the digit 0.
unfoldable pub ends_in_zero : List ℕ → Bool
ends_in_zero s = elim (get_elem? s (length s - 1)) [ none ↦ false | some c ↦ c == digit_zero ]

-- The loop that drops zeros behind the last decimal place, with the size of the fraction.
unfoldable pub drop_zeros : ℕ → ℕ → List ℕ → List ℕ × ℕ
drop_zeros places zero s = (s, 0)
drop_zeros places (suc fraction_size) s =
    let rest = drop_zeros places fraction_size (take (length s - 1) s) in
    if ltb places (suc fraction_size) && ends_in_zero s then rest else (s, suc fraction_size)

module _ (to_string : ℕ → List ℕ) (number_of_decimal_places : ℕ) where
  -- With a digit before the point, at least.
  unfoldable pub padded : ℕ → List ℕ
  padded amount =
      let s = to_string amount in
      if ltb (length s) (number_of_decimal_places + 1)
      then replicate (number_of_decimal_places + 1 - length s) digit_zero ++ s
      else s

  unfoldable pub format_amount : ℕ → List ℕ
  format_amount amount =
      let s = padded amount in
      take (length s - number_of_decimal_places) s
      ++ (point ∷ drop (length s - number_of_decimal_places) s)

-- A string without the blanks at its ends, and the number that a string holds.
module _ (trim : List ℕ → List ℕ) (get_xtype_from_string : List ℕ → Option ℕ)
    (number_of_decimal_places : ℕ) where
  unfoldable pub read_units : List ℕ → ℕ → Option ℕ
  read_units str_amount fraction_size =
      if length str_amount == 0
      then none
      else get_xtype_from_string (
          if ltb fraction_size number_of_decimal_places
          then str_amount ++ replicate (number_of_decimal_places - fraction_size) digit_zero
          else str_amount)

  -- Without the point, if there are not too many decimal places.
  unfoldable pub read_fraction : ℕ → List ℕ → ℕ → Option ℕ
  read_fraction point_index s fraction_size =
      if ltb number_of_decimal_places fraction_size
      then none
      else read_units (take point_index s ++ drop (suc point_index) s) fraction_size

  -- `none` is the result false.
  unfoldable pub parse_amount : List ℕ → Option ℕ
  parse_amount str =
      let str_amount = trim str in
      elim (find_first_of point str_amount) [
        | none ↦ read_units str_amount 0
        | some point_index ↦
            let (s, fraction_size) =
              drop_zeros number_of_decimal_places (length str_amount - point_index - 1)
                str_amount in
            read_fraction point_index s fraction_size
      ]
