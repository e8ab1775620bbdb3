-- ===== src/Base58/Letters.antt =====
-- src/common/base58.cpp: the alphabet and the table of block sizes, with their inverses.
use lira.Prelude.{
  ℕ, zero, suc, ◌-◌, ◌^◌, ◌≤◌, ◌<◌, ◌≡◌, refl, sym, ap, subst, ◌∙◌, inl, inr, Bool, true, false,
  ◌&&◌, ◌||◌, ltb, leb, ltb→lt, leb→le, ◌==◌, ==_iff, Option, none, some, none-ne-some, lt-cases,
  List, [], ◌∷◌, length, length-set, get_elem?, set, replicate, arith,
}
use lira.Prelude.Bits.{holds_below, holds_below_sound}
use lira.Base58.{
  alphabet, encoded_block_sizes, fill_table, look_up, reverse_alphabet, decoded_block_sizes,
}

-- Equality tests of results, for the tables.
abbrev is : Option ℕ → ℕ → Bool
is none n = false
is (some m) n = m == n

is_inv : (o : Option ℕ) (n : ℕ) → is o n ≡ true → o ≡ some n
is_inv none n h = absurd (cc h)
is_inv (some m) n h = ap some ((==_iff m n).0 h)

pub and_inv : (a b : Bool) → (a && b) ≡ true → (a ≡ true) × (b ≡ true)
and_inv true b h = (refl, h)
and_inv false b h = absurd (cc h)

-- The letter of a digit.
unfoldable pub letter : ℕ → ℕ
letter d = elim (get_elem? alphabet d) [ none ↦ 0 | some c ↦ c ]

letters_table :
    holds_below (λ d. is (get_elem? alphabet d) (letter d) && is (reverse_alphabet (letter d)) d) 58
    ≡ true
unfolding holds_below reverse_alphabet look_up fill_table letter
letters_table = refl

pub letter_lem :
    (d : ℕ)
    → d < 58
    → (get_elem? alphabet d ≡ some (letter d)) × (reverse_alphabet (letter d) ≡ some d)
letter_lem d h =
    let (there, back) = and_inv _ _ (holds_below_sound _ 58 d h letters_table) in
    (is_inv _ _ there, is_inv _ _ back)

-- Whatever the table gives for a letter is the place of the letter.
abbrev agrees : ℕ → Option ℕ → Bool
agrees c none = true
agrees c (some d) = ltb d 58 && letter d == c

digits_table : holds_below (λ c. agrees c (reverse_alphabet c)) 123 ≡ true
unfolding holds_below reverse_alphabet look_up fill_table letter
digits_table = refl

agrees_inv : (c d : ℕ) (o : Option ℕ) → agrees c o ≡ true → o ≡ some d → (d < 58) × (letter d ≡ c)
agrees_inv c d none h e = absurd (none-ne-some d e)
agrees_inv c d (some e) h same =
    let (small, back) = and_inv _ _ (subst (λ (t : Option ℕ). agrees c t ≡ true) same h) in
    (ltb→lt d 58 small, (==_iff _ _).0 back)

length-fill_table :
    (base : ℕ) (keys : List ℕ) (i : ℕ) (table : List (Option ℕ))
    → length (fill_table base keys i table) ≡ length table
unfolding fill_table
length-fill_table base [] i table = refl
length-fill_table base (key ∷ keys) i table =
    length-fill_table base keys (suc i) (set table (key - base) (some i))
    ∙ length-set table (key - base) (some i)

out_of_table : (table : List (Option ℕ)) (i : ℕ) → length table ≤ i → look_up table i ≡ none
unfolding look_up
out_of_table [] i h = refl
out_of_table (x ∷ table) zero h = absurd (omega arith)
out_of_table (x ∷ table) (suc i) h = out_of_table table i (omega arith)

-- A letter behind 'z' has no entry.
behind : (c : ℕ) → 123 ≤ c → reverse_alphabet c ≡ none
unfolding reverse_alphabet
behind c h =
    let test : ltb c 49 ≡ false = ground arith in
    let empty : List (Option ℕ) = replicate 74 none in
    let out : look_up (fill_table 49 alphabet 0 empty) (c - 49) ≡ none =
      out_of_table (fill_table 49 alphabet 0 empty) (c - 49)
        (omega (arith, length-fill_table 49 alphabet 0 empty)) in
    rw (test, out) refl

pub reverse_alphabet_inv : (c d : ℕ) → reverse_alphabet c ≡ some d → (d < 58) × (letter d ≡ c)
reverse_alphabet_inv c d found = elim (lt-cases c 123) [
  | inl small ↦
      agrees_inv c d (reverse_alphabet c) (holds_below_sound _ 123 c small digits_table) found
  | inr large ↦ absurd (none-ne-some d (sym (behind c large) ∙ found))
]

-- The size of an encoded block.
unfoldable pub encoded_size : ℕ → ℕ
encoded_size n = elim (get_elem? encoded_block_sizes n) [ none ↦ 0 | some s ↦ s ]

abbrev size_test : ℕ → Bool
size_test n =
    is (get_elem? encoded_block_sizes n) (encoded_size n)
    && (is (decoded_block_sizes (encoded_size n)) n
        && (leb (256 ^ n) (58 ^ encoded_size n)
            && (leb (encoded_size n) 11 && (ltb 0 (encoded_size n) || n == 0))))

sizes_table : holds_below size_test 9 ≡ true
unfolding holds_below decoded_block_sizes look_up fill_table encoded_size
sizes_table = refl

pub encoded_size_lem :
    (n : ℕ)
    → 0 < n
    → n ≤ 8
    → (get_elem? encoded_block_sizes n ≡ some (encoded_size n))
      × (decoded_block_sizes (encoded_size n) ≡ some n)
      × (256 ^ n ≤ 58 ^ encoded_size n)
      × (encoded_size n ≤ 11)
      × (0 < encoded_size n)
encoded_size_lem n pos h =
    let (a, r1) = and_inv _ _ (holds_below_sound size_test 9 n (omega arith) sizes_table) in
    let (b, r2) = and_inv _ _ r1 in
    let (c, r3) = and_inv _ _ r2 in
    let (d, e) = and_inv _ _ r3 in
    (is_inv _ _ a, is_inv _ _ b, leb→le _ _ c, leb→le _ _ d, ground (arith, e))

-- What the table of decoded sizes gives for an encoded size of at most 11.
abbrev sizes_agree : ℕ → Option ℕ → Bool
sizes_agree s none = true
sizes_agree s (some n) = leb n 8 && encoded_size n == s

decoded_table : holds_below (λ s. sizes_agree s (decoded_block_sizes s)) 12 ≡ true
unfolding holds_below decoded_block_sizes look_up fill_table encoded_size
decoded_table = refl

sizes_agree_inv :
    (s n : ℕ) (o : Option ℕ) → sizes_agree s o ≡ true → o ≡ some n → (n ≤ 8) × (encoded_size n ≡ s)
sizes_agree_inv s n o h same =
    let (small, back) = and_inv _ _ (subst (λ (t : Option ℕ). sizes_agree s t ≡ true) same h) in
    (leb→le n 8 small, (==_iff _ _).0 back)

pub decoded_block_sizes_inv :
    (s n : ℕ) → s ≤ 11 → decoded_block_sizes s ≡ some n → (n ≤ 8) × (encoded_size n ≡ s)
decoded_block_sizes_inv s n h found =
    sizes_agree_inv s n (decoded_block_sizes s)
      (holds_below_sound _ 12 s (omega arith) decoded_table) found

abbrev short_test : ℕ → Bool
short_test n = leb (encoded_size n) 10 && is (decoded_block_sizes (encoded_size n)) n

short_table : holds_below short_test 8 ≡ true
unfolding holds_below decoded_block_sizes look_up fill_table encoded_size
short_table = refl

-- The sizes of a last block, which may be empty.
pub short_size_lem :
    (n : ℕ) → n < 8 → (encoded_size n ≤ 10) × (decoded_block_sizes (encoded_size n) ≡ some n)
short_size_lem n h =
    let (a, b) = and_inv _ _ (holds_below_sound short_test 8 n h short_table) in
    (leb→le _ _ a, is_inv _ _ b)

pub full_size : encoded_size 8 ≡ 11
unfolding encoded_size
full_size = refl

pub empty_size : encoded_size 0 ≡ 0
unfolding encoded_size
empty_size = refl
