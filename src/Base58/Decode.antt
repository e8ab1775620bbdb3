-- ===== src/Base58/Decode.antt =====
-- src/common/base58.cpp: decode_block undoes encode_block, and accepts nothing else.
use lira.Prelude.{
  ℕ, zero, suc, ◌+◌, ◌-◌, ◌*◌, ◌/◌, ◌%◌, ◌^◌, ◌≤◌, ◌<◌, ◌≡◌, refl, sym, ap, ◌∙◌, inl, inr, Bool,
  true, false, not, ◌||◌, ltb, ◌==◌, lt-cases, Bool-cases, if◌then◌else◌, Option, none, some,
  some-injective, none-ne-some, Option-cases, List, [], ◌∷◌, length, arith,
}
use mathlib.Core.List.{reverse, reverse-append}
use native.Mathlib.Nat.{pow-suc, pow-le-pow_right, div-add-mod}
use lira.IntUtil.{mul128}
use lira.IntUtil.Product.{mul128_lem}
use lira.Base58.{reverse_alphabet, decode_loop}
use lira.Base58.Digits.{digits_of}
use lira.Base58.Letters.{letter, letter_lem, reverse_alphabet_inv}
use lira.Base58.Block.{letters, letters-suc}

-- One letter.
decode_run :
    (c d lo hi acc order : ℕ) (rest : List ℕ)
    → reverse_alphabet c ≡ some d
    → mul128 order d ≡ some (lo, hi)
    → decode_loop (c ∷ rest) acc order ≡ (
        if ltb ((acc + lo) % 2 ^ 64) acc || not (hi == 0)
        then none
        else decode_loop rest ((acc + lo) % 2 ^ 64) (order * 58 % 2 ^ 64))
unfolding decode_loop
decode_run c d lo hi acc order rest e1 e2 = rw (e1, e2) refl

decode_step :
    (c d acc order : ℕ) (rest : List ℕ)
    → reverse_alphabet c ≡ some d
    → d < 58
    → order < 2 ^ 64
    → acc + order * d < 2 ^ 64
    → decode_loop (c ∷ rest) acc order ≡ decode_loop rest (acc + order * d) (order * 58 % 2 ^ 64)
decode_step c d acc order rest e small ho fits =
    let ((lo, hi), run, (whole, hl, hh)) = mul128_lem order d ho (omega arith) in
    let no_high : hi ≡ 0 = omega arith in
    let low : (acc + lo) % 2 ^ 64 ≡ acc + order * d = omega arith in
    let t1 : ltb (acc + order * d) acc ≡ false = ground arith in
    let t2 : (hi == 0) ≡ true = ground arith in
    decode_run c d lo hi acc order rest e run ∙ rw (low, t1, t2) refl

no_letter :
    (c acc order : ℕ) (rest : List ℕ)
    → reverse_alphabet c ≡ none
    → decode_loop (c ∷ rest) acc order ≡ none
unfolding decode_loop
no_letter c acc order rest e = rw e refl

pick_none : (test : Bool) (next : Option ℕ) → test ≡ true → (if test then none else next) ≡ none
pick_none test next h = rw h refl

pick_next : (test : Bool) (next : Option ℕ) → test ≡ false → (if test then none else next) ≡ next
pick_next test next h = rw h refl

-- The test for an overflow fails exactly where there is none.
no_overflow :
    (acc order d lo hi : ℕ)
    → acc < 2 ^ 64
    → lo + hi * 2 ^ 64 ≡ order * d
    → lo < 2 ^ 64
    → (ltb ((acc + lo) % 2 ^ 64) acc || not (hi == 0)) ≡ false
    → (acc + order * d < 2 ^ 64) × ((acc + lo) % 2 ^ 64 ≡ acc + order * d)
no_overflow acc order d lo hi ha whole hl good =
    let no_high : hi ≡ 0 = ground arith in
    let larger : acc ≤ (acc + lo) % 2 ^ 64 = ground arith in
    (omega (arith, no_high, larger), omega (arith, no_high, larger))

decode_inv :
    (c acc order r : ℕ) (rest : List ℕ)
    → acc < 2 ^ 64
    → order < 2 ^ 64
    → decode_loop (c ∷ rest) acc order ≡ some r
    → (d : ℕ) × (reverse_alphabet c ≡ some d)
      × (d < 58)
      × (letter d ≡ c)
      × (acc + order * d < 2 ^ 64)
      × (decode_loop rest (acc + order * d) (order * 58 % 2 ^ 64) ≡ some r)
decode_inv c acc order r rest ha ho done = elim (Option-cases (reverse_alphabet c)) [
  | inl unknown ↦ absurd (none-ne-some r (sym (no_letter c acc order rest unknown) ∙ done))
  | inr (d, e) ↦
      let (small, back) = reverse_alphabet_inv c d e in
      let ((lo, hi), run, (whole, hl, hh)) = mul128_lem order d ho (omega (arith, small)) in
      let step = decode_run c d lo hi acc order rest e run in
      let test = ltb ((acc + lo) % 2 ^ 64) acc || not (hi == 0) in
      let next = decode_loop rest ((acc + lo) % 2 ^ 64) (order * 58 % 2 ^ 64) in
      elim (Bool-cases test) [
        | inl over ↦ absurd (none-ne-some r (sym (step ∙ pick_none test next over) ∙ done))
        | inr good ↦
            let (fits, exact) = no_overflow acc order d lo hi ha whole hl good in
            (
              d,
              e,
              small,
              back,
              fits,
              ap (λ (t : ℕ). decode_loop rest t (order * 58 % 2 ^ 64)) (sym exact)
                  ∙ sym (step ∙ pick_next test next good)
                  ∙ done,
            )
      ]
]

-- The letters of a number give the number back, at the place that `order` stands for.
pub decode-letters :
    (n num acc order : ℕ)
    → num < 58 ^ n
    → order < 2 ^ 64
    → acc + num * order < 2 ^ 64
    → decode_loop (reverse (letters n num)) acc order ≡ some (acc + num * order)
unfolding digits_of decode_loop
decode-letters zero num acc order fits ho room =
    let nothing : num ≡ 0 = omega (arith, fits) in ap some (rw nothing (omega arith))
decode-letters (suc n) num acc order fits ho room =
    let d = num % 58 in
    let (there, back) = letter_lem d (omega arith) in
    let start : reverse (letters (suc n) num) ≡ letter d ∷ reverse (letters n (num / 58)) =
      ap reverse (letters-suc n num) ∙ reverse-append (letters n (num / 58)) (letter d ∷ []) in
    let split : num * order ≡ num / 58 * (order * 58) + order * d =
      omega (arith, ap (λ (t : ℕ). t * order) (div-add-mod num 58)) in
    let fits' : num / 58 < 58 ^ n = omega (arith, pow-suc 58 n, fits) in
    ap (λ (t : List ℕ). decode_loop t acc order) start
    ∙ decode_step (letter d) d acc order (reverse (letters n (num / 58))) back (omega arith) ho
        (omega (arith, split))
    ∙ elim (lt-cases 0 (num / 58)) [
      | inr nothing ↦
          let z : num / 58 ≡ 0 = omega (arith, nothing) in
          decode-letters n (num / 58) (acc + order * d) (order * 58 % 2 ^ 64) fits' (omega arith)
            (rw z (omega (arith, split)))
          ∙ ap some (rw z (omega (arith, split, z, ap (λ (t : ℕ). t * (order * 58)) z)))
      | inl more ↦
          let (k, e) : (k : ℕ) × (num / 58 ≡ suc k) = (num / 58 - 1, omega (arith, more)) in
          let exact : order * 58 % 2 ^ 64 ≡ order * 58 =
            omega (arith, split, ap (λ (t : ℕ). t * (order * 58)) e, room) in
          rw exact (
            decode-letters n (num / 58) (acc + order * d) (order * 58) fits' (omega (arith, exact))
              (omega (arith, split, room))
            ∙ ap some (omega (arith, split)))
    ]

-- One more letter in front of a reversed list.
extended :
    (n v d c : ℕ) (ls : List ℕ)
    → d < 58
    → letter d ≡ c
    → v < 58 ^ n
    → reverse (letters n v) ≡ ls
    → (v * 58 + d < 58 ^ suc n) × (reverse (letters (suc n) (v * 58 + d)) ≡ c ∷ ls)
extended n v d c ls small same fits back =
    let high : (v * 58 + d) / 58 ≡ v = omega arith in
    let low : (v * 58 + d) % 58 ≡ d = omega arith in
    (
      omega (arith, pow-suc 58 n),
      ap reverse (letters-suc n (v * 58 + d))
          ∙ reverse-append (letters n ((v * 58 + d) / 58)) (letter ((v * 58 + d) % 58) ∷ [])
          ∙ rw (high, low) (ap (λ (t : List ℕ). letter d ∷ t) back ∙ ap (λ (t : ℕ). t ∷ ls) same),
    )

order_fits : (k : ℕ) → k ≤ 10 → 58 ^ k < 2 ^ 64
order_fits k h =
    let most : 58 ^ k ≤ 58 ^ 10 = pow-le-pow_right {n = 58} (omega arith) {i = k} {j = 10} h in
    omega (arith, most)

-- A reversed list of letters that is accepted is that of a number, which it adds.
pub accepted :
    (k n acc r : ℕ) (ls : List ℕ)
    → length ls ≡ n
    → k + n ≤ 11
    → acc < 2 ^ 64
    → decode_loop ls acc (58 ^ k) ≡ some r
    → (v : ℕ) × (r ≡ acc + v * 58 ^ k) × (r < 2 ^ 64) × (v < 58 ^ n) × (reverse (letters n v) ≡ ls)
unfolding decode_loop digits_of
accepted k zero acc r [] len places ha done = (
  0,
  omega (arith, some-injective _ _ done),
  omega (arith, some-injective _ _ done),
  omega arith,
  refl,
)
accepted k (suc n) acc r [] len places ha done = absurd (omega arith)
accepted k zero acc r (c ∷ ls) len places ha done = absurd (omega arith)
accepted k (suc (suc n)) acc r (c ∷ []) len places ha done = absurd (omega arith)
accepted k (suc zero) acc r (c ∷ []) len places ha done =
    let (d, e, small, same, fits, rest) =
      decode_inv c acc (58 ^ k) r [] ha (order_fits k (omega arith)) done in
    let (room, back) = extended 0 0 d c [] small same (omega arith) refl in
    (
      d,
      omega (arith, some-injective _ _ rest),
      omega (arith, some-injective _ _ rest, fits),
      omega (arith, room),
      ap (λ (t : ℕ). reverse (letters 1 t)) {x = d} {y = 0 * 58 + d} (omega arith) ∙ back,
    )
accepted k (suc n) acc r (c ∷ c' ∷ ls) len places ha done =
    let (d, e, small, same, fits, rest) =
      decode_inv c acc (58 ^ k) r (c' ∷ ls) ha (order_fits k (omega arith)) done in
    let order : 58 ^ k * 58 % 2 ^ 64 ≡ 58 ^ suc k =
      omega (arith, pow-suc 58 k, order_fits (suc k) (omega arith)) in
    let (v, sum, word, small_v, back) =
      accepted (suc k) n (acc + 58 ^ k * d) r (c' ∷ ls) (omega arith) (omega arith) fits
        (ap (decode_loop (c' ∷ ls) (acc + 58 ^ k * d)) (sym order) ∙ rest) in
    let (room, whole) = extended n v d c (c' ∷ ls) small same small_v back in
    (v * 58 + d, omega (arith, sum, ap (λ (t : ℕ). v * t) (pow-suc 58 k)), word, room, whole)
