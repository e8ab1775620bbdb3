-- ===== src/Amounts/Total.antt =====
-- src/cryptonote_core/cryptonote_format_utils.h: the parts of an amount sum up to it.
use lira.Prelude.{
  ℕ, zero, suc, ◌+◌, ◌*◌, ◌/◌, ◌%◌, ◌^◌, ◌≤◌, ◌<◌, ◌≡◌, refl, ap, ◌∙◌, arith, not, ◌||◌, leb, ◌==◌,
  if◌then◌else◌, Bool, true, false, leb→le, Bool-cases, inl, inr, some, List, [], ◌∷◌, ◌++◌,
}
use native.Mathlib.Nat.{mod-eq_of_lt, pow-suc, div-add-mod, mul-le-mul_right}
use lira.Amounts.{
  Call, dust_handler, chunk_handler, dust_call, chunk_call, digits_loop,
  decompose_amount_into_digits,
}

-- What the handlers are given, in all.
unfoldable pub total : List Call → ℕ
total [] = 0
total (dust_handler v ∷ calls) = v + total calls
total (chunk_handler v ∷ calls) = v + total calls

total-append : (xs ys : List Call) → total (xs ++ ys) ≡ total xs + total ys
unfolding total
total-append [] ys = omega arith
total-append (dust_handler v ∷ xs) ys = omega (arith, total-append xs ys)
total-append (chunk_handler v ∷ xs) ys = omega (arith, total-append xs ys)

-- The dust that the handler was not given yet.
pub waiting : Bool → ℕ → ℕ
waiting is_dust_handled dust = if is_dust_handled then 0 else dust

not_zero : (x : ℕ) → (0 == suc x) ≡ false
not_zero x = ground arith

zero_not : (x : ℕ) → (suc x == 0) ≡ false
zero_not x = ground arith

total-dust_call : (b : Bool) (dust : ℕ) → total (dust_call b dust) ≡ waiting b dust
unfolding total dust_call waiting
total-dust_call true dust = refl
total-dust_call false zero = refl
total-dust_call false (suc dust) = rw (not_zero dust) (omega arith)

total-chunk_call : (chunk : ℕ) → total (chunk_call chunk) ≡ chunk
unfolding total chunk_call
total-chunk_call zero = refl
total-chunk_call (suc chunk) = rw (not_zero chunk) (omega arith)

-- A digit in front of the rest.
split_amount : (a p : ℕ) → a * p ≡ a % 10 * p + a / 10 * (p * 10)
split_amount a p = omega (arith, ap (λ (t : ℕ). t * p) (div-add-mod a 10))

-- The dust that the handler was given.
given : Bool → ℕ → ℕ
given is_dust_handled dust = if is_dust_handled then dust else 0

-- One turn of the loop on a chunk that does not wrap.
module _ (n thr a : ℕ) (b : Bool) (dust order chunk : ℕ) (positive : (a == 0) ≡ false)
    (exact : a % 10 * order % 2 ^ 64 ≡ chunk) (sum : (dust + chunk) % 2 ^ 64 ≡ dust + chunk)
    (rest : List Call) where
  absorbed_turn :
      leb (dust + chunk) thr ≡ true
      → digits_loop n thr (a / 10) b (dust + chunk) (order * 10 % 2 ^ 64) ≡ some rest
      → digits_loop (suc n) thr a b dust order ≡ some rest
  unfolding digits_loop
  absorbed_turn fits run = rw (exact, sum, fits, run, positive) refl

  refused_turn :
      leb (dust + chunk) thr ≡ false
      → digits_loop n thr (a / 10) (b || not (0 == dust)) dust (order * 10 % 2 ^ 64) ≡ some rest
      → digits_loop (suc n) thr a b dust order
        ≡ some ((dust_call b dust ++ chunk_call chunk) ++ rest)
  unfolding digits_loop
  refused_turn fits run = rw (exact, sum, fits, run, positive) refl

last_turn :
    (n thr : ℕ) (b : Bool) (dust order : ℕ)
    → digits_loop (suc n) thr 0 b dust order ≡ some (dust_call b dust)
unfolding digits_loop
last_turn n thr b dust order = refl

-- Dust that was handled is not added to: the next digit is too large, or 0.
given_same :
    (b : Bool) (dust chunk thr p d : ℕ)
    → (b ≡ true → thr < dust + p)
    → chunk ≡ d * p
    → dust + chunk ≤ thr
    → given b (dust + chunk) ≡ given b dust
unfolding given
given_same false dust chunk thr p d inv e h = refl
given_same true dust chunk thr p zero inv e h = omega arith
given_same true dust chunk thr p (suc d) inv e h = absurd (grind (arith, inv refl))

given_none : given false 0 ≡ 0
unfolding given
given_none = refl

total_none : total [] ≡ 0
unfolding total
total_none = refl

given_all : (b : Bool) (dust : ℕ) → given (b || not (0 == dust)) dust ≡ dust
unfolding given
given_all true dust = refl
given_all false zero = refl
given_all false (suc dust) = rw (not_zero dust) refl

waiting-given : (b : Bool) (dust : ℕ) → waiting b dust + given b dust ≡ dust
unfolding waiting given
waiting-given true dust = omega arith
waiting-given false dust = omega arith

next_order : (q p bound : ℕ) → 0 < q → q * (p * 10) < bound → p * 10 < bound
next_order zero p bound h fits = absurd (omega arith)
next_order (suc q) p bound h fits = grind arith

below_next : (dust thr a p : ℕ) → thr < dust + a % 10 * p → thr < dust + p * 10
below_next dust thr a p over = omega (arith, mul-le-mul_right p (digit_small a))
  where
    digit_small : (x : ℕ) → x % 10 ≤ 10
    digit_small x = omega arith

-- From any state of the loop; `p` is the order of the next digit, which `order` is unless it wrapped
-- after the last one.
digits_loop_lem :
    (n thr a : ℕ) (b : Bool) (dust order p : ℕ)
    → a < 10 ^ n
    → (0 < a → order ≡ p)
    → a * p + dust < 2 ^ 64
    → (b ≡ true → thr < dust + p)
    → (calls : List Call) × (digits_loop (suc n) thr a b dust order ≡ some calls)
      × (total calls + given b dust ≡ a * p + dust)
digits_loop_lem n thr zero b dust order p few ord fits inv = (
  dust_call b dust,
  last_turn n thr b dust order,
  omega (arith, total-dust_call b dust, waiting-given b dust),
)
digits_loop_lem zero thr (suc a) b dust order p few ord fits inv = absurd (omega arith)
digits_loop_lem (suc n) thr (suc a) b dust order p few ord fits inv =
    let digit = suc a % 10 in
    let chunk = digit * p in
    let parts = split_amount (suc a) p in
    let exact : digit * order % 2 ^ 64 ≡ chunk =
      ap (λ (o : ℕ). digit * o % 2 ^ 64) (ord (omega arith))
      ∙ mod-eq_of_lt (omega (arith, parts)) in
    let sum : (dust + chunk) % 2 ^ 64 ≡ dust + chunk = mod-eq_of_lt (omega (arith, parts)) in
    let order' = order * 10 % 2 ^ 64 in
    let few' : suc a / 10 < 10 ^ n = omega (arith, pow-suc 10 n) in
    let ord' : 0 < suc a / 10 → order' ≡ p * 10 = λ more.
      ap (λ (o : ℕ). o * 10 % 2 ^ 64) (ord (omega arith))
      ∙ mod-eq_of_lt (next_order (suc a / 10) p (2 ^ 64) more (omega (arith, parts))) in
    elim (Bool-cases (leb (dust + chunk) thr)) [
      | inl fit ↦
          let same = given_same b dust chunk thr p digit inv refl (leb→le _ _ fit) in
          let (rest, run, all) =
            digits_loop_lem n thr (suc a / 10) b (dust + chunk) order' (p * 10) few' ord'
              (omega (arith, parts)) (λ h. omega (arith, inv h)) in
          (
            rest,
            absorbed_turn (suc n) thr (suc a) b dust order chunk (zero_not a) exact sum rest fit
                run,
            omega (arith, parts, same, all),
          )
      | inr refused ↦
          let over : thr < dust + chunk = ground arith in
          let b' = b || not (0 == dust) in
          let (rest, run, all) =
            digits_loop_lem n thr (suc a / 10) b' dust order' (p * 10) few' ord'
              (omega (arith, parts)) (λ h. below_next dust thr (suc a) p over) in
          (
            (dust_call b dust ++ chunk_call chunk) ++ rest,
            refused_turn (suc n) thr (suc a) b dust order chunk (zero_not a) exact sum rest refused
                run,
            omega (
              arith,
              parts,
              all,
              given_all b dust,
              waiting-given b dust,
              total-dust_call b dust,
              total-chunk_call chunk,
              total-append (dust_call b dust) (chunk_call chunk),
              total-append (dust_call b dust ++ chunk_call chunk) rest,
            ),
          )
    ]

-- No unit is lost or made: for any amount of 64 bits and any threshold, decompose_amount_into_digits
-- returns, and what it calls the handlers with sums up to the amount.
pub decompose_amount_into_digits_lem :
    (amount dust_threshold : ℕ)
    → amount < 2 ^ 64
    → (calls : List Call) × (decompose_amount_into_digits amount dust_threshold ≡ some calls)
      × (total calls ≡ amount)
unfolding decompose_amount_into_digits
decompose_amount_into_digits_lem zero thr h = ([], refl, total_none)
decompose_amount_into_digits_lem (suc a) thr h =
    let (calls, run, all) =
      digits_loop_lem 20 thr (suc a) false 0 1 1 (omega arith) (λ more. refl) (omega arith)
        (λ no_dust. absurd (ground arith)) in
    (calls, rw (not_zero a) run, omega (arith, all, given_none))
