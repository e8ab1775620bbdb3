-- ===== src/Difficulty/Retarget.antt =====
-- src/cryptonote_core/Currency.cpp: the difficulty of the next block from the timestamps and the
-- cumulative difficulties of the last ones.
use lira.Prelude.{
  ℕ, zero, suc, ◌+◌, ◌-◌, ◌*◌, ◌/◌, ◌%◌, ◌^◌, ◌≤◌, ◌<◌, ◌≡◌, ◌⊎◌, inl, inr, refl, ap, subst, min,
  ◌∙◌, arith, not, ◌&&◌, ◌||◌, ltb, leb, lt→ltb, le→leb, lt→not_leb, le→not_ltb, lt-cases, true,
  false, ◌==◌, if◌then◌else◌, Option, some, ◌>>=◌, ◌>>◌, assert, List, ◌++◌, length, get_elem?,
  take, replicate,
}
use native.Mathlib.Nat.{div-add-mod, mod-lt, mul_comm}
use lira.IntUtil.{mul128}
use lira.IntUtil.Product.{mul128_lem}

-- cutBegin and cutEnd.
unfoldable pub cut_window : ℕ → ℕ → ℕ → Option (ℕ × ℕ)
cut_window difficulty_window difficulty_cut len =
    let kept = (difficulty_window + 2 ^ 64 - 2 * difficulty_cut % 2 ^ 64) % 2 ^ 64 in
    let begin = if leb len kept then 0 else ((len + 2 ^ 64 - kept + 1) % 2 ^ 64 / 2) in
    let end = if leb len kept then len else ((begin + kept) % 2 ^ 64) in
    assert (leb (2 * difficulty_cut % 2 ^ 64) (difficulty_window - 2))
    >> assert (leb (begin + 2) end && leb end len)
    >> some (begin, end)

-- if (high != 0 || low + timeSpan - 1 < low) return 0; return (low + timeSpan - 1) / timeSpan;
unfoldable pub rounded : ℕ → ℕ → ℕ → ℕ
rounded low high time_span =
    let sum = (low + time_span + 2 ^ 64 - 1) % 2 ^ 64 in
    if not (high == 0) || ltb sum low then 0 else (sum / time_span)

-- The work in the time of a block, rounded up, or 0 when the sum wraps.
unfoldable pub retarget : ℕ → ℕ → ℕ → Option ℕ
retarget total_work time_span difficulty_target =
    mul128 total_work difficulty_target >>= λ (low, high). some (rounded low high time_span)

-- `sort` is that of the standard library.
module _ (sort : List ℕ → List ℕ) where
  unfoldable pub resize : ℕ → List ℕ → List ℕ
  resize n xs = take n xs ++ replicate (n - length xs) 0

  unfoldable pub next_difficulty : ℕ → ℕ → ℕ → List ℕ → List ℕ → Option ℕ
  next_difficulty window cut target all_timestamps all_difficulties =
      let longer = ltb window (length all_timestamps) in
      let timestamps = if longer then resize window all_timestamps else all_timestamps in
      let difficulties = if longer then resize window all_difficulties else all_difficulties in
      let len = length timestamps in
      let sorted = sort timestamps in
      let retargeted = cut_window window cut len >>= λ (begin, end).
      get_elem? sorted (end - 1) >>= λ last_time. get_elem? sorted begin >>= λ first_time.
      get_elem? difficulties (end - 1) >>= λ last_work.
      get_elem? difficulties begin >>= λ first_work.
      let span = (last_time + 2 ^ 64 - first_time) % 2 ^ 64 in
      let total_work = (last_work + 2 ^ 64 - first_work) % 2 ^ 64 in
      assert (ltb 0 total_work) >> retarget total_work (if span == 0 then 1 else span) target in
      assert (leb 2 window)
      >> assert (len == length difficulties)
      >> assert (leb len window)
      >> (if leb len 1 then some 1 else retargeted)

-- The least difficulty at which the work takes the time, or 0 where the sum before the division does
-- not fit 64 bits.
unfoldable pub IsRetarget : ℕ → ℕ → ℕ → Type 0
IsRetarget work span r =
    ((r ≡ 0) × (2 ^ 64 ≤ work + (span - 1)))
    ⊎ ((work + (span - 1) < 2 ^ 64) × (work ≤ r * span) × (r * span < work + span))

rounded_lem :
    (low high span : ℕ)
    → low < 2 ^ 64
    → span < 2 ^ 64
    → 0 < span
    → IsRetarget (low + 2 ^ 64 * high) span (rounded low high span)
unfolding rounded IsRetarget
rounded_lem low (suc high) span hl hs positive =
    let big : (suc high == 0) ≡ false = ground arith in rw big (inl (refl, omega arith))
rounded_lem low zero span hl hs positive = elim (lt-cases (low + (span - 1)) (2 ^ 64)) [
  | inl fits ↦
      let sum : (low + span + 2 ^ 64 - 1) % 2 ^ 64 ≡ low + (span - 1) = omega arith in
      let no_carry : ltb (low + (span - 1)) low ≡ false = le→not_ltb _ _ (omega arith) in
      let divided = div-add-mod (low + (span - 1)) span in
      let below = mod-lt (low + (span - 1)) positive in
      rw (sum, no_carry)
        (inr (omega arith, grind (arith, divided, below), grind (arith, divided, below)))
  | inr wraps ↦
      let carry : ltb ((low + span + 2 ^ 64 - 1) % 2 ^ 64) low ≡ true = lt→ltb _ _ (omega arith) in
      rw carry (inl (refl, omega arith))
]

pub retarget_lem :
    (work span target : ℕ)
    → work < 2 ^ 64
    → span < 2 ^ 64
    → target < 2 ^ 64
    → 0 < span
    → (r : ℕ) × (retarget work span target ≡ some r) × IsRetarget (work * target) span r
unfolding retarget
retarget_lem work span target hw hs ht positive =
    let ((low, high), run, product) = mul128_lem work target hw ht in
    (
      rounded low high span,
      rw run refl,
      subst (λ (w : ℕ). IsRetarget w span (rounded low high span))
          (ap (λ (t : ℕ). low + t) (mul_comm (2 ^ 64) high) ∙ product.0)
          (rounded_lem low high span product.1 hs positive),
    )

pub cut_window_lem :
    (window cut len : ℕ)
    → window < 2 ^ 64
    → 2 * cut + 2 ≤ window
    → 2 ≤ len
    → len ≤ window
    → (begin : ℕ) × (end : ℕ) × (cut_window window cut len ≡ some (begin, end))
      × (begin < end - 1)
      × (end ≤ len)
      × (begin ≡ (len - (window - 2 * cut) + 1) / 2)
      × (end ≡ begin + min len (window - 2 * cut))
unfolding cut_window
cut_window_lem window cut len hw hc two fits =
    let room : leb (2 * cut % 2 ^ 64) (window - 2) ≡ true = le→leb _ _ (omega arith) in
    let kept_is : (window + 2 ^ 64 - 2 * cut % 2 ^ 64) % 2 ^ 64 ≡ window - 2 * cut = omega arith in
    elim (lt-cases (window - 2 * cut) len) [
      | inl longer ↦
          let begin = (len - (window - 2 * cut) + 1) / 2 in
          let end = begin + (window - 2 * cut) in
          let begin_is : (len + 2 ^ 64 - (window - 2 * cut) + 1) % 2 ^ 64 / 2 ≡ begin =
            omega arith in
          let end_is : (begin + (window - 2 * cut)) % 2 ^ 64 ≡ end = omega arith in
          (
            begin,
            end,
            rw
                (
                  room,
                  kept_is,
                  lt→not_leb len (window - 2 * cut) longer,
                  begin_is,
                  end_is,
                  le→leb (begin + 2) end (omega arith),
                  le→leb end len (omega arith),
                )
                refl,
            omega arith,
            omega arith,
            refl,
            omega arith,
          )
      | inr shorter ↦ (
        0,
        len,
        rw
            (
              room,
              kept_is,
              le→leb len (window - 2 * cut) shorter,
              le→leb 2 len two,
              le→leb len len (omega arith),
            )
            refl,
        omega arith,
        omega arith,
        omega arith,
        omega arith,
      )
    ]
