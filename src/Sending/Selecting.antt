-- ===== src/Sending/Selecting.antt =====
-- src/wallet/WalletTransactionSender.cpp: the loop of selectTransfersToSend.
use lira.Prelude.{
  ℕ, zero, suc, ◌+◌, ◌%◌, ◌^◌, ◌≤◌, ◌<◌, ◌≡◌, refl, arith, not, ◌&&◌, ◌||◌, ltb, Bool-cases, inl,
  inr, ◌⊎◌, Bool, true, false, Option, none, some, List, [], ◌∷◌, length, get_elem?,
}
use native.Mathlib.Nat.{mod-eq_of_lt}
use lira.Transfers.{Transfer}
use lira.Sending.{is_empty, draw_index, select_loop}
use lira.Sending.Draw.{sum_by, draw_index_lem}

abbrev pub amount_of : Transfer → ℕ
amount_of t = t.base.amount

length-sum_by : (xs : List ℕ) → sum_by (λ x. 1) xs ≡ length xs
unfolding sum_by
length-sum_by [] = refl
length-sum_by (x ∷ xs) = omega (arith, length-sum_by xs)

module _ (outputs : List Transfer) where
  -- The measure of an output, by its index.
  unfoldable pub at_index : (Transfer → ℕ) → ℕ → ℕ
  at_index f i = elim (get_elem? outputs i) [ none ↦ 0 | some t ↦ f t ]

  unfoldable pub outside : ℕ → ℕ
  outside i = elim (get_elem? outputs i) [ none ↦ 1 | some t ↦ 0 ]

  value_of :
      (r : Option Transfer)
      → (elim r as (λ _. ℕ) [ none ↦ 1 | some t ↦ 0 ]) ≡ 0
      → (t : Transfer) × (r ≡ some t)
        × ((f : Transfer → ℕ) → (elim r as (λ _. ℕ) [ none ↦ 0 | some t ↦ f t ]) ≡ f t)
  value_of none h = absurd (omega arith)
  value_of (some t) h = (t, refl, λ f. refl)

  inside :
      (i : ℕ)
      → outside i ≡ 0
      → (t : Transfer) × (get_elem? outputs i ≡ some t) × ((f : Transfer → ℕ) → at_index f i ≡ f t)
  unfolding outside at_index
  inside i h = value_of (get_elem? outputs i) h

  -- The outputs of two vectors of indices.
  unfoldable pub listed : (Transfer → ℕ) → List ℕ → List ℕ → ℕ
  listed f ts ds = sum_by (at_index f) ts + sum_by (at_index f) ds

  unfoldable pub Selects : ℕ → ℕ → List ℕ → List ℕ → ℕ → List Transfer → Type 0
  Selects needed found ts ds found' selected =
      ((f : Transfer → ℕ) → sum_by f selected ≤ listed f ts ds)
      × (found' ≡ (found + sum_by amount_of selected) % 2 ^ 64)
      × ((needed ≤ found') ⊎ ((f : Transfer → ℕ) → sum_by f selected ≡ listed f ts ds))

  -- One more output in front.
  Selects-more :
      (needed found i : ℕ) (t : Transfer) (ts ds ts' ds' : List ℕ) (found' : ℕ)
      (selected : List Transfer)
      → ((f : Transfer → ℕ) → at_index f i ≡ f t)
      → ((w : ℕ → ℕ) → w i + (sum_by w ts' + sum_by w ds') ≡ sum_by w ts + sum_by w ds)
      → Selects needed ((found + t.base.amount) % 2 ^ 64) ts' ds' found' selected
      → Selects needed found ts ds found' (t ∷ selected)
  unfolding Selects listed sum_by
  Selects-more needed found i t ts ds ts' ds' found' selected value left (most, money, end) = (
    λ f. omega (arith, most f, value f, left (at_index f)),
    omega (arith, money),
    elim end [
      | inl enough ↦ inl enough
      | inr all ↦ inr (λ f. omega (arith, all f, value f, left (at_index f)))
    ],
  )

  none_left :
      (ts ds : List ℕ)
      → (not (is_empty ts) || not (is_empty ds)) ≡ false
      → (w : ℕ → ℕ) → sum_by w ts + sum_by w ds ≡ 0
  unfolding is_empty sum_by
  none_left [] [] h w = refl
  none_left [] (d ∷ ds) h w = absurd (ground arith)
  none_left (t ∷ ts) ds h w = absurd (ground arith)

  Selects-none :
      (needed found : ℕ) (ts ds : List ℕ)
      → found < 2 ^ 64
      → (ltb found needed && (not (is_empty ts) || not (is_empty ds))) ≡ false
      → Selects needed found ts ds found []
  unfolding Selects listed sum_by
  Selects-none needed found ts ds small h = (
    λ f. omega arith,
    omega (arith, mod-eq_of_lt small),
    elim (Bool-cases (ltb found needed)) [
      | inl short ↦ inr (λ f. omega (arith, none_left ts ds (ground arith) (at_index f)))
      | inr enough ↦ inl (ground arith)
    ],
  )

  module _ {G : Type 0} (draw : G → ℕ → ℕ × G) (within : (g : G) (n : ℕ) → (draw g n).0 ≤ n)
      (needed : ℕ) where
    -- The vectors, and the test of the loop.
    module _ (fuel : ℕ) (one : Bool) (ts ds : List ℕ) (g : G) (found : ℕ) where
      abbrev goes_on : Bool
      goes_on = ltb found needed && (not (is_empty ts) || not (is_empty ds))

      last_turn :
          goes_on ≡ false
          → select_loop draw (suc fuel) needed outputs one ts ds g found ≡ some (found, [])
      unfolding select_loop
      last_turn h = rw (h, select_loop) refl

      next_turn :
          (i : ℕ) (ts' ds' : List ℕ) (g' : G) (t : Transfer) (found' : ℕ) (selected : List Transfer)
          → goes_on ≡ true
          → draw_index draw one ts ds g ≡ some (i, ts', ds', g')
          → get_elem? outputs i ≡ some t
          → select_loop draw fuel needed outputs false ts' ds' g' ((found + t.base.amount) % 2 ^ 64)
            ≡ some (found', selected)
          → select_loop draw (suc fuel) needed outputs one ts ds g found
            ≡ some (found', t ∷ selected)
      unfolding select_loop
      next_turn i ts' ds' g' t found' selected h run at_i more =
          rw (h, select_loop, run, at_i, more) refl

    pub select_loop_lem :
        (fuel : ℕ) (one : Bool) (ts ds : List ℕ) (g : G) (found : ℕ)
        → length ts + length ds < fuel
        → (one ≡ true → is_empty ds ≡ false)
        → sum_by outside ts + sum_by outside ds ≡ 0
        → found < 2 ^ 64
        → (found' : ℕ) × (selected : List Transfer) × (select_loop draw fuel needed outputs one ts
              ds g found
            ≡ some (found', selected))
          × Selects needed found ts ds found' selected
    select_loop_lem zero one ts ds g found less dust inner small = absurd (omega arith)
    select_loop_lem (suc fuel) one ts ds g found less dust inner small =
        elim (Bool-cases (ltb found needed && (not (is_empty ts) || not (is_empty ds)))) [
          | inr h ↦ (
            found,
            [],
            last_turn fuel one ts ds g found h,
            Selects-none needed found ts ds small h,
          )
          | inl h ↦
              let (i, ts', ds', g', run, left) =
                draw_index_lem draw within one ts ds g (ground arith) dust in
              let (t, at_i, value) = inside i (omega (arith, left outside)) in
              let (found', selected, more, end) =
                select_loop_lem fuel false ts' ds' g' ((found + t.base.amount) % 2 ^ 64)
                  (omega (
                    arith,
                    left (λ x. 1),
                    length-sum_by ts,
                    length-sum_by ds,
                    length-sum_by ts',
                    length-sum_by ds',
                  ))
                  (λ e. absurd (ground arith)) (omega (arith, left outside)) (omega arith) in
              (
                found',
                t ∷ selected,
                next_turn fuel one ts ds g found i ts' ds' g' t found' selected h run at_i more,
                Selects-more needed found i t ts ds ts' ds' found' selected value left end,
              )
        ]
