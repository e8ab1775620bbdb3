-- ===== src/Transfers/Listed.antt =====
-- src/transfers/TransfersContainer.cpp: getOutputs and balance.
use lira.Prelude.{
  ℕ, ◌+◌, ◌%◌, ◌^◌, ◌≤◌, ◌≡◌, refl, sym, ◌∙◌, arith, bit_and, Bool, true, false, not, ◌&&◌, ◌==◌,
  Bool-cases, inl, inr, some, List, [], ◌∷◌, ◌++◌, append-nil,
}
use lira.Transfers.{Transfer, Container, of_key, bit, count, of_descriptor, spent_of}
use lira.Transfers.Query.{
  Settings, filter, sum_amounts, is_listed, is_listed_locked, is_included, is_included_state,
  add_unconfirmed, add_available, balance, get_outputs, include_state_locked,
}
use lira.Transfers.Shown.{shown}
use lira.Transfers.Settled.{expected_available, expected_unconfirmed, Settled, AllSettled}
use lira.Transfers.Outputs.{Call, run, empty_container, run-AllSettled}

count-append :
    (p : Transfer → Bool) (xs ys : List Transfer) → count p (xs ++ ys) ≡ count p xs + count p ys
count-append p [] ys = omega arith
count-append p (x ∷ xs) ys = omega (arith, count-append p xs ys)

seen : (a v g : Bool) → (v && g) ≡ true → bit a ≤ bit (a && v)
seen true true g h = omega arith
seen true false g h = absurd (ground arith)
seen false v g h = omega arith

-- Only visible outputs are listed.
filter-shown :
    (k : ℕ) (g : Transfer → Bool) (ts : List Transfer)
    → count (of_descriptor (of_key k)) (filter (λ t. t.visible && g t) ts) ≤ count (shown k) ts
unfolding filter
filter-shown k g [] = omega arith
filter-shown k g (t ∷ ts) = elim (Bool-cases (t.visible && g t)) [
  | inl h ↦
      rw h
        (omega (arith, filter-shown k g ts, seen (of_descriptor (of_key k) t) (t.visible) (g t) h))
  | inr h ↦ rw h (omega (arith, filter-shown k g ts))
]

at_most_one : (s a u : ℕ) → s ≤ 1 → expected_available s a + expected_unconfirmed s a u + s ≤ 1
unfolding expected_available expected_unconfirmed
at_most_one s a u h = ground arith

sum_amounts-append :
    (acc : ℕ) (xs ys : List Transfer)
    → sum_amounts acc (xs ++ ys) ≡ sum_amounts (sum_amounts acc xs) ys
unfolding sum_amounts
sum_amounts-append acc [] ys = refl
sum_amounts-append acc (x ∷ xs) ys = sum_amounts-append ((acc + x.base.amount) % 2 ^ 64) xs ys

add_unconfirmed_lem :
    (flags : ℕ) (ts : List Transfer) (acc : ℕ)
    → add_unconfirmed flags ts acc ≡ sum_amounts acc (filter (is_listed_locked flags) ts)
unfolding add_unconfirmed sum_amounts filter
add_unconfirmed_lem flags [] acc = refl
add_unconfirmed_lem flags (t ∷ ts) acc = elim (Bool-cases (is_listed_locked flags t)) [
  | inl h ↦ rw h (add_unconfirmed_lem flags ts ((acc + t.base.amount) % 2 ^ 64))
  | inr h ↦ rw h (add_unconfirmed_lem flags ts acc)
]

module _ (settings : Settings) (now : ℕ) where
  add_available_lem :
      (c : Container) (flags : ℕ) (ts : List Transfer) (acc : ℕ)
      → add_available settings now c flags ts acc
        ≡ sum_amounts acc (filter (is_listed settings now c flags) ts)
  unfolding add_available sum_amounts filter
  add_available_lem c flags [] acc = refl
  add_available_lem c flags (t ∷ ts) acc = elim (Bool-cases (is_listed settings now c flags t)) [
    | inl h ↦ rw h (add_available_lem c flags ts ((acc + t.base.amount) % 2 ^ 64))
    | inr h ↦ rw h (add_available_lem c flags ts acc)
  ]

  -- balance is the sum, in 64 bits, of the outputs that getOutputs lists under the same flags.
  pub balance_lem :
      (flags : ℕ) (c : Container)
      → balance settings now flags c ≡ sum_amounts 0 (get_outputs settings now flags c)
  unfolding balance get_outputs
  balance_lem flags c =
      let first = add_available_lem c flags (c.available) 0 in
      elim (Bool-cases (not (bit_and flags include_state_locked == 0))) [
        | inl h ↦
            rw (h, first)
              (add_unconfirmed_lem flags (c.unconfirmed) _
                ∙ sym (
                    sum_amounts-append 0 (filter (is_listed settings now c flags) (c.available))
                      (filter (is_listed_locked flags) (c.unconfirmed))))
        | inr h ↦
            rw (h, first, append-nil (filter (is_listed settings now c flags) (c.available))) refl
      ]

  listed_shown :
      (k flags : ℕ) (c : Container)
      → count (of_descriptor (of_key k)) (get_outputs settings now flags c)
        ≤ count (shown k) c.unconfirmed + count (shown k) c.available
  unfolding get_outputs
  listed_shown k flags c =
      let first = filter-shown k (is_included settings now c flags) (c.available) in
      elim (Bool-cases (not (bit_and flags include_state_locked == 0))) [
        | inl h ↦ rw h (
            omega (
              arith,
              first,
              count-append (of_descriptor (of_key k))
                  (filter (is_listed settings now c flags) (c.available))
                  (filter (is_listed_locked flags) (c.unconfirmed)),
              filter-shown k (λ t. is_included_state (t.base.kind) include_state_locked flags)
                  (c.unconfirmed),
            ))
        | inr h ↦
            rw (h, append-nil (filter (is_listed settings now c flags) (c.available)))
              (omega (arith, first))
      ]

  -- After any calls on an empty container, and for any flags, time and key image: getOutputs lists at
  -- most one output of the key image, and none if one of its outputs is spent.
  pub get_outputs_lem :
      (calls : List Call) (c : Container)
      → run calls empty_container ≡ some c
      → (flags k : ℕ)
      → count (of_descriptor (of_key k)) (get_outputs settings now flags c)
          + count (spent_of (of_key k)) c.spent
        ≤ 1
  unfolding AllSettled Settled
  get_outputs_lem calls c e flags k =
      let (once, available_is, unconfirmed_is) = run-AllSettled calls c e k in
      omega (arith, listed_shown k flags c, available_is, unconfirmed_is, at_most_one _ _ _ once)
