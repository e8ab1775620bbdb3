-- ===== src/Sending/Selected.antt =====
-- src/wallet/WalletTransactionSender.cpp: what selectTransfersToSend selects.
use lira.Prelude.{
  ℕ, suc, ◌+◌, ◌%◌, ◌^◌, ◌≤◌, ◌≡◌, refl, ◌∙◌, ap, arith, bit_or, not, ◌&&◌, ltb, Bool-cases, inl,
  inr, ◌⊎◌, Bool, some, List, [], ◌∷◌, length, get_elem?,
}
use lira.Transfers.{Transfer, Container, of_key, bit, count, of_descriptor, spent_of}
use lira.Transfers.Query.{Settings, include_state_unlocked, include_type_key, filter, get_outputs}
use lira.Transfers.Outputs.{Call, run, empty_container}
use lira.Transfers.Listed.{get_outputs_lem}
use lira.Sending.{is_empty, is_used, split_unused, select_transfers_to_send}
use lira.Sending.Draw.{sum_by}
use lira.Sending.Selecting.{amount_of, at_index, outside, listed, Selects, select_loop_lem}

-- The outputs that no transaction on its way uses.
abbrev pub unused : List (ℕ × ℕ) → List Transfer → List Transfer
unused used outputs = filter (λ t. not (is_used used t)) outputs

split_unused_lem :
    (used : List (ℕ × ℕ)) (dust i : ℕ) (outputs : List Transfer) (w : ℕ → ℕ) (f : Transfer → ℕ)
    → ((j : ℕ) (t : Transfer) → get_elem? outputs j ≡ some t → w (i + j) ≡ f t)
    → sum_by w ((split_unused used dust i outputs).0)
        + sum_by w ((split_unused used dust i outputs).1)
      ≡ sum_by f (unused used outputs)
unfolding split_unused sum_by filter
split_unused_lem used dust i [] w f same = refl
split_unused_lem used dust i (t ∷ ts) w f same =
    let rest = split_unused_lem used dust (suc i) ts w f (λ j u e. shifted j ∙ same (suc j) u e) in
    let here : w i ≡ f t = start ∙ same 0 t refl in
    elim (Bool-cases (is_used used t)) [
      | inl h ↦ rw h (omega (arith, rest))
      | inr h ↦ elim (Bool-cases (ltb dust (t.base.amount))) [
        | inl large ↦ rw (h, large) (omega (arith, rest, here))
        | inr small ↦ rw (h, small) (omega (arith, rest, here))
      ]
    ]
  where
    shifted : (j : ℕ) → w (suc i + j) ≡ w (i + suc j)
    shifted j = ap w (omega arith)

    start : w i ≡ w (i + 0)
    start = ap w (omega arith)

sum_by-filter :
    (f : Transfer → ℕ) (p : Transfer → Bool) (ts : List Transfer)
    → sum_by f (filter p ts) ≤ sum_by f ts
unfolding sum_by filter
sum_by-filter f p [] = omega arith
sum_by-filter f p (t ∷ ts) = elim (Bool-cases (p t)) [
  | inl h ↦ rw h (omega (arith, sum_by-filter f p ts))
  | inr h ↦ rw h (omega (arith, sum_by-filter f p ts))
]

sum_by_none : (ts : List Transfer) → sum_by (λ t. 0) ts ≡ 0
unfolding sum_by
sum_by_none [] = refl
sum_by_none (t ∷ ts) = omega (arith, sum_by_none ts)

count-sum_by : (p : Transfer → Bool) (ts : List Transfer) → count p ts ≡ sum_by (λ t. bit (p t)) ts
unfolding sum_by
count-sum_by p [] = refl
count-sum_by p (t ∷ ts) = omega (arith, count-sum_by p ts)

none_used :
    (used : List (ℕ × ℕ)) (ts : List Transfer)
    → sum_by (λ t. bit (is_used used t)) (unused used ts) ≡ 0
unfolding sum_by filter
none_used used [] = refl
none_used used (t ∷ ts) = elim (Bool-cases (is_used used t)) [
  | inl h ↦ rw h (none_used used ts)
  | inr h ↦ rw (h, h) (omega (arith, none_used used ts))
]

-- What getOutputs gives to a wallet that sends.
abbrev pub spendable : Settings → ℕ → Container → List Transfer
spendable settings now c =
    get_outputs settings now (bit_or include_type_key include_state_unlocked) c

-- What is paid with is found, or there is no more.
unfoldable pub Pays : List (ℕ × ℕ) → ℕ → List Transfer → ℕ → List Transfer → Type 0
Pays used needed outputs found selected =
    (count (is_used used) selected ≡ 0)
    × ((p : Transfer → Bool) → count p selected ≤ count p outputs)
    × (found ≡ sum_by amount_of selected % 2 ^ 64)
    × ((needed ≤ found) ⊎ (found ≡ sum_by amount_of (unused used outputs) % 2 ^ 64))

module _ (used : List (ℕ × ℕ)) (needed dust : ℕ) (outputs : List Transfer) where
  abbrev transfers : List ℕ
  transfers = (split_unused used dust 0 outputs).0

  abbrev small : List ℕ
  small = (split_unused used dust 0 outputs).1

  listed-unused :
      (f : Transfer → ℕ) → listed outputs f transfers small ≡ sum_by f (unused used outputs)
  unfolding listed at_index
  listed-unused f =
      split_unused_lem used dust 0 outputs (at_index outputs f) f
        (λ j t e. ap (λ (i : ℕ). at_index outputs f i) start ∙ rw (e, at_index) refl)
    where
      start : {j : ℕ} → 0 + j ≡ j
      start = omega arith

  none_outside : sum_by (outside outputs) transfers + sum_by (outside outputs) small ≡ 0
  unfolding outside
  none_outside =
      split_unused_lem used dust 0 outputs (outside outputs) (λ t. 0)
        (λ j t e. ap (λ (i : ℕ). outside outputs i) start ∙ rw (e, outside) refl)
      ∙ sum_by_none (unused used outputs)
    where
      start : {j : ℕ} → 0 + j ≡ j
      start = omega arith

  Selects-Pays :
      (found : ℕ) (selected : List Transfer)
      → Selects outputs needed 0 transfers small found selected
      → Pays used needed outputs found selected
  unfolding Selects Pays
  Selects-Pays found selected (most, money, end) = (
    omega (
      arith,
      count-sum_by (is_used used) selected,
      most (λ t. bit (is_used used t)),
      listed-unused (λ t. bit (is_used used t)),
      none_used used outputs,
    ),
    λ p. omega (
      arith,
      count-sum_by p selected,
      count-sum_by p outputs,
      most (λ t. bit (p t)),
      listed-unused (λ t. bit (p t)),
      sum_by-filter (λ t. bit (p t)) (λ t. not (is_used used t)) outputs,
    ),
    omega (arith, money),
    elim end [
      | inl enough ↦ inl enough
      | inr all ↦ inr (omega (arith, money, all amount_of, listed-unused amount_of))
    ],
  )

module _ {G : Type 0} (draw : G → ℕ → ℕ × G) (within : (g : G) (n : ℕ) → (draw g n).0 ≤ n)
    (settings : Settings) (now : ℕ) (used : List (ℕ × ℕ)) (needed dust : ℕ) (add_dust : Bool)
    (g : G) where
  -- For a generator that stays within the bound it is given, selectTransfersToSend returns, and
  -- reads no vector outside its range. What it selects is drawn from the outputs of the wallet that are
  -- unlocked, each at most as often as it is listed there, and none that is used; the money found is
  -- their sum, modulo 2^64, and it is what is needed or the sum of all that are not used.
  pub select_transfers_to_send_lem :
      (c : Container)
      → (found : ℕ) × (selected : List Transfer) × (select_transfers_to_send draw settings now c
            used needed add_dust dust g
          ≡ some (found, selected))
        × Pays used needed (spendable settings now c) found selected
  unfolding select_transfers_to_send
  select_transfers_to_send_lem c =
      let outputs = spendable settings now c in
      let (found, selected, run, end) =
        select_loop_lem outputs draw within needed
          (suc
            (length (transfers used needed dust outputs) + length (small used needed dust outputs)))
          (add_dust && not (is_empty (small used needed dust outputs)))
          (transfers used needed dust outputs) (small used needed dust outputs) g 0 (omega arith)
          (λ e. ground arith) (none_outside used needed dust outputs) (omega arith) in
      (found, selected, run, Selects-Pays used needed dust outputs found selected end)

  -- After any calls on an empty container, selectTransfersToSend selects at most one output of each
  -- key image, and none of a key image that was spent.
  pub selected_once :
      (calls : List Call) (c : Container)
      → run calls empty_container ≡ some c
      → (found : ℕ) × (selected : List Transfer) × (select_transfers_to_send draw settings now c
            used needed add_dust dust g
          ≡ some (found, selected))
        × ((k : ℕ)
            → count (of_descriptor (of_key k)) selected + count (spent_of (of_key k)) c.spent ≤ 1)
  unfolding Pays
  selected_once calls c e =
      let (found, selected, run, (not_used, most, money, end)) = select_transfers_to_send_lem c in
      (
        found,
        selected,
        run,
        λ k. omega (
          arith,
          most (of_descriptor (of_key k)),
          get_outputs_lem settings now calls c e (bit_or include_type_key include_state_unlocked) k,
        ),
      )
