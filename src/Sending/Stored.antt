-- ===== src/Sending/Stored.antt =====
-- src/wallet/WalletUnconfirmedTransactions.cpp: the set of used outputs, and those of the entries.
use lira.Prelude.{
  ℕ, ◌≡◌, refl, sym, ap, ◌∙◌, arith, ltb, not, ◌&&◌, ◌||◌, Bool-cases, inl, inr, Bool, true, false,
  List, [], ◌∷◌,
}
use lira.Transfers.{count}
use lira.Sending.Unconfirmed.{
  OutputId, same_id, is_member, insert_id, insert_ids, erase_id, erase_ids,
}

pub same_id→eq : (a b : OutputId) → same_id a b ≡ true → a ≡ b
unfolding same_id
same_id→eq (k, i) (k', i') h =
    let keys : k ≡ k' = ground arith in
    let indices : i ≡ i' = ground arith in rw (keys, indices) refl

is_member-insert_id :
    (id x : OutputId) (xs : List OutputId)
    → is_member id (insert_id x xs) ≡ (same_id id x || is_member id xs)
unfolding insert_id is_member
is_member-insert_id id x xs = elim (Bool-cases (is_member x xs)) [
  | inl h ↦ rw h (elim (Bool-cases (same_id id x)) [
    | inl e ↦ rw e (ap (λ (y : OutputId). is_member y xs) (same_id→eq id x e) ∙ h)
    | inr e ↦ rw e refl
  ])
  | inr h ↦ rw h refl
]

pub is_member-insert_ids :
    (id : OutputId) (ids xs : List OutputId)
    → is_member id (insert_ids ids xs) ≡ (is_member id ids || is_member id xs)
unfolding insert_ids is_member
is_member-insert_ids id [] xs = refl
is_member-insert_ids id (x ∷ ids) xs =
    is_member-insert_ids id ids (insert_id x xs)
    ∙ ap (λ (b : Bool). is_member id ids || b) (is_member-insert_id id x xs)
    ∙ swapped (is_member id ids) (same_id id x) (is_member id xs)
  where
    swapped : (a b c : Bool) → (a || (b || c)) ≡ ((b || a) || c)
    swapped true true c = refl
    swapped true false c = refl
    swapped false true c = refl
    swapped false false c = refl

is_member-erase_id :
    (id x : OutputId) (xs : List OutputId)
    → is_member id (erase_id x xs) ≡ (not (same_id id x) && is_member id xs)
unfolding erase_id is_member
is_member-erase_id id x [] = ground arith
is_member-erase_id id x (y ∷ ys) = elim (Bool-cases (same_id x y)) [
  | inl h ↦ rw h (is_member-erase_id id x ys ∙ gone (same_id→eq x y h))
  | inr h ↦ rw h (ap (λ (b : Bool). same_id id y || b) (is_member-erase_id id x ys) ∙ kept h)
]
  where
    gone :
        x ≡ y
        → (not (same_id id x) && is_member id ys)
          ≡ (not (same_id id x) && (same_id id y || is_member id ys))
    gone e = rw (sym e) (outside (same_id id x) (is_member id ys))
      where
        outside : (a b : Bool) → (not a && b) ≡ (not a && (a || b))
        outside true b = refl
        outside false b = refl

    kept :
        same_id x y ≡ false
        → (same_id id y || (not (same_id id x) && is_member id ys))
          ≡ (not (same_id id x) && (same_id id y || is_member id ys))
    kept h = elim (Bool-cases (same_id id x)) [
      | inl e ↦
          let other : same_id id y ≡ false =
            ap (λ (z : OutputId). same_id z y) (same_id→eq id x e) ∙ h in
          rw (e, other) refl
      | inr e ↦ rw e refl
    ]

pub is_member-erase_ids :
    (id : OutputId) (ids xs : List OutputId)
    → is_member id (erase_ids ids xs) ≡ (not (is_member id ids) && is_member id xs)
unfolding erase_ids is_member
is_member-erase_ids id [] xs = refl
is_member-erase_ids id (x ∷ ids) xs =
    is_member-erase_ids id ids (erase_id x xs)
    ∙ ap (λ (b : Bool). not (is_member id ids) && b) (is_member-erase_id id x xs)
    ∙ both (is_member id ids) (same_id id x) (is_member id xs)
  where
    both : (a b c : Bool) → (not a && (not b && c)) ≡ (not (b || a) && c)
    both true true c = refl
    both true false c = refl
    both false true c = refl
    both false false c = refl

-- How often a list has an id.
abbrev pub times : OutputId → List OutputId → ℕ
times id ids = count (same_id id) ids

pub is_member-times :
    (id : OutputId) (ids : List OutputId) → is_member id ids ≡ ltb 0 (times id ids)
unfolding is_member
is_member-times id [] = refl
is_member-times id (x ∷ ids) = elim (Bool-cases (same_id id x)) [
  | inl h ↦ rw h (ground arith)
  | inr h ↦ rw h (is_member-times id ids ∙ ap (ltb 0) (omega arith))
]
