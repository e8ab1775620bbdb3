-- ===== src/Transfers/Counts.antt =====
-- src/transfers/TransfersContainer.cpp: how many elements of a range there are after each change.
use lira.Prelude.{
  ℕ, zero, suc, ◌+◌, ◌≤◌, ◌≡◌, ◌≢◌, inl, inr, refl, ap, arith, Bool, true, false, ==_iff,
  Bool-cases, if◌then◌else◌, Option, none, some, some-injective, none-ne-some, List, [], ◌∷◌, set,
  get_elem?, subst,
}
use lira.Transfers.{
  Transfer, TransferIn, Container, Outcome, done, threw, failed, ◌>>=◌, ◌>>◌, check, throw_if,
  Descriptor, of_key, of_multisignature, descriptor_of, same_descriptor, has_descriptor, bit, count,
}
use lira.Transfers.Add.{remove_at}
use lira.Transfers.Delete.{take_first}

-- What holds after a call: `P` for the state that an exception leaves, `Q` for a result.
unfoldable pub Ends : {S : Type 0} → (Container → Type 0) → (S → Type 0) → Outcome S → Type 0
Ends P Q (done s) = Q s
Ends P Q (threw c) = P c
Ends P Q failed = Unit

pub Ends-done :
    {S : Type 0} (P : Container → Type 0) (Q : S → Type 0) (s : S) → Q s → Ends P Q (done s)
unfolding Ends
Ends-done P Q s h = h

pub Ends-if :
    {S : Type 0} (P : Container → Type 0) (Q : S → Type 0) (b : Bool) (m n : Outcome S)
    → Ends P Q m
    → Ends P Q n
    → Ends P Q (if b then m else n)
Ends-if P Q true m n hm hn = hm
Ends-if P Q false m n hm hn = hn

pub Ends-option :
    {S : Type 0} {X : Type 0} (P : Container → Type 0) (Q : S → Type 0) (o : Option X)
    (f : X → Outcome S)
    → ((x : X) → o ≡ some x → Ends P Q (f x))
    → Ends P Q (elim o [ none ↦ failed | some x ↦ f x ])
unfolding Ends
Ends-option P Q none f next = tt
Ends-option P Q (some x) f next = next x refl

pub Ends-bind :
    {S T : Type 0} (P : Container → Type 0) (Q : S → Type 0) (R : T → Type 0) (m : Outcome S)
    (f : S → Outcome T)
    → Ends P Q m
    → ((s : S) → Q s → Ends P R (f s))
    → Ends P R (m >>= f)
unfolding Ends ◌>>=◌
Ends-bind P Q R (done s) f h next = next s h
Ends-bind P Q R (threw c) f h next = h
Ends-bind P Q R failed f h next = tt

-- After an assertion, and after the test of an exception in a state with `P`.
pub Ends-check :
    {T : Type 0} (P : Container → Type 0) (R : T → Type 0) (b : Bool) (k : Outcome T)
    → ((b ≡ true) → Ends P R k)
    → Ends P R (check b >> k)
unfolding Ends ◌>>=◌ ◌>>◌ check
Ends-check P R true k next = next refl
Ends-check P R false k next = tt

pub Ends-throw_if :
    {T : Type 0} (P : Container → Type 0) (R : T → Type 0) (b : Bool) (c : Container)
    (k : Outcome T)
    → P c
    → ((b ≡ false) → Ends P R k)
    → Ends P R (throw_if b c >> k)
unfolding Ends ◌>>=◌ ◌>>◌ throw_if
Ends-throw_if P R true c k h next = h
Ends-throw_if P R false c k h next = next refl

module _ {A : Type 0} where
  pub count-set :
      (p : A → Bool) (xs : List A) (i : ℕ) (a v : A)
      → get_elem? xs i ≡ some a
      → count p (set xs i v) + bit (p a) ≡ count p xs + bit (p v)
  count-set p [] i a v h = absurd (none-ne-some a h)
  count-set p (x ∷ xs) zero a v h = rw (some-injective _ _ h) (omega arith)
  count-set p (x ∷ xs) (suc i) a v h = omega (arith, count-set p xs i a v h)

  pub count_at :
      (p : A → Bool) (xs : List A) (i : ℕ) (a : A)
      → get_elem? xs i ≡ some a
      → bit (p a) ≤ count p xs
  count_at p [] i a h = absurd (none-ne-some a h)
  count_at p (x ∷ xs) zero a h =
      subst (λ (y : A). bit (p y) ≤ count p (x ∷ xs)) (some-injective _ _ h) (omega arith)
  count_at p (x ∷ xs) (suc i) a h = omega (arith, count_at p xs i a h)

  -- The first element of a range, split off.
  unfoldable pub IsSplit : (A → Bool) → List A → A → List A → Type 0
  IsSplit p xs a rest = (p a ≡ true) × ((q : A → Bool) → count q xs ≡ bit (q a) + count q rest)

  Found : (A → Bool) → List A → Option (A × List A) → Type 0
  Found p xs none = count p xs ≡ 0
  Found p xs (some (a, rest)) = IsSplit p xs a rest

  Found-later :
      (p : A → Bool) (x : A) (xs : List A) (r : Option (A × List A))
      → p x ≡ false
      → Found p xs r
      → Found p (x ∷ xs) (elim r [ none ↦ none | some (y, ys) ↦ some (y, x ∷ ys) ])
  unfolding Found IsSplit
  Found-later p x xs none h none_left = rw h (omega (arith, none_left))
  Found-later p x xs (some (a, rest)) h (here, split) = (here, λ q. omega (arith, split q))

  take_first_lem : (p : A → Bool) (xs : List A) → Found p xs (take_first p xs)
  unfolding Found IsSplit take_first
  take_first_lem p [] = refl
  take_first_lem p (x ∷ xs) = elim (Bool-cases (p x)) [
    | inl h ↦ rw h (h, λ q. refl)
    | inr h ↦ rw h (Found-later p x xs (take_first p xs) h (take_first_lem p xs))
  ]

  pub Ends-first :
      {T : Type 0} (P : Container → Type 0) (R : T → Type 0) (p : A → Bool) (xs : List A)
      (k : Outcome T) (f : A → List A → Outcome T)
      → Ends P R k
      → ((a : A) (rest : List A) → IsSplit p xs a rest → Ends P R (f a rest))
      → Ends P R (elim (take_first p xs) [ none ↦ k | some (a, rest) ↦ f a rest ])
  unfolding Found
  Ends-first {T} P R p xs k f without next = cases (take_first p xs) (take_first_lem p xs)
    where
      cases :
          (r : Option (A × List A))
          → Found p xs r
          → Ends P R (elim r [ none ↦ k | some (a, rest) ↦ f a rest ])
      cases none none_left = without
      cases (some (a, rest)) split = next a rest split

-- A key output is of one key.
pub other_key :
    (t : TransferIn) (k l : ℕ)
    → has_descriptor (of_key k) t ≡ true
    → l ≢ k
    → has_descriptor (of_key l) t ≡ false
unfolding has_descriptor same_descriptor
other_key t k l h other = one_key (descriptor_of t) h
  where
    one_key :
        (o : Option Descriptor)
        → (elim o [ none ↦ false | some e ↦ same_descriptor e (of_key k) ]) ≡ true
        → (elim o [ none ↦ false | some e ↦ same_descriptor e (of_key l) ]) ≡ false
    one_key none h = refl
    one_key (some (of_key m)) h = ground (arith, other)
    one_key (some (of_multisignature a i)) h = refl

-- The descriptor behind the test of an index.
pub key_descriptor :
    (t : TransferIn) (d : Descriptor) (l : ℕ)
    → descriptor_of t ≡ some d
    → has_descriptor (of_key l) t ≡ true
    → d ≡ of_key l
unfolding has_descriptor same_descriptor
key_descriptor t d l is h = same_key d (
    subst
      (λ (o : Option Descriptor).
        (elim o [ none ↦ false | some e ↦ same_descriptor e (of_key l) ]) ≡ true)
      is h)
  where
    same_key : (e : Descriptor) → same_descriptor e (of_key l) ≡ true → e ≡ of_key l
    same_key (of_key m) same = ap of_key ((==_iff m l).0 same)
    same_key (of_multisignature a i) same = absurd (ground arith)

pub multisignature_only :
    (t : TransferIn) (a i l : ℕ)
    → has_descriptor (of_multisignature a i) t ≡ true
    → has_descriptor (of_key l) t ≡ false
unfolding has_descriptor same_descriptor
multisignature_only t a i l h = not_key (descriptor_of t) h
  where
    not_key :
        (o : Option Descriptor)
        → (elim o [ none ↦ false | some e ↦ same_descriptor e (of_multisignature a i) ]) ≡ true
        → (elim o [ none ↦ false | some e ↦ same_descriptor e (of_key l) ]) ≡ false
    not_key none same = refl
    not_key (some (of_key m)) same = absurd (ground arith)
    not_key (some (of_multisignature b j)) same = refl

-- Removal at an iterator of a range, and what the iterators point to.
pub remove_at-count :
    (q : Transfer → Bool) (ts : List Transfer) (i : ℕ) (t : Transfer)
    → get_elem? ts i ≡ some t
    → count q ts ≡ bit (q t) + count q (remove_at i ts)
unfolding remove_at
remove_at-count q [] i t h = absurd (none-ne-some t h)
remove_at-count q (x ∷ ts) zero t h = rw (some-injective _ _ h) refl
remove_at-count q (x ∷ ts) (suc i) t h = omega (arith, remove_at-count q ts i t h)
