-- ===== src/Prelude/Lists.antt =====
-- Lists measured and indexed by native numbers, under the library's names.
use Prim.Native.Nat.{ℕ, zero, suc, ◌+◌, ◌-◌, ◌≤◌, ◌<◌, min}
use mathlib.Core.Path.{◌≡◌, refl, ap}
use mathlib.Core.List.{List, [], ◌∷◌, ◌++◌, map}
use mathlib.Core.Option.{Option, none, some, none-ne-some}
use mathlib.Core.Logic.{◌⊎◌, inl, inr}
use native.Mathlib.Nat.{sub-zero, zero-sub, suc-sub-suc, zero-add, suc-add}
use native.Mathlib.Omega.{arith}

module _ {ℓ} {A : Type ℓ} where
  abbrev pub length : List A → ℕ
  length [] = 0
  length (x ∷ xs) = suc (length xs)

  abbrev pub get_elem? : List A → ℕ → Option A
  get_elem? [] i = none
  get_elem? (x ∷ xs) zero = some x
  get_elem? (x ∷ xs) (suc i) = get_elem? xs i

  -- A write out of bounds changes nothing.
  abbrev pub set : List A → ℕ → A → List A
  set [] i v = []
  set (x ∷ xs) zero v = v ∷ xs
  set (x ∷ xs) (suc i) v = x ∷ set xs i v

  abbrev pub take : ℕ → List A → List A
  take zero xs = []
  take (suc n) [] = []
  take (suc n) (x ∷ xs) = x ∷ take n xs

  abbrev pub drop : ℕ → List A → List A
  drop zero xs = xs
  drop (suc n) [] = []
  drop (suc n) (x ∷ xs) = drop n xs

  abbrev pub replicate : ℕ → A → List A
  replicate zero a = []
  replicate (suc n) a = a ∷ replicate n a

  abbrev pub All {κ} : (A → Type κ) → List A → Type κ
  All P [] = Unit {κ}
  All P (x ∷ xs) = P x × All P xs

module _ {ℓ} {A : Type ℓ} where
  pub length-append : (xs ys : List A) → length (xs ++ ys) ≡ length xs + length ys
  length-append [] ys = omega arith
  length-append (x ∷ xs) ys = omega (arith, length-append xs ys)

  pub length-set : (xs : List A) (i : ℕ) (v : A) → length (set xs i v) ≡ length xs
  length-set [] i v = refl
  length-set (x ∷ xs) zero v = refl
  length-set (x ∷ xs) (suc i) v = ap suc (length-set xs i v)

  pub length-take : (n : ℕ) (xs : List A) → length (take n xs) ≡ min n (length xs)
  length-take zero xs = omega arith
  length-take (suc n) [] = omega arith
  length-take (suc n) (x ∷ xs) = omega (arith, length-take n xs)

  pub length-drop : (n : ℕ) (xs : List A) → length (drop n xs) ≡ length xs - n
  length-drop zero xs = omega arith
  length-drop (suc n) [] = omega arith
  length-drop (suc n) (x ∷ xs) = omega (arith, length-drop n xs)

  pub take-append-drop : (n : ℕ) (xs : List A) → take n xs ++ drop n xs ≡ xs
  take-append-drop zero xs = refl
  take-append-drop (suc n) [] = refl
  take-append-drop (suc n) (x ∷ xs) = ap (◌∷◌ x) (take-append-drop n xs)

  -- A read inside the bounds gives an element, at which the list splits.
  pub get_elem?_lem :
      (xs : List A) (i : ℕ)
      → i < length xs
      → (a : A) × (get_elem? xs i ≡ some a) × (drop i xs ≡ a ∷ drop (suc i) xs)
  get_elem?_lem [] i h = elim h [ ]
  get_elem?_lem (x ∷ xs) zero h = (x, refl, refl)
  get_elem?_lem (x ∷ xs) (suc i) h = get_elem?_lem xs i (omega arith)

  pub drop-set : (xs : List A) (j k : ℕ) (v : A) → j < k → drop k (set xs j v) ≡ drop k xs
  drop-set [] j k v h = refl
  drop-set (x ∷ xs) zero zero v h = absurd (omega arith)
  drop-set (x ∷ xs) zero (suc k) v h = refl
  drop-set (x ∷ xs) (suc j) zero v h = absurd (omega arith)
  drop-set (x ∷ xs) (suc j) (suc k) v h = drop-set xs j k v (omega arith)

  pub take-set :
      (xs : List A) (j : ℕ) (v : A)
      → j < length xs
      → take (suc j) (set xs j v) ≡ take j xs ++ (v ∷ [])
  take-set [] j v h = elim h [ ]
  take-set (x ∷ xs) zero v h = refl
  take-set (x ∷ xs) (suc j) v h = ap (◌∷◌ x) (take-set xs j v (omega arith))

  pub take_all : (n : ℕ) (xs : List A) → length xs ≤ n → take n xs ≡ xs
  take_all zero [] h = refl
  take_all zero (x ∷ xs) h = elim h [ ]
  take_all (suc n) [] h = refl
  take_all (suc n) (x ∷ xs) h = ap (◌∷◌ x) (take_all n xs (omega arith))

  pub take_append : (n : ℕ) (xs ys : List A) → length xs ≡ n → take n (xs ++ ys) ≡ xs
  take_append zero [] ys h = refl
  take_append zero (x ∷ xs) ys h = absurd (omega arith)
  take_append (suc n) [] ys h = absurd (omega arith)
  take_append (suc n) (x ∷ xs) ys h = ap (◌∷◌ x) (take_append n xs ys (omega arith))

  pub drop_append : (n : ℕ) (xs ys : List A) → length xs ≡ n → drop n (xs ++ ys) ≡ ys
  drop_append zero [] ys h = refl
  drop_append zero (x ∷ xs) ys h = absurd (omega arith)
  drop_append (suc n) [] ys h = absurd (omega arith)
  drop_append (suc n) (x ∷ xs) ys h = drop_append n xs ys (omega arith)

  take-nil : (n : ℕ) → [] ≡ take {A = A} n []
  take-nil zero = refl
  take-nil (suc n) = refl

  pub take-take : (m n : ℕ) (xs : List A) → m ≤ n → take m (take n xs) ≡ take m xs
  take-take zero n xs h = refl
  take-take (suc m) zero xs h = elim h [ ]
  take-take (suc m) (suc n) [] h = refl
  take-take (suc m) (suc n) (x ∷ xs) h = ap (◌∷◌ x) (take-take m n xs (omega arith))

  pub drop-take : (k n : ℕ) (xs : List A) → drop k (take n xs) ≡ take (n - k) (drop k xs)
  drop-take zero n xs = rw sub-zero
  drop-take (suc k) zero [] = rw zero-sub
  drop-take (suc k) zero (x ∷ xs) = rw zero-sub
  drop-take (suc k) (suc n) [] = take-nil (suc n - suc k)
  drop-take (suc k) (suc n) (x ∷ xs) = rw suc-sub-suc (drop-take k n xs)

  pub length-replicate : (n : ℕ) (a : A) → length (replicate n a) ≡ n
  length-replicate zero a = refl
  length-replicate (suc n) a = ap suc (length-replicate n a)

  pub length-map {κ} : {B : Type κ} (xs : List A) (f : A → B) → length (map f xs) ≡ length xs
  length-map [] f = refl
  length-map (x ∷ xs) f = ap suc (length-map xs f)

  pub take-plus : (m n : ℕ) (xs : List A) → take (m + n) xs ≡ take m xs ++ take n (drop m xs)
  take-plus zero n xs = rw zero-add refl
  take-plus (suc m) n [] = rw suc-add (take-nil n)
  take-plus (suc m) n (x ∷ xs) = rw suc-add (ap (◌∷◌ x) (take-plus m n xs))

  pub drop-plus : (m n : ℕ) (xs : List A) → drop (m + n) xs ≡ drop n (drop m xs)
  drop-plus zero n xs = rw zero-add refl
  drop-plus (suc m) zero [] = rw suc-add refl
  drop-plus (suc m) (suc n) [] = rw suc-add refl
  drop-plus (suc m) n (x ∷ xs) = rw suc-add (drop-plus m n xs)

  -- A list is empty, or has a last element.
  pub snoc-cases : (xs : List A) → (xs ≡ []) ⊎ ((ys : List A) × (y : A) × (xs ≡ ys ++ (y ∷ [])))
  snoc-cases [] = inl refl
  snoc-cases (x ∷ xs) = elim (snoc-cases xs) [
    | inl none_left ↦ inr ([], x, ap (◌∷◌ x) none_left)
    | inr (ys, y, split) ↦ inr (x ∷ ys, y, ap (◌∷◌ x) split)
  ]

  pub get_elem?-append :
      (xs ys : List A) (i : ℕ) (a : A) → get_elem? xs i ≡ some a → get_elem? (xs ++ ys) i ≡ some a
  get_elem?-append [] ys i a h = absurd (none-ne-some _ h)
  get_elem?-append (x ∷ xs) ys zero a h = h
  get_elem?-append (x ∷ xs) ys (suc i) a h = get_elem?-append xs ys i a h

  pub get_elem?-end : (xs : List A) (a : A) → get_elem? (xs ++ (a ∷ [])) (length xs) ≡ some a
  get_elem?-end [] a = refl
  get_elem?-end (x ∷ xs) a = get_elem?-end xs a

  -- An element of a list with one more at the end is the last one, or one of the others.
  pub get_elem?-append_inv :
      (xs : List A) (x a : A) (i : ℕ)
      → get_elem? (xs ++ (x ∷ [])) i ≡ some a
      → (get_elem? xs i ≡ some a) ⊎ (i ≡ length xs)
  get_elem?-append_inv [] x a zero h = inr refl
  get_elem?-append_inv [] x a (suc i) h = absurd (none-ne-some _ h)
  get_elem?-append_inv (y ∷ ys) x a zero h = inl h
  get_elem?-append_inv (y ∷ ys) x a (suc i) h = elim (get_elem?-append_inv ys x a i h) [
    | inl before ↦ inl before
    | inr at ↦ inr (ap suc at)
  ]

  pub get_elem?-bound : (xs : List A) (a : A) (i : ℕ) → get_elem? xs i ≡ some a → i < length xs
  get_elem?-bound [] a i h = absurd (none-ne-some _ h)
  get_elem?-bound (x ∷ xs) a zero h = omega arith
  get_elem?-bound (x ∷ xs) a (suc i) h = omega (arith, get_elem?-bound xs a i h)

  pub All-append {κ} :
      (P : A → Type κ) (xs : List A) (y : A) → All P xs → P y → All P (xs ++ (y ∷ []))
  All-append P [] y all p = (p, tt)
  All-append P (x ∷ xs) y (q, all) p = (q, All-append P xs y all p)

  pub All-append_inv {κ} :
      (P : A → Type κ) (xs : List A) (y : A) → All P (xs ++ (y ∷ [])) → All P xs × P y
  All-append_inv P [] y (p, all) = (tt, p)
  All-append_inv P (x ∷ xs) y (q, all) = let (rest, p) = All-append_inv P xs y all in ((q, rest), p)
