-- ===== src/SwappedVector/Files.antt =====
-- src/cryptonote_core/SwappedVector.h: the contents of the two files.
use lira.Prelude.{
  ℕ, zero, suc, ◌+◌, ◌-◌, ◌%◌, ◌^◌, ◌<◌, ◌≡◌, refl, sym, ap, ◌∙◌, none, some, some-injective,
  none-ne-some, List, [], ◌∷◌, ◌++◌, length, get_elem?, drop, length-append, take_append,
  drop_append, append_assoc, append-nil, drop-plus, All, arith,
}
use lira.SwappedVector.{write_at, load_offsets}

-- A write at the end of what counts of a file adds to it, and leaves something behind it.
pub write_at_end :
    (front rest bytes : List ℕ) (at : ℕ)
    → at ≡ length front
    → (rest' : List ℕ) × (write_at (front ++ rest) at bytes ≡ (front ++ bytes) ++ rest')
unfolding write_at
write_at_end front rest bytes at same =
    let behind = drop (at + length bytes) (front ++ rest) in
    let no_gap : at - length (front ++ rest) ≡ 0 = omega (arith, length-append front rest) in
    (
      behind,
      rw (no_gap, take_append at front rest (sym same)) (sym (append_assoc front bytes behind)),
    )

module _ {T : Type 0} (serialize : T → List ℕ) where
  -- The items file, the offsets and the sizes of a list of items.
  unfoldable pub bytes_of : List T → List ℕ
  bytes_of [] = []
  bytes_of (x ∷ xs) = serialize x ++ bytes_of xs

  unfoldable pub starts : ℕ → List T → List ℕ
  starts n [] = []
  starts n (x ∷ xs) = n ∷ starts (n + length (serialize x)) xs

  unfoldable pub sizes_of : List T → List ℕ
  sizes_of [] = []
  sizes_of (x ∷ xs) = (length (serialize x) % 2 ^ 32) ∷ sizes_of xs

  pub bytes_of-append :
      (xs : List T) (x : T) → bytes_of (xs ++ (x ∷ [])) ≡ bytes_of xs ++ serialize x
  unfolding bytes_of
  bytes_of-append [] x = append-nil (serialize x)
  bytes_of-append (y ∷ ys) x =
      ap (◌++◌ (serialize y)) (bytes_of-append ys x)
      ∙ sym (append_assoc (serialize y) (bytes_of ys) (serialize x))

  pub sizes_of-append :
      (xs : List T) (x : T)
      → sizes_of (xs ++ (x ∷ [])) ≡ sizes_of xs ++ ((length (serialize x) % 2 ^ 32) ∷ [])
  unfolding sizes_of
  sizes_of-append [] x = refl
  sizes_of-append (y ∷ ys) x = ap (◌∷◌ (length (serialize y) % 2 ^ 32)) (sizes_of-append ys x)

  pub length-sizes_of : (xs : List T) → length (sizes_of xs) ≡ length xs
  unfolding sizes_of
  length-sizes_of [] = refl
  length-sizes_of (x ∷ xs) = ap suc (length-sizes_of xs)

  pub length-starts : (n : ℕ) (xs : List T) → length (starts n xs) ≡ length xs
  unfolding starts
  length-starts n [] = refl
  length-starts n (x ∷ xs) = ap suc (length-starts (n + length (serialize x)) xs)

  pub starts-append :
      (n : ℕ) (xs : List T) (x : T)
      → starts n (xs ++ (x ∷ [])) ≡ starts n xs ++ ((n + length (bytes_of xs)) ∷ [])
  unfolding starts bytes_of
  starts-append n [] x = ap (λ (t : ℕ). t ∷ []) (omega arith)
  starts-append n (y ∷ ys) x = ap (◌∷◌ n) (
      starts-append (n + length (serialize y)) ys x
      ∙ ap (λ (t : ℕ). starts (n + length (serialize y)) ys ++ (t ∷ []))
          (omega (arith, length-append (serialize y) (bytes_of ys))))

  item_from :
      (n : ℕ) (xs : List T) (i : ℕ) (x : T) (rest : List ℕ)
      → get_elem? xs i ≡ some x
      → (d : ℕ) × (rest' : List ℕ) × (get_elem? (starts n xs) i ≡ some (n + d))
        × (drop d (bytes_of xs ++ rest) ≡ serialize x ++ rest')
  unfolding starts bytes_of
  item_from n [] i x rest h = absurd (none-ne-some _ h)
  item_from n (y ∷ ys) zero x rest h = (
    0,
    bytes_of ys ++ rest,
    ap some (omega arith),
    append_assoc (serialize y) (bytes_of ys) rest
        ∙ ap (λ (t : T). serialize t ++ (bytes_of ys ++ rest)) (some-injective _ _ h),
  )
  item_from n (y ∷ ys) (suc i) x rest h =
      let (d, rest', at, there) = item_from (n + length (serialize y)) ys i x rest h in
      (
        length (serialize y) + d,
        rest',
        at ∙ ap some (omega arith),
        ap (drop (length (serialize y) + d)) (append_assoc (serialize y) (bytes_of ys) rest)
            ∙ drop-plus (length (serialize y)) d (serialize y ++ (bytes_of ys ++ rest))
            ∙ ap (drop d)
                (drop_append (length (serialize y)) (serialize y) (bytes_of ys ++ rest) refl)
            ∙ there,
      )

  -- The offset of an item, and what stands in the file from there on.
  pub item_at :
      (xs : List T) (i : ℕ) (x : T) (rest : List ℕ)
      → get_elem? xs i ≡ some x
      → (offset : ℕ) × (rest' : List ℕ) × (get_elem? (starts 0 xs) i ≡ some offset)
        × (drop offset (bytes_of xs ++ rest) ≡ serialize x ++ rest')
  item_at xs i x rest h =
      let (d, rest', at, there) = item_from 0 xs i x rest h in
      (d, rest', at ∙ ap some (omega arith), there)

  pub load_offsets-sizes_of :
      (n : ℕ) (xs : List T) (rest : List ℕ)
      → All (λ (x : T). length (serialize x) < 2 ^ 32) xs
      → n + length (bytes_of xs) < 2 ^ 64
      → load_offsets (length xs) (sizes_of xs ++ rest) n
        ≡ some (starts n xs, n + length (bytes_of xs))
  unfolding load_offsets sizes_of starts bytes_of
  load_offsets-sizes_of n [] rest all fits = ap (λ (t : ℕ). some ([], t)) (omega arith)
  load_offsets-sizes_of n (x ∷ xs) rest (small, all) fits =
      let both = length-append (serialize x) (bytes_of xs) in
      let next : (n + length (serialize x) % 2 ^ 32) % 2 ^ 64 ≡ n + length (serialize x) =
        omega (arith, both) in
      let total : n + length (serialize x) + length (bytes_of xs)
          ≡ n + length (serialize x ++ bytes_of xs) =
        omega (arith, both) in
      rw
        (
          next,
          load_offsets-sizes_of (n + length (serialize x)) xs rest all (omega (arith, both)),
          total,
        )
        refl

  pub starts-none :
      (n : ℕ) (xs : List T) (i : ℕ) → get_elem? xs i ≡ none → get_elem? (starts n xs) i ≡ none
  unfolding starts
  starts-none n [] i h = refl
  starts-none n (x ∷ xs) zero h = absurd (none-ne-some _ (sym h))
  starts-none n (x ∷ xs) (suc i) h = starts-none (n + length (serialize x)) xs i h
