-- ===== src/Keccak/Padding.antt =====
-- src/crypto/keccak.c: the last block, in `temp`, is the rest of the message with its padding.
use lira.Prelude.{
  ℕ, zero, suc, ◌+◌, ◌-◌, ◌≤◌, ◌<◌, ◌≡◌, refl, sym, ap, ◌∙◌, arith, bit_or, lt→ltb, le→leb, ◌==◌,
  ==_iff, if◌then◌else◌, some, ◌>>=◌, List, [], ◌∷◌, ◌++◌, length, get_elem?, get_elem?_lem, set,
  take, drop, replicate, append_assoc, append-nil, length-append, length-replicate, take_append,
  Bool-cases, inl, inr,
}
use lira.Prelude.Bits.{zero-bit_or}
use lira.Keccak.{write, last_block}

-- A one bit, zeros, and a one bit at the end of the block, after `rest` bytes of message in it.
unfoldable pub pad_bytes : ℕ → ℕ → List ℕ
pad_bytes rsiz rest =
    if suc rest == rsiz then 0x81 ∷ [] else 1 ∷ (replicate (rsiz - (rest + 2)) 0 ++ (0x80 ∷ []))

pub length-pad_bytes : (rsiz rest : ℕ) → rest < rsiz → length (pad_bytes rsiz rest) ≡ rsiz - rest
unfolding pad_bytes
length-pad_bytes rsiz rest h = elim (Bool-cases (suc rest == rsiz)) [
  | inl exact ↦ rw exact (omega (arith, (==_iff (suc rest) rsiz).0 exact))
  | inr spare ↦
      let different : rest + 2 ≤ rsiz = ground arith in
      let zeros = rsiz - (rest + 2) in
      rw spare (
        omega (
          arith,
          different,
          length-append {A = ℕ} (replicate zeros 0) (0x80 ∷ []),
          length-replicate {A = ℕ} zeros 0,
        ))
]

pub get_elem?-middle : (xs ys : List ℕ) (a : ℕ) → get_elem? (xs ++ (a ∷ ys)) (length xs) ≡ some a
get_elem?-middle [] ys a = refl
get_elem?-middle (x ∷ xs) ys a = get_elem?-middle xs ys a

set-middle : (xs ys : List ℕ) (a v : ℕ) → set (xs ++ (a ∷ ys)) (length xs) v ≡ xs ++ (v ∷ ys)
set-middle [] ys a v = refl
set-middle (x ∷ xs) ys a v = ap (λ t. x ∷ t) (set-middle xs ys a v)

pub write-middle :
    (xs ys : List ℕ) (a v : ℕ) → write (xs ++ (a ∷ ys)) (length xs) v ≡ some (xs ++ (v ∷ ys))
unfolding write
write-middle xs ys a v =
    let inside : length xs < length (xs ++ (a ∷ ys)) = omega (arith, length-append xs (a ∷ ys)) in
    rw (lt→ltb _ _ inside, set-middle xs ys a v) refl

zeros_end : (n : ℕ) → replicate {A = ℕ} (suc n) 0 ≡ replicate n 0 ++ (0 ∷ [])
zeros_end zero = refl
zeros_end (suc n) = ap (λ t. 0 ∷ t) (zeros_end n)

-- The two steps on the last byte of the block.
close :
    (filled xs more : List ℕ) (a i : ℕ)
    → filled ≡ xs ++ (a ∷ more)
    → length xs ≡ i
    → (get_elem? filled i >>= λ last. write filled i (bit_or last 0x80))
      ≡ some (xs ++ (bit_or a 0x80 ∷ more))
close filled xs more a i same len =
    rw (same, sym len, get_elem?-middle xs more a) (write-middle xs more a (bit_or a 0x80))

take_middle :
    (bytes more : List ℕ) → take (length bytes + 1) (bytes ++ (1 ∷ more)) ≡ bytes ++ (1 ∷ [])
take_middle bytes more =
    ap (λ t. take (length bytes + 1) t) (sym (append_assoc bytes (1 ∷ []) more))
    ∙ take_append (length bytes + 1) (bytes ++ (1 ∷ [])) more (length-append bytes (1 ∷ []))

-- The block before its last byte is marked, and after it.
filled_lem :
    (rsiz : ℕ) (bytes more : List ℕ)
    → length bytes < rsiz
    → (xs : List ℕ) × (a : ℕ) × (((bytes ++ (1 ∷ [])) ++ replicate (rsiz - (length bytes + 1)) 0)
          ++ more
        ≡ xs ++ (a ∷ more))
      × (length xs ≡ rsiz - 1)
      × (xs ++ (bit_or a 0x80 ∷ more) ≡ (bytes ++ pad_bytes rsiz (length bytes)) ++ more)
unfolding pad_bytes
filled_lem rsiz bytes more h = elim (Bool-cases (suc (length bytes) == rsiz)) [
  | inl exact ↦
      let same = (==_iff (suc (length bytes)) rsiz).0 exact in
      let none_left : rsiz - (length bytes + 1) ≡ 0 = omega arith in
      (
        bytes,
        1,
        rw (none_left, append-nil (bytes ++ (1 ∷ []))) (append_assoc bytes (1 ∷ []) more),
        omega arith,
        rw exact (sym (append_assoc bytes (0x81 ∷ []) more)),
      )
  | inr spare ↦
      let zeros = rsiz - (length bytes + 2) in
      let next : rsiz - (length bytes + 1) ≡ suc zeros = ground arith in
      (
        (bytes ++ (1 ∷ [])) ++ replicate zeros 0,
        0,
        rw (next, zeros_end zeros) (simp append_assoc refl),
        omega (
          arith,
          length-append (bytes ++ (1 ∷ [])) (replicate zeros 0),
          length-append bytes (1 ∷ []),
          length-replicate {A = ℕ} zeros 0,
          next,
        ),
        rw (spare, zero-bit_or 0x80) (simp append_assoc refl),
      )
]

pub last_block_lem :
    (temp bytes : List ℕ) (rsiz : ℕ)
    → length bytes < rsiz
    → rsiz ≤ length temp
    → (more : List ℕ) × (last_block temp rsiz bytes
        ≡ some ((bytes ++ pad_bytes rsiz (length bytes)) ++ more))
unfolding last_block
last_block_lem temp bytes rsiz short long =
    let (t, _, split) = get_elem?_lem temp (length bytes) (omega arith) in
    let after = drop (suc (length bytes)) temp in
    let more = drop rsiz (bytes ++ (1 ∷ after)) in
    let (xs, a, shape, len, padded) = filled_lem rsiz bytes more short in
    (
      more,
      rw
          (
            le→leb (length bytes) (length temp) (omega arith),
            split,
            write-middle bytes after t 1,
            le→leb (length bytes + 1) rsiz (omega arith),
            le→leb rsiz (length temp) long,
            take_middle bytes after,
            close _ xs more a (rsiz - 1) shape len,
          )
          (ap some padded),
    )
