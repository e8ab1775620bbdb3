-- ===== src/Keccak/Sponge.antt =====
-- src/crypto/keccak.c: the hash is the sponge of the padded message.
use lira.Prelude.{
  ℕ, zero, suc, ◌-◌, ◌*◌, ◌/◌, ◌%◌, ◌≤◌, ◌<◌, ◌≡◌, refl, ◌∙◌, arith, ltb, ltb→lt, le→leb,
  lt→not_leb, ◌==◌, ==_iff, if◌then◌else◌, Option, none, some, some-injective, none-ne-some, ◌>>=◌,
  List, [], ◌∷◌, ◌++◌, length, take, drop, replicate, length-append, length-drop, length-take, sym,
  ap, Bool-cases, inl, inr, subst,
}
use native.Mathlib.Nat.{div-add-mod, mod-lt}
use lira.Keccak.{
  keccakf, absorb_block, absorb_loop, last_block, state_bytes, word_bytes, rate, keccak,
}
use lira.Keccak.Absorb.{drop_inside, absorb_block_lem}
use lira.Keccak.Lanes.{words, xor_words, absorb_block-words}
use lira.Keccak.Padding.{pad_bytes, length-pad_bytes, last_block_lem}

-- `count` blocks of `n` words into the state, one after the other, each followed by 24 rounds.
unfoldable pub sponge : ℕ → ℕ → List ℕ → List ℕ → Option (List ℕ)
sponge zero n bytes st = some st
sponge (suc count) n bytes st = keccakf (replicate 5 0) (xor_words (words n bytes) st) 24 >>= λ st'.
    sponge count n (drop (8 * n) bytes) st'

module _ (n rsiz : ℕ) (same : rsiz ≡ 8 * n) (bytes st s : List ℕ) (small : rsiz ≤ 200)
    (long : rsiz ≤ length bytes) (len : length st ≡ 25)
    (run : absorb_block (replicate 5 0) rsiz bytes st ≡ some s) where
  sponge_step : (count : ℕ) → sponge (suc count) n bytes st ≡ sponge count n (drop rsiz bytes) s
  unfolding sponge
  sponge_step count =
      let permuted : keccakf (replicate 5 0) (xor_words (words n bytes) st) 24 ≡ some s =
        sym (absorb_block-words n rsiz (replicate 5 0) bytes st same small long len) ∙ run in
      rw permuted (ap (λ (k : ℕ). sponge count n (drop k bytes) s) (sym same))

  sponge_one : sponge 1 n bytes st ≡ some s
  unfolding sponge
  sponge_one = sponge_step 0

-- The loop over whole blocks leaves the rest, and the sponge one block.
absorb_loop_lem :
    (w n rsiz : ℕ) (bc bytes more st : List ℕ)
    → rsiz ≡ 8 * w
    → rsiz ≤ 200
    → length bc ≡ 5
    → length st ≡ 25
    → n * rsiz ≤ length bytes
    → length bytes < suc n * rsiz
    → (rest : List ℕ) × (last : List ℕ) × (absorb_loop (suc n) bc rsiz bytes st ≡ some (rest, last))
      × (length rest ≡ length bytes - n * rsiz)
      × (length last ≡ 25)
      × (sponge (suc n) w (bytes ++ more) st ≡ sponge 1 w (rest ++ more) last)
unfolding absorb_loop
absorb_loop_lem w zero rsiz bc bytes more st lanes small full len low high =
    (bytes, st, rw (lt→not_leb rsiz (length bytes) (grind arith)) refl, grind arith, len, refl)
absorb_loop_lem w (suc n) rsiz bc bytes more st lanes small full len low high =
    let long : rsiz ≤ length bytes = grind arith in
    let (s, s_len, block) = absorb_block_lem rsiz bytes more st small long len in
    let less = length-drop rsiz bytes in
    let (rest, last, run, rest_len, last_len, same) =
      absorb_loop_lem w n rsiz bc (drop rsiz bytes) more s lanes small full s_len (grind arith)
        (grind arith) in
    (
      rest,
      last,
      rw (le→leb rsiz (length bytes) long, (block bc full).1) run,
      grind arith,
      last_len,
      sponge_step w rsiz lanes (bytes ++ more) st s small
            (omega (arith, long, length-append bytes more)) len (block (replicate 5 0) refl).0
            (suc n)
          ∙ rw (drop_inside rsiz bytes more long) same,
    )

rate_lem : (mdlen rsiz : ℕ) → rate mdlen ≡ some rsiz → (mdlen ≤ 200) × (rsiz ≤ 200) × (0 < rsiz)
unfolding rate
rate_lem mdlen rsiz h = elim (Bool-cases (200 == mdlen)) [
  | inl exact ↦
      let same = (==_iff 200 mdlen).0 exact in
      let value : some 136 ≡ some rsiz =
        subst (λ b. (if b then some 136 else other) ≡ some rsiz) exact h in
      omega (arith, same, some-injective _ _ value)
  | inr usual ↦
      let value : other ≡ some rsiz =
        subst (λ b. (if b then some 136 else other) ≡ some rsiz) usual h in
      elim (Bool-cases (ltb (2 * mdlen) 200)) [
        | inl less ↦
            let kept : some (200 - 2 * mdlen) ≡ some rsiz =
              subst (λ b. (if b then some (200 - 2 * mdlen) else none) ≡ some rsiz) less value in
            omega (arith, ltb→lt (2 * mdlen) 200 less, some-injective _ _ kept)
        | inr never ↦ absurd (
            none-ne-some rsiz
              (subst (λ b. (if b then some (200 - 2 * mdlen) else none) ≡ some rsiz) never value))
      ]
]
  where
    other : Option ℕ
    other = if ltb (2 * mdlen) 200 then some (200 - 2 * mdlen) else none

length-state_bytes : (st : List ℕ) → length (state_bytes st) ≡ length st * 8
unfolding state_bytes word_bytes
length-state_bytes [] = refl
length-state_bytes (x ∷ xs) = omega (arith, length-state_bytes xs)

-- The steps of the code, one after the other.
keccak_run :
    (temp bc bytes rest last block st : List ℕ) (mdlen rsiz : ℕ)
    → rate mdlen ≡ some rsiz
    → absorb_loop (suc (length bytes / rsiz)) bc rsiz bytes (replicate 25 0) ≡ some (rest, last)
    → last_block temp rsiz rest ≡ some block
    → absorb_block bc rsiz block last ≡ some st
    → keccak temp bc bytes mdlen ≡ some (take mdlen (state_bytes st))
unfolding keccak
keccak_run temp bc bytes rest last block st mdlen rsiz hr loop padded absorbed =
    rw (hr, loop, padded, absorbed, le→leb mdlen 200 (rate_lem mdlen rsiz hr).0) refl

last_block_at :
    (temp rest : List ℕ) (rsiz q : ℕ)
    → length rest ≡ q
    → q < rsiz
    → rsiz ≤ length temp
    → (more : List ℕ) × (last_block temp rsiz rest ≡ some ((rest ++ pad_bytes rsiz q) ++ more))
last_block_at temp rest rsiz q len h room =
    let (more, run) = last_block_lem temp rest rsiz (omega arith) room in
    (
      more,
      subst (λ (k : ℕ). last_block temp rsiz rest ≡ some ((rest ++ pad_bytes rsiz k) ++ more)) len
          run,
    )

-- From what the loop leaves to the hash.
module _ (temp bc bytes rest last : List ℕ) (mdlen rsiz w q : ℕ) (lanes : rsiz ≡ 8 * w)
    (room : 144 ≤ length temp) (full : length bc ≡ 5) (hr : rate mdlen ≡ some rsiz)
    (small : rsiz ≤ 144) (below : q < rsiz) (rest_len : length rest ≡ q)
    (last_len : length last ≡ 25)
    (loop : absorb_loop (suc (length bytes / rsiz)) bc rsiz bytes (replicate 25 0)
      ≡ some (rest, last)) where
  keccak_end :
      (st : List ℕ) × (sponge 1 w (rest ++ pad_bytes rsiz q) last ≡ some st)
      × (keccak temp bc bytes mdlen ≡ some (take mdlen (state_bytes st)))
      × (length (take mdlen (state_bytes st)) ≡ mdlen)
  keccak_end =
      let (more, block) = last_block_at temp rest rsiz q rest_len below (omega arith) in
      let long : rsiz ≤ length (rest ++ pad_bytes rsiz q) =
        omega (arith, length-append rest (pad_bytes rsiz q), length-pad_bytes rsiz q below) in
      let (st, st_len, final) =
        absorb_block_lem rsiz (rest ++ pad_bytes rsiz q) more last (omega arith) long last_len in
      (
        st,
        sponge_one w rsiz lanes _ last st (omega arith) long last_len
            (final (replicate 5 0) refl).1,
        keccak_run temp bc bytes rest last _ st mdlen rsiz hr loop block (final bc full).0,
        omega (
          arith,
          length-take mdlen (state_bytes st),
          length-state_bytes st,
          st_len,
          (rate_lem mdlen rsiz hr).0,
        ),
      )

-- For a rate of 1 to 18 whole words, that is for a hash of 28, 32, ... 96 bytes or of 200: the code
-- reads and writes inside its arrays, ends, and gives the first `mdlen` bytes of the state after the
-- blocks of the padded message have been xored into its first lanes, each as words of eight bytes,
-- lowest first, and followed by 24 rounds of the code's permutation, whatever `temp` and `bc` held.
pub keccak_lem :
    (temp bc bytes : List ℕ) (mdlen n : ℕ)
    → length temp ≡ 144
    → length bc ≡ 5
    → rate mdlen ≡ some (8 * n)
    → 0 < n
    → n ≤ 18
    → (st : List ℕ) × (sponge
          (suc (length bytes / (8 * n)))
          n
          (bytes ++ pad_bytes (8 * n) (length bytes % (8 * n)))
          (replicate 25 0)
        ≡ some st)
      × (keccak temp bc bytes mdlen ≡ some (take mdlen (state_bytes st)))
      × (length (take mdlen (state_bytes st)) ≡ mdlen)
keccak_lem temp bc bytes mdlen n room full hr positive small =
    let rsiz = 8 * n in
    let q = length bytes % rsiz in
    let divided = div-add-mod (length bytes) rsiz in
    let below : q < rsiz = mod-lt (length bytes) (omega arith) in
    let (rest, last, loop, rest_len, last_len, whole) =
      absorb_loop_lem n (length bytes / rsiz) rsiz bc bytes (pad_bytes rsiz q) (replicate 25 0) refl
        (omega arith) full refl (grind arith) (grind arith) in
    let (st, absorbed, run, len) =
      keccak_end temp bc bytes rest last mdlen rsiz n q refl (omega arith) full hr (omega arith)
        below (omega arith) last_len loop in
    (st, whole ∙ absorbed, run, len)
