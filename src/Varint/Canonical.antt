-- ===== src/Varint/Canonical.antt =====
-- `read_varint` accepts no other form of a number than the one `write_varint` writes.
use lira.Prelude.{
  ℕ, zero, suc, ◌+◌, ◌-◌, ◌*◌, ◌/◌, ◌%◌, ◌^◌, ◌≤◌, ◌<◌, ◌≡◌, refl, ap, ◌∙◌, sym, arith, some, List,
  [], ◌∷◌, ◌++◌, length, ◌⊎◌, inl, inr, ◌≢◌, leb, ◌==◌, ◌&&◌, All, bit_and, Bool-cases, false, not,
}
use lira.Prelude.Bits.{two-pow-add}
use native.Mathlib.Nat.{pow-suc, pow-le-pow_right, add-sub_cancel_left}
use native.Mathlib.Decide.{dec_le}
use lira.Varint.{write_varint, Code, count, read_loop, read_varint}
use lira.Varint.Bytes.{top_bit, add_group_lem, seven_fit, acc_fits, seven_more}
use lira.Varint.RoundTrip.{encoding, write_loop_lem, read_start}

encoding_small : (fuel v : ℕ) → v < 128 → encoding fuel v ≡ v ∷ []
encoding_small zero v h = refl
encoding_small (suc fuel) v h = ground arith

encoding_fuel : (f g v : ℕ) → v < 2 ^ f → v < 2 ^ g → encoding f v ≡ encoding g v
encoding_fuel zero g v hf hg = ground (arith, encoding_small g v)
encoding_fuel (suc f) zero v hf hg = ground (arith, encoding_small (suc f) v)
encoding_fuel (suc f) (suc g) v hf hg =
    ground (arith, pow-suc 2 f, pow-suc 2 g, encoding_fuel f g (v / 128))

-- A result of the loop that is a count: the last byte was reached, more bytes follow, or the input
-- is at its end.
data Step (s r i read byte : ℕ) (rest : List ℕ) (result : Code × ℕ × List ℕ) : Type 0 where
  last :
      byte < 128
      → byte < 2 ^ r
      → (s ≡ 0) ⊎ (0 < byte)
      → result ≡ (count (suc read), i + byte * 2 ^ s, rest)
      → Step s r i read byte rest result
  more :
      128 ≤ byte
      → 7 < r
      → result ≡ read_loop (s + r) rest (s + 7) (i + byte % 128 * 2 ^ s) (suc read)
      → Step s r i read byte rest result
  refused : ((n : ℕ) → result.0 ≢ count n) → Step s r i read byte rest result

last_fits :
    (s r byte : ℕ) → byte < 128 → (leb (s + r) (s + 7) && leb (2 ^ r) byte) ≡ false → byte < 2 ^ r
last_fits s r byte small h = elim (dec_le r 7) [
  | yes le ↦ ground arith
  | no gt ↦ seven_fit r byte (omega arith) small
]

wide : (s r byte : ℕ) → 128 ≤ byte → (leb (s + r) (s + 7) && leb (2 ^ r) byte) ≡ false → 7 < r
wide s r byte big h = elim (dec_le r 7) [
  | yes le ↦ ground (arith, pow-le-pow_right {n = 2} (omega arith) {i = r} {j = 7} le)
  | no gt ↦ omega arith
]

nonzero : (s byte : ℕ) → (byte == 0 && not (s == 0)) ≡ false → (s ≡ 0) ⊎ (0 < byte)
nonzero zero byte h = inl refl
nonzero (suc s) byte h = inr (ground arith)

read-Step :
    (s r i read byte : ℕ) (rest : List ℕ)
    → 0 < r
    → byte < 256
    → i < 2 ^ s
    → Step s r i read byte rest (read_loop (s + r) (byte ∷ rest) s i read)
unfolding read_loop
read-Step s r i read byte rest hr hb hi =
    rw add-sub_cancel_left (elim (Bool-cases (leb (s + r) (s + 7) && leb (2 ^ r) byte)) [
      | inl over ↦ rw over (refused (λ n e. cc))
      | inr fits ↦ rw fits (elim (Bool-cases (byte == 0 && not (s == 0))) [
        | inl padded ↦ rw padded (refused (λ n e. cc))
        | inr canon ↦ rw canon (elim (Bool-cases (bit_and byte 0x80 == 0)) [
          | inl end ↦ rw end (
              last (ground (arith, top_bit byte hb))
                (last_fits s r byte (ground (arith, top_bit byte hb)) fits) (nonzero s byte canon)
                (ground (
                  arith,
                  top_bit byte hb,
                  add_group_lem s r i byte hi,
                  last_fits s r byte (ground (arith, top_bit byte hb)) fits,
                )))
          | inr go ↦ rw go (
              more (ground (arith, top_bit byte hb))
                (wide s r byte (ground (arith, top_bit byte hb)) fits)
                (ap (λ (t : ℕ). read_loop (s + r) rest (s + 7) t (suc read))
                  (add_group_lem s r i byte hi (
                    seven_fit r (byte % 128)
                      (omega (arith, wide s r byte (ground (arith, top_bit byte hb)) fits))
                      (omega arith)))))
        ])
      ])
    ])

abbrev pub Continues : List ℕ → Type 0
Continues = All (λ b. 128 ≤ b)

abbrev pub Canonical : ℕ → ℕ → ℕ → ℕ → ℕ → ℕ → List ℕ → List ℕ → Type 0
Canonical s r i read k v src rest =
    (w : ℕ) × (w < 2 ^ r)
    × ((s ≡ 0) ⊎ (0 < w))
    × (v ≡ i + w * 2 ^ s)
    × (src ≡ encoding r w ++ rest)
    × (k ≡ read + length (encoding r w))

count_inj : (a b : ℕ) → count a ≡ count b → a ≡ b
count_inj a b e = cc

encoding_cons :
    (r byte w : ℕ)
    → 7 < r
    → 128 ≤ byte
    → byte < 256
    → 0 < w
    → w < 2 ^ (r - 7)
    → encoding r (byte % 128 + 128 * w) ≡ byte ∷ encoding (r - 7) w
encoding_cons zero byte w h lo hi pos fits = absurd (omega arith)
encoding_cons (suc r) byte w h lo hi pos fits = ground (
  arith,
  encoding_fuel r (suc r - 7) w,
  pow-le-pow_right {n = 2} (omega arith) {i = suc r - 7} {j = r} (omega arith),
)

whole_fits : (r g w : ℕ) → 7 < r → g < 128 → w < 2 ^ (r - 7) → g + 128 * w < 2 ^ r
whole_fits r g w h hg hw =
    omega
      (arith, two-pow-add (r - 7) 7, ap (λ (t : ℕ). 2 ^ t) {x = r} {y = r - 7 + 7} (omega arith))

module _ (s r i read k v byte : ℕ) (src rest : List ℕ) (hb : byte < 256)
    (e : read_loop (s + r) (byte ∷ src) s i read ≡ (count k, v, rest)) where
  on_last :
      byte < 128
      → byte < 2 ^ r
      → (s ≡ 0) ⊎ (0 < byte)
      → read_loop (s + r) (byte ∷ src) s i read ≡ (count (suc read), i + byte * 2 ^ s, src)
      → Canonical s r i read k v (byte ∷ src) rest
  on_last small fits canon result = (
    byte,
    fits,
    canon,
    sym (ap (λ t. t.1) same),
    rw (encoding_small r byte small) (ap (λ t. byte ∷ t.2) same),
    rw (encoding_small r byte small) (omega (arith, count_inj _ _ (ap (λ t. t.0) same))),
  )
    where
      same :
          ◌≡◌ {A = Code × ℕ × List ℕ} (count (suc read), i + byte * 2 ^ s, src) (count k, v, rest)
      same = sym result ∙ e

  on_more :
      128 ≤ byte
      → 7 < r
      → Continues src ⊎ Canonical (s + 7) (r - 7) (i + byte % 128 * 2 ^ s) (suc read) k v src rest
      → Continues (byte ∷ src) ⊎ Canonical s r i read k v (byte ∷ src) rest
  on_more big wide_left (inl c) = inl (big, c)
  on_more big wide_left (inr (w, fits, inl zero_shift, value, split, len)) = absurd (omega arith)
  on_more big wide_left (inr (w, fits, inr pos, value, split, len)) = inr (
    byte % 128 + 128 * w,
    whole_fits r (byte % 128) w wide_left (omega arith) fits,
    inr (omega arith),
    value ∙ rw (seven_more s) (omega arith),
    rw (encoding_cons r byte w wide_left big hb pos fits) (ap (◌∷◌ byte) split),
    rw (encoding_cons r byte w wide_left big hb pos fits) (omega arith),
  )

  by-Step :
      Step s r i read byte src (read_loop (s + r) (byte ∷ src) s i read)
      → (7 < r
          → read_loop (s + r) src (s + 7) (i + byte % 128 * 2 ^ s) (suc read) ≡ (count k, v, rest)
          → Continues src
            ⊎ Canonical (s + 7) (r - 7) (i + byte % 128 * 2 ^ s) (suc read) k v src rest)
      → Continues (byte ∷ src) ⊎ Canonical s r i read k v (byte ∷ src) rest
  by-Step (last small fits canon result) ih = inr (on_last small fits canon result)
  by-Step (more big wide_left result) ih = on_more big wide_left (ih wide_left (sym result ∙ e))
  by-Step (refused no_count) ih = absurd (no_count k (ap (λ t. t.0) e))

read_loop_inv :
    (src : List ℕ) (s r i read k v : ℕ) (rest : List ℕ)
    → 0 < r
    → All (λ b. b < 256) src
    → i < 2 ^ s
    → read_loop (s + r) src s i read ≡ (count k, v, rest)
    → Continues src ⊎ Canonical s r i read k v src rest
read_loop_inv [] s r i read k v rest hr bytes hi e = inl tt
read_loop_inv (byte ∷ src) s r i read k v rest hr (hb, bytes) hi e =
    by-Step s r i read k v byte src rest hb e (read-Step s r i read byte src hr hb hi)
      λ wide_left e'.
        read_loop_inv src (s + 7) (r - 7) (i + byte % 128 * 2 ^ s) (suc read) k v rest (omega arith)
          bytes (acc_fits s i (byte % 128) hi (omega arith))
          (ap (λ (b : ℕ). read_loop b src (s + 7) (i + byte % 128 * 2 ^ s) (suc read)) {y = s + r}
              (omega arith)
            ∙ e')

-- For every width and every list of bytes, where `read_varint` returns a count, either every byte
-- of the input has its top bit set (the input ended inside a number), or the input is what
-- `write_varint` writes for the value, followed by the rest, and the count is the number of bytes
-- that it wrote.
pub read_varint_canonical :
    (bits k v : ℕ) (input rest : List ℕ)
    → 0 < bits
    → All (λ b. b < 256) input
    → read_varint bits input ≡ (count k, v, rest)
    → Continues input
      ⊎ ((bs : List ℕ) × (write_varint bits v ≡ some bs)
          × (input ≡ bs ++ rest)
          × (k ≡ length bs)
          × (v < 2 ^ bits))
read_varint_canonical bits k v input rest pos bytes e =
    elim (read_loop_inv input 0 bits 0 0 k v rest pos bytes (omega arith) (
      ap (λ (b : ℕ). read_loop b input 0 0 0) {x = 0 + bits} {y = bits} (omega arith)
      ∙ sym (read_start bits input)
      ∙ e)) [
        | inl c ↦ inl c
        | inr (w, fits, canon, value, split, len) ↦
            let same : v ≡ w = omega arith in
            inr (
              encoding bits w,
              ap (write_varint bits) same ∙ unfold write_varint in write_loop_lem bits w fits,
              split,
              omega (arith, len),
              omega arith,
            )
      ]
