-- ===== src/Chacha8/Blocks.antt =====
-- src/crypto/chacha8.c: the blocks of the stream, and the loop over them.
use lira.Prelude.{
  ℕ, zero, suc, ◌*◌, ◌/◌, ◌%◌, ◌^◌, ◌≤◌, ◌<◌, ◌≡◌, refl, sym, ap, ◌∙◌, arith, some, List, [], ◌∷◌,
  ◌++◌, length, drop, All, ltb, if◌then◌else◌, lt→ltb, le→leb, le→not_ltb, lt→not_leb, lt-cases,
  ◌==◌, inl, inr, length-append, length-drop, append-nil,
}
use lira.Prelude.Xor.{IsByte}
use lira.Chacha8.{Words, words, store, core, next_counter, plus, chacha8_loop}
use lira.Chacha8.Bytes.{
  zip_xor, xor_data_lem, length-core, length-store, zip_xor-append, zip_xor_spare, zip_xor-take,
}

-- The first state with the 64-bit block counter set to `k`.
unfoldable pub at_block : Words → ℕ → Words
at_block (words j0 j1 j2 j3 j4 j5 j6 j7 j8 j9 j10 j11 j12 j13 j14 j15) k =
    words j0 j1 j2 j3 j4 j5 j6 j7 j8 j9 j10 j11 (k % 2 ^ 32) (k / 2 ^ 32 % 2 ^ 32) j14 j15

-- The bytes of `n` blocks from block `k` on.
unfoldable pub key_stream : Words → ℕ → ℕ → List ℕ
key_stream j zero k = []
key_stream j (suc n) k = store (core (at_block j k)) ++ key_stream j n (suc k)

low_counter : (k : ℕ) → plus (k % 2 ^ 32) 1 ≡ suc k % 2 ^ 32
unfolding plus
low_counter k = omega arith

high_counter :
    (k : ℕ)
    → (if plus (k % 2 ^ 32) 1 == 0 then plus (k / 2 ^ 32 % 2 ^ 32) 1 else k / 2 ^ 32 % 2 ^ 32)
      ≡ suc k / 2 ^ 32 % 2 ^ 32
unfolding plus
high_counter k = ground arith

next_counter-at_block : (j : Words) (k : ℕ) → next_counter (at_block j k) ≡ at_block j (suc k)
unfolding next_counter at_block
next_counter-at_block (words j0 j1 j2 j3 j4 j5 j6 j7 j8 j9 j10 j11 j12 j13 j14 j15) k =
    rw (high_counter k, low_counter k) refl

pub All-append_IsByte : (xs ys : List ℕ) → All IsByte xs → All IsByte ys → All IsByte (xs ++ ys)
All-append_IsByte [] ys hx hy = hy
All-append_IsByte (x ∷ xs) ys (h, hx) hy = (h, All-append_IsByte xs ys hx hy)

pub drop-IsByte : (n : ℕ) (xs : List ℕ) → All IsByte xs → All IsByte (drop n xs)
drop-IsByte zero xs hx = hx
drop-IsByte (suc n) [] hx = tt
drop-IsByte (suc n) (x ∷ xs) (h, hx) = drop-IsByte n xs hx

-- The block that is worked on: what is left of the text, filled up from `tmp`.
block_lem :
    (tmp bytes : List ℕ)
    → length tmp ≡ 64
    → All IsByte tmp
    → All IsByte bytes
    → (spare : List ℕ) × ((if ltb (length bytes) 64
          then bytes ++ drop (length bytes) tmp
          else bytes)
        ≡ bytes ++ spare)
      × (64 ≤ length (bytes ++ spare))
      × All IsByte (bytes ++ spare)
block_lem tmp bytes full ht hb = elim (lt-cases (length bytes) 64) [
  | inl short ↦ (
    drop (length bytes) tmp,
    rw (lt→ltb _ _ short) refl,
    omega (arith, length-append bytes (drop (length bytes) tmp), length-drop (length bytes) tmp),
    All-append_IsByte bytes _ hb (drop-IsByte (length bytes) tmp ht),
  )
  | inr long ↦ (
    [],
    rw (le→not_ltb _ _ long, append-nil bytes) refl,
    rw (append-nil bytes) long,
    rw (append-nil bytes) hb,
  )
]

pub length-block : (j : Words) → length (store (core j)) ≡ 64
length-block j = rw (length-store (core j), length-core j) refl

-- One turn of the loop, from the words that it reads.
module _ (fuel : ℕ) (tmp bytes : List ℕ) (j : Words) (full : length tmp ≡ 64) (ht : All IsByte tmp)
    (hb : All IsByte bytes) where
  last_block :
      (more : List ℕ)
      → length bytes ≤ 64
      → chacha8_loop (suc fuel) tmp bytes j ≡ some (zip_xor (store (core j) ++ more) bytes)
  unfolding chacha8_loop
  last_block more small =
      let (spare, block, enough, hs) = block_lem tmp bytes full ht hb in
      let (ws, run, same) = xor_data_lem (core j) (bytes ++ spare) (rw (length-core j) enough) hs in
      let fits : length bytes ≤ length (store (core j)) = rw (length-block j) small in
      rw (block, run, le→leb _ _ small, same, zip_xor_spare (store (core j)) more bytes spare fits)
        refl

  inner_block :
      (rest : List ℕ)
      → 64 < length bytes
      → chacha8_loop fuel tmp (drop 64 bytes) (next_counter j) ≡ some rest
      → chacha8_loop (suc fuel) tmp bytes j ≡ some (zip_xor (store (core j)) bytes ++ rest)
  unfolding chacha8_loop
  inner_block rest large next =
      let (ws, run, same) = xor_data_lem (core j) bytes (rw (length-core j) (omega arith)) hb in
      rw (le→not_ltb (length bytes) 64 (omega arith), run, lt→not_leb _ _ large, next, same) refl

split_stream :
    (now later bytes : List ℕ)
    → length now ≡ 64
    → zip_xor (now ++ later) bytes ≡ zip_xor now bytes ++ zip_xor later (drop 64 bytes)
split_stream now later bytes whole =
    zip_xor-append now later bytes ∙ rw (zip_xor-take now bytes, whole) refl

-- Any number of blocks that the text fits.
pub chacha8_loop_lem :
    (n k : ℕ) (tmp bytes : List ℕ) (j : Words)
    → length tmp ≡ 64
    → All IsByte tmp
    → All IsByte bytes
    → length bytes ≤ suc n * 64
    → chacha8_loop (suc n) tmp bytes (at_block j k) ≡ some (zip_xor (key_stream j (suc n) k) bytes)
unfolding key_stream
chacha8_loop_lem zero k tmp bytes j full ht hb fits =
    last_block zero tmp bytes (at_block j k) full ht hb [] fits
chacha8_loop_lem (suc n) k tmp bytes j full ht hb fits =
    let now = store (core (at_block j k)) in
    let later = key_stream j (suc n) (suc k) in
    elim (lt-cases 64 (length bytes)) [
      | inl large ↦
          let follow =
            chacha8_loop_lem n (suc k) tmp (drop 64 bytes) j full ht (drop-IsByte 64 bytes hb)
              (omega (arith, length-drop 64 bytes)) in
          let next : chacha8_loop (suc n) tmp (drop 64 bytes) (next_counter (at_block j k))
              ≡ some (zip_xor later (drop 64 bytes)) =
            rw (next_counter-at_block j k) follow in
          inner_block (suc n) tmp bytes (at_block j k) full ht hb (zip_xor later (drop 64 bytes))
            large next
          ∙ ap some (sym (split_stream now later bytes (length-block (at_block j k))))
      | inr small ↦ last_block (suc n) tmp bytes (at_block j k) full ht hb later small
    ]
