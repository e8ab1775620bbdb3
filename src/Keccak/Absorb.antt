-- ===== src/Keccak/Absorb.antt =====
-- src/crypto/keccak.c: a block goes into the state, whatever follows it.
use lira.Prelude.{
  ℕ, zero, suc, ◌+◌, ◌*◌, ◌/◌, ◌≤◌, ◌<◌, ◌≡◌, refl, arith, some, List, [], ◌∷◌, ◌++◌, length, drop,
  length-drop,
}
use lira.Keccak.{for_loop, load, absorb_word, absorb_block}
use lira.Keccak.Loops.{load_lem, xor_into_lem}
use lira.Keccak.Permutation.{keccakf_lem}

-- What follows the bytes that are read does not count.
load-append :
    (count : ℕ) (bytes more : List ℕ)
    → count ≤ length bytes
    → load count (bytes ++ more) ≡ load count bytes
unfolding load
load-append zero bytes more h = refl
load-append (suc count) [] more h = absurd (omega arith)
load-append (suc count) (b ∷ bytes) more h = rw (load-append count bytes more (omega arith)) refl

pub drop_inside :
    (n : ℕ) (bytes more : List ℕ) → n ≤ length bytes → drop n (bytes ++ more) ≡ drop n bytes ++ more
drop_inside zero bytes more h = refl
drop_inside (suc n) [] more h = absurd (omega arith)
drop_inside (suc n) (b ∷ bytes) more h = drop_inside n bytes more (omega arith)

absorb_word_lem :
    (bytes more st : List ℕ) (k : ℕ)
    → 8 * k + 8 ≤ length bytes
    → k < 25
    → length st ≡ 25
    → (st' : List ℕ) × (absorb_word (bytes ++ more) k st ≡ some st')
      × (length st' ≡ 25)
      × (absorb_word bytes k st ≡ some st')
unfolding absorb_word
absorb_word_lem bytes more st k long small len =
    let inside : 8 ≤ length (drop (8 * k) bytes) = omega (arith, length-drop (8 * k) bytes) in
    let (w, read) = load_lem 8 (drop (8 * k) bytes) inside in
    let (st', run, same) = xor_into_lem 25 st k w len small in
    (
      st',
      rw
          (
            drop_inside (8 * k) bytes more (omega arith),
            load-append 8 (drop (8 * k) bytes) more inside,
            read,
          )
          run,
      same,
      rw read run,
    )

-- The words of a block, with and without more bytes behind it.
words_lem :
    (bytes more : List ℕ) (count i : ℕ) (st : List ℕ)
    → 8 * (i + count) ≤ length bytes
    → i + count ≤ 25
    → length st ≡ 25
    → (st' : List ℕ) × (for_loop count 1 (absorb_word (bytes ++ more)) i st ≡ some st')
      × (length st' ≡ 25)
      × (for_loop count 1 (absorb_word bytes) i st ≡ some st')
unfolding for_loop
words_lem bytes more zero i st long small len = (st, refl, len, refl)
words_lem bytes more (suc count) i st long small len =
    let (s, first, s_len, alone) =
      absorb_word_lem bytes more st i (omega arith) (omega arith) len in
    let (t, rest, t_len, others) =
      words_lem bytes more count (i + 1) s (omega arith) (omega arith) s_len in
    (t, rw (first, rest) refl, t_len, rw (alone, others) refl)

-- One block on any `bc`, with any bytes behind it.
module _ (rsiz : ℕ) (bytes more st : List ℕ) where
  pub absorb_block_lem :
      rsiz ≤ 200
      → rsiz ≤ length bytes
      → length st ≡ 25
      → (st' : List ℕ) × (length st' ≡ 25)
        × ((bc : List ℕ)
            → length bc ≡ 5
            → (absorb_block bc rsiz (bytes ++ more) st ≡ some st')
              × (absorb_block bc rsiz bytes st ≡ some st'))
  unfolding absorb_block
  absorb_block_lem small long len =
      let (s, both, s_len, alone) =
        words_lem bytes more (rsiz / 8) 0 st (omega arith) (omega arith) len in
      let (t, t_len, run) = keccakf_lem s 23 (omega arith) s_len in
      (t, t_len, λ bc full. (rw (both, run bc full) refl, rw (alone, run bc full) refl))
