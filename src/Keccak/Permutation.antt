-- ===== src/Keccak/Permutation.antt =====
-- src/crypto/keccak.c: the permutation reads and writes inside its arrays.
use lira.Prelude.{
  ℕ, suc, ◌+◌, ◌-◌, ◌%◌, ◌^◌, ◌≤◌, ◌≡◌, refl, arith, bit_xor, bit_and, some, List, [], ◌∷◌, length,
  set,
}
use lira.Keccak.{
  for_loop, xor_into, theta_parity, theta_column, rho_pi, chi_cell, copy_cell, chi_row,
  keccak_round, keccakf, keccakf_piln, keccakf_rotc, keccakf_rndc, rotl64,
}
use lira.Keccak.Loops.{five, lane_lem, for_loop_lem, at_index, write_lem, xor_into_lem}

-- The parity of a column, whatever `bc` holds.
theta_parity_lem :
    (st : List ℕ) (i : ℕ)
    → length st ≡ 25
    → i ≤ 4
    → (p : ℕ) × ((bc : List ℕ) → length bc ≡ 5 → theta_parity st i bc ≡ some (set bc i p))
unfolding theta_parity
theta_parity_lem st i len small =
    let (a, ha) = at_index 25 st i len (omega arith) in
    let (b, hb) = at_index 25 st (i + 5) len (omega arith) in
    let (c, hc) = at_index 25 st (i + 10) len (omega arith) in
    let (d, hd) = at_index 25 st (i + 15) len (omega arith) in
    let (e, he) = at_index 25 st (i + 20) len (omega arith) in
    (
      bit_xor (bit_xor (bit_xor (bit_xor a b) c) d) e,
      λ bc full. rw (ha, hb, hc, hd, he) (write_lem 5 bc i _ full (omega arith)).0,
    )

-- The loop writes all of `bc`, so that nothing depends on what it held.
parities_lem :
    (st : List ℕ)
    → length st ≡ 25
    → (parity : List ℕ) × (length parity ≡ 5)
      × ((bc : List ℕ) → length bc ≡ 5 → for_loop 5 1 (theta_parity st) 0 bc ≡ some parity)
unfolding for_loop
parities_lem st len =
    let (p0, h0) = theta_parity_lem st 0 len (omega arith) in
    let (p1, h1) = theta_parity_lem st 1 len (omega arith) in
    let (p2, h2) = theta_parity_lem st 2 len (omega arith) in
    let (p3, h3) = theta_parity_lem st 3 len (omega arith) in
    let (p4, h4) = theta_parity_lem st 4 len (omega arith) in
    (
      p0 ∷ p1 ∷ p2 ∷ p3 ∷ p4 ∷ [],
      refl,
      λ bc full.
          let (a, b, c, d, e, same) = five bc full in
          rw
            (
              same,
              h0 (a ∷ b ∷ c ∷ d ∷ e ∷ []) refl,
              h1 (p0 ∷ b ∷ c ∷ d ∷ e ∷ []) refl,
              h2 (p0 ∷ p1 ∷ c ∷ d ∷ e ∷ []) refl,
              h3 (p0 ∷ p1 ∷ p2 ∷ d ∷ e ∷ []) refl,
              h4 (p0 ∷ p1 ∷ p2 ∷ p3 ∷ e ∷ []) refl,
            )
            refl,
    )

theta_column_lem :
    (bc st : List ℕ) (i : ℕ)
    → length bc ≡ 5
    → length st ≡ 25
    → i ≤ 4
    → (st' : List ℕ) × (theta_column bc i st ≡ some st') × (length st' ≡ 25)
unfolding theta_column
theta_column_lem bc st i full len small =
    let (l, hl) = at_index 5 bc ((i + 4) % 5) full (omega arith) in
    let (r, hr) = at_index 5 bc ((i + 1) % 5) full (omega arith) in
    let (st', run, same) =
      for_loop_lem (λ (s : List ℕ). length s ≡ 25) 20 5
        (λ j s. xor_into s (j + i) (bit_xor l (rotl64 r 1)))
        (λ j s hj hs. xor_into_lem 25 s (j + i) _ hs (omega arith)) 5 0 st (omega arith) len in
    (st', rw (hl, hr) run, same)

rho_pi_lem :
    (i : ℕ) (x : ℕ × List ℕ)
    → i ≤ 23
    → length (x.1) ≡ 25
    → (y : ℕ × List ℕ) × (rho_pi i x ≡ some y) × (length (y.1) ≡ 25)
unfolding rho_pi
rho_pi_lem i (t, st) small len =
    let (j, hj) = at_index 24 keccakf_piln i refl (omega arith) in
    let (moved, hm) = at_index 25 st j len (lane_lem i j hj) in
    let (turn, ht) = at_index 24 keccakf_rotc i refl (omega arith) in
    let (run, same) = write_lem 25 st j (rotl64 t turn) len (lane_lem i j hj) in
    ((moved, set st j (rotl64 t turn)), rw (hj, hm, ht, run) refl, same)

chi_cell_lem :
    (bc st : List ℕ) (j i : ℕ)
    → length bc ≡ 5
    → j ≤ 20
    → i ≤ 4
    → length st ≡ 25
    → (st' : List ℕ) × (chi_cell bc j i st ≡ some st') × (length st' ≡ 25)
unfolding chi_cell
chi_cell_lem bc st j i full hj hi len =
    let (a, ha) = at_index 5 bc ((i + 1) % 5) full (omega arith) in
    let (b, hb) = at_index 5 bc ((i + 2) % 5) full (omega arith) in
    let (st', run, same) =
      xor_into_lem 25 st (j + i) (bit_and (2 ^ 64 - 1 - a) b) len (omega arith) in
    (st', rw (ha, hb, run) refl, same)

copy_cell_lem :
    (st bc : List ℕ) (j i : ℕ)
    → length st ≡ 25
    → j ≤ 20
    → i ≤ 4
    → length bc ≡ 5
    → (bc' : List ℕ) × (copy_cell st j i bc ≡ some bc') × (length bc' ≡ 5)
unfolding copy_cell
copy_cell_lem st bc j i len hj hi full =
    let (x, hx) = at_index 25 st (j + i) len (omega arith) in
    let (run, same) = write_lem 5 bc i x full (omega arith) in (set bc i x, rw (hx, run) refl, same)

-- `bc` and the state.
abbrev pub InShape : List ℕ × List ℕ → Type 0
InShape x = (length (x.0) ≡ 5) × (length (x.1) ≡ 25)

chi_row_lem :
    (j : ℕ) (x : List ℕ × List ℕ)
    → j ≤ 20
    → InShape x
    → (y : List ℕ × List ℕ) × (chi_row j x ≡ some y) × InShape y
unfolding chi_row
chi_row_lem j (bc, st) hj (full, len) =
    let (bc', copied, full') =
      for_loop_lem (λ (b : List ℕ). length b ≡ 5) 4 1 (copy_cell st j)
        (λ i b hi hb. copy_cell_lem st b j i len hj hi hb) 5 0 bc (omega arith) full in
    let (st', mixed, len') =
      for_loop_lem (λ (s : List ℕ). length s ≡ 25) 4 1 (chi_cell bc' j)
        (λ i s hi hs. chi_cell_lem bc' s j i full' hj hi hs) 5 0 st (omega arith) len in
    ((bc', st'), rw (copied, mixed) refl, (full', len'))

-- A round on any `bc`.
pub keccak_round_lem :
    (round : ℕ) (st : List ℕ)
    → round ≤ 23
    → length st ≡ 25
    → (y : List ℕ × List ℕ) × InShape y
      × ((bc : List ℕ) → length bc ≡ 5 → keccak_round round (bc, st) ≡ some y)
unfolding keccak_round
keccak_round_lem round st small len =
    let (parity, full, theta) = parities_lem st len in
    let (mixed, columns, mixed_len) =
      for_loop_lem (λ (s : List ℕ). length s ≡ 25) 4 1 (theta_column parity)
        (λ i s hi hs. theta_column_lem parity s i full hs hi) 5 0 st (omega arith) len in
    let (first, hf) = at_index 25 mixed 1 mixed_len (omega arith) in
    let (moved, rho, moved_len) =
      for_loop_lem (λ (x : ℕ × List ℕ). length (x.1) ≡ 25) 23 1 rho_pi rho_pi_lem 24 0
        (first, mixed) (omega arith) mixed_len in
    let (kept, kept_full) = write_lem 5 parity 0 (moved.0) full (omega arith) in
    let (rows, chi, (rows_full, rows_len)) =
      for_loop_lem InShape 20 5 chi_row chi_row_lem 5 0 (set parity 0 (moved.0), moved.1)
        (omega arith) (kept_full, moved_len) in
    let (constant, hc) = at_index 24 keccakf_rndc round refl (omega arith) in
    let (st', iota, st_len) = xor_into_lem 25 (rows.1) 0 constant rows_len (omega arith) in
    (
      (rows.0, st'),
      (rows_full, st_len),
      λ bc bc_full. rw (theta bc bc_full, columns, hf, rho, kept, chi, hc, iota) refl,
    )

-- Up to 24 rounds, on any `bc`.
pub keccakf_lem :
    (st : List ℕ) (rounds : ℕ)
    → suc rounds ≤ 24
    → length st ≡ 25
    → (st' : List ℕ) × (length st' ≡ 25)
      × ((bc : List ℕ) → length bc ≡ 5 → keccakf bc st (suc rounds) ≡ some st')
unfolding keccakf for_loop
keccakf_lem st rounds fits len =
    let (y, shape, once) = keccak_round_lem 0 st (omega arith) len in
    let (z, run, (full, final)) =
      for_loop_lem InShape 23 1 keccak_round
        (λ k x hk (hb, hs).
          let (y', shape', every) = keccak_round_lem k (x.1) hk hs in (y', every (x.0) hb, shape'))
        rounds 1 y (omega arith) shape in
    (z.1, final, λ bc full. rw (once bc full, run) refl)
