-- ===== src/Sending/Dust.antt =====
-- src/cryptonote_core/cryptonote_format_utils.h: the dust handler is called once at most, with no more
-- than the threshold.
use lira.Prelude.{
  ℕ, zero, suc, ◌+◌, ◌*◌, ◌/◌, ◌%◌, ◌^◌, ◌≤◌, ◌≡◌, refl, sym, subst, append_assoc, append-nil,
  none-ne-some, ◌⊎◌, ◌∙◌, arith, not, ◌||◌, leb, ◌==◌, if◌then◌else◌, Bool, true, false, inl, inr,
  Option, some, some-injective, bind_inv, List, [], ◌∷◌, ◌++◌,
}
use lira.Amounts.{
  Call, dust_handler, chunk_handler, dust_call, chunk_call, digits_loop,
  decompose_amount_into_digits,
}
use lira.Amounts.Total.{total}

-- The sum of the chunks, and the last dust.
unfoldable pub chunks_of : List Call → ℕ
chunks_of [] = 0
chunks_of (dust_handler v ∷ calls) = chunks_of calls
chunks_of (chunk_handler v ∷ calls) = v + chunks_of calls

unfoldable pub last_dust : ℕ → List Call → ℕ
last_dust dust [] = dust
last_dust dust (dust_handler v ∷ calls) = last_dust v calls
last_dust dust (chunk_handler v ∷ calls) = last_dust dust calls

-- Calls after the dust was handled, or before.
unfoldable pub OneDust : ℕ → Bool → List Call → Type 0
OneDust threshold true calls = ((d : ℕ) → last_dust d calls ≡ d) × (chunks_of calls ≡ total calls)
OneDust threshold false calls =
    (last_dust 0 calls ≤ threshold) × (chunks_of calls + last_dust 0 calls ≡ total calls)

not_zero : (x : ℕ) → (0 == suc x) ≡ false
not_zero x = ground arith

module _ (threshold : ℕ) where
  OneDust-none : (b : Bool) → OneDust threshold b []
  unfolding OneDust chunks_of last_dust total
  OneDust-none true = (λ d. refl, refl)
  OneDust-none false = (omega arith, refl)

  OneDust-chunk :
      (b : Bool) (chunk : ℕ) (rest : List Call)
      → OneDust threshold b rest
      → OneDust threshold b (chunk_call chunk ++ rest)
  unfolding OneDust chunk_call chunks_of last_dust total
  OneDust-chunk b zero rest one = one
  OneDust-chunk true (suc chunk) rest (same, sum) = rw (not_zero chunk) (same, omega (arith, sum))
  OneDust-chunk false (suc chunk) rest (le, sum) = rw (not_zero chunk) (le, omega (arith, sum))

  OneDust-dust :
      (b : Bool) (dust : ℕ) (rest : List Call)
      → dust ≤ threshold
      → OneDust threshold (b || not (0 == dust)) rest
      → OneDust threshold b (dust_call b dust ++ rest)
  unfolding OneDust dust_call chunks_of last_dust total
  OneDust-dust true dust rest le one = one
  OneDust-dust false zero rest le one = one
  OneDust-dust false (suc dust) rest le one =
      let handled : OneDust threshold true rest =
        subst (λ (e : Bool). OneDust threshold (not e) rest) (not_zero dust) one in
      rw (not_zero dust)
        (omega (arith, handled.0 (suc dust)), omega (arith, handled.0 (suc dust), handled.1))

  OneDust-turn :
      (fits b : Bool) (dust chunk : ℕ) (rest : List Call)
      → dust ≤ threshold
      → OneDust threshold (if fits then b else (b || not (0 == dust))) rest
      → OneDust threshold b ((if fits then [] else (dust_call b dust ++ chunk_call chunk)) ++ rest)
  OneDust-turn true b dust chunk rest le one = one
  OneDust-turn false b dust chunk rest le one =
      subst (OneDust threshold b) (sym (append_assoc (dust_call b dust) (chunk_call chunk) rest)) (
        OneDust-dust b dust (chunk_call chunk ++ rest) le
          (OneDust-chunk (b || not (0 == dust)) chunk rest one))

  below : (sum dust : ℕ) → dust ≤ threshold → (if leb sum threshold then sum else dust) ≤ threshold
  below sum dust le = ground (arith, le)

  if_some :
      (b : Bool) (x y : Option (List Call)) (r : List Call)
      → (if b then x else y) ≡ some r
      → (x ≡ some r) ⊎ (y ≡ some r)
  if_some true x y r h = inl h
  if_some false x y r h = inr h

  digits_loop-OneDust :
      (fuel amount : ℕ) (b : Bool) (dust order : ℕ) (calls : List Call)
      → dust ≤ threshold
      → digits_loop fuel threshold amount b dust order ≡ some calls
      → OneDust threshold b calls
  unfolding digits_loop
  digits_loop-OneDust zero amount b dust order calls le h = absurd (none-ne-some calls h)
  digits_loop-OneDust (suc fuel) amount b dust order calls le h =
      let chunk = amount % 10 * order % 2 ^ 64 in
      let sum = (dust + chunk) % 2 ^ 64 in
      elim (if_some (amount == 0) _ _ calls h) [
        | inl done ↦
            subst (OneDust threshold b) (append-nil (dust_call b dust) ∙ some-injective _ _ done)
              (OneDust-dust b dust [] le (OneDust-none (b || not (0 == dust))))
        | inr more ↦
            let (rest, run, whole) = bind_inv _ _ more in
            subst (OneDust threshold b) (some-injective _ _ whole) (
              OneDust-turn (leb sum threshold) b dust chunk rest le
                (digits_loop-OneDust fuel (amount / 10) _ _ _ rest (below sum dust le) run))
      ]

-- The change in digits: dust within the threshold, and chunks for the rest.
pub decompose-OneDust :
    (amount threshold : ℕ) (calls : List Call)
    → decompose_amount_into_digits amount threshold ≡ some calls
    → OneDust threshold false calls
unfolding decompose_amount_into_digits
decompose-OneDust zero threshold calls h =
    subst (OneDust threshold false) (some-injective _ _ h) (OneDust-none threshold false)
decompose-OneDust (suc amount) threshold calls h =
    digits_loop-OneDust threshold 21 (suc amount) false 0 1 calls (omega arith)
      (sym (rw (not_zero amount) refl) ∙ h)
