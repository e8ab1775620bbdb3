-- ===== src/Keccak/Loops.antt =====
-- src/crypto/keccak.c: loops and array accesses that stay inside their bounds.
use lira.Prelude.{
  ℕ, zero, suc, ◌+◌, ◌*◌, ◌^◌, ◌≤◌, ◌<◌, ◌≡◌, refl, ◌∙◌, arith, bit_xor, ltb, lt→ltb, ◌&&◌, Bool,
  true, Option, some, some-injective, none-ne-some, subst, List, [], ◌∷◌, length, get_elem?,
  get_elem?_lem, set, length-set,
}
use lira.Keccak.{for_loop, write, xor_into, load, keccakf_piln}

-- A loop runs to its end when each round does, on a state with the property `P`.
pub for_loop_lem {ℓ κ} :
    {S : Type ℓ} (P : S → Type κ) (last step : ℕ) (body : ℕ → S → Option S)
    → ((k : ℕ) (x : S) → k ≤ last → P x → (y : S) × (body k x ≡ some y) × P y)
    → (count i : ℕ) (s : S) → i + count * step ≤ last + step
    → P s
    → (t : S) × (for_loop count step body i s ≡ some t) × P t
unfolding for_loop
for_loop_lem P last step body each zero i s fits p = (s, refl, p)
for_loop_lem P last step body each (suc count) i s fits p =
    let (s', once, p') = each i s (grind arith) p in
    let (t, run, q) = for_loop_lem P last step body each count (i + step) s' (grind arith) p' in
    (t, rw once run, q)

-- A read in a list of a known length.
pub at_index :
    (n : ℕ) (xs : List ℕ) (i : ℕ) → length xs ≡ n → i < n → (a : ℕ) × (get_elem? xs i ≡ some a)
at_index n xs i len h = let (a, found, rest) = get_elem?_lem xs i (omega arith) in (a, found)

pub write_lem :
    (n : ℕ) (xs : List ℕ) (i v : ℕ)
    → length xs ≡ n
    → i < n
    → (write xs i v ≡ some (set xs i v)) × (length (set xs i v) ≡ n)
unfolding write
write_lem n xs i v len h = (rw (lt→ltb i (length xs) (omega arith)) refl, length-set xs i v ∙ len)

pub xor_into_lem :
    (n : ℕ) (xs : List ℕ) (i v : ℕ)
    → length xs ≡ n
    → i < n
    → (ys : List ℕ) × (xor_into xs i v ≡ some ys) × (length ys ≡ n)
unfolding xor_into
xor_into_lem n xs i v len h =
    let (x, found) = at_index n xs i len h in
    let (run, same) = write_lem n xs i (bit_xor x v) len h in
    (set xs i (bit_xor x v), rw (found, run) refl, same)

pub load_lem :
    (count : ℕ) (bytes : List ℕ) → count ≤ length bytes → (w : ℕ) × (load count bytes ≡ some w)
unfolding load
load_lem zero bytes h = (0, refl)
load_lem (suc count) [] h = absurd (omega arith)
load_lem (suc count) (b ∷ bytes) h =
    let (w, run) = load_lem count bytes (omega arith) in (b + 2 ^ 8 * w, rw run refl)

-- The entries of a table are below a bound.
all_lt : ℕ → List ℕ → Bool
all_lt bound [] = true
all_lt bound (x ∷ xs) = ltb x bound && all_lt bound xs

all_lt_sound :
    (bound : ℕ) (xs : List ℕ)
    → all_lt bound xs ≡ true
    → (i a : ℕ) → get_elem? xs i ≡ some a
    → a < bound
unfolding all_lt
all_lt_sound bound [] h i a found = absurd (none-ne-some a found)
all_lt_sound bound (x ∷ xs) h zero a found =
    subst (λ (t : ℕ). t < bound) (some-injective _ _ found) (ground arith)
all_lt_sound bound (x ∷ xs) h (suc i) a found = all_lt_sound bound xs (ground arith) i a found

pub lane_lem : (i j : ℕ) → get_elem? keccakf_piln i ≡ some j → j < 25
unfolding all_lt
lane_lem i j found = all_lt_sound 25 keccakf_piln refl i j found

-- The five elements of `bc`.
pub five :
    (bc : List ℕ)
    → length bc ≡ 5
    → (a : ℕ) × (b : ℕ) × (c : ℕ) × (d : ℕ) × (e : ℕ) × (bc ≡ a ∷ b ∷ c ∷ d ∷ e ∷ [])
five [] h = absurd (omega arith)
five (a ∷ []) h = absurd (omega arith)
five (a ∷ b ∷ []) h = absurd (omega arith)
five (a ∷ b ∷ c ∷ []) h = absurd (omega arith)
five (a ∷ b ∷ c ∷ d ∷ []) h = absurd (omega arith)
five (a ∷ b ∷ c ∷ d ∷ e ∷ []) h = (a, b, c, d, e, refl)
five (a ∷ b ∷ c ∷ d ∷ e ∷ x ∷ rest) h = absurd (omega arith)
