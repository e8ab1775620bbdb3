-- ===== src/SwappedVector/Refinement.antt =====
-- src/cryptonote_core/SwappedVector.h: the vector behaves as the plain list of its items.
use lira.Prelude.{
  ℕ, ◌-◌, ◌<◌, ◌≡◌, refl, sym, ap, subst, ◌∙◌, inl, inr, ◌==◌, false, if◌then◌else◌, Option, none,
  some, some-injective, none-ne-some, Option-cases, Bool-cases, ◌>>=◌, List, [], ◌∷◌, ◌++◌, length,
  length-append, get_elem?, take, take_append, snoc-cases, arith,
}
use lira.SwappedVector.{
  SwappedVector, find_item, clear, pop_back, hit, at, push_back, opened, open_new,
}
use lira.SwappedVector.Files.{bytes_of, starts, sizes_of, starts-none}
use lira.SwappedVector.Steps.{Holds, opened_step, push_step, pop_step, clear_step}
use lira.SwappedVector.Reads.{miss_fail, at-miss, pop_empty, hit_step, miss_step}

-- The calls of a vector that change it or read it.
pub data Call (T : Type 0) : Type 0 where
  pushing : T → Call T
  popping : Call T
  clearing : Call T
  reading : ℕ → Call T

-- A plain vector: `none` is an exception, or undefined.
unfoldable pub plain_call : {T : Type 0} → List T → Call T → Option (List T × Option T)
plain_call xs (pushing x) = some (xs ++ (x ∷ []), none)
plain_call xs popping = if length xs == 0 then none else some (take (length xs - 1) xs, none)
plain_call xs clearing = some ([], none)
plain_call xs (reading i) = get_elem? xs i >>= λ x. some (xs, some x)

-- The results of a sequence of calls, up to the first that fails.
-- The result of a call, and the results of what follows it unless the call fails.
abbrev pub after : {S R : Type 0} → Option (S × R) → (S → List (Option R)) → List (Option R)
after none next = none ∷ []
after (some (s, r)) next = some r ∷ next s

unfoldable pub plain_results : {T : Type 0} → List T → List (Call T) → List (Option (Option T))
plain_results xs [] = []
plain_results xs (c ∷ cs) = after (plain_call xs c) (λ xs'. plain_results xs' cs)

starts_nil : {T : Type 0} (serialize : T → List ℕ) → starts serialize 0 [] ≡ []
unfolding starts
starts_nil serialize = refl

open_new_inv :
    {T : Type 0} (pool : ℕ) (v : SwappedVector T)
    → open_new pool ≡ some v
    → (0 < pool) × (opened [] 0 [] pool [] 0 ≡ v)
unfolding open_new
open_new_inv pool v made = elim (Bool-cases (pool == 0)) [
  | inl nothing ↦ absurd (none-ne-some v (rw nothing at made))
  | inr room ↦ (ground arith, some-injective _ _ (rw room at made))
]

plain_pop :
    {T : Type 0} (ys : List T) (y : T) → plain_call (ys ++ (y ∷ [])) popping ≡ some (ys, none)
unfolding plain_call
plain_pop ys y =
    let n = length-append ys (y ∷ []) in
    let more : (length (ys ++ (y ∷ [])) == 0) ≡ false = ground (arith, n) in
    rw (more, take_append (length (ys ++ (y ∷ [])) - 1) ys (y ∷ []) (omega (arith, n))) refl

module _ {T : Type 0} (serialize : T → List ℕ) (deserialize : List ℕ → Option T) where
  unfoldable pub call : SwappedVector T → Call T → Option (SwappedVector T × Option T)
  call v (pushing x) = push_back serialize v x >>= λ v'. some (v', none)
  call v popping = pop_back v >>= λ v'. some (v', none)
  call v clearing = some (clear v, none)
  call v (reading i) = at deserialize v i >>= λ (v', x). some (v', some x)

  unfoldable pub results : SwappedVector T → List (Call T) → List (Option (Option T))
  results v [] = []
  results v (c ∷ cs) = after (call v c) (λ v'. results v' cs)

  module _ (law : (x : T) (rest : List ℕ) → deserialize (serialize x ++ rest) ≡ some x) where
    -- One call gives the result of the plain vector, and holds what it holds.
    abbrev pub Agrees :
        ℕ → Option (SwappedVector T × Option T) → Option (List T × Option T) → Type 0
    Agrees pool none none = Unit
    Agrees pool none (some p) = ⊥
    Agrees pool (some r) none = ⊥
    Agrees pool (some (v, r)) (some (xs, r')) = (r ≡ r') × Holds serialize pool xs v

    read_step :
        (pool : ℕ) (xs : List T) (v : SwappedVector T) (i : ℕ)
        → Holds serialize pool xs v
        → Agrees pool (call v (reading i)) (plain_call xs (reading i))
    unfolding call plain_call hit
    read_step pool xs v i h = elim (Option-cases (find_item i v.items)) [
      | inr (x, found) ↦
          let (run, h', item) = hit_step serialize deserialize law pool xs v i x h found in
          rw (run, item) (refl, h')
      | inl absent ↦ elim (Option-cases (get_elem? xs i)) [
        | inr (x, item) ↦
            let (v', run, h') = miss_step serialize deserialize law pool xs v i x h absent item in
            rw (at-miss deserialize v i absent, run, item) (refl, h')
        | inl out ↦
            let gone : get_elem? v.offsets i ≡ none =
              ap (λ (t : List ℕ). get_elem? t i) h.offsets ∙ starts-none serialize 0 xs i out in
            rw (at-miss deserialize v i absent, miss_fail deserialize v i gone, out) tt
      ]
    ]

    pop_call :
        (pool : ℕ) (xs : List T) (v : SwappedVector T)
        → Holds serialize pool xs v
        → Agrees pool (call v popping) (plain_call xs popping)
    unfolding call plain_call
    pop_call pool xs v h = elim (snoc-cases xs) [
      | inl nothing ↦
          let none_left : v.offsets ≡ [] =
            h.offsets ∙ ap (starts serialize 0) nothing ∙ starts_nil serialize in
          subst (λ (t : List T). Agrees pool (call v popping) (plain_call t popping)) (sym nothing)
            (rw (pop_empty v none_left) tt)
      | inr (ys, y, split) ↦
          let (v', run, h') =
            pop_step serialize pool ys y v
              (subst (λ (t : List T). Holds serialize pool t v) split h) in
          subst (λ (t : List T). Agrees pool (call v popping) (plain_call t popping)) (sym split)
            (rw (run, plain_pop ys y) (refl, h'))
    ]

    pub call_step :
        (pool : ℕ) (xs : List T) (v : SwappedVector T) (c : Call T)
        → Holds serialize pool xs v
        → Agrees pool (call v c) (plain_call xs c)
    unfolding call plain_call
    call_step pool xs v (pushing x) h =
        let (v', run, h') = push_step serialize pool xs v x h in rw run (refl, h')
    call_step pool xs v popping h = pop_call pool xs v h
    call_step pool xs v clearing h = (refl, clear_step serialize pool xs v h)
    call_step pool xs v (reading i) h = read_step pool xs v i h

    after_step :
        (pool : ℕ) (cs : List (Call T)) (r : Option (SwappedVector T × Option T))
        (p : Option (List T × Option T))
        → Agrees pool r p
        → ((xs : List T) (v : SwappedVector T)
            → Holds serialize pool xs v
            → results v cs ≡ plain_results xs cs)
        → after r (λ v. results v cs) ≡ after p (λ xs. plain_results xs cs)
    after_step pool cs none none same next = refl
    after_step pool cs none (some p) same next = elim same [ ]
    after_step pool cs (some r) none same next = elim same [ ]
    after_step pool cs (some (v, r)) (some (xs, r')) (same, h) next =
        λ i. some (same i) ∷ next xs v h i

    pub results_step :
        (pool : ℕ) (cs : List (Call T)) (xs : List T) (v : SwappedVector T)
        → Holds serialize pool xs v
        → results v cs ≡ plain_results xs cs
    unfolding results plain_results
    results_step pool [] xs v h = refl
    results_step pool (c ∷ cs) xs v h =
        after_step pool cs (call v c) (plain_call xs c) (call_step pool xs v c h)
          (results_step pool cs)

    -- A new vector holds the empty list.
    pub new_step :
        (pool : ℕ) (v : SwappedVector T) → open_new pool ≡ some v → Holds serialize pool [] v
    unfolding bytes_of sizes_of
    new_step pool v made =
        let (room, same) = open_new_inv pool v made in
        subst (Holds serialize pool []) same (
          opened_step serialize pool [] [] 0 [] [] 0 room (sym (starts_nil serialize)) refl refl
            ([], refl) ([], refl))

    -- Where the serialization reads back what it wrote, whatever follows it: on a new vector any
    -- sequence of calls gives the results of a plain vector, failures included, whatever the pool
    -- keeps in memory.
    pub results-open_new :
        (pool : ℕ) (v : SwappedVector T) (calls : List (Call T))
        → open_new pool ≡ some v
        → results v calls ≡ plain_results [] calls
    results-open_new pool v calls made = results_step pool calls [] v (new_step pool v made)
