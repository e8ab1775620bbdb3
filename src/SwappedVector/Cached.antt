-- ===== src/SwappedVector/Cached.antt =====
-- src/cryptonote_core/SwappedVector.h: every operation keeps what is in memory in order.
use lira.Prelude.{
  ℕ, suc, ◌-◌, ◌≤◌, ◌<◌, ◌≡◌, refl, sym, ap, subst, ◌∙◌, ◌⊎◌, inl, inr, true, false, ◌==◌,
  if◌then◌else◌, lt-cases, some, Option-cases, Bool-cases, ==_iff, List, [], ◌∷◌, ◌++◌, length,
  length-append, get_elem?, arith,
}
use lira.SwappedVector.{
  SwappedVector, find_item, erase_item, erase_entry, touch, make_room, prepare, forget,
}
use lira.SwappedVector.Pool.{
  count_items, count, count-append, count-erase_entry, length-erase_entry, count-erase_item,
  length-erase_item, count_found, count_absent, All-erase_item, count-touch, length-touch, narrow,
  Pooled,
}

erase_head : (i : ℕ) (cache : List ℕ) → erase_entry i (i ∷ cache) ≡ cache
unfolding erase_entry
erase_head i cache = let same : (i == i) ≡ true = ground arith in rw same refl

count_head : (i : ℕ) (cache : List ℕ) → 0 < count i (i ∷ cache)
unfolding count
count_head i cache = ground arith

inserted_once :
    {T : Type 0} (k i : ℕ) (t : T) (items : List (ℕ × T))
    → count_items k items ≤ 1
    → count_items i items ≡ 0
    → count_items k ((i, t) ∷ items) ≤ 1
unfolding count_items
inserted_once k i t items once absent = elim (Bool-cases (i == k)) [
  | inl same ↦
      let none_yet : count_items k items ≡ 0 =
        ap (λ (j : ℕ). count_items j items) (sym ((==_iff i k).0 same)) ∙ absent in
      ground (arith, none_yet)
  | inr other ↦ ground arith
]

inserted_balance :
    {T : Type 0} (k i : ℕ) (t : T) (items : List (ℕ × T)) (cache : List ℕ)
    → count_items k items ≡ count k cache
    → count_items k ((i, t) ∷ items) ≡ count k (cache ++ (i ∷ []))
unfolding count_items count
inserted_balance k i t items cache same = ground (arith, count-append k cache (i ∷ []))

module _ {T : Type 0} (xs : List T) (pool : ℕ) where
  -- Without one entry, in both.
  pub dropped-Pooled :
      (items : List (ℕ × T)) (cache : List ℕ) (i : ℕ)
      → Pooled xs pool items cache
      → 0 < count_items i items
      → Pooled xs pool (erase_item i items) (erase_entry i cache)
  dropped-Pooled items cache i p there = record {
    agree = All-erase_item _ i items p.agree;
    once = λ k. omega (arith, count-erase_item k i items, p.once k);
    balance = λ k.
        count-erase_item k i items
        ∙ ap (λ (n : ℕ). n - (if i == k then 1 else 0)) (p.balance k)
        ∙ sym (count-erase_entry k i cache);
    same_length = omega (
      arith,
      length-erase_item i items there,
      length-erase_entry i cache (omega (arith, p.balance i)),
      p.same_length,
    );
    bound = omega (arith, length-erase_item i items there, p.bound);
    room = p.room;
  }

  evicted-Pooled :
      (items : List (ℕ × T)) (oldest : ℕ) (cache : List ℕ)
      → Pooled xs pool items (oldest ∷ cache)
      → Pooled xs pool (erase_item oldest items) cache
        × (suc (length (erase_item oldest items)) ≡ length items)
  evicted-Pooled items oldest cache p =
      let there : 0 < count_items oldest items =
        omega (arith, p.balance oldest, count_head oldest cache) in
      (
        subst (Pooled xs pool (erase_item oldest items)) (erase_head oldest cache)
            (dropped-Pooled items (oldest ∷ cache) oldest p there),
        length-erase_item oldest items there,
      )

  pub touched-Pooled :
      (items : List (ℕ × T)) (cache : List ℕ) (i : ℕ)
      → Pooled xs pool items cache
      → 0 < count_items i items
      → Pooled xs pool items (touch i cache)
  touched-Pooled items cache i p there =
      let inside : 0 < count i cache = omega (arith, p.balance i) in
      record {
        agree = p.agree;
        once = p.once;
        balance = λ k. p.balance k ∙ sym (count-touch k i cache inside);
        same_length = p.same_length ∙ sym (length-touch i cache inside);
        bound = p.bound;
        room = p.room;
      }

  inserted-Pooled :
      (items : List (ℕ × T)) (cache : List ℕ) (i : ℕ) (t : T)
      → Pooled xs pool items cache
      → length items < pool
      → count_items i items ≡ 0
      → get_elem? xs i ≡ some t
      → Pooled xs pool ((i, t) ∷ items) (cache ++ (i ∷ []))
  inserted-Pooled items cache i t p free absent item = record {
    agree = (item, p.agree);
    once = λ k. inserted_once k i t items (p.once k) absent;
    balance = λ k. inserted_balance k i t items cache (p.balance k);
    same_length = omega (arith, p.same_length, length-append cache (i ∷ []));
    bound = omega (arith, free);
    room = p.room;
  }

list-cases : (c : List ℕ) → (c ≡ []) ⊎ ((h : ℕ) × (t : List ℕ) × (c ≡ h ∷ t))
list-cases [] = inl refl
list-cases (h ∷ t) = inr (h, t, refl)

module _ {T : Type 0} where
  room_full :
      (v : SwappedVector T) (oldest : ℕ) (cache : List ℕ)
      → v.cache ≡ oldest ∷ cache
      → length v.items ≡ v.pool_size
      → make_room v ≡ some (record v { items = erase_item oldest v.items; cache = cache })
  unfolding make_room
  room_full v oldest cache c full =
      let test : (length v.items == v.pool_size) ≡ true = ground arith in
      rw (test, c, make_room) refl

  room_free : (v : SwappedVector T) → length v.items < v.pool_size → make_room v ≡ some v
  unfolding make_room
  room_free v free =
      let test : (length v.items == v.pool_size) ≡ false = ground arith in rw test refl

  prepare_run :
      (v : SwappedVector T) (index : ℕ) (t : T) (items : List (ℕ × T)) (cache : List ℕ)
      → make_room v ≡ some (record v { items = items; cache = cache })
      → prepare v index t
        ≡ some (record v { items = (index, t) ∷ items; cache = cache ++ (index ∷ []) })
  unfolding prepare
  prepare_run v index t items cache room = rw room refl

  -- `prepare` leaves the files alone, and what is in memory in order.
  pub prepare_lem :
      (xs : List T) (v : SwappedVector T) (index : ℕ) (t : T)
      → Pooled xs v.pool_size v.items v.cache
      → count_items index v.items ≡ 0
      → get_elem? xs index ≡ some t
      → (items : List (ℕ × T)) × (cache : List ℕ) × (prepare v index t
          ≡ some (record v { items = items; cache = cache }))
        × Pooled xs v.pool_size items cache
  prepare_lem xs v index t p absent item = elim (lt-cases (length v.items) v.pool_size) [
    | inl free ↦ (
      _,
      _,
      prepare_run v index t v.items v.cache (room_free v free),
      inserted-Pooled xs v.pool_size v.items v.cache index t p free absent item,
    )
    | inr full ↦ elim (list-cases v.cache) [
      | inl nothing ↦
          absurd (omega (arith, p.same_length, ap length nothing, p.bound, p.room, full))
      | inr (oldest, cache, c) ↦
          let (p', shorter) =
            evicted-Pooled xs v.pool_size v.items oldest cache
              (subst (Pooled xs v.pool_size v.items) c p) in
          (
            _,
            _,
            prepare_run v index t (erase_item oldest v.items) cache
                (room_full v oldest cache c (omega (arith, full, p.bound))),
            inserted-Pooled xs v.pool_size (erase_item oldest v.items) cache index t p'
                (omega (arith, shorter, p.bound))
                (omega (arith, count-erase_item index oldest v.items, absent)) item,
          )
    ]
  ]

  -- `forget` of the last index leaves no entry of it.
  pub forget_lem :
      (xs : List T) (x : T) (v : SwappedVector T)
      → Pooled (xs ++ (x ∷ [])) v.pool_size v.items v.cache
      → (items : List (ℕ × T)) × (cache : List ℕ) × (forget v (length xs)
          ≡ record v { items = items; cache = cache })
        × Pooled xs v.pool_size items cache
  unfolding forget
  forget_lem xs x v p = elim (Option-cases (find_item (length xs) v.items)) [
    | inl absent ↦ (
      v.items,
      v.cache,
      rw (absent, forget) refl,
      shorter xs x v.pool_size v.items v.cache p (count_absent (length xs) v.items absent),
    )
    | inr (t, found) ↦
        let there = count_found (length xs) t v.items found in
        (
          _,
          _,
          rw (found, forget) refl,
          shorter xs x v.pool_size (erase_item (length xs) v.items)
              (erase_entry (length xs) v.cache)
              (dropped-Pooled (xs ++ (x ∷ [])) v.pool_size v.items v.cache (length xs) p there)
              (gone (length xs) v.items (p.once (length xs))),
        )
  ]
    where
      shorter :
          (xs : List T) (x : T) (pool : ℕ) (items : List (ℕ × T)) (cache : List ℕ)
          → Pooled (xs ++ (x ∷ [])) pool items cache
          → count_items (length xs) items ≡ 0
          → Pooled xs pool items cache
      shorter xs x pool items cache p none_left = record {
        agree = narrow xs x items none_left p.agree;
        once = p.once;
        balance = p.balance;
        same_length = p.same_length;
        bound = p.bound;
        room = p.room;
      }

      gone :
          (n : ℕ) (items : List (ℕ × T))
          → count_items n items ≤ 1
          → count_items n (erase_item n items) ≡ 0
      gone n items once =
          let same : (n == n) ≡ true = ground arith in
          count-erase_item n n items ∙ rw same (omega (arith, once))
