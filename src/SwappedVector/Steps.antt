-- ===== src/SwappedVector/Steps.antt =====
-- src/cryptonote_core/SwappedVector.h: what each operation does to a vector that holds a list.
use lira.Prelude.{
  ℕ, ◌+◌, ◌-◌, ◌%◌, ◌^◌, ◌<◌, ◌≡◌, refl, sym, ap, ◌∙◌, some, List, [], ◌∷◌, ◌++◌, length,
  length-append, get_elem?, get_elem?-end, take, take_append, append_assoc, arith,
}
use lira.SwappedVector.{SwappedVector, write_at, clear, forget, pop_back, push_back, opened}
use lira.SwappedVector.Pool.{count_items, count, count_below, widen, Pooled}
use lira.SwappedVector.Files.{
  write_at_end, bytes_of, starts, sizes_of, bytes_of-append, sizes_of-append, length-sizes_of,
  length-starts, starts-append,
}
use lira.SwappedVector.Cached.{prepare_lem, forget_lem}

nothing-Pooled : {T : Type 0} (xs : List T) (pool : ℕ) → 0 < pool → Pooled xs pool [] []
unfolding count_items count
nothing-Pooled xs pool room = record {
  agree = tt;
  once = λ k. omega arith;
  balance = λ k. refl;
  same_length = refl;
  bound = omega arith;
  room = room;
}

module _ {T : Type 0} (serialize : T → List ℕ) where
  -- The two files hold the items of `xs`, and the pool some of them.
  pub record Holds (pool : ℕ) (xs : List T) (v : SwappedVector T) : Type 0 where
    pub pooled : Pooled xs v.pool_size v.items v.cache
    pub same_pool : v.pool_size ≡ pool
    pub offsets : v.offsets ≡ starts serialize 0 xs
    pub file_size : v.items_file_size ≡ length (bytes_of serialize xs)
    pub count : v.index_count ≡ length xs
    pub file : (rest : List ℕ) × (v.items_file ≡ bytes_of serialize xs ++ rest)
    pub sizes : (rest : List ℕ) × (v.index_sizes ≡ sizes_of serialize xs ++ rest)

  pub push_step :
      (pool : ℕ) (xs : List T) (v : SwappedVector T) (x : T)
      → Holds pool xs v
      → (v' : SwappedVector T) × (push_back serialize v x ≡ some v')
        × Holds pool (xs ++ (x ∷ [])) v'
  unfolding push_back
  push_step pool xs v x h =
      let bytes = serialize x in
      let n : length v.offsets ≡ length xs = ap length h.offsets ∙ length-starts serialize 0 xs in
      let (file_rest, file) = h.file in
      let (size_rest, sizes) = h.sizes in
      let (file_rest', file') =
        write_at_end (bytes_of serialize xs) file_rest bytes v.items_file_size h.file_size in
      let (size_rest', sizes') =
        write_at_end (sizes_of serialize xs) size_rest ((length bytes % 2 ^ 32) ∷ [])
          (length v.offsets) (n ∙ sym (length-sizes_of serialize xs)) in
      let (items, cache, run, pooled) =
        prepare_lem (xs ++ (x ∷ []))
          (record v {
            items_file = write_at v.items_file v.items_file_size bytes;
            index_count = length v.offsets + 1;
            index_sizes = write_at v.index_sizes (length v.offsets) ((length bytes % 2 ^ 32) ∷ []);
            offsets = v.offsets ++ (v.items_file_size ∷ []);
            items_file_size = v.items_file_size + length bytes;
          })
          (length v.offsets) x (widened xs x v.pool_size v.items v.cache h.pooled)
          (ap (λ (k : ℕ). count_items k v.items) n ∙ count_below xs v.items h.pooled.agree)
          (ap (get_elem? (xs ++ (x ∷ []))) n ∙ get_elem?-end xs x) in
      (
        _,
        run,
        record {
          pooled = pooled;
          same_pool = h.same_pool;
          offsets =
              ap (λ (t : List ℕ). t ++ (v.items_file_size ∷ [])) h.offsets
              ∙ ap (λ (t : ℕ). starts serialize 0 xs ++ (t ∷ [])) (omega (arith, h.file_size))
              ∙ sym (starts-append serialize 0 xs x);
          file_size = omega (
            arith,
            h.file_size,
            length-append (bytes_of serialize xs) bytes,
            ap length (bytes_of-append serialize xs x),
          );
          count = omega (arith, n, length-append xs (x ∷ []));
          file = (
            file_rest',
            ap (λ (t : List ℕ). write_at t v.items_file_size bytes) file
                ∙ file'
                ∙ ap (λ (t : List ℕ). t ++ file_rest') (sym (bytes_of-append serialize xs x)),
          );
          sizes = (
            size_rest',
            ap (λ (t : List ℕ). write_at t (length v.offsets) ((length bytes % 2 ^ 32) ∷ [])) sizes
                ∙ sizes'
                ∙ ap (λ (t : List ℕ). t ++ size_rest') (sym (sizes_of-append serialize xs x)),
          );
        },
      )
    where
      widened :
          (xs : List T) (x : T) (pool : ℕ) (items : List (ℕ × T)) (cache : List ℕ)
          → Pooled xs pool items cache
          → Pooled (xs ++ (x ∷ [])) pool items cache
      widened xs x pool items cache p = record {
        agree = widen xs x items p.agree;
        once = p.once;
        balance = p.balance;
        same_length = p.same_length;
        bound = p.bound;
        room = p.room;
      }

  pop_run :
      (v v' : SwappedVector T) (last : ℕ)
      → get_elem? v.offsets (length v.offsets - 1) ≡ some last
      → forget
          (record v {
            index_count = length v.offsets - 1;
            items_file_size = last;
            offsets = take (length v.offsets - 1) v.offsets;
          })
          (length v.offsets - 1)
        ≡ v'
      → pop_back v ≡ some v'
  unfolding pop_back
  pop_run v v' last e1 e2 = rw e1 (ap some e2)

  pub pop_step :
      (pool : ℕ) (xs : List T) (x : T) (v : SwappedVector T)
      → Holds pool (xs ++ (x ∷ [])) v
      → (v' : SwappedVector T) × (pop_back v ≡ some v') × Holds pool xs v'
  pop_step pool xs x v h =
      let last = length (bytes_of serialize xs) in
      let split : v.offsets ≡ starts serialize 0 xs ++ (last ∷ []) =
        h.offsets
        ∙ starts-append serialize 0 xs x
        ∙ ap (λ (t : ℕ). starts serialize 0 xs ++ (t ∷ [])) (omega arith) in
      let n : length v.offsets - 1 ≡ length xs = omega (
        arith,
        ap length split,
        length-append (starts serialize 0 xs) (last ∷ []),
        length-starts serialize 0 xs,
      ) in
      let back : get_elem? v.offsets (length v.offsets - 1) ≡ some last =
        ap (get_elem? v.offsets) (n ∙ sym (length-starts serialize 0 xs))
        ∙ ap (λ (t : List ℕ). get_elem? t (length (starts serialize 0 xs))) split
        ∙ get_elem?-end (starts serialize 0 xs) last in
      let front : take (length v.offsets - 1) v.offsets ≡ starts serialize 0 xs =
        ap (take (length v.offsets - 1)) split
        ∙ take_append (length v.offsets - 1) (starts serialize 0 xs) (last ∷ [])
            (length-starts serialize 0 xs ∙ sym n) in
      let shorter = record v {
        index_count = length v.offsets - 1;
        items_file_size = last;
        offsets = take (length v.offsets - 1) v.offsets;
      } in
      let (items, cache, run, pooled) = forget_lem xs x shorter h.pooled in
      let (file_rest, file) = h.file in
      let (size_rest, sizes) = h.sizes in
      (
        _,
        pop_run v _ last back (ap (forget shorter) n ∙ run),
        record {
          pooled = pooled;
          same_pool = h.same_pool;
          offsets = front;
          file_size = refl;
          count = n;
          file = (
            serialize x ++ file_rest,
            file
                ∙ ap (λ (t : List ℕ). t ++ file_rest) (bytes_of-append serialize xs x)
                ∙ append_assoc (bytes_of serialize xs) (serialize x) file_rest,
          );
          sizes = (
            ((length (serialize x) % 2 ^ 32) ∷ []) ++ size_rest,
            sizes
                ∙ ap (λ (t : List ℕ). t ++ size_rest) (sizes_of-append serialize xs x)
                ∙ append_assoc (sizes_of serialize xs) ((length (serialize x) % 2 ^ 32) ∷ [])
                    size_rest,
          );
        },
      )

  pub clear_step :
      (pool : ℕ) (xs : List T) (v : SwappedVector T) → Holds pool xs v → Holds pool [] (clear v)
  unfolding clear bytes_of starts sizes_of
  clear_step pool xs v h = record {
    pooled = nothing-Pooled [] v.pool_size h.pooled.room;
    same_pool = h.same_pool;
    offsets = refl;
    file_size = refl;
    count = refl;
    file = (v.items_file, refl);
    sizes = (v.index_sizes, refl);
  }

-- Files with the items of a list, just opened, hold the list.
pub opened_step :
    {T : Type 0} (serialize : T → List ℕ) (pool : ℕ) (xs : List T) (items_file : List ℕ)
    (index_count : ℕ) (index_sizes offsets : List ℕ) (items_file_size : ℕ)
    → 0 < pool
    → offsets ≡ starts serialize 0 xs
    → items_file_size ≡ length (bytes_of serialize xs)
    → index_count ≡ length xs
    → (rest : List ℕ) × (items_file ≡ bytes_of serialize xs ++ rest)
    → (rest : List ℕ) × (index_sizes ≡ sizes_of serialize xs ++ rest)
    → Holds serialize pool xs
        (opened items_file index_count index_sizes pool offsets items_file_size)
unfolding opened
opened_step serialize pool xs items_file index_count index_sizes offsets items_file_size room e1 e2
      e3 e4 e5 =
    record {
      pooled = nothing-Pooled xs pool room;
      same_pool = refl;
      offsets = e1;
      file_size = e2;
      count = e3;
      file = e4;
      sizes = e5;
    }
