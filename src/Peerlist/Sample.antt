-- ===== src/Peerlist/Sample.antt =====
-- A container that obeys the laws: a list of entries with distinct addresses, newest insertion
-- first; the index by time is the list sorted. It is what the tests run on.
use lira.Prelude.{
  ◌-◌, ◌≡◌, refl, arith, ◌⊎◌, inl, inr, false, if◌then◌else◌, Option, none, some, Bool-cases, List,
  [], ◌∷◌, ap, length, subst, sym, some-injective, ◌↔◌,
}
use lira.Peerlist.Container.{
  NetAddress, PeerlistEntry, PeersIndexed, same_adr, same_adr_iff, Listed,
}
use lira.Peerlist.Sorted.{sort, sort-Ascending, sort-Listed, length-sort}

abbrev pub find : NetAddress → List PeerlistEntry → Option PeerlistEntry
find a [] = none
find a (e ∷ es) = if same_adr a e.adr then some e else find a es

abbrev pub Apart : NetAddress → List PeerlistEntry → Type 0
Apart a [] = Unit {0}
Apart a (e ∷ es) = (same_adr a e.adr ≡ false) × Apart a es

abbrev pub Distinct : List PeerlistEntry → Type 0
Distinct [] = Unit {0}
Distinct (e ∷ es) = Apart e.adr es × Distinct es

abbrev pub Bag : Type 0
Bag = (es : List PeerlistEntry) × Distinct es

abbrev replace : PeerlistEntry → List PeerlistEntry → List PeerlistEntry
replace e [] = []
replace e (f ∷ es) = if same_adr e.adr f.adr then e ∷ es else f ∷ replace e es

abbrev erase : NetAddress → List PeerlistEntry → List PeerlistEntry
erase b [] = []
erase b (f ∷ es) = if same_adr b f.adr then es else f ∷ erase b es

abbrev init : List PeerlistEntry → List PeerlistEntry
init [] = []
init (e ∷ []) = []
init (e ∷ f ∷ es) = e ∷ init (f ∷ es)

pub Apart-of_find : (a : NetAddress) (es : List PeerlistEntry) → find a es ≡ none → Apart a es
Apart-of_find a [] h = tt
Apart-of_find a (e ∷ es) h = ground (arith, Apart-of_find a es)

pub find_of_Apart : (a : NetAddress) (es : List PeerlistEntry) → Apart a es → find a es ≡ none
find_of_Apart a [] h = refl
find_of_Apart a (e ∷ es) h = ground (arith, find_of_Apart a es)

pub Apart-replace :
    (a : NetAddress) (e : PeerlistEntry) (es : List PeerlistEntry)
    → Apart a es
    → Apart a (replace e es)
Apart-replace a e [] h = tt
Apart-replace a e (f ∷ es) h = ground (arith, Apart-replace a e es)

pub Apart-erase : (a b : NetAddress) (es : List PeerlistEntry) → Apart a es → Apart a (erase b es)
Apart-erase a b [] h = tt
Apart-erase a b (f ∷ es) h = ground (arith, Apart-erase a b es)

pub Apart-init : (a : NetAddress) (es : List PeerlistEntry) → Apart a es → Apart a (init es)
Apart-init a [] h = tt
Apart-init a (e ∷ []) h = tt
Apart-init a (e ∷ f ∷ es) h = (h.0, Apart-init a (f ∷ es) h.1)

pub Distinct-replace :
    (e : PeerlistEntry) (es : List PeerlistEntry) → Distinct es → Distinct (replace e es)
Distinct-replace e [] h = tt
Distinct-replace e (f ∷ es) h = elim (Bool-cases (same_adr e.adr f.adr)) [
  | inl same ↦ rw same (rw ((same_adr_iff e.adr f.adr).0 same) h)
  | inr other ↦ rw other (Apart-replace f.adr e es h.0, Distinct-replace e es h.1)
]

pub Distinct-erase :
    (b : NetAddress) (es : List PeerlistEntry) → Distinct es → Distinct (erase b es)
Distinct-erase b [] h = tt
Distinct-erase b (f ∷ es) h = ground (arith, Apart-erase f.adr b es, Distinct-erase b es)

pub Distinct-init : (es : List PeerlistEntry) → Distinct es → Distinct (init es)
Distinct-init [] h = tt
Distinct-init (e ∷ []) h = tt
Distinct-init (e ∷ f ∷ es) h = (Apart-init e.adr (f ∷ es) h.0, Distinct-init (f ∷ es) h.1)

pub find-replace :
    (e old : PeerlistEntry) (a : NetAddress) (es : List PeerlistEntry)
    → find e.adr es ≡ some old
    → find a (replace e es) ≡ (if same_adr a e.adr then some e else find a es)
find-replace e old a [] h = cc
find-replace e old a (f ∷ es) h = ground (arith, find-replace e old a es)

pub find-erase :
    (b a : NetAddress) (es : List PeerlistEntry)
    → Distinct es
    → find a (erase b es) ≡ (if same_adr a b then none else find a es)
find-erase b a [] d = ground arith
find-erase b a (f ∷ es) d =
    ground (arith, find-erase b a es, find_of_Apart f.adr es, same_adr_iff a b)

pub find-init :
    (a : NetAddress) (es : List PeerlistEntry)
    → (find a (init es) ≡ none) ⊎ (find a (init es) ≡ find a es)
find-init a [] = inl refl
find-init a (e ∷ []) = inl refl
find-init a (e ∷ f ∷ es) = ground (arith, find-init a (f ∷ es))

pub length-init : (es : List PeerlistEntry) → length (init es) ≡ length es - 1
length-init [] = refl
length-init (e ∷ []) = refl
length-init (e ∷ f ∷ es) = omega (arith, length-init (f ∷ es))

insert_by :
    (e : PeerlistEntry) (es : List PeerlistEntry)
    → Distinct es
    → (o : Option PeerlistEntry) → find e.adr es ≡ o
    → Bag
insert_by e es d none absent = (e ∷ es, (Apart-of_find e.adr es absent, d))
insert_by e es d (some old) present = (es, d)

pub insert : PeerlistEntry → Bag → Bag
insert e (es, d) = insert_by e es d (find e.adr es) refl

insert_by-none :
    (e : PeerlistEntry) (es : List PeerlistEntry) (d : Distinct es) (o : Option PeerlistEntry)
    (p : find e.adr es ≡ o)
    → o ≡ none
    → (insert_by e es d o p).0 ≡ e ∷ es
unfolding insert_by
insert_by-none e es d none p h = refl
insert_by-none e es d (some old) p h = cc

pub insert_none : (e : PeerlistEntry) (c : Bag) → find e.adr c.0 ≡ none → (insert e c).0 ≡ e ∷ c.0
unfolding insert
insert_none e (es, d) h = insert_by-none e es d (find e.adr es) refl h

found-Listed :
    (a : NetAddress) (e : PeerlistEntry) (es : List PeerlistEntry)
    → find a es ≡ some e
    → Listed e es
found-Listed a e [] h = cc h
found-Listed a e (f ∷ es) h = elim (Bool-cases (same_adr a f.adr)) [
  | inl same ↦
      inl (some-injective _ _ (subst (λ b. (if b then some f else find a es) ≡ some e) same h))
  | inr other ↦
      inr (found-Listed a e es (subst (λ b. (if b then some f else find a es) ≡ some e) other h))
]

Apart-Listed :
    (a : NetAddress) (e : PeerlistEntry) (es : List PeerlistEntry)
    → Apart a es
    → Listed e es
    → same_adr e.adr a ≡ false
Apart-Listed a e [] apart l = elim l [ ]
Apart-Listed a e (f ∷ es) apart (inl same) = rw (sym same) (ground (arith, apart.0))
Apart-Listed a e (f ∷ es) apart (inr l) = Apart-Listed a e es apart.1 l

Listed-found :
    (e : PeerlistEntry) (es : List PeerlistEntry)
    → Distinct es
    → Listed e es
    → find e.adr es ≡ some e
Listed-found e [] d l = elim l [ ]
Listed-found e (f ∷ es) d (inl same) = rw (same, (same_adr_iff e.adr e.adr).1 refl) refl
Listed-found e (f ∷ es) d (inr l) = rw (Apart-Listed f.adr e es d.0 l) (Listed-found e es d.1 l)

pub by_time_find_lem :
    (e : PeerlistEntry) (c : Bag) → Listed e (sort c.0) ↔ (find e.adr c.0 ≡ some e)
by_time_find_lem e (es, d) = (
  λ l. Listed-found e es d ((sort-Listed e es).0 l),
  λ h. (sort-Listed e es).1 (found-Listed e.adr e es h),
)

-- The laws can be met.
unfoldable pub bag : PeersIndexed Bag
unfolding insert insert_by
bag = record {
  size = λ c. length c.0;
  find = λ a c. find a c.0;
  insert = insert;
  replace = λ e c. (replace e c.0, Distinct-replace e c.0 c.1);
  erase = λ b c. (erase b c.0, Distinct-erase b c.0 c.1);
  erase_oldest = λ c. (init c.0, Distinct-init c.0 c.1);
  by_time = λ c. sort c.0;
  by_time_ascending = λ c. sort-Ascending c.0;
  by_time_find = by_time_find_lem;
  size_by_time = λ c. length-sort c.0;
  find_insert = λ e a c h. ap (find a) (insert_none e c h);
  size_insert = λ e c h. ap length (insert_none e c h);
  find_replace = λ e old a c h. find-replace e old a c.0 h;
  find_erase = λ b a c. find-erase b a c.0 c.1;
  size_erase_oldest = λ c. length-init c.0;
  find_erase_oldest = λ a c. find-init a c.0;
}
