-- ===== src/Peerlist/Sorted.antt =====
-- The entries of a list in the order of their times, for the sample container.
use lira.Prelude.{
  ℕ, ◌+◌, ◌≤◌, ◌≡◌, refl, ◌↔◌, inl, inr, leb, leb→le, Bool-cases, if◌then◌else◌, List, [], ◌∷◌,
  length, arith,
}
use lira.Peerlist.Container.{PeerlistEntry, Listed, SeenSince, Ascending}

abbrev pub put : PeerlistEntry → List PeerlistEntry → List PeerlistEntry
put e [] = e ∷ []
put e (f ∷ es) = if leb e.last_seen f.last_seen then e ∷ (f ∷ es) else f ∷ put e es

abbrev pub sort : List PeerlistEntry → List PeerlistEntry
sort [] = []
sort (e ∷ es) = put e (sort es)

length-put : (e : PeerlistEntry) (es : List PeerlistEntry) → length (put e es) ≡ length es + 1
length-put e [] = refl
length-put e (f ∷ es) = ground (arith, length-put e es)

pub length-sort : (es : List PeerlistEntry) → length (sort es) ≡ length es
length-sort [] = refl
length-sort (e ∷ es) = omega (arith, length-put e (sort es), length-sort es)

earlier_SeenSince : (s t : ℕ) (es : List PeerlistEntry) → s ≤ t → SeenSince t es → SeenSince s es
earlier_SeenSince s t [] h since = tt
earlier_SeenSince s t (e ∷ es) h since =
    (omega (arith, since.0), earlier_SeenSince s t es h since.1)

put-SeenSince :
    (t : ℕ) (e : PeerlistEntry) (es : List PeerlistEntry)
    → t ≤ e.last_seen
    → SeenSince t es
    → SeenSince t (put e es)
put-SeenSince t e [] h since = (h, tt)
put-SeenSince t e (f ∷ es) h since = elim (Bool-cases (leb e.last_seen f.last_seen)) [
  | inl before ↦ rw before (h, since)
  | inr after ↦ rw after (since.0, put-SeenSince t e es h since.1)
]

put-Ascending : (e : PeerlistEntry) (es : List PeerlistEntry) → Ascending es → Ascending (put e es)
put-Ascending e [] up = (tt, tt)
put-Ascending e (f ∷ es) up = elim (Bool-cases (leb e.last_seen f.last_seen)) [
  | inl before ↦
      let first = leb→le e.last_seen f.last_seen before in
      rw before ((first, earlier_SeenSince e.last_seen f.last_seen es first up.0), up)
  | inr after ↦
      let first : f.last_seen ≤ e.last_seen = ground arith in
      rw after (put-SeenSince f.last_seen e es first up.0, put-Ascending e es up.1)
]

pub sort-Ascending : (es : List PeerlistEntry) → Ascending (sort es)
sort-Ascending [] = tt
sort-Ascending (e ∷ es) = put-Ascending e (sort es) (sort-Ascending es)

put-Listed :
    (x e : PeerlistEntry) (es : List PeerlistEntry) → Listed x (put e es) ↔ Listed x (e ∷ es)
put-Listed x e [] = (λ h. h, λ h. h)
put-Listed x e (f ∷ es) = elim (Bool-cases (leb e.last_seen f.last_seen)) [
  | inl before ↦ rw before (λ h. h, λ h. h)
  | inr after ↦ rw after (
    λ h. elim h [
      | inl same ↦ inr (inl same)
      | inr l ↦ elim ((put-Listed x e es).0 l) [ inl same ↦ inl same | inr m ↦ inr (inr m) ]
    ],
    λ h. elim h [
      | inl same ↦ inr ((put-Listed x e es).1 (inl same))
      | inr l ↦ elim l [ inl same ↦ inl same | inr m ↦ inr ((put-Listed x e es).1 (inr m)) ]
    ],
  )
]

pub sort-Listed : (x : PeerlistEntry) (es : List PeerlistEntry) → Listed x (sort es) ↔ Listed x es
sort-Listed x [] = (λ h. h, λ h. h)
sort-Listed x (e ∷ es) = (
  λ h. elim ((put-Listed x e (sort es)).0 h) [
    | inl same ↦ inl same
    | inr l ↦ inr ((sort-Listed x es).0 l)
  ],
  λ h.
      (put-Listed x e (sort es)).1
        (elim h [ inl same ↦ inl same | inr l ↦ inr ((sort-Listed x es).1 l) ]),
)
