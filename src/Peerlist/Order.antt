-- ===== src/Peerlist/Order.antt =====
-- Lists of entries whose newest comes first: turned round, without those never seen, cut.
use lira.Prelude.{
  ℕ, zero, suc, ◌≤◌, ◌<◌, ◌≡◌, refl, ◌↔◌, ◌⊎◌, inl, inr, Bool-cases, ◌==◌, ==_iff, if◌then◌else◌,
  List, [], ◌∷◌, ◌++◌, length, take, All, All-append, arith, ap,
}
use mathlib.Core.List.{reverse, reverse-cons}
use lira.Peerlist.Container.{PeerlistEntry, Listed, SeenSince, Ascending}

-- The entries that were seen at some time.
abbrev pub seen_entries : List PeerlistEntry → List PeerlistEntry
seen_entries [] = []
seen_entries (e ∷ es) = if e.last_seen == 0 then seen_entries es else e ∷ seen_entries es

abbrev pub SeenBy : ℕ → List PeerlistEntry → Type 0
SeenBy time = All (λ (e : PeerlistEntry). e.last_seen ≤ time)

-- Newest first.
abbrev pub Newest : List PeerlistEntry → Type 0
Newest [] = Unit {0}
Newest (e ∷ es) = SeenBy e.last_seen es × Newest es

-- The list turned round.
append-Listed :
    (x e : PeerlistEntry) (es : List PeerlistEntry) → Listed x (es ++ (e ∷ [])) ↔ Listed x (e ∷ es)
append-Listed x e [] = (λ h. h, λ h. h)
append-Listed x e (f ∷ es) = (
  λ h. elim h [
    | inl same ↦ inr (inl same)
    | inr l ↦ elim ((append-Listed x e es).0 l) [ inl same ↦ inl same | inr m ↦ inr (inr m) ]
  ],
  λ h. elim h [
    | inl same ↦ inr ((append-Listed x e es).1 (inl same))
    | inr l ↦ elim l [ inl same ↦ inl same | inr m ↦ inr ((append-Listed x e es).1 (inr m)) ]
  ],
)

pub reverse-Listed :
    (x : PeerlistEntry) (es : List PeerlistEntry) → Listed x (reverse es) ↔ Listed x es
reverse-Listed x [] = (λ h. h, λ h. h)
reverse-Listed x (e ∷ es) = rw (reverse-cons e es) (
  λ h. elim ((append-Listed x e (reverse es)).0 h) [
    | inl same ↦ inl same
    | inr l ↦ inr ((reverse-Listed x es).0 l)
  ],
  λ h.
      (append-Listed x e (reverse es)).1
        (elim h [ inl same ↦ inl same | inr l ↦ inr ((reverse-Listed x es).1 l) ]),
)

reverse-All : (P : PeerlistEntry → Type 0) (es : List PeerlistEntry) → All P es → All P (reverse es)
reverse-All P [] all = tt
reverse-All P (e ∷ es) (p, all) =
    rw (reverse-cons e es) (All-append P (reverse es) e (reverse-All P es all) p)

append-Newest :
    (e : PeerlistEntry) (es : List PeerlistEntry)
    → SeenSince e.last_seen es
    → Newest es
    → Newest (es ++ (e ∷ []))
append-Newest e [] since down = (tt, tt)
append-Newest e (f ∷ es) (first, since) (by, down) =
    (All-append (λ g. g.last_seen ≤ f.last_seen) es e by first, append-Newest e es since down)

pub reverse-Newest : (es : List PeerlistEntry) → Ascending es → Newest (reverse es)
reverse-Newest [] up = tt
reverse-Newest (e ∷ es) (since, up) = rw (reverse-cons e es) (
    append-Newest e (reverse es) (reverse-All (λ g. e.last_seen ≤ g.last_seen) es since)
      (reverse-Newest es up))

-- Without those never seen.
seen-SeenBy : (t : ℕ) (es : List PeerlistEntry) → SeenBy t es → SeenBy t (seen_entries es)
seen-SeenBy t [] by = tt
seen-SeenBy t (e ∷ es) (first, by) = elim (Bool-cases (e.last_seen == 0)) [
  | inl never ↦ rw never (seen-SeenBy t es by)
  | inr seen ↦ rw seen (first, seen-SeenBy t es by)
]

pub seen-Newest : (es : List PeerlistEntry) → Newest es → Newest (seen_entries es)
seen-Newest [] down = tt
seen-Newest (e ∷ es) (by, down) = elim (Bool-cases (e.last_seen == 0)) [
  | inl never ↦ rw never (seen-Newest es down)
  | inr seen ↦ rw seen (seen-SeenBy e.last_seen es by, seen-Newest es down)
]

pub seen-All :
    (P : PeerlistEntry → Type 0) (es : List PeerlistEntry)
    → ((e : PeerlistEntry) → Listed e es → P e)
    → All (λ (e : PeerlistEntry). (0 < e.last_seen) × P e) (seen_entries es)
seen-All P [] all = tt
seen-All P (e ∷ es) all = elim (Bool-cases (e.last_seen == 0)) [
  | inl never ↦ rw never (seen-All P es (λ x l. all x (inr l)))
  | inr seen ↦
      let positive : 0 < e.last_seen = ground arith in
      rw seen ((positive, all e (inl refl)), seen-All P es (λ x l. all x (inr l)))
]

pub seen-Listed :
    (x : PeerlistEntry) (es : List PeerlistEntry)
    → 0 < x.last_seen
    → Listed x es
    → Listed x (seen_entries es)
seen-Listed x [] positive l = elim l [ ]
seen-Listed x (e ∷ es) positive l = elim (Bool-cases (e.last_seen == 0)) [
  | inl never ↦ rw never (elim l [
    | inl same ↦ absurd (
        omega (arith, ap (λ (g : PeerlistEntry). g.last_seen) same, (==_iff e.last_seen 0).0 never))
    | inr m ↦ seen-Listed x es positive m
  ])
  | inr seen ↦ rw seen (elim l [ inl same ↦ inl same | inr m ↦ inr (seen-Listed x es positive m) ])
]

-- Cut.
pub take-All :
    (P : PeerlistEntry → Type 0) (n : ℕ) (es : List PeerlistEntry) → All P es → All P (take n es)
take-All P zero es all = tt
take-All P (suc n) [] all = tt
take-All P (suc n) (e ∷ es) (p, all) = (p, take-All P n es all)

pub take-Newest : (n : ℕ) (es : List PeerlistEntry) → Newest es → Newest (take n es)
take-Newest zero es down = tt
take-Newest (suc n) [] down = tt
take-Newest (suc n) (e ∷ es) (by, down) =
    (take-All (λ g. g.last_seen ≤ e.last_seen) n es by, take-Newest n es down)

Listed-SeenBy :
    (x : PeerlistEntry) (t : ℕ) (es : List PeerlistEntry)
    → SeenBy t es
    → Listed x es
    → x.last_seen ≤ t
Listed-SeenBy x t [] by l = elim l [ ]
Listed-SeenBy x t (e ∷ es) (first, by) (inl same) =
    omega (arith, first, ap (λ (g : PeerlistEntry). g.last_seen) same)
Listed-SeenBy x t (e ∷ es) (first, by) (inr l) = Listed-SeenBy x t es by l

-- What is cut off is no newer than what is kept.
pub take-Listed :
    (x : PeerlistEntry) (n : ℕ) (es : List PeerlistEntry)
    → Newest es
    → Listed x es
    → Listed x (take n es) ⊎ ((length (take n es) ≡ n) × SeenSince x.last_seen (take n es))
take-Listed x zero es down l = inr (refl, tt)
take-Listed x (suc n) [] down l = elim l [ ]
take-Listed x (suc n) (e ∷ es) (by, down) (inl same) = inl (inl same)
take-Listed x (suc n) (e ∷ es) (by, down) (inr l) = elim (take-Listed x n es down l) [
  | inl kept ↦ inl (inr kept)
  | inr (len, since) ↦ inr (omega (arith, len), (Listed-SeenBy x e.last_seen es by l, since))
]

pub Listed-All :
    (P : PeerlistEntry → Type 0) (es : List PeerlistEntry)
    → ((e : PeerlistEntry) → Listed e es → P e)
    → All P es
Listed-All P [] each = tt
Listed-All P (e ∷ es) each = (each e (inl refl), Listed-All P es (λ x l. each x (inr l)))
