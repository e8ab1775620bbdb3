-- ===== src/Peerlist/Head.antt =====
-- `get_peerlist_head` against taking the newest entries that were seen.
use lira.Prelude.{
  ℕ, zero, suc, ◌+◌, ◌-◌, ◌%◌, ◌^◌, ◌<◌, ◌≡◌, refl, arith, ◌==◌, List, [], ◌∷◌, ap, ◌∙◌, take, ◌≤◌,
  ◌⊎◌, inl, inr, Bool-cases, ==_iff, some, All, length, length-take, subst, sym,
}
use mathlib.Core.List.{reverse}
use lira.Peerlist.Container.{PeerlistEntry, PeersIndexed, Listed, SeenSince}
use lira.Peerlist.Order.{
  Newest, seen_entries, seen-Newest, reverse-Newest, take-All, seen-All, reverse-Listed,
  take-Newest, take-Listed, seen-Listed, Listed-All,
}
use lira.Peerlist.{PeerlistManager, head_loop, get_peerlist_head}

-- `left` more entries than the one at hand are still wanted.
head_loop_lem :
    (depth cnt left : ℕ) (es : List PeerlistEntry)
    → cnt + left ≡ depth + 1
    → depth < 2 ^ 32 - 2
    → head_loop depth cnt es ≡ take (suc left) (seen_entries es)
unfolding head_loop
head_loop_lem depth cnt left [] h fits = refl
head_loop_lem depth cnt zero (e ∷ es) h fits = ground (arith, head_loop_lem depth cnt zero es)
head_loop_lem depth cnt (suc left) (e ∷ es) h fits =
    ground (
      arith,
      head_loop_lem depth cnt (suc left) es,
      head_loop_lem depth ((cnt + 1) % 2 ^ 32) left es,
    )

-- What the head of the white list is to be: entries of the container that were seen, newest first,
-- `limit` at most; and each entry of the container was never seen, or is in it, or is not newer than
-- any of it, of which there are `limit`.
module _ {C : Type 0} (peers : PeersIndexed C) (white : C) (limit : ℕ) where
  abbrev pub IsHead : List PeerlistEntry → Type 0
  IsHead head =
      All (λ (e : PeerlistEntry). (0 < e.last_seen) × (peers.find e.adr white ≡ some e)) head
      × Newest head
      × (length head ≤ limit)
      × All
          (λ (e : PeerlistEntry).
            (e.last_seen ≡ 0)
            ⊎ Listed e head
            ⊎ ((length head ≡ limit) × SeenSince e.last_seen head))
          (peers.by_time white)

  newest : List PeerlistEntry
  newest = reverse (peers.by_time white)

  newest-IsHead : IsHead (take limit (seen_entries newest))
  unfolding newest
  newest-IsHead =
      let falling =
        seen-Newest newest (reverse-Newest (peers.by_time white) (peers.by_time_ascending white)) in
      (
        take-All _ limit (seen_entries newest) (
            seen-All (λ x. peers.find x.adr white ≡ some x) newest
              (λ e l.
                (peers.by_time_find e white).0 ((reverse-Listed e (peers.by_time white)).0 l))),
        take-Newest limit (seen_entries newest) falling,
        omega (arith, length-take limit (seen_entries newest)),
        Listed-All _ (peers.by_time white) (λ e l. elim (Bool-cases (e.last_seen == 0)) [
          | inl never ↦ inl ((==_iff e.last_seen 0).0 never)
          | inr seen ↦
              let positive : 0 < e.last_seen = ground arith in
              inr (
                take-Listed e limit (seen_entries newest) falling
                  (seen-Listed e newest positive ((reverse-Listed e (peers.by_time white)).1 l)))
        ]),
      )

-- For a depth below 2 ^ 32 - 2, `get_peerlist_head` gives the entries of the index by time that were
-- seen, from its end, cut to depth + 2, two more than the depth. They are entries of the white list,
-- newest first. Each entry of the white list was never seen, or is among them, or they are depth + 2
-- and none of them was seen before it.
pub get_peerlist_head_lem :
    {C : Type 0} (peers : PeersIndexed C) (m : PeerlistManager C) (depth : ℕ)
    → depth < 2 ^ 32 - 2
    → (get_peerlist_head peers m depth
        ≡ take (depth + 2) (seen_entries (reverse (peers.by_time m.peers_white))))
      × IsHead peers m.peers_white (depth + 2) (get_peerlist_head peers m depth)
unfolding get_peerlist_head newest
get_peerlist_head_lem peers m depth fits =
    let white = peers.by_time m.peers_white in
    let same =
      head_loop_lem depth 0 (depth + 1) (reverse white) (omega arith) fits
      ∙ ap (λ (t : ℕ). take t (seen_entries (reverse white))) {x = suc (depth + 1)} (omega arith) in
    (
      same,
      subst (IsHead peers m.peers_white (depth + 2)) (sym same)
          (newest-IsHead peers m.peers_white (depth + 2)),
    )
