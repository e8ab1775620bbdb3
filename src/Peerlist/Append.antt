-- ===== src/Peerlist/Append.antt =====
-- What `append_with_peer_white` and `append_with_peer_gray` do to the two lists, on every branch.
use lira.Prelude.{
  ℕ, ◌≡◌, refl, ap, ◌∙◌, arith, ◌⊎◌, inl, inr, Bool, true, false, ◌&&◌, if◌then◌else◌, Option, none,
  some, Option-cases, Bool-cases,
}
use lira.Peerlist.Container.{NetAddress, PeerlistEntry, PeersIndexed, same_adr, same_adr_iff}
use lira.Peerlist.Trim.{find-trim_loop}
use lira.Peerlist.{
  PeerlistManager, trim_white_peerlist, trim_gray_peerlist, is_ip_allowed, put_white, drop_gray,
  append_with_peer_white, put_gray, append_with_peer_gray, gray_limit, white_limit,
}

abbrev pub is_none {ℓ} : {A : Type ℓ} → Option A → Bool
is_none none = true
is_none (some a) = false

module _ {C : Type 0} (peers : PeersIndexed C) where
  open peers use {
    size, find, insert, replace, erase, find_insert, find_replace, find_erase, size_insert,
  }

  pub white-put_white :
      (m : PeerlistManager C) (e : PeerlistEntry) (a : NetAddress)
      → find a (put_white peers m e).peers_white
        ≡ (if same_adr a e.adr then some e else find a m.peers_white)
  unfolding put_white trim_white_peerlist
  white-put_white m e a = elim (Option-cases (find e.adr m.peers_white)) [
    | inl absent ↦ rw (absent, put_white) (find_insert e a m.peers_white absent)
    | inr (old, present) ↦ rw (present, put_white) (find_replace e old a m.peers_white present)
  ]

  pub gray-put_white :
      (m : PeerlistManager C) (e : PeerlistEntry) (a : NetAddress)
      → (find a (put_white peers m e).peers_gray ≡ none)
        ⊎ (find a (put_white peers m e).peers_gray ≡ find a m.peers_gray)
  unfolding put_white trim_white_peerlist
  gray-put_white m e a = elim (Option-cases (find e.adr m.peers_white)) [
    | inl absent ↦
        rw (absent, put_white) (find-trim_loop peers (size m.peers_gray) gray_limit a m.peers_gray)
    | inr (old, present) ↦ rw (present, put_white) (inr refl)
  ]

  pub white-drop_gray :
      (m : PeerlistManager C) (b : NetAddress) → (drop_gray peers m b).peers_white ≡ m.peers_white
  unfolding drop_gray
  white-drop_gray m b = ground arith

  pub gray-drop_gray :
      (m : PeerlistManager C) (b a : NetAddress)
      → find a (drop_gray peers m b).peers_gray
        ≡ (if same_adr a b then none else find a m.peers_gray)
  unfolding drop_gray
  gray-drop_gray m b a = elim (Option-cases (find b m.peers_gray)) [
    | inl absent ↦
        rw (absent, drop_gray)
          (elim (Bool-cases (same_adr a b)) [
            | inl same ↦
                rw same (ap (λ t. find t m.peers_gray) ((same_adr_iff a b).0 same) ∙ absent)
            | inr other ↦ rw other
          ])
    | inr (old, present) ↦ rw (present, drop_gray) (find_erase b a m.peers_gray)
  ]

  pub white-put_gray :
      (m : PeerlistManager C) (e : PeerlistEntry) (a : NetAddress)
      → (find a (put_gray peers m e).peers_white ≡ none)
        ⊎ (find a (put_gray peers m e).peers_white ≡ find a m.peers_white)
  unfolding put_gray trim_gray_peerlist
  white-put_gray m e a = elim (Option-cases (find e.adr m.peers_gray)) [
    | inl absent ↦
        rw (absent, put_gray)
          (find-trim_loop peers (size m.peers_white) white_limit a m.peers_white)
    | inr (old, present) ↦ rw (present, put_gray) (inr refl)
  ]

  pub gray-put_gray :
      (m : PeerlistManager C) (e : PeerlistEntry) (a : NetAddress)
      → find a (put_gray peers m e).peers_gray
        ≡ (if same_adr a e.adr then some e else find a m.peers_gray)
  unfolding put_gray trim_gray_peerlist
  gray-put_gray m e a = elim (Option-cases (find e.adr m.peers_gray)) [
    | inl absent ↦ rw (absent, put_gray) (find_insert e a m.peers_gray absent)
    | inr (old, present) ↦ rw (present, put_gray) (find_replace e old a m.peers_gray present)
  ]

module _ {C : Type 0} (peers : PeersIndexed C) (is_ip_loopback is_ip_local : ℕ → Bool) where
  open peers use {find}

  abbrev pub allowed : PeerlistManager C → PeerlistEntry → Bool
  allowed m e = is_ip_allowed peers is_ip_loopback is_ip_local m e.adr.ip

  -- After `append_with_peer_white` the white list holds the entry under its address, whether the
  -- address was there or not, if its IP is allowed, and is otherwise as before; the gray list
  -- does not hold that address then; and every other address of the gray list is kept or dropped.
  pub append_with_peer_white_lem :
      (m : PeerlistManager C) (e : PeerlistEntry)
      → let m' = append_with_peer_white peers is_ip_loopback is_ip_local m e in
        ((a : NetAddress)
          → find a m'.peers_white
            ≡ (if allowed m e && same_adr a e.adr then some e else find a m.peers_white))
        × (find e.adr m'.peers_gray ≡ (if allowed m e then none else find e.adr m.peers_gray))
        × ((a : NetAddress)
            → (find a m'.peers_gray ≡ none) ⊎ (find a m'.peers_gray ≡ find a m.peers_gray))
  unfolding append_with_peer_white
  append_with_peer_white_lem m e = elim (Bool-cases (allowed m e)) [
    | inl ok ↦ rw ok (
      λ a. rw (white-drop_gray peers (put_white peers m e) e.adr) (white-put_white peers m e a),
      gray-drop_gray peers (put_white peers m e) e.adr e.adr
          ∙ rw ((same_adr_iff e.adr e.adr).1 refl),
      λ a.
          rw (gray-drop_gray peers (put_white peers m e) e.adr a)
            (ground (arith, gray-put_white peers m e a)),
    )
    | inr refused ↦ rw refused (λ a. refl, refl, λ a. inr refl)
  ]

  -- After `append_with_peer_gray` the gray list holds the entry under its address if its IP is
  -- allowed and the white list does not hold the address, and is otherwise as before; every
  -- address of the white list is kept or dropped.
  pub append_with_peer_gray_lem :
      (m : PeerlistManager C) (e : PeerlistEntry)
      → let m' = append_with_peer_gray peers is_ip_loopback is_ip_local m e in
        ((a : NetAddress)
          → find a m'.peers_gray ≡ (
              if allowed m e && is_none (find e.adr m.peers_white) && same_adr a e.adr
              then some e
              else find a m.peers_gray))
        × ((a : NetAddress)
            → (find a m'.peers_white ≡ none) ⊎ (find a m'.peers_white ≡ find a m.peers_white))
  unfolding append_with_peer_gray
  append_with_peer_gray_lem m e = elim (Bool-cases (allowed m e)) [
    | inl ok ↦ rw ok (elim (Option-cases (find e.adr m.peers_white)) [
      | inl absent ↦
          rw (absent, append_with_peer_gray)
            (λ a. gray-put_gray peers m e a, λ a. white-put_gray peers m e a)
      | inr (old, present) ↦ rw (present, append_with_peer_gray) (λ a. refl, λ a. inr refl)
    ])
    | inr refused ↦ rw refused (λ a. refl, λ a. inr refl)
  ]
