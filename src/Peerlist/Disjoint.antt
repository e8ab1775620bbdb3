-- ===== src/Peerlist/Disjoint.antt =====
-- No address is in both lists.
use lira.Prelude.{ℕ, ◌≡◌, arith, ◌⊎◌, inl, inr, Bool, none, Bool-cases, List, [], ◌∷◌}
use lira.Peerlist.Container.{NetAddress, PeerlistEntry, PeersIndexed, same_adr, same_adr_iff}
use lira.Peerlist.Trim.{find-trim_loop}
use lira.Peerlist.Append.{append_with_peer_white_lem, append_with_peer_gray_lem}
use lira.Peerlist.{
  PeerlistManager, trim_gray_peerlist, append_with_peer_white, append_with_peer_gray, merge_loop,
  merge_peerlist, set_peer_just_seen, white_limit,
}

module _ {C : Type 0} (peers : PeersIndexed C) (is_ip_loopback is_ip_local : ℕ → Bool) where
  open peers use {find, size}

  abbrev pub IsDisjoint : PeerlistManager C → Type 0
  IsDisjoint m = (a : NetAddress) → (find a m.peers_white ≡ none) ⊎ (find a m.peers_gray ≡ none)

  -- The calls that change the lists. `seen` carries time(NULL), the peer's id and its address.
  pub data Call : Type 0 where
    white : PeerlistEntry → Call
    gray : PeerlistEntry → Call
    merge : List PeerlistEntry → Call
    seen : ℕ → ℕ → NetAddress → Call

  pub call : PeerlistManager C → Call → PeerlistManager C
  call m (white e) = append_with_peer_white peers is_ip_loopback is_ip_local m e
  call m (gray e) = append_with_peer_gray peers is_ip_loopback is_ip_local m e
  call m (merge es) = merge_peerlist peers is_ip_loopback is_ip_local m es
  call m (seen now peer addr) = set_peer_just_seen peers is_ip_loopback is_ip_local m now peer addr

  white-IsDisjoint :
      (m : PeerlistManager C) (e : PeerlistEntry)
      → IsDisjoint m
      → IsDisjoint (append_with_peer_white peers is_ip_loopback is_ip_local m e)
  white-IsDisjoint m e d a =
      let (w, own, g) = append_with_peer_white_lem peers is_ip_loopback is_ip_local m e in
      elim (Bool-cases (same_adr a e.adr)) [
        | inl same ↦
            let eq : a ≡ e.adr = (same_adr_iff a e.adr).0 same in
            rw eq (ground (arith, own, w e.adr, d e.adr, g e.adr))
        | inr other ↦ ground (arith, w a, d a, g a, other)
      ]

  gray-IsDisjoint :
      (m : PeerlistManager C) (e : PeerlistEntry)
      → IsDisjoint m
      → IsDisjoint (append_with_peer_gray peers is_ip_loopback is_ip_local m e)
  gray-IsDisjoint m e d a =
      let (g, w) = append_with_peer_gray_lem peers is_ip_loopback is_ip_local m e in
      elim (Bool-cases (same_adr a e.adr)) [
        | inl same ↦
            let eq : a ≡ e.adr = (same_adr_iff a e.adr).0 same in
            rw eq (ground (arith, g e.adr, w e.adr, d e.adr))
        | inr other ↦ ground (arith, g a, w a, d a, other)
      ]

  trim-IsDisjoint : (m : PeerlistManager C) → IsDisjoint m → IsDisjoint (trim_gray_peerlist peers m)
  unfolding trim_gray_peerlist
  trim-IsDisjoint m d a =
      ground (arith, find-trim_loop peers (size m.peers_white) white_limit a m.peers_white, d a)

  merge-IsDisjoint :
      (es : List PeerlistEntry) (m : PeerlistManager C)
      → IsDisjoint m
      → IsDisjoint (merge_loop peers is_ip_loopback is_ip_local m es)
  unfolding merge_loop
  merge-IsDisjoint [] m d = d
  merge-IsDisjoint (e ∷ es) m d =
      merge-IsDisjoint es (append_with_peer_gray peers is_ip_loopback is_ip_local m e)
        (gray-IsDisjoint m e d)

  call-IsDisjoint : (c : Call) (m : PeerlistManager C) → IsDisjoint m → IsDisjoint (call m c)
  unfolding call merge_peerlist set_peer_just_seen
  call-IsDisjoint (white e) m d = white-IsDisjoint m e d
  call-IsDisjoint (gray e) m d = gray-IsDisjoint m e d
  call-IsDisjoint (merge es) m d = trim-IsDisjoint _ (merge-IsDisjoint es m d)
  call-IsDisjoint (seen now peer addr) m d = white-IsDisjoint m _ d

  pub run : PeerlistManager C → List Call → PeerlistManager C
  run m [] = m
  run m (c ∷ cs) = run (call m c) cs

  -- Whatever calls are made, an address that is in at most one of the two lists at the start is
  -- in at most one of them at the end.
  pub run-IsDisjoint :
      (cs : List Call) (m : PeerlistManager C) → IsDisjoint m → IsDisjoint (run m cs)
  unfolding run
  run-IsDisjoint [] m d = d
  run-IsDisjoint (c ∷ cs) m d = run-IsDisjoint cs (call m c) (call-IsDisjoint c m d)
