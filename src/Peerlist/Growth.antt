-- ===== src/Peerlist/Growth.antt =====
-- The white list has no limit while peers answer, since the two trimming functions are swapped.
use lira.Prelude.{
  ℕ, suc, ◌+◌, ◌≤◌, ◌≡◌, arith, Bool, true, false, none, List, [], ◌∷◌, ◌∙◌, All, length,
}
use lira.Peerlist.Container.{PeerlistEntry, PeersIndexed, same_adr}
use lira.Peerlist.Trim.{size-trim_loop}
use lira.Peerlist.Append.{append_with_peer_white_lem, allowed, white-drop_gray}
use lira.Peerlist.{
  PeerlistManager, trim_white_peerlist, trim_gray_peerlist, is_ip_allowed, put_white, drop_gray,
  append_with_peer_white, merge_loop, merge_peerlist, white_limit,
}

module _ {C : Type 0} (peers : PeersIndexed C) (is_ip_loopback is_ip_local : ℕ → Bool) where
  open peers use {find, size, size_insert, insert}

  pub append_all_white : PeerlistManager C → List PeerlistEntry → PeerlistManager C
  append_all_white m [] = m
  append_all_white m (e ∷ es) =
      append_all_white (append_with_peer_white peers is_ip_loopback is_ip_local m e) es

  -- Entries with distinct addresses, none of them in the white list, all with an IP that is allowed.
  abbrev pub Fresh : PeerlistManager C → List PeerlistEntry → Type 0
  Fresh m [] = Unit {0}
  Fresh m (e ∷ es) =
      (find e.adr m.peers_white ≡ none)
      × (allowed peers is_ip_loopback is_ip_local m e ≡ true)
      × All (λ f. same_adr f.adr e.adr ≡ false) es
      × Fresh m es

  append_one :
      (m : PeerlistManager C) (e : PeerlistEntry)
      → find e.adr m.peers_white ≡ none
      → allowed peers is_ip_loopback is_ip_local m e ≡ true
      → size (append_with_peer_white peers is_ip_loopback is_ip_local m e).peers_white
        ≡ suc (size m.peers_white)
  unfolding append_with_peer_white put_white trim_white_peerlist
  append_one m e absent ok = rw ok (
      rw (white-drop_gray peers (put_white peers m e) e.adr)
        (rw (absent, put_white) (size_insert e m.peers_white absent)))

  same_rules :
      (m : PeerlistManager C) (e f : PeerlistEntry)
      → allowed peers is_ip_loopback is_ip_local
          (append_with_peer_white peers is_ip_loopback is_ip_local m e)
          f
        ≡ allowed peers is_ip_loopback is_ip_local m f
  unfolding is_ip_allowed append_with_peer_white put_white drop_gray trim_white_peerlist
  same_rules m e f = ground arith

  Fresh-step :
      (m : PeerlistManager C) (e : PeerlistEntry) (es : List PeerlistEntry)
      → All (λ f. same_adr f.adr e.adr ≡ false) es
      → Fresh m es
      → Fresh (append_with_peer_white peers is_ip_loopback is_ip_local m e) es
  Fresh-step m e [] apart fresh = tt
  Fresh-step m e (f ∷ es) (other, apart) (absent, ok, distinct, fresh) =
      let (w, _, _) = append_with_peer_white_lem peers is_ip_loopback is_ip_local m e in
      (ground (arith, w f.adr), same_rules m e f ∙ ok, distinct, Fresh-step m e es apart fresh)

  -- Appending any number of fresh entries to the white list grows it by that number: nothing
  -- holds it to P2P_LOCAL_WHITE_PEERLIST_LIMIT.
  pub size-append_all_white :
      (es : List PeerlistEntry) (m : PeerlistManager C)
      → Fresh m es
      → size (append_all_white m es).peers_white ≡ size m.peers_white + length es
  unfolding append_all_white
  size-append_all_white [] m fresh = omega arith
  size-append_all_white (e ∷ es) m (absent, ok, apart, fresh) =
      size-append_all_white es (append_with_peer_white peers is_ip_loopback is_ip_local m e)
        (Fresh-step m e es apart fresh)
      ∙ omega (arith, append_one m e absent ok)

  -- `merge_peerlist`, which only adds to the gray list, trims the white list to its limit.
  pub size-merge_peerlist :
      (es : List PeerlistEntry) (m : PeerlistManager C)
      → size (merge_peerlist peers is_ip_loopback is_ip_local m es).peers_white ≤ white_limit
  unfolding merge_peerlist trim_gray_peerlist
  size-merge_peerlist es m = omega (
    arith,
    size-trim_loop peers (size (merge_loop peers is_ip_loopback is_ip_local m es).peers_white)
        white_limit (merge_loop peers is_ip_loopback is_ip_local m es).peers_white,
  )
