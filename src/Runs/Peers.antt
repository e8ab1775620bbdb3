-- ===== src/Runs/Peers.antt =====
-- src/p2p/net_peerlist.h on a small container.
use lira.Prelude.{
  ℕ, ◌+◌, ◌≡◌, refl, arith, ◌⊎◌, inl, Bool, false, ◌&&◌, ◌==◌, if◌then◌else◌, some, none, List, [],
  ◌∷◌, take,
}
use lira.Peerlist.Container.{NetAddress, PeerlistEntry, same_adr}
use lira.Peerlist.Sample.{Bag, bag}
use lira.Peerlist.{PeerlistManager, is_ip_allowed, append_with_peer_white, get_peerlist_head}
use lira.Peerlist.Append.{append_with_peer_white_lem, allowed}
use lira.Peerlist.Disjoint.{IsDisjoint, Call, white, merge, seen, run, run-IsDisjoint}
use lira.Peerlist.Growth.{append_all_white, size-append_all_white}
use lira.Peerlist.Order.{seen_entries}
use mathlib.Core.List.{reverse}
use lira.Peerlist.Head.{IsHead, get_peerlist_head_lem}

abbrev loopback : ℕ → Bool
loopback ip = ip == 127

abbrev local : ℕ → Bool
local ip = ip == 10

abbrev entry : ℕ → ℕ → PeerlistEntry
entry ip time = record { adr = record { ip = ip; port = 80 }; id = ip; last_seen = time }

abbrev empty : PeerlistManager Bag
empty = record { allow_local_ip = false; peers_gray = ([], tt); peers_white = ([], tt) }

abbrev one_white : PeerlistManager Bag
one_white = record {
  allow_local_ip = false;
  peers_gray = (entry 3 9 ∷ [], (tt, tt));
  peers_white = (entry 2 8 ∷ [], (tt, tt));
}

append_with_peer_white_lem_example :
    let m' = append_with_peer_white bag loopback local one_white (entry 3 9) in
    ((a : NetAddress)
      → bag.find a m'.peers_white ≡ (
          if allowed bag loopback local one_white (entry 3 9) && same_adr a (entry 3 9).adr
          then some (entry 3 9)
          else bag.find a one_white.peers_white))
    × (bag.find (entry 3 9).adr m'.peers_gray ≡ (
        if allowed bag loopback local one_white (entry 3 9)
        then none
        else bag.find (entry 3 9).adr one_white.peers_gray))
    × ((a : NetAddress)
        → (bag.find a m'.peers_gray ≡ none)
          ⊎ (bag.find a m'.peers_gray ≡ bag.find a one_white.peers_gray))
append_with_peer_white_lem_example =
    append_with_peer_white_lem bag loopback local one_white (entry 3 9)

abbrev history : List (Call bag loopback local)
history = white (entry 3 9) ∷ merge (entry 2 1 ∷ entry 5 1 ∷ []) ∷ seen 20 5 (entry 5 1).adr ∷ []

empty-IsDisjoint : IsDisjoint bag loopback local empty
unfolding bag
empty-IsDisjoint a = inl refl

run-IsDisjoint_example :
    (bag.find (entry 3 9).adr (run bag loopback local empty history).peers_white ≡ none)
    ⊎ (bag.find (entry 3 9).adr (run bag loopback local empty history).peers_gray ≡ none)
run-IsDisjoint_example =
    run-IsDisjoint bag loopback local history empty empty-IsDisjoint (entry 3 9).adr

size-append_all_white_example :
    bag.size (append_all_white bag loopback local empty (entry 1 1 ∷ entry 2 1 ∷ [])).peers_white
    ≡ bag.size empty.peers_white + 2
unfolding bag is_ip_allowed
size-append_all_white_example =
    size-append_all_white bag loopback local (entry 1 1 ∷ entry 2 1 ∷ []) empty
      (refl, refl, (refl, tt), (refl, refl, tt, tt))

get_peerlist_head_lem_example :
    (get_peerlist_head bag one_white 0
      ≡ take 2 (seen_entries (reverse (bag.by_time one_white.peers_white))))
    × IsHead bag one_white.peers_white 2 (get_peerlist_head bag one_white 0)
get_peerlist_head_lem_example = get_peerlist_head_lem bag one_white 0 (omega arith)
