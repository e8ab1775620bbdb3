-- ===== src/Peerlist.antt =====
-- src/p2p/net_peerlist.h: the white list (peers that answered) and the gray list (peers that were
-- only heard of). The containers are Boost's, and stand behind `Peerlist.Container`; the tests of
-- an address (epee's local_ip.h) are the parameters `is_ip_loopback` and `is_ip_local`.
pub mod Container
pub mod Trim
pub mod Append
pub mod Disjoint
pub mod Growth
pub mod Order
pub mod Head
pub mod Sorted
pub mod Sample
use lira.Prelude.{
  ℕ, zero, suc, ◌+◌, ◌-◌, ◌%◌, ◌^◌, Bool, true, false, not, ◌&&◌, ltb, leb, ◌==◌, if◌then◌else◌,
  Option, none, some, List, [], ◌∷◌, ◌++◌, get_elem?,
}
use mathlib.Core.List.{reverse}
use Container.{NetAddress, PeerlistEntry, PeersIndexed}

-- P2P_LOCAL_WHITE_PEERLIST_LIMIT, P2P_LOCAL_GRAY_PEERLIST_LIMIT of src/cryptonote_config.h.
abbrev pub white_limit : ℕ
white_limit = 1000

abbrev pub gray_limit : ℕ
gray_limit = 5000

pub record PeerlistManager (C : Type 0) : Type 0 where
  pub allow_local_ip : Bool
  pub peers_gray : C
  pub peers_white : C

-- The loop over the index by time from its end; `cnt` is a uint32_t, and is compared, then
-- incremented.
pub head_loop : ℕ → ℕ → List PeerlistEntry → List PeerlistEntry
head_loop depth cnt [] = []
head_loop depth cnt (vl ∷ rest) =
    let more = head_loop depth cnt rest in
    let others = head_loop depth ((cnt + 1) % 2 ^ 32) rest in
    if vl.last_seen == 0 then more else if ltb depth cnt then vl ∷ [] else vl ∷ others

module _ {C : Type 0} (peers : PeersIndexed C) where
  open peers use {size, find, insert, replace, erase, erase_oldest, by_time}

  -- for(auto x: pio) { if it is not there by its address, insert it }
  pub peers_indexed_from_old : List PeerlistEntry → C → C
  peers_indexed_from_old [] pi = pi
  peers_indexed_from_old (x ∷ pio) pi =
      peers_indexed_from_old pio (elim (find x.adr pi) [ none ↦ insert x pi | some e ↦ pi ])

  -- while(size() > limit) erase(begin()) on the index by time.
  pub trim_loop : ℕ → ℕ → C → C
  trim_loop zero limit c = c
  trim_loop (suc fuel) limit c =
      let next = trim_loop fuel limit (erase_oldest c) in if ltb limit (size c) then next else c

  -- As in the source, the function named after the white list trims the gray one, and the other way
  -- round. Each round takes one entry, so the size is enough fuel.
  unfoldable pub trim_white_peerlist : PeerlistManager C → PeerlistManager C
  trim_white_peerlist m = record m {
    peers_gray = trim_loop (size m.peers_gray) gray_limit m.peers_gray;
  }

  unfoldable pub trim_gray_peerlist : PeerlistManager C → PeerlistManager C
  trim_gray_peerlist m = record m {
    peers_white = trim_loop (size m.peers_white) white_limit m.peers_white;
  }

  -- The entry `i` places before the newest, by steps back from --end().
  pub get_peer_by_index : C → ℕ → Option PeerlistEntry
  get_peer_by_index c i = if leb (size c) i then none else get_elem? (by_time c) (size c - 1 - i)

  pub get_white_peer_by_index : PeerlistManager C → ℕ → Option PeerlistEntry
  unfolding get_peer_by_index
  get_white_peer_by_index m i = get_peer_by_index m.peers_white i

  pub get_gray_peer_by_index : PeerlistManager C → ℕ → Option PeerlistEntry
  unfolding get_peer_by_index
  get_gray_peer_by_index m i = get_peer_by_index m.peers_gray i

  unfoldable pub get_peerlist_head : PeerlistManager C → ℕ → List PeerlistEntry
  get_peerlist_head m depth = head_loop depth 0 (reverse (by_time m.peers_white))

  -- (pl_gray, pl_white)
  unfoldable pub get_peerlist_full : PeerlistManager C → List PeerlistEntry × List PeerlistEntry
  get_peerlist_full m = (reverse (by_time m.peers_gray), reverse (by_time m.peers_white))

  -- The write to the white list, then the removal from the gray list.
  pub put_white : PeerlistManager C → PeerlistEntry → PeerlistManager C
  put_white m ple = elim (find ple.adr m.peers_white) [
    | none ↦ trim_white_peerlist (record m { peers_white = insert ple m.peers_white })
    | some e ↦ record m { peers_white = replace ple m.peers_white }
  ]

  pub drop_gray : PeerlistManager C → NetAddress → PeerlistManager C
  drop_gray m adr = elim (find adr m.peers_gray) [
    | none ↦ m
    | some e ↦ record m { peers_gray = erase adr m.peers_gray }
  ]

  pub put_gray : PeerlistManager C → PeerlistEntry → PeerlistManager C
  put_gray m ple = elim (find ple.adr m.peers_gray) [
    | none ↦ trim_gray_peerlist (record m { peers_gray = insert ple m.peers_gray })
    | some e ↦ record m { peers_gray = replace ple m.peers_gray }
  ]

  module _ (is_ip_loopback is_ip_local : ℕ → Bool) where
    unfoldable pub is_ip_allowed : PeerlistManager C → ℕ → Bool
    is_ip_allowed m ip =
        if is_ip_loopback ip
        then false
        else if not m.allow_local_ip && is_ip_local ip
        then false
        else true

    unfoldable pub append_with_peer_white : PeerlistManager C → PeerlistEntry → PeerlistManager C
    append_with_peer_white m ple =
        if not (is_ip_allowed m ple.adr.ip) then m else drop_gray (put_white m ple) ple.adr

    unfoldable pub append_with_peer_gray : PeerlistManager C → PeerlistEntry → PeerlistManager C
    append_with_peer_gray m ple =
        if not (is_ip_allowed m ple.adr.ip)
        then m
        else elim (find ple.adr m.peers_white) [ some e ↦ m | none ↦ put_gray m ple ]

    pub merge_loop : PeerlistManager C → List PeerlistEntry → PeerlistManager C
    merge_loop m [] = m
    merge_loop m (be ∷ outer_bs) = merge_loop (append_with_peer_gray m be) outer_bs

    unfoldable pub merge_peerlist : PeerlistManager C → List PeerlistEntry → PeerlistManager C
    unfolding merge_loop
    merge_peerlist m outer_bs = trim_gray_peerlist (merge_loop m outer_bs)

    -- `now` is time(NULL).
    unfoldable pub set_peer_just_seen : PeerlistManager C → ℕ → ℕ → NetAddress → PeerlistManager C
    set_peer_just_seen m now peer addr =
        append_with_peer_white m (record { adr = addr; id = peer; last_seen = now })
