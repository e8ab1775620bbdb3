-- ===== src/Peerlist/Container.antt =====
-- The entries of src/p2p/p2p_protocol_defs.h, and the container `peers_indexed` of
-- src/p2p/net_peerlist.h: unique by address, ordered by the time an entry was last seen. Boost's
-- multi_index_container is not part of the repository: its documented behaviour is a record of laws.
use lira.Prelude.{
  ℕ, suc, ◌-◌, ◌≡◌, ◌⊎◌, ◌↔◌, Bool, true, ◌&&◌, ◌==◌, if◌then◌else◌, Option, none, some, List,
  arith, [], ◌∷◌, All, ◌≤◌, length,
}

pub record NetAddress : Type 0 where
  pub ip : ℕ
  pub port : ℕ

-- Times are not before 1970.
pub record PeerlistEntry : Type 0 where
  pub adr : NetAddress
  pub id : ℕ
  pub last_seen : ℕ

abbrev pub same_adr : NetAddress → NetAddress → Bool
same_adr a b = a.ip == b.ip && a.port == b.port

pub same_adr_iff : (a b : NetAddress) → (same_adr a b ≡ true) ↔ (a ≡ b)
same_adr_iff a b = ground arith

-- The entry is one of the list.
abbrev pub Listed : PeerlistEntry → List PeerlistEntry → Type 0
Listed e [] = ⊥
Listed e (f ∷ es) = (f ≡ e) ⊎ Listed e es

-- Nothing in the list was seen before the time.
abbrev pub SeenSince : ℕ → List PeerlistEntry → Type 0
SeenSince time = All (λ (e : PeerlistEntry). time ≤ e.last_seen)

-- Oldest first.
abbrev pub Ascending : List PeerlistEntry → Type 0
Ascending [] = Unit {0}
Ascending (e ∷ es) = SeenSince e.last_seen es × Ascending es

pub record PeersIndexed (C : Type 0) : Type 0 where
  pub size : C → ℕ
  pub find : NetAddress → C → Option PeerlistEntry
  pub insert : PeerlistEntry → C → C
  pub replace : PeerlistEntry → C → C
  pub erase : NetAddress → C → C
  pub erase_oldest : C → C
  -- The entries in the order of the index by time, oldest first.
  pub by_time : C → List PeerlistEntry
  pub by_time_ascending : (c : C) → Ascending (by_time c)
  -- Both indices are of the same entries.
  pub by_time_find : (e : PeerlistEntry) (c : C) → Listed e (by_time c) ↔ (find e.adr c ≡ some e)
  pub size_by_time : (c : C) → length (by_time c) ≡ size c
  -- A new address is added; one that is there is written over.
  pub find_insert :
      (e : PeerlistEntry) (a : NetAddress) (c : C)
      → find e.adr c ≡ none
      → find a (insert e c) ≡ (if same_adr a e.adr then some e else find a c)
  pub size_insert :
      (e : PeerlistEntry) (c : C) → find e.adr c ≡ none → size (insert e c) ≡ suc (size c)
  pub find_replace :
      (e old : PeerlistEntry) (a : NetAddress) (c : C)
      → find e.adr c ≡ some old
      → find a (replace e c) ≡ (if same_adr a e.adr then some e else find a c)
  pub find_erase :
      (b a : NetAddress) (c : C) → find a (erase b c) ≡ (if same_adr a b then none else find a c)
  -- One entry goes, the first by time; of that, the code relies on this only: the others stay.
  pub size_erase_oldest : (c : C) → size (erase_oldest c) ≡ size c - 1
  pub find_erase_oldest :
      (a : NetAddress) (c : C)
      → (find a (erase_oldest c) ≡ none) ⊎ (find a (erase_oldest c) ≡ find a c)
