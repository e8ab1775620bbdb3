-- ===== src/Peerlist/Trim.antt =====
-- Trimming ends with the size inside the limit, and keeps the newest entries.
use lira.Prelude.{ℕ, zero, suc, ◌≤◌, ◌≡◌, refl, arith, ◌⊎◌, inr, none, min}
use lira.Peerlist.Container.{NetAddress, PeersIndexed}
use lira.Peerlist.{trim_loop}

module _ {C : Type 0} (peers : PeersIndexed C) where
  open peers use {size, find, erase_oldest, by_time, size_erase_oldest, find_erase_oldest}

  pub size-trim_loop :
      (fuel limit : ℕ) (c : C)
      → size c ≤ fuel
      → size (trim_loop peers fuel limit c) ≡ min (size c) limit
  unfolding trim_loop
  size-trim_loop zero limit c h = omega arith
  size-trim_loop (suc fuel) limit c h =
      ground (arith, size_erase_oldest c, size-trim_loop fuel limit (erase_oldest c))

  -- No entry appears.
  pub find-trim_loop :
      (fuel limit : ℕ) (a : NetAddress) (c : C)
      → (find a (trim_loop peers fuel limit c) ≡ none)
        ⊎ (find a (trim_loop peers fuel limit c) ≡ find a c)
  unfolding trim_loop
  find-trim_loop zero limit a c = inr refl
  find-trim_loop (suc fuel) limit a c =
      ground (arith, find_erase_oldest a c, find-trim_loop fuel limit a (erase_oldest c))
