-- ===== src/Runs.antt =====
-- Concrete runs of the modelled code, and the theorems at concrete inputs.
mod Crypto
mod Words
mod Peers
mod Chains
mod Ciphers
mod Hashes
mod Money
mod Targets
mod Wallets
mod Sendings
mod Decoys
mod Stores
mod Formats
mod Rewards
mod Swapped
mod Texts
