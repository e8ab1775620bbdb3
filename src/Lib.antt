-- ===== src/Lib.antt =====
-- Lira, a CryptoNote currency: the node, its wallet and its miner, in C and C++. A node keeps the
-- chain of blocks, takes part in a peer-to-peer network, and serves wallets; blocks commit to
-- their transactions by a Merkle root, amounts and sizes travel as variable-length integers, and
-- the reward of a block and its difficulty are computed with 128-bit intermediate results.
--
-- The parts that are modelled, bottom up:
--   Prelude         names and lemmas that every part shares: Boolean tests, lists as arrays, the
--                   Option monad for code that can fail, and bit operations as arithmetic.
--   IntUtil         src/common/int-util.h: mul128 and div128_32.
--   Varint          src/common/varint.h: write_varint and read_varint, for a type of `bits` bits.
--   TreeHash        src/crypto/tree-hash.c: tree_hash, tree_depth, tree_branch and
--                   tree_hash_from_branch, over any compression of two hashes.
--   Peerlist        src/p2p/net_peerlist.h: peerlist_manager, over any container with the laws of
--                   peers_indexed (Peerlist.Container); Peerlist.Sample is one such container.
--   Chain           src/cryptonote_core/BlockIndex.h and .cpp: the hashes of the main chain by height,
--                   and the short history that one node sends to another.
--   Sync            src/transfers/SynchronizationState.cpp and updateConsumers of
--                   src/transfers/BlockchainSynchronizer.cpp: the chain that each consumer has seen,
--                   brought up to date by an interval of blocks. It uses Chain for its history.
--   Reward          getPenalizedAmount of src/cryptonote_core/cryptonote_basic_impl.cpp, and
--                   getBlockReward and maxBlockCumulativeSize of src/cryptonote_core/Currency.cpp, on
--                   the 128-bit operations of IntUtil.
--   Difficulty      src/cryptonote_core/difficulty.cpp: check_hash; and nextDifficulty of
--                   src/cryptonote_core/Currency.cpp.
--   SwappedVector   src/cryptonote_core/SwappedVector.h: a vector in two files with a pool of items in
--                   memory, over any serialization that reads back what it wrote.
--   Base58          src/common/base58.cpp: encode, decode, encode_addr and decode_addr.
--   Chacha8         src/crypto/chacha8.c: the stream cipher, as blocks numbered by a counter.
--   Keccak          src/crypto/keccak.c: the permutation, and the hash as a sponge of padded blocks.
--   Amounts         src/cryptonote_core/cryptonote_format_utils.h: decompose_amount_into_digits, with
--                   what its handlers are called with as a list.
--   Decimals        formatAmount and parseAmount of src/cryptonote_core/Currency.cpp.
--   Transfers       src/transfers/TransfersContainer.h and .cpp: the outputs of a wallet, as a state
--                   whose calls end with a result, with an exception and the state it leaves, or
--                   with a failed assertion. Visibility says which output of a key image is seen.
--   Sending         src/wallet/WalletTransactionSender.cpp: what a transaction of the wallet needs,
--                   the outputs of Transfers drawn for it at random, and its destinations, with the
--                   change, in the digits of Amounts; prepareInputs, which hides each output among
--                   others. Sending.Unconfirmed is
--                   src/wallet/WalletUnconfirmedTransactions.cpp: the transactions on their way, and
--                   the outputs that they use; Sending.Apart is about a wallet that sends with
--                   mixIn 0 only, where one call selects the outputs and marks them.
--   Runs            tests on fixed inputs, and each theorem at an input where its hypotheses hold.
-- A child module is named for what it holds or proves: TreeHash.Spec is the top-down Merkle root
-- that TreeHash.Root compares with the code, and so on.
--
-- Conventions. A w-bit unsigned integer is a natural number, and every operation of the source
-- that can wrap has its `% 2 ^ w` or is shown not to need it. An array is a list of its written
-- elements; an access outside it, a failed `assert` and an exception are `none`, but Transfers and
-- Sending have exceptions as results of their own. A `while` loop is recursion on fuel, and each
-- theorem that says what such a loop returns gives it the fuel that the definition passes: 7
-- rounds for the shifts of a 64-bit count by 32, 16, 8, 4, 2, 1, then 0; 65 for the levels of a
-- tree whose width fits 64 bits; one round more than the bits of a varint's type; the number of
-- blocks for the offsets of a short history, which grow in each round; the size of a peer list for
-- its trimming, where each round takes one entry; 12 rounds for the digits of a block of Base58,
-- since a 64-bit number has at most 11; one round more than the whole blocks of a text for Chacha8
-- and Keccak; 21 rounds for the digits of a 64-bit amount, which has 20 at most; one round more
-- than the outputs for their selection, where each round takes one.
--
-- Parameters. cn_fast_hash, the sort of the standard library, the serialization of an item, what a
-- local array holds before it is written, the tests for a loopback or local address, the callbacks
-- of a consumer, the random numbers and the conversions of numbers of the standard library, the
-- trim of Boost and the parser of an address are arguments with the laws that the code relies on.
-- The container of BlockIndex is the list of its hashes, with Boost's push_back and pop_back as arguments
-- whose documented behaviour is assumed.
--
-- Not modelled: input and output, threads and locks, logging, the command lines and the calls
-- between processes; serialization to files; the other cryptographic primitives, which are reference
-- code whose correctness needs the theory of the curve, or assembly; the verification of blocks and
-- transactions in src/cryptonote_core/blockchain_storage.cpp and the transaction pool, which rest on
-- those; and the code of epee, Boost and Google under contrib and external.
pub mod Prelude
pub mod Decimals
pub mod Sending
pub mod Transfers
pub mod TreeHash
pub mod Varint
pub mod Amounts
pub mod Base58
pub mod Chacha8
pub mod Chain
pub mod Difficulty
pub mod IntUtil
pub mod Keccak
pub mod Peerlist
pub mod Sync
pub mod Reward
pub mod SwappedVector
pub mod Runs
