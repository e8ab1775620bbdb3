-- ===== src/Sending/Unconfirmed.antt =====
-- src/wallet/WalletUnconfirmedTransactions.h and .cpp: the transactions on their way, and the outputs
-- that they use. The map and the set are lists.
use lira.Prelude.{
  ℕ, ◌+◌, ◌-◌, ◌%◌, ◌^◌, ◌&&◌, ◌||◌, ◌==◌, if◌then◌else◌, Bool, false, Option, none, some, List, [],
  ◌∷◌, ◌++◌, map,
}
use lira.Transfers.{Transfer}

-- TransactionOutputId: a transaction public key, and the index of an output in the transaction.
abbrev pub OutputId : Type 0
OutputId = ℕ × ℕ

unfoldable pub get_output_id : Transfer → OutputId
get_output_id t = (t.base.transaction_public_key, t.base.output_in_transaction)

-- The transaction itself is of any type.
pub record UnconfirmedTransferDetails (T : Type 0) : Type 0 where
  pub tx : Option T
  pub amount : ℕ
  pub outs_amount : ℕ
  pub sent_time : ℕ
  pub transaction_id : ℕ
  pub used_outputs : List OutputId

pub record UnconfirmedTransactions (T : Type 0) : Type 0 where
  pub unconfirmed_txs : List (ℕ × UnconfirmedTransferDetails T)
  pub used_outputs : List OutputId

abbrev pub invalid_transaction_id : ℕ
invalid_transaction_id = 2 ^ 64 - 1

unfoldable pub same_id : OutputId → OutputId → Bool
same_id (key, index) (key', index') = key == key' && index == index'

-- The set: find, insert and erase.
unfoldable pub is_member : OutputId → List OutputId → Bool
is_member id [] = false
is_member id (x ∷ xs) = same_id id x || is_member id xs

unfoldable pub insert_id : OutputId → List OutputId → List OutputId
insert_id id xs = if is_member id xs then xs else (id ∷ xs)

unfoldable pub insert_ids : List OutputId → List OutputId → List OutputId
insert_ids [] xs = xs
insert_ids (id ∷ ids) xs = insert_ids ids (insert_id id xs)

unfoldable pub erase_id : OutputId → List OutputId → List OutputId
erase_id id [] = []
erase_id id (x ∷ xs) = let rest = erase_id id xs in if same_id id x then rest else (x ∷ rest)

unfoldable pub erase_ids : List OutputId → List OutputId → List OutputId
erase_ids [] xs = xs
erase_ids (id ∷ ids) xs = erase_ids ids (erase_id id xs)

-- outsAmount in add.
unfoldable pub sum_outs : ℕ → List Transfer → ℕ
sum_outs acc [] = acc
sum_outs acc (out ∷ outs) = sum_outs ((acc + out.base.amount) % 2 ^ 64) outs

abbrev pub Entries : Type 0 → Type 0
Entries T = List (ℕ × UnconfirmedTransferDetails T)

module _ {T : Type 0} where
  -- The constructor sets three fields; `outs_amount` holds anything until add has set it.
  abbrev pub new_details : UnconfirmedTransferDetails T
  new_details = record {
    tx = none;
    amount = 0;
    outs_amount = 0;
    sent_time = 0;
    transaction_id = invalid_transaction_id;
    used_outputs = [];
  }

  unfoldable pub find_entry : ℕ → Entries T → Option (UnconfirmedTransferDetails T)
  find_entry hash [] = none
  find_entry hash ((h, d) ∷ txs) =
      let rest = find_entry hash txs in if h == hash then some d else rest

  unfoldable pub erase_entry : ℕ → Entries T → Entries T
  erase_entry hash [] = []
  erase_entry hash ((h, d) ∷ txs) =
      let rest = erase_entry hash txs in if h == hash then txs else ((h, d) ∷ rest)

  -- m_unconfirmedTxs[hash], written through the reference: a new entry if there is none.
  unfoldable pub at_entry :
      ℕ → (UnconfirmedTransferDetails T → UnconfirmedTransferDetails T) → Entries T → Entries T
  at_entry hash f [] = (hash, f new_details) ∷ []
  at_entry hash f ((h, d) ∷ txs) =
      let rest = at_entry hash f txs in if h == hash then ((h, f d) ∷ txs) else ((h, d) ∷ rest)

  unfoldable pub find_transaction_id : ℕ → UnconfirmedTransactions T → Option ℕ
  find_transaction_id hash s = elim (find_entry hash (s.unconfirmed_txs)) [
    | none ↦ none
    | some d ↦ some (d.transaction_id)
  ]

  unfoldable pub erase : ℕ → UnconfirmedTransactions T → UnconfirmedTransactions T
  erase hash s = elim (find_entry hash (s.unconfirmed_txs)) [
    | none ↦ s
    | some d ↦ record {
      unconfirmed_txs = erase_entry hash (s.unconfirmed_txs);
      used_outputs = erase_ids (d.used_outputs) (s.used_outputs);
    }
  ]

  -- What add writes to the details: the used outputs are appended.
  unfoldable pub fill_details :
      T → ℕ → ℕ → ℕ → List Transfer → UnconfirmedTransferDetails T → UnconfirmedTransferDetails T
  fill_details new_tx id new_amount now outs d = record {
    tx = some new_tx;
    amount = new_amount;
    outs_amount = sum_outs 0 outs;
    sent_time = now;
    transaction_id = id;
    used_outputs = d.used_outputs ++ map get_output_id outs;
  }

  -- At a time, a transaction with an id, its amount and the outputs that it uses.
  unfoldable pub add :
      (T → ℕ)
      → ℕ
      → T
      → ℕ
      → ℕ
      → List Transfer
      → UnconfirmedTransactions T
      → UnconfirmedTransactions T
  add get_transaction_hash now new_tx id new_amount outs s = record {
    unconfirmed_txs =
        at_entry (get_transaction_hash new_tx) (fill_details new_tx id new_amount now outs)
          (s.unconfirmed_txs);
    used_outputs = insert_ids (map get_output_id outs) (s.used_outputs);
  }

  unfoldable pub update_entry : ℕ → ℕ → Entries T → Entries T
  update_entry hash id [] = []
  update_entry hash id ((h, d) ∷ txs) =
      let rest = update_entry hash id txs in
      if h == hash then ((h, record d { transaction_id = id }) ∷ txs) else ((h, d) ∷ rest)

  unfoldable pub update_transaction_id :
      ℕ → ℕ → UnconfirmedTransactions T → UnconfirmedTransactions T
  update_transaction_id hash id s = record s {
    unconfirmed_txs = update_entry hash id s.unconfirmed_txs;
  }

  unfoldable pub sum_entries : (UnconfirmedTransferDetails T → ℕ) → ℕ → Entries T → ℕ
  sum_entries f acc [] = acc
  sum_entries f acc ((h, d) ∷ txs) = sum_entries f ((acc + f d) % 2 ^ 64) txs

  unfoldable pub count_unconfirmed_outs_amount : UnconfirmedTransactions T → ℕ
  count_unconfirmed_outs_amount s = sum_entries (λ d. d.outs_amount) 0 (s.unconfirmed_txs)

  unfoldable pub count_unconfirmed_transactions_amount : UnconfirmedTransactions T → ℕ
  count_unconfirmed_transactions_amount s = sum_entries (λ d. d.amount) 0 (s.unconfirmed_txs)

  -- collectUsedOutputs, and the set that it starts from.
  unfoldable pub collect_ids : Entries T → List OutputId → List OutputId
  collect_ids [] used = used
  collect_ids ((h, d) ∷ txs) used = collect_ids txs (insert_ids (d.used_outputs) used)

  unfoldable pub collect_used_outputs : UnconfirmedTransactions T → UnconfirmedTransactions T
  collect_used_outputs s = record s { used_outputs = collect_ids s.unconfirmed_txs [] }
