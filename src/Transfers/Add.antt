-- ===== src/Transfers/Add.antt =====
-- src/transfers/TransfersContainer.cpp: addTransaction.
use lira.Prelude.{
  ℕ, zero, suc, ltb, Bool, true, false, not, ◌&&◌, ◌||◌, ◌==◌, if◌then◌else◌, Option, none, some,
  List, [], ◌∷◌, length, get_elem?,
}
use lira.Transfers.{
  unconfirmed_transaction_height, unconfirmed_transaction_global_output_index, OutputType,
  invalid_output, key_output, multisignature_output, TransferIn, Transfer, SpentTransfer, BlockInfo,
  TransactionInformation, Container, Outcome, done, threw, failed, ◌>>=◌, ◌>>◌, check, throw_if,
  is_key_type, is_multisignature_type, of_key, of_multisignature, descriptor_of, count,
  of_descriptor, spent_of,
}
use lira.Transfers.Visibility.{range, sort, find_first_by_amount, update_transfers_visibility}

pub data Input : Type 0 where
  invalid_input generating_input : Input
  key_input : ℕ → ℕ → Input
  multisignature_input : ℕ → ℕ → Input

-- What the code reads of an ITransactionReader. A key input has its amount and key image, one of
-- multisignature type its amount and output index.
pub record Transaction : Type 0 where
  pub hash : ℕ
  pub public_key : ℕ
  pub unlock_time : ℕ
  pub total_amount_in : ℕ
  pub total_amount_out : ℕ
  pub payment_id : Option ℕ
  pub output_types : List OutputType
  pub inputs : List Input

unfoldable pub same_type : OutputType → OutputType → Bool
same_type invalid_output invalid_output = true
same_type key_output key_output = true
same_type multisignature_output multisignature_output = true
same_type a b = false

-- The index by descriptor asserts that the output has one.
unfoldable pub emplace_unconfirmed : Transfer → Container → Outcome Container
emplace_unconfirmed t c = elim (descriptor_of (t.base)) [
  | none ↦ failed
  | some d ↦ done (record c { unconfirmed = t ∷ c.unconfirmed })
]

unfoldable pub emplace_available : Transfer → Container → Outcome Container
emplace_available t c = elim (descriptor_of (t.base)) [
  | none ↦ failed
  | some d ↦ done (record c { available = t ∷ c.available })
]

-- The index of spent outputs is unique; `assert(result.second)`.
unfoldable pub emplace_spent : SpentTransfer → Container → Outcome Container
emplace_spent s c = elim (descriptor_of (s.output.base)) [
  | none ↦ failed
  | some d ↦ check (count (spent_of d) c.spent == 0) >> done (record c { spent = s ∷ c.spent })
]

-- if (type == Key) updateTransfersVisibility(keyImage)
unfoldable pub touch : TransferIn → Container → Outcome Container
touch t c = if is_key_type (t.kind) then update_transfers_visibility (t.key_image) c else done c

-- "Transfer already exists", for outputs of multisignature type.
unfoldable pub exists_already : TransferIn → Container → Bool
exists_already t c =
    let d = of_multisignature (t.amount) (t.global_output_index) in
    is_multisignature_type (t.kind)
    && (ltb 0 (count (of_descriptor d) c.available) || ltb 0 (count (spent_of d) c.spent))

unfoldable pub add_output : BlockInfo → Transaction → TransferIn → Container → Outcome Container
add_output block tx transfer c =
    let unconfirmed_tx = block.height == unconfirmed_transaction_height in
    let unconfirmed = transfer.global_output_index == unconfirmed_transaction_global_output_index in
    let info : Transfer = record {
      base = record transfer { transaction_hash = tx.hash };
      unlock_time = tx.unlock_time;
      block_height = block.height;
      transaction_index = block.transaction_index;
      visible = true;
    } in
    do
      check (ltb transfer.output_in_transaction (length tx.output_types))
      check (elim (get_elem? (tx.output_types) (transfer.output_in_transaction)) [
        | none ↦ false
        | some kind ↦ same_type (transfer.kind) kind
      ])
      check (ltb 0 transfer.amount)
      throw_if (if unconfirmed_tx then not unconfirmed else unconfirmed) c
      throw_if (not unconfirmed && exists_already transfer c) c
      c' ← if unconfirmed then emplace_unconfirmed info c else emplace_available info c
      touch (info.base) c'

-- The flag is `outputsAdded`.
unfoldable pub add_transaction_outputs :
    BlockInfo → Transaction → List TransferIn → Container → Outcome (Container × Bool)
add_transaction_outputs block tx [] c = done (c, false)
add_transaction_outputs block tx (t ∷ ts) c = do
  c' ← add_output block tx t c
  (c'', added) ← add_transaction_outputs block tx ts c'
  done (c'', true)

unfoldable pub copy_to_spent :
    BlockInfo → Transaction → ℕ → Transfer → Container → Outcome Container
copy_to_spent block tx index output c = do
  check (not (output.block_height == unconfirmed_transaction_height))
  check (not (output.base.global_output_index == unconfirmed_transaction_global_output_index))
  emplace_spent
      (record {
        output = output;
        spending_block = block;
        spending_transaction_hash = tx.hash;
        input_in_transaction = index;
      })
      c

unfoldable pub remove_at : ℕ → List Transfer → List Transfer
remove_at i [] = []
remove_at zero (t ∷ ts) = ts
remove_at (suc i) (t ∷ ts) = t ∷ remove_at i ts

-- The available transfer at an iterator becomes a spent one.
unfoldable pub spend : BlockInfo → Transaction → ℕ → ℕ × Transfer → Container → Outcome Container
spend block tx index (i, t) c = do
  c' ← copy_to_spent block tx index t c
  done (record c' { available = remove_at i c'.available })

-- An input that spends the earliest output of its key image and amount.
unfoldable pub spend_key :
    BlockInfo → Transaction → ℕ → ℕ → ℕ → Container → Outcome (Container × Bool)
spend_key block tx index amount key_image c =
    elim (find_first_by_amount amount
      (sort (range (of_descriptor (of_key key_image)) 0 (c.available)))) [
        | none ↦ threw c
        | some (i, t) ↦ do
          check (t.base.key_image == key_image)
          c' ← spend block tx index (i, t) c
          c'' ← update_transfers_visibility key_image c'
          done (c'', true)
      ]

-- The flag is whether the input spends an output of this container.
unfoldable pub add_input :
    BlockInfo → Transaction → ℕ → Input → Container → Outcome (Container × Bool)
add_input block tx index invalid_input c = failed
add_input block tx index generating_input c = done (c, false)
add_input block tx index (key_input amount key_image) c =
    let d = of_key key_image in
    let available_count = count (of_descriptor d) c.available in
    let unconfirmed_count = count (of_descriptor d) c.unconfirmed in
    do
      throw_if (ltb 0 (count (spent_of d) c.spent)) c
      throw_if (available_count == 0 && ltb 0 unconfirmed_count) c
      if available_count == 0 then done (c, false) else spend_key block tx index amount key_image c
add_input block tx index (multisignature_input amount output_index) c =
    elim (range (of_descriptor (of_multisignature amount output_index)) 0 (c.available)) [
      | [] ↦ done (c, false)
      | x ∷ rest ↦ spend block tx index x c >>= λ c'. done (c', true)
    ]

-- From input `index` on; the flag is `inputsAdded`.
unfoldable pub add_transaction_inputs :
    BlockInfo → Transaction → ℕ → List Input → Container → Outcome (Container × Bool)
add_transaction_inputs block tx index [] c = done (c, false)
add_transaction_inputs block tx index (x ∷ xs) c = do
  (c', one) ← add_input block tx index x c
  (c'', more) ← add_transaction_inputs block tx (suc index) xs c'
  done (c'', one || more)

-- A new element of the index by height goes behind those of the same height.
unfoldable pub insert_by_height :
    TransactionInformation → List TransactionInformation → List TransactionInformation
insert_by_height a [] = a ∷ []
insert_by_height a (x ∷ xs) =
    let rest = insert_by_height a xs in
    if ltb a.block_height x.block_height then a ∷ x ∷ xs else x ∷ rest

abbrev pub of_hash : ℕ → TransactionInformation → Bool
of_hash h t = t.transaction_hash == h

unfoldable pub add_information : BlockInfo → Transaction → Container → Outcome Container
add_information block tx c =
    let info : TransactionInformation = record {
      transaction_hash = tx.hash;
      public_key = tx.public_key;
      block_height = block.height;
      timestamp = block.timestamp;
      unlock_time = tx.unlock_time;
      total_amount_in = tx.total_amount_in;
      total_amount_out = tx.total_amount_out;
      payment_id = elim (tx.payment_id) [ none ↦ 0 | some id ↦ id ];
    } in
    check (count (of_hash (tx.hash)) c.transactions == 0)
    >> done (record c { transactions = insert_by_height info c.transactions })

unfoldable pub add_transaction :
    BlockInfo → Transaction → List TransferIn → Container → Outcome (Container × Bool)
add_transaction block tx transfers c = do
  throw_if (ltb block.height c.current_height) c
  throw_if (ltb 0 (count (of_hash (tx.hash)) c.transactions)) c
  (c1, outputs) ← add_transaction_outputs block tx transfers c
  (c2, inputs) ← add_transaction_inputs block tx 0 (tx.inputs) c1
  let added = outputs || inputs
  c3 ← if added then add_information block tx c2 else done c2
  let confirmed = record c3 { current_height = block.height }
  done (if block.height == unconfirmed_transaction_height then c3 else confirmed, added)
