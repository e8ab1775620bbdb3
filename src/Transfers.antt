-- ===== src/Transfers.antt =====
-- src/transfers/TransfersContainer.h and .cpp, with the data of include/ITransfersContainer.h and
-- ITransaction.h: the outputs that a wallet received, and those that it spent. Hashes and keys are
-- numbers. The containers of Boost are lists: the order of the hashed ones, which the library leaves
-- open, is that of the list, a new element first; a base class is a field.
pub mod Visibility
pub mod Add
pub mod Delete
pub mod Counts
pub mod Shown
pub mod Earliest
pub mod Settled
pub mod Touch
pub mod Query
pub mod Spending
pub mod Adding
pub mod Deleting
pub mod Confirming
pub mod Outputs
pub mod Listed
use lira.Prelude.{
  ℕ, ◌+◌, ◌^◌, ◌-◌, Bool, true, false, ◌&&◌, ◌==◌, if◌then◌else◌, Option, none, some, List, [], ◌∷◌,
}

abbrev pub unconfirmed_transaction_height : ℕ
unconfirmed_transaction_height = 2 ^ 64 - 1

abbrev pub unconfirmed_transaction_global_output_index : ℕ
unconfirmed_transaction_global_output_index = 2 ^ 64 - 1

pub data OutputType : Type 0 where
  invalid_output key_output multisignature_output : OutputType

-- TransactionOutputInformationIn; `output_key` is the union.
pub record TransferIn : Type 0 where
  pub kind : OutputType
  pub amount : ℕ
  pub global_output_index : ℕ
  pub output_in_transaction : ℕ
  pub transaction_hash : ℕ
  pub transaction_public_key : ℕ
  pub output_key : ℕ
  pub key_image : ℕ

-- TransactionOutputInformationEx.
pub record Transfer : Type 0 where
  pub base : TransferIn
  pub unlock_time : ℕ
  pub block_height : ℕ
  pub transaction_index : ℕ
  pub visible : Bool

pub record BlockInfo : Type 0 where
  pub height : ℕ
  pub timestamp : ℕ
  pub transaction_index : ℕ

-- SpentTransactionOutput.
pub record SpentTransfer : Type 0 where
  pub output : Transfer
  pub spending_block : BlockInfo
  pub spending_transaction_hash : ℕ
  pub input_in_transaction : ℕ

-- Without `extra`, which the container leaves empty.
pub record TransactionInformation : Type 0 where
  pub transaction_hash : ℕ
  pub public_key : ℕ
  pub block_height : ℕ
  pub timestamp : ℕ
  pub unlock_time : ℕ
  pub total_amount_in : ℕ
  pub total_amount_out : ℕ
  pub payment_id : ℕ

-- The transactions are in the order of their index by height.
pub record Container : Type 0 where
  pub current_height : ℕ
  pub transactions : List TransactionInformation
  pub unconfirmed : List Transfer
  pub available : List Transfer
  pub spent : List SpentTransfer

-- What a call ends with: a result, an exception and the state that it leaves, or a failed assertion.
pub data Outcome (S : Type 0) : Type 0 where
  done : S → Outcome S
  threw : Container → Outcome S
  failed : Outcome S

infixl 5 ◌>>=◌ ◌>>◌
unfoldable pub ◌>>=◌ : {S T : Type 0} → Outcome S → (S → Outcome T) → Outcome T
done s >>= f = f s
threw c >>= f = threw c
failed >>= f = failed

unfoldable pub ◌>>◌ : {T : Type 0} → Outcome (Unit {0}) → Outcome T → Outcome T
unfolding ◌>>=◌
m >> k = m >>= λ _. k

unfoldable pub check : Bool → Outcome (Unit {0})
check b = if b then done tt else failed

unfoldable pub throw_if : Bool → Container → Outcome (Unit {0})
throw_if b c = if b then threw c else done tt

abbrev pub is_key_type : OutputType → Bool
is_key_type key_output = true
is_key_type other = false

abbrev pub is_multisignature_type : OutputType → Bool
is_multisignature_type multisignature_output = true
is_multisignature_type other = false

-- SpentOutputDescriptor.
pub data Descriptor : Type 0 where
  of_key : ℕ → Descriptor
  of_multisignature : ℕ → ℕ → Descriptor

-- The constructor from an output; `none` is its failed assertion.
unfoldable pub descriptor_of : TransferIn → Option Descriptor
descriptor_of t = elim (t.kind) [
  | invalid_output ↦ none
  | key_output ↦ some (of_key t.key_image)
  | multisignature_output ↦ some (of_multisignature t.amount t.global_output_index)
]

unfoldable pub same_descriptor : Descriptor → Descriptor → Bool
same_descriptor (of_key k) (of_key l) = k == l
same_descriptor (of_key k) (of_multisignature b j) = false
same_descriptor (of_multisignature a i) (of_key l) = false
same_descriptor (of_multisignature a i) (of_multisignature b j) = a == b && i == j

-- Whether the index by descriptor finds the output under `d`.
unfoldable pub has_descriptor : Descriptor → TransferIn → Bool
has_descriptor d t = elim (descriptor_of t) [ none ↦ false | some e ↦ same_descriptor e d ]

abbrev pub bit : Bool → ℕ
bit b = if b then 1 else 0

-- std::distance of a range.
abbrev pub count {ℓ} : {A : Type ℓ} → (A → Bool) → List A → ℕ
count p [] = 0
count p (x ∷ xs) = bit (p x) + count p xs

abbrev pub of_descriptor : Descriptor → Transfer → Bool
of_descriptor d t = has_descriptor d (t.base)

abbrev pub spent_of : Descriptor → SpentTransfer → Bool
spent_of d s = has_descriptor d (s.output.base)
