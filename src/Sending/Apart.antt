-- ===== src/Sending/Apart.antt =====
-- src/wallet/WalletTransactionSender.cpp with WalletUnconfirmedTransactions.cpp: the transactions of a
-- wallet on their way, each made of outputs that were selected when it was added. Only a wallet that
-- sends with mixIn 0 is covered: with another mixIn, the outputs are marked after the answer of the node
-- (doSendTransaction), and two transactions may be given the same ones before that.
use lira.Prelude.{
  ℕ, ◌+◌, ◌≤◌, ◌≡◌, refl, sym, ap, ◌∙◌, arith, ◌&&◌, ◌||◌, ◌==◌, Bool-cases, inl, inr, Bool, true,
  some, some-injective, List, [], ◌∷◌,
}
use lira.Transfers.{Transfer, Container, bit, count}
use lira.Transfers.Query.{Settings}
use lira.Sending.{is_used, select_transfers_to_send}
use lira.Sending.Selected.{spendable, Pays, select_transfers_to_send_lem}
use lira.Sending.Unconfirmed.{
  OutputId, UnconfirmedTransactions, get_output_id, same_id, is_member, add, erase,
  update_transaction_id, collect_used_outputs,
}
use lira.Sending.Stored.{same_id→eq}
use lira.Sending.Occurrences.{
  with_id, occurrences, Marks, add-Marks, erase-Marks, update_transaction_id-Marks, collect-Marks,
}

is_used_lem :
    (used : List OutputId) (t : Transfer) → is_used used t ≡ is_member (get_output_id t) used
unfolding is_used is_member get_output_id same_id
is_used_lem [] t = refl
is_used_lem ((key, index) ∷ used) t =
    ap
      (λ (b : Bool).
        (t.base.transaction_public_key == key && t.base.output_in_transaction == index) || b)
      (is_used_lem used t)

-- A marked output is in no list of unused ones.
none_marked :
    (id : OutputId) (used : List OutputId) (ts : List Transfer)
    → count (is_used used) ts ≡ 0
    → is_member id used ≡ true
    → count (with_id id) ts ≡ 0
none_marked id used [] none_used marked = refl
none_marked id used (t ∷ ts) none_used marked = elim (Bool-cases (with_id id t)) [
  | inr h ↦ rw h (omega (arith, none_marked id used ts (omega (arith, none_used)) marked))
  | inl h ↦
      let found : is_used used t ≡ true =
        is_used_lem used t
        ∙ ap (λ (x : OutputId). is_member x used) (sym (same_id→eq id (get_output_id t) h))
        ∙ marked in
      absurd (omega (arith, none_used, ap bit found))
]

apart_cases :
    (id : OutputId) (used : List OutputId) (ts : List Transfer)
    → count (is_used used) ts ≡ 0
    → count (with_id id) ts ≤ 1
    → bit (is_member id used) + count (with_id id) ts ≤ 1
apart_cases id used ts none_used once = elim (Bool-cases (is_member id used)) [
  | inl h ↦ rw (h, none_marked id used ts none_used h) (omega arith)
  | inr h ↦ rw h (omega (arith, once))
]

-- Outputs of a wallet that differ in their transaction key or their index.
unfoldable pub AreDistinct : List Transfer → Type 0
AreDistinct ts = (id : OutputId) → count (with_id id) ts ≤ 1

module _ {T G : Type 0} (get_transaction_hash : T → ℕ) (draw : G → ℕ → ℕ × G)
    (within : (g : G) (n : ℕ) → (draw g n).0 ≤ n) where
  -- What a wallet that sends with mixIn 0 only may do to the store: send, where makeSendRequest calls
  -- doSendTransaction itself and so selects and marks the outputs in one call, drop a transaction that
  -- failed or was seen, set an id, write and read the file.
  pub data Reachable : UnconfirmedTransactions T → Type 0 where
    starts : Reachable (record { unconfirmed_txs = []; used_outputs = [] })
    sends_at_once :
        (s : UnconfirmedTransactions T)
        → Reachable s
        → (settings : Settings) (now needed dust : ℕ) (add_dust : Bool) (g : G) (c : Container)
        → AreDistinct (spendable settings now c)
        → (found : ℕ) (selected : List Transfer)
        → select_transfers_to_send draw settings now c (s.used_outputs) needed add_dust dust g
          ≡ some (found, selected)
        → (tx : T) (id amount : ℕ)
        → Reachable (add get_transaction_hash now tx id amount selected s)
    erases : (s : UnconfirmedTransactions T) → Reachable s → (hash : ℕ) → Reachable (erase hash s)
    updates :
        (s : UnconfirmedTransactions T)
        → Reachable s
        → (hash id : ℕ) → Reachable (update_transaction_id hash id s)
    reads : (s : UnconfirmedTransactions T) → Reachable s → Reachable (collect_used_outputs s)

  module _ (settings : Settings) (now needed dust : ℕ) (add_dust : Bool) (g : G) (c : Container)
      (distinct : AreDistinct (spendable settings now c)) where
    selected_apart :
        (s : UnconfirmedTransactions T) (found : ℕ) (selected : List Transfer)
        → Marks s
        → select_transfers_to_send draw settings now c (s.used_outputs) needed add_dust dust g
          ≡ some (found, selected)
        → (id : OutputId) → occurrences id s.unconfirmed_txs + count (with_id id) selected ≤ 1
    unfolding Pays Marks AreDistinct
    selected_apart s found selected marks run id =
        let (found', selected', run', (none_used, most, money, end)) =
          select_transfers_to_send_lem draw within settings now (s.used_outputs) needed dust
            add_dust g c in
        let same : selected' ≡ selected =
          ap (λ (x : ℕ × List Transfer). x.1) (some-injective _ _ (sym run' ∙ run)) in
        let unused : count (is_used s.used_outputs) selected ≡ 0 =
          ap (count (is_used s.used_outputs)) (sym same) ∙ none_used in
        let once : count (with_id id) selected ≤ 1 =
          omega (arith, ap (count (with_id id)) same, most (with_id id), distinct id) in
        omega (arith, marks id, apart_cases id (s.used_outputs) selected unused once)

  -- For a wallet that sends with mixIn 0 only, and only when its spendable outputs differ in their
  -- transaction key or index: after any calls, an output is marked as used if and only if a transaction
  -- on its way lists it, and then one alone does, once. A wallet that sends with another mixIn is not
  -- covered.
  pub reachable-Marks : (s : UnconfirmedTransactions T) → Reachable s → Marks s
  unfolding Marks occurrences is_member
  reachable-Marks s starts = λ id. refl
  reachable-Marks s
        (sends_at_once s' r settings now needed dust add_dust g c distinct found selected run tx id
          amount) =
      add-Marks get_transaction_hash now tx id amount selected s' (reachable-Marks s' r) (
        selected_apart settings now needed dust add_dust g c distinct s' found selected
          (reachable-Marks s' r) run)
  reachable-Marks s (erases s' r hash) = erase-Marks hash s' (reachable-Marks s' r)
  reachable-Marks s (updates s' r hash id) =
      update_transaction_id-Marks hash id s' (reachable-Marks s' r)
  reachable-Marks s (reads s' r) = collect-Marks s' (reachable-Marks s' r)

  -- For a wallet that sends with mixIn 0 only, and only when its spendable outputs differ in their
  -- transaction key or index, as they do now: after any calls, selectTransfersToSend returns, and what
  -- it selects are outputs that differ from each other and from those of all transactions on their way.
  -- A wallet that sends with another mixIn is not covered.
  pub select_transfers_to_send-Reachable :
      (s : UnconfirmedTransactions T)
      → Reachable s
      → (settings : Settings) (now needed dust : ℕ) (add_dust : Bool) (g : G) (c : Container)
      → AreDistinct (spendable settings now c)
      → (found : ℕ) × (selected : List Transfer) × (select_transfers_to_send draw settings now c
            (s.used_outputs)
            needed
            add_dust
            dust
            g
          ≡ some (found, selected))
        × ((id : OutputId) → occurrences id s.unconfirmed_txs + count (with_id id) selected ≤ 1)
  select_transfers_to_send-Reachable s r settings now needed dust add_dust g c distinct =
      let (found, selected, run, pays) =
        select_transfers_to_send_lem draw within settings now (s.used_outputs) needed dust add_dust
          g c in
      (
        found,
        selected,
        run,
        selected_apart settings now needed dust add_dust g c distinct s found selected
            (reachable-Marks s r) run,
      )
