-- ===== src/Sending/Occurrences.antt =====
-- src/wallet/WalletUnconfirmedTransactions.cpp: how often the entries list an output, after each call.
use lira.Prelude.{
  ℕ, ◌+◌, ◌≤◌, ◌≡◌, refl, sym, ap, ◌∙◌, arith, ltb, not, ◌&&◌, ◌||◌, ◌==◌, Bool-cases, inl, inr,
  if◌then◌else◌, Bool, true, false, Option, none, some, none-ne-some, some-injective, List, [], ◌∷◌,
  ◌++◌, map,
}
use lira.Transfers.{Transfer, bit, count}
use lira.Sending.Unconfirmed.{
  OutputId, UnconfirmedTransferDetails, Entries, UnconfirmedTransactions, get_output_id, same_id,
  is_member, insert_ids, erase_ids, new_details, find_entry, erase_entry, at_entry, fill_details,
  update_entry, collect_ids, collect_used_outputs, add, erase, update_transaction_id,
}
use lira.Sending.Stored.{is_member-insert_ids, is_member-erase_ids, times, is_member-times}

times-append :
    (id : OutputId) (xs ys : List OutputId) → times id (xs ++ ys) ≡ times id xs + times id ys
times-append id [] ys = omega arith
times-append id (x ∷ xs) ys = omega (arith, times-append id xs ys)

-- The outputs with an id.
abbrev pub with_id : OutputId → Transfer → Bool
with_id id t = same_id id (get_output_id t)

pub times-map :
    (id : OutputId) (ts : List Transfer) → times id (map get_output_id ts) ≡ count (with_id id) ts
times-map id [] = refl
times-map id (t ∷ ts) = omega (arith, times-map id ts)

added : (m n : ℕ) (b : Bool) → m ≡ bit b → m + n ≤ 1 → m + n ≡ bit (ltb 0 n || b)
added m n true e le = ground (arith, e)
added m n false e le = ground (arith, e)

erased : (m n : ℕ) (b : Bool) → n + m ≡ bit b → m ≡ bit (not (ltb 0 n) && b)
erased m n true e = ground (arith, e)
erased m n false e = ground (arith, e)

module _ {T : Type 0} where
  unfoldable pub occurrences : OutputId → Entries T → ℕ
  occurrences id [] = 0
  occurrences id ((h, d) ∷ txs) = times id (d.used_outputs) + occurrences id txs

  -- Every output that is marked is in one entry, once, and no other is in any.
  unfoldable pub Marks : UnconfirmedTransactions T → Type 0
  Marks s = (id : OutputId) → occurrences id s.unconfirmed_txs ≡ bit (is_member id s.used_outputs)

  occurrences-at_entry :
      (id : OutputId) (hash : ℕ) (f : UnconfirmedTransferDetails T → UnconfirmedTransferDetails T)
      (more : List OutputId) (txs : Entries T)
      → ((d : UnconfirmedTransferDetails T) → (f d).used_outputs ≡ d.used_outputs ++ more)
      → occurrences id (at_entry hash f txs) ≡ occurrences id txs + times id more
  unfolding occurrences at_entry
  occurrences-at_entry id hash f more [] appends =
      omega (arith, ap (times id) (appends new_details))
  occurrences-at_entry id hash f more ((h, d) ∷ txs) appends = elim (Bool-cases (h == hash)) [
    | inl e ↦ rw e (omega (arith, ap (times id) (appends d), times-append id (d.used_outputs) more))
    | inr e ↦ rw e (omega (arith, occurrences-at_entry id hash f more txs appends))
  ]

  occurrences-erase_entry :
      (id : OutputId) (hash : ℕ) (txs : Entries T) (d : UnconfirmedTransferDetails T)
      → find_entry hash txs ≡ some d
      → times id (d.used_outputs) + occurrences id (erase_entry hash txs) ≡ occurrences id txs
  unfolding occurrences erase_entry find_entry
  occurrences-erase_entry id hash [] d = λ h. absurd (none-ne-some d h)
  occurrences-erase_entry id hash ((k, e) ∷ txs) d =
      cases (k == hash) (occurrences-erase_entry id hash txs d)
    where
      cases :
          (b : Bool)
          → (find_entry hash txs ≡ some d
              → times id (d.used_outputs) + occurrences id (erase_entry hash txs)
                ≡ occurrences id txs)
          → (if b then some e else find_entry hash txs) ≡ some d
          → times id (d.used_outputs)
              + occurrences id (if b then txs else ((k, e) ∷ erase_entry hash txs))
            ≡ times id (e.used_outputs) + occurrences id txs
      cases true rest h =
          ap (λ (x : UnconfirmedTransferDetails T). times id (x.used_outputs) + occurrences id txs)
            (sym (some-injective _ _ h))
      cases false rest h = omega (arith, rest h)

  occurrences-update_entry :
      (id : OutputId) (hash new_id : ℕ) (txs : Entries T)
      → occurrences id (update_entry hash new_id txs) ≡ occurrences id txs
  unfolding occurrences update_entry
  occurrences-update_entry id hash new_id [] = refl
  occurrences-update_entry id hash new_id ((k, d) ∷ txs) = elim (Bool-cases (k == hash)) [
    | inl e ↦ rw e refl
    | inr e ↦ rw e (omega (arith, occurrences-update_entry id hash new_id txs))
  ]

  is_member-collect_ids :
      (id : OutputId) (txs : Entries T) (used : List OutputId)
      → is_member id (collect_ids txs used) ≡ (ltb 0 (occurrences id txs) || is_member id used)
  unfolding occurrences collect_ids
  is_member-collect_ids id [] used = refl
  is_member-collect_ids id ((h, d) ∷ txs) used =
      is_member-collect_ids id txs (insert_ids (d.used_outputs) used)
      ∙ ap (λ (b : Bool). ltb 0 (occurrences id txs) || b)
          (is_member-insert_ids id (d.used_outputs) used)
      ∙ ap (λ (b : Bool). ltb 0 (occurrences id txs) || (b || is_member id used))
          (is_member-times id (d.used_outputs))
      ∙ either (times id (d.used_outputs)) (occurrences id txs) (is_member id used)
    where
      either : (m n : ℕ) (c : Bool) → (ltb 0 n || (ltb 0 m || c)) ≡ (ltb 0 (m + n) || c)
      either m n c = ground arith

  pub add-Marks :
      (get_hash : T → ℕ) (now : ℕ) (tx : T) (id amount : ℕ) (outs : List Transfer)
      (s : UnconfirmedTransactions T)
      → Marks s
      → ((x : OutputId) → occurrences x s.unconfirmed_txs + count (with_id x) outs ≤ 1)
      → Marks (add get_hash now tx id amount outs s)
  unfolding Marks add fill_details
  add-Marks get_hash now tx id amount outs s marks apart x =
      let ids = map get_output_id outs in
      let entry : occurrences x
            (at_entry (get_hash tx) (fill_details tx id amount now outs) s.unconfirmed_txs)
          ≡ occurrences x s.unconfirmed_txs + times x ids =
        occurrences-at_entry x (get_hash tx) (fill_details tx id amount now outs) ids
          (s.unconfirmed_txs) (λ d. refl) in
      entry
      ∙ added (occurrences x s.unconfirmed_txs) (times x ids) (is_member x s.used_outputs) (marks x)
          (omega (arith, apart x, times-map x outs))
      ∙ ap bit (
          ap (λ (b : Bool). b || is_member x s.used_outputs) (sym (is_member-times x ids))
          ∙ sym (is_member-insert_ids x ids (s.used_outputs)))

  pub erase-Marks : (hash : ℕ) (s : UnconfirmedTransactions T) → Marks s → Marks (erase hash s)
  unfolding Marks erase
  erase-Marks hash s marks = cases (find_entry hash (s.unconfirmed_txs)) refl
    where
      cases :
          (r : Option (UnconfirmedTransferDetails T))
          → find_entry hash (s.unconfirmed_txs) ≡ r
          → Marks (elim r as (λ _. UnconfirmedTransactions T) [
            | none ↦ s
            | some d ↦ record {
              unconfirmed_txs = erase_entry hash (s.unconfirmed_txs);
              used_outputs = erase_ids (d.used_outputs) (s.used_outputs);
            }
          ])
      cases none e = marks
      cases (some d) e = λ x.
          erased (occurrences x (erase_entry hash s.unconfirmed_txs)) (times x (d.used_outputs))
            (is_member x s.used_outputs)
            (occurrences-erase_entry x hash (s.unconfirmed_txs) d e ∙ marks x)
          ∙ ap bit (
              ap (λ (b : Bool). not b && is_member x s.used_outputs)
                (sym (is_member-times x (d.used_outputs)))
              ∙ sym (is_member-erase_ids x (d.used_outputs) (s.used_outputs)))

  pub update_transaction_id-Marks :
      (hash id : ℕ) (s : UnconfirmedTransactions T)
      → Marks s
      → Marks (update_transaction_id hash id s)
  unfolding Marks update_transaction_id
  update_transaction_id-Marks hash id s marks x =
      occurrences-update_entry x hash id (s.unconfirmed_txs) ∙ marks x

  -- What is read from a file marks the same outputs.
  collect_used_outputs_lem :
      (s : UnconfirmedTransactions T)
      → Marks s
      → (x : OutputId)
      → is_member x ((collect_used_outputs s).used_outputs) ≡ is_member x s.used_outputs
  unfolding Marks collect_used_outputs is_member
  collect_used_outputs_lem s marks x =
      is_member-collect_ids x (s.unconfirmed_txs) []
      ∙ same (occurrences x s.unconfirmed_txs) (is_member x s.used_outputs) (marks x)
    where
      same : (n : ℕ) (b : Bool) → n ≡ bit b → (ltb 0 n || false) ≡ b
      same n true e = ground (arith, e)
      same n false e = ground (arith, e)

  pub collect-Marks : (s : UnconfirmedTransactions T) → Marks s → Marks (collect_used_outputs s)
  unfolding Marks collect_used_outputs
  collect-Marks s marks x = marks x ∙ ap bit (sym (collect_used_outputs_lem s marks x))
