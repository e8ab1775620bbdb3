-- ===== src/Transfers/Outputs.antt =====
-- src/transfers/TransfersContainer.cpp: what a client sees after any calls.
use lira.Prelude.{
  ℕ, ◌≡◌, refl, arith, Option, none, some, some-injective, none-ne-some, ◌>>=◌, bind_inv, List, [],
  ◌∷◌, subst,
}
use lira.Transfers.{BlockInfo, TransferIn, Container, Outcome, done, threw, failed}
use lira.Transfers.Add.{Transaction, add_transaction}
use lira.Transfers.Delete.{
  delete_unconfirmed_transaction, mark_transaction_confirmed, detach, advance_height,
}
use lira.Transfers.Counts.{Ends}
use lira.Transfers.Settled.{expected_available, expected_unconfirmed, Settled, AllSettled}
use lira.Transfers.Adding.{add_transaction-AllSettled}
use lira.Transfers.Deleting.{
  delete_unconfirmed_transaction-AllSettled, detach-AllSettled, advance_height-AllSettled,
}
use lira.Transfers.Confirming.{mark_transaction_confirmed-AllSettled}

pub data Call : Type 0 where
  adds : BlockInfo → Transaction → List TransferIn → Call
  deletes : ℕ → Call
  confirms : BlockInfo → ℕ → List ℕ → Call
  detaches : ℕ → Call
  advances : ℕ → Call

-- The state after a call, an exception included; `none` is a failed assertion.
unfoldable pub after : {A : Type 0} → Outcome (Container × A) → Option Container
after (done (c, a)) = some c
after (threw c) = some c
after failed = none

unfoldable pub step : Call → Container → Option Container
step (adds block tx transfers) c = after (add_transaction block tx transfers c)
step (deletes h) c = after (delete_unconfirmed_transaction h c)
step (confirms block h global_indices) c =
    after (mark_transaction_confirmed block h global_indices c)
step (detaches height) c = after (detach height c)
step (advances height) c = some ((advance_height height c).0)

unfoldable pub run : List Call → Container → Option Container
run [] c = some c
run (call ∷ calls) c = step call c >>= run calls

abbrev pub empty_container : Container
empty_container = record {
  current_height = 0;
  transactions = [];
  unconfirmed = [];
  available = [];
  spent = [];
}

after-AllSettled :
    {A : Type 0} (m : Outcome (Container × A)) (c : Container)
    → Ends AllSettled (λ (x : Container × A). AllSettled (x.0)) m
    → after m ≡ some c
    → AllSettled c
unfolding after Ends
after-AllSettled (done (d, a)) c all e = subst AllSettled (some-injective _ _ e) all
after-AllSettled (threw d) c all e = subst AllSettled (some-injective _ _ e) all
after-AllSettled failed c all e = absurd (none-ne-some c e)

step-AllSettled :
    (call : Call) (c d : Container) → AllSettled c → step call c ≡ some d → AllSettled d
unfolding step
step-AllSettled (adds block tx ts) c d all e =
    after-AllSettled _ d (add_transaction-AllSettled block tx ts c all) e
step-AllSettled (deletes h) c d all e =
    after-AllSettled _ d (delete_unconfirmed_transaction-AllSettled h c all) e
step-AllSettled (confirms block h is) c d all e =
    after-AllSettled _ d (mark_transaction_confirmed-AllSettled block h is c all) e
step-AllSettled (detaches height) c d all e =
    after-AllSettled _ d (detach-AllSettled height c all) e
step-AllSettled (advances height) c d all e =
    subst AllSettled (some-injective _ _ e) (advance_height-AllSettled height c all)

settled_run :
    (calls : List Call) (c d : Container) → AllSettled c → run calls c ≡ some d → AllSettled d
unfolding run
settled_run [] c d all e = subst AllSettled (some-injective _ _ e) all
settled_run (call ∷ calls) c d all e =
    let (c', one, rest) = bind_inv (step call c) (run calls) e in
    settled_run calls c' d (step-AllSettled call c c' all one) rest

empty-AllSettled : AllSettled empty_container
unfolding AllSettled Settled expected_available expected_unconfirmed
empty-AllSettled k = (omega arith, refl, refl)

-- Whatever was called since the container was empty, also calls that threw: every key image is spent
-- at most once; once it is spent, none of its outputs is visible; otherwise one of its available ones is,
-- and no unconfirmed one, if there are any available; and if there are none, the unconfirmed one is if
-- it is the only one, and none else.
pub run-AllSettled :
    (calls : List Call) (c : Container) → run calls empty_container ≡ some c → AllSettled c
run-AllSettled calls c e = settled_run calls empty_container c empty-AllSettled e
