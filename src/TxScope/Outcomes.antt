-- ===== src/TxScope/Outcomes.antt =====
-- How `TxScope` of tx_scope.go ends a transaction.
use goen.Prelude.{List, [], ◌∷◌, ◌++◌, Str, ◌≡◌, ◌∙◌, ◌↔◌, refl, Option, none, some}
use goen.Go.Result.{Result, ok, err, panic}
use goen.TxScope.{Call, used, commit, rollback, CommitError, committed, tx_scope_do}

-- The state of a transaction after some calls: it can be ended once, and ending it again has no
-- effect (database/sql answers with ErrTxDone). A Commit that fails ends it too, and what the
-- database did is then not known.
pub data TxState : Type 0 where
  open_tx committed_tx rolled_back_tx failed_tx : TxState

abbrev pub ended_by : Option Str → TxState
ended_by none = committed_tx
ended_by (some e) = failed_tx

-- `failed` is the error of a Commit of this transaction, if it fails.
abbrev pub after : Option Str → TxState → Call → TxState
after failed open_tx commit = ended_by failed
after failed open_tx rollback = rolled_back_tx
after failed s c = s

abbrev pub final_state : Option Str → TxState → List Call → TxState
final_state failed s [] = s
final_state failed s (c ∷ cs) = final_state failed (after failed s c) cs

-- The function leaves the ending to the scope.
abbrev pub OnlyUses : List Call → Type 0
OnlyUses [] = Unit
OnlyUses (used q ∷ cs) = OnlyUses cs
OnlyUses (commit ∷ cs) = ⊥
OnlyUses (rollback ∷ cs) = ⊥

final_state-append :
    (failed : Option Str) (cs ds : List Call)
    → OnlyUses cs
    → final_state failed open_tx (cs ++ ds) ≡ final_state failed open_tx ds
final_state-append failed [] ds h = refl
final_state-append failed (used q ∷ cs) ds h = final_state-append failed cs ds h
final_state-append failed (commit ∷ cs) ds h = absurd h
final_state-append failed (rollback ∷ cs) ds h = absurd h

then_rolled_back :
    (failed : Option Str) → final_state failed (ended_by failed) (rollback ∷ []) ≡ ended_by failed
then_rolled_back none = refl
then_rolled_back (some e) = refl

abbrev pub expected_state : Option Str → Result (Unit {0}) → TxState
expected_state failed (ok x) = ended_by failed
expected_state failed (err e) = rolled_back_tx
expected_state failed (panic p) = rolled_back_tx

-- A transaction that was begun never stays open: if the function returned nil, it is committed, or
-- ended by the Commit that failed, and if the function returned an error or panicked, it is rolled
-- back. The function must not end it itself.
pub tx_scope_do-state :
    (e : CommitError) (calls : List Call) (r : Result (Unit {0}))
    → OnlyUses calls
    → final_state (e calls) open_tx (tx_scope_do e none (calls, r)).0 ≡ expected_state (e calls) r
unfolding tx_scope_do
tx_scope_do-state e calls (ok x) h =
    final_state-append (e calls) calls _ h ∙ then_rolled_back (e calls)
tx_scope_do-state e calls (err x) h = final_state-append (e calls) calls _ h
tx_scope_do-state e calls (panic p) h = final_state-append (e calls) calls _ h

committed-ok : (o : Option Str) → (committed o ≡ ok tt) ↔ (o ≡ none)
committed-ok none = (λ h. refl, λ h. refl)
committed-ok (some e) = (λ h. cc, λ h. cc)

-- The scope returns nil exactly if the transaction was begun, the function returned nil and the
-- commit did not fail.
pub tx_scope_do-ok :
    (e : CommitError) (begun : Option Str) (calls : List Call) (r : Result (Unit {0}))
    → ((tx_scope_do e begun (calls, r)).1 ≡ ok tt)
      ↔ ((begun ≡ none) × (r ≡ ok tt) × (e calls ≡ none))
unfolding tx_scope_do
tx_scope_do-ok e (some x) calls r = (λ h. cc, λ h. cc (h.0))
tx_scope_do-ok e none calls (ok x) =
    (λ h. (refl, refl, (committed-ok (e calls)).0 h), λ h. (committed-ok (e calls)).1 h.2)
tx_scope_do-ok e none calls (err x) = (λ h. cc, λ h. cc (h.1))
tx_scope_do-ok e none calls (panic p) = (λ h. cc, λ h. cc (h.1))
