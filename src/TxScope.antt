-- ===== src/TxScope.antt =====
-- tx_scope.go: a function run inside a transaction. The *sql.Tx is known by the calls made on it.
pub mod Outcomes
use goen.Prelude.{List, [], ◌∷◌, ◌++◌, Str, Option, none, some}
use goen.Go.Result.{Result, ok, err, panic}

-- The calls on the transaction: those that the function makes, and the two that end it.
pub data Call : Type 0 where
  used : Str → Call
  commit rollback : Call

-- What a function does with a transaction: its calls, and how it ends.
abbrev pub Body : Type 0
Body = List Call × Result (Unit {0})

-- Package database/sql: the error of `Commit` on a transaction after those calls, if any.
abbrev pub CommitError : Type 0
CommitError = List Call → Option Str

-- `return tx.Commit()`
abbrev pub committed : Option Str → Result (Unit {0})
committed none = ok tt
committed (some e) = err e

-- The branch behind the call of `fn`, and then the deferred `tx.Rollback()`, also on a panic.
unfoldable pub end_scope : CommitError → List Call → Result (Unit {0}) → Body
end_scope commit_error calls (ok x) =
    (calls ++ commit ∷ rollback ∷ [], committed (commit_error calls))
end_scope commit_error calls (err e) = (calls ++ rollback ∷ [], err e)
end_scope commit_error calls (panic p) = (calls ++ rollback ∷ [], panic p)

-- `TxScope(tx, err).Do(fn)`: `begun` is the error `err`, `fn` what the function does.
unfoldable pub tx_scope_do : CommitError → Option Str → Body → Body
unfolding end_scope
tx_scope_do commit_error (some e) fn = ([], err e)
tx_scope_do commit_error none (calls, r) = end_scope commit_error calls r
