-- ===== src/QueryRunner.antt =====
-- query_runner.go: `StmtCacher`, the cache of prepared statements, and `txPreparer`. The lock is
-- held for the whole of each method, so that a method is one step.
pub mod Caching
use goen.Prelude.{ℕ, List, [], ◌∷◌, ◌++◌, map, Str, length, Option, none, some}
use goen.Go.Result.{Result, ok, err, panic, error_value, ◌>>=◌}
use goen.Go.Map.{Map, lookup, insert}

-- sqr.PreparerContext: preparing a query may change the database's state, and may fail.
abbrev pub Preparer : Type 0 → Type 0 → Type 0
Preparer DB Stmt = Str → DB → DB × Result Stmt

-- `db` is the state behind the preparer, `closed` the statements closed so far.
pub record StmtCacher (DB Stmt : Type 0) : Type 0 where
  pub db : DB
  pub cache : Map Stmt
  pub closed : List Stmt

module _ {DB Stmt : Type 0} where
  -- `NewStmtCacher`
  abbrev pub new_stmt_cacher : DB → StmtCacher DB Stmt
  new_stmt_cacher db = record { db = db; cache = []; closed = [] }

  -- `StmtStats().CachedStmts`
  unfoldable pub stmt_stats : StmtCacher DB Stmt → ℕ
  stmt_stats c = length c.cache

  abbrev pub store : Str → DB × Result Stmt → StmtCacher DB Stmt → StmtCacher DB Stmt × Result Stmt
  store query (db, ok stmt) c = (record c { db = db; cache = insert query stmt c.cache }, ok stmt)
  store query (db, err e) c = (record c { db = db }, err e)
  store query (db, panic p) c = (record c { db = db }, panic p)

  -- `PrepareContext`; the context is left out.
  unfoldable pub prepare :
      Preparer DB Stmt → Str → StmtCacher DB Stmt → StmtCacher DB Stmt × Result Stmt
  prepare prep query c = elim (lookup query c.cache) [
    | some stmt ↦ (c, ok stmt)
    | none ↦ store query (prep query c.db) c
  ]

  -- `Close`
  unfoldable pub close : StmtCacher DB Stmt → StmtCacher DB Stmt
  close c = record c { cache = []; closed = c.closed ++ map (λ e. e.1) c.cache }

  -- `ExecContext` and `QueryContext`: `run` is the call on the prepared statement.
  unfoldable pub run_prepared {ℓ} :
      {R : Type ℓ}
      → (Stmt → DB → DB × Result R)
      → Preparer DB Stmt
      → Str
      → StmtCacher DB Stmt
      → StmtCacher DB Stmt × Result R
  unfolding prepare
  run_prepared run prep query c =
      let (c', r) = prepare prep query c in
      elim r [
        | ok stmt ↦ (let (db, x) = run stmt c'.db in (record c' { db = db }, x))
        | err e ↦ (c', err e)
        | panic p ↦ (c', panic p)
      ]

  -- `QueryRowContext` panics where the others return the error.
  unfoldable pub query_row {ℓ} :
      {R : Type ℓ}
      → (Stmt → DB → DB × Result R)
      → Preparer DB Stmt
      → Str
      → StmtCacher DB Stmt
      → StmtCacher DB Stmt × Result R
  unfolding prepare
  query_row run prep query c =
      let (c', r) = prepare prep query c in
      elim r [
        | ok stmt ↦ (let (db, x) = run stmt c'.db in (record c' { db = db }, x))
        | err e ↦ (c', panic (error_value e))
        | panic p ↦ (c', panic p)
      ]

  -- `txPreparer.PrepareContext`: `stmt_context` is `tx.StmtContext`.
  unfoldable pub tx_prepare : (Stmt → Stmt) → Preparer DB Stmt → Preparer DB Stmt
  tx_prepare stmt_context prep query db =
      let (db', r) = prep query db in (db', r >>= λ stmt. ok (stmt_context stmt))
