-- ===== src/DbContext.antt =====
-- db_ctx.go: the context, its buffer of patches, and saving them. `ToSql` of squirrel and
-- `ExecContext` of the query runner are parameters; debug output and the Go contexts are left out.
-- The scanning of rows is in Scan.
pub mod Saving
use goen.Prelude.{ℕ, length, List, [], ◌∷◌, ◌++◌, Str, ℤ, pos, Option, none, some}
use goen.Go.Result.{Result, ok, err, panic, message, ◌>>=◌}
use goen.Go.Value.{Value}
use goen.Go.Map.{Map, lookup}
use goen.Squirrel.{Squirrel}
use goen.Dialect.{Dialect}
use goen.Patch.{Patch}
use goen.Compiler.{CompilerOptions, default_compile}

-- `PatchCompiler`
abbrev pub PatchCompiler : Squirrel → Type 0
PatchCompiler q = CompilerOptions q → Result (List q.Sqlizer)

-- What `QueryRunner` holds: the *sql.DB, a *sql.Tx by its name, or a StmtCacher by its place among
-- the cachers that were made.
pub data Runner : Type 0 where
  db_runner : Runner
  tx_runner : Str → Runner
  cacher_runner : ℕ → Runner

-- What a cacher prepares on: the *sql.DB, or a `txPreparer` with its transaction and the cacher that
-- it asks.
pub data Source : Type 0 where
  db_source : Source
  tx_source : Str → ℕ → Source

-- `DBContext`, as far as saving and including look at it.
pub record DbContext (q : Squirrel) : Type 0 where
  pub compiler : Option (PatchCompiler q)
  pub max_include_depth : ℤ
  pub tx : Option Str
  pub runner : Runner
  pub dialect : Dialect q
  pub patch_buffer : List (Patch q)

-- A query and its arguments.
abbrev pub Query : Type 0
Query = Str × List Value

-- What is done with the world behind a step that ended well.
abbrev pub and_then :
    {W : Type 0} → W × Result (Unit {0}) → (W → W × Result (Unit {0})) → W × Result (Unit {0})
and_then (w, ok x) f = f w
and_then (w, err e) f = (w, err e)
and_then (w, panic p) f = (w, panic p)

-- `X` is the type of the statements, `to_sql` their `ToSql`, `exec` the runner's `ExecContext`.
module _ {X W : Type 0} (to_sql : X → Result Query) (exec : Query → W → W × Result (Unit {0})) where
  -- One round of the loop: ToSql, then ExecContext.
  unfoldable pub save_one : X → W → W × Result (Unit {0})
  save_one sqlizer w = elim (to_sql sqlizer) [
    | ok query ↦ exec query w
    | err e ↦ (w, err e)
    | panic p ↦ (w, panic p)
  ]

  -- The loop of `SaveChangesContext`: it returns at the first error.
  unfoldable pub save_all : List X → W → W × Result (Unit {0})
  unfolding save_one
  save_all [] w = (w, ok tt)
  save_all (s ∷ sqlizers) w = and_then (save_one s w) λ w'. save_all sqlizers w'

  -- Behind the compiler: the loop, or its panic.
  unfoldable pub save_compiled : Result (List X) → W → W × Result (Unit {0})
  unfolding save_all
  save_compiled (ok sqlizers) w = save_all sqlizers w
  save_compiled (err e) w = (w, err e)
  save_compiled (panic p) w = (w, panic p)

-- `QuerySqlizerContext`, `QuerySqlizer`: `run` is the runner's `QueryContext`.
unfoldable pub query_sqlizer :
    {X W R : Type 0} → (X → Result Query) → (Query → W → W × Result R) → X → W → W × Result R
query_sqlizer to_sql run sqlizer w = elim (to_sql sqlizer) [
  | ok query ↦ run query w
  | err e ↦ (w, err e)
  | panic p ↦ (w, panic p)
]

-- `QueryRowSqlizerContext`, `QueryRowSqlizer`: with no error to return they panic.
unfoldable pub query_row_sqlizer :
    {X W R : Type 0} → (X → Result Query) → (Query → W → W × Result R) → X → W → W × Result R
query_row_sqlizer to_sql run sqlizer w = elim (to_sql sqlizer) [
  | ok query ↦ run query w
  | err e ↦ (w, panic (message "goen: sqlizer.ToSql returns error: " e))
  | panic p ↦ (w, panic p)
]

-- The runner of a transaction, and the cachers with the one that was made for it.
unfoldable pub use_tx_runner : Str → Runner → List Source → Runner × List Source
use_tx_runner tx (cacher_runner i) cachers =
    (cacher_runner (length cachers), cachers ++ tx_source tx i ∷ [])
use_tx_runner tx r cachers = (tx_runner tx, cachers)

module _ {q : Squirrel} where
  -- `NewDBContext`: the table holds the registered dialects.
  unfoldable pub new_db_context : Map (Dialect q) → Str → Result (DbContext q)
  new_db_context dialects dialect_name = elim (lookup dialect_name dialects) [
    | none ↦ panic (message "goen: unknown dialect (forgotten import?) " dialect_name)
    | some d ↦ ok (record {
      compiler = none;
      max_include_depth = pos 10;
      tx = none;
      runner = db_runner;
      dialect = d;
      patch_buffer = [];
    })
  ]

  -- `UseTx`: a copy with the transaction, a runner for it, and a buffer of its own with the same
  -- patches.
  unfoldable pub use_tx : Str → DbContext q → List Source → DbContext q × List Source
  unfolding use_tx_runner
  use_tx tx dbc cachers =
      let (r, cachers') = use_tx_runner tx dbc.runner cachers in
      (record dbc { tx = some tx; runner = r }, cachers')

  -- `Patch`
  unfoldable pub patch : Patch q → DbContext q → DbContext q
  patch v dbc = record dbc { patch_buffer = dbc.patch_buffer ++ v ∷ [] }

  -- A context with no compiler uses the default one.
  abbrev pub compile_with : Option (PatchCompiler q) → PatchCompiler q
  compile_with none opts = default_compile opts
  compile_with (some compile) opts = compile opts

  -- `CompilePatch`: the buffer is emptied first, however the compiler ends.
  unfoldable pub compile_patch : DbContext q → DbContext q × Result (List q.Sqlizer)
  compile_patch dbc = (
    record dbc { patch_buffer = [] },
    compile_with dbc.compiler
        (record { dialect = some dbc.dialect; patches = dbc.patch_buffer; hook = none }),
  )

  -- `SaveChangesContext`
  unfoldable pub save_changes :
      {W : Type 0}
      → (q.Sqlizer → Result Query)
      → (Query → W → W × Result (Unit {0}))
      → DbContext q
      → W
      → DbContext q × (W × Result (Unit {0}))
  unfolding save_compiled compile_patch
  save_changes to_sql exec dbc w =
      let (dbc', r) = compile_patch dbc in (dbc', save_compiled to_sql exec r w)
